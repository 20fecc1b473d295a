-- ===== src/Encryption/Oaep/Padding.antt =====
-- The blocks of OAEP in encryption/go_rsa_oaep_port.go: the block that encryptOAEP writes, the scan
-- of decryptOAEP, and leftPad. The functions of crypto/subtle compute with the numbers 0 and 1.
pub mod Block
pub mod Check
use go_encrypted_config_valu.Base.{
  ℕ, ◌+◌, ◌-◌, min, [], ◌∷◌, ◌++◌, bit_and, Bytes, length, take, drop, replicate, slice, str_eq,
  ◌==◌, if◌then◌else◌,
}
use go_encrypted_config_valu.Base.Outcome.{Outcome, ◌>>=◌, err, decryption}

-- `copy(dst[off:], src)`
unfoldable pub copy_at : ℕ → Bytes → Bytes → Bytes
copy_at off src dst = take off dst ++ (take (length dst - off) src ++ drop (off + length src) dst)

-- leftPad
unfoldable pub left_pad : Bytes → ℕ → Bytes
left_pad input size =
    let n = min (length input) size in copy_at (size - n) (take n input) (replicate size 0)

-- The data block `db` of encryptOAEP, of `size` bytes, before it is masked.
unfoldable pub data_block : ℕ → Bytes → Bytes → Bytes
data_block size l_hash msg =
    let hashed = copy_at 0 l_hash (replicate size 0) in
    let marked = copy_at (size - length msg - 1) (1 ∷ []) hashed in
    copy_at (size - length msg) msg marked

-- ConstantTimeByteEq, ConstantTimeSelect, ConstantTimeCompare, and the operator `&^` on 0 and 1.
abbrev pub ct_byte_eq : ℕ → ℕ → ℕ
ct_byte_eq x y = if x == y then 1 else 0

abbrev pub ct_select : ℕ → ℕ → ℕ → ℕ
ct_select v x y = if v == 1 then x else y

abbrev pub ct_compare : Bytes → Bytes → ℕ
ct_compare x y = if str_eq x y then 1 else 0

infixl 70 ◌&◌ ◌&^◌
abbrev pub ◌&◌ : ℕ → ℕ → ℕ
a & b = bit_and a b

abbrev pub ◌&^◌ : ℕ → ℕ → ℕ
a &^ b = a - bit_and a b

-- The variables of the loop.
pub record Scan : Type 0 where
  pub looking_for_index : ℕ
  pub index : ℕ
  pub invalid : ℕ

unfoldable pub scan_byte : ℕ → ℕ → Scan → Scan
scan_byte i c s =
    let equals0 = ct_byte_eq c 0 in
    let equals1 = ct_byte_eq c 1 in
    let index = ct_select (s.looking_for_index & equals1) i s.index in
    let looking = ct_select equals1 0 s.looking_for_index in
    let invalid = ct_select (looking &^ equals0) 1 s.invalid in
    record { looking_for_index = looking; index = index; invalid = invalid }

unfoldable pub scan_from : ℕ → Bytes → Scan → Scan
scan_from i [] s = s
scan_from i (c ∷ rest) s = scan_from (i + 1) rest (scan_byte i c s)

-- The check of decryptOAEP behind the unmasking, and the message.
unfoldable pub check_padding : ℕ → ℕ → Bytes → Bytes → Outcome Bytes
check_padding hash_size first_byte_is_zero l_hash db = do
  l_hash2 ← slice db 0 hash_size
  let l_hash2_good = ct_compare l_hash l_hash2
  rest ← slice db hash_size (length db)
  let s = scan_from 0 rest (record { looking_for_index = 1; index = 0; invalid = 0 })
  if first_byte_is_zero & l_hash2_good &^ s.invalid &^ s.looking_for_index == 1
      then slice rest (s.index + 1) (length rest)
      else err decryption
