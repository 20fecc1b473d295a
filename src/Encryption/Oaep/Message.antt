-- ===== src/Encryption/Oaep/Message.antt =====
-- The encoded message of OAEP: the parts of encryptOAEP and decryptOAEP in
-- encryption/go_rsa_oaep_port.go that stand between the reading of the seed and the operations of RSA.
pub mod RoundTrip
pub mod Decode
use go_encrypted_config_valu.Base.{
  ℕ, true, leb, ◌*◌, ◌≤◌, ◌≡◌, refl, arith, ◌+◌, ◌-◌, Bytes, ◌∷◌, ◌++◌, get_elem?, length, slice,
}
use go_encrypted_config_valu.Base.Outcome.{Outcome, ok, ◌>>=◌, ◌>>◌, deref, demand}
use go_encrypted_config_valu.Encryption.Oaep.Mask.{Hash, mgf1_xor}
use go_encrypted_config_valu.Encryption.Oaep.Padding.{data_block, ct_byte_eq, check_padding}

-- The run-time checks of encryptOAEP where it cuts `em` of `k` bytes and the block `db` in it: those of
-- `em[1:1+size]` and `em[1+size:]`, of `db[0:size]`, and of `db[len(db)-len(msg)-1]`.
unfoldable pub check_room : ℕ → ℕ → ℕ → Outcome (Unit {0})
check_room size k msg_length = do
  demand (leb (1 + size) k)
  let db_length = k - (1 + size)
  demand (leb size db_length)
  demand (leb (msg_length + 1) db_length)

-- A message that fits has room.
pub check_room_lem :
    (size k msg_length : ℕ) → msg_length + 2 * size + 2 ≤ k → check_room size k msg_length ≡ ok tt
unfolding check_room
check_room_lem size k msg_length fits =
    let front : leb (1 + size) k ≡ true = ground (arith, fits) in
    let digest : leb size (k - (1 + size)) ≡ true = ground (arith, fits) in
    let mark : leb (msg_length + 1) (k - (1 + size)) ≡ true = ground (arith, fits) in
    rw (front, digest, mark) refl

module _ (oaep_hash mdf1_hash : Hash) where
  -- The encoded message `em` of `k` bytes.
  unfoldable pub encode_message : ℕ → Bytes → Bytes → Bytes → Outcome Bytes
  encode_message k msg label seed = do
    let db = data_block (k - 1 - oaep_hash.size) (oaep_hash.sum label) msg
    masked_db ← mgf1_xor db mdf1_hash seed
    masked_seed ← mgf1_xor seed mdf1_hash masked_db
    ok (0 ∷ (masked_seed ++ masked_db))

  -- The message in `em`. The slices have no spare capacity, since leftPad makes `em` with its length.
  unfoldable pub decode_message : Bytes → Bytes → Outcome Bytes
  decode_message em label = do
    first ← deref (get_elem? em 0)
    let first_byte_is_zero = ct_byte_eq first 0
    masked_seed ← slice em 1 (oaep_hash.size + 1)
    masked_db ← slice em (oaep_hash.size + 1) (length em)
    seed ← mgf1_xor masked_seed mdf1_hash masked_db
    db ← mgf1_xor masked_db mdf1_hash seed
    check_padding oaep_hash.size first_byte_is_zero (oaep_hash.sum label) db
