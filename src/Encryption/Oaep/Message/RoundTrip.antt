-- ===== src/Encryption/Oaep/Message/RoundTrip.antt =====
-- The encoded message of OAEP is decoded to the message.
use go_encrypted_config_valu.Base.{
  ℕ, zero, suc, replicate, IsBytes, IsByte, All-append, subst, ◌+◌, ◌*◌, ◌-◌, ◌≤◌, ◌∷◌, ◌++◌, Bytes,
  length, slice, slice_middle, slice_rest, [], refl, ◌≡◌, arith, length-append,
}
use go_encrypted_config_valu.Base.Outcome.{ok, ok-injective, >>=-eq-ok}
use go_encrypted_config_valu.Encryption.Oaep.Mask.{mgf1_xor, Hash}
use go_encrypted_config_valu.Encryption.Oaep.Mask.Mgf.{IsHash, mgf1_xor_twice, mgf1_xor-IsBytes}
use go_encrypted_config_valu.Encryption.Oaep.Padding.{data_block}
use go_encrypted_config_valu.Encryption.Oaep.Padding.Block.{data_block_lem, length-data_block}
use go_encrypted_config_valu.Encryption.Oaep.Padding.Check.{check_padding-block}
use go_encrypted_config_valu.Encryption.Oaep.Message.{encode_message, decode_message}

-- The encoded message of a message that fits, under a seed of the size of a digest, has the length
-- of the modulus, begins with a zero, and is decoded to the message, for hashes that meet their laws.
pub decode_message-encode :
    (oaep_hash mdf1_hash : Hash) (k : ℕ) (msg label seed : Bytes)
    → IsHash oaep_hash
    → IsHash mdf1_hash
    → length seed ≡ oaep_hash.size
    → length msg + 2 * oaep_hash.size + 2 ≤ k
    → (rest : Bytes) × (encode_message oaep_hash mdf1_hash k msg label seed ≡ ok (0 ∷ rest))
      × (length (0 ∷ rest) ≡ k)
      × (decode_message oaep_hash mdf1_hash (0 ∷ rest) label ≡ ok msg)
unfolding encode_message decode_message
decode_message-encode oaep_hash mdf1_hash k msg label seed oaep mdf1 seeded fits =
    let size = oaep_hash.size in
    let l_hash = oaep_hash.sum label in
    let hashed : length l_hash ≡ size = oaep.length_sum label in
    let z = k - 2 * size - 2 - length msg in
    let room : k - 1 - size ≡ length l_hash + (z + (1 + length msg)) = omega arith in
    let db = data_block (k - 1 - size) l_hash msg in
    let is_db = data_block_lem z l_hash msg (k - 1 - size) room in
    let (masked_db, mask_db, length_db, unmask_db) = mgf1_xor_twice mdf1_hash seed db mdf1 in
    let (masked_seed, mask_seed, length_seed, unmask_seed) =
      mgf1_xor_twice mdf1_hash masked_db seed mdf1 in
    let rest = masked_seed ++ masked_db in
    let front : slice (0 ∷ rest) 1 (size + 1) ≡ ok masked_seed =
      slice_middle (0 ∷ []) masked_seed masked_db 1 (size + 1) refl
        (omega (arith, length_seed, seeded)) in
    let back : slice (0 ∷ rest) (size + 1) (length (0 ∷ rest)) ≡ ok masked_db =
      slice_rest (0 ∷ masked_seed) masked_db (size + 1) (omega (arith, length_seed, seeded)) in
    (
      rest,
      rw (mask_db, mask_seed),
      omega (
        arith,
        length-append masked_seed masked_db,
        length_seed,
        length_db,
        length-data_block z l_hash msg (k - 1 - size) room,
      ),
      rw (front, back, unmask_seed, unmask_db, is_db)
          (check_padding-block l_hash msg size z hashed),
    )

-- The encoded message of bytes under a seed of bytes consists of bytes.
pub encode_message-IsBytes :
    (oaep_hash mdf1_hash : Hash) (k : ℕ) (msg label seed : Bytes) {em : Bytes}
    → IsHash oaep_hash
    → IsHash mdf1_hash
    → length msg + 2 * oaep_hash.size + 2 ≤ k
    → IsBytes msg
    → IsBytes seed
    → encode_message oaep_hash mdf1_hash k msg label seed ≡ ok em
    → IsBytes em
unfolding encode_message
encode_message-IsBytes oaep_hash mdf1_hash k msg label seed oaep mdf1 fits hm hs e =
    let size = oaep_hash.size in
    let l_hash = oaep_hash.sum label in
    let hashed : length l_hash ≡ size = oaep.length_sum label in
    let z = k - 2 * size - 2 - length msg in
    let room : k - 1 - size ≡ length l_hash + (z + (1 + length msg)) = omega arith in
    let db = data_block (k - 1 - size) l_hash msg in
    let (masked_db, mask_db, e1) = >>=-eq-ok (mgf1_xor db mdf1_hash seed) _ e in
    let (masked_seed, mask_seed, e2) = >>=-eq-ok (mgf1_xor seed mdf1_hash masked_db) _ e1 in
    let db-IsBytes : IsBytes db = rw (data_block_lem z l_hash msg (k - 1 - size) room) (
      All-append IsByte l_hash _ (oaep.sum-IsBytes label)
        (All-append IsByte (replicate z 0) _ (zeros-IsBytes z) (omega arith, hm))) in
    subst IsBytes (ok-injective e2) (
      omega arith,
      All-append IsByte masked_seed masked_db
          (mgf1_xor-IsBytes mdf1_hash masked_db seed mdf1 hs mask_seed)
          (mgf1_xor-IsBytes mdf1_hash seed db mdf1 db-IsBytes mask_db),
    )
  where
    zeros-IsBytes : (n : ℕ) → IsBytes (replicate n 0)
    zeros-IsBytes zero = tt
    zeros-IsBytes (suc n) = (omega arith, zeros-IsBytes n)
