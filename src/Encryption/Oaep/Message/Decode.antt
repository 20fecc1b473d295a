-- ===== src/Encryption/Oaep/Message/Decode.antt =====
-- The decoding of a message against EME-OAEP of PKCS#1.
use go_encrypted_config_valu.Base.{
  ℕ, suc, ◌+◌, ◌-◌, ◌*◌, ◌<◌, ◌≤◌, true, ◌∙◌, ltb, slice, slice_lem, slice_from, slice_panics,
  length-drop, ◌∷◌, Bytes, length, take, drop, str_eq, ◌&&◌, ◌==◌, ◌≡◌, ◌⊎◌, refl, ap, arith,
  if◌then◌else◌, Bool-cases, Option-cases, inl, inr,
}
use go_encrypted_config_valu.Base.Outcome.{Outcome, ok, err, panic, decryption}
use go_encrypted_config_valu.Encryption.Oaep.Mask.{Hash}
use go_encrypted_config_valu.Encryption.Oaep.Mask.Mgf.{
  IsHash, mask, xor_bytes, length-xor_bytes, mgf1_xor_lem,
}
use go_encrypted_config_valu.Encryption.Oaep.Message.{decode_message}
use go_encrypted_config_valu.Encryption.Oaep.Padding.{ct_byte_eq}
use go_encrypted_config_valu.Encryption.Oaep.Padding.Check.{
  mark, behind, check_padding_lem, check_padding_panics,
}

-- The seed and the data block of an encoded message behind its first byte, unmasked.
abbrev pub seed_of : Hash → ℕ → Bytes → Bytes
seed_of h size rest = xor_bytes (take size rest) (mask h (drop size rest) (length (take size rest)))

abbrev pub block_of : Hash → ℕ → Bytes → Bytes
block_of h size rest =
    xor_bytes (drop size rest) (mask h (seed_of h size rest) (length (drop size rest)))

-- The message in a data block: behind the digest, zeros and a one.
abbrev pub message_of : ℕ → Bytes → ℕ → Bytes → Outcome Bytes
message_of size l_hash first db =
    if first == 0 && str_eq l_hash (take size db)
    then behind (mark (drop size db)) (drop size db)
    else err decryption

zero_byte :
    (c : ℕ) → ((ct_byte_eq c 0 ≡ 0) ⊎ (ct_byte_eq c 0 ≡ 1)) × ((ct_byte_eq c 0 == 1) ≡ (c == 0))
zero_byte c = ground arith

-- What becomes of a text whose first byte is `first`: a panic if there are fewer than two digests behind
-- it, and otherwise what the unmasked data block has.
abbrev pub decoded : Hash → Hash → Bytes → ℕ → Bytes → Outcome Bytes
decoded oaep_hash mdf1_hash label first rest =
    if ltb (length rest) (2 * oaep_hash.size)
    then panic
    else message_of oaep_hash.size (oaep_hash.sum label) first
        (block_of mdf1_hash oaep_hash.size rest)

-- The pieces of the text, if it has a digest behind its first byte.
pieces :
    (size first : ℕ) (rest : Bytes)
    → size ≤ length rest
    → (slice (first ∷ rest) 1 (size + 1) ≡ ok (take size rest))
      × (slice (first ∷ rest) (size + 1) (length (first ∷ rest)) ≡ ok (drop size rest))
pieces size first rest long =
    let more : size + 1 ≡ suc size = omega arith in
    let front : size + 1 - 1 ≡ size = omega arith in
    (
      slice_lem (first ∷ rest) 1 (size + 1) (omega arith) (omega arith)
          ∙ ap (λ n. ok (take n rest)) front,
      slice_from (first ∷ rest) (size + 1) (omega arith)
          ∙ ap (λ n. ok (drop n (first ∷ rest))) more,
    )

-- For a hash of the mask that meets its laws and a text of at least one byte: the decoding panics if
-- fewer than two digests stand behind the first byte. Otherwise it unmasks the seed and with it the data
-- block, and returns the message exactly if the first byte is zero and the block has the digest of the
-- label, zeros and a one in front of it; every other text is the decryption error.
pub decode_message_lem :
    (oaep_hash mdf1_hash : Hash) (first : ℕ) (rest label : Bytes)
    → IsHash mdf1_hash
    → decode_message oaep_hash mdf1_hash (first ∷ rest) label
      ≡ decoded oaep_hash mdf1_hash label first rest
unfolding decode_message
decode_message_lem oaep_hash mdf1_hash first rest label mdf1 =
    let size = oaep_hash.size in
    let l_hash = oaep_hash.sum label in
    let block = block_of mdf1_hash size rest in
    let same =
      length-xor_bytes (drop size rest)
        (mask mdf1_hash (seed_of mdf1_hash size rest) (length (drop size rest))) in
    let dropped = length-drop size rest in
    let (byte, is_zero) = zero_byte first in
    elim (Bool-cases (ltb (length rest) size)) [
      | inl none_there ↦
          let few : ltb (length rest) (2 * size) ≡ true = ground arith in
          rw (few, slice_panics (first ∷ rest) 1 (size + 1) (inr (ground arith))) refl
      | inr one_there ↦
          let (front, back) = pieces size first rest (ground arith) in
          let unmask_seed = mgf1_xor_lem mdf1_hash mdf1 (drop size rest) (take size rest) in
          let unmask_block =
            mgf1_xor_lem mdf1_hash mdf1 (seed_of mdf1_hash size rest) (drop size rest) in
          elim (Bool-cases (ltb (length rest) (2 * size))) [
            | inl few ↦
                let short : length block < size = ground (arith, same, dropped) in
                rw
                  (
                    few,
                    front,
                    back,
                    unmask_seed,
                    unmask_block,
                    check_padding_panics size (ct_byte_eq first 0) l_hash block short,
                  )
                  refl
            | inr enough ↦
                let long : size ≤ length block = ground (arith, same, dropped) in
                rw
                  (
                    enough,
                    front,
                    back,
                    unmask_seed,
                    unmask_block,
                    check_padding_lem size (ct_byte_eq first 0) l_hash block byte long,
                    is_zero,
                  )
                  refl
          ]
    ]

-- What is found in a data block is a message or the decryption error.
pub message_of-cases :
    (size : ℕ) (l_hash : Bytes) (first : ℕ) (db : Bytes)
    → (message_of size l_hash first db ≡ err decryption)
      ⊎ ((msg : Bytes) × (message_of size l_hash first db ≡ ok msg))
unfolding behind
message_of-cases size l_hash first db =
    elim (Bool-cases (first == 0 && str_eq l_hash (take size db))) [
      | inr wrong ↦ inl (rw wrong refl)
      | inl good ↦ elim (Option-cases (mark (drop size db))) [
        | inl missing ↦ inl (rw (good, missing) refl)
        | inr (k, found) ↦ inr (drop (k + 1) (drop size db), rw (good, found) refl)
      ]
    ]
