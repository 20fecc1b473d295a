-- ===== src/Encryption/Oaep/Scheme/Total.antt =====
-- decryptOAEP of any ciphertext.
use go_encrypted_config_valu.Base.{
  ℕ, ◌+◌, ◌-◌, ◌++◌, min, take, drop, replicate, length-take, length-drop, length-append,
  length-replicate, ◌*◌, ◌%◌, ◌^◌, ◌≤◌, false, ◌||◌, ◌==◌, [], ◌∷◌, some, Bytes, length, ltb, ◌≡◌,
  ◌⊎◌, ◌∙◌, refl, ap, arith, Bool-cases, inl, inr,
}
use go_encrypted_config_valu.Base.Int.{ℤ, pos, ◌*ℤ◌, ◌%ℤ◌}
use go_encrypted_config_valu.Base.Outcome.{ok, err, decryption, deref}
use go_encrypted_config_valu.External.{Rand, RsaPrivateKey}
use go_encrypted_config_valu.Encryption.Oaep.BigInt.{set_bytes, big_bytes}
use go_encrypted_config_valu.Encryption.Oaep.Mask.{Hash}
use go_encrypted_config_valu.Encryption.Oaep.Mask.Mgf.{IsHash}
use go_encrypted_config_valu.Encryption.Oaep.Message.{decode_message}
use go_encrypted_config_valu.Encryption.Oaep.Message.Decode.{
  decode_message_lem, message_of-cases, block_of,
}
use go_encrypted_config_valu.Encryption.Oaep.Padding.{copy_at, left_pad}
use go_encrypted_config_valu.Encryption.Oaep.Rsa.{check_pub, find_blind, decrypt_number}
use go_encrypted_config_valu.Encryption.Oaep.Rsa.Blinding.{IsRsaKey}
use go_encrypted_config_valu.Encryption.Oaep.Scheme.{modulus_size, decrypt_oaep}
use native.Mathlib.Nat.{mod-lt}

-- The decoding of a text that has two digests behind its first byte ends in a message or in the decryption error.
decode_message-cases :
    (oaep_hash mdf1_hash : Hash) (em label : Bytes)
    → IsHash mdf1_hash
    → oaep_hash.size * 2 + 2 ≤ length em
    → (decode_message oaep_hash mdf1_hash em label ≡ err decryption)
      ⊎ ((msg : Bytes) × (decode_message oaep_hash mdf1_hash em label ≡ ok msg))
decode_message-cases oaep_hash mdf1_hash [] label mdf1 long = absurd (omega arith)
decode_message-cases oaep_hash mdf1_hash (c ∷ rest) label mdf1 long =
    let size = oaep_hash.size in
    let enough : ltb (length rest) (2 * size) ≡ false = ground arith in
    let found = decode_message_lem oaep_hash mdf1_hash c rest label mdf1 in
    elim (message_of-cases size (oaep_hash.sum label) c (block_of mdf1_hash size rest)) [
      | inl wrong ↦ inl (found ∙ rw enough wrong)
      | inr (msg, good) ↦ inr (msg, found ∙ rw enough good)
    ]

length-copy_at :
    (off : ℕ) (src dst : Bytes) (n : ℕ)
    → length dst ≡ n
    → off + length src ≤ n
    → length (copy_at off src dst) ≡ n
unfolding copy_at
length-copy_at off src dst n size fits =
    let middle = take (length dst - off) src in
    let last = drop (off + length src) dst in
    omega (
      arith,
      length-append (take off dst) (middle ++ last),
      length-append middle last,
      length-take off dst,
      length-take (length dst - off) src,
      length-drop (off + length src) dst,
      size,
      fits,
    )

length-left_pad : (input : Bytes) (size : ℕ) → length (left_pad input size) ≡ size
unfolding left_pad
length-left_pad input size =
    let n = min (length input) size in
    length-copy_at (size - n) (take n input) (replicate size 0) size (length-replicate size 0)
      (omega (arith, length-take n input))

module _ {S : Type 0} (rand : Rand S) where
  -- The private operation on any number: an error above the modulus, and otherwise a number.
  decrypt_number-cases :
      (rounds n c : ℕ) (priv : RsaPrivateKey) (s s' : S) (blind : ℕ × ℤ)
      → IsRsaKey priv n
      → find_blind rand rounds n s ≡ (ok blind, s')
      → (decrypt_number rand rounds priv n c s ≡ (err decryption, s))
        ⊎ ((m : ℕ) × (decrypt_number rand rounds priv n c s ≡ (ok m, s')))
  unfolding decrypt_number
  decrypt_number-cases rounds n c priv s s' blind key found =
      let (r, ir) = blind in
      let blinded = c * (r ^ priv.public.e % n) % n in
      let not_zero : (n == 0) ≡ false = let positive = key.positive in ground arith in
      elim (Bool-cases (ltb n c)) [
        | inl large ↦ inl (rw large refl)
        | inr fits ↦ inr (
          (pos (blinded ^ priv.d % n) *ℤ ir) %ℤ n,
          rw (fits, not_zero, found, key.raw-power blinded (mod-lt _ key.positive)) refl,
        )
      ]

  -- For a hash of the mask and a key that meet their laws, and a search for a blinding number that returns:
  -- decryptOAEP of any ciphertext returns a message or the decryption error, and never panics.
  pub decrypt_oaep-cases :
      (oaep_hash mdf1_hash : Hash) (rounds n : ℕ) (priv : RsaPrivateKey) (ciphertext label : Bytes)
      (s s' : S) (blind : ℕ × ℤ)
      → IsHash mdf1_hash
      → priv.public.n ≡ some n
      → check_pub priv.public ≡ ok tt
      → IsRsaKey priv n
      → find_blind rand rounds n s ≡ (ok blind, s')
      → ((s2 : S) × (decrypt_oaep rand oaep_hash mdf1_hash rounds priv ciphertext label s
            ≡ (err decryption, s2)))
        ⊎ ((msg : Bytes) × (decrypt_oaep rand oaep_hash mdf1_hash rounds priv ciphertext label s
              ≡ (ok msg, s')))
  unfolding decrypt_oaep
  decrypt_oaep-cases oaep_hash mdf1_hash rounds n priv ciphertext label s s' blind mdf1 has_n
        checked key found =
      let k = modulus_size n in
      let modulus : deref priv.public.n ≡ ok n = ap deref has_n in
      elim (Bool-cases (ltb k (length ciphertext) || ltb k (oaep_hash.size * 2 + 2))) [
        | inl wrong ↦ inl (s, rw (checked, modulus, wrong) refl)
        | inr fits ↦
            elim (decrypt_number-cases rounds n (set_bytes ciphertext) priv s s' blind key found) [
              | inl large ↦ inl (s, rw (checked, modulus, fits, large) refl)
              | inr (m, run) ↦
                  let em = left_pad (big_bytes m) k in
                  let long : oaep_hash.size * 2 + 2 ≤ length em =
                    let size = length-left_pad (big_bytes m) k in ground (arith, fits, size) in
                  elim (decode_message-cases oaep_hash mdf1_hash em label mdf1 long) [
                    | inl bad ↦ inl (s', rw (checked, modulus, fits, run, bad) refl)
                    | inr (msg, good) ↦ inr (msg, rw (checked, modulus, fits, run, good) refl)
                  ]
            ]
      ]
