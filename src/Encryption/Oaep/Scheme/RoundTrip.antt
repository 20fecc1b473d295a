-- ===== src/Encryption/Oaep/Scheme/RoundTrip.antt =====
-- decryptOAEP undoes encryptOAEP.
use go_encrypted_config_valu.Base.{
  ℕ, ◌+◌, ◌*◌, ◌-◌, ◌%◌, ◌^◌, ◌≤◌, ◌<◌, false, ◌∷◌, some, Bytes, IsBytes, length, ltb, ◌≡◌, ap, ◌∙◌,
  arith, Bool-cases, inl, inr,
}
use go_encrypted_config_valu.Base.Int.{ℤ}
use go_encrypted_config_valu.Base.Outcome.{ok, deref}
use go_encrypted_config_valu.External.{Rand, IsRand, RsaPrivateKey}
use go_encrypted_config_valu.Encryption.Exec.{random_bytes}
use go_encrypted_config_valu.Encryption.Oaep.BigInt.{read_digits, set_bytes, big_bytes}
use go_encrypted_config_valu.Encryption.Oaep.BigInt.Digits.{digits, Fits, left_pad-set_bytes}
use go_encrypted_config_valu.Encryption.Oaep.BigInt.Width.{
  bit_len-Fits, bit_len_least, Fits-mono, Fits-lt, set_bytes-Fits, set_bytes-digits, length-digits,
  digits-IsBytes, padded-digits,
}
use go_encrypted_config_valu.Encryption.Oaep.Mask.{Hash}
use go_encrypted_config_valu.Encryption.Oaep.Mask.Mgf.{IsHash}
use go_encrypted_config_valu.Encryption.Oaep.Message.{check_room_lem}
use go_encrypted_config_valu.Encryption.Oaep.Message.RoundTrip.{
  decode_message-encode, encode_message-IsBytes,
}
use go_encrypted_config_valu.Encryption.Oaep.Padding.{left_pad}
use go_encrypted_config_valu.Encryption.Oaep.Rsa.{check_pub, encrypt, find_blind}
use go_encrypted_config_valu.Encryption.Oaep.Rsa.Blinding.{IsRsaKey, decrypt_number-encrypt}
use go_encrypted_config_valu.Encryption.Oaep.Scheme.{modulus_size, encrypt_oaep, decrypt_oaep}
use native.Mathlib.Nat.{mod-lt, pow-zero}

-- A positive number does not fit fewer bytes than the modulus size.
too_few : (n : ℕ) → 0 < n → ¬ Fits (modulus_size n - 1) n
too_few n h f =
    let k = modulus_size n in
    let least : k ≤ k - 1 = bit_len_least (k - 1) n f in
    let none_left : k ≡ 0 = omega (arith, least) in
    let small : n < 256 ^ k = (Fits-lt k n).0 (bit_len-Fits n) in
    let one : 256 ^ k ≡ 1 = ap (λ j. 256 ^ j) none_left ∙ pow-zero 256 in omega (arith, small, one)

-- The modulus size of a positive number is its number of bytes: it fits that many bytes and no fewer.
pub modulus_size_bounds :
    (n : ℕ) → 0 < n → (256 ^ (modulus_size n - 1) ≤ n) × (n < 256 ^ modulus_size n)
modulus_size_bounds n h =
    let k = modulus_size n in
    (
      elim (Bool-cases (ltb n (256 ^ (k - 1)))) [
        | inl less ↦ absurd (too_few n h ((Fits-lt (k - 1) n).1 (ground arith)))
        | inr enough ↦ ground arith
      ],
      (Fits-lt k n).0 (bit_len-Fits n),
    )

-- A number that has fewer bytes than the modulus is below it.
below_modulus : (n m : ℕ) → 0 < n → Fits (modulus_size n - 1) m → m < n
below_modulus n m h f = elim (Bool-cases (ltb m n)) [
  | inl less ↦ ground arith
  | inr more ↦ absurd (too_few n h (Fits-mono (modulus_size n - 1) n m (ground arith) f))
]

-- The number of an encoded message is below the modulus, since its first byte is zero.
encoded-lt :
    (n : ℕ) (rest : Bytes)
    → 0 < n
    → IsBytes (0 ∷ rest)
    → length (0 ∷ rest) ≡ modulus_size n
    → set_bytes (0 ∷ rest) < n
unfolding set_bytes read_digits
encoded-lt n rest h (zero_byte, bytes) whole =
    let shorter : length rest ≡ modulus_size n - 1 = omega (arith, whole) in
    below_modulus n (set_bytes rest) h (rw shorter at (set_bytes-Fits rest bytes))

-- A ciphertext has no more bytes than the modulus.
pub encrypt-Fits : (n e m : ℕ) → 0 < n → Fits (modulus_size n) (encrypt n e m)
unfolding encrypt
encrypt-Fits n e m h =
    Fits-mono (modulus_size n) (m ^ e % n) n (let small = mod-lt (m ^ e) h in omega (arith, small))
      (bit_len-Fits n)

module _ {S : Type 0} (rand : Rand S) (oaep_hash mdf1_hash : Hash) where
  -- For a valid key, hashes that meet their laws, and a message of bytes short enough for the
  -- modulus: when the random source gives a seed, encryptOAEP returns a ciphertext of bytes, and when the
  -- search for a blinding number returns, decryptOAEP with the same label returns the message.
  pub decrypt_oaep-encrypt :
      (rounds n : ℕ) (priv : RsaPrivateKey) (msg label seed : Bytes) (s s1 s2 s3 : S)
      (blind : ℕ × ℤ)
      → IsHash oaep_hash
      → IsHash mdf1_hash
      → priv.public.n ≡ some n
      → check_pub priv.public ≡ ok tt
      → IsRsaKey priv n
      → IsBytes msg
      → length msg + 2 * oaep_hash.size + 2 ≤ modulus_size n
      → IsRand rand
      → rand.read oaep_hash.size s ≡ (some seed, s1)
      → find_blind rand rounds n s2 ≡ (ok blind, s3)
      → (out : Bytes) × IsBytes out
        × (encrypt_oaep rand oaep_hash mdf1_hash priv.public msg label s ≡ (ok out, s1))
        × (decrypt_oaep rand oaep_hash mdf1_hash rounds priv out label s2 ≡ (ok msg, s3))
  unfolding encrypt_oaep decrypt_oaep random_bytes
  decrypt_oaep-encrypt rounds n priv msg label seed s s1 s2 s3 blind oaep mdf1 has_n checked key
        bytes fits random drawn found =
      let k = modulus_size n in
      let e = priv.public.e in
      let seeded = random.length-read oaep_hash.size s seed (ap (λ x. x.0) drawn) in
      let seed-IsBytes = random.read-IsBytes oaep_hash.size s seed (ap (λ x. x.0) drawn) in
      let (rest, encoded, whole, decoded) =
        decode_message-encode oaep_hash mdf1_hash k msg label seed oaep mdf1 seeded fits in
      let em = 0 ∷ rest in
      let em-IsBytes =
        encode_message-IsBytes oaep_hash mdf1_hash k msg label seed oaep mdf1 fits bytes
          seed-IsBytes encoded in
      let m = set_bytes em in
      let small : m < n = encoded-lt n rest key.positive em-IsBytes whole in
      let c = encrypt n e m in
      let c-Fits : Fits k c = encrypt-Fits n e m key.positive in
      let modulus : deref priv.public.n ≡ ok n = ap deref has_n in
      let room : ltb k (length msg + 2 * oaep_hash.size + 2) ≡ false = ground (arith, fits) in
      let enough : ltb k (oaep_hash.size * 2 + 2) ≡ false = ground (arith, fits) in
      let same_length : ltb k (length (digits k c)) ≡ false =
        let long = length-digits k c in ground (arith, long) in
      let written : left_pad (big_bytes m) k ≡ em =
        rw whole at (left_pad-set_bytes em em-IsBytes) in
      (
        digits k c,
        digits-IsBytes k c,
        rw (
          checked,
          modulus,
          room,
          check_room_lem oaep_hash.size k (length msg) fits,
          drawn,
          encoded,
          padded-digits k c c-Fits,
        ),
        rw (
          checked,
          modulus,
          same_length,
          enough,
          set_bytes-digits k c c-Fits,
          decrypt_number-encrypt rand rounds priv n m s2 s3 blind key small found,
          written,
          decoded,
        ),
      )
