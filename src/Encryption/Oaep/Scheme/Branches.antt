-- ===== src/Encryption/Oaep/Scheme/Branches.antt =====
-- encryptOAEP on every branch.
use go_encrypted_config_valu.Base.{
  ℕ, zero, suc, ◌+◌, ◌*◌, ◌%◌, ◌^◌, ◌≤◌, ◌<◌, false, Option, none, some, Bytes, length, ltb, ◌≡◌,
  ◌⊎◌, ◌-◌, ◌∷◌, ap, refl, arith, Bool-cases, inl, inr,
}
use go_encrypted_config_valu.Base.Outcome.{
  Outcome, Error, ok, err, deref, message_too_long, random_failed, public_modulus, exponent_small,
  exponent_large,
}
use go_encrypted_config_valu.External.{Rand, IsRand, RsaPublicKey}
use go_encrypted_config_valu.Encryption.Exec.{random_bytes}
use go_encrypted_config_valu.Encryption.Oaep.BigInt.{set_bytes, bit_len, count_bits}
use go_encrypted_config_valu.Encryption.Oaep.BigInt.Digits.{digits}
use go_encrypted_config_valu.Encryption.Oaep.BigInt.Width.{padded-digits}
use go_encrypted_config_valu.Encryption.Oaep.Mask.{Hash}
use go_encrypted_config_valu.Encryption.Oaep.Mask.Mgf.{IsHash}
use go_encrypted_config_valu.Encryption.Oaep.Message.{encode_message, check_room_lem}
use go_encrypted_config_valu.Encryption.Oaep.Message.RoundTrip.{decode_message-encode}
use go_encrypted_config_valu.Encryption.Oaep.Rsa.{check_modulus, check_pub, encrypt}
use go_encrypted_config_valu.Encryption.Oaep.Scheme.{modulus_size, encrypt_oaep}
use go_encrypted_config_valu.Encryption.Oaep.Scheme.RoundTrip.{encrypt-Fits}

-- What checkPub says of a key: an error, or that there is a modulus.
check_modulus-cases :
    (m : Option ℕ) (e : ℕ)
    → ((x : Error) × (check_modulus m e ≡ err x))
      ⊎ ((n : ℕ) × (m ≡ some n) × (check_modulus m e ≡ ok tt))
unfolding check_modulus
check_modulus-cases none e = inl (public_modulus, refl)
check_modulus-cases (some n) e = elim (Bool-cases (ltb e 2)) [
  | inl small ↦ inl (exponent_small, rw small refl)
  | inr usual ↦ elim (Bool-cases (ltb (2 ^ 31 - 1) e)) [
    | inl large ↦ inl (exponent_large, rw (usual, large) refl)
    | inr fits ↦ inr (n, refl, rw (usual, fits) refl)
  ]
]

-- No bytes are needed for zero.
size_positive : (n k : ℕ) → k + 2 ≤ modulus_size n → 0 < n
unfolding bit_len count_bits
size_positive zero k h = absurd (omega arith)
size_positive (suc n) k h = omega arith

module _ {S : Type 0} (rand : Rand S) (oaep_hash mdf1_hash : Hash) where
  -- The results of an encryption. In the last case the message is encoded with the seed, raised to the
  -- public exponent as a number, and written in as many bytes as the modulus has.
  pub data Encrypts (pub_key : RsaPublicKey) (msg label : Bytes) (s : S)
      : Outcome Bytes × S → Type 0 where
    bad_key : (e : Error) → check_pub pub_key ≡ err e → Encrypts pub_key msg label s (err e, s)
    too_long :
        (n : ℕ)
        → check_pub pub_key ≡ ok tt
        → pub_key.n ≡ some n
        → modulus_size n < length msg + 2 * oaep_hash.size + 2
        → Encrypts pub_key msg label s (err message_too_long, s)
    no_seed :
        (n : ℕ) (s1 : S)
        → check_pub pub_key ≡ ok tt
        → pub_key.n ≡ some n
        → length msg + 2 * oaep_hash.size + 2 ≤ modulus_size n
        → rand.read oaep_hash.size s ≡ (none, s1)
        → Encrypts pub_key msg label s (err random_failed, s1)
    encrypted :
        (n : ℕ) (seed em : Bytes) (s1 : S)
        → check_pub pub_key ≡ ok tt
        → pub_key.n ≡ some n
        → length msg + 2 * oaep_hash.size + 2 ≤ modulus_size n
        → rand.read oaep_hash.size s ≡ (some seed, s1)
        → encode_message oaep_hash mdf1_hash (modulus_size n) msg label seed ≡ ok em
        → Encrypts pub_key msg label s
            (ok (digits (modulus_size n) (set_bytes em ^ pub_key.e % n)), s1)

  module _ (pub_key : RsaPublicKey) (msg label : Bytes) (s : S) (oaep : IsHash oaep_hash)
      (mdf1 : IsHash mdf1_hash) (random : IsRand rand) where
    -- The branches behind the tests, for what the random source gives.
    seeded :
        (n : ℕ) (drawn : Option Bytes) (s1 : S)
        → check_pub pub_key ≡ ok tt
        → pub_key.n ≡ some n
        → ltb (modulus_size n) (length msg + 2 * oaep_hash.size + 2) ≡ false
        → length msg + 2 * oaep_hash.size + 2 ≤ modulus_size n
        → rand.read oaep_hash.size s ≡ (drawn, s1)
        → Encrypts pub_key msg label s (encrypt_oaep rand oaep_hash mdf1_hash pub_key msg label s)
    unfolding encrypt_oaep random_bytes encrypt
    seeded n none s1 checked has_n room fits run =
        let modulus : deref pub_key.n ≡ ok n = ap deref has_n in
        let enough = check_room_lem oaep_hash.size (modulus_size n) (length msg) fits in
        rw (checked, modulus, room, enough, run) (no_seed n s1 checked has_n fits run)
    seeded n (some seed) s1 checked has_n room fits run =
        let modulus : deref pub_key.n ≡ ok n = ap deref has_n in
        let k = modulus_size n in
        let size = random.length-read oaep_hash.size s seed (ap (λ x. x.0) run) in
        let (rest, encoded, whole, decoded) =
          decode_message-encode oaep_hash mdf1_hash k msg label seed oaep mdf1 size fits in
        let em = 0 ∷ rest in
        let positive : 0 < n = size_positive n (length msg + 2 * oaep_hash.size) fits in
        let written =
          padded-digits k (set_bytes em ^ pub_key.e % n)
            (encrypt-Fits n pub_key.e (set_bytes em) positive) in
        let enough = check_room_lem oaep_hash.size k (length msg) fits in
        rw (checked, modulus, room, enough, run, encoded, written)
          (encrypted n seed em s1 checked has_n fits run encoded)

  -- For hashes and a random source that meet their laws, encryptOAEP ends in one of these ways, and in
  -- no panic.
  pub encrypt_oaep-Encrypts :
      (pub_key : RsaPublicKey) (msg label : Bytes) (s : S)
      → IsHash oaep_hash
      → IsHash mdf1_hash
      → IsRand rand
      → Encrypts pub_key msg label s (encrypt_oaep rand oaep_hash mdf1_hash pub_key msg label s)
  unfolding encrypt_oaep
  encrypt_oaep-Encrypts pub_key msg label s oaep mdf1 random =
      let size = oaep_hash.size in
      elim (check_modulus-cases pub_key.n pub_key.e) [
        | inl (e, failed) ↦ rw failed (bad_key e failed)
        | inr (n, has_n, checked) ↦
            let modulus : deref pub_key.n ≡ ok n = ap deref has_n in
            let k = modulus_size n in
            elim (Bool-cases (ltb k (length msg + 2 * size + 2))) [
              | inl long ↦ rw (checked, modulus, long) (too_long n checked has_n (ground arith))
              | inr room ↦
                  let fits : length msg + 2 * size + 2 ≤ k = ground arith in
                  seeded pub_key msg label s oaep mdf1 random n (rand.read size s).0
                    (rand.read size s).1 checked has_n room fits refl
            ]
      ]
