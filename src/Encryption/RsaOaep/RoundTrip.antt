-- ===== src/Encryption/RsaOaep/RoundTrip.antt =====
-- What the RSA-OAEP cipher encrypts, it decrypts.
use go_encrypted_config_valu.Base.{
  ℕ, ◌+◌, ◌*◌, ◌≤◌, Bool-cases, inl, inr, [], some, Bytes, IsBytes, length, str_eq, arith, ◌≡◌,
  subst,
}
use go_encrypted_config_valu.Base.Int.{ℤ}
use go_encrypted_config_valu.Base.Outcome.{ok, ok-injective}
use go_encrypted_config_valu.External.{Rand, IsRand, Digests, IsDigests, RsaPrivateKey}
use go_encrypted_config_valu.Encryption.Keys.{rsa_public_key, rsa_private_key}
use go_encrypted_config_valu.Encryption.Oaep.Mask.{Hash}
use go_encrypted_config_valu.Encryption.Oaep.Mask.Mgf.{IsHash}
use go_encrypted_config_valu.Encryption.Oaep.Rsa.{check_pub, find_blind}
use go_encrypted_config_valu.Encryption.Oaep.Rsa.Blinding.{IsRsaKey}
use go_encrypted_config_valu.Encryption.Oaep.Scheme.{modulus_size}
use go_encrypted_config_valu.Encryption.Oaep.Scheme.RoundTrip.{decrypt_oaep-encrypt}
use go_encrypted_config_valu.Encryption.RsaOaep.{
  HashAlgorithm, RsaOaepCipher, sha1, sha256, hash, encrypt, decrypt,
}

-- The hash of an algorithm that the program knows meets the laws of a hash.
pub hash-IsHash :
    (digests : Digests) (a : HashAlgorithm) {h : Hash}
    → IsDigests digests
    → hash digests a ≡ ok h
    → IsHash h
unfolding hash
hash-IsHash digests a {h} laws e = elim (Bool-cases (str_eq a sha1)) [
  | inl first ↦ subst IsHash (ok-injective (rw first at e)) (record {
    length_sum = laws.length-sha1;
    positive = omega arith;
    sum-IsBytes = laws.sha1-IsBytes;
  })
  | inr other ↦ elim (Bool-cases (str_eq a sha256)) [
    | inl second ↦ subst IsHash (ok-injective (rw (other, second) at e)) (record {
      length_sum = laws.length-sha256;
      positive = omega arith;
      sum-IsBytes = laws.sha256-IsBytes;
    })
    | inr unknown ↦ absurd (let failed = rw (other, unknown) at e in cc)
  ]
]

-- A private key for the modulus `n` whose public half passes checkPub.
pub record IsKeyFor (priv : RsaPrivateKey) (n : ℕ) : Type 0 where
  pub has_modulus : priv.public.n ≡ some n
  pub checked : check_pub priv.public ≡ ok tt
  pub is_key : IsRsaKey priv n

-- The random source gives `seed` from `s` on, and the search for a blinding number that begins in
-- `s2` returns.
pub record Runs {S : Type 0} (rand : Rand S) (rounds n size : ℕ) (s s1 s2 s3 : S) : Type 0 where
  pub seed : Bytes
  pub blind : ℕ × ℤ
  pub drawn : rand.read size s ≡ (some seed, s1)
  pub found : find_blind rand rounds n s2 ≡ (ok blind, s3)

-- For a cipher with known algorithms, a valid key and a message of bytes that is short enough:
-- (*RSAOAEPCipher).Encrypt with the public key returns a ciphertext of bytes and Decrypt with the
-- private key gives the message back, when the random source gives the seed and a blinding number.
pub decrypt_rsa-encrypt :
    {S : Type 0} (rand : Rand S) (digests : Digests) (r : RsaOaepCipher)
    (oaep_hash mdf1_hash : Hash) (rounds n : ℕ) (priv : RsaPrivateKey) (msg : Bytes)
    (s s1 s2 s3 : S)
    → IsRand rand
    → IsDigests digests
    → hash digests r.oaep_hash_alg ≡ ok oaep_hash
    → hash digests r.mdf1_hash_alg ≡ ok mdf1_hash
    → IsKeyFor priv n
    → IsBytes msg
    → length msg + 2 * oaep_hash.size + 2 ≤ modulus_size n
    → Runs rand rounds n oaep_hash.size s s1 s2 s3
    → (out : Bytes) × IsBytes out
      × (encrypt rand digests r msg (rsa_public_key priv.public) s ≡ (ok out, s1))
      × (decrypt rand digests rounds r out (rsa_private_key priv) s2 ≡ (ok msg, s3))
unfolding encrypt decrypt
decrypt_rsa-encrypt rand digests r oaep_hash mdf1_hash rounds n priv msg s s1 s2 s3 random laws oaep
      mdf1 key bytes fits runs =
    let (out, out-IsBytes, encrypted, decrypted) =
      decrypt_oaep-encrypt rand oaep_hash mdf1_hash rounds n priv msg [] runs.seed s s1 s2 s3
        runs.blind (hash-IsHash digests r.oaep_hash_alg laws oaep)
        (hash-IsHash digests r.mdf1_hash_alg laws mdf1) key.has_modulus key.checked key.is_key bytes
        fits random runs.drawn runs.found in
    (out, out-IsBytes, rw (oaep, mdf1, encrypted), rw (oaep, mdf1, decrypted))
