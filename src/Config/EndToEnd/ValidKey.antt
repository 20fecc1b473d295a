-- ===== src/Config/EndToEnd/ValidKey.antt =====
-- The RSA encrypters with keys as crypto/rsa documents them.
use go_encrypted_config_valu.Base.{ℕ, ◌+◌, ◌*◌, ◌≤◌, true, some, Bytes, IsBytes, length, ◌≡◌}
use go_encrypted_config_valu.Base.Outcome.{ok}
use go_encrypted_config_valu.External.{Packages, ArePackages, RsaPrivateKey}
use go_encrypted_config_valu.Encryption.Keys.{rsa_public_key, rsa_private_key}
use go_encrypted_config_valu.Encryption.Oaep.Mask.{Hash}
use go_encrypted_config_valu.Encryption.Oaep.Rsa.Draws.{DrawsUnit}
use go_encrypted_config_valu.Encryption.Oaep.Rsa.ValidKey.{IsValidKey}
use go_encrypted_config_valu.Encryption.Oaep.Scheme.{modulus_size}
use go_encrypted_config_valu.Encryption.RsaOaep.{RsaOaepCipher, hash}
use go_encrypted_config_valu.Encryption.RsaOaep.ValidKey.{Fits, valid_key-IsKeyFor, valid_key-Runs}
use go_encrypted_config_valu.Config.EndToEnd.{reload}
use go_encrypted_config_valu.Config.EndToEnd.Rsa.{
  encrypt_with, reload-encrypt_rsa, decrypt-encrypt_legacy_rsa,
}
use go_encrypted_config_valu.Config.Encrypters.{rsa_oaep_encrypter, encrypt, legacy_rsa_oaep}
use go_encrypted_config_valu.Config.KeyPair.{
  to_serializable as key_to_serializable, rsa_public_key_from_key, rsa_private_key_from_key,
}
use go_encrypted_config_valu.Config.Value.Decrypt.{decrypt}
use go_encrypted_config_valu.Config.Value.{EncryptedValue, to_serializable}

module _ {S : Type 0} (p : Packages S) where
  -- Over packages that meet their laws, for an RSA key of two odd primes as crypto/rsa documents it, with
  -- its precomputed values or without, with both keys written as text, an RSA-OAEP encrypter of known
  -- algorithms, an input of bytes that is short enough for the modulus, and a random source that gives
  -- the seed and later, within the rounds, a number that is a multiple of neither prime: a program that
  -- reads the text of the public key encrypts the input, and a program that reads the text of the private
  -- key and the text of the value decrypts the input.
  pub reload-encrypt_valid_key :
      (prime_p prime_q : ℕ) (priv : RsaPrivateKey) (s s1 s2 : S)
      (public_text private_text seed : Bytes) (r : RsaOaepCipher) (oaep_hash mdf1_hash : Hash)
      (input : Bytes)
      → ArePackages p
      → IsValidKey priv prime_p prime_q
      → Fits priv prime_p prime_q
      → p.formats.validate priv ≡ true
      → key_to_serializable p.formats (rsa_public_key_from_key priv.public) ≡ ok public_text
      → key_to_serializable p.formats (rsa_private_key_from_key priv) ≡ ok private_text
      → hash p.digests r.oaep_hash_alg ≡ ok oaep_hash
      → hash p.digests r.mdf1_hash_alg ≡ ok mdf1_hash
      → IsBytes input
      → length input + 2 * oaep_hash.size + 2 ≤ modulus_size (prime_p * prime_q)
      → p.rand.read oaep_hash.size s ≡ (some seed, s1)
      → DrawsUnit p.rand prime_p prime_q p.rounds s2
      → (v : EncryptedValue) × (s3 : S) × (encrypt_with p (rsa_oaep_encrypter r) public_text input s
          ≡ (ok v, s1))
        × (reload p private_text (to_serializable p.json v) s2 ≡ (ok input, s3))
  reload-encrypt_valid_key prime_p prime_q priv s s1 s2 public_text private_text seed r oaep_hash
        mdf1_hash input laws key stored valid public_written private_written oaep mdf1 bytes fits
        drawn draws =
      let (s3, runs) =
        valid_key-Runs priv prime_p prime_q key p.rand p.rounds oaep_hash.size s s1 s2 seed drawn
          draws in
      let (v, encrypted, decrypted) =
        reload-encrypt_rsa p (prime_p * prime_q) priv s s1 s2 s3 public_text private_text r
          oaep_hash mdf1_hash input laws (valid_key-IsKeyFor priv prime_p prime_q key stored) valid
          public_written private_written oaep mdf1 bytes fits runs in
      (v, s3, encrypted, decrypted)

  -- Over packages that meet their laws, for an RSA key of two odd primes as crypto/rsa documents it, with
  -- its precomputed values or without, an input of bytes that is at least 66 bytes shorter than the
  -- modulus, and a random source that gives the seed and later, within the rounds, a number that is a
  -- multiple of neither prime: the legacy RSA-OAEP encrypter returns a value under the public key, and
  -- that value decrypts to the input under the private key.
  pub decrypt-encrypt_legacy_valid_key :
      (prime_p prime_q : ℕ) (priv : RsaPrivateKey) (public_type private_type : Bytes) (s s1 s2 : S)
      (seed input : Bytes)
      → ArePackages p
      → IsValidKey priv prime_p prime_q
      → Fits priv prime_p prime_q
      → IsBytes input
      → length input + 66 ≤ modulus_size (prime_p * prime_q)
      → p.rand.read 32 s ≡ (some seed, s1)
      → DrawsUnit p.rand prime_p prime_q p.rounds s2
      → (v : EncryptedValue) × (s3 : S) × (encrypt p legacy_rsa_oaep input
            (record { key_type = public_type; key = rsa_public_key priv.public })
            s
          ≡ (ok v, s1))
        × (decrypt p v (record { key_type = private_type; key = rsa_private_key priv }) s2
            ≡ (ok input, s3))
  decrypt-encrypt_legacy_valid_key prime_p prime_q priv public_type private_type s s1 s2 seed input
        laws key stored bytes fits drawn draws =
      let (s3, runs) =
        valid_key-Runs priv prime_p prime_q key p.rand p.rounds 32 s s1 s2 seed drawn draws in
      let (v, encrypted, decrypted) =
        decrypt-encrypt_legacy_rsa p laws (prime_p * prime_q) priv
          (valid_key-IsKeyFor priv prime_p prime_q key stored) public_type private_type s s1 s2 s3
          input bytes fits runs in
      (v, s3, encrypted, decrypted)
