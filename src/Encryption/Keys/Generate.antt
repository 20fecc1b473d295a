-- ===== src/Encryption/Keys/Generate.antt =====
-- NewAESKey of encryption/aeskey.go and NewRSAKeyPair of encryption/rsakey.go.
use go_encrypted_config_valu.Base.{ℕ, ◌/◌}
use go_encrypted_config_valu.Base.Outcome.{random_failed, some_or}
use go_encrypted_config_valu.External.{Rand, RsaPublicKey, RsaPrivateKey}
use go_encrypted_config_valu.Encryption.Exec.{Exec, ◌>>=◌, pure, random_bytes}
use go_encrypted_config_valu.Encryption.Keys.{Key, aes_key_from_bytes}

module _ {S : Type 0} (rand : Rand S) where
  unfoldable pub new_aes_key : ℕ → Exec S Key
  new_aes_key key_size_bits = do
    k ← random_bytes rand (key_size_bits / 8)
    pure (aes_key_from_bytes k)

  -- rsa.GenerateKey
  generate_key : ℕ → Exec S RsaPrivateKey
  generate_key bits s = (some_or random_failed (rand.generate bits s).0, (rand.generate bits s).1)

  unfoldable pub new_rsa_key_pair : ℕ → Exec S (RsaPublicKey × RsaPrivateKey)
  unfolding generate_key
  new_rsa_key_pair key_size_bits = do
    rsa_priv_key ← generate_key key_size_bits
    pure (rsa_priv_key.public, rsa_priv_key)
