-- ===== src/Config/Algorithms/RsaDefaults.antt =====
-- What the default key pair and the default encrypter of RSA guarantee.
use go_encrypted_config_valu.Base.{Bytes}
use go_encrypted_config_valu.External.{Packages}
use go_encrypted_config_valu.Encryption.Exec.{Exec, ◌>>=◌, lift}
use go_encrypted_config_valu.Encryption.Keys.Generate as generate
use go_encrypted_config_valu.Config.Algorithms.{encrypter, generate_key_pair, encrypt_by}
use go_encrypted_config_valu.Config.KeyPair.{rsa_algorithm}
use go_encrypted_config_valu.Config.Value.{to_serializable, new_encrypted_value}
use go_encrypted_config_valu.Config.Value.Decrypt.{decrypt}

module _ {S : Type 0} (p : Packages S) where
  -- A program that generates a key pair for RSA, encrypts with the default encrypter, writes the value
  -- as text, reads it back and decrypts it.
  abbrev pub rsa_session : Bytes → Exec S Bytes
  rsa_session input = generate_key_pair p.rand rsa_algorithm >>= λ pair.
      encrypt_by p (encrypter rsa_algorithm) input pair.encryption_key >>= λ v.
      lift (new_encrypted_value p.json p.digests (to_serializable p.json v)) >>= λ v'.
      decrypt p v' pair.decryption_key
