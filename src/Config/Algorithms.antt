-- ===== src/Config/Algorithms.antt =====
-- The algorithm types of encryptedconfigvalue/algorithms.go, and the generation of keys in
-- encryptedconfigvalue/aeskey.go and rsakeys.go.
pub mod Defaults
pub mod RsaDefaults
use go_encrypted_config_valu.Base.{ℕ, Option, none, some, Bytes, str_eq, ◌||◌, if◌then◌else◌}
use go_encrypted_config_valu.Base.Outcome.{Outcome, ok, err, panic, unknown_algorithm_type}
use go_encrypted_config_valu.External.{Rand, Packages}
use go_encrypted_config_valu.Encryption.Exec.{Exec, ◌>>=◌, pure, lift}
use go_encrypted_config_valu.Encryption.Keys.{Key}
use go_encrypted_config_valu.Encryption.Keys.Generate as generate
use go_encrypted_config_valu.Config.Encrypters.{Encrypter, encrypt, new_aes_gcm, new_rsa_oaep}
use go_encrypted_config_valu.Config.KeyPair.{
  KeyWithType, aes_algorithm, rsa_algorithm, aes_key_from_key, rsa_public_key_from_key,
  rsa_private_key_from_key,
}
use go_encrypted_config_valu.Config.Value.{EncryptedValue}

pub record KeyPair : Type 0 where
  pub encryption_key : KeyWithType
  pub decryption_key : KeyWithType

-- ToAlgorithmType
unfoldable pub to_algorithm_type : Bytes → Outcome Bytes
to_algorithm_type val =
    if str_eq val aes_algorithm || str_eq val rsa_algorithm
    then ok val
    else err unknown_algorithm_type

-- (AlgorithmType).Encrypter; `none` is the nil interface of an algorithm that is not in the table.
unfoldable pub encrypter : Bytes → Option Encrypter
encrypter a =
    if str_eq a aes_algorithm
    then some new_aes_gcm
    else if str_eq a rsa_algorithm
    then some new_rsa_oaep
    else none

module _ {S : Type 0} (rand : Rand S) where
  -- NewAESKey
  new_aes_key : ℕ → Exec S KeyWithType
  new_aes_key key_size_bits = do
    key ← generate.new_aes_key rand key_size_bits
    pure (aes_key_from_key key)

  -- NewAESKeyPair, with defaultAESKeySizeBits
  new_aes_key_pair : Exec S KeyPair
  unfolding new_aes_key
  new_aes_key_pair = do
    aes_key ← new_aes_key 256
    pure (record { encryption_key = aes_key; decryption_key = aes_key })

  -- NewRSAKeys
  new_rsa_keys : ℕ → Exec S (KeyWithType × KeyWithType)
  new_rsa_keys key_size_bits = do
    (public, private) ← generate.new_rsa_key_pair rand key_size_bits
    pure (rsa_public_key_from_key public, rsa_private_key_from_key private)

  -- NewRSAKeyPair, with defaultRSAKeySizeBits
  new_rsa_key_pair : Exec S KeyPair
  unfolding new_rsa_keys
  new_rsa_key_pair = do
    (public, private) ← new_rsa_keys 2048
    pure (record { encryption_key = public; decryption_key = private })

  -- (AlgorithmType).GenerateKeyPair; the generator of an algorithm that is not in the table is a nil
  -- function.
  unfoldable pub generate_key_pair : Bytes → Exec S KeyPair
  unfolding new_aes_key_pair new_rsa_key_pair
  generate_key_pair a =
      if str_eq a aes_algorithm
      then new_aes_key_pair
      else if str_eq a rsa_algorithm
      then new_rsa_key_pair
      else lift panic

-- The call of Encrypt on the encrypter of an algorithm.
unfoldable pub encrypt_by :
    {S : Type 0} → Packages S → Option Encrypter → Bytes → KeyWithType → Exec S EncryptedValue
encrypt_by p none input kwt = lift panic
encrypt_by p (some e) input kwt = encrypt p e input kwt
