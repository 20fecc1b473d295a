-- ===== src/Tests/RsaConfig.antt =====
-- The theorems on encrypted values for RSA at concrete inputs.
use go_encrypted_config_valu.Base.{ℕ, ◌+◌, some, ◌*◌, ◌≡◌, [], Bytes, replicate, arith, refl}
use go_encrypted_config_valu.Tests.ProthKey.{
  prime, key as large_key, key-IsValidKey as large_key-IsValidKey, key-Fits as large_key-Fits,
}
use go_encrypted_config_valu.Base.Outcome.{ok}
use go_encrypted_config_valu.External.{Packages}
use go_encrypted_config_valu.Encryption.Keys.{
  rsa_public_key, rsa_private_key, key_bytes, public_key_bytes, private_key_bytes,
}
use go_encrypted_config_valu.Encryption.Oaep.BigInt.{bit_len, count_bits}
use go_encrypted_config_valu.Encryption.Oaep.Rsa.Draws.{DrawsUnit, here}
use go_encrypted_config_valu.Encryption.Oaep.Scheme.{modulus_size}
use go_encrypted_config_valu.Encryption.RsaOaep.{sha256, RsaOaepCipher}
use go_encrypted_config_valu.Config.Value.{EncryptedValue, to_serializable}
use go_encrypted_config_valu.Config.Value.Decrypt.{decrypt}
use go_encrypted_config_valu.Config.Encrypters as encrypters
use go_encrypted_config_valu.Config.Encrypters.{rsa_oaep_encrypter, legacy_rsa_oaep}
use go_encrypted_config_valu.Config.EndToEnd.Rsa.{encrypt_with}
use go_encrypted_config_valu.Config.EndToEnd.ValidKey.{
  reload-encrypt_valid_key, decrypt-encrypt_legacy_valid_key,
}
use go_encrypted_config_valu.Config.EndToEnd.{reload}
use go_encrypted_config_valu.Tests.RsaFormats.{key_packages, key_packages-ArePackages, is_valid}
use go_encrypted_config_valu.Config.KeyPair.{
  KeyWithType, rsa_pub_type, rsa_priv_type, new_serialized_key_with_type, rsa_public_key_from_key,
  rsa_private_key_from_key, to_serializable as key_to_serializable,
}
use go_encrypted_config_valu.Tests.Packages.{packages, rand, packages-ArePackages}
use go_encrypted_config_valu.Tests.Rsa.{msg, digest_32, is_digest_32}

abbrev public_key : KeyWithType
public_key = record { key_type = rsa_pub_type; key = rsa_public_key large_key.public }

abbrev private_key : KeyWithType
private_key = record { key_type = rsa_priv_type; key = rsa_private_key large_key }

abbrev cipher : RsaOaepCipher
cipher = record { oaep_hash_alg = sha256; mdf1_hash_alg = sha256 }

-- The texts of the two keys.
abbrev public_text : Bytes
public_text = new_serialized_key_with_type rsa_pub_type []

abbrev private_text : Bytes
private_text = new_serialized_key_with_type rsa_priv_type []

write_public_key :
    key_to_serializable key_packages.formats (rsa_public_key_from_key large_key.public)
    ≡ ok public_text
unfolding key_to_serializable key_bytes public_key_bytes
write_public_key = refl

write_private_key :
    key_to_serializable key_packages.formats (rsa_private_key_from_key large_key) ≡ ok private_text
unfolding key_to_serializable key_bytes private_key_bytes
write_private_key = refl

size_of_large : modulus_size (3 * prime) ≡ 71
unfolding bit_len count_bits
size_of_large = refl

large_draws : DrawsUnit key_packages.rand 3 prime key_packages.rounds 1013
large_draws = here 0 1013 1013 1014 refl (omega arith) (omega arith)

reload-encrypt_valid_key_example :
    (v : EncryptedValue) × (s3 : ℕ) × (encrypt_with key_packages
        (rsa_oaep_encrypter cipher)
        public_text
        msg
        4
      ≡ (ok v, 5))
    × (reload key_packages private_text (to_serializable key_packages.json v) 1013 ≡ (ok msg, s3))
reload-encrypt_valid_key_example =
    reload-encrypt_valid_key key_packages 3 prime large_key 4 5 1013 public_text private_text
      (replicate 32 4) cipher digest_32 digest_32 msg key_packages-ArePackages large_key-IsValidKey
      large_key-Fits is_valid write_public_key write_private_key is_digest_32 is_digest_32
      (omega arith) (omega (arith, size_of_large)) refl large_draws

decrypt-encrypt_legacy_valid_key_example :
    (v : EncryptedValue) × (s3 : ℕ) × (encrypters.encrypt packages legacy_rsa_oaep msg public_key 4
      ≡ (ok v, 5))
    × (decrypt packages v private_key 1013 ≡ (ok msg, s3))
decrypt-encrypt_legacy_valid_key_example =
    decrypt-encrypt_legacy_valid_key packages 3 prime large_key rsa_pub_type rsa_priv_type 4 5 1013
      (replicate 32 4) msg packages-ArePackages large_key-IsValidKey large_key-Fits (omega arith)
      (omega (arith, size_of_large)) refl large_draws

-- The packages with a generator that gives the key.
abbrev with_key : Packages ℕ
with_key = record packages { rand = record rand { generate = λ bits s. (some large_key, s + 1) } }
