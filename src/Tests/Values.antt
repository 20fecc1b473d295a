-- ===== src/Tests/Values.antt =====
-- The theorems on keys and values, and on the whole way from encryption to decryption, at concrete
-- inputs.
use go_encrypted_config_valu.Base.{
  ◌≡◌, ◌++◌, [], ◌∷◌, some, Bytes, replicate, codes, arith, refl, inl, inr, from_end, slice,
}
use go_encrypted_config_valu.Base.Outcome.{ok, panic}
use go_encrypted_config_valu.External.{RsaPublicKey}
use go_encrypted_config_valu.Encryption.AesGcm.Encrypt as gcm_encrypt
use go_encrypted_config_valu.Encryption.AesGcm.{
  new_aes_gcm_cipher, new_block_cipher, aead_seal, parts,
}
use go_encrypted_config_valu.Encryption.Exec.{random_bytes}
use go_encrypted_config_valu.Encryption.AesGcm.{decrypt as gcm_decrypt}
use go_encrypted_config_valu.Encryption.Keys.{aes_key, rsa_public_key, key_bytes, public_key_bytes}
use go_encrypted_config_valu.Encryption.RsaOaep.{sha1, sha256}
use go_encrypted_config_valu.Config.KeyPair.{
  KeyWithType, aes_type, rsa_pub_type, aes_key_from_key, new_key_with_type,
  new_serialized_key_with_type, to_serializable as key_to_serializable,
}
use go_encrypted_config_valu.Config.KeyPair.RoundTrip.{
  new_key-to_serializable, new_key_legacy_public,
}
use go_encrypted_config_valu.Config.Value.{
  AesGcmValue, legacy, aes_gcm, rsa_oaep, to_serializable, new_encrypted_value,
}
use go_encrypted_config_valu.Config.Value.Decrypt.{decrypt, decrypt_legacy}
use go_encrypted_config_valu.Config.Value.RoundTrip.{
  new_value-to_serializable, new_value-unknown_hash,
}
use go_encrypted_config_valu.Config.Encrypters.{encrypt, aes_gcm_encrypter, legacy_aes_gcm}
use go_encrypted_config_valu.Config.EndToEnd.{
  reload, reload-to_serializable, decrypt-encrypt_aes, decrypt-encrypt_legacy_aes, legacy_lem,
  legacy_cipher,
}
use go_encrypted_config_valu.Config.Algorithms.Defaults.{session, decrypt-encrypt_default}
use go_encrypted_config_valu.Tests.Packages.{
  packages, gcm, json, digests, formats, packages-ArePackages, json-IsJson, formats-IsKeyFormats,
}

abbrev key : Bytes
key = replicate 16 9

abbrev text : Bytes
text = codes "secret"

abbrev kwt : KeyWithType
kwt = aes_key_from_key (aes_key key)

abbrev value : AesGcmValue
value = record { encrypted = text; nonce = replicate 12 4; tag = replicate 16 0 }

abbrev legacy_value : Bytes
legacy_value = replicate 32 4 ++ (text ++ replicate 16 0)

run_new :
    (encrypt packages (aes_gcm_encrypter new_aes_gcm_cipher) text kwt 4).0 ≡ ok (aes_gcm value)
unfolding encrypt gcm_encrypt.encrypt new_block_cipher random_bytes aead_seal parts from_end slice
run_new = refl

run_legacy : (encrypt packages legacy_aes_gcm text kwt 4).0 ≡ ok (legacy legacy_value)
unfolding encrypt gcm_encrypt.encrypt new_block_cipher random_bytes aead_seal
run_legacy = refl

write_key : key_to_serializable formats kwt ≡ ok (new_serialized_key_with_type aes_type key)
unfolding key_to_serializable key_bytes
write_key = refl

reload-to_serializable_example :
    reload packages
      (new_serialized_key_with_type aes_type key)
      (to_serializable json (aes_gcm value))
      7
    ≡ (ok text, 7)
reload-to_serializable_example =
    reload-to_serializable packages new_aes_gcm_cipher text key 4 7 (aes_gcm value)
      (new_serialized_key_with_type aes_type key) packages-ArePackages (omega arith) (omega arith)
      run_new write_key

decrypt-encrypt_aes_example :
    decrypt packages (aes_gcm value) (record { key_type = []; key = aes_key key }) 7 ≡ (ok text, 7)
decrypt-encrypt_aes_example =
    decrypt-encrypt_aes packages new_aes_gcm_cipher text key aes_type [] 4 7 (aes_gcm value)
      packages-ArePackages run_new

decrypt-encrypt_legacy_aes_example : decrypt packages (legacy legacy_value) kwt 7 ≡ (ok text, 7)
decrypt-encrypt_legacy_aes_example =
    decrypt-encrypt_legacy_aes packages text key aes_type aes_type 4 7 (legacy legacy_value)
      packages-ArePackages run_legacy

legacy_lem_example :
    decrypt_legacy packages legacy_value (aes_key key) 7
    ≡ (gcm_decrypt gcm legacy_cipher legacy_value (aes_key key), 7)
legacy_lem_example = legacy_lem packages legacy_value key 7

-- On fewer than 48 bytes.
short_legacy : decrypt_legacy packages text (aes_key key) 7 ≡ (panic, 7)
short_legacy = legacy_lem packages text key 7

new_value-to_serializable_example :
    new_encrypted_value json digests (
      to_serializable json
        (rsa_oaep (record { encrypted = text; oaep_hash_alg = sha256; mdf1_hash_alg = sha1 })))
    ≡ ok (rsa_oaep (record { encrypted = text; oaep_hash_alg = sha256; mdf1_hash_alg = sha1 }))
new_value-to_serializable_example =
    new_value-to_serializable json digests json-IsJson
      (rsa_oaep (record { encrypted = text; oaep_hash_alg = sha256; mdf1_hash_alg = sha1 }))
      (omega arith, inr refl, inl refl)

abbrev public : RsaPublicKey
public = record { n = some 15; e = 3 }

abbrev public_bytes : Bytes
public_bytes = replicate 15 1 ++ (0 ∷ 1 ∷ 1 ∷ 1 ∷ 0 ∷ [])

write_public : public_key_bytes formats public ≡ ok public_bytes
unfolding public_key_bytes
write_public = refl

write_public_key :
    key_to_serializable formats (record { key_type = rsa_pub_type; key = rsa_public_key public })
    ≡ ok (new_serialized_key_with_type rsa_pub_type public_bytes)
unfolding key_to_serializable key_bytes public_key_bytes
write_public_key = refl

new_key-to_serializable_example :
    new_key_with_type formats (new_serialized_key_with_type rsa_pub_type public_bytes)
    ≡ ok (record { key_type = rsa_pub_type; key = rsa_public_key public })
new_key-to_serializable_example =
    new_key-to_serializable formats formats-IsKeyFormats rsa_pub_type (rsa_public_key public)
      (new_serialized_key_with_type rsa_pub_type public_bytes) refl write_public_key

new_key_legacy_public_example :
    new_key_with_type formats (new_serialized_key_with_type (codes "RSA") public_bytes)
    ≡ ok (record { key_type = rsa_pub_type; key = rsa_public_key public })
new_key_legacy_public_example =
    new_key_legacy_public formats formats-IsKeyFormats public public_bytes write_public refl

decrypt-encrypt_default_example : session packages text 4 ≡ (ok text, 6)
decrypt-encrypt_default_example =
    decrypt-encrypt_default packages text (replicate 32 4) (replicate 12 5) 4 5 6
      packages-ArePackages refl refl

new_value-unknown_hash_example :
    new_encrypted_value json digests (
      to_serializable json
        (rsa_oaep (record { encrypted = text; oaep_hash_alg = codes "MD5"; mdf1_hash_alg = sha1 })))
    ≡ panic
new_value-unknown_hash_example =
    new_value-unknown_hash json digests json-IsJson
      (record { encrypted = text; oaep_hash_alg = codes "MD5"; mdf1_hash_alg = sha1 }) (omega arith)
      (omega arith) (omega arith) refl refl
