-- ===== src/Config/Value/Decrypt.antt =====
-- The three Decrypt methods of encryptedconfigvalue: aesgcm.go, rsaoaep.go, legacy_encryptedvalue.go.
use go_encrypted_config_valu.Base.{◌++◌, Bytes, length, slice, from_end}
use go_encrypted_config_valu.Base.Outcome.{Outcome, err, key_type_unsupported}
use go_encrypted_config_valu.External.{Packages}
use go_encrypted_config_valu.Encryption.AesGcm as gcm
use go_encrypted_config_valu.Encryption.Exec.{Exec, ◌>>=◌, lift}
use go_encrypted_config_valu.Encryption.Keys.{
  Key, aes_key, rsa_public_key, rsa_private_key, nil_key,
}
use go_encrypted_config_valu.Encryption.RsaOaep as rsa
use go_encrypted_config_valu.Config.KeyPair.{KeyWithType}
use go_encrypted_config_valu.Config.Value.{
  AesGcmValue, RsaOaepValue, EncryptedValue, legacy, aes_gcm, rsa_oaep,
}

module _ {S : Type 0} (p : Packages S) where
  -- (*aesGCMEncryptedValue).Decrypt
  unfoldable pub decrypt_aes : AesGcmValue → Key → Outcome Bytes
  decrypt_aes ev key =
      gcm.decrypt p.gcm
        (record { nonce_size_bytes = length ev.nonce; tag_size_bytes = length ev.tag })
        (ev.nonce ++ (ev.encrypted ++ ev.tag)) key

  -- (*rsaOAEPEncryptedValue).Decrypt
  unfoldable pub decrypt_rsa : RsaOaepValue → Key → Exec S Bytes
  decrypt_rsa ev key =
      rsa.decrypt p.rand p.digests p.rounds
        (record { oaep_hash_alg = ev.oaep_hash_alg; mdf1_hash_alg = ev.mdf1_hash_alg }) ev.encrypted
        key

  -- (*legacyEncryptedValue).Decrypt chooses by the type of the key.
  unfoldable pub decrypt_legacy : Bytes → Key → Exec S Bytes
  decrypt_legacy ciphertext (aes_key k) = do
    tag_start ← lift (from_end ciphertext 16)
    encrypted ← lift (slice ciphertext 32 tag_start)
    nonce ← lift (slice ciphertext 0 32)
    tag ← lift (slice ciphertext tag_start (length ciphertext))
    lift (decrypt_aes (record { encrypted = encrypted; nonce = nonce; tag = tag }) (aes_key k))
  decrypt_legacy ciphertext (rsa_private_key k) =
      decrypt_rsa
        (record { encrypted = ciphertext; oaep_hash_alg = rsa.sha256; mdf1_hash_alg = rsa.sha1 })
        (rsa_private_key k)
  decrypt_legacy ciphertext (rsa_public_key k) = lift (err key_type_unsupported)
  decrypt_legacy ciphertext nil_key = lift (err key_type_unsupported)

  -- The method Decrypt of the interface EncryptedValue.
  unfoldable pub decrypt : EncryptedValue → KeyWithType → Exec S Bytes
  decrypt (legacy bytes) kwt = decrypt_legacy bytes kwt.key
  decrypt (aes_gcm ev) kwt = lift (decrypt_aes ev kwt.key)
  decrypt (rsa_oaep ev) kwt = decrypt_rsa ev kwt.key
