-- ===== src/Encryption/AesGcm/Encrypt.antt =====
-- (*AESGCMCipher).Encrypt of encryption/aesgcmcipher.go.
use go_encrypted_config_valu.Base.{◌++◌, Bytes}
use go_encrypted_config_valu.Base.Outcome.{err, key_type_mismatch}
use go_encrypted_config_valu.External.{Rand, Gcm}
use go_encrypted_config_valu.Encryption.Exec.{Exec, ◌>>=◌, pure, lift, random_bytes}
use go_encrypted_config_valu.Encryption.Keys.{
  Key, aes_key, rsa_public_key, rsa_private_key, nil_key,
}
use go_encrypted_config_valu.Encryption.AesGcm.{AesGcmCipher, new_block_cipher, aead_seal}

module _ {S : Type 0} (rand : Rand S) (gcm : Gcm) where
  unfoldable pub encrypt : AesGcmCipher → Bytes → Key → Exec S Bytes
  encrypt a text (aes_key key) = do
    aead ← lift (new_block_cipher key a.nonce_size_bytes)
    nonce ← random_bytes rand aead.nonce_size
    encrypted ← lift (aead_seal gcm aead nonce text)
    pure (nonce ++ encrypted)
  encrypt a text (rsa_public_key k) = lift (err key_type_mismatch)
  encrypt a text (rsa_private_key k) = lift (err key_type_mismatch)
  encrypt a text nil_key = lift (err key_type_mismatch)
