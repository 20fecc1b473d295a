-- ===== src/Config/Encrypters.antt =====
-- The encrypters of encryptedconfigvalue/aesgcm.go and rsaoaep.go.
use go_encrypted_config_valu.Base.{Bytes}
use go_encrypted_config_valu.External.{Packages}
use go_encrypted_config_valu.Encryption.AesGcm as gcm
use go_encrypted_config_valu.Encryption.AesGcm.{AesGcmCipher}
use go_encrypted_config_valu.Encryption.AesGcm.Encrypt as gcm_encrypt
use go_encrypted_config_valu.Encryption.Exec.{Exec, ◌>>=◌, pure, lift}
use go_encrypted_config_valu.Encryption.RsaOaep as rsa
use go_encrypted_config_valu.Encryption.RsaOaep.{RsaOaepCipher}
use go_encrypted_config_valu.Config.KeyPair.{KeyWithType}
use go_encrypted_config_valu.Config.Value.{EncryptedValue, legacy, aes_gcm, rsa_oaep}

-- The implementations of the interface Encrypter, each a cipher.
pub data Encrypter : Type 0 where
  legacy_aes_gcm_encrypter : AesGcmCipher → Encrypter
  aes_gcm_encrypter : AesGcmCipher → Encrypter
  legacy_rsa_oaep_encrypter : RsaOaepCipher → Encrypter
  rsa_oaep_encrypter : RsaOaepCipher → Encrypter

-- LegacyAESGCMEncrypter, NewAESGCMEncrypter, LegacyRSAOAEPEncrypter, NewRSAOAEPEncrypter
abbrev pub legacy_aes_gcm : Encrypter
legacy_aes_gcm = legacy_aes_gcm_encrypter (gcm.aes_gcm_cipher_with 32 16)

abbrev pub new_aes_gcm : Encrypter
new_aes_gcm = aes_gcm_encrypter (gcm.aes_gcm_cipher_with 12 16)

abbrev pub legacy_rsa_oaep : Encrypter
legacy_rsa_oaep = legacy_rsa_oaep_encrypter (rsa.rsa_oaep_cipher_with rsa.sha256 rsa.sha1)

abbrev pub new_rsa_oaep : Encrypter
new_rsa_oaep = rsa_oaep_encrypter (rsa.rsa_oaep_cipher_with rsa.sha256 rsa.sha256)

module _ {S : Type 0} (p : Packages S) where
  -- (*legacyAESGCMEncrypter).Encrypt
  abbrev pub encrypt_legacy_aes_gcm : AesGcmCipher → Bytes → KeyWithType → Exec S EncryptedValue
  encrypt_legacy_aes_gcm a input kwt = do
    encrypted_bytes ← gcm_encrypt.encrypt p.rand p.gcm a input kwt.key
    pure (legacy encrypted_bytes)

  -- (*aesGCMEncrypter).Encrypt
  abbrev pub encrypt_aes_gcm : AesGcmCipher → Bytes → KeyWithType → Exec S EncryptedValue
  encrypt_aes_gcm a input kwt = do
    encrypted_bytes ← gcm_encrypt.encrypt p.rand p.gcm a input kwt.key
    (nonce, encrypted, tag) ← lift (gcm.parts a encrypted_bytes)
    pure (aes_gcm (record { encrypted = encrypted; nonce = nonce; tag = tag }))

  -- (*legacyRSAOAEPEncrypter).Encrypt
  abbrev pub encrypt_legacy_rsa_oaep : RsaOaepCipher → Bytes → KeyWithType → Exec S EncryptedValue
  encrypt_legacy_rsa_oaep r input kwt = do
    encrypted ← rsa.encrypt p.rand p.digests r input kwt.key
    pure (legacy encrypted)

  -- (*rsaOAEPEncrypter).Encrypt
  abbrev pub encrypt_rsa_oaep : RsaOaepCipher → Bytes → KeyWithType → Exec S EncryptedValue
  encrypt_rsa_oaep r input kwt = do
    encrypted ← rsa.encrypt p.rand p.digests r input kwt.key
    pure (
        rsa_oaep (record {
          encrypted = encrypted;
          oaep_hash_alg = r.oaep_hash_alg;
          mdf1_hash_alg = r.mdf1_hash_alg;
        }))

  -- The method Encrypt of the interface Encrypter.
  unfoldable pub encrypt : Encrypter → Bytes → KeyWithType → Exec S EncryptedValue
  encrypt (legacy_aes_gcm_encrypter a) input kwt = encrypt_legacy_aes_gcm a input kwt
  encrypt (aes_gcm_encrypter a) input kwt = encrypt_aes_gcm a input kwt
  encrypt (legacy_rsa_oaep_encrypter r) input kwt = encrypt_legacy_rsa_oaep r input kwt
  encrypt (rsa_oaep_encrypter r) input kwt = encrypt_rsa_oaep r input kwt
