-- ===== src/Encryption/RsaOaep.antt =====
-- encryption/rsaoaepcipher.go.
pub mod RoundTrip
pub mod ValidKey
use go_encrypted_config_valu.Base.{ℕ, Bytes, [], codes, str_eq, if◌then◌else◌}
use go_encrypted_config_valu.Base.Outcome.{Outcome, ok, err, panic, key_type_mismatch}
use go_encrypted_config_valu.External.{Rand, Digests}
use go_encrypted_config_valu.Encryption.Exec.{Exec, ◌>>=◌, lift}
use go_encrypted_config_valu.Encryption.Keys.{
  Key, aes_key, rsa_public_key, rsa_private_key, nil_key,
}
use go_encrypted_config_valu.Encryption.Oaep.Mask.{Hash}
use go_encrypted_config_valu.Encryption.Oaep.Scheme.{encrypt_oaep, decrypt_oaep}

-- HashAlgorithm, a string type.
abbrev pub HashAlgorithm : Type 0
HashAlgorithm = Bytes

abbrev pub sha1 : HashAlgorithm
sha1 = codes "SHA-1"

abbrev pub sha256 : HashAlgorithm
sha256 = codes "SHA-256"

pub record RsaOaepCipher : Type 0 where
  pub oaep_hash_alg : HashAlgorithm
  pub mdf1_hash_alg : HashAlgorithm

-- NewRSAOAEPCipher
abbrev pub new_rsa_oaep_cipher : RsaOaepCipher
new_rsa_oaep_cipher = record { oaep_hash_alg = sha256; mdf1_hash_alg = sha256 }

-- RSAOAEPCipherWithAlgorithms
abbrev pub rsa_oaep_cipher_with : HashAlgorithm → HashAlgorithm → RsaOaepCipher
rsa_oaep_cipher_with oaep_hash_alg mdf1_hash_alg = record {
  oaep_hash_alg = oaep_hash_alg;
  mdf1_hash_alg = mdf1_hash_alg;
}

module _ (digests : Digests) where
  -- (HashAlgorithm).Hash
  unfoldable pub hash : HashAlgorithm → Outcome Hash
  hash a =
      if str_eq a sha1
      then ok (record { size = 20; sum = digests.sha1 })
      else if str_eq a sha256
      then ok (record { size = 32; sum = digests.sha256 })
      else panic

module _ {S : Type 0} (rand : Rand S) (digests : Digests) where
  -- (*RSAOAEPCipher).Encrypt
  unfoldable pub encrypt : RsaOaepCipher → Bytes → Key → Exec S Bytes
  encrypt r text (rsa_public_key pub_key) = do
    oaep_hash ← lift (hash digests r.oaep_hash_alg)
    mdf1_hash ← lift (hash digests r.mdf1_hash_alg)
    encrypt_oaep rand oaep_hash mdf1_hash pub_key text []
  encrypt r text (rsa_private_key k) = lift (err key_type_mismatch)
  encrypt r text (aes_key k) = lift (err key_type_mismatch)
  encrypt r text nil_key = lift (err key_type_mismatch)

  -- (*RSAOAEPCipher).Decrypt
  unfoldable pub decrypt : ℕ → RsaOaepCipher → Bytes → Key → Exec S Bytes
  decrypt rounds r text (rsa_private_key priv_key) = do
    oaep_hash ← lift (hash digests r.oaep_hash_alg)
    mdf1_hash ← lift (hash digests r.mdf1_hash_alg)
    decrypt_oaep rand oaep_hash mdf1_hash rounds priv_key text []
  decrypt rounds r text (rsa_public_key k) = lift (err key_type_mismatch)
  decrypt rounds r text (aes_key k) = lift (err key_type_mismatch)
  decrypt rounds r text nil_key = lift (err key_type_mismatch)
