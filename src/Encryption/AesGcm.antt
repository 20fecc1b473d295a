-- ===== src/Encryption/AesGcm.antt =====
-- encryption/aesgcmcipher.go.
pub mod Encrypt
pub mod Parts
pub mod RoundTrip
use go_encrypted_config_valu.Base.{ℕ, Bool, not, ◌||◌, Bytes, length, ◌==◌, slice, from_end}
use go_encrypted_config_valu.Base.Outcome.{
  Outcome, ok, err, ◌>>=◌, ◌>>◌, guard, demand, some_or, key_type_mismatch, aes_cipher_failed,
  block_cipher_failed, open_failed,
}
use go_encrypted_config_valu.External.{Gcm}
use go_encrypted_config_valu.Encryption.Keys.{
  Key, aes_key, rsa_public_key, rsa_private_key, nil_key,
}

pub record AesGcmCipher : Type 0 where
  pub nonce_size_bytes : ℕ
  pub tag_size_bytes : ℕ

-- NewAESGCMCipher
abbrev pub new_aes_gcm_cipher : AesGcmCipher
new_aes_gcm_cipher = record { nonce_size_bytes = 12; tag_size_bytes = 16 }

-- AESGCMCipherWithNonceAndTagSize
abbrev pub aes_gcm_cipher_with : ℕ → ℕ → AesGcmCipher
aes_gcm_cipher_with nonce_size_bytes tag_size_bytes = record {
  nonce_size_bytes = nonce_size_bytes;
  tag_size_bytes = tag_size_bytes;
}

-- The value that cipher.NewGCMWithNonceSize returns.
pub record Aead : Type 0 where
  pub key : Bytes
  pub nonce_size : ℕ

-- The key lengths that aes.NewCipher takes.
abbrev pub is_aes_key : Bytes → Bool
is_aes_key key = length key == 16 || length key == 24 || length key == 32

-- newBlockCipher
unfoldable pub new_block_cipher : Bytes → ℕ → Outcome Aead
new_block_cipher key nonce_size_bytes = do
  guard (is_aes_key key) aes_cipher_failed
  guard (not (nonce_size_bytes == 0)) block_cipher_failed
  ok (record { key = key; nonce_size = nonce_size_bytes })

-- Parts: the nonce, the ciphertext and the tag.
unfoldable pub parts : AesGcmCipher → Bytes → Outcome (Bytes × Bytes × Bytes)
parts a encrypted_data = do
  tag_start ← from_end encrypted_data a.tag_size_bytes
  nonce ← slice encrypted_data 0 a.nonce_size_bytes
  ciphertext ← slice encrypted_data a.nonce_size_bytes tag_start
  tag ← slice encrypted_data tag_start (length encrypted_data)
  ok (nonce, ciphertext, tag)

module _ (gcm : Gcm) where
  -- Seal and Open panic on a nonce of another length.
  unfoldable pub aead_seal : Aead → Bytes → Bytes → Outcome Bytes
  aead_seal a nonce text = do demand (length nonce == a.nonce_size); ok (gcm.seal a.key nonce text)

  unfoldable pub aead_open : Aead → Bytes → Bytes → Outcome Bytes
  aead_open a nonce text = do
    demand (length nonce == a.nonce_size)
    some_or open_failed (gcm.unseal a.key nonce text)

  -- (*AESGCMCipher).Decrypt
  unfoldable pub decrypt : AesGcmCipher → Bytes → Key → Outcome Bytes
  decrypt a text (aes_key key) = do
    aead ← new_block_cipher key a.nonce_size_bytes
    nonce ← slice text 0 a.nonce_size_bytes
    sealed ← slice text a.nonce_size_bytes (length text)
    aead_open aead nonce sealed
  decrypt a text (rsa_public_key k) = err key_type_mismatch
  decrypt a text (rsa_private_key k) = err key_type_mismatch
  decrypt a text nil_key = err key_type_mismatch
