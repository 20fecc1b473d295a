-- ===== src/Encryption/Oaep/Scheme.antt =====
-- encryptOAEP and decryptOAEP of encryption/go_rsa_oaep_port.go.
pub mod RoundTrip
pub mod Branches
pub mod Total
use go_encrypted_config_valu.Base.{ℕ, ◌+◌, ◌*◌, ◌/◌, not, Bytes, ◌||◌, length, ltb, if◌then◌else◌}
use go_encrypted_config_valu.Base.Outcome.{deref, guard, message_too_long, decryption}
use go_encrypted_config_valu.External.{Rand, RsaPublicKey, RsaPrivateKey}
use go_encrypted_config_valu.Encryption.Exec.{Exec, ◌>>=◌, ◌>>◌, pure, lift, random_bytes}
use go_encrypted_config_valu.Encryption.Oaep.BigInt.{set_bytes, big_bytes, bit_len}
use go_encrypted_config_valu.Encryption.Oaep.Mask.{Hash}
use go_encrypted_config_valu.Encryption.Oaep.Padding.{left_pad}
use go_encrypted_config_valu.Encryption.Oaep.Message.{check_room, encode_message, decode_message}
use go_encrypted_config_valu.Encryption.Oaep.Rsa.{check_pub, encrypt, decrypt_number}

-- The bytes of the modulus.
abbrev pub modulus_size : ℕ → ℕ
modulus_size n = (bit_len n + 7) / 8

module _ {S : Type 0} (rand : Rand S) (oaep_hash mdf1_hash : Hash) where
  -- encryptOAEP. `len(msg) > k-2*size-2` is a comparison of integers that may be negative.
  unfoldable pub encrypt_oaep : RsaPublicKey → Bytes → Bytes → Exec S Bytes
  encrypt_oaep pub_key msg label = do
    lift (check_pub pub_key)
    n ← lift (deref pub_key.n)
    let k = modulus_size n
    lift (guard (not (ltb k (length msg + 2 * oaep_hash.size + 2))) message_too_long)
    lift (check_room oaep_hash.size k (length msg))
    seed ← random_bytes rand oaep_hash.size
    em ← lift (encode_message oaep_hash mdf1_hash k msg label seed)
    let out = big_bytes (encrypt n pub_key.e (set_bytes em))
    pure (if ltb (length out) k then left_pad out k else out)

  -- decryptOAEP
  unfoldable pub decrypt_oaep : ℕ → RsaPrivateKey → Bytes → Bytes → Exec S Bytes
  decrypt_oaep rounds priv ciphertext label = do
    lift (check_pub priv.public)
    n ← lift (deref priv.public.n)
    let k = modulus_size n
    lift (guard (not (ltb k (length ciphertext) || ltb k (oaep_hash.size * 2 + 2))) decryption)
    m ← decrypt_number rand rounds priv n (set_bytes ciphertext)
    lift (decode_message oaep_hash mdf1_hash (left_pad (big_bytes m) k) label)
