-- ===== src/Tests/Ciphers.antt =====
-- The theorems on the ciphers and on the mask at concrete inputs.
use go_encrypted_config_valu.Base.{
  ◌≡◌, ◌⊎◌, ◌<◌, ◌++◌, [], ◌∷◌, Bytes, IsBytes, length, replicate, codes, arith, refl,
}
use go_encrypted_config_valu.Base.Outcome.{ok, panic}
use go_encrypted_config_valu.Encryption.AesGcm.{
  AesGcmCipher, new_aes_gcm_cipher, decrypt, parts, new_block_cipher, aead_seal,
}
use go_encrypted_config_valu.Encryption.Exec.{random_bytes}
use go_encrypted_config_valu.Encryption.AesGcm.Encrypt.{encrypt}
use go_encrypted_config_valu.Encryption.AesGcm.Parts.{parts_lem, IsCut}
use go_encrypted_config_valu.Encryption.AesGcm.RoundTrip.{
  decrypt-encrypt, encrypt_lem, decrypt_lem, sealed_with,
}
use go_encrypted_config_valu.Encryption.Keys.{aes_key}
use go_encrypted_config_valu.Encryption.Oaep.Mask.{
  Hash, Counter, counter_bytes, inc_counter, mgf1_xor,
}
use go_encrypted_config_valu.Encryption.Oaep.Mask.Count.{count, inc_counter_lem}
use go_encrypted_config_valu.Encryption.Oaep.Mask.Mgf.{IsHash, xor_bytes, mask, mgf1_xor_lem}
use go_encrypted_config_valu.Encryption.Oaep.Message.{decode_message}
use go_encrypted_config_valu.Encryption.Oaep.Message.Decode.{decoded, decode_message_lem}
use go_encrypted_config_valu.Encryption.Oaep.BigInt.{big_bytes, set_bytes}
use go_encrypted_config_valu.Encryption.Oaep.BigInt.Digits.{left_pad-set_bytes}
use go_encrypted_config_valu.Encryption.Oaep.Padding.{left_pad}
use go_encrypted_config_valu.Tests.Packages.{rand, gcm, rand-IsRand, gcm-IsGcm}

abbrev key : Bytes
key = replicate 16 9

abbrev text : Bytes
text = codes "secret"

abbrev sealed : Bytes
sealed = replicate 12 4 ++ (text ++ replicate 16 0)

encrypt_lem_example : encrypt rand gcm new_aes_gcm_cipher text (aes_key key) 4 ≡ (ok sealed, 5)
unfolding sealed_with
encrypt_lem_example = encrypt_lem rand gcm new_aes_gcm_cipher text key 4 rand-IsRand

run : (encrypt rand gcm new_aes_gcm_cipher text (aes_key key) 4).0 ≡ ok sealed
unfolding encrypt new_block_cipher random_bytes aead_seal
run = refl

abbrev other_tag : AesGcmCipher
other_tag = record { nonce_size_bytes = 12; tag_size_bytes = 4 }

decrypt-encrypt_example : decrypt gcm other_tag sealed (aes_key key) ≡ ok text
decrypt-encrypt_example =
    decrypt-encrypt rand gcm new_aes_gcm_cipher other_tag text key 4 sealed gcm-IsGcm refl run

decrypt_lem_example : decrypt gcm new_aes_gcm_cipher sealed (aes_key key) ≡ ok text
decrypt_lem_example = decrypt_lem gcm new_aes_gcm_cipher sealed key

-- On a text shorter than the nonce.
short_text : decrypt gcm new_aes_gcm_cipher text (aes_key key) ≡ panic
short_text = decrypt_lem gcm new_aes_gcm_cipher text key

parts_lem_example :
    ((length sealed < 28) × (parts new_aes_gcm_cipher sealed ≡ panic))
    ⊎ ((pieces : Bytes × Bytes × Bytes) × (parts new_aes_gcm_cipher sealed ≡ ok pieces)
        × IsCut new_aes_gcm_cipher sealed pieces)
parts_lem_example = parts_lem new_aes_gcm_cipher sealed

abbrev full : Counter
full = record { c0 = 0; c1 = 3; c2 = 255; c3 = 255 }

inc_counter_lem_example :
    (count (inc_counter full) ≡ 262144) × IsBytes (counter_bytes (inc_counter full))
inc_counter_lem_example = inc_counter_lem full (omega arith)

abbrev two_bytes : Hash
two_bytes = record { size = 2; sum = λ s. 3 ∷ 5 ∷ [] }

two_bytes-IsHash : IsHash two_bytes
two_bytes-IsHash = record {
  length_sum = λ s. refl;
  positive = omega arith;
  sum-IsBytes = λ s. omega arith;
}

mgf1_xor_lem_example :
    mgf1_xor text two_bytes (codes "seed") ≡ ok (xor_bytes text (mask two_bytes (codes "seed") 6))
mgf1_xor_lem_example = mgf1_xor_lem two_bytes two_bytes-IsHash (codes "seed") text

decode_message_lem_example :
    decode_message two_bytes two_bytes (0 ∷ 8 ∷ 9 ∷ text) []
    ≡ decoded two_bytes two_bytes [] 0 (8 ∷ 9 ∷ text)
decode_message_lem_example =
    decode_message_lem two_bytes two_bytes 0 (8 ∷ 9 ∷ text) [] two_bytes-IsHash

left_pad-set_bytes_example :
    left_pad (big_bytes (set_bytes (0 ∷ 0 ∷ 7 ∷ 0 ∷ []))) 4 ≡ 0 ∷ 0 ∷ 7 ∷ 0 ∷ []
left_pad-set_bytes_example = left_pad-set_bytes (0 ∷ 0 ∷ 7 ∷ 0 ∷ []) (omega arith)
