-- ===== src/Config/Algorithms/Defaults.antt =====
-- What the defaults of the algorithms guarantee.
use go_encrypted_config_valu.Base.{
  ◌≡◌, ◌≢◌, ◌++◌, ◌≤◌, true, none, some, Bytes, length, str_eq, refl, arith, ap, ==_iff,
  length-append, ◌↔◌, Bool-cases, inl, inr,
}
use go_encrypted_config_valu.Base.Outcome.{ok}
use go_encrypted_config_valu.External.{Packages, ArePackages}
use go_encrypted_config_valu.Encryption.AesGcm.{new_aes_gcm_cipher, is_aes_key, aead_seal}
use go_encrypted_config_valu.Encryption.AesGcm.Encrypt as gcm_encrypt
use go_encrypted_config_valu.Encryption.AesGcm.Parts.{parts_total}
use go_encrypted_config_valu.Encryption.AesGcm.RoundTrip.{new_block_cipher_lem}
use go_encrypted_config_valu.Encryption.Exec.{Exec, ◌>>=◌, random_bytes}
use go_encrypted_config_valu.Encryption.Keys.{aes_key, aes_key_from_bytes}
use go_encrypted_config_valu.Encryption.Keys.Generate as generate
use go_encrypted_config_valu.Config.KeyPair.{
  aes_algorithm, rsa_algorithm, aes_key_from_key, aes_type,
}
use go_encrypted_config_valu.Config.Value.{EncryptedValue, aes_gcm}
use go_encrypted_config_valu.Config.Value.Decrypt.{decrypt}
use go_encrypted_config_valu.Config.Encrypters.{encrypt, new_aes_gcm}
use go_encrypted_config_valu.Config.EndToEnd.{decrypt-encrypt_aes}
use go_encrypted_config_valu.Config.Algorithms.{
  to_algorithm_type, encrypter, generate_key_pair, encrypt_by,
}

-- ToAlgorithmType accepts a name exactly if the algorithm has an encrypter.
pub to_algorithm_type-encrypter : (a : Bytes) → (to_algorithm_type a ≡ ok a) ↔ (encrypter a ≢ none)
unfolding to_algorithm_type encrypter
to_algorithm_type-encrypter a = elim (Bool-cases (str_eq a aes_algorithm)) [
  | inl aes ↦ rw aes ((λ h e. cc), (λ h. refl))
  | inr other ↦ elim (Bool-cases (str_eq a rsa_algorithm)) [
    | inl rsa ↦ rw (other, rsa) ((λ h e. cc), (λ h. refl))
    | inr unknown ↦ rw (other, unknown) ((λ h e. cc), (λ h. absurd (h refl)))
  ]
]

module _ {S : Type 0} (p : Packages S) where
  -- A program that generates a key pair for AES, encrypts with its first key and decrypts with its
  -- second.
  abbrev pub session : Bytes → Exec S Bytes
  session input = generate_key_pair p.rand aes_algorithm >>= λ pair.
      encrypt_by p (encrypter aes_algorithm) input pair.encryption_key >>= λ v.
      decrypt p v pair.decryption_key

  generate_aes :
      (s s1 : S) (key : Bytes)
      → p.rand.read 32 s ≡ (some key, s1)
      → generate_key_pair p.rand aes_algorithm s ≡ (
        ok (record {
          encryption_key = aes_key_from_key (aes_key key);
          decryption_key = aes_key_from_key (aes_key key);
        }),
        s1,
      )
  unfolding generate_key_pair generate.new_aes_key random_bytes aes_key_from_bytes
  generate_aes s s1 key h = rw h

  encrypt_aes :
      (input key nonce : Bytes) (s1 s2 : S)
      → ArePackages p
      → length key ≡ 32
      → p.rand.read 12 s1 ≡ (some nonce, s2)
      → (v : EncryptedValue) × (encrypt p new_aes_gcm input (aes_key_from_key (aes_key key)) s1
          ≡ (ok v, s2))
  unfolding encrypt gcm_encrypt.encrypt random_bytes aead_seal
  encrypt_aes input key nonce s1 s2 laws hk h =
      let valid : is_aes_key key ≡ true = ground arith in
      let hn : length nonce ≡ 12 = laws.is_rand.length-read 12 s1 nonce (ap (λ r. r.0) h) in
      let sealed = p.gcm.seal key nonce input in
      let size : 28 ≤ length (nonce ++ sealed) =
        omega (arith, length-append nonce sealed, laws.is_gcm.length-seal key nonce input) in
      let (pieces, run, cut) = parts_total new_aes_gcm_cipher (nonce ++ sealed) size in
      (
        aes_gcm (record { encrypted = pieces.1; nonce = pieces.0; tag = pieces.2 }),
        rw (
          new_block_cipher_lem key 12 valid (omega arith),
          h,
          (==_iff (length nonce) 12).1 hn,
          run,
        ),
      )

  -- Over packages that meet their laws, if the generator gives the 32 bytes of the key and then the
  -- 12 bytes of the nonce, the program returns its input.
  pub decrypt-encrypt_default :
      (input key nonce : Bytes) (s s1 s2 : S)
      → ArePackages p
      → p.rand.read 32 s ≡ (some key, s1)
      → p.rand.read 12 s1 ≡ (some nonce, s2)
      → session input s ≡ (ok input, s2)
  unfolding encrypt_by encrypter
  decrypt-encrypt_default input key nonce s s1 s2 laws drawn_key drawn_nonce =
      let size : length key ≡ 32 = laws.is_rand.length-read 32 s key (ap (λ r. r.0) drawn_key) in
      let (v, run) = encrypt_aes input key nonce s1 s2 laws size drawn_nonce in
      let opened =
        decrypt-encrypt_aes p new_aes_gcm_cipher input key aes_type aes_type s1 s2 v laws
          (ap (λ r. r.0) run) in
      rw (generate_aes s s1 key drawn_key, run, opened)
