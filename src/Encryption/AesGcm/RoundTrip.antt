-- ===== src/Encryption/AesGcm/RoundTrip.antt =====
-- What the AES-GCM cipher guarantees, over any AES-GCM and any generator that meet their laws.
use go_encrypted_config_valu.Base.{
  ℕ, ◌++◌, Option, Bytes, true, some, length, ◌≡◌, ◌≢◌, arith, slice_start, slice_rest,
  slice_panics, sym, inr, inl, ==_iff, ◌∙◌, ◌≤◌, ◌-◌, Bool-cases, Option-cases, none, not, ◌==◌,
  ltb, if◌then◌else◌, take, drop, take-eq_self, length-take, length-drop, slice_lem, slice, refl,
  ap,
}
use go_encrypted_config_valu.Base.Outcome.{
  Outcome, ok, panic, err, some_or, some_or-eq-ok, aes_cipher_failed, block_cipher_failed,
  open_failed, random_failed,
}
use go_encrypted_config_valu.External.{Rand, IsRand, Gcm, IsGcm}
use go_encrypted_config_valu.Encryption.Exec as exec
use go_encrypted_config_valu.Encryption.Exec.{random_bytes}
use go_encrypted_config_valu.Encryption.Keys.{aes_key}
use go_encrypted_config_valu.Encryption.AesGcm.{
  AesGcmCipher, Aead, is_aes_key, decrypt, new_block_cipher, aead_seal, aead_open,
}
use go_encrypted_config_valu.Encryption.AesGcm.Encrypt.{encrypt}

-- For a key of a length that AES has and a nonce size that is not zero, a cipher is constructed.
pub new_block_cipher_lem :
    (key : Bytes) (n : ℕ)
    → is_aes_key key ≡ true
    → n ≢ 0
    → new_block_cipher key n ≡ ok (record { key = key; nonce_size = n })
unfolding new_block_cipher
new_block_cipher_lem key n h k = ground arith

decrypt_sealed :
    (g : Gcm) (a : AesGcmCipher) (key nonce sealed : Bytes)
    → is_aes_key key ≡ true
    → a.nonce_size_bytes ≢ 0
    → length nonce ≡ a.nonce_size_bytes
    → decrypt g a (nonce ++ sealed) (aes_key key)
      ≡ aead_open g (record { key = key; nonce_size = a.nonce_size_bytes }) nonce sealed
unfolding decrypt
decrypt_sealed g a key nonce sealed hk hz hn = rw (
  new_block_cipher_lem key a.nonce_size_bytes hk hz,
  slice_start nonce sealed a.nonce_size_bytes hn,
  slice_rest nonce sealed a.nonce_size_bytes hn,
)

new_block_cipher-eq-ok :
    (key : Bytes) (n : ℕ) {b : Aead}
    → new_block_cipher key n ≡ ok b
    → (is_aes_key key ≡ true) × (n ≢ 0) × (b ≡ record { key = key; nonce_size = n })
unfolding new_block_cipher
new_block_cipher-eq-ok key n h = ground arith

aead_seal-eq-ok :
    (g : Gcm) (a : Aead) (nonce text : Bytes) {b : Bytes}
    → aead_seal g a nonce text ≡ ok b
    → (length nonce ≡ a.nonce_size) × (b ≡ g.seal a.key nonce text)
unfolding aead_seal
aead_seal-eq-ok g a nonce text h = ground arith

random_bytes-eq-ok :
    {S : Type 0} (rand : Rand S) (n : ℕ) (s : S) {b : Bytes}
    → (random_bytes rand n s).0 ≡ ok b
    → (rand.read n s).0 ≡ some b
unfolding random_bytes
random_bytes-eq-ok rand n s h = some_or-eq-ok _ _ h

-- What a successful encryption has done.
pub record Encrypted {S : Type 0} (rand : Rand S) (g : Gcm) (a : AesGcmCipher) (text key : Bytes)
    (s : S) (out : Bytes) : Type 0 where
  pub nonce : Bytes
  pub valid_key : is_aes_key key ≡ true
  pub nonce_size_ne_zero : a.nonce_size_bytes ≢ 0
  pub drawn : (rand.read a.nonce_size_bytes s).0 ≡ some nonce
  pub length_nonce : length nonce ≡ a.nonce_size_bytes
  pub is_out : out ≡ nonce ++ g.seal key nonce text

pub encrypt-Encrypted :
    {S : Type 0} (rand : Rand S) (g : Gcm) (a : AesGcmCipher) (text key : Bytes) (s : S)
    (out : Bytes)
    → (encrypt rand g a text (aes_key key) s).0 ≡ ok out
    → Encrypted rand g a text key s out
unfolding encrypt
encrypt-Encrypted rand g a text key s out h =
    let (b, made, h1) =
      exec.>>=-eq-ok (exec.lift (new_block_cipher key a.nonce_size_bytes)) _ s h in
    let (valid, nonzero, is_b) = new_block_cipher-eq-ok key a.nonce_size_bytes made in
    let (nonce, drawn, h2) = exec.>>=-eq-ok (random_bytes rand b.nonce_size) _ s h1 in
    let (sealed, run, h3) = exec.>>=-eq-ok (exec.lift (aead_seal g b nonce text)) _ _ h2 in
    let (size, is_sealed) = aead_seal-eq-ok g b nonce text run in
    record {
      nonce = nonce;
      valid_key = valid;
      nonce_size_ne_zero = nonzero;
      drawn = cc (random_bytes-eq-ok rand b.nonce_size s drawn, is_b);
      length_nonce = cc (size, is_b);
      is_out = cc (is_sealed, is_b, h3);
    }

aead_open-seal :
    (g : Gcm) (key nonce text : Bytes) (n : ℕ)
    → IsGcm g
    → length nonce ≡ n
    → aead_open g (record { key = key; nonce_size = n }) nonce (g.seal key nonce text) ≡ ok text
unfolding aead_open
aead_open-seal g key nonce text n laws h =
    rw (laws.unseal-seal key nonce text, (==_iff (length nonce) n).1 h)

-- If Encrypt returns bytes, Decrypt of them with the same key gives the text back, also by a
-- cipher that has another tag size, if its nonce size is the same and AES-GCM meets its laws.
pub decrypt-encrypt :
    {S : Type 0} (rand : Rand S) (g : Gcm) (a a' : AesGcmCipher) (text key : Bytes) (s : S)
    (out : Bytes)
    → IsGcm g
    → a'.nonce_size_bytes ≡ a.nonce_size_bytes
    → (encrypt rand g a text (aes_key key) s).0 ≡ ok out
    → decrypt g a' out (aes_key key) ≡ ok text
decrypt-encrypt rand g a a' text key s out laws same h =
    let e = encrypt-Encrypted rand g a text key s out h in
    let size : length e.nonce ≡ a'.nonce_size_bytes = e.length_nonce ∙ sym same in
    let nonzero : a'.nonce_size_bytes ≢ 0 = rw same e.nonce_size_ne_zero in
    rw
      (e.is_out, decrypt_sealed g a' key e.nonce (g.seal key e.nonce text) e.valid_key nonzero size)
      (aead_open-seal g key e.nonce text a'.nonce_size_bytes laws size)

-- With a key of a length that AES has, a nonce size that is not zero and a generator that does not
-- fail, Encrypt returns the nonce drawn and behind it the sealed text.
pub encrypt_total :
    {S : Type 0} (rand : Rand S) (g : Gcm) (a : AesGcmCipher) (text key : Bytes) (s : S)
    (nonce : Bytes)
    → IsRand rand
    → is_aes_key key ≡ true
    → a.nonce_size_bytes ≢ 0
    → (rand.read a.nonce_size_bytes s).0 ≡ some nonce
    → (encrypt rand g a text (aes_key key) s).0 ≡ ok (nonce ++ g.seal key nonce text)
unfolding encrypt random_bytes aead_seal
encrypt_total rand g a text key s nonce laws valid nonzero drawn =
    let size = laws.length-read a.nonce_size_bytes s nonce drawn in
    rw (
      new_block_cipher_lem key a.nonce_size_bytes valid nonzero,
      drawn,
      (==_iff (length nonce) a.nonce_size_bytes).1 size,
    )

-- What is drawn, and what Encrypt makes of it.
unfoldable pub sealed_with : Gcm → Bytes → Bytes → Option Bytes → Outcome Bytes
sealed_with g text key none = err random_failed
sealed_with g text key (some nonce) = ok (nonce ++ g.seal key nonce text)

-- Encrypt with an AES key, on every branch, for a generator that meets its laws: an error, with nothing
-- drawn, for a key of a length that AES does not have and for a nonce size of zero; otherwise a nonce of
-- this size is drawn, and the result is an error if the generator fails, and else the nonce and behind it
-- the sealed text.
pub encrypt_lem :
    {S : Type 0} (rand : Rand S) (g : Gcm) (a : AesGcmCipher) (text key : Bytes) (s : S)
    → IsRand rand
    → encrypt rand g a text (aes_key key) s ≡ (
        if not (is_aes_key key)
        then (err aes_cipher_failed, s)
        else if a.nonce_size_bytes == 0
        then (err block_cipher_failed, s)
        else (
          sealed_with g text key (rand.read a.nonce_size_bytes s).0,
          (rand.read a.nonce_size_bytes s).1,
        ))
unfolding encrypt new_block_cipher random_bytes aead_seal sealed_with
encrypt_lem rand g a text key s laws =
    let n = a.nonce_size_bytes in
    elim (Bool-cases (is_aes_key key)) [
      | inr invalid ↦ rw invalid refl
      | inl valid ↦ elim (Bool-cases (n == 0)) [
        | inl no_nonce ↦ rw (valid, no_nonce) refl
        | inr nonce_used ↦ elim (Option-cases (rand.read n s).0) [
          | inl failed ↦ rw (valid, nonce_used, failed) refl
          | inr (nonce, drawn) ↦
              rw
                (
                  valid,
                  nonce_used,
                  drawn,
                  (==_iff (length nonce) n).1 (laws.length-read n s nonce drawn),
                )
                refl
        ]
      ]
    ]

-- Decrypt with an AES key, on every branch: an error for a key of a length that AES does not have and
-- for a nonce size of zero, a panic on a text that is shorter than the nonce, and otherwise what AES-GCM
-- finds in the text behind its nonce.
pub decrypt_lem :
    (g : Gcm) (a : AesGcmCipher) (text key : Bytes)
    → decrypt g a text (aes_key key) ≡ (
        if not (is_aes_key key)
        then err aes_cipher_failed
        else if a.nonce_size_bytes == 0
        then err block_cipher_failed
        else if ltb (length text) a.nonce_size_bytes
        then panic
        else some_or open_failed
            (g.unseal key (take a.nonce_size_bytes text) (drop a.nonce_size_bytes text)))
unfolding decrypt new_block_cipher aead_open
decrypt_lem g a text key =
    let n = a.nonce_size_bytes in
    elim (Bool-cases (is_aes_key key)) [
      | inr invalid ↦ rw invalid refl
      | inl valid ↦ elim (Bool-cases (n == 0)) [
        | inl no_nonce ↦ rw (valid, no_nonce) refl
        | inr nonce_used ↦ elim (Bool-cases (ltb (length text) n)) [
          | inl short ↦
              rw (valid, nonce_used, short, slice_panics text 0 n (inr (ground arith))) refl
          | inr fits ↦
              let less : n ≤ length text = ground arith in
              let size : (length (take n text) == n) ≡ true =
                (==_iff (length (take n text)) n).1 (omega (arith, length-take n text)) in
              let front : slice text 0 n ≡ ok (take n text) =
                slice_lem text 0 n (omega arith) less ∙ ap (λ k. ok (take k text)) (omega arith) in
              let behind : slice text n (length text) ≡ ok (drop n text) =
                slice_lem text n (length text) less (omega arith)
                ∙ ap ok (
                    take-eq_self (length text - n) (drop n text)
                      (omega (arith, length-drop n text))) in
              rw (valid, nonce_used, fits, front, behind, size) refl
        ]
      ]
    ]
