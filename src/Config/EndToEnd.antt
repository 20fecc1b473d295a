-- ===== src/Config/EndToEnd.antt =====
-- Encryption, serialization, parsing and decryption together, for the AES encrypters.
pub mod Rsa
pub mod ValidKey
use go_encrypted_config_valu.Base.{
  Bool-cases, ltb, if◌then◌else◌, inl, inr, ◌+◌, ◌-◌, ◌≤◌, ◌<◌, ◌++◌, Bytes, IsBytes, length, ◌≡◌,
  refl, sym, ap, arith, All-append, All-append_left, All-append_right, IsByte, length-append,
  slice_start, slice_middle, slice_last, from_end_lem, slice, from_end,
}
use go_encrypted_config_valu.Base.Outcome.{ok, panic, ok-injective}
use go_encrypted_config_valu.External.{Packages, ArePackages, IsGcm}
use go_encrypted_config_valu.Encryption.AesGcm.{AesGcmCipher, parts, decrypt as gcm_decrypt}
use go_encrypted_config_valu.Encryption.AesGcm.Encrypt as gcm_encrypt
use go_encrypted_config_valu.Encryption.AesGcm.Parts.{parts-IsCut, parts_total}
use go_encrypted_config_valu.Encryption.AesGcm.RoundTrip.{decrypt-encrypt, encrypt-Encrypted}
use go_encrypted_config_valu.Encryption.Exec as exec
use go_encrypted_config_valu.Encryption.Exec.{Exec, ◌>>=◌}
use go_encrypted_config_valu.Encryption.Keys.{aes_key}
use go_encrypted_config_valu.Config.KeyPair.{
  aes_key_from_key, new_key_with_type, to_serializable as key_to_serializable, aes_type,
}
use go_encrypted_config_valu.Config.KeyPair.RoundTrip.{new_key-to_serializable}
use go_encrypted_config_valu.Config.Value.{
  EncryptedValue, AesGcmValue, aes_gcm, to_serializable, new_encrypted_value,
}
use go_encrypted_config_valu.Config.Value.Decrypt.{decrypt, decrypt_aes, decrypt_legacy}
use go_encrypted_config_valu.Config.Value.RoundTrip.{IsReadable, new_value-to_serializable}
use go_encrypted_config_valu.Config.Encrypters.{encrypt, aes_gcm_encrypter, legacy_aes_gcm}

-- The sizes of the legacy format.
abbrev pub legacy_cipher : AesGcmCipher
legacy_cipher = record { nonce_size_bytes = 32; tag_size_bytes = 16 }

module _ {S : Type 0} (p : Packages S) where
  -- A legacy value that is a nonce of 32 bytes, a ciphertext and a tag of 16 bytes is decrypted
  -- with an AES key as the AES-GCM value of these parts, and no randomness is drawn.
  legacy_parts :
      (nonce encrypted tag key : Bytes) (s : S)
      → length nonce ≡ 32
      → length tag ≡ 16
      → decrypt_legacy p (nonce ++ (encrypted ++ tag)) (aes_key key) s ≡ (
        decrypt_aes p (record { encrypted = encrypted; nonce = nonce; tag = tag }) (aes_key key),
        s,
      )
  unfolding decrypt_legacy
  legacy_parts nonce encrypted tag key s hn ht =
      let whole = nonce ++ (encrypted ++ tag) in
      let t = 32 + length encrypted in
      let size : length whole ≡ t + 16 =
        omega (arith, length-append nonce (encrypted ++ tag), length-append encrypted tag) in
      let size_left : length whole - 16 ≡ t = omega arith in
      rw (
        from_end_lem whole 16 (omega arith),
        size_left,
        slice_middle nonce encrypted tag 32 t hn refl,
        slice_start nonce (encrypted ++ tag) 32 hn,
        slice_last nonce encrypted tag t (omega arith),
      )

  legacy_short :
      (bytes key : Bytes) (s : S)
      → length bytes < 48
      → decrypt_legacy p bytes (aes_key key) s ≡ (panic, s)
  unfolding decrypt_legacy slice from_end
  legacy_short bytes key s h = ground arith

  -- The decryption of a legacy value with an AES key, on every value: it panics on fewer than 48 bytes,
  -- and otherwise decrypts the bytes as they are with the AES-GCM cipher of nonces of 32 and tags of 16
  -- bytes; no randomness is drawn.
  pub legacy_lem :
      (bytes key : Bytes) (s : S)
      → decrypt_legacy p bytes (aes_key key) s ≡ (
        if ltb (length bytes) 48
            then panic
            else gcm_decrypt p.gcm legacy_cipher bytes (aes_key key),
        s,
      )
  unfolding decrypt_aes
  legacy_lem bytes key s = elim (Bool-cases (ltb (length bytes) 48)) [
    | inl short ↦ rw short (legacy_short bytes key s (ground arith))
    | inr fits ↦
        let (pieces, run, cut) = parts_total legacy_cipher bytes (ground arith) in
        rw
          (
            fits,
            cut.is_whole,
            legacy_parts pieces.0 pieces.1 pieces.2 key s cut.length_nonce cut.length_tag,
            cut.length_nonce,
            cut.length_tag,
          )
          refl
  ]

  -- The new format: what the encrypter returns, and what its three parts make up.
  record Sealed (a : AesGcmCipher) (input key : Bytes) (s : S) (ev : AesGcmValue) : Type 0 where
    out : Bytes
    encrypted : (gcm_encrypt.encrypt p.rand p.gcm a input (aes_key key) s).0 ≡ ok out
    is_out : out ≡ ev.nonce ++ (ev.encrypted ++ ev.tag)
    length_nonce : length ev.nonce ≡ a.nonce_size_bytes

  encrypt-Sealed :
      (a : AesGcmCipher) (input key kind : Bytes) (s : S) {v : EncryptedValue}
      → (encrypt p (aes_gcm_encrypter a) input (record { key_type = kind; key = aes_key key }) s).0
        ≡ ok v
      → (ev : AesGcmValue) × (v ≡ aes_gcm ev) × Sealed a input key s ev
  unfolding encrypt
  encrypt-Sealed a input key kind s h =
      let (out, run, h1) =
        exec.>>=-eq-ok (gcm_encrypt.encrypt p.rand p.gcm a input (aes_key key)) _ s h in
      let (pieces, cut, h2) = exec.>>=-eq-ok (exec.lift (parts a out)) _ _ h1 in
      let is_cut = parts-IsCut a out pieces cut in
      (
        record { encrypted = pieces.1; nonce = pieces.0; tag = pieces.2 },
        sym (ok-injective h2),
        record {
          out = out;
          encrypted = run;
          is_out = is_cut.is_whole;
          length_nonce = is_cut.length_nonce;
        },
      )

  decrypt_aes-Sealed :
      (a : AesGcmCipher) (input key : Bytes) (s : S) (ev : AesGcmValue)
      → IsGcm p.gcm
      → Sealed a input key s ev
      → decrypt_aes p ev (aes_key key) ≡ ok input
  unfolding decrypt_aes
  decrypt_aes-Sealed a input key s ev laws sealed = rw (← sealed.is_out) (
      decrypt-encrypt p.rand p.gcm a
        (record { nonce_size_bytes = length ev.nonce; tag_size_bytes = length ev.tag }) input key s
        sealed.out laws sealed.length_nonce sealed.encrypted)

  -- If an AES-GCM encrypter of any sizes returns a value under an AES key, that value decrypts to
  -- the input under the same key material, whatever the key types and the state of the generator,
  -- over packages that meet their laws.
  pub decrypt-encrypt_aes :
      (a : AesGcmCipher) (input key kind kind' : Bytes) (s s' : S) (v : EncryptedValue)
      → ArePackages p
      → (encrypt p (aes_gcm_encrypter a) input (record { key_type = kind; key = aes_key key }) s).0
        ≡ ok v
      → decrypt p v (record { key_type = kind'; key = aes_key key }) s' ≡ (ok input, s')
  unfolding decrypt
  decrypt-encrypt_aes a input key kind kind' s s' v laws h =
      let (ev, is_v, sealed) = encrypt-Sealed a input key kind s h in
      rw (is_v, decrypt_aes-Sealed a input key s ev laws.is_gcm sealed)

  -- If the legacy AES-GCM encrypter returns a value under an AES key, that value decrypts to the
  -- input under the same key material, whatever the key types and the state of the generator, over
  -- packages that meet their laws.
  pub decrypt-encrypt_legacy_aes :
      (input key kind kind' : Bytes) (s s' : S) (v : EncryptedValue)
      → ArePackages p
      → (encrypt p legacy_aes_gcm input (record { key_type = kind; key = aes_key key }) s).0 ≡ ok v
      → decrypt p v (record { key_type = kind'; key = aes_key key }) s' ≡ (ok input, s')
  unfolding encrypt decrypt
  decrypt-encrypt_legacy_aes input key kind kind' s s' v laws h =
      let a = legacy_cipher in
      let (out, run, h1) =
        exec.>>=-eq-ok (gcm_encrypt.encrypt p.rand p.gcm a input (aes_key key)) _ s h in
      let e = encrypt-Encrypted p.rand p.gcm a input key s out run in
      let size : 48 ≤ length out = omega (
        arith,
        e.length_nonce,
        ap length e.is_out,
        length-append e.nonce (p.gcm.seal key e.nonce input),
        laws.is_gcm.length-seal key e.nonce input,
      ) in
      let (pieces, run_parts, cut) = parts_total a out size in
      let ev : AesGcmValue = record { encrypted = pieces.1; nonce = pieces.0; tag = pieces.2 } in
      let sealed : Sealed a input key s ev = record {
        out = out;
        encrypted = run;
        is_out = cut.is_whole;
        length_nonce = cut.length_nonce;
      } in
      rw (
        ← ok-injective h1,
        cut.is_whole,
        legacy_parts pieces.0 pieces.1 pieces.2 key s' cut.length_nonce cut.length_tag,
        decrypt_aes-Sealed a input key s ev laws.is_gcm sealed,
      )

  out-IsBytes :
      (a : AesGcmCipher) (input key : Bytes) (s : S) (out : Bytes)
      → ArePackages p
      → IsBytes input
      → (gcm_encrypt.encrypt p.rand p.gcm a input (aes_key key) s).0 ≡ ok out
      → IsBytes out
  out-IsBytes a input key s out laws hi h =
      let e = encrypt-Encrypted p.rand p.gcm a input key s out h in
      rw e.is_out (
        All-append IsByte e.nonce _ (laws.is_rand.read-IsBytes a.nonce_size_bytes s e.nonce e.drawn)
          (laws.is_gcm.seal-IsBytes key e.nonce input hi))

  -- The calls of a program that has a serialized key and a serialized value.
  abbrev pub reload : Bytes → Bytes → Exec S Bytes
  reload key_text value_text = exec.lift (new_key_with_type p.formats key_text) >>= λ kwt.
      exec.lift (new_encrypted_value p.json p.digests value_text) >>= λ v. decrypt p v kwt

  -- If an AES-GCM encrypter of any sizes returns a value for an input of bytes under an AES key of
  -- bytes, that value and the key, both written as text and read back, decrypt to the input, over
  -- packages that meet their laws.
  pub reload-to_serializable :
      (a : AesGcmCipher) (input key : Bytes) (s s' : S) (v : EncryptedValue) (key_text : Bytes)
      → ArePackages p
      → IsBytes input
      → IsBytes key
      → (encrypt p (aes_gcm_encrypter a) input (aes_key_from_key (aes_key key)) s).0 ≡ ok v
      → key_to_serializable p.formats (aes_key_from_key (aes_key key)) ≡ ok key_text
      → reload key_text (to_serializable p.json v) s' ≡ (ok input, s')
  reload-to_serializable a input key s s' v key_text laws hi hk h ht =
      let (ev, is_v, sealed) = encrypt-Sealed a input key aes_type s h in
      let bytes =
        rw sealed.is_out at (out-IsBytes a input key s sealed.out laws hi sealed.encrypted) in
      let rest = All-append_right IsByte ev.nonce (ev.encrypted ++ ev.tag) bytes in
      let readable : IsReadable p.json p.digests (aes_gcm ev) = (
        All-append_left IsByte ev.encrypted ev.tag rest,
        All-append_left IsByte ev.nonce (ev.encrypted ++ ev.tag) bytes,
        All-append_right IsByte ev.encrypted ev.tag rest,
      ) in
      rw
        (
          new_key-to_serializable p.formats laws.is_formats aes_type (aes_key key) key_text
              (refl, hk) ht,
          is_v,
          new_value-to_serializable p.json p.digests laws.is_json (aes_gcm ev) readable,
        )
        (rw (← is_v) (decrypt-encrypt_aes a input key aes_type aes_type s s' v laws h))
