-- ===== src/Config/StringVars/DecryptAll.antt =====
-- What DecryptAllEncryptedValueStringVars and DecryptSingleEncryptedValueStringVar return.
use go_encrypted_config_valu.Base.{
  [], ◌∷◌, ◌++◌, Bytes, Lacks, codes, ◌≡◌, refl, arith, ◌∙◌, append_assoc,
}
use go_encrypted_config_valu.Base.Outcome.{Outcome, Error, ok, err, panic, starved}
use go_encrypted_config_valu.Base64.{encode}
use go_encrypted_config_valu.Base64.RoundTrip.{encode-Lacks-brace}
use go_encrypted_config_valu.External.{Packages, Json, IsJson}
use go_encrypted_config_valu.Encryption.Exec.{Exec, ◌>>=◌, continue, pure}
use go_encrypted_config_valu.Config.KeyPair.{KeyWithType}
use go_encrypted_config_valu.Config.StringVar.{new_string_var}
use go_encrypted_config_valu.Config.StringVar.Form.{contents-new_string_var}
use go_encrypted_config_valu.Config.Value.{
  EncryptedValue, legacy, aes_gcm, rsa_oaep, to_serializable, marshal_aes, marshal_rsa,
}
use go_encrypted_config_valu.Config.Value.Decrypt.{decrypt}
use go_encrypted_config_valu.Config.Value.RoundTrip.{IsReadable, new_value-to_serializable}
use go_encrypted_config_valu.Config.StringVars.{
  replace_from, attempt, open_value, replace_var, decrypt_replacer, decrypt_all_string_vars,
  decrypt_single_string_var,
}
use go_encrypted_config_valu.Config.StringVars.Scan.{replace_plain, replace_first, replace_same}

-- The text of a value: `enc:` and base64, so that no brace is in it.
abbrev content_of : Json → EncryptedValue → Bytes
content_of j (legacy bytes) = bytes
content_of j (aes_gcm ev) = marshal_aes j ev
content_of j (rsa_oaep ev) = marshal_rsa j ev

to_serializable_text :
    (j : Json) (v : EncryptedValue)
    → to_serializable j v ≡ b'e' ∷ (codes "nc:" ++ encode (content_of j v))
unfolding to_serializable
to_serializable_text j (legacy bytes) = refl
to_serializable_text j (aes_gcm ev) = refl
to_serializable_text j (rsa_oaep ev) = refl

text-Lacks-brace : (s : Bytes) → Lacks b'}' (b'e' ∷ (codes "nc:" ++ encode s))
text-Lacks-brace s =
    (omega arith, (omega arith, (omega arith, (omega arith, encode-Lacks-brace s))))

-- Behind text with no dollar sign, the variable around a value is replaced by what the function gives
-- for the text of the value.
pub replace_value :
    {S : Type 0} (f : Bytes → Exec S Bytes) (j : Json) (pre post : Bytes) (v : EncryptedValue)
    (t : S)
    → Lacks b'$' pre
    → replace_from f 0 (pre ++ (new_string_var (to_serializable j v) ++ post)) t
      ≡ (f (to_serializable j v) >>= λ replacement.
            replace_from f 0 post >>= λ rest. pure (pre ++ (replacement ++ rest)))
          t
replace_value f j pre post v t plain =
    let raw = to_serializable j v in
    let rest_of_raw = codes "nc:" ++ encode (content_of j v) in
    let is_raw : raw ≡ b'e' ∷ rest_of_raw = to_serializable_text j v in
    let found =
      replace_first f pre post b'e' rest_of_raw t plain (text-Lacks-brace (content_of j v)) in
    rw (append_assoc raw (b'}' ∷ []) post, is_raw) found

module _ {S : Type 0} (p : Packages S) (kwt : KeyWithType) where
  -- Text with no dollar sign is returned as it is, and no randomness is drawn.
  pub decrypt_all_plain :
      (s : Bytes) (t : S) → Lacks b'$' s → decrypt_all_string_vars p kwt s t ≡ (ok s, t)
  unfolding decrypt_all_string_vars
  decrypt_all_plain s t h = replace_plain (replace_var (decrypt_replacer p kwt)) s t h

  -- If reading or decrypting any content with this key ends in an error, every text is returned as
  -- it is.
  decrypt_all_unreadable :
      (s : Bytes) (t : S)
      → ((raw : Bytes) (t' : S) → (e : Error) × ((open_value p kwt raw t').0 ≡ err e))
      → (decrypt_all_string_vars p kwt s t).0 ≡ ok s
  unfolding decrypt_all_string_vars decrypt_replacer
  decrypt_all_unreadable s t fails = replace_same (replace_var (decrypt_replacer p kwt)) same s 0 t
    where
      same :
          (raw : Bytes) (t' : S)
          → (replace_var (decrypt_replacer p kwt) raw t').0 ≡ ok (new_string_var raw)
      same raw t' = rw (decrypt_replacer, attempt, (fails raw t').1)

  replace_decrypted :
      (v : EncryptedValue) (plaintext : Bytes) (t t' : S)
      → IsJson p.json
      → IsReadable p.json p.digests v
      → decrypt p v kwt t ≡ (ok plaintext, t')
      → replace_var (decrypt_replacer p kwt) (to_serializable p.json v) t ≡ (ok plaintext, t')
  unfolding decrypt_replacer
  replace_decrypted v plaintext t t' laws readable h =
      rw (new_value-to_serializable p.json p.digests laws v readable, h)

  -- If behind text with no dollar sign stands a variable around the serialized form of a readable
  -- value that the key decrypts, it is replaced as a whole by the plaintext, and the rest of the
  -- text is treated in the same way, where JSON meets its laws.
  pub decrypt_all_first :
      (pre post plaintext : Bytes) (v : EncryptedValue) (t t' : S)
      → IsJson p.json
      → Lacks b'$' pre
      → IsReadable p.json p.digests v
      → decrypt p v kwt t ≡ (ok plaintext, t')
      → decrypt_all_string_vars p kwt (pre ++ (new_string_var (to_serializable p.json v) ++ post)) t
        ≡ (decrypt_all_string_vars p kwt post >>= λ rest. pure (pre ++ (plaintext ++ rest))) t'
  unfolding decrypt_all_string_vars
  decrypt_all_first pre post plaintext v t t' laws plain readable h =
      replace_value (replace_var (decrypt_replacer p kwt)) p.json pre post v t plain
      ∙ rw (replace_decrypted v plaintext t t' laws readable h)

  read_then_decrypt :
      (v : EncryptedValue) (t : S)
      → let opened : Exec S (EncryptedValue × Bytes) =
          decrypt p v kwt >>= λ plaintext. pure (v, plaintext) in
        (opened >>= λ found. pure found.1) t ≡ decrypt p v kwt t
  read_then_decrypt v t = cases (decrypt p v kwt t).0 (decrypt p v kwt t).1
    where
      cases :
          (o : Outcome Bytes) (t' : S)
          → let opened : Outcome (EncryptedValue × Bytes) × S =
              continue (λ plaintext. pure (v, plaintext)) o t' in
            continue (λ found. pure found.1) opened.0 opened.1 ≡ (o, t')
      cases (ok b) t' = refl
      cases (err e) t' = refl
      cases panic t' = refl
      cases starved t' = refl

  -- The string variable around the serialized form of a value is decrypted as the value is, whatever
  -- the outcome, an error and a panic too, and with the same draws. This holds where JSON meets its
  -- laws, for AES-GCM and RSA-OAEP values whose parts are bytes and whose hash algorithms are known, and
  -- for legacy values of bytes that JSON does not read into an empty struct.
  pub decrypt_single_lem :
      (v : EncryptedValue) (t : S)
      → IsJson p.json
      → IsReadable p.json p.digests v
      → decrypt_single_string_var p kwt (new_string_var (to_serializable p.json v)) t
        ≡ decrypt p v kwt t
  unfolding decrypt_single_string_var open_value
  decrypt_single_lem v t laws readable =
      rw
        (
          contents-new_string_var (to_serializable p.json v),
          new_value-to_serializable p.json p.digests laws v readable,
        )
        (read_then_decrypt v t)
