-- ===== src/Config/StringVars/Document.antt =====
-- Texts with variables around values that the key decrypts.
use go_encrypted_config_valu.Base.{List, [], ◌∷◌, ◌++◌, Bytes, All, Lacks, ◌≡◌, ◌∙◌}
use go_encrypted_config_valu.Base.Outcome.{ok}
use go_encrypted_config_valu.External.{Packages, Json, IsJson}
use go_encrypted_config_valu.Config.KeyPair.{KeyWithType}
use go_encrypted_config_valu.Config.StringVar.{new_string_var}
use go_encrypted_config_valu.Config.Value.{EncryptedValue, to_serializable}
use go_encrypted_config_valu.Config.Value.Decrypt.{decrypt}
use go_encrypted_config_valu.Config.Value.RoundTrip.{IsReadable}
use go_encrypted_config_valu.Config.StringVars.{decrypt_all_string_vars}
use go_encrypted_config_valu.Config.StringVars.DecryptAll.{decrypt_all_plain, decrypt_all_first}

-- A variable with the text before it, the value in it, and the plaintext of the value.
pub record Variable : Type 0 where
  pub before : Bytes
  pub value : EncryptedValue
  pub plaintext : Bytes

abbrev pub render : Json → List Variable → Bytes → Bytes
render j [] tail = tail
render j (x ∷ xs) tail =
    x.before ++ (new_string_var (to_serializable j x.value) ++ render j xs tail)

-- The text with the plaintexts in place of the variables.
abbrev pub shown : List Variable → Bytes → Bytes
shown [] tail = tail
shown (x ∷ xs) tail = x.before ++ (x.plaintext ++ shown xs tail)

module _ {S : Type 0} (p : Packages S) (kwt : KeyWithType) (t : S) where
  -- The value can be read back, and the key decrypts it to the plaintext and draws no randomness.
  abbrev pub Opens : EncryptedValue → Bytes → Type 0
  Opens v plaintext = IsReadable p.json p.digests v × (decrypt p v kwt t ≡ (ok plaintext, t))

  abbrev pub IsOpen : Variable → Type 0
  IsOpen x = Lacks b'$' x.before × Opens x.value x.plaintext

  -- A text of readable variables and of other text with no dollar sign is decrypted to the text with
  -- the plaintexts in their place.
  pub render-shown :
      (xs : List Variable) (tail : Bytes)
      → IsJson p.json
      → All IsOpen xs
      → Lacks b'$' tail
      → decrypt_all_string_vars p kwt (render p.json xs tail) t ≡ (ok (shown xs tail), t)
  render-shown [] tail laws opens plain = decrypt_all_plain p kwt tail t plain
  render-shown (x ∷ xs) tail laws ((before, (readable, h)), opens) plain =
      decrypt_all_first p kwt x.before (render p.json xs tail) x.plaintext x.value t t laws before
        readable h
      ∙ rw (render-shown xs tail laws opens plain)
