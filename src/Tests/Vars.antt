-- ===== src/Tests/Vars.antt =====
-- The theorems on string variables at concrete inputs.
use go_encrypted_config_valu.Base.{true, ◌≡◌, ◌↔◌, [], Bytes, replicate, codes, arith, refl, slice}
use go_encrypted_config_valu.Base.Outcome.{ok}
use go_encrypted_config_valu.Encryption.AesGcm as gcm
use go_encrypted_config_valu.Encryption.AesGcm.{new_block_cipher, aead_open}
use go_encrypted_config_valu.Encryption.Keys.{aes_key}
use go_encrypted_config_valu.Config.KeyPair.{KeyWithType, aes_key_from_key}
use go_encrypted_config_valu.Config.StringVar.{new_string_var, contents}
use go_encrypted_config_valu.Config.StringVar.Form.{contents_lem}
use go_encrypted_config_valu.Config.StringVars.{decrypt_all_string_vars, decrypt_single_string_var}
use go_encrypted_config_valu.Config.StringVars.Meaning.{Shows}
use go_encrypted_config_valu.Config.StringVars.Occurrence.{HasEncVar, contains_string_vars_iff}
use go_encrypted_config_valu.Config.StringVars.Converse.{decrypt_all_iff}
use go_encrypted_config_valu.Config.StringVars.DecryptAll.{decrypt_single_lem}
use go_encrypted_config_valu.Base.{List, ◌∷◌, All}
use go_encrypted_config_valu.Config.StringVars.{Normalized, normalize_string_vars}
use go_encrypted_config_valu.Base.{false}
use go_encrypted_config_valu.Config.StringVars.{contains_string_vars, match_enc_var, until_brace}
use go_encrypted_config_valu.Config.StringVars.Contains.{decrypt_all_unless_contains}
use go_encrypted_config_valu.Config.StringVars.Document.{Variable, render}
use go_encrypted_config_valu.Config.StringVars.Normalize.{normalize_string_vars_lem}
use go_encrypted_config_valu.Config.StringVars.Normalize.Table.{with_values, HasValue, Agrees}
use go_encrypted_config_valu.Config.Value.{EncryptedValue, aes_gcm, to_serializable}
use go_encrypted_config_valu.Config.Value.Decrypt.{decrypt, decrypt_aes}
use go_encrypted_config_valu.Tests.Packages.{packages, json, json-IsJson}

abbrev pub text : Bytes
text = codes "secret"

abbrev pub kwt : KeyWithType
kwt = aes_key_from_key (aes_key (replicate 16 9))

abbrev pub value : EncryptedValue
value = aes_gcm (record { encrypted = text; nonce = replicate 12 4; tag = replicate 16 0 })

pub open_it : decrypt packages value kwt 7 ≡ (ok text, 7)
unfolding decrypt decrypt_aes gcm.decrypt new_block_cipher aead_open slice
open_it = refl

contents_lem_example : contents (codes "$abc}") ≡ ok (codes "bc")
contents_lem_example = contents_lem (codes "$abc}")

decrypt_all_iff_example :
    (decrypt_all_string_vars packages kwt (codes "$ ${a}") 7 ≡ (ok (codes "$ ${a}"), 7))
    ↔ Shows packages kwt (codes "$ ${a}") 7 (codes "$ ${a}") 7
decrypt_all_iff_example = decrypt_all_iff packages kwt (codes "$ ${a}") (codes "$ ${a}") 7 7

decrypt_single_lem_example :
    decrypt_single_string_var packages kwt (new_string_var (to_serializable json value)) 7
    ≡ decrypt packages value kwt 7
decrypt_single_lem_example = decrypt_single_lem packages kwt value 7 json-IsJson (omega arith)

contains_string_vars_iff_example :
    (contains_string_vars (codes "a ${enc:AAAA}") ≡ true) ↔ HasEncVar (codes "a ${enc:AAAA}")
contains_string_vars_iff_example = contains_string_vars_iff (codes "a ${enc:AAAA}")

-- Another value of the same plaintext, and a text with both.
abbrev again : EncryptedValue
again = aes_gcm (record { encrypted = text; nonce = replicate 12 5; tag = replicate 16 0 })

open_again : decrypt packages again kwt 7 ≡ (ok text, 7)
unfolding decrypt decrypt_aes gcm.decrypt new_block_cipher aead_open slice
open_again = refl

abbrev variables : List Variable
variables =
    record { before = codes "a: "; value = value; plaintext = text }
    ∷ record { before = codes "\nb: "; value = again; plaintext = text }
    ∷ []

-- A map that has a value for the plaintext already.
abbrev known : Normalized
known = (text, again) ∷ []

normalize_string_vars_lem_example :
    (table : Normalized) × (normalize_string_vars packages kwt
        (render json variables (codes "\n"))
        (7, known)
      ≡ (ok (render json (with_values table variables) (codes "\n")), (7, table)))
    × All (HasValue table) variables
    × All (Agrees known table) known
    × (decrypt_all_string_vars packages kwt
          (render json (with_values table variables) (codes "\n"))
          7
        ≡ decrypt_all_string_vars packages kwt (render json variables (codes "\n")) 7)
normalize_string_vars_lem_example =
    normalize_string_vars_lem packages kwt 7 json-IsJson variables (codes "\n") known
      ((omega arith, (omega arith, open_it)), ((omega arith, (omega arith, open_again)), tt))
      (omega arith) ((omega arith, open_again), tt)

-- A text with a variable that holds no value, and with one that has no end.
abbrev without_values : Bytes
without_values = codes "a: ${b}, c: ${enc:"

no_values : contains_string_vars without_values ≡ false
unfolding contains_string_vars match_enc_var until_brace
no_values = refl

decrypt_all_unless_contains_example :
    decrypt_all_string_vars packages kwt without_values 7 ≡ (ok without_values, 7)
decrypt_all_unless_contains_example =
    decrypt_all_unless_contains packages kwt without_values 7 no_values refl
