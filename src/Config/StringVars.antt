-- ===== src/Config/StringVars.antt =====
-- The search and the replacement of string variables in encryptedconfigvalue/stringvars.go.
pub mod Scan
pub mod DecryptAll
pub mod Contains
pub mod Document
pub mod Ended
pub mod Normalize
pub mod Meaning
pub mod Converse
pub mod Occurrence
use mathlib.Core.Option
use go_encrypted_config_valu.Base.{
  ℕ, zero, suc, ◌+◌, Bool, true, false, not, ◌&&◌, ◌||◌, List, [], ◌∷◌, ◌++◌, Option, none, some,
  Bytes, codes, length, drop, str_eq, has_prefix, has_suffix, from_end, slice, ◌==◌, if◌then◌else◌,
}
use go_encrypted_config_valu.Base.Outcome.{Outcome, ok, err, panic, starved, guard, string_var_form}
use go_encrypted_config_valu.External.{Packages}
use go_encrypted_config_valu.Encryption.Exec.{Exec, ◌>>=◌, ◌>>◌, pure, lift}
use go_encrypted_config_valu.Config.KeyPair.{KeyWithType}
use go_encrypted_config_valu.Config.StringVar.{new_string_var, contents}
use go_encrypted_config_valu.Config.Value.{EncryptedValue, to_serializable, new_encrypted_value}
use go_encrypted_config_valu.Config.Value.Decrypt.{decrypt}

-- What `[^}]*}` matches at the start of the text, without the brace.
unfoldable pub until_brace : Bytes → Option Bytes
until_brace [] = none
until_brace (c ∷ s) =
    if c == b'}' then some [] else Option.map (λ content. c ∷ content) (until_brace s)

pub non_empty : Option Bytes → Option Bytes
non_empty none = none
non_empty (some []) = none
non_empty (some (c ∷ content)) = some (c ∷ content)

-- The content of the match of `\${([^}]+)}` at the start of the text.
unfoldable pub match_var : Bytes → Option Bytes
unfolding non_empty
match_var s = if has_prefix s (codes "${") then non_empty (until_brace (drop 2 s)) else none

-- The content behind `enc:` of the match of `\${enc:[^}]+}` at the start of the text.
unfoldable pub match_enc_var : Bytes → Option Bytes
unfolding non_empty
match_enc_var s = if has_prefix s (codes "${enc:") then non_empty (until_brace (drop 6 s)) else none

is_some : Option Bytes → Bool
is_some none = false
is_some (some content) = true

-- ContainsEncryptedConfigValueStringVars
unfoldable pub contains_string_vars : Bytes → Bool
unfolding is_some
contains_string_vars [] = false
contains_string_vars (c ∷ s) = is_some (match_enc_var (c ∷ s)) || contains_string_vars s

-- (*Regexp).ReplaceAllFunc of the variables, leftmost first and without overlap. `skip` bytes belong
-- to the match before. The function is given the content of a match.
unfoldable pub replace_from : {S : Type 0} → (Bytes → Exec S Bytes) → ℕ → Bytes → Exec S Bytes
replace_from f skip [] = pure []
replace_from f (suc skip) (c ∷ s) = replace_from f skip s
replace_from f zero (c ∷ s) = elim (match_var (c ∷ s)) [
  | none ↦ replace_from f zero s >>= λ rest. pure (c ∷ rest)
  | some content ↦ f content >>= λ replacement.
      replace_from f (length content + 2) s >>= λ rest. pure (replacement ++ rest)
]

-- replaceAllStringVars: a replacement is for the content of the variable or for the whole of it.
abbrev pub replace_var : {S : Type 0} → (Bytes → Exec S (Bytes × Bool)) → Bytes → Exec S Bytes
replace_var replace_content content = do
  (replacement, content_only) ← replace_content content
  pure (if content_only then new_string_var replacement else replacement)

abbrev pub replace_all_string_vars :
    {S : Type 0} → (Bytes → Exec S (Bytes × Bool)) → Bytes → Exec S Bytes
replace_all_string_vars replace_content input = replace_from (replace_var replace_content) 0 input

-- `x, err := m; if err != nil { return raw, true }`: an error is no longer one, a panic still is.
no_error {ℓ} : {A : Type ℓ} → Outcome A → Outcome (Option A)
no_error (ok a) = ok (some a)
no_error (err e) = ok none
no_error panic = panic
no_error starved = starved

pub attempt : {S A : Type 0} → Exec S A → Exec S (Option A)
unfolding no_error
attempt m s = (no_error (m s).0, (m s).1)

module _ {S : Type 0} (p : Packages S) (kwt : KeyWithType) where
  -- The value in a variable, and its plaintext.
  unfoldable pub open_value : Bytes → Exec S (EncryptedValue × Bytes)
  open_value raw = do
    encrypted_val ← lift (new_encrypted_value p.json p.digests raw)
    decrypted ← decrypt p encrypted_val kwt
    pure (encrypted_val, decrypted)

  -- The replacement of DecryptAllEncryptedValueStringVars: the plaintext for the whole variable, and
  -- the content as it is for the content where it cannot be decrypted.
  pub decrypted_or_raw : Bytes → Option (EncryptedValue × Bytes) → Bytes × Bool
  decrypted_or_raw raw none = (raw, true)
  decrypted_or_raw raw (some (v, decrypted)) = (decrypted, false)

  unfoldable pub decrypt_replacer : Bytes → Exec S (Bytes × Bool)
  unfolding decrypted_or_raw open_value attempt
  decrypt_replacer raw = do found ← attempt (open_value raw); pure (decrypted_or_raw raw found)

  -- DecryptAllEncryptedValueStringVars
  unfoldable pub decrypt_all_string_vars : Bytes → Exec S Bytes
  decrypt_all_string_vars input = replace_all_string_vars decrypt_replacer input

  -- DecryptSingleEncryptedValueStringVar
  unfoldable pub decrypt_single_string_var : Bytes → Exec S Bytes
  unfolding open_value
  decrypt_single_string_var input = do
    raw ← lift (contents input)
    (v, decrypted) ← open_value raw
    pure decrypted

-- The map of NormalizeEncryptedValueStringVars, from plaintexts to values.
abbrev pub Normalized : Type 0
Normalized = List (Bytes × EncryptedValue)

pub lookup : Bytes → Normalized → Option EncryptedValue
lookup plaintext [] = none
lookup plaintext ((k, v) ∷ normalized) =
    if str_eq k plaintext then some v else lookup plaintext normalized

-- A call that leaves the map alone.
abbrev pub beside : {S T A : Type 0} → Exec S A → Exec (S × T) A
beside m (s, t) = ((m s).0, ((m s).1, t))

module _ {S : Type 0} (p : Packages S) (kwt : KeyWithType) where
  -- A plaintext that is in the map is replaced by its value; another one is entered in the map.
  choose :
      Bytes → EncryptedValue × Bytes → Option EncryptedValue → Exec (S × Normalized) (Bytes × Bool)
  choose raw (v, plaintext) (some sub) state = (ok (to_serializable p.json sub, true), state)
  choose raw (v, plaintext) none (s, normalized) =
      (ok (raw, true), (s, (plaintext, v) ∷ normalized))

  normalize_found : Bytes → Option (EncryptedValue × Bytes) → Exec (S × Normalized) (Bytes × Bool)
  unfolding choose lookup
  normalize_found raw none state = (ok (raw, true), state)
  normalize_found raw (some found) state = choose raw found (lookup found.1 state.1) state

  unfoldable pub normalize_replacer : Bytes → Exec (S × Normalized) (Bytes × Bool)
  unfolding open_value attempt normalize_found
  normalize_replacer raw = do
    found ← beside (attempt (open_value p kwt raw))
    normalize_found raw found

  -- NormalizeEncryptedValueStringVars; the map is part of the state.
  unfoldable pub normalize_string_vars : Bytes → Exec (S × Normalized) Bytes
  normalize_string_vars input = replace_all_string_vars normalize_replacer input
