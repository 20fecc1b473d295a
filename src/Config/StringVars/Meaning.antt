-- ===== src/Config/StringVars/Meaning.antt =====
-- What DecryptAllEncryptedValueStringVars makes of a text, as a relation.
use go_encrypted_config_valu.Base.{
  ℕ, [], ◌∷◌, ◌++◌, Option, none, some, Bytes, Lacks, ◌==◌, ◌≡◌, ◌≢◌, ◌∙◌, refl, ap, ap₂, arith,
  append_assoc, Option-cases, Bool-cases, inl, inr, subst,
}
use go_encrypted_config_valu.Base.Outcome.{Error, ok, err}
use go_encrypted_config_valu.External.{Packages}
use go_encrypted_config_valu.Encryption.Exec.{◌>>=◌, pure}
use go_encrypted_config_valu.Config.KeyPair.{KeyWithType}
use go_encrypted_config_valu.Config.StringVar.{new_string_var}
use go_encrypted_config_valu.Config.Value.{EncryptedValue}
use go_encrypted_config_valu.Config.StringVars.{
  until_brace, non_empty, match_var, replace_var, open_value, attempt, decrypt_replacer,
  decrypt_all_string_vars,
}
use go_encrypted_config_valu.Config.StringVars.Scan.{
  non_empty_sound, until_brace_sound, starts_var, replace_nil, replace_other, replace_first,
}

-- The text does not begin with a variable: `${`, one or more bytes that are no closing brace, and `}`.
abbrev pub BeginsNoVariable : Bytes → Type 0
BeginsNoVariable s =
    (c : ℕ) (content rest : Bytes)
    → Lacks b'}' (c ∷ content)
    → s ≢ b'$' ∷ b'{' ∷ (c ∷ content ++ (b'}' ∷ rest))

pub until_brace-Lacks : (s content : Bytes) → until_brace s ≡ some content → Lacks b'}' content
unfolding until_brace
until_brace-Lacks [] content h = absurd (cc)
until_brace-Lacks (c ∷ s) content h = elim (Bool-cases (c == b'}')) [
  | inl e ↦ let empty : [] ≡ content = ground arith in subst (Lacks b'}') empty tt
  | inr e ↦ elim (Option-cases (until_brace s)) [
    | inl missing ↦ absurd (ground arith)
    | inr (more, found) ↦
        let whole : c ∷ more ≡ content = ground arith in
        subst (Lacks b'}') whole (ground arith, until_brace-Lacks s more found)
  ]
]

pub non_empty_ne : (o : Option Bytes) → non_empty o ≢ some []
unfolding non_empty
non_empty_ne none h = cc
non_empty_ne (some []) h = cc
non_empty_ne (some (c ∷ s)) h = cc

-- What is found at the start of a text is a variable.
pub match_var_form :
    (s content : Bytes)
    → match_var s ≡ some content
    → (c : ℕ) × (inner : Bytes) × (rest : Bytes) × (content ≡ c ∷ inner)
      × Lacks b'}' (c ∷ inner)
      × (s ≡ b'$' ∷ b'{' ∷ (c ∷ inner ++ (b'}' ∷ rest)))
unfolding match_var
match_var_form [] content h = absurd (cc)
match_var_form (c ∷ []) content h = absurd (ground arith)
match_var_form (c ∷ d ∷ s) content h =
    let (is_c, is_d, inside) = starts_var c d s content h in go content is_c is_d inside
  where
    go :
        (content : Bytes)
        → c ≡ b'$'
        → d ≡ b'{'
        → non_empty (until_brace s) ≡ some content
        → (b : ℕ) × (inner : Bytes) × (rest : Bytes) × (content ≡ b ∷ inner)
          × Lacks b'}' (b ∷ inner)
          × (c ∷ d ∷ s ≡ b'$' ∷ b'{' ∷ (b ∷ inner ++ (b'}' ∷ rest)))
    go [] is_c is_d inside = absurd (non_empty_ne (until_brace s) inside)
    go (b ∷ inner) is_c is_d inside =
        let found = non_empty_sound (until_brace s) (b ∷ inner) inside in
        let (rest, is_s) = until_brace_sound s (b ∷ inner) found in
        (
          b,
          inner,
          rest,
          refl,
          until_brace-Lacks s (b ∷ inner) found,
          ap₂ (λ x y. x ∷ y ∷ s) is_c is_d ∙ ap (λ x. b'$' ∷ b'{' ∷ x) is_s,
        )

no_match : (s : Bytes) → BeginsNoVariable s → match_var s ≡ none
no_match s h = elim (Option-cases (match_var s)) [
  | inl missing ↦ missing
  | inr (content, found) ↦
      let (c, inner, rest, same, lacks, is_s) = match_var_form s content found in
      absurd (h c inner rest lacks is_s)
]

module _ {S : Type 0} (p : Packages S) (kwt : KeyWithType) where
  -- The second text is the first one with each variable whose content is a value that the key decrypts
  -- replaced by the plaintext, and all else as it is. The states are those of the random generator.
  pub data Shows : Bytes → S → Bytes → S → Type 0 where
    at_end : (t : S) → Shows [] t [] t
    copied :
        (c : ℕ) (s out : Bytes) (t t' : S)
        → BeginsNoVariable (c ∷ s)
        → Shows s t out t'
        → Shows (c ∷ s) t (c ∷ out) t'
    opened :
        (c : ℕ) (content post out : Bytes) (v : EncryptedValue) (plaintext : Bytes) (t t' t'' : S)
        → Lacks b'}' (c ∷ content)
        → open_value p kwt (c ∷ content) t ≡ (ok (v, plaintext), t')
        → Shows post t' out t''
        → Shows (new_string_var (c ∷ content) ++ post) t (plaintext ++ out) t''
    kept :
        (c : ℕ) (content post out : Bytes) (e : Error) (t t' t'' : S)
        → Lacks b'}' (c ∷ content)
        → open_value p kwt (c ∷ content) t ≡ (err e, t')
        → Shows post t' out t''
        → Shows (new_string_var (c ∷ content) ++ post) t (new_string_var (c ∷ content) ++ out) t''

  pub replace_variable :
      (c : ℕ) (content post : Bytes) (t : S)
      → Lacks b'}' (c ∷ content)
      → decrypt_all_string_vars p kwt (new_string_var (c ∷ content) ++ post) t
        ≡ (replace_var (decrypt_replacer p kwt) (c ∷ content) >>= λ replacement.
              decrypt_all_string_vars p kwt post >>= λ rest. pure (replacement ++ rest))
            t
  unfolding decrypt_all_string_vars
  replace_variable c content post t h =
      let found = replace_first (replace_var (decrypt_replacer p kwt)) [] post c content t tt h in
      rw (append_assoc content (b'}' ∷ []) post) found

  pub replace_opened :
      (raw plaintext : Bytes) (v : EncryptedValue) (t t' : S)
      → open_value p kwt raw t ≡ (ok (v, plaintext), t')
      → replace_var (decrypt_replacer p kwt) raw t ≡ (ok plaintext, t')
  unfolding decrypt_replacer
  replace_opened raw plaintext v t t' run = rw (decrypt_replacer, attempt, run) refl

  pub replace_kept :
      (raw : Bytes) (e : Error) (t t' : S)
      → open_value p kwt raw t ≡ (err e, t')
      → replace_var (decrypt_replacer p kwt) raw t ≡ (ok (new_string_var raw), t')
  unfolding decrypt_replacer
  replace_kept raw e t t' run = rw (decrypt_replacer, attempt, run) refl

  pub decrypt_all-Shows :
      (s out : Bytes) (t t' : S)
      → Shows s t out t'
      → decrypt_all_string_vars p kwt s t ≡ (ok out, t')
  unfolding decrypt_all_string_vars
  decrypt_all-Shows s out t t' (at_end t0) = replace_nil (replace_var (decrypt_replacer p kwt)) 0 t
  decrypt_all-Shows s out t t' (copied c s0 out0 t0 t1 none_here rest) =
      replace_other (replace_var (decrypt_replacer p kwt)) c s0 t0 (no_match (c ∷ s0) none_here)
      ∙ rw (decrypt_all-Shows s0 out0 t0 t1 rest) refl
  decrypt_all-Shows s out t t' (opened c content post out0 v plaintext t0 t1 t2 lacks run rest) =
      replace_variable c content post t0 lacks
      ∙ rw
          (
            replace_opened (c ∷ content) plaintext v t0 t1 run,
            decrypt_all-Shows post out0 t1 t2 rest,
          )
          refl
  decrypt_all-Shows s out t t' (kept c content post out0 e t0 t1 t2 lacks run rest) =
      replace_variable c content post t0 lacks
      ∙ rw (replace_kept (c ∷ content) e t0 t1 run, decrypt_all-Shows post out0 t1 t2 rest) refl
