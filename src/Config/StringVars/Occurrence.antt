-- ===== src/Config/StringVars/Occurrence.antt =====
-- ContainsEncryptedConfigValueStringVars finds exactly the variables with encrypted values.
use go_encrypted_config_valu.Base.{
  ℕ, true, [], ◌∷◌, ◌++◌, some, Bytes, Lacks, codes, has_prefix, has_prefix_sound, drop, ◌≡◌, ◌↔◌,
  ◌∙◌, refl, sym, ap, arith, Option-cases, Bool-cases, inl, inr,
}
use go_encrypted_config_valu.Config.StringVars.{
  until_brace, non_empty, match_enc_var, is_some, contains_string_vars,
}
use go_encrypted_config_valu.Config.StringVars.Scan.{
  until_brace_lem, until_brace_sound, non_empty_sound,
}
use go_encrypted_config_valu.Config.StringVars.Meaning.{until_brace-Lacks, non_empty_ne}

-- Somewhere in the text stands `${enc:`, one or more bytes that are no closing brace, and `}`.
pub record HasEncVar (s : Bytes) : Type 0 where
  pub before : Bytes
  pub first : ℕ
  pub content : Bytes
  pub behind : Bytes
  pub no_brace : Lacks b'}' (first ∷ content)
  pub is_text : s ≡ before ++ (codes "${enc:" ++ (first ∷ content ++ (b'}' ∷ behind)))

-- A variable at the start is matched.
match_enc_var_lem :
    (c : ℕ) (content behind : Bytes)
    → Lacks b'}' (c ∷ content)
    → match_enc_var (codes "${enc:" ++ (c ∷ content ++ (b'}' ∷ behind))) ≡ some (c ∷ content)
unfolding match_enc_var non_empty
match_enc_var_lem c content behind h = rw (until_brace_lem (c ∷ content) behind h) refl

contains_here :
    (c : ℕ) (s content : Bytes)
    → match_enc_var (c ∷ s) ≡ some content
    → contains_string_vars (c ∷ s) ≡ true
unfolding contains_string_vars is_some
contains_here c s content found = rw found refl

contains_later :
    (c : ℕ) (s : Bytes) → contains_string_vars s ≡ true → contains_string_vars (c ∷ s) ≡ true
unfolding contains_string_vars
contains_later c s h = ground (arith, h)

finds :
    (before behind content : Bytes) (c : ℕ)
    → Lacks b'}' (c ∷ content)
    → contains_string_vars (before ++ (codes "${enc:" ++ (c ∷ content ++ (b'}' ∷ behind)))) ≡ true
finds [] behind content c h =
    contains_here b'$' _ (c ∷ content) (match_enc_var_lem c content behind h)
finds (b ∷ before) behind content c h = contains_later b _ (finds before behind content c h)

-- What is matched at the start is a variable.
match_enc_var_sound : (s content : Bytes) → match_enc_var s ≡ some content → HasEncVar s
unfolding match_enc_var
match_enc_var_sound s content h = elim (Bool-cases (has_prefix s (codes "${enc:"))) [
  | inr other ↦ absurd (let missing = rw other at h in cc)
  | inl starts ↦
      let (rest, is_s) = has_prefix_sound s (codes "${enc:") starts in
      let inside : non_empty (until_brace (drop 6 s)) ≡ some content = rw starts at h in
      go rest content is_s (ap (λ x. non_empty (until_brace (drop 6 x))) (sym is_s) ∙ inside)
]
  where
    go :
        (rest content : Bytes)
        → s ≡ codes "${enc:" ++ rest
        → non_empty (until_brace rest) ≡ some content
        → HasEncVar s
    go rest [] is_s inside = absurd (non_empty_ne (until_brace rest) inside)
    go rest (c ∷ content) is_s inside =
        let found = non_empty_sound (until_brace rest) (c ∷ content) inside in
        let (behind, is_rest) = until_brace_sound rest (c ∷ content) found in
        record {
          before = [];
          first = c;
          content = content;
          behind = behind;
          no_brace = until_brace-Lacks rest (c ∷ content) found;
          is_text = is_s ∙ ap (λ x. codes "${enc:" ++ x) is_rest;
        }

sound : (s : Bytes) → contains_string_vars s ≡ true → HasEncVar s
unfolding contains_string_vars is_some
sound [] h = absurd (cc)
sound (c ∷ s) h = elim (Option-cases (match_enc_var (c ∷ s))) [
  | inr (content, found) ↦ match_enc_var_sound (c ∷ s) content found
  | inl missing ↦
      let later = sound s (rw missing at h) in
      record {
        before = c ∷ later.before;
        first = later.first;
        content = later.content;
        behind = later.behind;
        no_brace = later.no_brace;
        is_text = ap (λ x. c ∷ x) later.is_text;
      }
]

-- ContainsEncryptedConfigValueStringVars is true exactly for a text in which a variable with an encrypted
-- value stands somewhere.
pub contains_string_vars_iff : (s : Bytes) → (contains_string_vars s ≡ true) ↔ HasEncVar s
contains_string_vars_iff s = (
  sound s,
  λ v. ap contains_string_vars v.is_text ∙ finds v.before v.behind v.content v.first v.no_brace,
)
