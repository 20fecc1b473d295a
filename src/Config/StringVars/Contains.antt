-- ===== src/Config/StringVars/Contains.antt =====
-- A text for which ContainsEncryptedConfigValueStringVars says no.
use go_encrypted_config_valu.Base.{
  Option, ℕ, zero, suc, ◌+◌, [], ◌∷◌, ◌++◌, none, some, Bytes, length, drop, codes, has_prefix,
  has_prefix_sound, Bool, true, false, ◌||◌, ◌==◌, ◌≡◌, refl, ap, arith, ◌∙◌, append_assoc,
  Option-cases, Bool-cases, inl, inr,
}
use go_encrypted_config_valu.Base.Outcome.{ok}
use go_encrypted_config_valu.External.{Packages}
use go_encrypted_config_valu.Encryption.Exec.{Exec}
use go_encrypted_config_valu.Config.KeyPair.{KeyWithType}
use go_encrypted_config_valu.Config.StringVar.{new_string_var}
use go_encrypted_config_valu.Config.Value.{new_encrypted_value}
use go_encrypted_config_valu.Config.StringVars.{
  until_brace, non_empty, match_var, match_enc_var, is_some, contains_string_vars, replace_from,
  replace_var, open_value, attempt, decrypt_replacer, decrypt_all_string_vars,
}
use go_encrypted_config_valu.Config.StringVars.Scan.{
  until_brace_sound, non_empty_sound, starts_var, match_var_sound, drop_var, replace_nil,
  replace_suc, replace_other, replace_match,
}

-- A variable with `enc:` and nothing behind it.
abbrev pub has_empty_var : Bytes → Bool
has_empty_var [] = false
has_empty_var (c ∷ s) = has_prefix (c ∷ s) (codes "${enc:}") || has_empty_var s

peel :
    (s content : Bytes) (y : ℕ)
    → until_brace s ≡ some (y ∷ content)
    → (s' : Bytes) × (s ≡ y ∷ s') × (until_brace s' ≡ some content)
unfolding until_brace
peel [] content y h = absurd (cc)
peel (x ∷ s) content y h = elim (Bool-cases (x == b'}')) [
  | inl e ↦ absurd (let ended = rw e at h in cc)
  | inr e ↦ elim (Option-cases (until_brace s)) [
    | inl missing ↦ absurd (let ended = rw (e, missing) at h in cc)
    | inr (more, found) ↦
        let same = rw (e, found) at h in
        let same_x : x ≡ y = cc in
        let same_more : more ≡ content = cc in (s, rw same_x, found ∙ rw same_more)
  ]
]

peel_all :
    (p s content : Bytes)
    → until_brace s ≡ some (p ++ content)
    → (s' : Bytes) × (s ≡ p ++ s') × (until_brace s' ≡ some content)
peel_all [] s content h = (s, refl, h)
peel_all (y ∷ p) s content h =
    let (s', is_s, found) = peel s (p ++ content) y h in
    let (rest, is_s', found_rest) = peel_all p s' content found in
    (rest, rw (is_s, is_s'), found_rest)

-- What stands behind `${` where a variable has content that begins with `enc:`.
no_content :
    (s rest : Bytes)
    → until_brace s ≡ some rest
    → match_enc_var (codes "${enc:" ++ s) ≡ none
    → has_prefix (codes "${enc:" ++ s) (codes "${enc:}") ≡ false
    → ⊥
unfolding match_enc_var non_empty
no_content s [] found no_enc no_empty =
    let (rest, is_s) = until_brace_sound s [] found in let bad = rw is_s at no_empty in cc
no_content s (y ∷ rest) found no_enc no_empty = let bad = rw found at no_enc in cc

-- The content of a variable in such a text does not begin with `enc:`.
plain_content :
    (c : ℕ) (s content : Bytes)
    → match_enc_var (c ∷ s) ≡ none
    → has_prefix (c ∷ s) (codes "${enc:}") ≡ false
    → match_var (c ∷ s) ≡ some content
    → has_prefix content (codes "enc:") ≡ false
unfolding match_var
plain_content c [] content no_enc no_empty found = absurd (ground arith)
plain_content c (d ∷ s) content no_enc no_empty found =
    elim (Bool-cases (has_prefix content (codes "enc:"))) [
      | inr plain ↦ plain
      | inl encrypted ↦
          let (is_c, is_d, found_some) = starts_var c d s content found in
          let (rest, is_content) = has_prefix_sound content (codes "enc:") encrypted in
          let found_content : until_brace s ≡ some (codes "enc:" ++ rest) =
            non_empty_sound _ content found_some ∙ ap some is_content in
          let (s', is_s, found_rest) = peel_all (codes "enc:") s rest found_content in
          absurd (
            no_content s' rest found_rest (rw (is_c, is_d, is_s) at no_enc)
              (rw (is_c, is_d, is_s) at no_empty))
    ]

both_false : (a b : Bool) → (a || b) ≡ false → (a ≡ false) × (b ≡ false)
both_false true b h = absurd (cc)
both_false false b h = (refl, h)

missing : (o : Option Bytes) → is_some o ≡ false → o ≡ none
unfolding is_some
missing none h = refl
missing (some content) h = absurd (cc)

module _ {S : Type 0} (f : Bytes → Exec S Bytes) (t : S)
    (keeps : (content : Bytes)
      → has_prefix content (codes "enc:") ≡ false
      → f content t ≡ (ok (new_string_var content), t)) where
  kept_var :
      (c : ℕ) (s content : Bytes)
      → match_var (c ∷ s) ≡ some content
      → has_prefix content (codes "enc:") ≡ false
      → ((skip : ℕ) → replace_from f skip s t ≡ (ok (drop skip s), t))
      → replace_from f 0 (c ∷ s) t ≡ (ok (c ∷ s), t)
  kept_var c s content found plain behind =
      let (rest, is_text) = match_var_sound (c ∷ s) content found in
      let is_s : s ≡ b'{' ∷ (content ++ (b'}' ∷ rest)) = cc in
      let tail : drop (length content + 2) s ≡ rest = rw is_s (drop_var content rest) in
      rw
        (
          replace_match f c s content t found,
          keeps content plain,
          behind (length content + 2),
          tail,
          is_text,
        )
        (ap (λ x. (ok (b'$' ∷ b'{' ∷ x), t)) (append_assoc content (b'}' ∷ []) rest))

  replace_kept :
      (s : Bytes) (skip : ℕ)
      → contains_string_vars s ≡ false
      → has_empty_var s ≡ false
      → replace_from f skip s t ≡ (ok (drop skip s), t)
  unfolding contains_string_vars
  replace_kept [] zero none_found no_empty = replace_nil f zero t
  replace_kept [] (suc skip) none_found no_empty = replace_nil f (suc skip) t
  replace_kept (c ∷ s) skip none_found no_empty =
      let (no_enc, later) =
        both_false (is_some (match_enc_var (c ∷ s))) (contains_string_vars s) none_found in
      let (not_here, not_later) =
        both_false (has_prefix (c ∷ s) (codes "${enc:}")) (has_empty_var s) no_empty in
      at skip (missing (match_enc_var (c ∷ s)) no_enc) not_here
        λ skip'. replace_kept s skip' later not_later
    where
      at :
          (n : ℕ)
          → match_enc_var (c ∷ s) ≡ none
          → has_prefix (c ∷ s) (codes "${enc:}") ≡ false
          → ((skip' : ℕ) → replace_from f skip' s t ≡ (ok (drop skip' s), t))
          → replace_from f n (c ∷ s) t ≡ (ok (drop n (c ∷ s)), t)
      at zero no_enc not_here behind = elim (Option-cases (match_var (c ∷ s))) [
        | inl other ↦ replace_other f c s t other ∙ rw (behind 0)
        | inr (content, found) ↦
            kept_var c s content found (plain_content c s content no_enc not_here found) behind
      ]
      at (suc n) no_enc not_here behind = replace_suc f c s n t ∙ behind n

-- If ContainsEncryptedConfigValueStringVars is false for a text in which no `${enc:}` occurs, then
-- DecryptAllEncryptedValueStringVars returns the text as it is and draws no randomness, whatever the
-- key.
pub decrypt_all_unless_contains :
    {S : Type 0} (p : Packages S) (kwt : KeyWithType) (s : Bytes) (t : S)
    → contains_string_vars s ≡ false
    → has_empty_var s ≡ false
    → decrypt_all_string_vars p kwt s t ≡ (ok s, t)
unfolding decrypt_all_string_vars decrypt_replacer open_value attempt new_encrypted_value
decrypt_all_unless_contains p kwt s t none_found no_empty =
    replace_kept (replace_var (decrypt_replacer p kwt)) t (λ content plain. rw plain) s 0 none_found
      no_empty
