-- ===== src/Config/StringVars/Scan.antt =====
-- How the replacement of variables walks a text.
use go_encrypted_config_valu.Base.{
  ℕ, zero, suc, ◌+◌, [], ◌∷◌, ◌++◌, Option, none, some, Bytes, Lacks, length, drop, ◌==◌, ◌≡◌, ◌≢◌,
  refl, ap, fun_ext, length-append, drop_left_of_eq, arith, ◌∙◌, append_assoc, Option-cases,
  Bool-cases, inl, inr,
}
use go_encrypted_config_valu.Base.Outcome.{ok}
use go_encrypted_config_valu.Encryption.Exec.{Exec, ◌>>=◌, pure, >>=_assoc}
use go_encrypted_config_valu.Config.StringVar.{new_string_var}
use go_encrypted_config_valu.Config.StringVars.{until_brace, non_empty, match_var, replace_from}

pub until_brace_lem :
    (content post : Bytes)
    → Lacks b'}' content
    → until_brace (content ++ (b'}' ∷ post)) ≡ some content
unfolding until_brace
until_brace_lem [] post h = refl
until_brace_lem (c ∷ content) post (p, h) = ground (arith, until_brace_lem content post h)

pub until_brace_sound :
    (s content : Bytes)
    → until_brace s ≡ some content
    → (rest : Bytes) × (s ≡ content ++ (b'}' ∷ rest))
unfolding until_brace
until_brace_sound [] content h = absurd (cc)
until_brace_sound (c ∷ s) content h = elim (Bool-cases (c == b'}')) [
  | inl e ↦ (s, ground arith)
  | inr e ↦ elim (Option-cases (until_brace s)) [
    | inl missing ↦ absurd (ground arith)
    | inr (more, found) ↦ let (rest, is_s) = until_brace_sound s more found in (rest, ground arith)
  ]
]

pub non_empty_sound :
    (o : Option Bytes) (content : Bytes) → non_empty o ≡ some content → o ≡ some content
unfolding non_empty
non_empty_sound none content h = absurd (cc)
non_empty_sound (some []) content h = absurd (cc)
non_empty_sound (some (c ∷ s)) content h = h

pub starts_var :
    (c d : ℕ) (s content : Bytes)
    → match_var (c ∷ d ∷ s) ≡ some content
    → (c ≡ b'$') × (d ≡ b'{') × (non_empty (until_brace s) ≡ some content)
unfolding match_var
starts_var c d s content h = ground arith

pub match_var_sound :
    (s content : Bytes)
    → match_var s ≡ some content
    → (rest : Bytes) × (s ≡ b'$' ∷ b'{' ∷ (content ++ (b'}' ∷ rest)))
unfolding match_var
match_var_sound [] content h = absurd (cc)
match_var_sound (c ∷ []) content h = absurd (ground arith)
match_var_sound (c ∷ d ∷ s) content h =
    let (is_c, is_d, found) = starts_var c d s content h in
    let (rest, is_s) = until_brace_sound s content (non_empty_sound _ content found) in (rest, cc)

-- A variable at the start of a text is found.
pub match_var_lem :
    (c : ℕ) (content post : Bytes)
    → Lacks b'}' (c ∷ content)
    → match_var (b'$' ∷ b'{' ∷ (c ∷ content ++ (b'}' ∷ post))) ≡ some (c ∷ content)
unfolding match_var
match_var_lem c content post h = rw (until_brace_lem (c ∷ content) post h)

match_var_other : (c : ℕ) (s : Bytes) → c ≢ b'$' → match_var (c ∷ s) ≡ none
unfolding match_var
match_var_other c s h = ground arith

pub drop_var :
    (content rest : Bytes) → drop (length content + 2) (b'{' ∷ (content ++ (b'}' ∷ rest))) ≡ rest
drop_var content rest = rw (← append_assoc content (b'}' ∷ []) rest) (
    drop_left_of_eq (length content + 2) (b'{' ∷ (content ++ (b'}' ∷ []))) rest
      (omega (arith, length-append content (b'}' ∷ []))))

module _ {S : Type 0} (f : Bytes → Exec S Bytes) where
  replace_skip :
      (xs s : Bytes) (n : ℕ) (t : S)
      → length xs ≡ n
      → replace_from f n (xs ++ s) t ≡ replace_from f 0 s t
  unfolding replace_from
  replace_skip [] s zero t h = refl
  replace_skip [] s (suc n) t h = absurd (omega arith)
  replace_skip (x ∷ xs) s zero t h = absurd (omega arith)
  replace_skip (x ∷ xs) s (suc n) t h = replace_skip xs s n t (omega arith)

  pub replace_nil : (skip : ℕ) (t : S) → replace_from f skip [] t ≡ (ok [], t)
  unfolding replace_from
  replace_nil zero t = refl
  replace_nil (suc skip) t = refl

  pub replace_suc :
      (c : ℕ) (s : Bytes) (skip : ℕ) (t : S)
      → replace_from f (suc skip) (c ∷ s) t ≡ replace_from f skip s t
  unfolding replace_from
  replace_suc c s skip t = refl

  -- The rest of a variable is skipped behind its first byte.
  skip_var :
      (content post : Bytes) (t : S)
      → replace_from f (length content + 2) (b'{' ∷ (content ++ (b'}' ∷ post))) t
        ≡ replace_from f 0 post t
  skip_var content post t = rw (← append_assoc content (b'}' ∷ []) post) (
      replace_skip (b'{' ∷ (content ++ (b'}' ∷ []))) post (length content + 2) t
        (omega (arith, length-append content (b'}' ∷ []))))

  pub replace_other :
      (c : ℕ) (s : Bytes) (t : S)
      → match_var (c ∷ s) ≡ none
      → replace_from f 0 (c ∷ s) t ≡ (replace_from f 0 s >>= λ rest. pure (c ∷ rest)) t
  unfolding replace_from
  replace_other c s t h = rw (h, replace_from)

  pub replace_match :
      (c : ℕ) (s content : Bytes) (t : S)
      → match_var (c ∷ s) ≡ some content
      → replace_from f 0 (c ∷ s) t
        ≡ (f content >>= λ replacement.
              replace_from f (length content + 2) s >>= λ rest. pure (replacement ++ rest))
            t
  unfolding replace_from
  replace_match c s content t h = rw (h, replace_from)

  -- Text with no dollar sign is left as it is.
  pub replace_plain : (s : Bytes) (t : S) → Lacks b'$' s → replace_from f 0 s t ≡ (ok s, t)
  replace_plain [] t h = unfold replace_from in refl
  replace_plain (c ∷ s) t (p, h) =
      replace_other c s t (match_var_other c s p) ∙ rw (replace_plain s t h)

  -- Behind text with no dollar sign, the variable that follows is replaced, and the search goes on
  -- behind it.
  pub replace_first :
      (pre post : Bytes) (c : ℕ) (content : Bytes) (t : S)
      → Lacks b'$' pre
      → Lacks b'}' (c ∷ content)
      → replace_from f 0 (pre ++ (b'$' ∷ b'{' ∷ (c ∷ content ++ (b'}' ∷ post)))) t
        ≡ (f (c ∷ content) >>= λ replacement.
              replace_from f 0 post >>= λ rest. pure (pre ++ (replacement ++ rest)))
            t
  replace_first [] post c content t hp hc =
      replace_match b'$' _ (c ∷ content) t (match_var_lem c content post hc)
      ∙ rw (fun_ext (skip_var (c ∷ content) post))
  replace_first (d ∷ pre) post c content t (p, hp) hc =
      replace_other d _ t (match_var_other d _ p)
      ∙ rw (replace_first pre post c content t hp hc) (
          >>=_assoc (f (c ∷ content)) _ _ t
          ∙ ap (λ (k : Bytes → Exec S Bytes). (f (c ∷ content) >>= k) t)
              (fun_ext λ replacement. fun_ext λ t'. >>=_assoc (replace_from f 0 post) _ _ t'))

  module _ (same : (content : Bytes) (t : S) → (f content t).0 ≡ ok (new_string_var content)) where
    same_var :
        (c : ℕ) (s content : Bytes) (t : S)
        → match_var (c ∷ s) ≡ some content
        → ((skip : ℕ) (t' : S) → (replace_from f skip s t').0 ≡ ok (drop skip s))
        → (replace_from f 0 (c ∷ s) t).0 ≡ ok (c ∷ s)
    same_var c s content t found behind =
        let (rest, is_text) = match_var_sound (c ∷ s) content found in
        let is_s : s ≡ b'{' ∷ (content ++ (b'}' ∷ rest)) = cc in
        let tail : drop (length content + 2) s ≡ rest = rw is_s (drop_var content rest) in
        rw
          (
            replace_match c s content t found,
            same content t,
            behind (length content + 2) (f content t).1,
            tail,
            is_text,
          )
          (ap ok (ap (λ x. b'$' ∷ b'{' ∷ x) (append_assoc content (b'}' ∷ []) rest)))

    -- Where each variable is replaced by itself, the text is left as it is.
    pub replace_same :
        (s : Bytes) (skip : ℕ) (t : S) → (replace_from f skip s t).0 ≡ ok (drop skip s)
    replace_same [] zero t = ap (λ r. r.0) (replace_nil zero t)
    replace_same [] (suc skip) t = ap (λ r. r.0) (replace_nil (suc skip) t)
    replace_same (c ∷ s) (suc skip) t = rw (replace_suc c s skip t) (replace_same s skip t)
    replace_same (c ∷ s) zero t = elim (Option-cases (match_var (c ∷ s))) [
      | inl missing ↦ rw (replace_other c s t missing, replace_same s zero t)
      | inr (content, found) ↦ same_var c s content t found (λ skip t'. replace_same s skip t')
    ]
