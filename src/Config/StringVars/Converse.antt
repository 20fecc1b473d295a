-- ===== src/Config/StringVars/Converse.antt =====
-- DecryptAllEncryptedValueStringVars returns exactly what its meaning says.
use go_encrypted_config_valu.Base.{
  ℕ, zero, suc, ◌≤◌, [], ◌∷◌, ◌++◌, none, some, Bytes, Lacks, length, length-append, ◌≡◌, ◌↔◌, ◌∙◌,
  refl, sym, ap, subst, arith, append_assoc, Option-cases, inl, inr,
}
use go_encrypted_config_valu.Base.Outcome.{Outcome, ok, ok-injective, err, panic, starved}
use go_encrypted_config_valu.External.{Packages}
use go_encrypted_config_valu.Encryption.Exec.{Exec, ◌>>=◌, pure}
use go_encrypted_config_valu.Config.KeyPair.{KeyWithType}
use go_encrypted_config_valu.Config.StringVar.{new_string_var}
use go_encrypted_config_valu.Config.Value.{EncryptedValue}
use go_encrypted_config_valu.Config.StringVars.{
  match_var, replace_from, replace_var, open_value, attempt, decrypt_replacer,
  decrypt_all_string_vars,
}
use go_encrypted_config_valu.Config.StringVars.Scan.{match_var_lem, replace_nil, replace_other}
use go_encrypted_config_valu.Config.StringVars.Meaning.{
  BeginsNoVariable, match_var_form, Shows, at_end, copied, opened, kept, replace_variable,
  replace_opened, replace_kept, decrypt_all-Shows,
}

-- What a chain that returned has done.
both_returned :
    {S A B : Type 0} (m : Exec S A) (f : A → Exec S B) (t t' : S) (b : B)
    → (m >>= f) t ≡ (ok b, t')
    → (a : A) × (t1 : S) × (m t ≡ (ok a, t1)) × (f a t1 ≡ (ok b, t'))
both_returned {S} {A} m f t t' b h = go (m t).0 (m t).1 refl
  where
    go :
        (r : Outcome A) (t1 : S)
        → m t ≡ (r, t1)
        → (a : A) × (t1 : S) × (m t ≡ (ok a, t1)) × (f a t1 ≡ (ok b, t'))
    go (ok a) t1 e = (a, t1, e, rw e at h)
    go (err x) t1 e = absurd (let failed = rw e at h in cc)
    go panic t1 e = absurd (let failed = rw e at h in cc)
    go starved t1 e = absurd (let failed = rw e at h in cc)

-- What a call that returned has returned, and the state it has left.
returned :
    {S A : Type 0} {a b : A} {t t' : S}
    → ◌≡◌ {A = Outcome A × S} (ok a, t) (ok b, t')
    → (a ≡ b) × (t ≡ t')
returned h = (ok-injective (ap (λ x. x.0) h), ap (λ x. x.1) h)

unmatched : (s : Bytes) → match_var s ≡ none → BeginsNoVariable s
unmatched s missing c content rest lacks is_s =
    let found = match_var_lem c content rest lacks in
    let there : match_var s ≡ some (c ∷ content) = ap match_var is_s ∙ found in cc

module _ {S : Type 0} (p : Packages S) (kwt : KeyWithType) where
  replace_panics :
      (raw : Bytes) (t t1 : S)
      → open_value p kwt raw t ≡ (panic, t1)
      → replace_var (decrypt_replacer p kwt) raw t ≡ (panic, t1)
  unfolding decrypt_replacer
  replace_panics raw t t1 run = rw (decrypt_replacer, attempt, run) refl

  replace_starves :
      (raw : Bytes) (t t1 : S)
      → open_value p kwt raw t ≡ (starved, t1)
      → replace_var (decrypt_replacer p kwt) raw t ≡ (starved, t1)
  unfolding decrypt_replacer
  replace_starves raw t t1 run = rw (decrypt_replacer, attempt, run) refl

  -- What stands for a variable, where the rest of the text is shown as `out`.
  variable-Shows :
      (c : ℕ) (inner post out replacement : Bytes) (t t1 t2 : S)
      → Lacks b'}' (c ∷ inner)
      → replace_var (decrypt_replacer p kwt) (c ∷ inner) t ≡ (ok replacement, t1)
      → Shows p kwt post t1 out t2
      → Shows p kwt (new_string_var (c ∷ inner) ++ post) t (replacement ++ out) t2
  variable-Shows c inner post out replacement t t1 t2 lacks run rest =
      go (open_value p kwt raw t).0 (open_value p kwt raw t).1 refl
    where
      raw : Bytes
      raw = c ∷ inner

      go :
          (r : Outcome (EncryptedValue × Bytes)) (t' : S)
          → open_value p kwt raw t ≡ (r, t')
          → Shows p kwt (new_string_var raw ++ post) t (replacement ++ out) t2
      go (ok (v, plaintext)) t' e =
          let (is_r, is_t) = returned (sym (replace_opened p kwt raw plaintext v t t' e) ∙ run) in
          subst (λ x. Shows p kwt (new_string_var raw ++ post) t (x ++ out) t2) is_r
            (opened c inner post out v plaintext t t' t2 lacks e
              (subst (λ x. Shows p kwt post x out t2) (sym is_t) rest))
      go (err x) t' e =
          let (is_r, is_t) = returned (sym (replace_kept p kwt raw x t t' e) ∙ run) in
          subst (λ y. Shows p kwt (new_string_var raw ++ post) t (y ++ out) t2) is_r
            (kept c inner post out x t t' t2 lacks e
              (subst (λ y. Shows p kwt post y out t2) (sym is_t) rest))
      go panic t' e = absurd (let failed = sym (replace_panics raw t t' e) ∙ run in cc)
      go starved t' e = absurd (let failed = sym (replace_starves raw t t' e) ∙ run in cc)

  -- A run that begins with a variable is that of its replacement and that of the rest.
  variable_returned :
      (c : ℕ) (inner post out : Bytes) (t t' : S)
      → Lacks b'}' (c ∷ inner)
      → decrypt_all_string_vars p kwt (new_string_var (c ∷ inner) ++ post) t ≡ (ok out, t')
      → (replacement : Bytes) × (rest : Bytes) × (t1 : S) × (replace_var
            (decrypt_replacer p kwt)
            (c ∷ inner)
            t
          ≡ (ok replacement, t1))
        × (decrypt_all_string_vars p kwt post t1 ≡ (ok rest, t'))
        × (replacement ++ rest ≡ out)
  variable_returned c inner post out t t' lacks h =
      let behind : Bytes → Exec S Bytes =
        λ replacement. decrypt_all_string_vars p kwt post >>= λ rest. pure (replacement ++ rest) in
      let (replacement, t1, run, h1) =
        both_returned (replace_var (decrypt_replacer p kwt) (c ∷ inner)) behind t t' out
          (sym (replace_variable p kwt c inner post t lacks) ∙ h) in
      let (rest, t2, run1, h2) =
        both_returned (decrypt_all_string_vars p kwt post) (λ rest. pure (replacement ++ rest)) t1
          t' out h1 in
      let (is_out, is_t) = returned h2 in
      (
        replacement,
        rest,
        t1,
        run,
        subst (λ x. decrypt_all_string_vars p kwt post t1 ≡ (ok rest, x)) is_t run1,
        is_out,
      )

  -- A run that begins with another byte is that of the rest.
  other_returned :
      (c : ℕ) (s out : Bytes) (t t' : S)
      → match_var (c ∷ s) ≡ none
      → decrypt_all_string_vars p kwt (c ∷ s) t ≡ (ok out, t')
      → (rest : Bytes) × (decrypt_all_string_vars p kwt s t ≡ (ok rest, t')) × (c ∷ rest ≡ out)
  unfolding decrypt_all_string_vars
  other_returned c s out t t' missing h =
      let f = replace_var (decrypt_replacer p kwt) in
      let (rest, t1, run, h1) =
        both_returned (replace_from f 0 s) (λ rest. pure (c ∷ rest)) t t' out
          (sym (replace_other f c s t missing) ∙ h) in
      let (is_out, is_t) = returned h1 in
      (rest, subst (λ x. replace_from f 0 s t ≡ (ok rest, x)) is_t run, is_out)

  nothing_returned :
      (out : Bytes) (t t' : S)
      → decrypt_all_string_vars p kwt [] t ≡ (ok out, t')
      → Shows p kwt [] t out t'
  unfolding decrypt_all_string_vars
  nothing_returned out t t' h =
      let (is_out, is_t) =
        returned (sym (replace_nil (replace_var (decrypt_replacer p kwt)) 0 t) ∙ h) in
      subst (λ x. Shows p kwt [] t x t') is_out (subst (λ x. Shows p kwt [] t [] x) is_t (at_end t))

  Shows-decrypt_all :
      (fuel : ℕ) (s out : Bytes) (t t' : S)
      → length s ≤ fuel
      → decrypt_all_string_vars p kwt s t ≡ (ok out, t')
      → Shows p kwt s t out t'
  Shows-decrypt_all fuel [] out t t' bound h = nothing_returned out t t' h
  Shows-decrypt_all zero (c ∷ s) out t t' bound h = absurd (omega arith)
  Shows-decrypt_all (suc fuel) (c ∷ s) out t t' bound h = elim (Option-cases (match_var (c ∷ s))) [
    | inl missing ↦
        let (rest, run, is_out) = other_returned c s out t t' missing h in
        let shown = Shows-decrypt_all fuel s rest t t' (omega (arith, bound)) run in
        subst (λ x. Shows p kwt (c ∷ s) t x t') is_out
          (copied c s rest t t' (unmatched (c ∷ s) missing) shown)
    | inr (content, found) ↦
        let (b, inner, post, same, lacks, is_s) = match_var_form (c ∷ s) content found in
        let is_text : c ∷ s ≡ new_string_var (b ∷ inner) ++ post =
          is_s ∙ ap (λ x. b'$' ∷ b'{' ∷ x) (sym (append_assoc (b ∷ inner) (b'}' ∷ []) post)) in
        let (replacement, rest, t1, run, run1, is_out) =
          variable_returned b inner post out t t' lacks
            (ap (λ x. decrypt_all_string_vars p kwt x t) (sym is_text) ∙ h) in
        let shorter : length post ≤ fuel =
          omega (arith, ap length is_s, length-append (b ∷ inner) (b'}' ∷ post), bound) in
        let shown = Shows-decrypt_all fuel post rest t1 t' shorter run1 in
        subst (λ x. Shows p kwt x t out t') (sym is_text)
          (subst (λ x. Shows p kwt (new_string_var (b ∷ inner) ++ post) t x t') is_out
            (variable-Shows b inner post rest replacement t t1 t' lacks run shown))
  ]

  -- DecryptAllEncryptedValueStringVars returns a text exactly where the relation holds: each variable
  -- whose content is a value that the key decrypts is replaced by the plaintext, each variable whose
  -- content ends in an error is kept, and all that is no variable is copied.
  pub decrypt_all_iff :
      (s out : Bytes) (t t' : S)
      → (decrypt_all_string_vars p kwt s t ≡ (ok out, t')) ↔ Shows p kwt s t out t'
  decrypt_all_iff s out t t' =
      (Shows-decrypt_all (length s) s out t t' (omega arith), decrypt_all-Shows p kwt s out t t')
