-- ===== src/Config/StringVars/Normalize.antt =====
-- What NormalizeEncryptedValueStringVars returns.
pub mod Table
use go_encrypted_config_valu.Base.{
  List, [], ◌∷◌, ◌++◌, map, Option, none, some, Option-cases, Bool-cases, inl, inr, Bytes, All,
  Lacks, str_eq, str_eq_sound, str_eq_refl, ◌≡◌, refl, ◌∙◌, sym, ap, subst,
}
use go_encrypted_config_valu.Base.Outcome.{ok}
use go_encrypted_config_valu.External.{Packages, IsJson}
use go_encrypted_config_valu.Config.KeyPair.{KeyWithType}
use go_encrypted_config_valu.Config.StringVar.{new_string_var}
use go_encrypted_config_valu.Config.Value.{EncryptedValue, to_serializable}
use go_encrypted_config_valu.Config.Value.RoundTrip.{new_value-to_serializable}
use go_encrypted_config_valu.Config.StringVars.{
  Normalized, lookup, replace_var, open_value, attempt, choose, normalize_found, normalize_replacer,
  normalize_string_vars, decrypt_all_string_vars,
}
use go_encrypted_config_valu.Config.StringVars.DecryptAll.{replace_value}
use go_encrypted_config_valu.Config.StringVars.Document.{
  Variable, render, shown, Opens, IsOpen, render-shown,
}
use go_encrypted_config_valu.Config.StringVars.Scan.{replace_plain}
use go_encrypted_config_valu.Config.StringVars.Normalize.Table.{
  value_for, with_value, with_values, entered_if, entered, lookup-entered, lookup_met, HasValue,
  entered-HasValue, Agrees, entered-Agrees,
}

module _ {S : Type 0} (p : Packages S) (kwt : KeyWithType) (t : S) (laws : IsJson p.json) where
  normalize_one :
      (m : Normalized) (x : Variable)
      → IsOpen p kwt t x
      → replace_var (normalize_replacer p kwt) (to_serializable p.json x.value) (t, m) ≡ (
        ok (new_string_var (to_serializable p.json (value_for x.value (lookup x.plaintext m)))),
        (t, entered_if m x (lookup x.plaintext m)),
      )
  unfolding normalize_replacer entered_if choose normalize_found open_value attempt
  normalize_one m x (before, (readable, h)) =
      let reads = new_value-to_serializable p.json p.digests laws x.value readable in
      elim (Option-cases (lookup x.plaintext m)) [
        | inl missing ↦ rw (reads, h, missing)
        | inr (sub, there) ↦ rw (reads, h, there)
      ]

  -- The run on a text of variables, from any table on.
  normalize-render :
      (xs : List Variable) (tail : Bytes) (m : Normalized)
      → All (IsOpen p kwt t) xs
      → Lacks b'$' tail
      → normalize_string_vars p kwt (render p.json xs tail) (t, m)
        ≡ (ok (render p.json (with_values (entered m xs) xs) tail), (t, entered m xs))
  unfolding normalize_string_vars entered
  normalize-render [] tail m opens plain = replace_plain _ tail (t, m) plain
  normalize-render (x ∷ xs) tail m (first, opens) plain =
      let m' = entered_if m x (lookup x.plaintext m) in
      let (before, readable) = first in
      let met : lookup x.plaintext (entered m' xs)
          ≡ some (value_for x.value (lookup x.plaintext m)) =
        lookup-entered xs m' x.plaintext _ (lookup_met m x) in
      replace_value (replace_var (normalize_replacer p kwt)) p.json x.before (render p.json xs tail)
        x.value (t, m) before
      ∙ rw (normalize_one m x first, normalize-render xs tail m' opens plain, met)

  -- The values of the table open to their plaintexts.
  abbrev Opening : Normalized → Type 0
  Opening m = (k : Bytes) (v : EncryptedValue) → lookup k m ≡ some v → Opens p kwt t v k

  entered_if-Opening :
      (m : Normalized) (x : Variable)
      → Opening m
      → IsOpen p kwt t x
      → Opening (entered_if m x (lookup x.plaintext m))
  unfolding entered_if lookup
  entered_if-Opening m x good (before, opens) k v h = elim (Option-cases (lookup x.plaintext m)) [
    | inr (sub, there) ↦ good k v (rw there at h)
    | inl missing ↦ elim (Bool-cases (str_eq x.plaintext k)) [
      | inl same ↦
          let is_v : x.value ≡ v = let found = rw (missing, same) at h in cc in
          subst (λ w. Opens p kwt t w k) is_v
            (subst (Opens p kwt t x.value) (str_eq_sound x.plaintext k same) opens)
      | inr other ↦ good k v (rw (missing, other) at h)
    ]
  ]

  entered-Opening :
      (xs : List Variable) (m : Normalized)
      → Opening m
      → All (IsOpen p kwt t) xs
      → Opening (entered m xs)
  unfolding entered
  entered-Opening [] m good opens = good
  entered-Opening (x ∷ xs) m good (first, opens) =
      entered-Opening xs (entered_if m x (lookup x.plaintext m)) (entered_if-Opening m x good first)
        opens

  with_values-IsOpen :
      (table : Normalized) (xs : List Variable)
      → Opening table
      → All (IsOpen p kwt t) xs
      → All (IsOpen p kwt t) (with_values table xs)
  with_values-IsOpen table [] good opens = tt
  with_values-IsOpen table (x ∷ xs) good ((before, opens), rest) =
      let value-Opens : Opens p kwt t (value_for x.value (lookup x.plaintext table)) x.plaintext =
        elim (Option-cases (lookup x.plaintext table)) [
          | inl missing ↦ rw missing opens
          | inr (sub, there) ↦ rw there (good x.plaintext sub there)
        ] in
      ((before, value-Opens), with_values-IsOpen table xs good rest)

  shown-with_values :
      (table : Normalized) (xs : List Variable) (tail : Bytes)
      → shown (with_values table xs) tail ≡ shown xs tail
  shown-with_values table [] tail = refl
  shown-with_values table (x ∷ xs) tail =
      ap (λ rest. x.before ++ (x.plaintext ++ rest)) (shown-with_values table xs tail)

  -- The entry's value can be read back and opens to its key.
  abbrev pub EntryOpens : Bytes × EncryptedValue → Type 0
  EntryOpens e = Opens p kwt t e.1 e.0

  All-Opening : (m : Normalized) → All EntryOpens m → Opening m
  unfolding lookup
  All-Opening [] h k v found = absurd (cc)
  All-Opening ((k', v') ∷ m) (first, h) k v found = elim (Bool-cases (str_eq k' k)) [
    | inl same ↦
        let is_v : v' ≡ v = let there = rw same at found in cc in
        subst (λ w. Opens p kwt t w k) is_v
          (subst (Opens p kwt t v') (str_eq_sound k' k same) first)
    | inr other ↦ All-Opening m h k v (rw other at found)
  ]

  -- For a text of readable variables that the key decrypts without drawing randomness, and of other
  -- text with no dollar sign, and for a map whose values are readable and decrypted by the key to their
  -- plaintexts in the same way, where JSON meets its laws: NormalizeEncryptedValueStringVars returns the
  -- text in which each variable has the value that one table, the map at the end, gives for its
  -- plaintext, so that equal plaintexts have equal values; the table has a value for each plaintext of
  -- the text, and for those that were in the map before it has the value that was there; and the new
  -- text decrypts to the same text as before.
  pub normalize_string_vars_lem :
      (xs : List Variable) (tail : Bytes) (m : Normalized)
      → All (IsOpen p kwt t) xs
      → Lacks b'$' tail
      → All EntryOpens m
      → (table : Normalized) × (normalize_string_vars p kwt (render p.json xs tail) (t, m)
          ≡ (ok (render p.json (with_values table xs) tail), (t, table)))
        × All (HasValue table) xs
        × All (Agrees m table) m
        × (decrypt_all_string_vars p kwt (render p.json (with_values table xs) tail) t
            ≡ decrypt_all_string_vars p kwt (render p.json xs tail) t)
  normalize_string_vars_lem xs tail m opens plain entries_open =
      let table = entered m xs in
      let good = entered-Opening xs m (All-Opening m entries_open) opens in
      (
        table,
        normalize-render xs tail m opens plain,
        entered-HasValue xs m,
        entered-Agrees xs m,
        render-shown p kwt t (with_values table xs) tail laws
              (with_values-IsOpen table xs good opens) plain
            ∙ ap (λ s. (ok s, t)) (shown-with_values table xs tail)
            ∙ sym (render-shown p kwt t xs tail laws opens plain),
      )
