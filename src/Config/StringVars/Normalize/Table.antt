-- ===== src/Config/StringVars/Normalize/Table.antt =====
-- The table of NormalizeEncryptedValueStringVars after a list of variables.
use go_encrypted_config_valu.Base.{
  List, [], ◌∷◌, map, Option, none, some, Option-cases, Bool-cases, inl, inr, Bytes, All, str_eq,
  str_eq_sound, str_eq_refl, ◌≡◌, refl, ◌∙◌, sym,
}
use go_encrypted_config_valu.Config.Value.{EncryptedValue}
use go_encrypted_config_valu.Config.StringVars.{Normalized, lookup}
use go_encrypted_config_valu.Config.StringVars.Document.{Variable}

-- Each variable with the value that the table has for its plaintext.
abbrev pub value_for : EncryptedValue → Option EncryptedValue → EncryptedValue
value_for v none = v
value_for v (some sub) = sub

abbrev pub with_value : Normalized → Variable → Variable
with_value table x = record x { value = value_for x.value (lookup x.plaintext table) }

abbrev pub with_values : Normalized → List Variable → List Variable
with_values table xs = map (with_value table) xs

-- The table after a variable, and after all of them.
unfoldable pub entered_if : Normalized → Variable → Option EncryptedValue → Normalized
entered_if m x none = (x.plaintext, x.value) ∷ m
entered_if m x (some sub) = m

unfoldable pub entered : Normalized → List Variable → Normalized
unfolding entered_if
entered m [] = m
entered m (x ∷ xs) = entered (entered_if m x (lookup x.plaintext m)) xs

lookup_here : (k : Bytes) (v : EncryptedValue) (m : Normalized) → lookup k ((k, v) ∷ m) ≡ some v
unfolding lookup
lookup_here k v m = rw (str_eq_refl k)

-- What is in the table stays there.
lookup-entered_if :
    (m : Normalized) (x : Variable) (k : Bytes) (v : EncryptedValue)
    → lookup k m ≡ some v
    → lookup k (entered_if m x (lookup x.plaintext m)) ≡ some v
unfolding lookup entered_if
lookup-entered_if m x k v h = elim (Option-cases (lookup x.plaintext m)) [
  | inr (sub, there) ↦ rw there h
  | inl missing ↦ elim (Bool-cases (str_eq x.plaintext k)) [
    | inl same ↦
        let is_k : x.plaintext ≡ k = str_eq_sound x.plaintext k same in
        absurd (let gone : lookup k m ≡ none = rw (← is_k) missing in cc)
    | inr other ↦ rw (missing, other) h
  ]
]

pub lookup-entered :
    (xs : List Variable) (m : Normalized) (k : Bytes) (v : EncryptedValue)
    → lookup k m ≡ some v
    → lookup k (entered m xs) ≡ some v
unfolding entered
lookup-entered [] m k v h = h
lookup-entered (x ∷ xs) m k v h =
    lookup-entered xs (entered_if m x (lookup x.plaintext m)) k v (lookup-entered_if m x k v h)

-- A variable's plaintext is in the table once the variable has been met.
pub lookup_met :
    (m : Normalized) (x : Variable)
    → lookup x.plaintext (entered_if m x (lookup x.plaintext m))
      ≡ some (value_for x.value (lookup x.plaintext m))
unfolding entered_if
lookup_met m x = elim (Option-cases (lookup x.plaintext m)) [
  | inl missing ↦ rw missing (lookup_here x.plaintext x.value m)
  | inr (sub, there) ↦ rw (there, there)
]

-- The table has a value for the plaintext.
abbrev pub HasValue : Normalized → Variable → Type 0
HasValue table x = (v : EncryptedValue) × (lookup x.plaintext table ≡ some v)

pub entered-HasValue : (xs : List Variable) (m : Normalized) → All (HasValue (entered m xs)) xs
unfolding entered
entered-HasValue [] m = tt
entered-HasValue (x ∷ xs) m =
    let m' = entered_if m x (lookup x.plaintext m) in
    (
      (
        value_for x.value (lookup x.plaintext m),
        lookup-entered xs m' x.plaintext _ (lookup_met m x),
      ),
      entered-HasValue xs m',
    )

-- The keys of a table are in it.
abbrev IsIn : Normalized → Bytes × EncryptedValue → Type 0
IsIn m e = (v : EncryptedValue) × (lookup e.0 m ≡ some v)

IsIn-more :
    (k : Bytes) (v : EncryptedValue) (m : Normalized) (e : Bytes × EncryptedValue)
    → IsIn m e
    → IsIn ((k, v) ∷ m) e
unfolding lookup
IsIn-more k v m e (w, found) = elim (Bool-cases (str_eq k e.0)) [
  | inl same ↦ (v, rw same refl)
  | inr other ↦ (w, rw other found)
]

All-IsIn-more :
    (k : Bytes) (v : EncryptedValue) (m es : Normalized)
    → All (IsIn m) es
    → All (IsIn ((k, v) ∷ m)) es
All-IsIn-more k v m [] h = tt
All-IsIn-more k v m (e ∷ es) (h, hs) = (IsIn-more k v m e h, All-IsIn-more k v m es hs)

All-IsIn : (m : Normalized) → All (IsIn m) m
All-IsIn [] = tt
All-IsIn ((k, v) ∷ m) = ((v, lookup_here k v m), All-IsIn-more k v m m (All-IsIn m))

-- The second table has the same value for the key of the entry as the first one.
abbrev pub Agrees : Normalized → Normalized → Bytes × EncryptedValue → Type 0
Agrees m table e = lookup e.0 table ≡ lookup e.0 m

-- The entries that were in the table stay.
pub entered-Agrees : (xs : List Variable) (m : Normalized) → All (Agrees m (entered m xs)) m
entered-Agrees xs m = agree m (All-IsIn m)
  where
    agree : (es : Normalized) → All (IsIn m) es → All (Agrees m (entered m xs)) es
    agree [] h = tt
    agree (e ∷ es) ((v, found), h) = (lookup-entered xs m e.0 v found ∙ sym found, agree es h)
