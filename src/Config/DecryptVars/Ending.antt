-- ===== src/Config/DecryptVars/Ending.antt =====
-- The walk ends where no reference leads back to where it came from.
use go_encrypted_config_valu.Base.{
  ℕ, zero, suc, ◌<◌, List, [], ◌∷◌, Option, none, some, Bytes, get_elem?, ◌≡◌, ◌≢◌, refl, arith,
  Bool-cases, Option-cases, inl, inr,
}
use go_encrypted_config_valu.Base.Outcome.{starved}
use go_encrypted_config_valu.External.{Packages}
use go_encrypted_config_valu.Encryption.Exec.{Exec, ◌>>=◌, pure}
use go_encrypted_config_valu.Encryption.Exec.Keeps.{Keeps, Ends, >>=-Ends, use-Ends, pure-Ends}
use go_encrypted_config_valu.Config.GoValue.{
  Value, text, other, struct_of, array_of, slice_at, map_at, pointer, nil_interface, interface_of,
  Fields, no_fields, field, Values, no_values, element, Object, variable, elements, entries, Heap,
  ReadOnly, is_writable, Access, can_set,
}
use go_encrypted_config_valu.Config.KeyPair.{KeyWithType}
use go_encrypted_config_valu.Config.StringVars.{contains_string_vars, decrypt_all_string_vars}
use go_encrypted_config_valu.Config.DecryptVars.{
  fresh, load, walk_text, visit_if_any, walk_value, walk_fields, walk_values, walk_entries,
  walk_object, walk_at, decrypt_string_vars_in,
}
use go_encrypted_config_valu.Config.DecryptVars.Shape.{
  shape, shape_fields, shape_values, shape_entries, shape_object, shape_heap, HasShape, Any,
  walk_value-Keeps, walk_object-Keeps, load-Keeps, walk_at-Keeps,
}

-- All addresses in a value have a rank below `n`.
module _ (rank : ℕ → ℕ) (n : ℕ) where
  abbrev pub BelowRef : Option ℕ → Type 0
  BelowRef none = Unit
  BelowRef (some a) = rank a < n

  unfoldable mutual
    pub Below : Value → Type 0
    Below (text s) = Unit
    Below (other k) = Unit
    Below (struct_of fs) = BelowFields fs
    Below (array_of vs) = BelowValues vs
    Below (slice_at a) = BelowRef a
    Below (map_at a) = BelowRef a
    Below (pointer a) = BelowRef a
    Below nil_interface = Unit
    Below (interface_of v) = Below v

    pub BelowFields : Fields → Type 0
    BelowFields no_fields = Unit
    BelowFields (field visibility v fs) = Below v × BelowFields fs

    pub BelowValues : Values → Type 0
    BelowValues no_values = Unit
    BelowValues (element v vs) = Below v × BelowValues vs

  unfoldable pub BelowEntries : List (Bytes × Value) → Type 0
  BelowEntries [] = Unit
  BelowEntries ((k, v) ∷ es) = Below v × BelowEntries es

  unfoldable pub BelowObject : Object → Type 0
  BelowObject (variable v) = Below v
  BelowObject (elements vs) = BelowValues vs
  BelowObject (entries es) = BelowEntries es

-- References lead to objects of a lower rank only.
abbrev pub IsRanked : (ℕ → ℕ) → Heap → Type 0
IsRanked rank h = (a : ℕ) (o : Object) → get_elem? h a ≡ some o → BelowObject rank (rank a) o

module _ {S : Type 0} (p : Packages S) (kwt : KeyWithType) (H : Heap) (rank : ℕ → ℕ)
    (decrypts : (s : Bytes) (t : S) → (decrypt_all_string_vars p kwt s t).0 ≢ starved) where
  abbrev I : S × Heap → Type 0
  I = HasShape p kwt H

  walk_text-Ends : (acc : Access) (s : Bytes) → Ends I (walk_text p kwt acc s)
  unfolding walk_text
  walk_text-Ends acc s = elim (Bool-cases (can_set acc)) [
    | inl yes_set ↦ elim (Bool-cases (contains_string_vars s)) [
      | inl found ↦ rw (yes_set, found) (λ st i. decrypts s st.0)
      | inr missing ↦ rw (yes_set, missing) (pure-Ends I s)
    ]
    | inr not_set ↦ rw not_set (pure-Ends I s)
  ]

  module _ (visit : ReadOnly → ℕ → Exec (S × Heap) (Unit {0}))
      (visits : (flags : ReadOnly) (a : ℕ) → Keeps I (visit flags a) (Any p kwt H)) (n : ℕ)
      (ends : (flags : ReadOnly) (a : ℕ) → rank a < n → Ends I (visit flags a)) where
    reference-Ends :
        (flags : ReadOnly) (a : Option ℕ) (v : Value)
        → BelowRef rank n a
        → Ends I (visit_if_any p kwt visit flags a >>= λ done. pure v)
    unfolding visit_if_any
    reference-Ends flags none v b = pure-Ends I v
    reference-Ends flags (some a) v b = use-Ends I (visit flags a) (λ done. v) (ends flags a b)

    mutual
      unfolding walk_value walk_fields walk_values shape shape_fields shape_values Below BelowFields
          BelowValues

      walk_value-Ends :
          (acc : Access) (v : Value)
          → Below rank n (shape v)
          → Ends I (walk_value p kwt visit acc v)
      walk_value-Ends acc (text s) b = use-Ends I _ text (walk_text-Ends acc s)
      walk_value-Ends acc (other k) b = pure-Ends I (other k)
      walk_value-Ends acc (struct_of fs) b = use-Ends I _ struct_of (walk_fields-Ends acc fs b)
      walk_value-Ends acc (array_of vs) b = use-Ends I _ array_of (walk_values-Ends _ vs b)
      walk_value-Ends acc (slice_at a) b = reference-Ends _ a (slice_at a) b
      walk_value-Ends acc (map_at a) b = reference-Ends _ a (map_at a) b
      walk_value-Ends acc (pointer a) b = reference-Ends _ a (pointer a) b
      walk_value-Ends acc nil_interface b = pure-Ends I nil_interface
      walk_value-Ends acc (interface_of v) b =
          let inside = use-Ends I _ interface_of (walk_value-Ends fresh v b) in
          elim (Bool-cases (can_set acc)) [
            | inl yes_set ↦ rw yes_set inside
            | inr not_set ↦ rw not_set (pure-Ends I (interface_of v))
          ]

      walk_fields-Ends :
          (acc : Access) (fs : Fields)
          → BelowFields rank n (shape_fields fs)
          → Ends I (walk_fields p kwt visit acc fs)
      walk_fields-Ends acc no_fields b = pure-Ends I no_fields
      walk_fields-Ends acc (field visibility v fs) (b, bs) =
          >>=-Ends I _ _ _ (walk_value-Ends _ v b) (walk_value-Keeps p kwt H visit visits _ v)
            λ v' x. use-Ends I _ (field visibility v') (walk_fields-Ends acc fs bs)

      walk_values-Ends :
          (acc : Access) (vs : Values)
          → BelowValues rank n (shape_values vs)
          → Ends I (walk_values p kwt visit acc vs)
      walk_values-Ends acc no_values b = pure-Ends I no_values
      walk_values-Ends acc (element v vs) (b, bs) =
          >>=-Ends I _ _ _ (walk_value-Ends acc v b) (walk_value-Keeps p kwt H visit visits acc v)
            λ v' x. use-Ends I _ (element v') (walk_values-Ends acc vs bs)

    walk_entries-Ends :
        (flags : ReadOnly) (es : List (Bytes × Value))
        → BelowEntries rank n (shape_entries es)
        → Ends I (walk_entries p kwt visit flags es)
    unfolding walk_entries shape_entries BelowEntries
    walk_entries-Ends flags [] b = pure-Ends I []
    walk_entries-Ends flags ((k, v) ∷ es) (b, bs) =
        let both =
          >>=-Ends I _ _ _ (walk_value-Ends fresh v b)
            (walk_value-Keeps p kwt H visit visits fresh v)
            λ v' x. use-Ends I _ (λ es'. (k, v') ∷ es') (walk_entries-Ends flags es bs) in
        elim (Bool-cases (is_writable flags)) [
          | inl free ↦ rw free both
          | inr hidden ↦ rw hidden (λ st i e. cc)
        ]

    walk_object-Ends :
        (flags : ReadOnly) (o : Object)
        → BelowObject rank n (shape_object o)
        → Ends I (walk_object p kwt visit flags o)
    unfolding walk_object shape_object BelowObject
    walk_object-Ends flags (variable v) b = use-Ends I _ variable (walk_value-Ends _ v b)
    walk_object-Ends flags (elements vs) b = use-Ends I _ elements (walk_values-Ends _ vs b)
    walk_object-Ends flags (entries es) b = use-Ends I _ entries (walk_entries-Ends flags es b)

  load-Ends : (a : ℕ) → Ends I (load a)
  load-Ends a st i = elim (Option-cases (get_elem? st.1 a)) [
    | inl missing ↦ rw missing (λ e. cc)
    | inr (o, there) ↦ rw there (λ e. cc)
  ]

  walk_at-Ends :
      IsRanked rank H
      → (fuel : ℕ) (flags : ReadOnly) (a : ℕ) → rank a < fuel
      → Ends I (walk_at p kwt fuel flags a)
  unfolding walk_at
  walk_at-Ends ranked zero flags a b = absurd (omega arith)
  walk_at-Ends ranked (suc fuel) flags a b =
      let keeps = walk_at-Keeps p kwt H fuel in
      let ends : (flags' : ReadOnly) (c : ℕ)
          → rank c < rank a
          → Ends I (walk_at p kwt fuel flags' c) =
        λ flags' c lower. walk_at-Ends ranked fuel flags' c (omega arith) in
      >>=-Ends I (load a) _ _ (load-Ends a) (load-Keeps p kwt H a) λ o there.
        >>=-Ends I _ _ _
          (walk_object-Ends (walk_at p kwt fuel) keeps (rank a) ends flags o
            (ranked a (shape_object o) there))
          (walk_object-Keeps p kwt H (walk_at p kwt fuel) keeps flags o) λ o' same. λ st i e. cc

-- If references lead to objects of a lower rank only, and decryption ends, then fuel above the ranks
-- of the addresses in the value is enough: the walk ends.
pub decrypt_string_vars_in-ends :
    {S : Type 0} (p : Packages S) (kwt : KeyWithType) (rank : ℕ → ℕ) (fuel : ℕ) (acc : Access)
    (v : Value) (t : S) (h : Heap)
    → ((s : Bytes) (t' : S) → (decrypt_all_string_vars p kwt s t').0 ≢ starved)
    → IsRanked rank (shape_heap h)
    → Below rank fuel (shape v)
    → (decrypt_string_vars_in p kwt fuel acc v (t, h)).0 ≢ starved
unfolding decrypt_string_vars_in
decrypt_string_vars_in-ends p kwt rank fuel acc v t h decrypts ranked b =
    let H = shape_heap h in
    walk_value-Ends p kwt H rank decrypts (walk_at p kwt fuel) (walk_at-Keeps p kwt H fuel) fuel
      (λ flags a lower. walk_at-Ends p kwt H rank decrypts ranked fuel flags a lower) acc v b (t, h)
      refl
