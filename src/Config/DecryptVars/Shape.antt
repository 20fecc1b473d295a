-- ===== src/Config/DecryptVars/Shape.antt =====
-- What the walk leaves as it is: everything but the contents of strings.
use go_encrypted_config_valu.Base.{
  ℕ, zero, suc, Bool-cases, List, [], ◌∷◌, map, Option, none, some, Bytes, get_elem?, ◌≡◌, refl,
  sym, ap, ap₂, ◌∙◌, inl, inr,
}
use go_encrypted_config_valu.Base.Outcome.{ok, deref-eq-ok}
use go_encrypted_config_valu.External.{Packages}
use go_encrypted_config_valu.Encryption.Exec.{Exec, ◌>>=◌, pure}
use go_encrypted_config_valu.Encryption.Exec.Keeps.{Keeps, pure-Keeps, >>=-Keeps, use-Keeps}
use go_encrypted_config_valu.Config.GoValue.{
  Value, text, other, struct_of, array_of, slice_at, map_at, pointer, nil_interface, interface_of,
  Fields, no_fields, field, Values, no_values, element, Object, variable, elements, entries, Heap,
  update, ReadOnly, is_writable, Access, can_set,
}
use go_encrypted_config_valu.Config.KeyPair.{KeyWithType}
use go_encrypted_config_valu.Config.StringVars.{contains_string_vars}
use go_encrypted_config_valu.Config.DecryptVars.{
  fresh, load, store, walk_text, visit_if_any, walk_value, walk_fields, walk_values, walk_entries,
  walk_object, walk_at, decrypt_string_vars_in,
}

-- A value without the contents of its strings: its types, its lengths, the keys of its maps and what
-- its references refer to.
unfoldable mutual
  pub shape : Value → Value
  shape (text s) = text []
  shape (other n) = other n
  shape (struct_of fs) = struct_of (shape_fields fs)
  shape (array_of vs) = array_of (shape_values vs)
  shape (slice_at a) = slice_at a
  shape (map_at a) = map_at a
  shape (pointer a) = pointer a
  shape nil_interface = nil_interface
  shape (interface_of v) = interface_of (shape v)

  pub shape_fields : Fields → Fields
  shape_fields no_fields = no_fields
  shape_fields (field visibility v fs) = field visibility (shape v) (shape_fields fs)

  pub shape_values : Values → Values
  shape_values no_values = no_values
  shape_values (element v vs) = element (shape v) (shape_values vs)

unfoldable pub shape_entries : List (Bytes × Value) → List (Bytes × Value)
shape_entries [] = []
shape_entries ((k, v) ∷ es) = (k, shape v) ∷ shape_entries es

unfoldable pub shape_object : Object → Object
shape_object (variable v) = variable (shape v)
shape_object (elements vs) = elements (shape_values vs)
shape_object (entries es) = entries (shape_entries es)

abbrev pub shape_heap : Heap → Heap
shape_heap h = map shape_object h

pub get_elem?-shape :
    (h : Heap) (a : ℕ) (o : Object)
    → get_elem? h a ≡ some o
    → get_elem? (shape_heap h) a ≡ some (shape_object o)
get_elem?-shape [] a o e = absurd (cc)
get_elem?-shape (x ∷ h) zero o e = let same : x ≡ o = cc in rw same
get_elem?-shape (x ∷ h) (suc a) o e = get_elem?-shape h a o e

shape-update :
    (h : Heap) (a : ℕ) (o : Object)
    → get_elem? (shape_heap h) a ≡ some (shape_object o)
    → shape_heap (update h a o) ≡ shape_heap h
shape-update [] a o e = refl
shape-update (x ∷ h) zero o e =
    let same : shape_object x ≡ shape_object o = cc in ap (λ y. y ∷ shape_heap h) (sym same)
shape-update (x ∷ h) (suc a) o e = ap (λ y. shape_object x ∷ y) (shape-update h a o e)

module _ {S : Type 0} (p : Packages S) (kwt : KeyWithType) (H : Heap) where
  -- The heap has the shape `H`.
  abbrev pub HasShape : S × Heap → Type 0
  HasShape st = shape_heap st.1 ≡ H

  abbrev pub Any : {A : Type 0} → A → Type 0
  Any a = Unit {0}

  pub walk_text-Keeps : (acc : Access) (s : Bytes) → Keeps HasShape (walk_text p kwt acc s) Any
  unfolding walk_text
  walk_text-Keeps acc s = elim (Bool-cases (can_set acc)) [
    | inl yes_set ↦ elim (Bool-cases (contains_string_vars s)) [
      | inl found ↦ rw (yes_set, found) (λ st i r e. (tt, i))
      | inr missing ↦ rw (yes_set, missing) (pure-Keeps HasShape s Any tt)
    ]
    | inr not_set ↦ rw not_set (pure-Keeps HasShape s Any tt)
  ]

  module _ (visit : ReadOnly → ℕ → Exec (S × Heap) (Unit {0}))
      (visits : (flags : ReadOnly) (a : ℕ) → Keeps HasShape (visit flags a) Any) where
    pub visit_if_any-Keeps :
        (flags : ReadOnly) (a : Option ℕ) → Keeps HasShape (visit_if_any p kwt visit flags a) Any
    unfolding visit_if_any
    visit_if_any-Keeps flags none = pure-Keeps HasShape tt Any tt
    visit_if_any-Keeps flags (some a) = visits flags a

    pub reference-Keeps :
        (flags : ReadOnly) (a : Option ℕ) (v : Value)
        → Keeps HasShape
            (visit_if_any p kwt visit flags a >>= λ done. pure v)
            (λ v'. shape v' ≡ shape v)
    reference-Keeps flags a v =
        use-Keeps HasShape (visit_if_any p kwt visit flags a) (λ done. v) Any _
          (visit_if_any-Keeps flags a) (λ done x. refl)

    mutual
      unfolding walk_value walk_fields walk_values shape shape_fields shape_values

      pub walk_value-Keeps :
          (acc : Access) (v : Value)
          → Keeps HasShape (walk_value p kwt visit acc v) (λ v'. shape v' ≡ shape v)
      walk_value-Keeps acc (text s) =
          use-Keeps HasShape (walk_text p kwt acc s) text Any _ (walk_text-Keeps acc s)
            (λ s' x. refl)
      walk_value-Keeps acc (other n) = pure-Keeps HasShape (other n) _ refl
      walk_value-Keeps acc (struct_of fs) =
          use-Keeps HasShape (walk_fields p kwt visit acc fs) struct_of _ _
            (walk_fields-Keeps acc fs) (λ fs' x. ap struct_of x)
      walk_value-Keeps acc (array_of vs) =
          use-Keeps HasShape _ array_of _ _ (walk_values-Keeps _ vs) (λ vs' x. ap array_of x)
      walk_value-Keeps acc (slice_at a) = reference-Keeps _ a (slice_at a)
      walk_value-Keeps acc (map_at a) = reference-Keeps _ a (map_at a)
      walk_value-Keeps acc (pointer a) = reference-Keeps _ a (pointer a)
      walk_value-Keeps acc nil_interface = pure-Keeps HasShape nil_interface _ refl
      walk_value-Keeps acc (interface_of v) =
          let inside =
            use-Keeps HasShape _ interface_of _ (λ v'. shape v' ≡ shape (interface_of v))
              (walk_value-Keeps fresh v) (λ v' x. ap interface_of x) in
          elim (Bool-cases (can_set acc)) [
            | inl yes_set ↦ rw yes_set inside
            | inr not_set ↦ rw not_set (pure-Keeps HasShape (interface_of v) _ refl)
          ]

      pub walk_fields-Keeps :
          (acc : Access) (fs : Fields)
          → Keeps HasShape
              (walk_fields p kwt visit acc fs)
              (λ fs'. shape_fields fs' ≡ shape_fields fs)
      walk_fields-Keeps acc no_fields = pure-Keeps HasShape no_fields _ refl
      walk_fields-Keeps acc (field visibility v fs) =
          >>=-Keeps HasShape _ _ _ _ (walk_value-Keeps _ v) λ v' x.
            use-Keeps HasShape _ (field visibility v') _ _ (walk_fields-Keeps acc fs)
              λ fs' y. ap₂ (field visibility) x y

      pub walk_values-Keeps :
          (acc : Access) (vs : Values)
          → Keeps HasShape
              (walk_values p kwt visit acc vs)
              (λ vs'. shape_values vs' ≡ shape_values vs)
      walk_values-Keeps acc no_values = pure-Keeps HasShape no_values _ refl
      walk_values-Keeps acc (element v vs) =
          >>=-Keeps HasShape _ _ _ _ (walk_value-Keeps acc v) λ v' x.
            use-Keeps HasShape _ (element v') _ _ (walk_values-Keeps acc vs)
              λ vs' y. ap₂ element x y

    pub walk_entries-Keeps :
        (flags : ReadOnly) (es : List (Bytes × Value))
        → Keeps HasShape
            (walk_entries p kwt visit flags es)
            (λ es'. shape_entries es' ≡ shape_entries es)
    unfolding walk_entries shape_entries
    walk_entries-Keeps flags [] = pure-Keeps HasShape [] _ refl
    walk_entries-Keeps flags ((k, v) ∷ es) =
        let both =
          >>=-Keeps HasShape _ _ _ (λ es'. shape_entries es' ≡ shape_entries ((k, v) ∷ es))
            (walk_value-Keeps fresh v)
            λ v' x.
              use-Keeps HasShape _ (λ es'. (k, v') ∷ es') _ _ (walk_entries-Keeps flags es)
                λ es' y. ap₂ (λ first rest. (k, first) ∷ rest) x y in
        elim (Bool-cases (is_writable flags)) [
          | inl free ↦ rw free both
          | inr hidden ↦ rw hidden (λ st i r e. absurd (cc))
        ]

    pub walk_object-Keeps :
        (flags : ReadOnly) (o : Object)
        → Keeps HasShape (walk_object p kwt visit flags o) (λ o'. shape_object o' ≡ shape_object o)
    unfolding walk_object shape_object
    walk_object-Keeps flags (variable v) =
        use-Keeps HasShape _ variable _ _ (walk_value-Keeps _ v) (λ v' x. ap variable x)
    walk_object-Keeps flags (elements vs) =
        use-Keeps HasShape _ elements _ _ (walk_values-Keeps _ vs) (λ vs' x. ap elements x)
    walk_object-Keeps flags (entries es) =
        use-Keeps HasShape _ entries _ _ (walk_entries-Keeps flags es) (λ es' x. ap entries x)

  pub load-Keeps : (a : ℕ) → Keeps HasShape (load a) (λ o. get_elem? H a ≡ some (shape_object o))
  load-Keeps a st i o e = (rw (← i) (get_elem?-shape st.1 a o (deref-eq-ok _ e)), i)

  store-Keeps :
      (a : ℕ) (o : Object) → get_elem? H a ≡ some (shape_object o) → Keeps HasShape (store a o) Any
  store-Keeps a o there st i done e = (tt, shape-update st.1 a o (rw i there) ∙ i)

  pub walk_at-Keeps :
      (fuel : ℕ) (flags : ReadOnly) (a : ℕ) → Keeps HasShape (walk_at p kwt fuel flags a) Any
  unfolding walk_at
  walk_at-Keeps zero flags a = λ st i r e. absurd (cc)
  walk_at-Keeps (suc fuel) flags a = >>=-Keeps HasShape (load a) _ _ Any (load-Keeps a) λ o there.
      >>=-Keeps HasShape _ _ _ Any
        (walk_object-Keeps (walk_at p kwt fuel) (walk_at-Keeps fuel) flags o)
        λ o' same. store-Keeps a o' (there ∙ ap some (sym same))

-- The walk of any location, if it returns, changes nothing but the contents of strings: the value
-- and every object of the heap keep their kinds, their lengths, the keys of their maps and the
-- addresses in them.
pub decrypt-shape :
    {S : Type 0} (p : Packages S) (kwt : KeyWithType) (fuel : ℕ) (acc : Access) (v : Value) (t : S)
    (h : Heap) (r : Value)
    → (decrypt_string_vars_in p kwt fuel acc v (t, h)).0 ≡ ok r
    → (shape r ≡ shape v)
      × (shape_heap (decrypt_string_vars_in p kwt fuel acc v (t, h)).1.1 ≡ shape_heap h)
unfolding decrypt_string_vars_in
decrypt-shape p kwt fuel acc v t h =
    walk_value-Keeps p kwt (shape_heap h) (walk_at p kwt fuel)
      (walk_at-Keeps p kwt (shape_heap h) fuel) acc v (t, h) refl
