-- ===== src/Config/DecryptVars/Frame.antt =====
-- What the walk leaves of structs: their unexported fields.
use go_encrypted_config_valu.Base.{
  ℕ, zero, suc, Bool, Bool-cases, List, [], ◌∷◌, map, Option, none, some, Bytes, get_elem?, ◌≡◌,
  refl, sym, ap, ap₂, ◌∙◌, inl, inr,
}
use go_encrypted_config_valu.Base.Outcome.{ok, deref-eq-ok}
use go_encrypted_config_valu.External.{Packages}
use go_encrypted_config_valu.Encryption.Exec.{Exec, ◌>>=◌, pure}
use go_encrypted_config_valu.Encryption.Exec.Keeps.{Keeps, pure-Keeps, >>=-Keeps, use-Keeps}
use go_encrypted_config_valu.Config.GoValue.{
  Value, text, other, struct_of, array_of, slice_at, map_at, pointer, nil_interface, interface_of,
  Fields, no_fields, field, Values, no_values, element, Object, variable, elements, entries, Heap,
  update, ReadOnly, writable, embed_ro, sticky_ro, field_ro, exported, unexported,
  embedded_unexported, is_writable, Access, can_set,
}
use go_encrypted_config_valu.Config.KeyPair.{KeyWithType}
use go_encrypted_config_valu.Config.StringVars.{contains_string_vars}
use go_encrypted_config_valu.Config.DecryptVars.{
  fresh, load, store, walk_text, visit_if_any, walk_value, walk_fields, walk_values, walk_entries,
  walk_object, walk_at, decrypt_string_vars_in,
}
use go_encrypted_config_valu.Config.DecryptVars.Unexported.{walk_value-Same, walk_at-Same}

-- What the walk has to leave as it is: a value without the contents of its strings, but with all that
-- its fields hold that are declared unexported and are not embedded.
unfoldable mutual
  pub frame : Value → Value
  frame (text s) = text []
  frame (other n) = other n
  frame (struct_of fs) = struct_of (frame_fields fs)
  frame (array_of vs) = array_of (frame_values vs)
  frame (slice_at a) = slice_at a
  frame (map_at a) = map_at a
  frame (pointer a) = pointer a
  frame nil_interface = nil_interface
  frame (interface_of v) = interface_of (frame v)

  pub frame_fields : Fields → Fields
  frame_fields no_fields = no_fields
  frame_fields (field exported v fs) = field exported (frame v) (frame_fields fs)
  frame_fields (field embedded_unexported v fs) =
      field embedded_unexported (frame v) (frame_fields fs)
  frame_fields (field unexported v fs) = field unexported v (frame_fields fs)

  pub frame_values : Values → Values
  frame_values no_values = no_values
  frame_values (element v vs) = element (frame v) (frame_values vs)

unfoldable pub frame_entries : List (Bytes × Value) → List (Bytes × Value)
frame_entries [] = []
frame_entries ((k, v) ∷ es) = (k, frame v) ∷ frame_entries es

unfoldable pub frame_object : Object → Object
frame_object (variable v) = variable (frame v)
frame_object (elements vs) = elements (frame_values vs)
frame_object (entries es) = entries (frame_entries es)

abbrev pub frame_heap : Heap → Heap
frame_heap h = map frame_object h

unexported_ro : (flags : ReadOnly) → field_ro flags unexported ≡ sticky_ro
unexported_ro writable = refl
unexported_ro embed_ro = refl
unexported_ro sticky_ro = refl

get_elem?-frame :
    (h : Heap) (a : ℕ) (o : Object)
    → get_elem? h a ≡ some o
    → get_elem? (frame_heap h) a ≡ some (frame_object o)
get_elem?-frame [] a o e = absurd (cc)
get_elem?-frame (x ∷ h) zero o e = let same : x ≡ o = cc in rw same
get_elem?-frame (x ∷ h) (suc a) o e = get_elem?-frame h a o e

frame-update :
    (h : Heap) (a : ℕ) (o : Object)
    → get_elem? (frame_heap h) a ≡ some (frame_object o)
    → frame_heap (update h a o) ≡ frame_heap h
frame-update [] a o e = refl
frame-update (x ∷ h) zero o e =
    let same : frame_object x ≡ frame_object o = cc in ap (λ y. y ∷ frame_heap h) (sym same)
frame-update (x ∷ h) (suc a) o e = ap (λ y. frame_object x ∷ y) (frame-update h a o e)

module _ {S : Type 0} (p : Packages S) (kwt : KeyWithType) (H : Heap) where
  -- The heap has the frame `H`.
  abbrev HasFrame : S × Heap → Type 0
  HasFrame st = frame_heap st.1 ≡ H

  abbrev Any : {A : Type 0} → A → Type 0
  Any a = Unit {0}

  walk_text-Frame : (acc : Access) (s : Bytes) → Keeps HasFrame (walk_text p kwt acc s) Any
  unfolding walk_text
  walk_text-Frame acc s = elim (Bool-cases (can_set acc)) [
    | inl yes_set ↦ elim (Bool-cases (contains_string_vars s)) [
      | inl found ↦ rw (yes_set, found) (λ st i r e. (tt, i))
      | inr missing ↦ rw (yes_set, missing) (pure-Keeps HasFrame s Any tt)
    ]
    | inr not_set ↦ rw not_set (pure-Keeps HasFrame s Any tt)
  ]

  module _ (visit : ReadOnly → ℕ → Exec (S × Heap) (Unit {0}))
      (visits : (flags : ReadOnly) (a : ℕ) → Keeps HasFrame (visit flags a) Any)
      (hidden_visits : (st0 : S × Heap) (a : ℕ)
        → Keeps (λ st. st ≡ st0) (visit sticky_ro a) Any) where
    hidden-Frame :
        (b : Bool) (v : Value)
        → Keeps HasFrame
            (walk_value p kwt visit (record { addressable = b; flags = sticky_ro }) v)
            (λ v'. v' ≡ v)
    hidden-Frame b v st i r e =
        let (same, rest) = walk_value-Same p kwt st visit (hidden_visits st) b v st refl r e in
        (same, ap (λ st'. frame_heap st'.1) rest ∙ i)

    unexported-Frame :
        (acc : Access) (v : Value)
        → Keeps HasFrame
            (walk_value p kwt visit (record acc { flags = field_ro acc.flags unexported }) v)
            (λ v'. v' ≡ v)
    unexported-Frame acc v = rw (unexported_ro acc.flags) (hidden-Frame acc.addressable v)

    visit_if_any-Frame :
        (flags : ReadOnly) (a : Option ℕ) → Keeps HasFrame (visit_if_any p kwt visit flags a) Any
    unfolding visit_if_any
    visit_if_any-Frame flags none = pure-Keeps HasFrame tt Any tt
    visit_if_any-Frame flags (some a) = visits flags a

    reference-Frame :
        (flags : ReadOnly) (a : Option ℕ) (v : Value)
        → Keeps HasFrame
            (visit_if_any p kwt visit flags a >>= λ done. pure v)
            (λ v'. frame v' ≡ frame v)
    reference-Frame flags a v =
        use-Keeps HasFrame (visit_if_any p kwt visit flags a) (λ done. v) Any _
          (visit_if_any-Frame flags a) (λ done x. refl)

    mutual
      unfolding walk_value walk_fields walk_values frame frame_fields frame_values

      walk_value-Frame :
          (acc : Access) (v : Value)
          → Keeps HasFrame (walk_value p kwt visit acc v) (λ v'. frame v' ≡ frame v)
      walk_value-Frame acc (text s) =
          use-Keeps HasFrame (walk_text p kwt acc s) text Any _ (walk_text-Frame acc s)
            (λ s' x. refl)
      walk_value-Frame acc (other n) = pure-Keeps HasFrame (other n) _ refl
      walk_value-Frame acc (struct_of fs) =
          use-Keeps HasFrame (walk_fields p kwt visit acc fs) struct_of _ _
            (walk_fields-Frame acc fs) (λ fs' x. ap struct_of x)
      walk_value-Frame acc (array_of vs) =
          use-Keeps HasFrame _ array_of _ _ (walk_values-Frame _ vs) (λ vs' x. ap array_of x)
      walk_value-Frame acc (slice_at a) = reference-Frame _ a (slice_at a)
      walk_value-Frame acc (map_at a) = reference-Frame _ a (map_at a)
      walk_value-Frame acc (pointer a) = reference-Frame _ a (pointer a)
      walk_value-Frame acc nil_interface = pure-Keeps HasFrame nil_interface _ refl
      walk_value-Frame acc (interface_of v) =
          let inside =
            use-Keeps HasFrame _ interface_of _ (λ v'. frame v' ≡ frame (interface_of v))
              (walk_value-Frame fresh v) (λ v' x. ap interface_of x) in
          elim (Bool-cases (can_set acc)) [
            | inl yes_set ↦ rw yes_set inside
            | inr not_set ↦ rw not_set (pure-Keeps HasFrame (interface_of v) _ refl)
          ]

      walk_fields-Frame :
          (acc : Access) (fs : Fields)
          → Keeps HasFrame
              (walk_fields p kwt visit acc fs)
              (λ fs'. frame_fields fs' ≡ frame_fields fs)
      walk_fields-Frame acc no_fields = pure-Keeps HasFrame no_fields _ refl
      walk_fields-Frame acc (field exported v fs) =
          >>=-Keeps HasFrame _ _ _ _ (walk_value-Frame _ v) λ v' x.
            use-Keeps HasFrame _ (field exported v') _ _ (walk_fields-Frame acc fs)
              λ fs' y. ap₂ (field exported) x y
      walk_fields-Frame acc (field embedded_unexported v fs) =
          >>=-Keeps HasFrame _ _ _ _ (walk_value-Frame _ v) λ v' x.
            use-Keeps HasFrame _ (field embedded_unexported v') _ _ (walk_fields-Frame acc fs)
              λ fs' y. ap₂ (field embedded_unexported) x y
      walk_fields-Frame acc (field unexported v fs) =
          >>=-Keeps HasFrame _ _ _ _ (unexported-Frame acc v) λ v' x.
            use-Keeps HasFrame _ (field unexported v') _ _ (walk_fields-Frame acc fs)
              λ fs' y. ap₂ (field unexported) x y

      walk_values-Frame :
          (acc : Access) (vs : Values)
          → Keeps HasFrame
              (walk_values p kwt visit acc vs)
              (λ vs'. frame_values vs' ≡ frame_values vs)
      walk_values-Frame acc no_values = pure-Keeps HasFrame no_values _ refl
      walk_values-Frame acc (element v vs) =
          >>=-Keeps HasFrame _ _ _ _ (walk_value-Frame acc v) λ v' x.
            use-Keeps HasFrame _ (element v') _ _ (walk_values-Frame acc vs)
              λ vs' y. ap₂ element x y

    walk_entries-Frame :
        (flags : ReadOnly) (es : List (Bytes × Value))
        → Keeps HasFrame
            (walk_entries p kwt visit flags es)
            (λ es'. frame_entries es' ≡ frame_entries es)
    unfolding walk_entries frame_entries
    walk_entries-Frame flags [] = pure-Keeps HasFrame [] _ refl
    walk_entries-Frame flags ((k, v) ∷ es) =
        let both =
          >>=-Keeps HasFrame _ _ _ (λ es'. frame_entries es' ≡ frame_entries ((k, v) ∷ es))
            (walk_value-Frame fresh v)
            λ v' x.
              use-Keeps HasFrame _ (λ es'. (k, v') ∷ es') _ _ (walk_entries-Frame flags es)
                λ es' y. ap₂ (λ first rest. (k, first) ∷ rest) x y in
        elim (Bool-cases (is_writable flags)) [
          | inl free ↦ rw free both
          | inr hidden ↦ rw hidden (λ st i r e. absurd (cc))
        ]

    walk_object-Frame :
        (flags : ReadOnly) (o : Object)
        → Keeps HasFrame (walk_object p kwt visit flags o) (λ o'. frame_object o' ≡ frame_object o)
    unfolding walk_object frame_object
    walk_object-Frame flags (variable v) =
        use-Keeps HasFrame _ variable _ _ (walk_value-Frame _ v) (λ v' x. ap variable x)
    walk_object-Frame flags (elements vs) =
        use-Keeps HasFrame _ elements _ _ (walk_values-Frame _ vs) (λ vs' x. ap elements x)
    walk_object-Frame flags (entries es) =
        use-Keeps HasFrame _ entries _ _ (walk_entries-Frame flags es) (λ es' x. ap entries x)

  load-Frame : (a : ℕ) → Keeps HasFrame (load a) (λ o. get_elem? H a ≡ some (frame_object o))
  load-Frame a st i o e = (rw (← i) (get_elem?-frame st.1 a o (deref-eq-ok _ e)), i)

  store-Frame :
      (a : ℕ) (o : Object) → get_elem? H a ≡ some (frame_object o) → Keeps HasFrame (store a o) Any
  store-Frame a o there st i done e = (tt, frame-update st.1 a o (rw i there) ∙ i)

  walk_at-Frame :
      (fuel : ℕ) (flags : ReadOnly) (a : ℕ) → Keeps HasFrame (walk_at p kwt fuel flags a) Any
  unfolding walk_at
  walk_at-Frame zero flags a = λ st i r e. absurd (cc)
  walk_at-Frame (suc fuel) flags a = >>=-Keeps HasFrame (load a) _ _ Any (load-Frame a) λ o there.
      >>=-Keeps HasFrame _ _ _ Any
        (walk_object-Frame (walk_at p kwt fuel) (walk_at-Frame fuel)
          (λ st0. walk_at-Same p kwt st0 fuel) flags o)
        λ o' same. store-Frame a o' (there ∙ ap some (sym same))

-- The walk of any location, by whatever fields it was reached, if it returns, leaves every field that
-- is declared unexported and is not embedded with all that it held, in the value and in every object of
-- the heap, and of everything else changes nothing but the contents of strings.
pub decrypt-frame :
    {S : Type 0} (p : Packages S) (kwt : KeyWithType) (fuel : ℕ) (acc : Access) (v : Value) (t : S)
    (h : Heap) (r : Value)
    → (decrypt_string_vars_in p kwt fuel acc v (t, h)).0 ≡ ok r
    → (frame r ≡ frame v)
      × (frame_heap (decrypt_string_vars_in p kwt fuel acc v (t, h)).1.1 ≡ frame_heap h)
unfolding decrypt_string_vars_in
decrypt-frame p kwt fuel acc v t h =
    walk_value-Frame p kwt (frame_heap h) (walk_at p kwt fuel)
      (walk_at-Frame p kwt (frame_heap h) fuel) (λ st0. walk_at-Same p kwt st0 fuel) acc v (t, h)
      refl
