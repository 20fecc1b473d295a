-- ===== src/Config/DecryptVars/HiddenMap.antt =====
-- Maps in fields that are not exported: the walk of a struct that has one, if the map is not empty.
use go_encrypted_config_valu.Base.{
  ℕ, zero, suc, false, List, [], ◌∷◌, some, Bytes, get_elem?, ◌≡◌, ◌≢◌, ◌∙◌, ap, refl,
}
use go_encrypted_config_valu.Base.Outcome.{ok, panic}
use go_encrypted_config_valu.External.{Packages}
use go_encrypted_config_valu.Encryption.Exec.{Exec, >>=-eq-ok}
use go_encrypted_config_valu.Config.GoValue.{
  Value, struct_of, map_at, pointer, Fields, no_fields, field, Visibility, exported, unexported,
  embedded_unexported, Object, variable, elements, entries, Heap, ReadOnly, writable, embed_ro,
  sticky_ro, ro, field_ro, is_writable, Access,
}
use go_encrypted_config_valu.Config.KeyPair.{KeyWithType}
use go_encrypted_config_valu.Config.DecryptVars.{
  fresh, visit_if_any, walk_value, walk_fields, walk_entries, walk_object, walk_at, decrypt_in,
  decrypt_string_vars_in,
}
use go_encrypted_config_valu.Config.DecryptVars.Shape.{
  shape, shape_entries, shape_object, shape_heap, get_elem?-shape, walk_fields-Keeps, walk_at-Keeps,
}

-- The fields of the first list in front of those of the second.
abbrev pub in_front : Fields → Fields → Fields
in_front no_fields rest = rest
in_front (field visibility v fs) rest = field visibility v (in_front fs rest)

-- No field that is not exported gives flags that can be written to, and no element of it does.
not_writable :
    (flags : ReadOnly) (visibility : Visibility)
    → visibility ≢ exported
    → is_writable (ro (field_ro flags visibility)) ≡ false
not_writable flags exported h = absurd (h refl)
not_writable writable unexported h = refl
not_writable embed_ro unexported h = refl
not_writable sticky_ro unexported h = refl
not_writable writable embedded_unexported h = refl
not_writable embed_ro embedded_unexported h = refl
not_writable sticky_ro embedded_unexported h = refl

-- An address of a heap has a map that is not empty.
HasEntries : Heap → ℕ → Type 0
HasEntries h a =
    (k : Bytes) × (v : Value) × (es : List (Bytes × Value)) × (get_elem? h a
      ≡ some (entries ((k, v) ∷ es)))

get_elem?-of_shape :
    (h : Heap) (a : ℕ) (y : Object)
    → get_elem? (shape_heap h) a ≡ some y
    → (o : Object) × (get_elem? h a ≡ some o) × (shape_object o ≡ y)
get_elem?-of_shape [] a y e = absurd (cc)
get_elem?-of_shape (x ∷ h) zero y e = (x, refl, cc)
get_elem?-of_shape (x ∷ h) (suc a) y e = get_elem?-of_shape h a y e

-- Heaps of one shape have maps that are not empty at the same addresses.
HasEntries-shape :
    (h h' : Heap) (a : ℕ) → shape_heap h' ≡ shape_heap h → HasEntries h a → HasEntries h' a
unfolding HasEntries shape_object shape_entries
HasEntries-shape h h' a same (k, v, es, there) =
    let (o, found, is_map) =
      get_elem?-of_shape h' a _ (ap (λ g. get_elem? g a) same ∙ get_elem?-shape h a _ there) in
    cases o found is_map
  where
    cases :
        (o : Object)
        → get_elem? h' a ≡ some o
        → shape_object o ≡ entries ((k, shape v) ∷ shape_entries es)
        → HasEntries h' a
    cases (variable w) found is_map = absurd (cc)
    cases (elements ws) found is_map = absurd (cc)
    cases (entries []) found is_map = absurd (cc)
    cases (entries ((k', v') ∷ es')) found is_map = (k', v', es', found)

module _ {S : Type 0} (p : Packages S) (kwt : KeyWithType) where
  map_panics :
      (fuel a : ℕ) (acc : Access) (visibility : Visibility) (after : Fields) (st : S × Heap)
      → visibility ≢ exported
      → HasEntries st.1 a
      → (walk_fields p kwt
          (walk_at p kwt (suc fuel))
          acc
          (field visibility (map_at (some a)) after)
          st).0
        ≡ panic
  unfolding HasEntries walk_fields walk_value visit_if_any walk_at walk_object walk_entries
  map_panics fuel a acc visibility after st hidden (k, v, es, there) =
      rw (there, not_writable acc.flags visibility hidden) refl

  -- What panics behind fields whose walk returns makes the walk of all the fields panic.
  walk_fields_panics :
      (visit : ReadOnly → ℕ → Exec (S × Heap) (Unit {0})) (acc : Access) (before rest : Fields)
      (st : S × Heap) (done : Fields)
      → (walk_fields p kwt visit acc before st).0 ≡ ok done
      → (walk_fields p kwt visit acc rest (walk_fields p kwt visit acc before st).1).0 ≡ panic
      → (walk_fields p kwt visit acc (in_front before rest) st).0 ≡ panic
  unfolding walk_fields
  walk_fields_panics visit acc no_fields rest st done e h = h
  walk_fields_panics visit acc (field visibility v fs) rest st done e h =
      let first = walk_value p kwt visit (record acc { flags = field_ro acc.flags visibility }) v in
      let (v', run, next) = >>=-eq-ok first _ st e in
      let (fs', others, last) = >>=-eq-ok (walk_fields p kwt visit acc fs) _ (first st).1 next in
      rw run (
        rw (walk_fields_panics visit acc fs rest (first st).1 fs' others (rw (run, others) at h))
          refl)

  -- DecryptEncryptedStringVariables of a pointer to a struct panics, if a field of the struct that is not
  -- exported, an embedded one or another, has a map that is not empty, and the walk of the fields before
  -- it returns.
  pub decrypt_in-hidden_map :
      (fuel a b : ℕ) (before after done : Fields) (visibility : Visibility) (k : Bytes) (v : Value)
      (es : List (Bytes × Value)) (t : S) (h : Heap)
      → visibility ≢ exported
      → get_elem? h a ≡ some (entries ((k, v) ∷ es))
      → get_elem? h b
        ≡ some (variable (struct_of (in_front before (field visibility (map_at (some a)) after))))
      → (walk_fields p kwt (walk_at p kwt (suc fuel)) fresh before (t, h)).0 ≡ ok done
      → (decrypt_in p kwt (suc (suc fuel)) (pointer (some b)) (t, h)).0 ≡ panic
  unfolding decrypt_in decrypt_string_vars_in walk_value visit_if_any walk_at walk_object HasEntries
  decrypt_in-hidden_map fuel a b before after done visibility k v es t h hidden there struct_there
        returned =
      let visit = walk_at p kwt (suc fuel) in
      let (same_fields, same) =
        walk_fields-Keeps p kwt (shape_heap h) visit (walk_at-Keeps p kwt (shape_heap h) (suc fuel))
          fresh before (t, h) refl done returned in
      let st = (walk_fields p kwt visit fresh before (t, h)).1 in
      let still = HasEntries-shape h st.1 a same (k, v, es, there) in
      rw
        (
          struct_there,
          walk_fields_panics visit fresh before (field visibility (map_at (some a)) after) (t, h)
              done returned (map_panics fuel a fresh visibility after st hidden still),
        )
        refl
