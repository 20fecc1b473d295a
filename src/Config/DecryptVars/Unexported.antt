-- ===== src/Config/DecryptVars/Unexported.antt =====
-- What is reached by an unexported field that is not embedded is never changed: neither the value, nor
-- the heap, nor the state of the random generator.
use go_encrypted_config_valu.Base.{
  ℕ, zero, suc, Bool, true, false, [], ◌∷◌, Option, none, some, Bytes, get_elem?, ◌≡◌, refl, sym,
  ap, ap₂, ◌∙◌,
}
use go_encrypted_config_valu.Base.Outcome.{deref-eq-ok}
use go_encrypted_config_valu.External.{Packages}
use go_encrypted_config_valu.Encryption.Exec.{Exec, ◌>>=◌, pure}
use go_encrypted_config_valu.Encryption.Exec.Keeps.{Keeps, pure-Keeps, >>=-Keeps, use-Keeps}
use go_encrypted_config_valu.Config.GoValue.{
  Value, text, other, struct_of, array_of, slice_at, map_at, pointer, nil_interface, interface_of,
  Fields, no_fields, field, Values, no_values, element, Object, variable, elements, entries, Heap,
  update, ReadOnly, sticky_ro, Access, can_set,
}
use go_encrypted_config_valu.Config.KeyPair.{KeyWithType}
use go_encrypted_config_valu.Config.DecryptVars.{
  load, walk_text, visit_if_any, walk_value, walk_fields, walk_values, walk_entries, walk_object,
  walk_at,
}

abbrev hidden : Bool → Access
hidden addressable = record { addressable = addressable; flags = sticky_ro }

no_set : (b : Bool) → can_set (hidden b) ≡ false
no_set true = refl
no_set false = refl

update_same : (h : Heap) (a : ℕ) (o : Object) → get_elem? h a ≡ some o → update h a o ≡ h
update_same [] a o e = refl
update_same (x ∷ h) zero o e = let same : x ≡ o = cc in ap (λ y. y ∷ h) (sym same)
update_same (x ∷ h) (suc a) o e = ap (λ y. x ∷ y) (update_same h a o e)

module _ {S : Type 0} (p : Packages S) (kwt : KeyWithType) (st0 : S × Heap) where
  -- Nothing has been changed, neither the heap nor the state of the generator.
  abbrev Same : S × Heap → Type 0
  Same st = st ≡ st0

  abbrev Any : {A : Type 0} → A → Type 0
  Any a = Unit {0}

  walk_text-Same : (b : Bool) (s : Bytes) → Keeps Same (walk_text p kwt (hidden b) s) (λ s'. s' ≡ s)
  unfolding walk_text
  walk_text-Same b s = rw (no_set b) (pure-Keeps Same s _ refl)

  module _ (visit : ReadOnly → ℕ → Exec (S × Heap) (Unit {0}))
      (visits : (a : ℕ) → Keeps Same (visit sticky_ro a) Any) where
    reference-Same :
        (a : Option ℕ) (v : Value)
        → Keeps Same (visit_if_any p kwt visit sticky_ro a >>= λ done. pure v) (λ v'. v' ≡ v)
    unfolding visit_if_any
    reference-Same none v = pure-Keeps Same v _ refl
    reference-Same (some a) v =
        use-Keeps Same (visit sticky_ro a) (λ done. v) Any _ (visits a) (λ done x. refl)

    mutual
      unfolding walk_value walk_fields walk_values

      pub walk_value-Same :
          (b : Bool) (v : Value) → Keeps Same (walk_value p kwt visit (hidden b) v) (λ v'. v' ≡ v)
      walk_value-Same b (text s) =
          use-Keeps Same _ text _ _ (walk_text-Same b s) (λ s' x. ap text x)
      walk_value-Same b (other n) = pure-Keeps Same (other n) _ refl
      walk_value-Same b (struct_of fs) =
          use-Keeps Same _ struct_of _ _ (walk_fields-Same b fs) (λ fs' x. ap struct_of x)
      walk_value-Same b (array_of vs) =
          use-Keeps Same _ array_of _ _ (walk_values-Same b vs) (λ vs' x. ap array_of x)
      walk_value-Same b (slice_at a) = reference-Same a (slice_at a)
      walk_value-Same b (map_at a) = reference-Same a (map_at a)
      walk_value-Same b (pointer a) = reference-Same a (pointer a)
      walk_value-Same b nil_interface = pure-Keeps Same nil_interface _ refl
      walk_value-Same b (interface_of v) = rw (no_set b) (pure-Keeps Same (interface_of v) _ refl)

      walk_fields-Same :
          (b : Bool) (fs : Fields)
          → Keeps Same (walk_fields p kwt visit (hidden b) fs) (λ fs'. fs' ≡ fs)
      walk_fields-Same b no_fields = pure-Keeps Same no_fields _ refl
      walk_fields-Same b (field visibility v fs) =
          >>=-Keeps Same _ _ _ _ (walk_value-Same b v) λ v' x.
            use-Keeps Same _ (field visibility v') _ _ (walk_fields-Same b fs)
              λ fs' y. ap₂ (field visibility) x y

      walk_values-Same :
          (b : Bool) (vs : Values)
          → Keeps Same (walk_values p kwt visit (hidden b) vs) (λ vs'. vs' ≡ vs)
      walk_values-Same b no_values = pure-Keeps Same no_values _ refl
      walk_values-Same b (element v vs) =
          >>=-Keeps Same _ _ _ _ (walk_value-Same b v) λ v' x.
            use-Keeps Same _ (element v') _ _ (walk_values-Same b vs) λ vs' y. ap₂ element x y

    walk_object-Same :
        (o : Object) → Keeps Same (walk_object p kwt visit sticky_ro o) (λ o'. o' ≡ o)
    unfolding walk_object walk_entries
    walk_object-Same (variable v) =
        use-Keeps Same _ variable _ _ (walk_value-Same true v) (λ v' x. ap variable x)
    walk_object-Same (elements vs) =
        use-Keeps Same _ elements _ _ (walk_values-Same true vs) (λ vs' x. ap elements x)
    walk_object-Same (entries []) = pure-Keeps Same (entries []) _ refl
    walk_object-Same (entries ((k, v) ∷ es)) = λ st i r e. absurd (cc)

  pub walk_at-Same : (fuel a : ℕ) → Keeps Same (walk_at p kwt fuel sticky_ro a) Any
  unfolding walk_at
  walk_at-Same zero a = λ st i r e. absurd (cc)
  walk_at-Same (suc fuel) a =
      >>=-Keeps Same (load a) _ (λ o. get_elem? st0.1 a ≡ some o) Any
        (λ st i o e. (rw (← i) (deref-eq-ok _ e), i))
        λ o there.
          >>=-Keeps Same _ _ _ Any (walk_object-Same (walk_at p kwt fuel) (walk_at-Same fuel) o)
            λ o' same. λ st i done e.
              (tt, ap (λ h. (st.0, h)) (rw same (update_same st.1 a o (rw i there))) ∙ i)
