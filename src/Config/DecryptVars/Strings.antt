-- ===== src/Config/DecryptVars/Strings.antt =====
-- What the walk makes of strings: each of them is decrypted, perhaps several times, or left as it is.
pub mod Content
use go_encrypted_config_valu.Base.{
  ℕ, zero, suc, Bool-cases, List, [], ◌∷◌, ◌++◌, Option, none, some, Bytes, get_elem?, ◌≡◌, true,
  inl, inr, subst,
}
use go_encrypted_config_valu.Base.Outcome.{ok, deref-eq-ok}
use go_encrypted_config_valu.Base.Pairwise.{
  Pairwise, Pairwise-append, Pairwise-get_elem?, Pairwise-refl, Pairwise-trans,
}
use go_encrypted_config_valu.External.{Packages}
use go_encrypted_config_valu.Encryption.Exec.{Exec, ◌>>=◌, pure}
use go_encrypted_config_valu.Encryption.Exec.Keeps.{Keeps, pure-Keeps, >>=-Keeps, use-Keeps}
use go_encrypted_config_valu.Config.GoValue.{
  Value, text, other, struct_of, array_of, slice_at, map_at, pointer, nil_interface, interface_of,
  Fields, no_fields, field, Values, no_values, element, Object, variable, elements, entries, Heap,
  update, ReadOnly, is_writable, Access, can_set,
}
use go_encrypted_config_valu.Config.KeyPair.{KeyWithType}
use go_encrypted_config_valu.Config.StringVars.{contains_string_vars, decrypt_all_string_vars}
use go_encrypted_config_valu.Config.DecryptVars.{
  fresh, load, store, walk_text, visit_if_any, walk_value, walk_fields, walk_values, walk_entries,
  walk_object, walk_at, decrypt_string_vars_in,
}
use go_encrypted_config_valu.Config.DecryptVars.Strings.Content.{
  strings, strings_fields, strings_values, strings_entries, strings_object, Decrypts, same,
  decryption, AllDecrypt, ObjectDecrypts, HeapDecrypts, all_same, Decrypts-trans,
  HeapDecrypts-update,
}

module _ {S : Type 0} (p : Packages S) (kwt : KeyWithType) where
  module _ (H : Heap) where
    -- The heap comes from the heap `H`.
    abbrev I : S × Heap → Type 0
    I st = HeapDecrypts p kwt H st.1

    abbrev Any : {A : Type 0} → A → Type 0
    Any a = Unit {0}

    walk_text-Decrypts :
        (acc : Access) (s : Bytes) → Keeps I (walk_text p kwt acc s) (Decrypts p kwt s)
    unfolding walk_text
    walk_text-Decrypts acc s = elim (Bool-cases (can_set acc)) [
      | inl yes_set ↦ elim (Bool-cases (contains_string_vars s)) [
        | inl found ↦ rw (yes_set, found) (λ st i r e. (decryption s r r st.0 found e (same r), i))
        | inr missing ↦ rw (yes_set, missing) (pure-Keeps I s (Decrypts p kwt s) (same s))
      ]
      | inr not_set ↦ rw not_set (pure-Keeps I s (Decrypts p kwt s) (same s))
    ]

    module _ (visit : ReadOnly → ℕ → Exec (S × Heap) (Unit {0}))
        (visits : (flags : ReadOnly) (a : ℕ) → Keeps I (visit flags a) Any) where
      reference-Decrypts :
          (flags : ReadOnly) (a : Option ℕ) (v : Value)
          → Keeps I
              (visit_if_any p kwt visit flags a >>= λ done. pure v)
              (λ v'. AllDecrypt p kwt (strings v) (strings v'))
      unfolding visit_if_any
      reference-Decrypts flags none v = pure-Keeps I v _ (all_same p kwt (strings v))
      reference-Decrypts flags (some a) v =
          use-Keeps I (visit flags a) (λ done. v) Any _ (visits flags a)
            (λ done x. all_same p kwt (strings v))

      mutual
        unfolding walk_value walk_fields walk_values strings strings_fields strings_values Pairwise

        walk_value-Decrypts :
            (acc : Access) (v : Value)
            → Keeps I
                (walk_value p kwt visit acc v)
                (λ v'. AllDecrypt p kwt (strings v) (strings v'))
        walk_value-Decrypts acc (text s) =
            use-Keeps I _ text _ _ (walk_text-Decrypts acc s) (λ s' x. (x, tt))
        walk_value-Decrypts acc (other n) = pure-Keeps I (other n) _ tt
        walk_value-Decrypts acc (struct_of fs) =
            use-Keeps I _ struct_of _ _ (walk_fields-Decrypts acc fs) (λ fs' x. x)
        walk_value-Decrypts acc (array_of vs) =
            use-Keeps I _ array_of _ _ (walk_values-Decrypts _ vs) (λ vs' x. x)
        walk_value-Decrypts acc (slice_at a) = reference-Decrypts _ a (slice_at a)
        walk_value-Decrypts acc (map_at a) = reference-Decrypts _ a (map_at a)
        walk_value-Decrypts acc (pointer a) = reference-Decrypts _ a (pointer a)
        walk_value-Decrypts acc nil_interface = pure-Keeps I nil_interface _ tt
        walk_value-Decrypts acc (interface_of v) =
            let inside =
              use-Keeps I _ interface_of _ (λ v'. AllDecrypt p kwt (strings v) (strings v'))
                (walk_value-Decrypts fresh v) (λ v' x. x) in
            elim (Bool-cases (can_set acc)) [
              | inl yes_set ↦ rw yes_set inside
              | inr not_set ↦
                  rw not_set (pure-Keeps I (interface_of v) _ (all_same p kwt (strings v)))
            ]

        walk_fields-Decrypts :
            (acc : Access) (fs : Fields)
            → Keeps I
                (walk_fields p kwt visit acc fs)
                (λ fs'. AllDecrypt p kwt (strings_fields fs) (strings_fields fs'))
        walk_fields-Decrypts acc no_fields = pure-Keeps I no_fields _ tt
        walk_fields-Decrypts acc (field visibility v fs) =
            >>=-Keeps I _ _ _ _ (walk_value-Decrypts _ v) λ v' x.
              use-Keeps I _ (field visibility v') _ _ (walk_fields-Decrypts acc fs) λ fs' y.
                Pairwise-append (Decrypts p kwt) (strings v) (strings_fields fs) (strings v')
                  (strings_fields fs') x y

        walk_values-Decrypts :
            (acc : Access) (vs : Values)
            → Keeps I
                (walk_values p kwt visit acc vs)
                (λ vs'. AllDecrypt p kwt (strings_values vs) (strings_values vs'))
        walk_values-Decrypts acc no_values = pure-Keeps I no_values _ tt
        walk_values-Decrypts acc (element v vs) =
            >>=-Keeps I _ _ _ _ (walk_value-Decrypts acc v) λ v' x.
              use-Keeps I _ (element v') _ _ (walk_values-Decrypts acc vs) λ vs' y.
                Pairwise-append (Decrypts p kwt) (strings v) (strings_values vs) (strings v')
                  (strings_values vs') x y

      walk_entries-Decrypts :
          (flags : ReadOnly) (es : List (Bytes × Value))
          → Keeps I
              (walk_entries p kwt visit flags es)
              (λ es'. AllDecrypt p kwt (strings_entries es) (strings_entries es'))
      unfolding walk_entries strings_entries Pairwise
      walk_entries-Decrypts flags [] = pure-Keeps I [] _ tt
      walk_entries-Decrypts flags ((k, v) ∷ es) =
          let both =
            >>=-Keeps I _ _ _
              (λ es'. AllDecrypt p kwt (strings v ++ strings_entries es) (strings_entries es'))
              (walk_value-Decrypts fresh v)
              λ v' x.
                use-Keeps I _ (λ es'. (k, v') ∷ es') _ _ (walk_entries-Decrypts flags es)
                  λ es' y.
                    Pairwise-append (Decrypts p kwt) (strings v) (strings_entries es) (strings v')
                      (strings_entries es') x y in
          elim (Bool-cases (is_writable flags)) [
            | inl free ↦ rw free both
            | inr hidden ↦ rw hidden (λ st i r e. absurd (cc))
          ]

      walk_object-Decrypts :
          (flags : ReadOnly) (o : Object)
          → Keeps I (walk_object p kwt visit flags o) (ObjectDecrypts p kwt o)
      unfolding walk_object strings_object
      walk_object-Decrypts flags (variable v) =
          use-Keeps I _ variable _ _ (walk_value-Decrypts _ v) (λ v' x. x)
      walk_object-Decrypts flags (elements vs) =
          use-Keeps I _ elements _ _ (walk_values-Decrypts _ vs) (λ vs' x. x)
      walk_object-Decrypts flags (entries es) =
          use-Keeps I _ entries _ _ (walk_entries-Decrypts flags es) (λ es' x. x)

    -- An object of the heap that comes from one in the same place of `H`.
    record ComesFrom (a : ℕ) (o : Object) : Type 0 where
      before : Object
      there : get_elem? H a ≡ some before
      comes : ObjectDecrypts p kwt before o

    load-Decrypts : (a : ℕ) → Keeps I (load a) (ComesFrom a)
    load-Decrypts a st i o e =
        let (before, there, comes) =
          Pairwise-get_elem? (ObjectDecrypts p kwt) H st.1 a o i (deref-eq-ok _ e) in
        (record { before = before; there = there; comes = comes }, i)

    store-Decrypts : (a : ℕ) (o : Object) → ComesFrom a o → Keeps I (store a o) Any
    store-Decrypts a o from st i done e =
        (tt, HeapDecrypts-update p kwt H st.1 a from.before o from.there from.comes i)

    walk_at-Decrypts :
        (fuel : ℕ) (flags : ReadOnly) (a : ℕ) → Keeps I (walk_at p kwt fuel flags a) Any
    unfolding walk_at
    walk_at-Decrypts zero flags a = λ st i r e. absurd (cc)
    walk_at-Decrypts (suc fuel) flags a = >>=-Keeps I (load a) _ _ Any (load-Decrypts a) λ o from.
        >>=-Keeps I _ _ _ Any
          (walk_object-Decrypts (walk_at p kwt fuel) (walk_at-Decrypts fuel) flags o)
          λ o' d. store-Decrypts a o' (record {
            before = from.before;
            there = from.there;
            comes =
                Pairwise-trans (Decrypts p kwt) (Decrypts-trans p kwt) (strings_object from.before)
                  (strings_object o) (strings_object o') from.comes d;
          })

  -- Whatever the heap, with shared objects too: if the walk of a location returns, each string of the
  -- value and of every object of the heap is the string that was there before, or what one or more
  -- decryptions have made of it, and only a string that has variables is decrypted.
  pub decrypt-HeapDecrypts :
      (fuel : ℕ) (acc : Access) (v : Value) (t : S) (h : Heap) (r : Value)
      → (decrypt_string_vars_in p kwt fuel acc v (t, h)).0 ≡ ok r
      → AllDecrypt p kwt (strings v) (strings r)
        × HeapDecrypts p kwt h (decrypt_string_vars_in p kwt fuel acc v (t, h)).1.1
  unfolding decrypt_string_vars_in
  decrypt-HeapDecrypts fuel acc v t h =
      walk_value-Decrypts h (walk_at p kwt fuel) (walk_at-Decrypts h fuel) acc v (t, h)
        (Pairwise-refl (ObjectDecrypts p kwt) (λ o. all_same p kwt (strings_object o)) h)
