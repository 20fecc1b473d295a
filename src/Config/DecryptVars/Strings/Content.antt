-- ===== src/Config/DecryptVars/Strings/Content.antt =====
-- The strings of Go values, and what one or more decryptions make of them.
use go_encrypted_config_valu.Base.{
  ℕ, zero, suc, List, [], ◌∷◌, ◌++◌, some, Bytes, get_elem?, ◌≡◌, true, subst,
}
use go_encrypted_config_valu.Base.Outcome.{ok}
use go_encrypted_config_valu.Base.Pairwise.{Pairwise, Pairwise-refl}
use go_encrypted_config_valu.External.{Packages}
use go_encrypted_config_valu.Config.GoValue.{
  Value, text, other, struct_of, array_of, slice_at, map_at, pointer, nil_interface, interface_of,
  Fields, no_fields, field, Values, no_values, element, Object, variable, elements, entries, Heap,
  update,
}
use go_encrypted_config_valu.Config.KeyPair.{KeyWithType}
use go_encrypted_config_valu.Config.StringVars.{contains_string_vars, decrypt_all_string_vars}

-- The strings of a value and of an object, in order, without what its references refer to.
unfoldable mutual
  pub strings : Value → List Bytes
  strings (text s) = s ∷ []
  strings (struct_of fs) = strings_fields fs
  strings (array_of vs) = strings_values vs
  strings (interface_of v) = strings v
  strings (other n) = []
  strings (slice_at a) = []
  strings (map_at a) = []
  strings (pointer a) = []
  strings nil_interface = []

  pub strings_fields : Fields → List Bytes
  strings_fields no_fields = []
  strings_fields (field visibility v fs) = strings v ++ strings_fields fs

  pub strings_values : Values → List Bytes
  strings_values no_values = []
  strings_values (element v vs) = strings v ++ strings_values vs

unfoldable pub strings_entries : List (Bytes × Value) → List Bytes
strings_entries [] = []
strings_entries ((k, v) ∷ es) = strings v ++ strings_entries es

unfoldable pub strings_object : Object → List Bytes
strings_object (variable v) = strings v
strings_object (elements vs) = strings_values vs
strings_object (entries es) = strings_entries es

module _ {S : Type 0} (p : Packages S) (kwt : KeyWithType) where
  -- The second text is what decryptions of the first one, none or some, have made of it. A text is
  -- decrypted only if it has variables.
  pub data Decrypts : Bytes → Bytes → Type 0 where
    same : (s : Bytes) → Decrypts s s
    decryption :
        (s s' s'' : Bytes) (t : S)
        → contains_string_vars s ≡ true
        → (decrypt_all_string_vars p kwt s t).0 ≡ ok s'
        → Decrypts s' s''
        → Decrypts s s''

  pub Decrypts-trans : (s s' s'' : Bytes) → Decrypts s s' → Decrypts s' s'' → Decrypts s s''
  Decrypts-trans s s' s'' (same _) k = k
  Decrypts-trans s s' s'' (decryption _ r _ t found run h) k =
      decryption s r s'' t found run (Decrypts-trans r s' s'' h k)

  abbrev pub AllDecrypt : List Bytes → List Bytes → Type 0
  AllDecrypt = Pairwise Decrypts

  -- The strings of an object come from those of another.
  abbrev pub ObjectDecrypts : Object → Object → Type 0
  ObjectDecrypts before after = AllDecrypt (strings_object before) (strings_object after)

  abbrev pub HeapDecrypts : Heap → Heap → Type 0
  HeapDecrypts = Pairwise ObjectDecrypts

  pub all_same : (ss : List Bytes) → AllDecrypt ss ss
  all_same = Pairwise-refl Decrypts same

  pub HeapDecrypts-update :
      (H h : Heap) (a : ℕ) (before after : Object)
      → get_elem? H a ≡ some before
      → ObjectDecrypts before after
      → HeapDecrypts H h
      → HeapDecrypts H (update h a after)
  unfolding Pairwise
  HeapDecrypts-update [] [] a before after there d i = i
  HeapDecrypts-update (x ∷ H) (y ∷ h) zero before after there d (r, i) =
      let is_x : before ≡ x = cc in (subst (λ o. ObjectDecrypts o after) is_x d, i)
  HeapDecrypts-update (x ∷ H) (y ∷ h) (suc a) before after there d (r, i) =
      (r, HeapDecrypts-update H h a before after there d i)
  HeapDecrypts-update [] (y ∷ h) a before after there d i = absurd i
  HeapDecrypts-update (x ∷ H) [] a before after there d i = absurd i
