-- ===== src/Config/DecryptVars/Referred.antt =====
-- DecryptEncryptedStringVariables of a pointer, a slice or a map against a function on objects.
use go_encrypted_config_valu.Base.{
  ℕ, suc, List, [], ◌∷◌, Option, none, some, Bytes, get_elem?, ◌≡◌, refl,
}
use go_encrypted_config_valu.Base.Outcome.{ok}
use go_encrypted_config_valu.External.{Packages}
use go_encrypted_config_valu.Encryption.Exec.{Exec}
use go_encrypted_config_valu.Config.GoValue.{
  Value, text, other, struct_of, array_of, slice_at, map_at, pointer, nil_interface, interface_of,
  Object, variable, elements, entries, Heap, update, ReadOnly, writable,
}
use go_encrypted_config_valu.Config.KeyPair.{KeyWithType}
use go_encrypted_config_valu.Config.DecryptVars.{
  fresh, visit_if_any, walk_value, walk_entries, walk_object, walk_at, decrypt_string_vars_in,
  decrypt_in,
}
use go_encrypted_config_valu.Config.DecryptVars.Spec.{
  decrypted, decrypted_values, IsFlat, AreFlat, DecryptsText, walk_value_lem, walk_values_lem,
}

-- The address in a pointer, a slice or a map.
unfoldable pub address : Value → Option ℕ
address (pointer a) = a
address (slice_at a) = a
address (map_at a) = a
address (text s) = none
address (other n) = none
address (struct_of fs) = none
address (array_of vs) = none
address nil_interface = none
address (interface_of v) = none

-- The object with `decrypt` applied to each string that can be set and has variables: a variable, the
-- elements of a slice, or the values of a map, whose keys stay as they are.
module _ (decrypt : Bytes → Bytes) where
  unfoldable pub decrypted_entries : List (Bytes × Value) → List (Bytes × Value)
  decrypted_entries [] = []
  decrypted_entries ((k, v) ∷ es) = (k, decrypted decrypt fresh v) ∷ decrypted_entries es

  unfoldable pub decrypted_object : Object → Object
  decrypted_object (variable v) = variable (decrypted decrypt fresh v)
  decrypted_object (elements vs) = elements (decrypted_values decrypt fresh vs)
  decrypted_object (entries es) = entries (decrypted_entries es)

-- The object has no references but nil, and its strings are readable.
module _ (IsReadable : Bytes → Type 0) where
  unfoldable pub AreFlatEntries : List (Bytes × Value) → Type 0
  AreFlatEntries [] = Unit
  AreFlatEntries ((k, v) ∷ es) = IsFlat IsReadable v × AreFlatEntries es

  unfoldable pub IsFlatObject : Object → Type 0
  IsFlatObject (variable v) = IsFlat IsReadable v
  IsFlatObject (elements vs) = AreFlat IsReadable vs
  IsFlatObject (entries es) = AreFlatEntries es

module _ {S : Type 0} (p : Packages S) (kwt : KeyWithType) (decrypt : Bytes → Bytes) (t : S)
    (h : Heap) where
  abbrev Readable : Bytes → Type 0
  Readable = DecryptsText p kwt decrypt t h

  module _ (visit : ReadOnly → ℕ → Exec (S × Heap) (Unit {0})) where
    walk_entries_lem :
        (es : List (Bytes × Value))
        → AreFlatEntries Readable es
        → walk_entries p kwt visit writable es (t, h) ≡ (ok (decrypted_entries decrypt es), (t, h))
    unfolding walk_entries decrypted_entries AreFlatEntries
    walk_entries_lem [] f = refl
    walk_entries_lem ((k, v) ∷ es) (f, g) =
        rw (walk_value_lem p kwt decrypt t h visit fresh v f, walk_entries_lem es g)

    walk_object_lem :
        (o : Object)
        → IsFlatObject Readable o
        → walk_object p kwt visit writable o (t, h) ≡ (ok (decrypted_object decrypt o), (t, h))
    unfolding walk_object decrypted_object IsFlatObject
    walk_object_lem (variable v) f = rw (walk_value_lem p kwt decrypt t h visit fresh v f)
    walk_object_lem (elements vs) f = rw (walk_values_lem p kwt decrypt t h visit fresh vs f)
    walk_object_lem (entries es) f = rw (walk_entries_lem es f)

  walk_at_lem :
      (fuel a : ℕ) (o : Object)
      → get_elem? h a ≡ some o
      → IsFlatObject Readable o
      → walk_at p kwt (suc fuel) writable a (t, h)
        ≡ (ok tt, (t, update h a (decrypted_object decrypt o)))
  unfolding walk_at
  walk_at_lem fuel a o there f = rw (there, walk_object_lem (walk_at p kwt fuel) o f)

  -- For a pointer to a variable, a slice of an array or a map, if the variable, the elements or the
  -- entries have no references and decrypting each of their strings gives what a function on texts says
  -- and draws no randomness, then DecryptEncryptedStringVariables leaves at the address the object with
  -- that function applied to each of its strings that has variables and can be set, and changes no other
  -- object and not the argument.
  pub decrypt_in-decrypted_object :
      (fuel a : ℕ) (reference : Value) (o : Object)
      → address reference ≡ some a
      → get_elem? h a ≡ some o
      → IsFlatObject Readable o
      → decrypt_in p kwt (suc fuel) reference (t, h)
        ≡ (ok reference, (t, update h a (decrypted_object decrypt o)))
  unfolding decrypt_in decrypt_string_vars_in walk_value visit_if_any address
  decrypt_in-decrypted_object fuel a (pointer b) o e there f =
      rw (e, walk_at_lem fuel a o there f) refl
  decrypt_in-decrypted_object fuel a (slice_at b) o e there f =
      rw (e, walk_at_lem fuel a o there f) refl
  decrypt_in-decrypted_object fuel a (map_at b) o e there f =
      rw (e, walk_at_lem fuel a o there f) refl
  decrypt_in-decrypted_object fuel a (text s) o e there f = absurd (cc)
  decrypt_in-decrypted_object fuel a (other n) o e there f = absurd (cc)
  decrypt_in-decrypted_object fuel a (struct_of fs) o e there f = absurd (cc)
  decrypt_in-decrypted_object fuel a (array_of vs) o e there f = absurd (cc)
  decrypt_in-decrypted_object fuel a nil_interface o e there f = absurd (cc)
  decrypt_in-decrypted_object fuel a (interface_of v) o e there f = absurd (cc)
