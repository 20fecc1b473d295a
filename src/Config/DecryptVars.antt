-- ===== src/Config/DecryptVars.antt =====
-- encryptedconfigvalue/decryptvars.go. A function that walks a location returns what the location
-- holds at the end; the heap is part of the state. While an object is walked it is not reached again,
-- unless the walk goes round for ever.
pub mod Shape
pub mod Unexported
pub mod Frame
pub mod HiddenMap
pub mod Ending
pub mod AesEnding
pub mod Spec
pub mod Referred
pub mod Strings
use go_encrypted_config_valu.Base.{
  ℕ, zero, suc, Bool, true, false, not, List, [], ◌∷◌, Option, none, some, Bytes, get_elem?,
  if◌then◌else◌,
}
use go_encrypted_config_valu.Base.Outcome.{Outcome, ok, panic, starved, deref, demand}
use go_encrypted_config_valu.External.{Packages}
use go_encrypted_config_valu.Encryption.Exec.{Exec, ◌>>=◌, ◌>>◌, pure, lift}
use go_encrypted_config_valu.Config.GoValue.{
  Value, text, other, struct_of, array_of, slice_at, map_at, pointer, nil_interface, interface_of,
  is_nil, Fields, no_fields, field, Values, no_values, element, Object, variable, elements, entries,
  Heap, update, ReadOnly, writable, embed_ro, sticky_ro, ro, field_ro, is_writable, Access, can_set,
}
use go_encrypted_config_valu.Config.KeyPair.{KeyWithType}
use go_encrypted_config_valu.Config.StringVars.{
  contains_string_vars, decrypt_all_string_vars, beside,
}

-- The flags of `reflect.New(...).Elem()`.
abbrev pub fresh : Access
fresh = record { addressable = true; flags = writable }

-- The calls that read and write the heap.
abbrev pub load : {S : Type 0} → ℕ → Exec (S × Heap) Object
load a (s, h) = (deref (get_elem? h a), (s, h))

abbrev pub store : {S : Type 0} → ℕ → Object → Exec (S × Heap) (Unit {0})
store a o (s, h) = (ok tt, (s, update h a o))

module _ {S : Type 0} (p : Packages S) (kwt : KeyWithType) where
  -- The case of a string.
  unfoldable pub walk_text : Access → Bytes → Exec (S × Heap) Bytes
  walk_text acc s =
      if can_set acc
      then (if contains_string_vars s then beside (decrypt_all_string_vars p kwt s) else pure s)
      else pure s

  -- The walk of a location, where `visit` walks the object at an address.
  module _ (visit : ReadOnly → ℕ → Exec (S × Heap) (Unit {0})) where
    unfoldable pub visit_if_any : ReadOnly → Option ℕ → Exec (S × Heap) (Unit {0})
    visit_if_any flags none = pure tt
    visit_if_any flags (some a) = visit flags a

    unfoldable mutual
      pub walk_value : Access → Value → Exec (S × Heap) Value
      walk_value acc (text s) = do s' ← walk_text acc s; pure (text s')
      walk_value acc (other n) = pure (other n)
      walk_value acc (struct_of fs) = do fs' ← walk_fields acc fs; pure (struct_of fs')
      walk_value acc (array_of vs) = do
        vs' ← walk_values (record acc { flags = ro acc.flags }) vs
        pure (array_of vs')
      walk_value acc (slice_at a) = do visit_if_any (ro acc.flags) a; pure (slice_at a)
      walk_value acc (map_at a) = do visit_if_any (ro acc.flags) a; pure (map_at a)
      walk_value acc (pointer a) = do visit_if_any acc.flags a; pure (pointer a)
      walk_value acc nil_interface = pure nil_interface
      walk_value acc (interface_of v) =
          let inside = walk_value fresh v in
          if can_set acc then (inside >>= λ v'. pure (interface_of v')) else pure (interface_of v)

      pub walk_fields : Access → Fields → Exec (S × Heap) Fields
      walk_fields acc no_fields = pure no_fields
      walk_fields acc (field visibility v fs) = do
        v' ← walk_value (record acc { flags = field_ro acc.flags visibility }) v
        fs' ← walk_fields acc fs
        pure (field visibility v' fs')

      pub walk_values : Access → Values → Exec (S × Heap) Values
      walk_values acc no_values = pure no_values
      walk_values acc (element v vs) = do
        v' ← walk_value acc v
        vs' ← walk_values acc vs
        pure (element v' vs')

    -- The loop over a map. Set panics on an entry that was reached by an unexported field.
    unfoldable pub walk_entries :
        ReadOnly → List (Bytes × Value) → Exec (S × Heap) (List (Bytes × Value))
    walk_entries flags [] = pure []
    walk_entries flags ((k, v) ∷ es) =
        let first = walk_value fresh v in
        let rest = walk_entries flags es in
        if is_writable flags
        then (first >>= λ v'. rest >>= λ es'. pure ((k, v') ∷ es'))
        else lift panic

    unfoldable pub walk_object : ReadOnly → Object → Exec (S × Heap) Object
    walk_object flags (variable v) = do
      v' ← walk_value (record { addressable = true; flags = flags }) v
      pure (variable v')
    walk_object flags (elements vs) = do
      vs' ← walk_values (record { addressable = true; flags = flags }) vs
      pure (elements vs')
    walk_object flags (entries es) = do es' ← walk_entries flags es; pure (entries es')

  -- The object at an address, with fuel for the length of a chain of references.
  unfoldable pub walk_at : ℕ → ReadOnly → ℕ → Exec (S × Heap) (Unit {0})
  walk_at zero flags a = lift starved
  walk_at (suc fuel) flags a = do
    o ← load a
    o' ← walk_object (λ flags' b. walk_at fuel flags' b) flags o
    store a o'

  -- decryptEncryptedStringVariables
  unfoldable pub decrypt_string_vars_in : ℕ → Access → Value → Exec (S × Heap) Value
  decrypt_string_vars_in fuel acc v = walk_value (walk_at fuel) acc v

  -- DecryptEncryptedStringVariables. The argument is an interface, which reflect.ValueOf looks into;
  -- what it finds is not addressable. There is no value in the nil interface.
  unfoldable pub decrypt_in : ℕ → Value → Exec (S × Heap) Value
  decrypt_in fuel v =
      decrypt_string_vars_in fuel (record { addressable = false; flags = writable }) v

  -- CopyWithEncryptedStringVariablesDecrypted: the walk of `&out`, where `out` is an interface that
  -- holds the argument. `reflect.ValueOf(in).Type()` panics on the nil interface.
  unfoldable pub unwrap : Value → Outcome Value
  unwrap (interface_of v) = ok v
  unwrap _ = panic

  unfoldable pub copy_decrypted : ℕ → Value → Exec (S × Heap) Value
  copy_decrypted fuel v = do
    lift (demand (not (is_nil v)))
    out ← decrypt_string_vars_in fuel fresh (interface_of v)
    lift (unwrap out)
