-- ===== src/Config/DecryptVars/Spec.antt =====
-- The walk of a value without references against a function on values.
use go_encrypted_config_valu.Base.{
  ℕ, Bool-cases, Option, none, some, Bytes, ◌≡◌, refl, ◌&&◌, inl, inr, if◌then◌else◌,
}
use go_encrypted_config_valu.Base.Outcome.{ok, panic}
use go_encrypted_config_valu.External.{Packages}
use go_encrypted_config_valu.Encryption.Exec.{Exec, ◌>>=◌, pure}
use go_encrypted_config_valu.Config.GoValue.{
  Value, text, other, struct_of, array_of, slice_at, map_at, pointer, nil_interface, interface_of,
  is_nil, Fields, no_fields, field, Values, no_values, element, Heap, ReadOnly, ro, field_ro,
  Access, can_set,
}
use go_encrypted_config_valu.Config.KeyPair.{KeyWithType}
use go_encrypted_config_valu.Config.StringVars.{contains_string_vars, decrypt_all_string_vars}
use go_encrypted_config_valu.Config.DecryptVars.{
  fresh, walk_text, visit_if_any, walk_value, walk_fields, walk_values, decrypt_string_vars_in,
  copy_decrypted, unwrap,
}

-- The value with `decrypt` applied to each string that can be set and has variables.
module _ (decrypt : Bytes → Bytes) where
  unfoldable mutual
    pub decrypted : Access → Value → Value
    decrypted acc (text s) = text (if can_set acc && contains_string_vars s then decrypt s else s)
    decrypted acc (struct_of fs) = struct_of (decrypted_fields acc fs)
    decrypted acc (array_of vs) =
        array_of (decrypted_values (record acc { flags = ro acc.flags }) vs)
    decrypted acc (interface_of v) =
        let inside = decrypted fresh v in interface_of (if can_set acc then inside else v)
    decrypted acc (other n) = other n
    decrypted acc (slice_at a) = slice_at a
    decrypted acc (map_at a) = map_at a
    decrypted acc (pointer a) = pointer a
    decrypted acc nil_interface = nil_interface

    pub decrypted_fields : Access → Fields → Fields
    decrypted_fields acc no_fields = no_fields
    decrypted_fields acc (field visibility v fs) =
        field visibility (decrypted (record acc { flags = field_ro acc.flags visibility }) v)
          (decrypted_fields acc fs)

    pub decrypted_values : Access → Values → Values
    decrypted_values acc no_values = no_values
    decrypted_values acc (element v vs) = element (decrypted acc v) (decrypted_values acc vs)

abbrev pub IsNil : Option ℕ → Type 0
IsNil none = Unit
IsNil (some a) = ⊥

-- The value has no references but nil, and its strings are readable.
module _ (IsReadable : Bytes → Type 0) where
  unfoldable mutual
    pub IsFlat : Value → Type 0
    IsFlat (text s) = IsReadable s
    IsFlat (other n) = Unit
    IsFlat (struct_of fs) = AreFlatFields fs
    IsFlat (array_of vs) = AreFlat vs
    IsFlat (slice_at a) = IsNil a
    IsFlat (map_at a) = IsNil a
    IsFlat (pointer a) = IsNil a
    IsFlat nil_interface = Unit
    IsFlat (interface_of v) = IsFlat v

    pub AreFlatFields : Fields → Type 0
    AreFlatFields no_fields = Unit
    AreFlatFields (field visibility v fs) = IsFlat v × AreFlatFields fs

    pub AreFlat : Values → Type 0
    AreFlat no_values = Unit
    AreFlat (element v vs) = IsFlat v × AreFlat vs

module _ {S : Type 0} (p : Packages S) (kwt : KeyWithType) (decrypt : Bytes → Bytes) (t : S)
    (h : Heap) where
  -- Decryption of the text is a function of it.
  abbrev pub DecryptsText : Bytes → Type 0
  DecryptsText s = decrypt_all_string_vars p kwt s t ≡ (ok (decrypt s), t)

  walk_text_lem :
      (acc : Access) (s : Bytes)
      → DecryptsText s
      → walk_text p kwt acc s (t, h)
        ≡ (ok (if can_set acc && contains_string_vars s then decrypt s else s), (t, h))
  unfolding walk_text
  walk_text_lem acc s decrypts = elim (Bool-cases (can_set acc)) [
    | inl yes_set ↦ elim (Bool-cases (contains_string_vars s)) [
      | inl found ↦ rw (yes_set, found, decrypts)
      | inr missing ↦ rw (yes_set, missing)
    ]
    | inr not_set ↦ rw not_set
  ]

  module _ (visit : ReadOnly → ℕ → Exec (S × Heap) (Unit {0})) where
    reference_lem :
        (flags : ReadOnly) (a : Option ℕ) (v : Value)
        → IsNil a
        → (visit_if_any p kwt visit flags a >>= λ done. pure v) (t, h) ≡ (ok v, (t, h))
    unfolding visit_if_any
    reference_lem flags none v n = refl
    reference_lem flags (some a) v n = absurd n

    mutual
      unfolding walk_value walk_fields walk_values decrypted decrypted_fields decrypted_values
          IsFlat AreFlatFields AreFlat

      pub walk_value_lem :
          (acc : Access) (v : Value)
          → IsFlat DecryptsText v
          → walk_value p kwt visit acc v (t, h) ≡ (ok (decrypted decrypt acc v), (t, h))
      walk_value_lem acc (text s) f = rw (walk_text_lem acc s f)
      walk_value_lem acc (other n) f = refl
      walk_value_lem acc (struct_of fs) f = rw (walk_fields_lem acc fs f)
      walk_value_lem acc (array_of vs) f =
          rw (walk_values_lem (record acc { flags = ro acc.flags }) vs f)
      walk_value_lem acc (slice_at a) f = reference_lem _ a (slice_at a) f
      walk_value_lem acc (map_at a) f = reference_lem _ a (map_at a) f
      walk_value_lem acc (pointer a) f = reference_lem _ a (pointer a) f
      walk_value_lem acc nil_interface f = refl
      walk_value_lem acc (interface_of v) f = elim (Bool-cases (can_set acc)) [
        | inl yes_set ↦ rw (yes_set, walk_value_lem fresh v f)
        | inr not_set ↦ rw not_set
      ]

      walk_fields_lem :
          (acc : Access) (fs : Fields)
          → AreFlatFields DecryptsText fs
          → walk_fields p kwt visit acc fs (t, h) ≡ (ok (decrypted_fields decrypt acc fs), (t, h))
      walk_fields_lem acc no_fields f = refl
      walk_fields_lem acc (field visibility v fs) (f, g) = rw (
        walk_value_lem (record acc { flags = field_ro acc.flags visibility }) v f,
        walk_fields_lem acc fs g,
      )

      pub walk_values_lem :
          (acc : Access) (vs : Values)
          → AreFlat DecryptsText vs
          → walk_values p kwt visit acc vs (t, h) ≡ (ok (decrypted_values decrypt acc vs), (t, h))
      walk_values_lem acc no_values f = refl
      walk_values_lem acc (element v vs) (f, g) =
          rw (walk_value_lem acc v f, walk_values_lem acc vs g)

  -- For a value without references, if it is the nil interface, then
  -- CopyWithEncryptedStringVariablesDecrypted panics. If it is not, and decrypting each of its strings
  -- gives what a function on texts says and draws no randomness, then
  -- CopyWithEncryptedStringVariablesDecrypted is that function applied to each of its strings that has
  -- variables and can be set in a variable of the value's type; the heap stays as it is.
  pub copy_decrypted-decrypted :
      (fuel : ℕ) (v : Value)
      → IsFlat DecryptsText v
      → copy_decrypted p kwt fuel v (t, h)
        ≡ (if is_nil v then panic else ok (decrypted decrypt fresh v), (t, h))
  unfolding copy_decrypted decrypt_string_vars_in walk_value unwrap
  copy_decrypted-decrypted fuel v f = elim (Bool-cases (is_nil v)) [
    | inl missing ↦ rw missing refl
    | inr there ↦ rw (there, walk_value_lem _ fresh v f) refl
  ]
