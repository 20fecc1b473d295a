-- ===== src/Config/GoValue.antt =====
-- Go values as package reflect shows them to encryptedconfigvalue/decryptvars.go, and the heap that
-- pointers, slices and maps refer to.
use go_encrypted_config_valu.Base.{
  ℕ, zero, suc, Bool, true, false, ◌&&◌, List, [], ◌∷◌, Option, Bytes,
}

-- What the declaration of a struct's field says of it.
pub data Visibility : Type 0 where
  exported : Visibility
  unexported : Visibility
  embedded_unexported : Visibility

-- A slice refers to the whole of its array and a pointer to the whole of a variable; `none` is nil.
-- `text` is a string of any string type, and `other` a value of a kind that holds no strings.
mutual
  pub data Value : Type 0 where
    text : Bytes → Value
    other : ℕ → Value
    struct_of : Fields → Value
    array_of : Values → Value
    slice_at : Option ℕ → Value
    map_at : Option ℕ → Value
    pointer : Option ℕ → Value
    nil_interface : Value
    interface_of : Value → Value

  pub data Fields : Type 0 where
    no_fields : Fields
    field : Visibility → Value → Fields → Fields

  pub data Values : Type 0 where
    no_values : Values
    element : Value → Values → Values

-- Whether there is no value in an interface: reflect.ValueOf gives the zero Value of it, which has no
-- type.
abbrev pub is_nil : Value → Bool
is_nil nil_interface = true
is_nil _ = false

-- What an address names: a variable, the array of a slice, or the entries of a map in the order in
-- which MapKeys gives their keys.
pub data Object : Type 0 where
  variable : Value → Object
  elements : Values → Object
  entries : List (Bytes × Value) → Object

abbrev pub Heap : Type 0
Heap = List Object

abbrev pub update : Heap → ℕ → Object → Heap
update [] a o = []
update (x ∷ h) zero o = o ∷ h
update (x ∷ h) (suc a) o = x ∷ update h a o

-- The flags flagRO of a reflect.Value: it was reached by an unexported field, itself an embedded one
-- (flagEmbedRO) or not (flagStickyRO).
pub data ReadOnly : Type 0 where
  writable : ReadOnly
  embed_ro : ReadOnly
  sticky_ro : ReadOnly

-- (flag).ro
abbrev pub ro : ReadOnly → ReadOnly
ro writable = writable
ro embed_ro = sticky_ro
ro sticky_ro = sticky_ro

-- The flags of (Value).Field: a field of an embedded struct starts anew.
abbrev pub field_ro : ReadOnly → Visibility → ReadOnly
field_ro sticky_ro visibility = sticky_ro
field_ro writable exported = writable
field_ro writable unexported = sticky_ro
field_ro writable embedded_unexported = embed_ro
field_ro embed_ro exported = writable
field_ro embed_ro unexported = sticky_ro
field_ro embed_ro embedded_unexported = embed_ro

abbrev pub is_writable : ReadOnly → Bool
is_writable writable = true
is_writable embed_ro = false
is_writable sticky_ro = false

-- Whether the value is addressable, and its flags.
pub record Access : Type 0 where
  pub addressable : Bool
  pub flags : ReadOnly

abbrev pub can_set : Access → Bool
can_set acc = acc.addressable && is_writable acc.flags
