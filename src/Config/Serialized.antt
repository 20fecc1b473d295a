-- ===== src/Config/Serialized.antt =====
-- The functions of encryptedconfigvalue/keypair.go and encryptedvalue.go that take a serialized type, a
-- string, and those that panic where the others return an error.
use go_encrypted_config_valu.Base.{Bytes}
use go_encrypted_config_valu.Base.Outcome.{Outcome}
use go_encrypted_config_valu.External.{Digests, Json, KeyFormats}
use go_encrypted_config_valu.Config.KeyPair.{KeyWithType, new_key_with_type, must}
use go_encrypted_config_valu.Config.Value.{EncryptedValue, new_encrypted_value}

module _ (formats : KeyFormats) where
  -- NewKeyWithTypeFromSerialized
  abbrev pub new_key_with_type_from_serialized : Bytes → Outcome KeyWithType
  new_key_with_type_from_serialized input = new_key_with_type formats input

  -- MustNewKeyWithType
  abbrev pub must_new_key_with_type : Bytes → Outcome KeyWithType
  must_new_key_with_type input = must (new_key_with_type formats input)

  -- MustNewKeyWithTypeFromSerialized
  abbrev pub must_new_key_with_type_from_serialized : Bytes → Outcome KeyWithType
  must_new_key_with_type_from_serialized input = must_new_key_with_type input

module _ (json : Json) (digests : Digests) where
  -- NewEncryptedValueFromSerialized
  abbrev pub new_encrypted_value_from_serialized : Bytes → Outcome EncryptedValue
  new_encrypted_value_from_serialized ev_str = new_encrypted_value json digests ev_str

  -- MustNewEncryptedValue
  abbrev pub must_new_encrypted_value : Bytes → Outcome EncryptedValue
  must_new_encrypted_value ev_str = must (new_encrypted_value json digests ev_str)

  -- MustNewEncryptedValueFromSerialized
  abbrev pub must_new_encrypted_value_from_serialized : Bytes → Outcome EncryptedValue
  must_new_encrypted_value_from_serialized ev_str = must_new_encrypted_value ev_str
