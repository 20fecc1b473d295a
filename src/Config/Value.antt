-- ===== src/Config/Value.antt =====
-- encryptedconfigvalue/encryptedvalue.go and legacy_encryptedvalue.go, and the value types of
-- aesgcm.go and rsaoaep.go: parsing, printing and decryption of encrypted values.
pub mod Decrypt
pub mod RoundTrip
use go_encrypted_config_valu.Base.{
  List, [], ◌∷◌, ◌++◌, none, some, Option, Bytes, codes, str_eq, has_prefix, drop, get_or,
  if◌then◌else◌,
}
use go_encrypted_config_valu.Base.Outcome.{
  Outcome, ok, err, ◌>>=◌, ◌>>◌, guard, some_or, value_form, base64_content, json_syntax,
  unsupported_mode, unrecognized_algorithm, base64_field,
}
use go_encrypted_config_valu.Base64.{encode, decode}
use go_encrypted_config_valu.External.{Json, Digests}
use go_encrypted_config_valu.Encryption.RsaOaep.{HashAlgorithm, hash}
use go_encrypted_config_valu.Config.KeyPair.{aes_algorithm, rsa_algorithm}

pub record AesGcmValue : Type 0 where
  pub encrypted : Bytes
  pub nonce : Bytes
  pub tag : Bytes

pub record RsaOaepValue : Type 0 where
  pub encrypted : Bytes
  pub oaep_hash_alg : HashAlgorithm
  pub mdf1_hash_alg : HashAlgorithm

-- The implementations of the interface EncryptedValue.
pub data EncryptedValue : Type 0 where
  legacy : Bytes → EncryptedValue
  aes_gcm : AesGcmValue → EncryptedValue
  rsa_oaep : RsaOaepValue → EncryptedValue

abbrev pub enc_prefix : Bytes
enc_prefix = codes "enc:"

abbrev pub gcm_mode : Bytes
gcm_mode = codes "GCM"

abbrev pub oaep_mode : Bytes
oaep_mode = codes "OAEP"

-- The content is the format of fmt.Sprintf, which prints it as it is where it holds no percent sign.
abbrev pub new_serialized_encrypted_value : Bytes → Bytes
new_serialized_encrypted_value bytes = enc_prefix ++ encode bytes

-- The fields of aesGCMEncryptedValueJSON and rsaOAEPEncryptedValueJSON.
abbrev pub aes_names : List Bytes
aes_names = codes "type" ∷ codes "mode" ∷ codes "ciphertext" ∷ codes "iv" ∷ codes "tag" ∷ []

abbrev pub rsa_names : List Bytes
rsa_names =
    codes "type" ∷ codes "mode" ∷ codes "ciphertext" ∷ codes "oaep-alg" ∷ codes "mdf1-alg" ∷ []

abbrev pub aes_fields : AesGcmValue → List (Bytes × Bytes)
aes_fields ev =
    (codes "type", aes_algorithm)
    ∷ (codes "mode", gcm_mode)
    ∷ (codes "ciphertext", encode ev.encrypted)
    ∷ (codes "iv", encode ev.nonce)
    ∷ (codes "tag", encode ev.tag)
    ∷ []

abbrev pub rsa_fields : RsaOaepValue → List (Bytes × Bytes)
rsa_fields ev =
    (codes "type", rsa_algorithm)
    ∷ (codes "mode", oaep_mode)
    ∷ (codes "ciphertext", encode ev.encrypted)
    ∷ (codes "oaep-alg", ev.oaep_hash_alg)
    ∷ (codes "mdf1-alg", ev.mdf1_hash_alg)
    ∷ []

module _ (json : Json) where
  -- The two MarshalJSON methods.
  abbrev pub marshal_aes : AesGcmValue → Bytes
  marshal_aes ev = json.marshal (aes_fields ev)

  abbrev pub marshal_rsa : RsaOaepValue → Bytes
  marshal_rsa ev = json.marshal (rsa_fields ev)

  -- The three ToSerializable methods.
  unfoldable pub to_serializable : EncryptedValue → Bytes
  to_serializable (legacy bytes) = new_serialized_encrypted_value bytes
  to_serializable (aes_gcm ev) = new_serialized_encrypted_value (marshal_aes ev)
  to_serializable (rsa_oaep ev) = new_serialized_encrypted_value (marshal_rsa ev)

  -- (*aesGCMEncryptedValue).UnmarshalJSON
  unfoldable pub unmarshal_aes : Bytes → Outcome AesGcmValue
  unmarshal_aes text = do
    ev_json ← some_or json_syntax (json.unmarshal aes_names text)
    guard (str_eq (get_or ev_json 1 []) gcm_mode) unsupported_mode
    encrypted ← some_or base64_field (decode (get_or ev_json 2 []))
    nonce ← some_or base64_field (decode (get_or ev_json 3 []))
    tag ← some_or base64_field (decode (get_or ev_json 4 []))
    ok (record { encrypted = encrypted; nonce = nonce; tag = tag })

module _ (json : Json) (digests : Digests) where
  -- (*rsaOAEPEncryptedValue).UnmarshalJSON. Hash never returns nil: it panics on an unknown name.
  unfoldable pub unmarshal_rsa : Bytes → Outcome RsaOaepValue
  unmarshal_rsa text = do
    ev_json ← some_or json_syntax (json.unmarshal rsa_names text)
    guard (str_eq (get_or ev_json 1 []) oaep_mode) unsupported_mode
    encrypted ← some_or base64_field (decode (get_or ev_json 2 []))
    let oaep_hash_alg = get_or ev_json 3 []
    oaep_hash ← hash digests oaep_hash_alg
    let mdf1_hash_alg = get_or ev_json 4 []
    mdf1_hash ← hash digests mdf1_hash_alg
    ok (record {
      encrypted = encrypted;
      oaep_hash_alg = oaep_hash_alg;
      mdf1_hash_alg = mdf1_hash_alg;
    })

  -- The switch on the algorithm.
  unfoldable pub unmarshal_for : Bytes → Bytes → Outcome EncryptedValue
  unmarshal_for algorithm text =
      if str_eq algorithm aes_algorithm
      then (unmarshal_aes json text >>= λ ev. ok (aes_gcm ev))
      else if str_eq algorithm rsa_algorithm
      then (unmarshal_rsa text >>= λ ev. ok (rsa_oaep ev))
      else err unrecognized_algorithm

  -- (*encryptedValWrapper).UnmarshalJSON
  unfoldable pub unmarshal_wrapper : Bytes → Outcome EncryptedValue
  unmarshal_wrapper text = do
    val ← some_or json_syntax (json.unmarshal (codes "type" ∷ []) text)
    unmarshal_for (get_or val 0 []) text

  -- Content that is no JSON for a struct is of the legacy format.
  unfoldable pub of_content : Bytes → Option (List Bytes) → Outcome EncryptedValue
  of_content content none = ok (legacy content)
  of_content content (some empty) = unmarshal_wrapper content

  -- NewEncryptedValue
  unfoldable pub new_encrypted_value : Bytes → Outcome EncryptedValue
  unfolding of_content
  new_encrypted_value ev_str = do
    guard (has_prefix ev_str enc_prefix) value_form
    content ← some_or base64_content (decode (drop 4 ev_str))
    of_content content (json.unmarshal [] content)
