-- ===== src/Config/KeyPair.antt =====
-- encryptedconfigvalue/keypair.go, and the key types of encryptedconfigvalue/algorithms.go with the
-- constructors of encryptedconfigvalue/aeskey.go and rsakeys.go that wrap a key.
pub mod RoundTrip
use go_encrypted_config_valu.Base.{
  List, [], ◌∷◌, ◌++◌, Bytes, codes, str_eq, ◌==◌, if◌then◌else◌, ◌||◌, ℕ,
}
use go_encrypted_config_valu.Base.Outcome.{
  Outcome, ok, err, panic, starved, ◌>>=◌, some_or, key_form, base64_key, legacy_rsa_key,
  unknown_key_type,
}
use go_encrypted_config_valu.Base64.{encode, decode}
use go_encrypted_config_valu.External.{KeyFormats, RsaPublicKey, RsaPrivateKey}
use go_encrypted_config_valu.Encryption.Keys.{
  Key, rsa_public_key, rsa_private_key, aes_key_from_bytes, key_bytes,
  rsa_public_key_from_pem_bytes, rsa_private_key_from_pkcs8_bytes,
}

-- KeyType is a string type; these are its constants.
abbrev pub aes_type : Bytes
aes_type = codes "AES"

abbrev pub rsa_pub_type : Bytes
rsa_pub_type = codes "RSA-PUB"

abbrev pub rsa_priv_type : Bytes
rsa_priv_type = codes "RSA-PRIV"

-- AlgorithmType is a string type; these are its constants.
abbrev pub aes_algorithm : Bytes
aes_algorithm = codes "AES"

abbrev pub rsa_algorithm : Bytes
rsa_algorithm = codes "RSA"

pub record KeyWithType : Type 0 where
  pub key_type : Bytes
  pub key : Key

-- AESKeyFromKey, RSAPublicKeyFromKey, RSAPrivateKeyFromKey
abbrev pub aes_key_from_key : Key → KeyWithType
aes_key_from_key key = record { key_type = aes_type; key = key }

abbrev pub rsa_public_key_from_key : RsaPublicKey → KeyWithType
rsa_public_key_from_key k = record { key_type = rsa_pub_type; key = rsa_public_key k }

abbrev pub rsa_private_key_from_key : RsaPrivateKey → KeyWithType
rsa_private_key_from_key k = record { key_type = rsa_priv_type; key = rsa_private_key k }

-- strings.Split by a separator of one byte.
onto_first : ℕ → List Bytes → List Bytes
onto_first c [] = (c ∷ []) ∷ []
onto_first c (part ∷ parts) = (c ∷ part) ∷ parts

unfoldable pub split : Bytes → ℕ → List Bytes
unfolding onto_first
split [] sep = [] ∷ []
split (c ∷ s) sep = if c == sep then [] ∷ split s sep else onto_first c (split s sep)

-- ToKeyType
unfoldable pub to_key_type : Bytes → Outcome Bytes
to_key_type val =
    if str_eq val aes_type || str_eq val rsa_pub_type || str_eq val rsa_priv_type
    then ok val
    else err unknown_key_type

-- The algType of keyTypeToData; the zero value for another key type.
unfoldable pub algorithm_type : Bytes → Bytes
algorithm_type key_type =
    if str_eq key_type aes_type
    then aes_algorithm
    else if str_eq key_type rsa_pub_type || str_eq key_type rsa_priv_type
    then rsa_algorithm
    else []

-- The form `<key-type>:<base64-encoded-key-bytes>`.
abbrev pub new_serialized_key_with_type : Bytes → Bytes → Bytes
new_serialized_key_with_type key_type bytes = key_type ++ (b':' ∷ encode bytes)

-- keyGeneratorFor
abbrev pub key_generator_for : Bytes → (Bytes → Outcome Key) → Bytes → Outcome KeyWithType
key_generator_for key_type key_gen bytes = do
  key ← key_gen bytes
  ok (record { key_type = key_type; key = key })

module _ (formats : KeyFormats) where
  -- RSAPublicKeyFromBytes, RSAPrivateKeyFromBytes
  unfoldable pub rsa_public_key_from_bytes : Bytes → Outcome KeyWithType
  rsa_public_key_from_bytes bytes = do
    k ← rsa_public_key_from_pem_bytes formats bytes
    ok (rsa_public_key_from_key k)

  unfoldable pub rsa_private_key_from_bytes : Bytes → Outcome KeyWithType
  rsa_private_key_from_bytes bytes = do
    k ← rsa_private_key_from_pkcs8_bytes formats bytes
    ok (rsa_private_key_from_key k)

  -- The functions in keyTypeToData.
  abbrev pub aes_generator : Bytes → Outcome Key
  aes_generator bytes = ok (aes_key_from_bytes bytes)

  abbrev pub rsa_public_generator : Bytes → Outcome Key
  rsa_public_generator bytes = do
    k ← rsa_public_key_from_pem_bytes formats bytes
    ok (rsa_public_key k)

  abbrev pub rsa_private_generator : Bytes → Outcome Key
  rsa_private_generator bytes = do
    k ← rsa_private_key_from_pkcs8_bytes formats bytes
    ok (rsa_private_key k)

  -- (KeyType).Generator, applied; the generator of an unknown key type is a nil function.
  unfoldable pub generator : Bytes → Bytes → Outcome KeyWithType
  generator key_type bytes =
      if str_eq key_type aes_type
      then key_generator_for aes_type aes_generator bytes
      else if str_eq key_type rsa_pub_type
      then key_generator_for rsa_pub_type rsa_public_generator bytes
      else if str_eq key_type rsa_priv_type
      then key_generator_for rsa_priv_type rsa_private_generator bytes
      else panic

  -- (KeyWithType).ToSerializable
  unfoldable pub to_serializable : KeyWithType → Outcome Bytes
  to_serializable kwt = do
    bytes ← key_bytes formats kwt.key
    ok (new_serialized_key_with_type kwt.key_type bytes)

  -- `if x, err := first; err == nil { return x } else …`
  or_else : Outcome KeyWithType → Outcome KeyWithType → Outcome KeyWithType
  or_else (ok k) second = ok k
  or_else (err e) second = second
  or_else panic second = panic
  or_else starved second = starved

  -- A key of the legacy form: a private key if it is one, and a public key otherwise.
  unfoldable pub legacy_rsa : Bytes → Outcome KeyWithType
  unfolding or_else
  legacy_rsa bytes =
      or_else (rsa_private_key_from_bytes bytes)
        (or_else (rsa_public_key_from_bytes bytes) (err legacy_rsa_key))

  by_kind : Bytes → Bytes → Outcome KeyWithType
  by_kind kind bytes =
      if str_eq kind (codes "RSA")
      then legacy_rsa bytes
      else (to_key_type kind >>= λ alg. generator alg bytes)

  of_parts : List Bytes → Outcome KeyWithType
  unfolding by_kind
  of_parts (kind ∷ content ∷ []) = do
    bytes ← some_or base64_key (decode content)
    by_kind kind bytes
  of_parts _ = err key_form

  -- NewKeyWithType
  unfoldable pub new_key_with_type : Bytes → Outcome KeyWithType
  unfolding of_parts
  new_key_with_type input = of_parts (split input b':')

-- An error becomes a panic: MustNewKeyWithType and MustNewEncryptedValue.
unfoldable pub must {ℓ} : {A : Type ℓ} → Outcome A → Outcome A
must (ok a) = ok a
must (err e) = panic
must panic = panic
must starved = starved
