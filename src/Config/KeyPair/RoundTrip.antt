-- ===== src/Config/KeyPair/RoundTrip.antt =====
-- Serialized keys are read back.
use go_encrypted_config_valu.Base.{
  ℕ, true, false, [], ◌∷◌, ◌++◌, Bytes, IsBytes, Lacks, codes, str_eq, ◌≡◌, refl, subst, arith,
  none, ◌∙◌,
}
use go_encrypted_config_valu.Base.Outcome.{ok, ok-injective, deref, deref-eq-ok, >>=-eq-ok}
use go_encrypted_config_valu.Base64.{encode}
use go_encrypted_config_valu.Base64.RoundTrip.{encode-Lacks-colon, decode-encode}
use go_encrypted_config_valu.External.{KeyFormats, IsKeyFormats, RsaPublicKey, RsaPrivateKey}
use go_encrypted_config_valu.Encryption.Keys.{
  Key, aes_key, rsa_public_key, rsa_private_key, nil_key, key_bytes, public_key_bytes,
  private_key_bytes, aes_key_from_bytes, rsa_private_key_from_pkcs8_bytes,
}
use go_encrypted_config_valu.Encryption.Keys.Formats.{public_key_from-bytes, private_key_from-bytes}
use go_encrypted_config_valu.Config.KeyPair.{
  aes_type, rsa_pub_type, rsa_priv_type, split, to_serializable, new_key_with_type,
  new_serialized_key_with_type, generator, to_key_type, legacy_rsa, rsa_private_key_from_bytes,
  rsa_public_key_from_bytes,
}

split_last : (b : Bytes) (sep : ℕ) → Lacks sep b → split b sep ≡ b ∷ []
unfolding split
split_last [] sep h = refl
split_last (c ∷ b) sep (p, h) = ground (arith, split_last b sep h)

pub split_pair :
    (a b : Bytes) (sep : ℕ) → Lacks sep a → Lacks sep b → split (a ++ (sep ∷ b)) sep ≡ a ∷ b ∷ []
unfolding split
split_pair [] b sep ha hb = ground (arith, split_last b sep hb)
split_pair (c ∷ a) b sep (p, ha) hb = ground (arith, split_pair a b sep ha hb)

module _ (f : KeyFormats) where
  -- The type names what the key is, and the key can be written.
  abbrev pub HasType : Bytes → Key → Type 0
  HasType key_type (aes_key b) = (key_type ≡ aes_type) × IsBytes b
  HasType key_type (rsa_public_key k) = key_type ≡ rsa_pub_type
  HasType key_type (rsa_private_key k) = (key_type ≡ rsa_priv_type) × (f.validate k ≡ true)
  HasType key_type nil_key = ⊥

  -- Text of the new form goes to the generator of its key type.
  new_key_of_kind :
      (kind bytes : Bytes)
      → Lacks b':' kind
      → IsBytes bytes
      → str_eq kind (codes "RSA") ≡ false
      → to_key_type kind ≡ ok kind
      → new_key_with_type f (new_serialized_key_with_type kind bytes) ≡ generator f kind bytes
  unfolding new_key_with_type
  new_key_of_kind kind bytes hk hb ne known = rw (
    split_pair kind (encode bytes) b':' hk (encode-Lacks-colon bytes),
    decode-encode bytes hb,
    ne,
    known,
  )

  module _ (laws : IsKeyFormats f) where
    public_key_bytes-IsBytes :
        (k : RsaPublicKey) (b : Bytes) → public_key_bytes f k ≡ ok b → IsBytes b
    unfolding public_key_bytes
    public_key_bytes-IsBytes k b h =
        let (a, marshalled, written) = >>=-eq-ok (deref (f.marshal_pkix k)) _ h in
        subst IsBytes (ok-injective written) (
          laws.pem_encode-IsBytes (codes "RSA PUBLIC KEY") a
            (laws.marshal_pkix-IsBytes k a (deref-eq-ok _ marshalled)))

    private_key_bytes-IsBytes :
        (k : RsaPrivateKey) (b : Bytes) → private_key_bytes f k ≡ ok b → IsBytes b
    unfolding private_key_bytes
    private_key_bytes-IsBytes k b h = laws.marshal_asn1-IsBytes _ b (deref-eq-ok _ h)

    read_aes :
        (b : Bytes)
        → IsBytes b
        → new_key_with_type f (new_serialized_key_with_type aes_type b)
          ≡ ok (record { key_type = aes_type; key = aes_key b })
    unfolding generator aes_key_from_bytes to_key_type
    read_aes b hb = new_key_of_kind aes_type b (omega arith) hb refl refl

    read_public :
        (k : RsaPublicKey) (b : Bytes)
        → public_key_bytes f k ≡ ok b
        → new_key_with_type f (new_serialized_key_with_type rsa_pub_type b)
          ≡ ok (record { key_type = rsa_pub_type; key = rsa_public_key k })
    unfolding generator to_key_type
    read_public k b h =
        new_key_of_kind rsa_pub_type b (omega arith) (public_key_bytes-IsBytes k b h) refl refl
        ∙ rw (public_key_from-bytes f laws k b h)

    read_private :
        (k : RsaPrivateKey) (b : Bytes)
        → f.validate k ≡ true
        → private_key_bytes f k ≡ ok b
        → new_key_with_type f (new_serialized_key_with_type rsa_priv_type b)
          ≡ ok (record { key_type = rsa_priv_type; key = rsa_private_key k })
    unfolding generator to_key_type
    read_private k b v h =
        new_key_of_kind rsa_priv_type b (omega arith) (private_key_bytes-IsBytes k b h) refl refl
        ∙ rw (private_key_from-bytes f laws k b v h)

    -- The text that ToSerializable returns for a key whose type names what it is (AES bytes, an
    -- RSA public key, an RSA private key that validates) is read back by NewKeyWithType as the
    -- same key with the same type, over formats that meet their laws.
    pub new_key-to_serializable :
        (kind : Bytes) (key : Key) (text : Bytes)
        → HasType kind key
        → to_serializable f (record { key_type = kind; key = key }) ≡ ok text
        → new_key_with_type f text ≡ ok (record { key_type = kind; key = key })
    unfolding to_serializable key_bytes
    new_key-to_serializable kind (aes_key b) text (e, hb) h =
        rw (← ok-injective h, e) (read_aes b hb)
    new_key-to_serializable kind (rsa_public_key k) text e h =
        let (b, bytes, written) = >>=-eq-ok (public_key_bytes f k) _ h in
        rw (← ok-injective written, e) (read_public k b bytes)
    new_key-to_serializable kind (rsa_private_key k) text (e, v) h =
        let (b, bytes, written) = >>=-eq-ok (private_key_bytes f k) _ h in
        rw (← ok-injective written, e) (read_private k b v bytes)
    new_key-to_serializable kind nil_key text h e = absurd h

    -- A private key in the legacy form `RSA:<base64>` is read as a key of the new form.
    pub new_key_legacy_private :
        (k : RsaPrivateKey) (b : Bytes)
        → f.validate k ≡ true
        → private_key_bytes f k ≡ ok b
        → new_key_with_type f (new_serialized_key_with_type (codes "RSA") b)
          ≡ ok (record { key_type = rsa_priv_type; key = rsa_private_key k })
    unfolding new_key_with_type legacy_rsa rsa_private_key_from_bytes
    new_key_legacy_private k b v h = rw (
      split_pair (codes "RSA") (encode b) b':' (omega arith) (encode-Lacks-colon b),
      decode-encode b (private_key_bytes-IsBytes k b h),
      private_key_from-bytes f laws k b v h,
    )

    -- The bytes of a public key in the legacy form `RSA:<base64>` are read as a key of type RSA-
    -- PUB, if they are no PKCS#8 key and the formats meet their laws.
    pub new_key_legacy_public :
        (k : RsaPublicKey) (b : Bytes)
        → public_key_bytes f k ≡ ok b
        → f.parse_pkcs8 b ≡ none
        → new_key_with_type f (new_serialized_key_with_type (codes "RSA") b)
          ≡ ok (record { key_type = rsa_pub_type; key = rsa_public_key k })
    unfolding new_key_with_type legacy_rsa rsa_private_key_from_bytes rsa_public_key_from_bytes
        rsa_private_key_from_pkcs8_bytes
    new_key_legacy_public k b h no_private = rw (
      split_pair (codes "RSA") (encode b) b':' (omega arith) (encode-Lacks-colon b),
      decode-encode b (public_key_bytes-IsBytes k b h),
      no_private,
      public_key_from-bytes f laws k b h,
    )
