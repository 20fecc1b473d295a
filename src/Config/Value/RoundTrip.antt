-- ===== src/Config/Value/RoundTrip.antt =====
-- Serialized values are read back.
use go_encrypted_config_valu.Base.{
  [], ◌∷◌, Bytes, false, str_eq, IsBytes, codes, ◌≡◌, ◌⊎◌, inl, inr, refl, arith, none, ◌∙◌, subst,
  sym,
}
use go_encrypted_config_valu.Base.Outcome.{ok, panic}
use go_encrypted_config_valu.Base64.RoundTrip.{decode-encode, encode-IsAscii}
use go_encrypted_config_valu.External.{Json, IsJson, Digests, IsAscii, AreAscii}
use go_encrypted_config_valu.Encryption.Oaep.Mask.{Hash}
use go_encrypted_config_valu.Encryption.RsaOaep.{HashAlgorithm, hash, sha1, sha256}
use go_encrypted_config_valu.Config.Value.{
  AesGcmValue, RsaOaepValue, EncryptedValue, legacy, aes_gcm, rsa_oaep, aes_names, rsa_names,
  aes_fields, rsa_fields, to_serializable, unmarshal_aes, unmarshal_rsa, unmarshal_for,
  unmarshal_wrapper, new_encrypted_value, new_serialized_encrypted_value, of_content,
}

-- A hash algorithm that the program has.
abbrev pub IsKnown : HashAlgorithm → Type 0
IsKnown a = (a ≡ sha1) ⊎ (a ≡ sha256)

known-IsAscii : (a : HashAlgorithm) → IsKnown a → IsAscii a
known-IsAscii a (inl e) = subst IsAscii (sym e) (omega arith)
known-IsAscii a (inr e) = subst IsAscii (sym e) (omega arith)

known-hash : (d : Digests) (a : HashAlgorithm) → IsKnown a → (h : Hash) × (hash d a ≡ ok h)
unfolding hash
known-hash d a (inl e) = (record { size = 20; sum = d.sha1 }, rw e)
known-hash d a (inr e) = (record { size = 32; sum = d.sha256 }, rw e)

module _ (j : Json) (digests : Digests) where
  -- The values that are read back: the parts are bytes, and legacy bytes are no JSON object.
  abbrev pub IsReadable : EncryptedValue → Type 0
  IsReadable (legacy bytes) = IsBytes bytes × (j.unmarshal [] bytes ≡ none)
  IsReadable (aes_gcm ev) = IsBytes ev.encrypted × IsBytes ev.nonce × IsBytes ev.tag
  IsReadable (rsa_oaep ev) =
      IsBytes ev.encrypted × IsKnown ev.oaep_hash_alg × IsKnown ev.mdf1_hash_alg

  read_content :
      (content : Bytes)
      → IsBytes content
      → new_encrypted_value j digests (new_serialized_encrypted_value content)
        ≡ of_content j digests content (j.unmarshal [] content)
  unfolding new_encrypted_value
  read_content content h = rw (decode-encode content h)

  module _ (laws : IsJson j) where
    read_aes :
        (ev : AesGcmValue)
        → IsReadable (aes_gcm ev)
        → new_encrypted_value j digests (to_serializable j (aes_gcm ev)) ≡ ok (aes_gcm ev)
    unfolding to_serializable of_content unmarshal_wrapper unmarshal_for unmarshal_aes
    read_aes ev (he, hn, ht) =
        let fields = aes_fields ev in
        let ascii : AreAscii fields = (
          omega arith,
          (
            omega arith,
            (encode-IsAscii ev.encrypted, (encode-IsAscii ev.nonce, (encode-IsAscii ev.tag, tt))),
          ),
        ) in
        read_content (j.marshal fields) (laws.marshal-IsBytes fields refl ascii)
        ∙ rw
            (
              laws.unmarshal-marshal [] fields refl refl ascii,
              laws.unmarshal-marshal (codes "type" ∷ []) fields refl refl ascii,
              laws.unmarshal-marshal aes_names fields refl refl ascii,
            )
            (rw (decode-encode ev.encrypted he, decode-encode ev.nonce hn, decode-encode ev.tag ht))

    read_rsa :
        (ev : RsaOaepValue)
        → IsReadable (rsa_oaep ev)
        → new_encrypted_value j digests (to_serializable j (rsa_oaep ev)) ≡ ok (rsa_oaep ev)
    unfolding to_serializable of_content unmarshal_wrapper unmarshal_for unmarshal_rsa
    read_rsa ev (he, ho, hm) =
        let fields = rsa_fields ev in
        let ascii : AreAscii fields = (
          omega arith,
          (
            omega arith,
            (
              encode-IsAscii ev.encrypted,
              (known-IsAscii ev.oaep_hash_alg ho, (known-IsAscii ev.mdf1_hash_alg hm, tt)),
            ),
          ),
        ) in
        let (oaep_hash, o) = known-hash digests ev.oaep_hash_alg ho in
        let (mdf1_hash, m) = known-hash digests ev.mdf1_hash_alg hm in
        read_content (j.marshal fields) (laws.marshal-IsBytes fields refl ascii)
        ∙ rw
            (
              laws.unmarshal-marshal [] fields refl refl ascii,
              laws.unmarshal-marshal (codes "type" ∷ []) fields refl refl ascii,
              laws.unmarshal-marshal rsa_names fields refl refl ascii,
            )
            (rw (decode-encode ev.encrypted he, o, m))

    -- NewEncryptedValue reads back what ToSerializable writes, where JSON meets its laws: the AES-
    -- GCM and RSA-OAEP values whose parts are bytes and whose hash algorithms are known, and
    -- legacy values of bytes that JSON does not read into an empty struct.
    pub new_value-to_serializable :
        (ev : EncryptedValue)
        → IsReadable ev
        → new_encrypted_value j digests (to_serializable j ev) ≡ ok ev
    new_value-to_serializable (legacy bytes) (h, n) =
        unfold to_serializable of_content in read_content bytes h ∙ rw n
    new_value-to_serializable (aes_gcm ev) h = read_aes ev h
    new_value-to_serializable (rsa_oaep ev) h = read_rsa ev h

    -- The text of an RSA-OAEP value of bytes whose OAEP hash algorithm has a name in ASCII that the
    -- program does not know makes NewEncryptedValue panic, where JSON meets its laws.
    pub new_value-unknown_hash :
        (ev : RsaOaepValue)
        → IsBytes ev.encrypted
        → IsAscii ev.oaep_hash_alg
        → IsAscii ev.mdf1_hash_alg
        → str_eq ev.oaep_hash_alg sha1 ≡ false
        → str_eq ev.oaep_hash_alg sha256 ≡ false
        → new_encrypted_value j digests (to_serializable j (rsa_oaep ev)) ≡ panic
    unfolding to_serializable of_content unmarshal_wrapper unmarshal_for unmarshal_rsa hash
    new_value-unknown_hash ev he ho hm not_sha1 not_sha256 =
        let fields = rsa_fields ev in
        let ascii : AreAscii fields =
          (omega arith, (omega arith, (encode-IsAscii ev.encrypted, (ho, (hm, tt))))) in
        read_content (j.marshal fields) (laws.marshal-IsBytes fields refl ascii)
        ∙ rw
            (
              laws.unmarshal-marshal [] fields refl refl ascii,
              laws.unmarshal-marshal (codes "type" ∷ []) fields refl refl ascii,
              laws.unmarshal-marshal rsa_names fields refl refl ascii,
            )
            (rw (decode-encode ev.encrypted he, not_sha1, not_sha256))
