-- ===== src/Encryption/Keys/Formats.antt =====
-- The byte representations of the keys are read back.
use go_encrypted_config_valu.Base.{Bytes, codes, true, ◌≡◌, arith}
use go_encrypted_config_valu.Base.Outcome.{ok, deref, deref-eq-ok, >>=-eq-ok}
use go_encrypted_config_valu.External.{RsaPublicKey, RsaPrivateKey, KeyFormats, IsKeyFormats}
use go_encrypted_config_valu.Encryption.Keys.{
  public_key_bytes, rsa_public_key_from_pem_bytes, private_key_bytes,
  rsa_private_key_from_pkcs8_bytes,
}

module _ (f : KeyFormats) (laws : IsKeyFormats f) where
  -- The bytes that (*RSAPublicKey).Bytes returns are read back by RSAPublicKeyFromPEMBytes as the
  -- same key, over formats that meet their laws.
  pub public_key_from-bytes :
      (k : RsaPublicKey) (b : Bytes)
      → public_key_bytes f k ≡ ok b
      → rsa_public_key_from_pem_bytes f b ≡ ok k
  unfolding public_key_bytes rsa_public_key_from_pem_bytes
  public_key_from-bytes k b h =
      let (a, marshalled, written) = >>=-eq-ok (deref (f.marshal_pkix k)) _ h in
      let parsed = laws.parse_pkix-marshal k a (deref-eq-ok _ marshalled) in
      let decoded = laws.pem_decode-encode (codes "RSA PUBLIC KEY") a in
      ground (arith, parsed, decoded, written)

  pub private_key_from-bytes :
      (k : RsaPrivateKey) (b : Bytes)
      → f.validate k ≡ true
      → private_key_bytes f k ≡ ok b
      → rsa_private_key_from_pkcs8_bytes f b ≡ ok k
  unfolding private_key_bytes rsa_private_key_from_pkcs8_bytes
  private_key_from-bytes k b v h = rw (laws.parse_pkcs8-marshal k b v (deref-eq-ok _ h))
