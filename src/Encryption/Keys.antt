-- ===== src/Encryption/Keys.antt =====
-- encryption/cipher.go, encryption/aeskey.go and encryption/rsakey.go: the keys and their byte
-- representations.
pub mod Generate
pub mod Formats
use go_encrypted_config_valu.Base.{[], ◌∷◌, Bytes, codes}
use go_encrypted_config_valu.Base.Outcome.{
  Outcome, ok, err, ◌>>=◌, invalid_public_key, invalid_private_key, some_or, deref,
}
use go_encrypted_config_valu.External.{
  RsaPublicKey, RsaPrivateKey, KeyFormats, PublicKey, PrivateKey, rsa_encryption,
}

-- A value of the interface Key; `nil_key` is the nil interface.
pub data Key : Type 0 where
  aes_key : Bytes → Key
  rsa_public_key : RsaPublicKey → Key
  rsa_private_key : RsaPrivateKey → Key
  nil_key : Key

-- AESKeyFromBytes
unfoldable pub aes_key_from_bytes : Bytes → Key
aes_key_from_bytes key = aes_key key

module _ (formats : KeyFormats) where
  -- (*RSAPublicKey).Bytes
  unfoldable pub public_key_bytes : RsaPublicKey → Outcome Bytes
  public_key_bytes k = do
    asn1_pub_key ← deref (formats.marshal_pkix k)
    ok (formats.pem_encode (codes "RSA PUBLIC KEY") asn1_pub_key)

  -- The type assertion on what x509 has parsed.
  as_rsa_public : PublicKey → Outcome RsaPublicKey
  as_rsa_public (PublicKey.rsa k) = ok k
  as_rsa_public PublicKey.other = err invalid_public_key

  -- RSAPublicKeyFromPEMBytes
  unfoldable pub rsa_public_key_from_pem_bytes : Bytes → Outcome RsaPublicKey
  unfolding as_rsa_public
  rsa_public_key_from_pem_bytes key = do
    block ← some_or invalid_public_key (formats.pem_decode key)
    pkix_pub_key ← some_or invalid_public_key (formats.parse_pkix block)
    as_rsa_public pkix_pub_key

  -- (*RSAPrivateKey).Bytes
  unfoldable pub private_key_bytes : RsaPrivateKey → Outcome Bytes
  private_key_bytes k = deref (
      formats.marshal_asn1
        (record { version = 0; algorithm = rsa_encryption ∷ []; key = formats.marshal_pkcs1 k }))

  as_rsa_private : PrivateKey → Outcome RsaPrivateKey
  as_rsa_private (PrivateKey.rsa k) = ok k
  as_rsa_private PrivateKey.other = err invalid_private_key

  -- RSAPrivateKeyFromPKCS8Bytes
  unfoldable pub rsa_private_key_from_pkcs8_bytes : Bytes → Outcome RsaPrivateKey
  unfolding as_rsa_private
  rsa_private_key_from_pkcs8_bytes key = do
    pkcs_priv_key ← some_or invalid_private_key (formats.parse_pkcs8 key)
    as_rsa_private pkcs_priv_key

  -- The method Bytes, on whatever the interface holds. On a nil interface the call panics.
  unfoldable pub key_bytes : Key → Outcome Bytes
  key_bytes (aes_key key) = ok key
  key_bytes (rsa_public_key k) = public_key_bytes k
  key_bytes (rsa_private_key k) = private_key_bytes k
  key_bytes nil_key = Outcome.panic
