-- ===== src/Config/EndToEnd/Rsa.antt =====
-- Encryption, serialization, parsing and decryption together, for the RSA encrypters.
use go_encrypted_config_valu.Base.{
  ℕ, ◌+◌, ◌*◌, ◌≤◌, Bool-cases, inl, inr, Bytes, IsBytes, length, str_eq, str_eq_sound, ◌≡◌, refl,
  arith, true,
}
use go_encrypted_config_valu.Base.Outcome.{ok}
use go_encrypted_config_valu.External.{Packages, ArePackages, Digests, RsaPrivateKey}
use go_encrypted_config_valu.Encryption.Exec.{Exec, ◌>>=◌, lift}
use go_encrypted_config_valu.Encryption.Keys.{rsa_public_key, rsa_private_key}
use go_encrypted_config_valu.Encryption.Oaep.Mask.{Hash}
use go_encrypted_config_valu.Encryption.Oaep.Scheme.{modulus_size}
use go_encrypted_config_valu.Encryption.RsaOaep.{HashAlgorithm, RsaOaepCipher, sha1, sha256, hash}
use go_encrypted_config_valu.Encryption.RsaOaep.RoundTrip.{IsKeyFor, Runs, decrypt_rsa-encrypt}
use go_encrypted_config_valu.Config.KeyPair.{
  KeyWithType, new_key_with_type, to_serializable as key_to_serializable, rsa_pub_type,
  rsa_priv_type, rsa_public_key_from_key, rsa_private_key_from_key,
}
use go_encrypted_config_valu.Config.KeyPair.RoundTrip.{new_key-to_serializable}
use go_encrypted_config_valu.Config.EndToEnd.{reload}
use go_encrypted_config_valu.Config.Value.{
  EncryptedValue, RsaOaepValue, rsa_oaep, legacy, to_serializable, new_encrypted_value,
}
use go_encrypted_config_valu.Config.Value.Decrypt.{decrypt, decrypt_rsa, decrypt_legacy}
use go_encrypted_config_valu.Config.Value.RoundTrip.{IsKnown, IsReadable, new_value-to_serializable}
use go_encrypted_config_valu.Config.Encrypters.{
  Encrypter, encrypt, rsa_oaep_encrypter, legacy_rsa_oaep,
}

-- An algorithm with a hash is one of the two.
hash-IsKnown :
    (digests : Digests) (a : HashAlgorithm) {h : Hash} → hash digests a ≡ ok h → IsKnown a
unfolding hash
hash-IsKnown digests a e = elim (Bool-cases (str_eq a sha1)) [
  | inl first ↦ inl (str_eq_sound a sha1 first)
  | inr other ↦ elim (Bool-cases (str_eq a sha256)) [
    | inl second ↦ inr (str_eq_sound a sha256 second)
    | inr unknown ↦ absurd (let failed = rw (other, unknown) at e in cc)
  ]
]

module _ {S : Type 0} (p : Packages S) (laws : ArePackages p) (n : ℕ) (priv : RsaPrivateKey)
    (key : IsKeyFor priv n) (kind kind' : Bytes) (s s1 s2 s3 : S) where
  -- The keys, whatever the types that go with them.
  abbrev pub public_key : KeyWithType
  public_key = record { key_type = kind; key = rsa_public_key priv.public }

  abbrev pub private_key : KeyWithType
  private_key = record { key_type = kind'; key = rsa_private_key priv }

  -- Over packages that meet their laws, for an RSA key that meets its laws and whose public half
  -- passes checkPub, an RSA-OAEP encrypter of known algorithms, an input of bytes that is short
  -- enough for the modulus, a random source that gives the seed, and a search for a blinding number
  -- that returns: the encrypter returns a value, and the value, written as text and read back,
  -- decrypts to the input, whatever the key types.
  pub decrypt-encrypt_rsa :
      (r : RsaOaepCipher) (oaep_hash mdf1_hash : Hash) (input : Bytes)
      → hash p.digests r.oaep_hash_alg ≡ ok oaep_hash
      → hash p.digests r.mdf1_hash_alg ≡ ok mdf1_hash
      → IsBytes input
      → length input + 2 * oaep_hash.size + 2 ≤ modulus_size n
      → Runs p.rand p.rounds n oaep_hash.size s s1 s2 s3
      → (v : EncryptedValue) × (encrypt p (rsa_oaep_encrypter r) input public_key s ≡ (ok v, s1))
        × ((lift (new_encrypted_value p.json p.digests (to_serializable p.json v)) >>= λ v'.
                decrypt p v' private_key)
              s2
            ≡ (ok input, s3))
  unfolding encrypt decrypt decrypt_rsa
  decrypt-encrypt_rsa r oaep_hash mdf1_hash input oaep mdf1 bytes fits runs =
      let (out, out-IsBytes, encrypted, decrypted) =
        decrypt_rsa-encrypt p.rand p.digests r oaep_hash mdf1_hash p.rounds n priv input s s1 s2 s3
          laws.is_rand laws.is_digests oaep mdf1 key bytes fits runs in
      let ev : RsaOaepValue = record {
        encrypted = out;
        oaep_hash_alg = r.oaep_hash_alg;
        mdf1_hash_alg = r.mdf1_hash_alg;
      } in
      let readable : IsReadable p.json p.digests (rsa_oaep ev) = (
        out-IsBytes,
        hash-IsKnown p.digests r.oaep_hash_alg oaep,
        hash-IsKnown p.digests r.mdf1_hash_alg mdf1,
      ) in
      (
        rsa_oaep ev,
        rw encrypted,
        rw (
          new_value-to_serializable p.json p.digests laws.is_json (rsa_oaep ev) readable,
          decrypted,
        ),
      )

  -- Over the same packages and keys, for an input of bytes that is at least 66 bytes shorter than
  -- the modulus, a random source that gives the seed, and a search for a blinding number that
  -- returns: the legacy RSA-OAEP encrypter returns a value, and that value decrypts to the input.
  pub decrypt-encrypt_legacy_rsa :
      (input : Bytes)
      → IsBytes input
      → length input + 66 ≤ modulus_size n
      → Runs p.rand p.rounds n 32 s s1 s2 s3
      → (v : EncryptedValue) × (encrypt p legacy_rsa_oaep input public_key s ≡ (ok v, s1))
        × (decrypt p v private_key s2 ≡ (ok input, s3))
  unfolding encrypt decrypt decrypt_rsa decrypt_legacy hash
  decrypt-encrypt_legacy_rsa input bytes fits runs =
      let r : RsaOaepCipher = record { oaep_hash_alg = sha256; mdf1_hash_alg = sha1 } in
      let (out, out-IsBytes, encrypted, decrypted) =
        decrypt_rsa-encrypt p.rand p.digests r (record { size = 32; sum = p.digests.sha256 })
          (record { size = 20; sum = p.digests.sha1 }) p.rounds n priv input s s1 s2 s3 laws.is_rand
          laws.is_digests refl refl key bytes (omega (arith, fits)) runs in
      (legacy out, rw encrypted, rw decrypted)

module _ {S : Type 0} (p : Packages S) where
  -- The calls of a program that has a serialized key to encrypt with.
  abbrev pub encrypt_with : Encrypter → Bytes → Bytes → Exec S EncryptedValue
  encrypt_with e key_text input =
      lift (new_key_with_type p.formats key_text) >>= λ kwt. encrypt p e input kwt

  -- Over packages that meet their laws, for an RSA key that meets its laws, that validates and whose
  -- public half passes checkPub, with both keys written as text, an RSA-OAEP encrypter of known
  -- algorithms, an input of bytes that is short enough for the modulus, a random source that gives the
  -- seed, and a search for a blinding number that returns: a program that reads the text of the public
  -- key encrypts the input, and a program that reads the text of the private key and the text of the
  -- value decrypts the input.
  pub reload-encrypt_rsa :
      (n : ℕ) (priv : RsaPrivateKey) (s s1 s2 s3 : S) (public_text private_text : Bytes)
      (r : RsaOaepCipher) (oaep_hash mdf1_hash : Hash) (input : Bytes)
      → ArePackages p
      → IsKeyFor priv n
      → p.formats.validate priv ≡ true
      → key_to_serializable p.formats (rsa_public_key_from_key priv.public) ≡ ok public_text
      → key_to_serializable p.formats (rsa_private_key_from_key priv) ≡ ok private_text
      → hash p.digests r.oaep_hash_alg ≡ ok oaep_hash
      → hash p.digests r.mdf1_hash_alg ≡ ok mdf1_hash
      → IsBytes input
      → length input + 2 * oaep_hash.size + 2 ≤ modulus_size n
      → Runs p.rand p.rounds n oaep_hash.size s s1 s2 s3
      → (v : EncryptedValue) × (encrypt_with (rsa_oaep_encrypter r) public_text input s
          ≡ (ok v, s1))
        × (reload p private_text (to_serializable p.json v) s2 ≡ (ok input, s3))
  reload-encrypt_rsa n priv s s1 s2 s3 public_text private_text r oaep_hash mdf1_hash input laws key
        valid public_written private_written oaep mdf1 bytes fits runs =
      let (v, encrypted, decrypted) =
        decrypt-encrypt_rsa p laws n priv key rsa_pub_type rsa_priv_type s s1 s2 s3 r oaep_hash
          mdf1_hash input oaep mdf1 bytes fits runs in
      let read_public =
        new_key-to_serializable p.formats laws.is_formats rsa_pub_type (rsa_public_key priv.public)
          public_text refl public_written in
      let read_private =
        new_key-to_serializable p.formats laws.is_formats rsa_priv_type (rsa_private_key priv)
          private_text (refl, valid) private_written in
      (v, rw read_public encrypted, rw read_private decrypted)
