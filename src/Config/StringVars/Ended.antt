-- ===== src/Config/StringVars/Ended.antt =====
-- With an AES key, decryption of a text does not run out of fuel.
use go_encrypted_config_valu.Base.{
  ℕ, zero, suc, [], ◌∷◌, Option-cases, Bool-cases, inl, inr, Bytes, slice, from_end, arith, codes,
  drop, get_or, has_prefix, ◌+◌, ◌≢◌, length,
}
use go_encrypted_config_valu.Base64.{decode}
use go_encrypted_config_valu.Base.Outcome.{Outcome, starved}
use go_encrypted_config_valu.External.{Packages, Json, Digests, Gcm}
use go_encrypted_config_valu.Encryption.AesGcm as gcm
use go_encrypted_config_valu.Encryption.AesGcm.{AesGcmCipher, new_block_cipher, aead_open}
use go_encrypted_config_valu.Encryption.Exec.{Exec, ◌>>=◌, lift}
use go_encrypted_config_valu.Encryption.Exec.Keeps.{Ends, >>=-Ends, use-Ends}
use go_encrypted_config_valu.Encryption.Keys.{aes_key}
use go_encrypted_config_valu.Encryption.RsaOaep as rsa
use go_encrypted_config_valu.Encryption.RsaOaep.{hash, sha1, sha256}
use go_encrypted_config_valu.Config.KeyPair.{KeyWithType}
use go_encrypted_config_valu.Config.Value.{
  EncryptedValue, legacy, aes_gcm, rsa_oaep, unmarshal_aes, unmarshal_rsa, unmarshal_for,
  unmarshal_wrapper, new_encrypted_value, of_content, enc_prefix,
}
use go_encrypted_config_valu.Config.Value.Decrypt.{
  decrypt, decrypt_aes, decrypt_rsa, decrypt_legacy,
}
use go_encrypted_config_valu.Config.StringVars.{
  match_var, replace_from, replace_var, open_value, attempt, no_error, decrypt_replacer,
  decrypted_or_raw, decrypt_all_string_vars,
}
use go_encrypted_config_valu.Config.StringVars.Scan.{
  replace_nil, replace_suc, replace_other, replace_match,
}

unmarshal_aes-ended : (j : Json) (s : Bytes) → unmarshal_aes j s ≢ starved
unfolding unmarshal_aes
unmarshal_aes-ended j s = ground arith

unmarshal_rsa-ended :
    (j : Json) (digests : Digests) (s : Bytes) → unmarshal_rsa j digests s ≢ starved
unfolding unmarshal_rsa hash
unmarshal_rsa-ended j digests s = ground arith

decrypt_aes-ended :
    (g : Gcm) (a : AesGcmCipher) (s key : Bytes) → gcm.decrypt g a s (aes_key key) ≢ starved
unfolding gcm.decrypt new_block_cipher aead_open slice
decrypt_aes-ended g a s key = ground arith

unmarshal_for-ended :
    (j : Json) (digests : Digests) (a s : Bytes) → unmarshal_for j digests a s ≢ starved
unfolding unmarshal_for
unmarshal_for-ended j digests a s =
    let aes = unmarshal_aes-ended j s in
    let is_rsa = unmarshal_rsa-ended j digests s in ground arith

unmarshal_wrapper-ended :
    (j : Json) (digests : Digests) (s : Bytes) → unmarshal_wrapper j digests s ≢ starved
unfolding unmarshal_wrapper
unmarshal_wrapper-ended j digests s = elim (Option-cases (j.unmarshal (codes "type" ∷ []) s)) [
  | inl no_json ↦ rw no_json (λ e. cc)
  | inr (val, is_json) ↦ rw is_json (unmarshal_for-ended j digests (get_or val 0 []) s)
]

new_value-ended :
    (j : Json) (digests : Digests) (s : Bytes) → new_encrypted_value j digests s ≢ starved
unfolding new_encrypted_value of_content
new_value-ended j digests s = elim (Bool-cases (has_prefix s enc_prefix)) [
  | inr plain ↦ rw plain (λ e. cc)
  | inl encrypted ↦ elim (Option-cases (decode (drop 4 s))) [
    | inl no_base64 ↦ rw (encrypted, no_base64) (λ e. cc)
    | inr (content, is_content) ↦ elim (Option-cases (j.unmarshal [] content)) [
      | inl no_json ↦ rw (encrypted, is_content, no_json) (λ e. cc)
      | inr (fields, is_json) ↦
          rw (encrypted, is_content, is_json) (unmarshal_wrapper-ended j digests content)
    ]
  ]
]

from_end-ended : (s : Bytes) (n : ℕ) → from_end s n ≢ starved
unfolding from_end
from_end-ended s n = ground arith

slice-ended : (s : Bytes) (lo hi : ℕ) → slice s lo hi ≢ starved
unfolding slice
slice-ended s lo hi = ground arith

abbrev Always : {S : Type 0} → S → Type 0
Always s = Unit

abbrev EndsAlways : {S A : Type 0} → Exec S A → Type 0
EndsAlways {S} m = Ends {S = S} Always m

bind-Ends :
    {S A B : Type 0} (m : Exec S A) (f : A → Exec S B)
    → EndsAlways m
    → ((a : A) → EndsAlways (f a))
    → EndsAlways (m >>= f)
bind-Ends m f em ef = >>=-Ends Always m f (λ a. Unit) em (λ s i a e. (tt, tt)) (λ a x. ef a)

lift-Ends : {S A : Type 0} (r : Outcome A) → r ≢ starved → EndsAlways {S = S} (lift r)
lift-Ends r h s i = h

module _ {S : Type 0} (p : Packages S) (kind key : Bytes) where
  abbrev pub aes_kwt : KeyWithType
  aes_kwt = record { key_type = kind; key = aes_key key }

  decrypt_legacy-Ends : (bytes : Bytes) → EndsAlways (decrypt_legacy p bytes (aes_key key))
  unfolding decrypt_legacy decrypt_aes
  decrypt_legacy-Ends bytes = bind-Ends _ _ (lift-Ends _ (from_end-ended bytes 16)) λ tag_start.
      bind-Ends _ _ (lift-Ends _ (slice-ended bytes 32 tag_start)) λ encrypted.
        bind-Ends _ _ (lift-Ends _ (slice-ended bytes 0 32)) λ nonce.
          bind-Ends _ _ (lift-Ends _ (slice-ended bytes tag_start (length bytes)))
            λ tag. lift-Ends _ (decrypt_aes-ended p.gcm _ _ key)

  decrypt-Ends : (v : EncryptedValue) → EndsAlways (decrypt p v aes_kwt)
  unfolding decrypt decrypt_aes decrypt_rsa rsa.decrypt
  decrypt-Ends (legacy bytes) = decrypt_legacy-Ends bytes
  decrypt-Ends (aes_gcm ev) = lift-Ends _ (decrypt_aes-ended p.gcm _ _ key)
  decrypt-Ends (rsa_oaep ev) = λ s i e. cc

  open_value-Ends : (raw : Bytes) → EndsAlways (open_value p aes_kwt raw)
  unfolding open_value
  open_value-Ends raw =
      bind-Ends _ _ (lift-Ends _ (new_value-ended p.json p.digests raw))
        λ v. use-Ends Always (decrypt p v aes_kwt) _ (decrypt-Ends v)

  replacer-Ends : (raw : Bytes) → EndsAlways (replace_var (decrypt_replacer p aes_kwt) raw)
  unfolding decrypt_replacer attempt no_error decrypted_or_raw
  replacer-Ends raw t i = let opened = open_value-Ends raw t i in ground arith

module _ {S : Type 0} (f : Bytes → Exec S Bytes) (ends : (raw : Bytes) → EndsAlways (f raw)) where
  replace-Ends : (s : Bytes) (skip : ℕ) → EndsAlways (replace_from f skip s)
  replace-Ends [] zero t i = rw (replace_nil f zero t) (λ e. cc)
  replace-Ends [] (suc skip) t i = rw (replace_nil f (suc skip) t) (λ e. cc)
  replace-Ends (c ∷ s) (suc skip) t i = rw (replace_suc f c s skip t) (replace-Ends s skip t i)
  replace-Ends (c ∷ s) zero t i = elim (Option-cases (match_var (c ∷ s))) [
    | inl missing ↦
        rw (replace_other f c s t missing)
          (use-Ends Always (replace_from f 0 s) _ (replace-Ends s zero) t i)
    | inr (content, found) ↦ rw (replace_match f c s content t found) (
        bind-Ends (f content) _ (ends content)
          (λ replacement.
            use-Ends Always (replace_from f (length content + 2) s) _
              (replace-Ends s (length content + 2)))
          t i)
  ]

-- With an AES key, DecryptAllEncryptedValueStringVars of a text does not run out of fuel.
pub decrypt_all-ended :
    {S : Type 0} (p : Packages S) (kind key s : Bytes) (t : S)
    → (decrypt_all_string_vars p (record { key_type = kind; key = aes_key key }) s t).0 ≢ starved
unfolding decrypt_all_string_vars
decrypt_all-ended p kind key s t = replace-Ends _ (replacer-Ends p kind key) s 0 t tt
