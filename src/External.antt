-- ===== src/External.antt =====
-- What the program takes from Go's cryptographic and JSON packages. Each interface is a record of
-- operations, and a record of the documented laws that the theorems use.
use go_encrypted_config_valu.Base.{
  ℕ, ◌+◌, ◌<◌, Bool, true, false, not, ◌&&◌, ◌||◌, List, [], ◌∷◌, map, Option, some, Bytes, IsBytes,
  All, length, leb, ◌==◌, str_eq, if◌then◌else◌, ◌≡◌,
}

-- crypto/rsa: the types PublicKey and PrivateKey. A big.Int is a natural number here: moduli,
-- exponents and primes are not negative. `none` for `n` and `precomputed` is Go's nil.
pub record RsaPublicKey : Type 0 where
  pub n : Option ℕ
  pub e : ℕ

pub record CrtValue : Type 0 where
  pub exp : ℕ
  pub coeff : ℕ
  pub r : ℕ

pub record Precomputed : Type 0 where
  pub dp : ℕ
  pub dq : ℕ
  pub qinv : ℕ
  pub crt_values : List CrtValue

pub record RsaPrivateKey : Type 0 where
  pub public : RsaPublicKey
  pub d : ℕ
  pub primes : List ℕ
  pub precomputed : Option Precomputed

-- crypto/rand: the generator has a state, and a read may fail. `read n` is `rand.Read` into `n`
-- bytes, `int m` is `rand.Int(rand.Reader, m)`, and `generate` is `rsa.GenerateKey`.
pub record Rand (S : Type 0) : Type 0 where
  pub read : ℕ → S → Option Bytes × S
  pub int : ℕ → S → Option ℕ × S
  pub generate : ℕ → S → Option RsaPrivateKey × S

pub record IsRand {S : Type 0} (r : Rand S) : Type 0 where
  pub length-read : (n : ℕ) (s : S) (b : Bytes) → (r.read n s).0 ≡ some b → length b ≡ n
  pub read-IsBytes : (n : ℕ) (s : S) (b : Bytes) → (r.read n s).0 ≡ some b → IsBytes b
  pub int-lt : (m : ℕ) (s : S) (i : ℕ) → (r.int m s).0 ≡ some i → i < m

-- crypto/aes and crypto/cipher: the two directions of AES-GCM with the standard 16 byte tag, for a
-- key, a nonce and a text. `unseal` fails on a text that is not authentic.
pub record Gcm : Type 0 where
  pub seal : Bytes → Bytes → Bytes → Bytes
  pub unseal : Bytes → Bytes → Bytes → Option Bytes

pub record IsGcm (g : Gcm) : Type 0 where
  pub unseal-seal :
      (key nonce text : Bytes) → g.unseal key nonce (g.seal key nonce text) ≡ some text
  pub length-seal : (key nonce text : Bytes) → length (g.seal key nonce text) ≡ length text + 16
  pub seal-IsBytes : (key nonce text : Bytes) → IsBytes text → IsBytes (g.seal key nonce text)

-- crypto/sha1 and crypto/sha256: the digest of all bytes written to a hash.
pub record Digests : Type 0 where
  pub sha1 : Bytes → Bytes
  pub sha256 : Bytes → Bytes

pub record IsDigests (d : Digests) : Type 0 where
  pub length-sha1 : (s : Bytes) → length (d.sha1 s) ≡ 20
  pub length-sha256 : (s : Bytes) → length (d.sha256 s) ≡ 32
  pub sha1-IsBytes : (s : Bytes) → IsBytes (d.sha1 s)
  pub sha256-IsBytes : (s : Bytes) → IsBytes (d.sha256 s)

-- The value of the first field of that name, or the empty string.
abbrev pub field : Bytes → List (Bytes × Bytes) → Bytes
field name [] = []
field name ((k, v) ∷ fields) = if str_eq name k then v else field name fields

-- A name that matches only itself where case is ignored.
abbrev pub is_plain : Bytes → Bool
is_plain [] = true
is_plain (c ∷ s) = (leb b'a' c && leb c b'z' || leb b'0' c && leb c b'9' || c == b'-') && is_plain s

abbrev pub has_name : Bytes → List (Bytes × Bytes) → Bool
has_name name [] = false
has_name name ((k, v) ∷ fields) = str_eq name k || has_name name fields

-- Plain names, all different.
abbrev pub are_fields : List (Bytes × Bytes) → Bool
are_fields [] = true
are_fields ((k, v) ∷ fields) = is_plain k && not (has_name k fields) && are_fields fields

abbrev pub are_plain : List Bytes → Bool
are_plain [] = true
are_plain (name ∷ names) = is_plain name && are_plain names

abbrev pub IsAscii : Bytes → Type 0
IsAscii = All (λ c. c < 128)

abbrev pub AreAscii : List (Bytes × Bytes) → Type 0
AreAscii = All (λ f. IsAscii f.1)

-- encoding/json: `marshal` writes a struct of string fields, given by name and value. `unmarshal`
-- reads into a struct whose string fields have these names, and gives their values in that order;
-- a field that the text does not set is the empty string. `none` is any error.
pub record Json : Type 0 where
  pub marshal : List (Bytes × Bytes) → Bytes
  pub unmarshal : List Bytes → Bytes → Option (List Bytes)

pub record IsJson (j : Json) : Type 0 where
  pub unmarshal-marshal :
      (names : List Bytes) (fields : List (Bytes × Bytes))
      → are_plain names ≡ true
      → are_fields fields ≡ true
      → AreAscii fields
      → j.unmarshal names (j.marshal fields) ≡ some (map (λ name. field name fields) names)
  pub marshal-IsBytes :
      (fields : List (Bytes × Bytes))
      → are_fields fields ≡ true
      → AreAscii fields
      → IsBytes (j.marshal fields)

-- crypto/x509, encoding/pem and encoding/asn1. A parsed key need not be an RSA key.
pub data PublicKey : Type 0 where
  rsa : RsaPublicKey → PublicKey
  other : PublicKey

pub data PrivateKey : Type 0 where
  rsa : RsaPrivateKey → PrivateKey
  other : PrivateKey

-- The PKCS#8 structure that the program hands to asn1.Marshal.
pub record PrivateKeyInfo : Type 0 where
  pub version : ℕ
  pub algorithm : List (List ℕ)
  pub key : Bytes

pub record KeyFormats : Type 0 where
  pub marshal_pkix : RsaPublicKey → Option Bytes
  pub parse_pkix : Bytes → Option PublicKey
  -- The type and the content of a block.
  pub pem_encode : Bytes → Bytes → Bytes
  pub pem_decode : Bytes → Option Bytes
  pub marshal_pkcs1 : RsaPrivateKey → Bytes
  pub marshal_asn1 : PrivateKeyInfo → Option Bytes
  pub parse_pkcs8 : Bytes → Option PrivateKey
  -- The key passes (*PrivateKey).Validate and is precomputed.
  pub validate : RsaPrivateKey → Bool

-- 1.2.840.113549.1.1.1
abbrev pub rsa_encryption : List ℕ
rsa_encryption = 1 ∷ 2 ∷ 840 ∷ 113549 ∷ 1 ∷ 1 ∷ 1 ∷ []

pub record IsKeyFormats (f : KeyFormats) : Type 0 where
  pub parse_pkix-marshal :
      (k : RsaPublicKey) (b : Bytes)
      → f.marshal_pkix k ≡ some b
      → f.parse_pkix b ≡ some (PublicKey.rsa k)
  pub pem_decode-encode : (kind b : Bytes) → f.pem_decode (f.pem_encode kind b) ≡ some b
  pub marshal_pkix-IsBytes : (k : RsaPublicKey) (b : Bytes) → f.marshal_pkix k ≡ some b → IsBytes b
  pub pem_encode-IsBytes : (kind b : Bytes) → IsBytes b → IsBytes (f.pem_encode kind b)
  pub parse_pkcs8-marshal :
      (k : RsaPrivateKey) (b : Bytes)
      → f.validate k ≡ true
      → f.marshal_asn1
          (record { version = 0; algorithm = rsa_encryption ∷ []; key = f.marshal_pkcs1 k })
        ≡ some b
      → f.parse_pkcs8 b ≡ some (PrivateKey.rsa k)
  pub marshal_asn1-IsBytes :
      (i : PrivateKeyInfo) (b : Bytes) → f.marshal_asn1 i ≡ some b → IsBytes b

-- All of them, and the rounds that the blinding of a private RSA operation may take.
pub record Packages (S : Type 0) : Type 0 where
  pub rand : Rand S
  pub gcm : Gcm
  pub digests : Digests
  pub json : Json
  pub formats : KeyFormats
  pub rounds : ℕ

pub record ArePackages {S : Type 0} (p : Packages S) : Type 0 where
  pub is_rand : IsRand p.rand
  pub is_gcm : IsGcm p.gcm
  pub is_digests : IsDigests p.digests
  pub is_json : IsJson p.json
  pub is_formats : IsKeyFormats p.formats
