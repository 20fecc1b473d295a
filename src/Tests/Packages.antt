-- ===== src/Tests/Packages.antt =====
-- Small implementations of the interfaces of External that meet all their laws: a counting generator,
-- a cipher that only adds a tag, and formats that write numbers in unary.
use go_encrypted_config_valu.Base.{
  ℕ, zero, suc, ◌+◌, ◌-◌, ◌%◌, ◌<◌, true, false, List, [], ◌∷◌, ◌++◌, map, Option, none, some,
  Bytes, IsBytes, IsByte, All-append, length, take, replicate, ◌==◌, if◌then◌else◌, ◌≡◌, refl, ap,
  arith, length-append, length-replicate, take_left_of_eq,
}
use go_encrypted_config_valu.External.{
  Rand, IsRand, Gcm, IsGcm, Digests, IsDigests, Json, IsJson, field, are_fields, is_plain, AreAscii,
  IsAscii, PublicKey, KeyFormats, IsKeyFormats, Packages, ArePackages,
}

pub replicate-IsBytes : (n c : ℕ) → c < 256 → IsBytes (replicate n c)
replicate-IsBytes zero c h = tt
replicate-IsBytes (suc n) c h = (h, replicate-IsBytes n c h)

-- The generator repeats one byte in each read.
abbrev draw_bytes : ℕ → ℕ → Option Bytes × ℕ
draw_bytes n s = (some (replicate n (s % 256)), s + 1)

abbrev draw_int : ℕ → ℕ → Option ℕ × ℕ
draw_int zero s = (none, s)
draw_int (suc m) s = (some (s % suc m), s + 1)

abbrev pub rand : Rand ℕ
rand = record { read = draw_bytes; int = draw_int; generate = λ n s. (none, s) }

draw_int_lt : (m s i : ℕ) → (draw_int m s).0 ≡ some i → i < m
draw_int_lt zero s i h = absurd (cc)
draw_int_lt (suc m) s i h = ground arith

pub rand-IsRand : IsRand rand
rand-IsRand = record {
  length-read =
      λ n s b h. let e : replicate n (s % 256) ≡ b = cc in rw (← e) (length-replicate n (s % 256));
  read-IsBytes = λ n s b h.
      let e : replicate n (s % 256) ≡ b = cc in
      rw (← e) (replicate-IsBytes n (s % 256) (omega arith));
  int-lt = draw_int_lt;
}

-- The tag is 16 zeros.
abbrev pub gcm : Gcm
gcm = record {
  seal = λ key nonce text. text ++ replicate 16 0;
  unseal = λ key nonce sealed. some (take (length sealed - 16) sealed);
}

pub gcm-IsGcm : IsGcm gcm
gcm-IsGcm = record {
  unseal-seal = λ key nonce text. ap some (
      take_left_of_eq _ text (replicate 16 0) (omega (arith, length-append text (replicate 16 0))));
  length-seal = λ key nonce text. omega (arith, length-append text (replicate 16 0));
  seal-IsBytes = λ key nonce text h. All-append IsByte text (replicate 16 0) h (omega arith);
}

abbrev pub digests : Digests
digests = record { sha1 = λ s. replicate 20 7; sha256 = λ s. replicate 32 7 }

pub digests-IsDigests : IsDigests digests
digests-IsDigests = record {
  length-sha1 = λ s. refl;
  length-sha256 = λ s. refl;
  sha1-IsBytes = λ s. replicate-IsBytes 20 7 (omega arith);
  sha256-IsBytes = λ s. replicate-IsBytes 32 7 (omega arith);
}

-- A text of the format: each byte behind a one, and a zero at the end.
abbrev write_text : Bytes → Bytes → Bytes
write_text [] rest = 0 ∷ rest
write_text (c ∷ s) rest = 1 ∷ c ∷ write_text s rest

abbrev onto_text : ℕ → List Bytes → List Bytes
onto_text c [] = []
onto_text c (s ∷ texts) = (c ∷ s) ∷ texts

abbrev read_texts : Bytes → List Bytes
read_texts [] = []
read_texts (zero ∷ rest) = [] ∷ read_texts rest
read_texts (suc k ∷ []) = []
read_texts (suc k ∷ c ∷ rest) = onto_text c (read_texts rest)

read_texts-write : (s rest : Bytes) → read_texts (write_text s rest) ≡ s ∷ read_texts rest
read_texts-write [] rest = refl
read_texts-write (c ∷ s) rest = ap (onto_text c) (read_texts-write s rest)

write_text-IsBytes : (s rest : Bytes) → IsAscii s → IsBytes rest → IsBytes (write_text s rest)
write_text-IsBytes [] rest h hr = (omega arith, hr)
write_text-IsBytes (c ∷ s) rest (p, h) hr =
    (omega arith, (omega arith, write_text-IsBytes s rest h hr))

abbrev write_fields : List (Bytes × Bytes) → Bytes
write_fields [] = []
write_fields ((k, v) ∷ fields) = write_text k (write_text v (write_fields fields))

abbrev pairs : List Bytes → List (Bytes × Bytes)
pairs [] = []
pairs (k ∷ []) = []
pairs (k ∷ v ∷ texts) = (k, v) ∷ pairs texts

pairs-write : (fields : List (Bytes × Bytes)) → pairs (read_texts (write_fields fields)) ≡ fields
pairs-write [] = refl
pairs-write ((k, v) ∷ fields) = rw (
  read_texts-write k (write_text v (write_fields fields)),
  read_texts-write v (write_fields fields),
  pairs-write fields,
)

is_plain-cons : (c : ℕ) (s : Bytes) → is_plain (c ∷ s) ≡ true → (c < 128) × (is_plain s ≡ true)
is_plain-cons c s h = ground arith

is_plain-IsAscii : (s : Bytes) → is_plain s ≡ true → IsAscii s
is_plain-IsAscii [] h = tt
is_plain-IsAscii (c ∷ s) h = let (p, rest) = is_plain-cons c s h in (p, is_plain-IsAscii s rest)

are_fields-cons :
    (k v : Bytes) (fields : List (Bytes × Bytes))
    → are_fields ((k, v) ∷ fields) ≡ true
    → (is_plain k ≡ true) × (are_fields fields ≡ true)
are_fields-cons k v fields h = ground arith

write_fields-IsBytes :
    (fields : List (Bytes × Bytes))
    → are_fields fields ≡ true
    → AreAscii fields
    → IsBytes (write_fields fields)
write_fields-IsBytes [] names h = tt
write_fields-IsBytes ((k, v) ∷ fields) names (p, h) =
    let (plain, rest) = are_fields-cons k v fields names in
    write_text-IsBytes k _ (is_plain-IsAscii k plain)
      (write_text-IsBytes v _ p (write_fields-IsBytes fields rest h))

abbrev unmarshal : List Bytes → Bytes → Option (List Bytes)
unmarshal names [] = none
unmarshal names (c ∷ s) =
    if c == b'{' then some (map (λ name. field name (pairs (read_texts s))) names) else none

abbrev pub json : Json
json = record { marshal = λ fields. b'{' ∷ write_fields fields; unmarshal = unmarshal }

pub json-IsJson : IsJson json
json-IsJson = record {
  unmarshal-marshal = λ names fields plain different ascii.
      ap (λ found. some (map (λ name. field name found) names)) (pairs-write fields);
  marshal-IsBytes =
      λ fields different ascii. (omega arith, write_fields-IsBytes fields different ascii);
}

-- A number as that many ones and a zero.
abbrev write_number : ℕ → Bytes → Bytes
write_number zero rest = 0 ∷ rest
write_number (suc n) rest = 1 ∷ write_number n rest

abbrev one_more : ℕ × Bytes → ℕ × Bytes
one_more (n, rest) = (suc n, rest)

abbrev read_number : Bytes → ℕ × Bytes
read_number [] = (0, [])
read_number (zero ∷ rest) = (0, rest)
read_number (suc k ∷ rest) = one_more (read_number rest)

read_number-write : (n : ℕ) (rest : Bytes) → read_number (write_number n rest) ≡ (n, rest)
read_number-write zero rest = refl
read_number-write (suc n) rest = ap one_more (read_number-write n rest)

write_number-IsBytes : (n : ℕ) (rest : Bytes) → IsBytes rest → IsBytes (write_number n rest)
write_number-IsBytes zero rest h = (omega arith, h)
write_number-IsBytes (suc n) rest h = (omega arith, write_number-IsBytes n rest h)

abbrev write_modulus : Option ℕ → ℕ → Option Bytes
write_modulus none e = none
write_modulus (some n) e = some (write_number n (write_number e []))

abbrev parse_pkix : Bytes → Option PublicKey
parse_pkix s =
    let (n, rest) = read_number s in
    some (PublicKey.rsa (record { n = some n; e = (read_number rest).0 }))

parse_pkix-write :
    (n e : ℕ)
    → parse_pkix (write_number n (write_number e []))
      ≡ some (PublicKey.rsa (record { n = some n; e = e }))
parse_pkix-write n e = rw (read_number-write n (write_number e []), read_number-write e [])

-- Only public keys are written.
abbrev pub formats : KeyFormats
formats = record {
  marshal_pkix = λ k. write_modulus k.n k.e;
  parse_pkix = parse_pkix;
  pem_encode = λ kind b. b;
  pem_decode = λ b. some b;
  marshal_pkcs1 = λ k. [];
  marshal_asn1 = λ i. none;
  parse_pkcs8 = λ b. none;
  validate = λ k. false;
}

write_modulus-parse :
    (n : Option ℕ) (e : ℕ) (b : Bytes)
    → write_modulus n e ≡ some b
    → (parse_pkix b ≡ some (PublicKey.rsa (record { n = n; e = e }))) × IsBytes b
write_modulus-parse none e b h = absurd (cc)
write_modulus-parse (some n) e b h =
    let is_b : write_number n (write_number e []) ≡ b = cc in
    rw (← is_b) (
      parse_pkix-write n e,
      write_number-IsBytes n (write_number e []) (write_number-IsBytes e [] tt),
    )

pub formats-IsKeyFormats : IsKeyFormats formats
formats-IsKeyFormats = record {
  parse_pkix-marshal = λ k b h. (write_modulus-parse k.n k.e b h).0;
  marshal_pkix-IsBytes = λ k b h. (write_modulus-parse k.n k.e b h).1;
  pem_decode-encode = λ kind b. refl;
  pem_encode-IsBytes = λ kind b h. h;
  parse_pkcs8-marshal = λ k b v h. absurd (cc);
  marshal_asn1-IsBytes = λ i b h. absurd (cc);
}

abbrev pub packages : Packages ℕ
packages = record {
  rand = rand;
  gcm = gcm;
  digests = digests;
  json = json;
  formats = formats;
  rounds = 1;
}

pub packages-ArePackages : ArePackages packages
packages-ArePackages = record {
  is_rand = rand-IsRand;
  is_gcm = gcm-IsGcm;
  is_digests = digests-IsDigests;
  is_json = json-IsJson;
  is_formats = formats-IsKeyFormats;
}
