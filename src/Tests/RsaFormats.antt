-- ===== src/Tests/RsaFormats.antt =====
-- Formats that write one RSA key only, in no bytes, and meet all their laws.
use go_encrypted_config_valu.Base.{
  ℕ, ◌*◌, Bool, true, false, ◌&&◌, List, [], ◌∷◌, Option, none, some, Bytes, IsBytes, ◌==◌,
  if◌then◌else◌, ◌≡◌, refl, sym, ap, ap₂, ◌∙◌, subst, ==_iff, Bool-cases, inl, inr,
}
use go_encrypted_config_valu.External.{
  RsaPublicKey, RsaPrivateKey, Precomputed, CrtValue, PublicKey, PrivateKey, KeyFormats,
  IsKeyFormats, Packages, ArePackages,
}
use go_encrypted_config_valu.Tests.Packages.{packages, packages-ArePackages}
use go_encrypted_config_valu.Tests.ProthKey.{prime, exponent, pre, key}

both_true : (a b : Bool) → (a && b) ≡ true → (a ≡ true) × (b ≡ true)
both_true true b h = (refl, h)
both_true false b h = absurd (cc)

abbrev pub is_public : Option ℕ → ℕ → Bool
is_public none e = false
is_public (some m) e = m == 3 * prime && e == 3

is_public-eq : (m : Option ℕ) (e : ℕ) → is_public m e ≡ true → (m ≡ some (3 * prime)) × (e ≡ 3)
is_public-eq none e h = absurd (cc)
is_public-eq (some m) e h =
    let (same_n, same_e) = both_true (m == 3 * prime) (e == 3) h in
    (ap some ((==_iff m (3 * prime)).0 same_n), (==_iff e 3).0 same_e)

abbrev pub are_primes : List ℕ → Bool
are_primes [] = false
are_primes (p ∷ []) = false
are_primes (p ∷ q ∷ []) = p == 3 && q == prime
are_primes (p ∷ q ∷ r ∷ ps) = false

are_primes-eq : (ps : List ℕ) → are_primes ps ≡ true → ps ≡ key.primes
are_primes-eq [] h = absurd (cc)
are_primes-eq (p ∷ []) h = absurd (cc)
are_primes-eq (p ∷ q ∷ []) h =
    let (same_p, same_q) = both_true (p == 3) (q == prime) h in
    ap₂ (λ a b. a ∷ b ∷ []) ((==_iff p 3).0 same_p) ((==_iff q prime).0 same_q)
are_primes-eq (p ∷ q ∷ r ∷ ps) h = absurd (cc)

abbrev pub no_values : List CrtValue → Bool
no_values [] = true
no_values (v ∷ vs) = false

no_values-eq : (vs : List CrtValue) → no_values vs ≡ true → vs ≡ []
no_values-eq [] h = refl
no_values-eq (v ∷ vs) h = absurd (cc)

abbrev values_of : ℕ → ℕ → ℕ → List CrtValue → Option Precomputed
values_of dp dq qinv vs = some (record { dp = dp; dq = dq; qinv = qinv; crt_values = vs })

abbrev pub is_stored : Option Precomputed → Bool
is_stored none = false
is_stored (some x) =
    x.dp == pre.dp && (x.dq == pre.dq && (x.qinv == pre.qinv && no_values x.crt_values))

is_stored-eq : (x : Option Precomputed) → is_stored x ≡ true → x ≡ some pre
is_stored-eq none h = absurd (cc)
is_stored-eq (some x) h =
    let none_more = no_values x.crt_values in
    let (same_dp, h1) =
      both_true (x.dp == pre.dp) (x.dq == pre.dq && (x.qinv == pre.qinv && none_more)) h in
    let (same_dq, h2) = both_true (x.dq == pre.dq) (x.qinv == pre.qinv && none_more) h1 in
    let (same_qinv, rest) = both_true (x.qinv == pre.qinv) none_more h2 in
    ap₂ (λ a b. values_of a b x.qinv x.crt_values) ((==_iff x.dp pre.dp).0 same_dp)
      ((==_iff x.dq pre.dq).0 same_dq)
    ∙ ap₂ (values_of pre.dp pre.dq) ((==_iff x.qinv pre.qinv).0 same_qinv)
        (no_values-eq x.crt_values rest)

abbrev pub is_key : RsaPrivateKey → Bool
is_key k =
    is_public k.public.n k.public.e
    && (k.d == exponent && (are_primes k.primes && is_stored k.precomputed))

abbrev public_of : Option ℕ → ℕ → RsaPublicKey
public_of m e = record { n = m; e = e }

abbrev private_of : RsaPublicKey → ℕ → List ℕ → Option Precomputed → RsaPrivateKey
private_of public d ps pre = record { public = public; d = d; primes = ps; precomputed = pre }

public-eq : (k : RsaPublicKey) → is_public k.n k.e ≡ true → k ≡ key.public
public-eq k h = let (same_n, same_e) = is_public-eq k.n k.e h in ap₂ public_of same_n same_e

is_key-eq : (k : RsaPrivateKey) → is_key k ≡ true → k ≡ key
is_key-eq k h =
    let last = are_primes k.primes && is_stored k.precomputed in
    let (public, h1) = both_true (is_public k.public.n k.public.e) (k.d == exponent && last) h in
    let (same_d, h2) = both_true (k.d == exponent) last h1 in
    let (same_primes, stored) = both_true (are_primes k.primes) (is_stored k.precomputed) h2 in
    ap₂ (λ public' d. private_of public' d k.primes k.precomputed) (public-eq k.public public)
      ((==_iff k.d exponent).0 same_d)
    ∙ ap₂ (private_of key.public exponent) (are_primes-eq k.primes same_primes)
        (is_stored-eq k.precomputed stored)

abbrev pub write_public : Option ℕ → ℕ → Option Bytes
write_public m e = if is_public m e then some [] else none

write_public-eq :
    (m : Option ℕ) (e : ℕ) (b : Bytes)
    → write_public m e ≡ some b
    → (is_public m e ≡ true) × (b ≡ [])
write_public-eq m e b h = elim (Bool-cases (is_public m e)) [
  | inl same ↦
      let written : some [] ≡ some b = rw same at h in let empty : [] ≡ b = cc in (same, sym empty)
  | inr other ↦ absurd (let missing = rw other at h in cc)
]

abbrev pub key_formats : KeyFormats
key_formats = record {
  marshal_pkix = λ k. write_public k.n k.e;
  parse_pkix = λ b. some (PublicKey.rsa key.public);
  pem_encode = λ kind b. b;
  pem_decode = λ b. some b;
  marshal_pkcs1 = λ k. [];
  marshal_asn1 = λ i. some [];
  parse_pkcs8 = λ b. some (PrivateKey.rsa key);
  validate = is_key;
}

key_formats-IsKeyFormats : IsKeyFormats key_formats
key_formats-IsKeyFormats = record {
  parse_pkix-marshal = λ k b h.
      ap (λ k'. some (PublicKey.rsa k')) (sym (public-eq k (write_public-eq k.n k.e b h).0));
  marshal_pkix-IsBytes = λ k b h. subst IsBytes (sym (write_public-eq k.n k.e b h).1) tt;
  pem_decode-encode = λ kind b. refl;
  pem_encode-IsBytes = λ kind b h. h;
  parse_pkcs8-marshal = λ k b v h. ap (λ k'. some (PrivateKey.rsa k')) (sym (is_key-eq k v));
  marshal_asn1-IsBytes = λ i b h. let empty : [] ≡ b = cc in subst IsBytes empty tt;
}

pub is_valid : key_formats.validate key ≡ true
is_valid = refl

abbrev pub key_packages : Packages ℕ
key_packages = record packages { formats = key_formats }

pub key_packages-ArePackages : ArePackages key_packages
key_packages-ArePackages = record {
  is_rand = packages-ArePackages.is_rand;
  is_gcm = packages-ArePackages.is_gcm;
  is_digests = packages-ArePackages.is_digests;
  is_json = packages-ArePackages.is_json;
  is_formats = key_formats-IsKeyFormats;
}
