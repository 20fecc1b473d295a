-- ===== src/Tests/RsaKey.antt =====
-- An RSA key that meets its laws: its modulus is the product of many small primes, with one exponent
-- that undoes itself modulo each of them.
use go_encrypted_config_valu.Base.{
  ℕ, zero, suc, ◌*◌, ◌%◌, ◌^◌, ◌<◌, ◌≡◌, List, [], ◌∷◌, none, some, arith, refl, ◌∙◌, sym, ap, Bool,
  true, false, ◌&&◌, ◌==◌, ltb, Bool-cases, inl, inr, ==_iff,
}
use go_encrypted_config_valu.Base.Mod.{Congruent, pow-Congruent, pow-mul}
use go_encrypted_config_valu.External.{RsaPrivateKey}
use go_encrypted_config_valu.Encryption.Oaep.Crt.Combine.{unique}
use go_encrypted_config_valu.Encryption.Oaep.Rsa.{raw_by, check_modulus}
use go_encrypted_config_valu.Encryption.Oaep.Rsa.Blinding.{IsRsaKey}
use go_encrypted_config_valu.Encryption.RsaOaep.RoundTrip.{IsKeyFor}
use native.Mathlib.Nat.{
  mod-mod, mod-lt, mod-eq_of_lt, mod-mod_of_dvd, dvd-mul_left, dvd-mul_right, mul-pos,
}

-- The exponent, public and private.
abbrev pub exponent : ℕ
exponent = 352351

-- Primes, each with an inverse of the product of those behind it.
abbrev primes : List (ℕ × ℕ)
primes =
    (2861, 2824)
    ∷ (2731, 1876)
    ∷ (2521, 1009)
    ∷ (2377, 2363)
    ∷ (2341, 1251)
    ∷ (2311, 861)
    ∷ (2161, 1993)
    ∷ (2081, 622)
    ∷ (2017, 1241)
    ∷ (2003, 1167)
    ∷ (1873, 1481)
    ∷ (1321, 843)
    ∷ (1249, 180)
    ∷ (1171, 933)
    ∷ (1093, 1035)
    ∷ (1009, 929)
    ∷ (991, 950)
    ∷ (937, 55)
    ∷ (911, 121)
    ∷ (881, 165)
    ∷ (859, 148)
    ∷ (757, 522)
    ∷ (673, 42)
    ∷ (661, 539)
    ∷ (631, 338)
    ∷ (617, 311)
    ∷ (547, 171)
    ∷ (541, 81)
    ∷ (521, 198)
    ∷ (463, 131)
    ∷ (433, 190)
    ∷ (421, 27)
    ∷ (397, 13)
    ∷ (379, 155)
    ∷ (353, 243)
    ∷ (337, 303)
    ∷ (331, 170)
    ∷ (313, 48)
    ∷ (281, 151)
    ∷ (271, 119)
    ∷ (241, 104)
    ∷ (211, 161)
    ∷ (199, 169)
    ∷ (181, 96)
    ∷ (157, 91)
    ∷ (131, 18)
    ∷ (127, 23)
    ∷ (113, 76)
    ∷ (109, 23)
    ∷ (97, 20)
    ∷ (89, 43)
    ∷ (79, 2)
    ∷ (73, 13)
    ∷ (71, 12)
    ∷ (67, 50)
    ∷ (61, 36)
    ∷ (53, 41)
    ∷ (43, 5)
    ∷ (41, 7)
    ∷ (37, 27)
    ∷ (31, 18)
    ∷ (29, 12)
    ∷ (23, 20)
    ∷ (19, 18)
    ∷ (17, 15)
    ∷ (13, 3)
    ∷ (11, 1)
    ∷ (7, 4)
    ∷ (5, 1)
    ∷ (3, 2)
    ∷ (2, 1)
    ∷ []

product : List (ℕ × ℕ) → ℕ
product [] = 1
product ((p, i) ∷ ps) = p * product ps

-- The power with the exponent, in three steps.
power : ℕ → ℕ → ℕ
power p x = ((x ^ 37 % p) ^ 89 % p) ^ 107 % p

-- The power undoes itself on the numbers below `k`.
undoes : ℕ → ℕ → Bool
unfolding power
undoes p zero = true
undoes p (suc k) = power p (power p k) == k && undoes p k

are_primes : List (ℕ × ℕ) → Bool
unfolding product undoes
are_primes [] = true
are_primes ((p, i) ∷ ps) =
    (ltb 0 p && ltb 0 (product ps))
    && ((product ps * i) % p == 1 % p && (undoes p p && are_primes ps))

checked : are_primes primes ≡ true
unfolding are_primes undoes product power
checked = refl

power_lem : (p x : ℕ) → Congruent p (power p x) (x ^ exponent)
unfolding power
power_lem p x =
    mod-mod (((x ^ 37 % p) ^ 89 % p) ^ 107) p
    ∙ pow-Congruent p ((x ^ 37 % p) ^ 89 % p) ((x ^ 37) ^ 89) 107 (
        mod-mod ((x ^ 37 % p) ^ 89) p
        ∙ pow-Congruent p (x ^ 37 % p) (x ^ 37) 89 (mod-mod (x ^ 37) p))
    ∙ ap (λ y. y ^ 107 % p) (sym (pow-mul x 37 89))
    ∙ ap (λ y. y % p) (sym (pow-mul x (37 * 89) 107))

power_twice : (p x : ℕ) → Congruent p (power p (power p x)) ((x ^ exponent) ^ exponent)
power_twice p x =
    power_lem p (power p x) ∙ pow-Congruent p (power p x) (x ^ exponent) exponent (power_lem p x)

both_true : (a b : Bool) → (a && b) ≡ true → (a ≡ true) × (b ≡ true)
both_true true b h = (refl, h)
both_true false b h = absurd (cc)

undoes-Congruent :
    (p k x : ℕ) → undoes p k ≡ true → x < k → Congruent p ((x ^ exponent) ^ exponent) x
unfolding undoes
undoes-Congruent p zero x h less = absurd (omega arith)
undoes-Congruent p (suc k) x h less =
    let (here, rest) = both_true (power p (power p k) == k) (undoes p k) h in
    elim (Bool-cases (x == k)) [
      | inl last ↦
          let same : x ≡ k = (==_iff x k).0 last in
          rw same
            (sym (power_twice p k) ∙ ap (λ y. y % p) ((==_iff (power p (power p k)) k).0 here))
      | inr before ↦ undoes-Congruent p k x rest (ground arith)
    ]

-- Numbers that agree modulo two numbers agree modulo their product, if one has an inverse modulo the
-- other.
both :
    (p q i x y : ℕ)
    → 0 < p
    → 0 < q
    → Congruent p (q * i) 1
    → Congruent p x y
    → Congruent q x y
    → Congruent (p * q) x y
both p q i x y hp hq inverse ep eq =
    let positive : 0 < p * q = mul-pos hp hq in
    unique p q i (x % (p * q)) (y % (p * q)) hq inverse (mod-lt x positive) (mod-lt y positive)
      (mod-mod_of_dvd p x (dvd-mul_right p q) ∙ ep ∙ sym (mod-mod_of_dvd p y (dvd-mul_right p q)))
      (mod-mod_of_dvd q x (dvd-mul_left q p) ∙ eq ∙ sym (mod-mod_of_dvd q y (dvd-mul_left q p)))

ltb-lt : (k : ℕ) → ltb 0 k ≡ true → 0 < k
ltb-lt k h = ground arith

product-Congruent :
    (ps : List (ℕ × ℕ)) (x : ℕ)
    → are_primes ps ≡ true
    → Congruent (product ps) ((x ^ exponent) ^ exponent) x
unfolding product are_primes
product-Congruent [] x h = omega arith
product-Congruent ((p, i) ∷ ps) x h =
    let r = product ps in
    let inverts = (r * i) % p == 1 % p in
    let (sizes, h1) = both_true (ltb 0 p && ltb 0 r) (inverts && (undoes p p && are_primes ps)) h in
    let (hp, hq) = both_true (ltb 0 p) (ltb 0 r) sizes in
    let (inverse, h2) = both_true inverts (undoes p p && are_primes ps) h1 in
    let (here, rest) = both_true (undoes p p) (are_primes ps) h2 in
    let some_p : 0 < p = ltb-lt p hp in
    let at_p : Congruent p ((x ^ exponent) ^ exponent) x =
      sym (
        pow-Congruent p ((x % p) ^ exponent) (x ^ exponent) exponent
          (pow-Congruent p (x % p) x exponent (mod-mod x p)))
      ∙ undoes-Congruent p p (x % p) here (mod-lt x some_p)
      ∙ mod-mod x p in
    both p (product ps) i ((x ^ exponent) ^ exponent) x some_p (ltb-lt r hq)
      ((==_iff ((product ps * i) % p) (1 % p)).0 inverse) at_p (product-Congruent ps x rest)

abbrev pub n : ℕ
n =
    1672136806265180902160534094116026077796446995266463763058699829457152829253228690157472448345945995620648113856892466313557325904930101971049887882628779009401563801910

abbrev pub key : RsaPrivateKey
key = record {
  public = record { n = some n; e = exponent };
  d = exponent;
  primes = [];
  precomputed = none;
}

-- The public exponent and the private exponent undo each other.
undo : (m : ℕ) → m < n → (m ^ exponent % n) ^ exponent % n ≡ m
unfolding product
undo m h =
    pow-Congruent n (m ^ exponent % n) (m ^ exponent) exponent (mod-mod (m ^ exponent) n)
    ∙ product-Congruent primes m checked
    ∙ mod-eq_of_lt h

key-IsRsaKey : IsRsaKey key n
unfolding raw_by
key-IsRsaKey = record { positive = omega arith; raw-power = λ c h. refl; power-power = undo }

pub key-IsKeyFor : IsKeyFor key n
unfolding check_modulus
key-IsKeyFor = record { has_modulus = refl; checked = refl; is_key = key-IsRsaKey }
