-- ===== src/Encryption/Oaep/Rsa/ValidKey.antt =====
-- Keys as crypto/rsa documents them: what Validate checks of a key with two primes, and what Precompute
-- stores in it.
use go_encrypted_config_valu.Base.{
  ℕ, ◌-◌, ◌*◌, ◌%◌, ◌^◌, ◌<◌, ◌≤◌, ◌≢◌, [], ◌∷◌, some, ◌≡◌, none, refl, ◌∙◌, sym, ap, arith,
  Option-cases, inl, inr,
}
use go_encrypted_config_valu.Base.Coprime.{eq_of_primes}
use go_encrypted_config_valu.Base.Fermat.{pow_exponent, pow_reduced}
use go_encrypted_config_valu.Base.Int.{ℤ}
use go_encrypted_config_valu.Base.Mod.{Congruent, mul-Congruent, pow-Congruent, pow-mul}
use go_encrypted_config_valu.Base.Prime.{IsPrime}
use go_encrypted_config_valu.Base.Outcome.{ok}
use go_encrypted_config_valu.External.{Rand, RsaPrivateKey, Precomputed}
use go_encrypted_config_valu.Encryption.Oaep.Crt.Combine.{IsCrt}
use go_encrypted_config_valu.Encryption.Oaep.Rsa.{
  check_modulus, check_pub, raw_by, encrypt, find_blind, decrypt_number,
}
use go_encrypted_config_valu.Encryption.Oaep.Rsa.Blinding.{IsRsaKey, decrypt_number-encrypt}
use go_encrypted_config_valu.Encryption.Oaep.Rsa.TwoPrimes.{raw_by-precomputed}
use native.Mathlib.Nat.{
  mod-mod, mod-lt, mod-mod_of_dvd, dvd-mul_left, dvd-mul_right, zero-mod, mul-pos, eq-zero-or-pos,
}

-- What Validate checks of a key with the odd primes `p` and `q`: the modulus is their product and the
-- public exponent in range, they are prime and different, and the exponents are inverse to each other
-- modulo `p - 1` and `q - 1`.
pub record IsValidKey (priv : RsaPrivateKey) (p q : ℕ) : Type 0 where
  pub modulus : priv.public.n ≡ some (p * q)
  pub exponent_small : 2 ≤ priv.public.e
  pub exponent_large : priv.public.e < 2 ^ 31
  pub primes : priv.primes ≡ p ∷ q ∷ []
  pub prime_p : IsPrime p
  pub prime_q : IsPrime q
  pub odd_p : 2 < p
  pub odd_q : 2 < q
  pub distinct : p ≢ q
  pub exponents_p : (priv.public.e * priv.d) % (p - 1) ≡ 1
  pub exponents_q : (priv.public.e * priv.d) % (q - 1) ≡ 1

-- What Precompute stores in such a key.
pub record IsPrecomputed (pre : Precomputed) (d p q : ℕ) : Type 0 where
  pub dp : pre.dp ≡ d % (p - 1)
  pub dq : pre.dq ≡ d % (q - 1)
  pub qinv : Congruent p (q * pre.qinv) 1
  pub no_more : pre.crt_values ≡ []

-- A factor of a number that is one modulo `k` is not zero modulo `k`.
left_over : (k e d : ℕ) → 0 < k → (e * d) % k ≡ 1 → 0 < d % k
left_over k e d positive one = elim (eq-zero-or-pos (d % k)) [
  | inr more ↦ more
  | inl gone ↦
      let none_left : e * 0 ≡ 0 = omega arith in
      let zero_mod : Congruent k (e * d) 0 =
        mul-Congruent k e e d 0 refl (gone ∙ sym (zero-mod k)) ∙ ap (λ x. x % k) none_left in
      absurd (omega (arith, one, zero_mod, zero-mod k))
]

pub precomputed-IsCrt :
    (priv : RsaPrivateKey) (pre : Precomputed) (p q : ℕ)
    → IsValidKey priv p q
    → IsPrecomputed pre priv.d p q
    → IsCrt pre p q priv.d
precomputed-IsCrt priv pre p q key values =
    let odd_p = key.odd_p in
    let odd_q = key.odd_q in
    record {
      positive_p = omega arith;
      positive_q = omega arith;
      no_more = values.no_more;
      inverse = values.qinv;
      power_p = λ c. rw (values.dp) (
          pow_reduced p c priv.d key.prime_p
            (left_over (p - 1) priv.public.e priv.d (omega arith) key.exponents_p));
      power_q = λ c. rw (values.dq) (
          pow_reduced q c priv.d key.prime_q
            (left_over (q - 1) priv.public.e priv.d (omega arith) key.exponents_q));
    }

-- For a key of two odd primes as crypto/rsa documents it, with the precomputed values that fit it, the
-- private operation by the Chinese remainder theorem gives on every number what the power with the
-- private exponent gives.
pub raw_by-valid_key :
    (priv : RsaPrivateKey) (pre : Precomputed) (p q c : ℕ)
    → IsValidKey priv p q
    → IsPrecomputed pre priv.d p q
    → raw_by (some pre) priv (p * q) c ≡ raw_by none priv (p * q) c
raw_by-valid_key priv pre p q c key values =
    raw_by-precomputed priv pre p q c key.primes (precomputed-IsCrt priv pre p q key values)

-- The exponents undo each other modulo each prime, and so modulo the product.
undo :
    (priv : RsaPrivateKey) (p q m : ℕ)
    → IsValidKey priv p q
    → m < p * q
    → (m ^ priv.public.e % (p * q)) ^ priv.d % (p * q) ≡ m
undo priv p q m key small =
    let e = priv.public.e in
    let d = priv.d in
    let n = p * q in
    let x = (m ^ e % n) ^ d in
    let positive : 0 < n = omega (arith, small) in
    let whole : Congruent n x (m ^ (e * d)) =
      pow-Congruent n (m ^ e % n) (m ^ e) d (mod-mod (m ^ e) n)
      ∙ ap (λ y. y % n) (sym (pow-mul m e d)) in
    let at : (r : ℕ)
        → IsPrime r
        → 2 < r
        → (e * d) % (r - 1) ≡ 1
        → ((y : ℕ) → y % n % r ≡ y % r)
        → Congruent r (x % n) m =
      λ r prime odd one reduce.
        ap (λ y. y % r) whole ∙ reduce (m ^ (e * d)) ∙ pow_exponent r m (e * d) prime odd one in
    eq_of_primes p q (x % n) m key.prime_p key.prime_q key.distinct (mod-lt x positive) small
      (at p key.prime_p key.odd_p key.exponents_p (λ y. mod-mod_of_dvd p y (dvd-mul_right p q)))
      (at q key.prime_q key.odd_q key.exponents_q (λ y. mod-mod_of_dvd q y (dvd-mul_left q p)))

-- A key of two odd primes as crypto/rsa documents it, with its precomputed values or without, meets the
-- laws of a key: the private operation by either way is the power with the private exponent, and it
-- undoes the power with the public exponent.
pub valid_key-IsRsaKey :
    (priv : RsaPrivateKey) (p q : ℕ)
    → IsValidKey priv p q
    → ((pre : Precomputed) → priv.precomputed ≡ some pre → IsPrecomputed pre priv.d p q)
    → IsRsaKey priv (p * q)
unfolding raw_by
valid_key-IsRsaKey priv p q key stored = record {
  positive = let odd_p = key.odd_p in let odd_q = key.odd_q in mul-pos (omega arith) (omega arith);
  raw-power = λ c small. elim (Option-cases priv.precomputed) [
    | inl plain ↦ rw plain refl
    | inr (pre, values) ↦ rw values (
        raw_by-precomputed priv pre p q c key.primes
          (precomputed-IsCrt priv pre p q key (stored pre values)))
  ];
  power-power = λ m small. undo priv p q m key small;
}

-- For a key of two odd primes as crypto/rsa documents it, with its precomputed values or without, and a
-- number below the modulus, if the search for a blinding number returns, the private operation, with the
-- blinding and the Chinese remainders, gives the number back from its ciphertext.
pub decrypt_number-encrypt_valid_key :
    {S : Type 0} (rand : Rand S) (rounds : ℕ) (priv : RsaPrivateKey) (p q m : ℕ) (s s' : S)
    (blind : ℕ × ℤ)
    → IsValidKey priv p q
    → ((pre : Precomputed) → priv.precomputed ≡ some pre → IsPrecomputed pre priv.d p q)
    → m < p * q
    → find_blind rand rounds (p * q) s ≡ (ok blind, s')
    → decrypt_number rand rounds priv (p * q) (encrypt (p * q) priv.public.e m) s ≡ (ok m, s')
decrypt_number-encrypt_valid_key rand rounds priv p q m s s' blind key stored small found =
    decrypt_number-encrypt rand rounds priv (p * q) m s s' blind
      (valid_key-IsRsaKey priv p q key stored) small found

-- checkPub accepts the public half of such a key.
pub check_pub-IsValidKey :
    (priv : RsaPrivateKey) (p q : ℕ) → IsValidKey priv p q → check_pub priv.public ≡ ok tt
unfolding check_modulus
check_pub-IsValidKey priv p q key =
    let small = key.exponent_small in
    let large = key.exponent_large in rw (key.modulus) (ground arith)
