-- ===== src/Base/Binomial.antt =====
-- Binomial coefficients, and the powers of a sum modulo a prime.
use Prim.Native.Nat.{ℕ, zero, suc, ◌+◌, ◌*◌, ◌%◌, ◌^◌, ◌<◌, ◌∣◌}
use mathlib.Core.Path.{◌≡◌, refl, sym, ap, ap₂, subst, ◌∙◌}
use mathlib.Core.Logic.{◌≢◌}
use native.Mathlib.Omega.{arith}
use native.Mathlib.Nat.{pow-suc, pow-zero, mod-eq_of_lt, dvd-mul_right, mod-eq-zero_of_dvd}
use go_encrypted_config_valu.Base.Mod.{Congruent, add-Congruent, mul-Congruent}
use go_encrypted_config_valu.Base.Prime.{IsPrime, dvd_of_prime-mul}

-- Pascal's triangle.
choose : ℕ → ℕ → ℕ
choose n zero = 1
choose zero (suc k) = 0
choose (suc n) (suc k) = choose n k + choose n (suc k)

choose_above : (n k : ℕ) → n < k → choose n k ≡ 0
unfolding choose
choose_above n zero h = absurd (omega arith)
choose_above zero (suc k) h = refl
choose_above (suc n) (suc k) h =
    rw (choose_above n k (omega arith), choose_above n (suc k) (omega arith)) refl

choose_all : (n : ℕ) → choose n n ≡ 1
unfolding choose
choose_all zero = refl
choose_all (suc n) = rw (choose_all n, choose_above n (suc n) (omega arith)) refl

step :
    (k n a b c : ℕ)
    → suc k * (a + b) ≡ suc n * a
    → suc (suc k) * (b + c) ≡ suc n * b
    → suc (suc k) * (a + b + (b + c)) ≡ suc (suc n) * (a + b)
step k n a b c here next =
    let left : suc (suc k) * (a + b + (b + c)) ≡ suc k * (a + b) + (a + b) + suc (suc k) * (b + c) =
      grind arith in
    let right : suc n * a + (a + b) + suc n * b ≡ suc (suc n) * (a + b) = grind arith in
    left ∙ ap₂ (λ x y. x + (a + b) + y) here next ∙ right

absorb : (n k : ℕ) → suc k * choose (suc n) (suc k) ≡ suc n * choose n k
unfolding choose
absorb zero zero = refl
absorb zero (suc k) = omega arith
absorb (suc n) zero = omega (arith, absorb n zero)
absorb (suc n) (suc k) =
    step k n (choose n k) (choose n (suc k)) (choose n (suc (suc k))) (absorb n k)
      (absorb n (suc k))

-- The sum of the first `k` terms of the power `(a + 1) ^ n`.
terms : ℕ → ℕ → ℕ → ℕ
unfolding choose
terms n zero a = 0
terms n (suc k) a = terms n k a + choose n k * a ^ k

terms-suc : (n k a : ℕ) → terms (suc n) (suc k) a ≡ terms n (suc k) a + a * terms n k a
unfolding terms choose
terms-suc n zero a = let none_left : a * 0 ≡ 0 = omega arith in omega (arith, none_left)
terms-suc n (suc k) a = rw (pow-suc a k) (
    regroup (terms (suc n) k a) (terms n k a) (choose (suc n) k) (choose n k) (choose n (suc k))
      (a ^ k) a (terms-suc n k a))
  where
    regroup :
        (s t c d e y z : ℕ)
        → s + c * y ≡ t + d * y + z * t
        → s + c * y + (d + e) * (y * z) ≡ t + d * y + e * (y * z) + z * (t + d * y)
    regroup s t c d e y z h =
        let rest : t + d * y + z * t + (d + e) * (y * z)
            ≡ t + d * y + e * (y * z) + z * (t + d * y) =
          grind arith in
        ap (λ x. x + (d + e) * (y * z)) h ∙ rest

pow-terms : (n a : ℕ) → (a + 1) ^ n ≡ terms n (suc n) a
unfolding terms
pow-terms zero a = rw (pow-zero (a + 1), pow-zero a) refl
pow-terms (suc n) a =
    let top : choose n (suc n) * a ^ suc n ≡ 0 =
      rw (choose_above n (suc n) (omega arith)) (omega arith) in
    let whole : terms n (suc (suc n)) a ≡ terms n (suc n) a = omega (arith, top) in
    let split : terms n (suc n) a * (a + 1) ≡ terms n (suc n) a + a * terms n (suc n) a =
      grind arith in
    pow-suc (a + 1) n
    ∙ ap (λ x. x * (a + 1)) (pow-terms n a)
    ∙ split
    ∙ ap (λ x. x + a * terms n (suc n) a) (sym whole)
    ∙ sym (terms-suc n (suc n) a)

-- The coefficients of a prime power that are not at an end are multiples of the prime.
dvd_choose : (p k : ℕ) → IsPrime p → 0 < k → k < p → p ∣ choose p k
dvd_choose zero k prime positive small = absurd (omega arith)
dvd_choose (suc n) zero prime positive small = absurd (omega arith)
dvd_choose (suc n) (suc k) prime positive small =
    let multiple : suc n ∣ suc k * choose (suc n) (suc k) =
      subst (λ x. suc n ∣ x) (sym (absorb n k)) (dvd-mul_right (suc n) (choose n k)) in
    let other : suc k % suc n ≢ 0 = λ e. let same = sym (mod-eq_of_lt small) ∙ e in omega arith in
    dvd_of_prime-mul (suc n) (suc k) (choose (suc n) (suc k)) prime multiple other

terms-prime : (p k a : ℕ) → IsPrime p → k < p → Congruent p (terms p (suc k) a) 1
unfolding terms choose
terms-prime p zero a prime small = rw (pow-zero a) (ap (λ x. x % p) (omega arith))
terms-prime p (suc k) a prime small =
    let y = a ^ suc k in
    let multiple : Congruent p (choose p (suc k)) 0 =
      mod-eq-zero_of_dvd p (dvd_choose p (suc k) prime (omega arith) small)
      ∙ sym (mod-eq_of_lt (let more = prime.one_lt in omega arith)) in
    let none_left : 0 * y ≡ 0 = omega arith in
    let gone : Congruent p (choose p (suc k) * y) 0 =
      mul-Congruent p (choose p (suc k)) 0 y y multiple refl ∙ ap (λ x. x % p) none_left in
    add-Congruent p (terms p (suc k) a) 1 (choose p (suc k) * y) 0
      (terms-prime p k a prime (omega arith)) gone

-- The power of a sum with one.
pub pow-suc_prime : (p a : ℕ) → IsPrime p → Congruent p ((a + 1) ^ p) (a ^ p + 1)
unfolding terms
pow-suc_prime zero a prime = absurd (let more = prime.one_lt in omega arith)
pow-suc_prime (suc n) a prime =
    let p = suc n in
    let last : choose p p * a ^ p ≡ a ^ p = rw (choose_all p) (omega arith) in
    let flip : 1 + a ^ p ≡ a ^ p + 1 = omega arith in
    ap (λ x. x % p) (pow-terms p a)
    ∙ add-Congruent p (terms p p a) 1 (choose p p * a ^ p) (a ^ p)
        (terms-prime p n a prime (omega arith)) (ap (λ x. x % p) last)
    ∙ ap (λ x. x % p) flip
