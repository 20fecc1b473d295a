-- ===== src/Base/Fermat.antt =====
-- Fermat's little theorem, and powers whose exponent is one more than a multiple of `p - 1`.
use Prim.Native.Nat.{ℕ, zero, suc, ◌+◌, ◌-◌, ◌*◌, ◌/◌, ◌%◌, ◌^◌, ◌<◌}
use mathlib.Core.Path.{◌≡◌, refl, sym, ap, ◌∙◌}
use native.Mathlib.Omega.{arith}
use native.Mathlib.Nat.{pow-suc, pow-zero, div-add-mod}
use go_encrypted_config_valu.Base.Binomial.{pow-suc_prime}
use go_encrypted_config_valu.Base.Mod.{Congruent, add-Congruent, mul-Congruent, pow-add}
use go_encrypted_config_valu.Base.Prime.{IsPrime}

pub pow-prime : (p a : ℕ) → IsPrime p → Congruent p (a ^ p) a
pow-prime zero zero prime = absurd (let more = prime.one_lt in omega arith)
pow-prime (suc n) zero prime =
    let gone : 0 ^ n * 0 ≡ 0 = omega arith in ap (λ x. x % suc n) (pow-suc 0 n ∙ gone)
pow-prime p (suc a) prime =
    let same : suc a ≡ a + 1 = omega arith in
    rw same (pow-suc_prime p a prime ∙ add-Congruent p (a ^ p) a 1 1 (pow-prime p a prime) refl)

-- An exponent that is one more than a multiple of `p - 1` gives the number back.
pow_one_more : (p a t : ℕ) → IsPrime p → Congruent p (a ^ (1 + (p - 1) * t)) a
pow_one_more p a zero prime =
    let one : 1 + (p - 1) * 0 ≡ 1 = omega arith in
    let power : a ^ 1 ≡ a = pow-suc a 0 ∙ rw (pow-zero a) (omega arith) in
    ap (λ x. x % p) (ap (λ j. a ^ j) one ∙ power)
pow_one_more p a (suc t) prime =
    let more = prime.one_lt in
    let split : 1 + (p - 1) * suc t ≡ 1 + (p - 1) * t + (p - 1) = spread (p - 1) t in
    let whole : suc (p - 1) ≡ p = omega arith in
    let swap : a * a ^ (p - 1) ≡ a ^ (p - 1) * a = grind arith in
    ap (λ x. x % p) (ap (λ j. a ^ j) split ∙ pow-add a (1 + (p - 1) * t) (p - 1))
    ∙ mul-Congruent p (a ^ (1 + (p - 1) * t)) a (a ^ (p - 1)) (a ^ (p - 1))
        (pow_one_more p a t prime) refl
    ∙ ap (λ x. x % p) (swap ∙ sym (pow-suc a (p - 1)) ∙ ap (λ j. a ^ j) whole)
    ∙ pow-prime p a prime
  where
    spread : (k t : ℕ) → 1 + k * suc t ≡ 1 + k * t + k
    spread k t = grind arith

pub pow_exponent : (p a k : ℕ) → IsPrime p → 2 < p → k % (p - 1) ≡ 1 → Congruent p (a ^ k) a
pow_exponent p a k prime odd one =
    let t = k / (p - 1) in
    let is_k : 1 + (p - 1) * t ≡ k = omega (arith, div-add-mod k (p - 1), one) in
    rw is_k at (pow_one_more p a t prime)

-- The exponent may be reduced modulo `p - 1`, if something of it is left.
pub pow_reduced :
    (p a k : ℕ) → IsPrime p → 0 < k % (p - 1) → Congruent p (a ^ (k % (p - 1))) (a ^ k)
pow_reduced p a k prime positive =
    let r = k % (p - 1) in
    let t = k / (p - 1) in
    let m = (p - 1) * t in
    let is_k : (r - 1) + (1 + m) ≡ k = omega (arith, div-add-mod k (p - 1), positive) in
    let is_r : suc (r - 1) ≡ r = omega (arith, positive) in
    ap (λ x. x % p) (ap (λ j. a ^ j) (sym is_r) ∙ pow-suc a (r - 1))
    ∙ mul-Congruent p (a ^ (r - 1)) (a ^ (r - 1)) a (a ^ (1 + m)) refl
        (sym (pow_one_more p a t prime))
    ∙ ap (λ x. x % p) (sym (pow-add a (r - 1) (1 + m)) ∙ ap (λ j. a ^ j) is_k)
