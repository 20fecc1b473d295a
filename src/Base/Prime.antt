-- ===== src/Base/Prime.antt =====
-- Prime numbers, and Euclid's lemma.
use Prim.Native.Nat.{ℕ, zero, suc, ◌+◌, ◌*◌, ◌/◌, ◌%◌, ◌<◌, ◌≤◌, ◌∣◌}
use mathlib.Core.Path.{◌≡◌, refl, sym, ap, subst, ◌∙◌}
use mathlib.Core.Logic.{◌≢◌, ◌⊎◌, inl, inr}
use native.Mathlib.Omega.{arith}
use native.Mathlib.Nat.{
  dvd-mul_left, dvd-mul_right, dvd-add_iff_right, div-add-mod, mod-lt, dvd_of_mod-eq-zero,
  dvd-mul_left_of_dvd, eq-zero-or-pos,
}

pub record IsPrime (p : ℕ) : Type 0 where
  pub one_lt : 1 < p
  pub of_dvd : (a : ℕ) → a ∣ p → (a ≡ 1) ⊎ (a ≡ p)

-- A prime that divides the product of a smaller positive number and another number divides that
-- other number.
dvd_of_small : (fuel p a b : ℕ) → IsPrime p → a ≤ fuel → 0 < a → a < p → p ∣ a * b → p ∣ b
dvd_of_small zero p a b prime bound positive small d = absurd (omega arith)
dvd_of_small (suc fuel) p a b prime bound positive small d =
    let r = p % a in
    let q = p / a in
    let is_p : a * q + r ≡ p = div-add-mod p a in
    let split : q * (a * b) + r * b ≡ b * p = spread q a r b ∙ ap (λ x. b * x) is_p in
    let rest : p ∣ r * b =
      (dvd-add_iff_right p (dvd-mul_left_of_dvd p d q)).1
        (subst (λ x. p ∣ x) (sym split) (dvd-mul_left p b)) in
    elim (eq-zero-or-pos r) [
      | inl none_left ↦ elim (prime.of_dvd a (dvd_of_mod-eq-zero a none_left)) [
        | inl one ↦ let same : a * b ≡ b = rw one (omega arith) in subst (λ x. p ∣ x) same d
        | inr whole ↦ absurd (omega arith)
      ]
      | inr more ↦
          let less : r < a = mod-lt p positive in
          dvd_of_small fuel p r b prime (omega arith) more (omega arith) rest
    ]
  where
    spread : (q a r b : ℕ) → q * (a * b) + r * b ≡ b * (a * q + r)
    spread q a r b = grind arith

-- Euclid's lemma.
pub dvd_of_prime-mul : (p a b : ℕ) → IsPrime p → p ∣ a * b → a % p ≢ 0 → p ∣ b
dvd_of_prime-mul p a b prime d other =
    let some_p : 0 < p = let more = prime.one_lt in omega arith in
    let r = a % p in
    let split : p * (a / p * b) + r * b ≡ a * b =
      spread p (a / p) r b ∙ ap (λ x. x * b) (div-add-mod a p) in
    let rest : p ∣ r * b =
      (dvd-add_iff_right p (dvd-mul_right p (a / p * b))).1 (subst (λ x. p ∣ x) (sym split) d) in
    dvd_of_small r p r b prime (omega arith) (positive r other) (mod-lt a some_p) rest
  where
    spread : (p q r b : ℕ) → p * (q * b) + r * b ≡ (p * q + r) * b
    spread p q r b = grind arith

    positive : (k : ℕ) → k ≢ 0 → 0 < k
    positive zero h = absurd (h refl)
    positive (suc k) h = omega arith
