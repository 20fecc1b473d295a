-- ===== src/Base/Proth.antt =====
-- Proth's theorem: how to prove that a large number is prime.
mod Least
mod Order
use Prim.Native.Nat.{ℕ, zero, suc, ◌+◌, ◌-◌, ◌*◌, ◌/◌, ◌%◌, ◌^◌, ◌<◌, ◌≤◌, ◌∣◌}
use mathlib.Core.Path.{◌≡◌, refl, sym, ap, subst, ◌∙◌}
use mathlib.Core.Logic.{◌⊎◌, inl, inr}
use native.Mathlib.Omega.{arith}
use native.Mathlib.Nat.{
  div-add-mod, mod-eq_of_lt, zero-mod, mod-mod, mod-mod_of_dvd, le_of_dvd, dvd_trans,
  dvd_of_mod-eq-zero, mod-eq-zero_of_dvd, mul-dvd-mul_left, pow-suc, pow-zero, mul-le-mul,
  mul-le-mul_right, mul-pos, one-dvd, pos_of_dvd_of_pos, dvd-mul_right,
}
use go_encrypted_config_valu.Base.Fermat.{pow-prime}
use go_encrypted_config_valu.Base.Mod.{
  Congruent, add-Congruent, mul-Congruent, pow-Congruent, pow-add, pow-mul, cancel,
}
use go_encrypted_config_valu.Base.Prime.{IsPrime}
use go_encrypted_config_valu.Base.Tests.{ltb, ◌==◌, Bool-cases}
use go_encrypted_config_valu.Base.Proth.Order.{IsMinusOne, minus_one-square, pow-square, order_dvd}
use go_encrypted_config_valu.Base.Proth.Least.{no_factor-IsPrime}

-- Fermat's little theorem for a number with a power that is minus one.
fermat-one : (d x j : ℕ) → IsPrime d → IsMinusOne d (x ^ 2 ^ j) → Congruent d (x ^ (d - 1)) 1
fermat-one d x j prime minus =
    let more = prime.one_lt in
    let y = x ^ 2 ^ j in
    let w = x ^ (2 ^ j - 1) in
    let z = x ^ (d - 1) in
    let some_power : 0 < 2 ^ j = pos_pow j in
    let is_y : y ≡ w * x = ap (λ k. x ^ k) (omega arith) ∙ pow-suc x (2 ^ j - 1) in
    let whole : z * x ≡ x ^ d = sym (pow-suc x (d - 1)) ∙ ap (λ k. x ^ k) (omega arith) in
    let product : Congruent d (z * y) y =
      ap (λ k. k % d) (ap (λ k. z * k) is_y ∙ regroup z w x ∙ ap (λ k. w * k) whole)
      ∙ mul-Congruent d w w (x ^ d) x refl (pow-prime d x prime)
      ∙ ap (λ k. k % d) (sym is_y) in
    let square = minus_one-square d y minus in
    let plain : z * 1 ≡ z = omega arith in
    ap (λ k. k % d) (sym plain)
    ∙ mul-Congruent d z z 1 (y * y) refl (sym square)
    ∙ ap (λ k. k % d) (assoc z y)
    ∙ mul-Congruent d (z * y) y y y product refl
    ∙ square
  where
    regroup : (z w x : ℕ) → z * (w * x) ≡ w * (z * x)
    regroup z w x = grind arith

    assoc : (z y : ℕ) → z * (y * y) ≡ z * y * y
    assoc z y = grind arith

    pos_pow : (j : ℕ) → 0 < 2 ^ j
    pos_pow zero = rw (pow-zero 2) (omega arith)
    pos_pow (suc j) = rw (pow-suc 2 j) (let rest = pos_pow j in omega arith)

-- Proth's theorem: a number `n` that is one more than a multiple of `2 ^ (j + 1)` by a smaller factor is
-- prime, if a power of some number with exponent `(n - 1) / 2` is minus one modulo `n`.
power-IsPrime :
    (j k a n : ℕ)
    → n ≡ k * 2 ^ suc j + 1
    → 0 < k
    → k < 2 ^ suc j
    → Congruent n (a ^ (k * 2 ^ j) + 1) 0
    → IsPrime n
unfolding IsMinusOne
power-IsPrime j k a n is_n positive small minus = no_factor-IsPrime n above_one no_factor
  where
    two : 2 ^ suc j ≡ 2 ^ j * 2
    two = pow-suc 2 j

    above_one : 1 < n
    above_one = let more : 0 < k * 2 ^ suc j = mul-pos positive (omega arith) in omega arith

    odd : (d : ℕ) → IsPrime d → d ∣ n → 2 < d
    odd d prime of_n = elim (Bool-cases (ltb 2 d)) [
      | inl large ↦ ground arith
      | inr small ↦
          let more = prime.one_lt in
          let is_two : d ≡ 2 = ground arith in
          let even : n % 2 ≡ 0 = mod-eq-zero_of_dvd 2 (subst (λ x. x ∣ n) is_two of_n) in
          let spread : k * 2 ^ suc j ≡ 2 * (k * 2 ^ j) = ap (λ x. k * x) two ∙ regroup k (2 ^ j) in
          absurd (omega (arith, even, spread, is_n))
    ]
      where
        regroup : (k x : ℕ) → k * (x * 2) ≡ 2 * (k * x)
        regroup k x = grind arith

    no_factor : (d : ℕ) → IsPrime d → d ∣ n → n < d * d
    no_factor d prime of_n =
        let more = prime.one_lt in
        let y = a ^ (k * 2 ^ j) + 1 in
        let at_d : Congruent d y 0 =
          sym (mod-mod_of_dvd d y of_n) ∙ ap (λ x. x % d) (minus ∙ zero-mod n) in
        let minus_d : IsMinusOne d ((a ^ k) ^ 2 ^ j) =
          subst (IsMinusOne d) (pow-mul a k (2 ^ j)) at_d in
        let fermat = fermat-one d (a ^ k) j prime minus_d in
        let least : 2 ^ suc j ≤ d - 1 =
          le_of_dvd (omega arith)
            (order_dvd j d (a ^ k) (d - 1) (odd d prime of_n) minus_d fermat) in
        let square : (2 ^ suc j + 1) * (2 ^ suc j + 1) ≤ d * d =
          mul-le-mul (omega arith) (omega arith) in
        let bound : k * 2 ^ suc j ≤ 2 ^ suc j * 2 ^ suc j =
          mul-le-mul_right (2 ^ suc j) (omega arith) in
        omega (arith, square, bound, expand (2 ^ suc j), is_n)
      where
        expand : (x : ℕ) → (x + 1) * (x + 1) ≡ x * x + 2 * x + 1
        expand x = grind arith

-- A number squared that many times, with the remainder taken each time.
unfoldable pub squares : ℕ → ℕ → ℕ → ℕ
squares n zero y = y
squares n (suc j) zero = squares n j 0
squares n (suc j) (suc m) = squares n j (suc m * suc m % n)

squares-Congruent : (n j y : ℕ) → Congruent n (squares n j y) (y ^ 2 ^ j)
unfolding squares
squares-Congruent n zero y =
    ap (λ x. x % n)
      (sym (ap (λ k. y ^ k) (pow-zero 2) ∙ pow-suc y 0 ∙ rw (pow-zero y) (omega arith)))
squares-Congruent n (suc j) zero =
    squares-Congruent n j 0
    ∙ ap (λ x. x % n) (sym (pow-square 0 j ∙ ap (λ k. k ^ 2 ^ j) (omega arith)))
squares-Congruent n (suc j) (suc m) =
    squares-Congruent n j (suc m * suc m % n)
    ∙ pow-Congruent n (suc m * suc m % n) (suc m * suc m) (2 ^ j) (mod-mod (suc m * suc m) n)
    ∙ ap (λ x. x % n) (sym (pow-square (suc m) j))

-- The same with the power computed by squares.
pub squares-IsPrime :
    (j k a n : ℕ)
    → n ≡ k * 2 ^ suc j + 1
    → 0 < k
    → k < 2 ^ suc j
    → (squares n j (a ^ k % n) + 1) % n ≡ 0
    → IsPrime n
squares-IsPrime j k a n is_n positive small last =
    let y = a ^ k % n in
    let power : Congruent n (squares n j y) (a ^ (k * 2 ^ j)) =
      squares-Congruent n j y
      ∙ pow-Congruent n y (a ^ k) (2 ^ j) (mod-mod (a ^ k) n)
      ∙ ap (λ x. x % n) (sym (pow-mul a k (2 ^ j))) in
    power-IsPrime j k a n is_n positive small (
      sym (add-Congruent n (squares n j y) (a ^ (k * 2 ^ j)) 1 1 power refl)
      ∙ last
      ∙ sym (zero-mod n))
