-- ===== src/Base/Coprime.antt =====
-- Numbers that agree modulo two different primes.
use Prim.Native.Nat.{ℕ, ◌-◌, ◌*◌, ◌/◌, ◌%◌, ◌<◌, ◌≤◌, ◌∣◌}
use mathlib.Core.Path.{◌≡◌, sym, subst}
use mathlib.Core.Logic.{◌≢◌, inl, inr}
use native.Mathlib.Omega.{arith}
use native.Mathlib.Nat.{
  div-add-mod, dvd-mul_right, dvd-sub, dvd_of_mod-eq-zero, mod-eq-zero_of_dvd, mul-dvd-mul_left,
  le_of_dvd,
}
use go_encrypted_config_valu.Base.Mod.{Congruent}
use go_encrypted_config_valu.Base.Prime.{IsPrime, dvd_of_prime-mul}
use go_encrypted_config_valu.Base.Tests.{ltb, Bool-cases}

-- The difference of congruent numbers is a multiple.
dvd_of_Congruent : (n x y : ℕ) → x ≤ y → Congruent n x y → n ∣ y - x
dvd_of_Congruent n x y h e =
    let difference : n * (y / n) - n * (x / n) ≡ y - x =
      omega (arith, div-add-mod x n, div-add-mod y n, e, h) in
    subst (λ z. n ∣ z) difference (dvd-sub n (dvd-mul_right n (y / n)) (dvd-mul_right n (x / n)))

-- A multiple of two different primes is a multiple of their product.
product-dvd : (p q z : ℕ) → IsPrime p → IsPrime q → p ≢ q → p ∣ z → q ∣ z → q * p ∣ z
product-dvd p q z prime_p prime_q distinct dp dq =
    let k = z / q in
    let is_z : q * k ≡ z = omega (arith, div-add-mod z q, mod-eq-zero_of_dvd q dq) in
    let other : q % p ≢ 0 = λ e. elim (prime_q.of_dvd p (dvd_of_mod-eq-zero p e)) [
      | inl one ↦ let more = prime_p.one_lt in omega arith
      | inr same ↦ distinct same
    ] in
    subst (λ x. q * p ∣ x) is_z
      (mul-dvd-mul_left p q
        (dvd_of_prime-mul p q k prime_p (subst (λ x. p ∣ x) (sym is_z) dp) other))

ordered :
    (p q x y : ℕ)
    → IsPrime p
    → IsPrime q
    → p ≢ q
    → x ≤ y
    → y < p * q
    → Congruent p x y
    → Congruent q x y
    → x ≡ y
ordered p q x y prime_p prime_q distinct less small ep eq =
    let multiple =
      product-dvd p q (y - x) prime_p prime_q distinct (dvd_of_Congruent p x y less ep)
        (dvd_of_Congruent q x y less eq) in
    let swap : q * p ≡ p * q = grind arith in
    elim (Bool-cases (ltb x y)) [
      | inl apart ↦
          let bound : q * p ≤ y - x = le_of_dvd (ground arith) multiple in
          absurd (omega (arith, bound, swap, small))
      | inr near ↦ ground arith
    ]

-- Numbers below the product of two different primes that agree modulo both are equal.
pub eq_of_primes :
    (p q x y : ℕ)
    → IsPrime p
    → IsPrime q
    → p ≢ q
    → x < p * q
    → y < p * q
    → Congruent p x y
    → Congruent q x y
    → x ≡ y
eq_of_primes p q x y prime_p prime_q distinct hx hy ep eq = elim (Bool-cases (ltb y x)) [
  | inl more ↦ sym (ordered p q y x prime_p prime_q distinct (ground arith) hx (sym ep) (sym eq))
  | inr less ↦ ordered p q x y prime_p prime_q distinct (ground arith) hy ep eq
]
