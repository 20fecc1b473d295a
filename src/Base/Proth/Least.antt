-- ===== src/Base/Proth/Least.antt =====
-- The least divisor of a number, and numbers without small prime divisors.
use Prim.Native.Nat.{ℕ, zero, suc, ◌*◌, ◌/◌, ◌%◌, ◌<◌, ◌≤◌, ◌∣◌}
use mathlib.Core.Path.{◌≡◌, subst, ◌∙◌}
use mathlib.Core.Logic.{◌⊎◌, inl, inr}
use native.Mathlib.Omega.{arith}
use native.Mathlib.Nat.{
  div-add-mod, le_of_dvd, dvd_trans, dvd_of_mod-eq-zero, mod-eq-zero_of_dvd, mul-le-mul,
  pos_of_dvd_of_pos, dvd-mul_right,
}
use go_encrypted_config_valu.Base.Prime.{IsPrime}
use go_encrypted_config_valu.Base.Tests.{ltb, ◌==◌, Bool-cases}

swap : (a b : ℕ) → a * b ≡ b * a
swap a b = grind arith

-- A number has no divisor between one and `c`, or a least one, which is prime.
least : (n c : ℕ) → ((a : ℕ) → a ∣ n → 1 < a → c < a) ⊎ ((d : ℕ) × IsPrime d × (d ≤ c) × (d ∣ n))
least n zero = inl (λ a d more. omega arith)
least n (suc c) = elim (least n c) [
  | inr (d, prime, less, of_n) ↦ inr (d, prime, omega arith, of_n)
  | inl none_below ↦ elim (Bool-cases (n % suc c == 0)) [
    | inr other ↦ inl (λ a d more. elim (Bool-cases (a == suc c)) [
      | inl same ↦ let zero_mod = mod-eq-zero_of_dvd a d in absurd (ground arith)
      | inr different ↦ let above = none_below a d more in ground arith
    ])
    | inl divides ↦ elim (Bool-cases (ltb 1 (suc c))) [
      | inr small ↦ inl (λ a d more. ground arith)
      | inl large ↦
          let of_n : suc c ∣ n = dvd_of_mod-eq-zero (suc c) (ground arith) in
          inr (
            suc c,
            record { one_lt = ground arith; of_dvd = of_least n c none_below of_n },
            omega arith,
            of_n,
          )
    ]
  ]
]
  where
    of_least :
        (n c : ℕ)
        → ((a : ℕ) → a ∣ n → 1 < a → c < a)
        → suc c ∣ n
        → (a : ℕ) → a ∣ suc c
        → (a ≡ 1) ⊎ (a ≡ suc c)
    of_least n c none_below of_n a d = elim (Bool-cases (ltb 1 a)) [
      | inl more ↦
          let above = none_below a (dvd_trans a d of_n) (ground arith) in
          let below : a ≤ suc c = le_of_dvd (omega arith) d in inr (omega arith)
      | inr small ↦ let positive : 0 < a = pos_of_dvd_of_pos d (omega arith) in inl (ground arith)
    ]

-- A number above one that no prime divides whose square is not above it is prime.
pub no_factor-IsPrime : (n : ℕ) → 1 < n → ((d : ℕ) → IsPrime d → d ∣ n → n < d * d) → IsPrime n
no_factor-IsPrime n more no_factor = record { one_lt = more; of_dvd = of_dvd }
  where
    factor : (a b : ℕ) → a * b ≡ n → 1 < a → a ≤ b → ⊥
    factor a b product large less = elim (least n a) [
      | inl none_below ↦
          let above = none_below a (subst (λ x. a ∣ x) product (dvd-mul_right a b)) large in
          omega arith
      | inr (d, prime, below, of_n) ↦
          let square : d * d ≤ a * b = mul-le-mul below (omega (arith, below, less)) in
          let above = no_factor d prime of_n in omega (arith, square, product, above)
    ]

    whole : (a b : ℕ) → a * b ≡ n → b ≤ 1 → a ≡ n
    whole a zero product little =
        let gone : a * 0 ≡ 0 = omega arith in absurd (omega (arith, gone, product, more))
    whole a (suc zero) product little = omega (arith, product)
    whole a (suc (suc b)) product little = absurd (omega arith)

    of_dvd : (a : ℕ) → a ∣ n → (a ≡ 1) ⊎ (a ≡ n)
    of_dvd a d =
        let b = n / a in
        let product : a * b ≡ n = omega (arith, div-add-mod n a, mod-eq-zero_of_dvd a d) in
        elim (Bool-cases (ltb 1 a)) [
          | inr small ↦
              let positive : 0 < a = pos_of_dvd_of_pos d (omega arith) in inl (ground arith)
          | inl large ↦ elim (Bool-cases (ltb 1 b)) [
            | inr little ↦ inr (whole a b product (ground arith))
            | inl much ↦ elim (Bool-cases (ltb b a)) [
              | inr ordered ↦ absurd (factor a b product (ground arith) (ground arith))
              | inl greater ↦ absurd (factor b a (swap b a ∙ product) (ground arith) (ground arith))
            ]
          ]
        ]
