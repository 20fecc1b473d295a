-- ===== src/Base/Proth/Order.antt =====
-- The exponents of powers that are one or minus one.
use Prim.Native.Nat.{ℕ, zero, suc, ◌+◌, ◌*◌, ◌/◌, ◌%◌, ◌^◌, ◌<◌, ◌∣◌}
use mathlib.Core.Path.{◌≡◌, refl, sym, ap, subst, ◌∙◌}
use mathlib.Core.Logic.{inl, inr}
use native.Mathlib.Omega.{arith}
use native.Mathlib.Nat.{mod-eq_of_lt, zero-mod, mul-dvd-mul_left, pow-suc, pow-zero, one-dvd}
use go_encrypted_config_valu.Base.Mod.{
  Congruent, add-Congruent, mul-Congruent, pow-Congruent, pow-add, pow-mul, cancel,
}
use go_encrypted_config_valu.Base.Tests.{◌==◌, Bool-cases}

-- `y` is minus one.
unfoldable pub IsMinusOne : ℕ → ℕ → Type 0
IsMinusOne d y = Congruent d (y + 1) 0

pub minus_one-square : (d y : ℕ) → IsMinusOne d y → Congruent d (y * y) 1
unfolding IsMinusOne
minus_one-square d y h =
    let expand : y * (y + 1) ≡ y * y + y = grind arith in
    let swap : y + 1 ≡ 1 + y = omega arith in
    let none_left : y * 0 ≡ 0 = omega arith in
    cancel d (y * y) 1 y (
      ap (λ x. x % d) (sym expand)
      ∙ mul-Congruent d y y (y + 1) 0 refl h
      ∙ ap (λ x. x % d) none_left
      ∙ sym h
      ∙ ap (λ x. x % d) swap)

one-pow : (k : ℕ) → 1 ^ k ≡ 1
one-pow zero = pow-zero 1
one-pow (suc k) = pow-suc 1 k ∙ let same : 1 ^ k * 1 ≡ 1 ^ k = omega arith in same ∙ one-pow k

double-pow : (y f : ℕ) → y ^ (2 * f) ≡ (y * y) ^ f
double-pow y f =
    let square : y ^ 2 ≡ y * y =
      pow-suc y 1 ∙ ap (λ x. x * y) (pow-suc y 0 ∙ rw (pow-zero y) (omega arith)) in
    pow-mul y 2 f ∙ ap (λ x. x ^ f) square

one-Congruent_pow : (d x k : ℕ) → Congruent d x 1 → Congruent d (x ^ k) 1
one-Congruent_pow d x k h = pow-Congruent d x 1 k h ∙ ap (λ y. y % d) (one-pow k)

minus_one-odd : (d y f : ℕ) → IsMinusOne d y → Congruent d (y ^ (2 * f + 1)) y
minus_one-odd d y f h =
    let split : y ^ (2 * f + 1) ≡ (y * y) ^ f * y =
      pow-add y (2 * f) 1
      ∙ rw (double-pow y f)
          (ap (λ x. (y * y) ^ f * x) (pow-suc y 0 ∙ rw (pow-zero y) (omega arith))) in
    let plain : 1 * y ≡ y = omega arith in
    ap (λ x. x % d) split
    ∙ mul-Congruent d ((y * y) ^ f) 1 y y (one-Congruent_pow d (y * y) f (minus_one-square d y h))
        refl
    ∙ ap (λ x. x % d) plain

one_ne_minus_one : (d y : ℕ) → 2 < d → IsMinusOne d y → Congruent d y 1 → ⊥
unfolding IsMinusOne
one_ne_minus_one d y odd minus one =
    let two : Congruent d (1 + 1) 0 = sym (add-Congruent d y 1 1 1 one refl) ∙ minus in
    omega (arith, two, mod-eq_of_lt odd, zero-mod d)

swap : (a b : ℕ) → a * b ≡ b * a
swap a b = grind arith

pub pow-square : (x j : ℕ) → x ^ 2 ^ suc j ≡ (x * x) ^ 2 ^ j
pow-square x j = ap (λ k. x ^ k) (pow-suc 2 j ∙ swap (2 ^ j) 2) ∙ double-pow x (2 ^ j)

order_step :
    (j d x e : ℕ)
    → 2 < d
    → IsMinusOne d (x ^ 2 ^ j)
    → Congruent d (x ^ e) 1
    → ((f : ℕ) → Congruent d ((x * x) ^ f) 1 → 2 ^ j ∣ f)
    → 2 ^ suc j ∣ e
order_step j d x e odd minus one half =
    let f = e / 2 in
    let y = x ^ 2 ^ j in
    elim (Bool-cases (e % 2 == 0)) [
      | inr odd_e ↦
          let is_e : e ≡ 2 * f + 1 = ground arith in
          let powers : y ^ e ≡ (x ^ e) ^ 2 ^ j =
            sym (pow-mul x (2 ^ j) e) ∙ ap (λ k. x ^ k) (swap (2 ^ j) e) ∙ pow-mul x e (2 ^ j) in
          let is_one : Congruent d y 1 =
            sym (minus_one-odd d y f minus)
            ∙ ap (λ k. y ^ k % d) (sym is_e)
            ∙ ap (λ z. z % d) powers
            ∙ one-Congruent_pow d (x ^ e) (2 ^ j) one in
          absurd (one_ne_minus_one d y odd minus is_one)
      | inl even ↦
          let is_e : e ≡ 2 * f = ground arith in
          let halved : Congruent d ((x * x) ^ f) 1 =
            ap (λ z. z % d) (sym (double-pow x f)) ∙ ap (λ k. x ^ k % d) (sym is_e) ∙ one in
          let twice : 2 * 2 ^ j ∣ 2 * f = mul-dvd-mul_left (2 ^ j) 2 (half f halved) in
          let power : 2 * 2 ^ j ≡ 2 ^ suc j = swap 2 (2 ^ j) ∙ sym (pow-suc 2 j) in
          subst (λ k. k ∣ e) power (subst (λ k. 2 * 2 ^ j ∣ k) (sym is_e) twice)
    ]

-- If a power of `x` with exponent `2 ^ j` is minus one, then the exponents of powers that are one are
-- multiples of `2 ^ (j + 1)`.
pub order_dvd :
    (j d x e : ℕ) → 2 < d → IsMinusOne d (x ^ 2 ^ j) → Congruent d (x ^ e) 1 → 2 ^ suc j ∣ e
order_dvd zero d x e odd minus one =
    order_step zero d x e odd minus one (λ f h. rw (pow-zero 2) (one-dvd f))
order_dvd (suc j) d x e odd minus one =
    let next : IsMinusOne d ((x * x) ^ 2 ^ j) = subst (IsMinusOne d) (pow-square x j) minus in
    order_step (suc j) d x e odd minus one (λ f h. order_dvd j d (x * x) f odd next h)
