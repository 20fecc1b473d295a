-- ===== src/Encryption/Oaep/Rsa/Inverse.antt =====
-- modInverse finds inverses.
use go_encrypted_config_valu.Base.{
  ℕ, zero, suc, ◌+◌, ◌*◌, ◌/◌, ◌%◌, ◌<◌, some, ◌==◌, ◌≡◌, refl, sym, ap, ◌∙◌, arith, Bool-cases,
  inl, inr, ==_iff, ◌⊎◌, ◌≢◌, Option-cases, none, true,
}
use go_encrypted_config_valu.Base.Int.{ℤ, pos, ◌+ℤ◌, ◌-ℤ◌, ◌*ℤ◌, ◌%ℤ◌}
use go_encrypted_config_valu.Base.Mod.{
  Congruent, drop_multiple, add-Congruent, mul-Congruent, add-modulus, mul-remainder, sub-remainder,
}
use go_encrypted_config_valu.Encryption.Oaep.BigInt.{Bezout, euclid, big_gcd}
use Prim.Native.Nat.{◌∣◌}
use go_encrypted_config_valu.Encryption.Oaep.BigInt.Gcd.{big_gcd-dvd}
use go_encrypted_config_valu.Encryption.Oaep.Rsa.{lt_one, mod_inverse}
use native.Mathlib.Nat.{div-add-mod, mod-mod, pos_of_dvd_of_pos}

-- What GCD stores is a combination of its arguments, in residues modulo any number.
IsCombination : ℕ → ℕ → ℕ → Bezout → Type 0
IsCombination n a b t = Congruent n (a * (t.x %ℤ n) + b * (t.y %ℤ n)) t.g

last-IsCombination :
    (n a b : ℕ) → 0 < n → IsCombination n a b (record { g = a; x = pos 1; y = pos 0 })
unfolding IsCombination ◌%ℤ◌
last-IsCombination n a b h =
    let one : a * 1 + b * 0 ≡ a = grind arith in
    add-Congruent n (a * (1 % n)) (a * 1) (b * (0 % n)) (b * 0)
      (mul-Congruent n a a (1 % n) 1 refl (mod-mod 1 n))
      (mul-Congruent n b b (0 % n) 0 refl (mod-mod 0 n))
    ∙ ap (λ k. k % n) one

step-IsCombination :
    (n a b : ℕ) (t : Bezout)
    → 0 < n
    → IsCombination n b (a % b) t
    → IsCombination n a b (record { g = t.g; x = t.y; y = t.x -ℤ pos (a / b) *ℤ t.y })
unfolding IsCombination
step-IsCombination n a b t h i =
    let q = a / b in
    let x = t.x %ℤ n in
    let y = t.y %ℤ n in
    let w = pos q *ℤ t.y in
    let z = (t.x -ℤ w) %ℤ n in
    let split : a * y + b * z ≡ b * (z + q * y) + a % b * y =
      ap (λ k. k * y + b * z) (sym (div-add-mod a b)) ∙ spread b q (a % b) y z in
    let inner : Congruent n (z + q * y) x =
      add-Congruent n z z (q * y) (w %ℤ n) refl (sym (mul-remainder n q t.y h))
      ∙ sub-remainder n t.x w h in
    ap (λ k. k % n) split
    ∙ add-Congruent n (b * (z + q * y)) (b * x) (a % b * y) (a % b * y)
        (mul-Congruent n b b (z + q * y) x refl inner) refl
    ∙ i
  where
    spread : (b q r y z : ℕ) → (b * q + r) * y + b * z ≡ b * (z + q * y) + r * y
    spread b q r y z = grind arith

euclid-IsCombination : (fuel n a b : ℕ) → 0 < n → IsCombination n a b (euclid fuel a b)
unfolding euclid
euclid-IsCombination zero n a b h = last-IsCombination n a b h
euclid-IsCombination (suc fuel) n a b h = elim (Bool-cases (b == 0)) [
  | inl last ↦ rw last (last-IsCombination n a b h)
  | inr more ↦
      rw more (
        step-IsCombination n a b (euclid fuel b (a % b)) h
          (euclid-IsCombination fuel n b (a % b) h))
]

-- Whatever modInverse returns is an inverse modulo `n`.
pub mod_inverse-Congruent :
    (a n : ℕ) (ir : ℤ) → 0 < n → mod_inverse a n ≡ some ir → Congruent n (a * (ir %ℤ n)) 1
unfolding mod_inverse big_gcd IsCombination
mod_inverse-Congruent a n ir h e =
    let t = euclid (suc n) a n in
    let combined = euclid-IsCombination (suc n) n a n h in
    let x = t.x %ℤ n in
    elim (Bool-cases (t.g == 1)) [
      | inr other ↦ absurd (let found = rw other at e in cc)
      | inl one ↦
          let at_x : Congruent n (a * x) 1 =
            sym (drop_multiple n (a * x) (t.y %ℤ n))
            ∙ combined
            ∙ ap (λ k. k % n) ((==_iff t.g 1).0 one) in
          elim (Bool-cases (lt_one t.x)) [
            | inl low ↦
                let same : t.x +ℤ pos n ≡ ir = let found = rw (one, low) at e in cc in
                rw (← same)
                  (mul-Congruent n a a ((t.x +ℤ pos n) %ℤ n) x refl (add-modulus n t.x h) ∙ at_x)
            | inr high ↦
                let same : t.x ≡ ir = let found = rw (one, high) at e in cc in rw (← same) at_x
          ]
    ]

missing_ne_one : (a n : ℕ) → mod_inverse a n ≡ none → (big_gcd a n).g ≢ 1
unfolding mod_inverse
missing_ne_one a n missing one =
    let yes : ((big_gcd a n).g == 1) ≡ true = (==_iff (big_gcd a n).g 1).1 one in
    absurd (let there = rw yes at missing in cc)

-- For a modulus that is not zero, modInverse returns no number where the two numbers have a common
-- divisor above one, and otherwise it returns an inverse.
pub mod_inverse_lem :
    (a n : ℕ)
    → 0 < n
    → ((mod_inverse a n ≡ none) × (d : ℕ) × (1 < d) × (d ∣ a) × (d ∣ n))
      ⊎ ((ir : ℤ) × (mod_inverse a n ≡ some ir) × Congruent n (a * (ir %ℤ n)) 1)
mod_inverse_lem a n h = elim (Option-cases (mod_inverse a n)) [
  | inr (ir, found) ↦ inr (ir, found, mod_inverse-Congruent a n ir h found)
  | inl missing ↦
      let (of_a, of_n) = big_gcd-dvd a n in
      let positive : 0 < (big_gcd a n).g = pos_of_dvd_of_pos of_n h in
      let above_one : 1 < (big_gcd a n).g =
        above (big_gcd a n).g (missing_ne_one a n missing) positive in
      inl (missing, (big_gcd a n).g, above_one, of_a, of_n)
]
  where
    above : (g : ℕ) → g ≢ 1 → 0 < g → 1 < g
    above g other positive = ground arith
