-- ===== src/Encryption/Oaep/Crt/Combine.antt =====
-- The private operation by the Chinese remainder theorem is the power with the private exponent.
use go_encrypted_config_valu.Base.{
  ℕ, ◌+◌, ◌-◌, ◌*◌, ◌/◌, ◌%◌, ◌^◌, ◌<◌, Bool-cases, false, [], ◌∷◌, ◌==◌, ◌≡◌, refl, sym, ap, ap₂,
  ◌∙◌, arith, inl, inr, if◌then◌else◌,
}
use go_encrypted_config_valu.Base.Int.{
  ℤ, pos, pos_part, neg_part, sub_ℕ, ◌+ℤ◌, ◌-ℤ◌, ◌*ℤ◌, ◌%ℤ◌, is_negative,
}
use go_encrypted_config_valu.Base.Mod.{
  Congruent, add-Congruent, mul-Congruent, cancel, drop_multiple, add-modulus, mul-remainder,
  sub-remainder, remainder-lt,
}
use go_encrypted_config_valu.Base.Outcome.{ok}
use go_encrypted_config_valu.External.{Precomputed}
use go_encrypted_config_valu.Encryption.Oaep.Crt.{crt_decrypt, add_crt}
use native.Mathlib.Nat.{
  mod-mod, mod-eq_of_lt, mod-lt, mod-mod_of_dvd, dvd-mul_left, dvd-mul_right, div-add-mod,
  div-lt_iff_lt-mul,
}

mul_flip : (z : ℤ) (a : ℕ) → z *ℤ pos a ≡ pos a *ℤ z
unfolding ◌*ℤ◌
mul_flip z a = ap₂ sub_ℕ (flip (pos_part z) (neg_part z) a) (flip' (pos_part z) (neg_part z) a)
  where
    flip : (x y k : ℕ) → x * k + y * 0 ≡ k * x + 0 * y
    flip x y k = grind arith

    flip' : (x y k : ℕ) → x * 0 + y * k ≡ k * y + 0 * x
    flip' x y k = grind arith

-- Numbers below a product that agree modulo both factors are equal, if one factor has an inverse
-- modulo the other.
pub unique :
    (p q i x y : ℕ)
    → 0 < q
    → Congruent p (q * i) 1
    → x < p * q
    → y < p * q
    → Congruent p x y
    → Congruent q x y
    → x ≡ y
unique p q i x y positive inverse hx hy ep eq =
    let a = x / q in
    let b = y / q in
    let r = y % q in
    let is_x : q * a + r ≡ x = ap (λ k. q * a + k) (sym eq) ∙ div-add-mod x q in
    let is_y : q * b + r ≡ y = div-add-mod y q in
    let same : Congruent p (q * a) (q * b) = cancel p (q * a) (q * b) r (rw (is_x, is_y) ep) in
    let undo : (k : ℕ) → Congruent p (q * k * i) k = λ k.
      let regroup : q * k * i ≡ k * (q * i) = grind arith in
      let single : k * 1 ≡ k = omega arith in
      ap (λ z. z % p) regroup
      ∙ mul-Congruent p k k (q * i) 1 refl inverse
      ∙ ap (λ z. z % p) single in
    let quotients : Congruent p a b =
      sym (undo a) ∙ mul-Congruent p (q * a) (q * b) i i same refl ∙ undo b in
    let equal : a ≡ b =
      sym (mod-eq_of_lt (quotient-lt x hx)) ∙ quotients ∙ mod-eq_of_lt (quotient-lt y hy) in
    sym is_x ∙ ap (λ k. q * k + r) equal ∙ is_y
  where
    quotient-lt : (z : ℕ) → z < p * q → z / q < p
    quotient-lt z h = (div-lt_iff_lt-mul positive).1 h

-- The difference of the two powers, made positive as the source does, as a residue.
difference_lem :
    (p m1 m2 : ℕ)
    → 0 < p
    → let d = pos m1 -ℤ pos m2 in
      let positive = if is_negative d then d +ℤ pos p else d in
      Congruent p ((positive %ℤ p) + m2) m1
unfolding ◌%ℤ◌
difference_lem p m1 m2 h =
    let d = pos m1 -ℤ pos m2 in
    let plain : Congruent p ((d %ℤ p) + m2) m1 =
      add-Congruent p (d %ℤ p) (d %ℤ p) m2 (m2 % p) refl (sym (mod-mod m2 p))
      ∙ sub-remainder p (pos m1) (pos m2) h
      ∙ mod-mod m1 p in
    elim (Bool-cases (is_negative d)) [
      | inl negative ↦
          rw negative
            (add-Congruent p ((d +ℤ pos p) %ℤ p) (d %ℤ p) m2 m2 (add-modulus p d h) refl ∙ plain)
      | inr fine ↦ rw fine plain
    ]

mixed-lt : (p q h r : ℕ) → h < p → r < q → h * q + r < p * q
mixed-lt p q h r small rest =
    let k = p - h - 1 in
    let is_p : p ≡ h + 1 + k = omega arith in
    let spread : (h + 1 + k) * q ≡ h * q + q + k * q = grind arith in
    let product : p * q ≡ h * q + q + k * q = ap (λ x. x * q) is_p ∙ spread in
    omega (arith, product)

-- Garner's step: the residue modulo `p` of what is put together.
garner_lem :
    (p q i m1 m2 : ℕ) (positive : ℤ)
    → 0 < p
    → Congruent p (q * i) 1
    → Congruent p ((positive %ℤ p) + m2) m1
    → Congruent p (((positive *ℤ pos i) %ℤ p) * q + m2) m1
garner_lem p q i m1 m2 positive some_p inverse e =
    let x = positive %ℤ p in
    let h = (positive *ℤ pos i) %ℤ p in
    let scaled : Congruent p h (i * x) =
      ap (λ z. (z %ℤ p) % p) (mul_flip positive i) ∙ mul-remainder p i positive some_p in
    let regroup : i * x * q ≡ x * (q * i) = grind arith in
    let single : x * 1 ≡ x = omega arith in
    let back : Congruent p (h * q) x =
      mul-Congruent p h (i * x) q q scaled refl
      ∙ ap (λ z. z % p) regroup
      ∙ mul-Congruent p x x (q * i) 1 refl inverse
      ∙ ap (λ z. z % p) single in
    add-Congruent p (h * q) x m2 m2 back refl ∙ e

-- What the program relies on of the precomputed values of a key with two primes.
pub record IsCrt (pre : Precomputed) (p q d : ℕ) : Type 0 where
  pub positive_p : 0 < p
  pub positive_q : 0 < q
  pub no_more : pre.crt_values ≡ []
  pub inverse : Congruent p (q * pre.qinv) 1
  pub power_p : (c : ℕ) → Congruent p (c ^ pre.dp) (c ^ d)
  pub power_q : (c : ℕ) → Congruent q (c ^ pre.dq) (c ^ d)

-- With precomputed values that fit the key, the operation by the Chinese remainder theorem is the
-- power with the private exponent modulo the product of the two primes.
pub crt_decrypt-power :
    (pre : Precomputed) (p q d c : ℕ)
    → IsCrt pre p q d
    → crt_decrypt pre (p ∷ q ∷ []) c ≡ ok (c ^ d % (p * q))
unfolding crt_decrypt add_crt
crt_decrypt-power pre p q d c crt =
    let m1 = c ^ pre.dp % p in
    let m2 = c ^ pre.dq % q in
    let difference = pos m1 -ℤ pos m2 in
    let positive = if is_negative difference then difference +ℤ pos p else difference in
    let h = (positive *ℤ pos pre.qinv) %ℤ p in
    let m = c ^ d % (p * q) in
    let not_zero : (p == 0) ≡ false = let some_p = crt.positive_p in ground arith in
    let power_at_q : Congruent q (c ^ d) m = sym (mod-mod_of_dvd q (c ^ d) (dvd-mul_left q p)) in
    let power_at_p : Congruent p (c ^ d) m = sym (mod-mod_of_dvd p (c ^ d) (dvd-mul_right p q)) in
    let flip : h * q + m2 ≡ m2 + q * h = grind arith in
    let at_q : Congruent q (h * q + m2) m =
      ap (λ z. z % q) flip
      ∙ drop_multiple q m2 h
      ∙ mod-mod (c ^ pre.dq) q
      ∙ crt.power_q c
      ∙ power_at_q in
    let at_p : Congruent p (h * q + m2) m =
      garner_lem p q pre.qinv m1 m2 positive crt.positive_p crt.inverse
        (difference_lem p m1 m2 crt.positive_p)
      ∙ mod-mod (c ^ pre.dp) p
      ∙ crt.power_p c
      ∙ power_at_p in
    let below : h * q + m2 < p * q =
      mixed-lt p q h m2 (remainder-lt p (positive *ℤ pos pre.qinv) crt.positive_p)
        (mod-lt (c ^ pre.dq) crt.positive_q) in
    let some_product : 0 < p * q = omega (arith, below) in
    rw (not_zero, crt.no_more)
      (ap ok (
        unique p q pre.qinv (h * q + m2) m crt.positive_q crt.inverse below
          (mod-lt (c ^ d) some_product) at_p at_q))
