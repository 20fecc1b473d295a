-- ===== src/Base/Mod.antt =====
-- Congruences, and the residues of integers.
use Prim.Native.Nat.{ℕ, zero, suc, ◌+◌, ◌-◌, ◌*◌, ◌/◌, ◌%◌, ◌^◌, ◌<◌}
use mathlib.Core.Path.{◌≡◌, refl, sym, ap, ap₂, ◌∙◌}
use native.Mathlib.Omega.{arith}
use native.Mathlib.Nat.{
  add-mul-mod_self_left, div-add-mod, mod-mod, add-mod, pow-suc, pow-zero, mod-zero, mod-lt,
}
use go_encrypted_config_valu.Base.Int.{
  ℤ, pos, negsuc, pos_part, neg_part, sub_ℕ, ◌+ℤ◌, ◌-ℤ◌, ◌*ℤ◌, ◌%ℤ◌,
}

abbrev pub Congruent : ℕ → ℕ → ℕ → Type 0
Congruent n a b = a % n ≡ b % n

regroup : (n q r b : ℕ) → (n * q + r) * b ≡ r * b + n * (q * b)
regroup n q r b = grind arith

mod-mul : (a b n : ℕ) → (a % n * b) % n ≡ (a * b) % n
mod-mul a b n =
    sym (add-mul-mod_self_left (a % n * b) n (a / n * b))
    ∙ ap (λ x. x % n) (sym (regroup n (a / n) (a % n) b) ∙ ap (λ x. x * b) (div-add-mod a n))

swap : (a b : ℕ) → a * b ≡ b * a
swap a b = grind arith

pub add-Congruent :
    (n a a' b b' : ℕ) → Congruent n a a' → Congruent n b b' → Congruent n (a + b) (a' + b')
add-Congruent n a a' b b' e f = add-mod a b n ∙ ap₂ (λ x y. (x + y) % n) e f ∙ sym (add-mod a' b' n)

left-Congruent : (n a a' b : ℕ) → Congruent n a a' → Congruent n (a * b) (a' * b)
left-Congruent n a a' b e = sym (mod-mul a b n) ∙ ap (λ x. (x * b) % n) e ∙ mod-mul a' b n

pub mul-Congruent :
    (n a a' b b' : ℕ) → Congruent n a a' → Congruent n b b' → Congruent n (a * b) (a' * b')
mul-Congruent n a a' b b' e f =
    left-Congruent n a a' b e
    ∙ ap (λ x. x % n) (swap a' b)
    ∙ left-Congruent n b b' a' f
    ∙ ap (λ x. x % n) (swap b' a')

pub pow-Congruent : (n a a' k : ℕ) → Congruent n a a' → Congruent n (a ^ k) (a' ^ k)
pow-Congruent n a a' zero e = rw (pow-zero a, pow-zero a')
pow-Congruent n a a' (suc k) e =
    rw (pow-suc a k, pow-suc a' k)
      (mul-Congruent n (a ^ k) (a' ^ k) a a' (pow-Congruent n a a' k e) e)

pub pow-add : (a j k : ℕ) → a ^ (j + k) ≡ a ^ j * a ^ k
pow-add a j zero =
    let all : j + 0 ≡ j = omega arith in
    let one : a ^ j * 1 ≡ a ^ j = omega arith in rw (all, pow-zero a, one)
pow-add a j (suc k) =
    let more : j + suc k ≡ suc (j + k) = omega arith in
    let regrouped : a ^ j * a ^ k * a ≡ a ^ j * (a ^ k * a) = grind arith in
    rw (more, pow-suc a (j + k), pow-add a j k, pow-suc a k, regrouped)

pub pow-mul : (a j k : ℕ) → a ^ (j * k) ≡ (a ^ j) ^ k
pow-mul a j zero =
    let none_left : j * 0 ≡ 0 = omega arith in rw (none_left, pow-zero a, pow-zero (a ^ j))
pow-mul a j (suc k) =
    let more : j * suc k ≡ j * k + j = grind arith in
    rw (more, pow-add a (j * k) j, pow-mul a j k, pow-suc (a ^ j) k)

pub mul-pow : (a b k : ℕ) → (a * b) ^ k ≡ a ^ k * b ^ k
mul-pow a b zero = rw (pow-zero (a * b), pow-zero a, pow-zero b)
mul-pow a b (suc k) =
    rw (pow-suc (a * b) k, pow-suc a k, pow-suc b k, mul-pow a b k)
      (interchange (a ^ k) (b ^ k) a b)
  where
    interchange : (x y z w : ℕ) → x * y * (z * w) ≡ x * z * (y * w)
    interchange x y z w = grind arith

-- Multiples of the modulus make no difference.
pub drop_multiple : (n a k : ℕ) → Congruent n (a + n * k) a
drop_multiple n a k = add-mul-mod_self_left a n k

pub cancel : (n a b k : ℕ) → Congruent n (a + k) (b + k) → Congruent n a b
cancel zero a b k e =
    let same = rw (mod-zero (a + k), mod-zero (b + k)) at e in
    rw (mod-zero a, mod-zero b) (omega arith)
cancel (suc m) a b k e =
    let n = suc m in
    let spread : (x : ℕ) → x + suc m * k ≡ x + k + k * m = λ x. grind arith in
    sym (drop_multiple n a k)
    ∙ ap (λ x. x % n) (spread a)
    ∙ add-Congruent n (a + k) (b + k) (k * m) (k * m) e refl
    ∙ ap (λ x. x % n) (sym (spread b))
    ∙ drop_multiple n b k

-- What the remainder of an integer is, in terms of its two parts.
pub remainder_lem : (n : ℕ) (z : ℤ) → 0 < n → Congruent n ((z %ℤ n) + neg_part z) (pos_part z)
unfolding ◌%ℤ◌
remainder_lem n (pos a) h = let plain : a % n + 0 ≡ a % n = omega arith in rw plain (mod-mod a n)
remainder_lem n (negsuc a) h =
    let q = a / n in
    let whole : n - 1 - a % n + suc a ≡ n + n * q = omega (arith, div-add-mod a n, mod-lt a h) in
    let multiple : n + n * q ≡ 0 + n * (q + 1) = grind arith in
    rw (whole, multiple) (drop_multiple n 0 (q + 1))

pub remainder-lt : (n : ℕ) (z : ℤ) → 0 < n → z %ℤ n < n
unfolding ◌%ℤ◌
remainder-lt n (pos a) h = omega arith
remainder-lt n (negsuc a) h = omega arith

sub_parts : (a b : ℕ) → pos_part (sub_ℕ a b) + b ≡ a + neg_part (sub_ℕ a b)
sub_parts a b = ground arith

-- Integers that differ by a natural number on each side.
residue_of :
    (n r : ℕ) (z : ℤ) → 0 < n → Congruent n (r + neg_part z) (pos_part z) → Congruent n r (z %ℤ n)
residue_of n r z h e = cancel n r (z %ℤ n) (neg_part z) (e ∙ sym (remainder_lem n z h))

sub_ℕ-Congruent : (n a b : ℕ) → 0 < n → Congruent n ((sub_ℕ a b %ℤ n) + b) a
sub_ℕ-Congruent n a b h =
    let z = sub_ℕ a b in
    let r = z %ℤ n in
    cancel n (r + b) a (neg_part z) (
      ap (λ x. x % n) (rearrange r b (neg_part z))
      ∙ add-Congruent n (r + neg_part z) (pos_part z) b b (remainder_lem n z h) refl
      ∙ ap (λ x. x % n) (sub_parts a b))
  where
    rearrange : (x y k : ℕ) → x + y + k ≡ x + k + y
    rearrange x y k = omega arith

-- The modulus may be added.
pub add-modulus : (n : ℕ) (z : ℤ) → 0 < n → Congruent n ((z +ℤ pos n) %ℤ n) (z %ℤ n)
unfolding ◌+ℤ◌
add-modulus n z h =
    let r = (z +ℤ pos n) %ℤ n in
    let k = neg_part z + 0 in
    let once : pos_part z + n ≡ pos_part z + n * 1 = omega arith in
    let plain : k ≡ neg_part z = omega arith in
    residue_of n r z h (
      ap (λ x. (r + x) % n) (sym plain)
      ∙ sub_ℕ-Congruent n (pos_part z + n) k h
      ∙ ap (λ x. x % n) once
      ∙ drop_multiple n (pos_part z) 1)

-- A product with a natural number.
pub mul-remainder : (n a : ℕ) (z : ℤ) → 0 < n → Congruent n ((pos a *ℤ z) %ℤ n) (a * (z %ℤ n))
unfolding ◌*ℤ◌
mul-remainder n a z h =
    let r = (pos a *ℤ z) %ℤ n in
    let down = a * neg_part z in
    let up : a * pos_part z + 0 * neg_part z ≡ a * pos_part z = omega arith in
    let plain : a * neg_part z + 0 * pos_part z ≡ down = omega arith in
    let spread : a * (z %ℤ n) + down ≡ a * ((z %ℤ n) + neg_part z) = grind arith in
    cancel n r (a * (z %ℤ n)) down (
      ap (λ x. (r + x) % n) (sym plain)
      ∙ sub_ℕ-Congruent n (a * pos_part z + 0 * neg_part z) (a * neg_part z + 0 * pos_part z) h
      ∙ ap (λ x. x % n) up
      ∙ sym (
          ap (λ x. x % n) spread
          ∙ mul-Congruent n a a ((z %ℤ n) + neg_part z) (pos_part z) refl (remainder_lem n z h)))

-- A difference.
pub sub-remainder : (n : ℕ) (x y : ℤ) → 0 < n → Congruent n (((x -ℤ y) %ℤ n) + (y %ℤ n)) (x %ℤ n)
unfolding ◌-ℤ◌
sub-remainder n x y h =
    let r = (x -ℤ y) %ℤ n in
    let u = y %ℤ n in
    let left : r + u + neg_part x + neg_part y ≡ r + neg_part x + (u + neg_part y) = omega arith in
    let right : r + neg_part x + pos_part y ≡ r + (neg_part x + pos_part y) = omega arith in
    residue_of n (r + u) x h (
      cancel n (r + u + neg_part x) (pos_part x) (neg_part y) (
        ap (λ k. k % n) left
        ∙ add-Congruent n (r + neg_part x) (r + neg_part x) (u + neg_part y) (pos_part y) refl
            (remainder_lem n y h)
        ∙ ap (λ k. k % n) right
        ∙ sub_ℕ-Congruent n (pos_part x + neg_part y) (neg_part x + pos_part y) h))
