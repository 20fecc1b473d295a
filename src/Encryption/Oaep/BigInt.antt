-- ===== src/Encryption/Oaep/BigInt.antt =====
-- The operations of math/big on numbers that are not negative.
pub mod Digits
pub mod Gcd
pub mod Width
use go_encrypted_config_valu.Base.{
  ℕ, zero, suc, ◌+◌, ◌*◌, ◌/◌, ◌%◌, ◌^◌, [], ◌∷◌, Bytes, ◌==◌, if◌then◌else◌,
}
use go_encrypted_config_valu.Base.Int.{ℤ, pos, ◌*ℤ◌, ◌-ℤ◌}

-- Exp: a power, reduced by a modulus that is not zero.
abbrev pub exp_mod : ℕ → ℕ → ℕ → ℕ
exp_mod b e n = b ^ e % n

-- SetBytes reads big-endian digits.
unfoldable pub read_digits : ℕ → Bytes → ℕ
read_digits acc [] = acc
read_digits acc (c ∷ s) = read_digits (acc * 256 + c) s

unfoldable pub set_bytes : Bytes → ℕ
unfolding read_digits
set_bytes s = read_digits 0 s

-- Bytes writes no leading zeros. There are fewer digits than `n`, which is the fuel.
unfoldable pub write_digits : ℕ → ℕ → Bytes → Bytes
write_digits zero n acc = acc
write_digits (suc fuel) n acc =
    let more = write_digits fuel (n / 256) ((n % 256) ∷ acc) in if n == 0 then acc else more

unfoldable pub big_bytes : ℕ → Bytes
unfolding write_digits
big_bytes n = write_digits n n []

-- BitLen
unfoldable pub count_bits : ℕ → ℕ → ℕ
count_bits zero n = 0
count_bits (suc fuel) n = let more = count_bits fuel (n / 2) + 1 in if n == 0 then 0 else more

unfoldable pub bit_len : ℕ → ℕ
unfolding count_bits
bit_len n = count_bits n n

-- What GCD stores: `g` is the greatest common divisor of `a` and `b`, and `g = a * x + b * y`.
pub record Bezout : Type 0 where
  pub g : ℕ
  pub x : ℤ
  pub y : ℤ

-- Euclid's algorithm; the second number falls, and one more than it is the fuel.
unfoldable pub euclid : ℕ → ℕ → ℕ → Bezout
euclid zero a b = record { g = a; x = pos 1; y = pos 0 }
euclid (suc fuel) a b =
    let rest = euclid fuel b (a % b) in
    let step : Bezout = record { g = rest.g; x = rest.y; y = rest.x -ℤ pos (a / b) *ℤ rest.y } in
    if b == 0 then record { g = a; x = pos 1; y = pos 0 } else step

unfoldable pub big_gcd : ℕ → ℕ → Bezout
unfolding euclid
big_gcd a b = euclid (suc b) a b
