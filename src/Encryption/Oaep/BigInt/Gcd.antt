-- ===== src/Encryption/Oaep/BigInt/Gcd.antt =====
-- Euclid's algorithm finds a common divisor.
use go_encrypted_config_valu.Base.{ℕ, zero, suc, ◌%◌, ◌<◌, ◌≡◌, arith, Bool-cases, ◌==◌, inl, inr}
use Prim.Native.Nat.{◌∣◌}
use go_encrypted_config_valu.Encryption.Oaep.BigInt.{euclid, big_gcd}
use native.Mathlib.Nat.{mod-lt, dvd-mod_iff, dvd_refl, dvd-zero}

euclid-dvd : (fuel a b : ℕ) → b < fuel → ((euclid fuel a b).g ∣ a) × ((euclid fuel a b).g ∣ b)
unfolding euclid
euclid-dvd zero a b enough = absurd (omega arith)
euclid-dvd (suc fuel) a b enough = elim (Bool-cases (b == 0)) [
  | inl last ↦ let none_left : b ≡ 0 = ground arith in rw none_left (dvd_refl a, dvd-zero a)
  | inr more ↦
      let less : a % b < b = mod-lt a (ground arith) in
      let (of_b, of_rest) = euclid-dvd fuel b (a % b) (omega arith) in
      rw more ((dvd-mod_iff (euclid fuel b (a % b)).g of_b).0 of_rest, of_b)
]

-- What GCD stores as the divisor divides both numbers.
pub big_gcd-dvd : (a b : ℕ) → ((big_gcd a b).g ∣ a) × ((big_gcd a b).g ∣ b)
unfolding big_gcd
big_gcd-dvd a b = euclid-dvd (suc b) a b (omega arith)
