-- ===== src/Encryption/Oaep/Crt.antt =====
-- The part of decrypt in encryption/go_rsa_oaep_port.go that uses the precomputed values: the
-- private operation by the Chinese remainder theorem.
pub mod Combine
use go_encrypted_config_valu.Base.{
  ℕ, ◌+◌, ◌*◌, not, List, [], ◌∷◌, get_elem?, drop, ◌==◌, if◌then◌else◌,
}
use go_encrypted_config_valu.Base.Int.{ℤ, pos, ◌+ℤ◌, ◌-ℤ◌, ◌*ℤ◌, ◌%ℤ◌, is_negative}
use go_encrypted_config_valu.Base.Outcome.{Outcome, ok, ◌>>=◌, ◌>>◌, demand, deref}
use go_encrypted_config_valu.External.{CrtValue, Precomputed}
use go_encrypted_config_valu.Encryption.Oaep.BigInt.{exp_mod}

-- Mod panics on a zero modulus.
abbrev big_mod : ℤ → ℕ → Outcome ℕ
big_mod a n = do demand (not (n == 0)); ok (a %ℤ n)

-- The loop over CRTValues, with the primes behind the first two.
add_crt : List CrtValue → List ℕ → ℕ → ℕ → Outcome ℕ
add_crt [] primes c m = ok m
add_crt (v ∷ values) [] c m = Outcome.panic
add_crt (v ∷ values) (prime ∷ primes) c m = do
  m2 ← big_mod ((pos (exp_mod c v.exp prime) -ℤ pos m) *ℤ pos v.coeff) prime
  add_crt values primes c (m + m2 * v.r)

unfoldable pub crt_decrypt : Precomputed → List ℕ → ℕ → Outcome ℕ
unfolding add_crt
crt_decrypt pre primes c = do
  p ← deref (get_elem? primes 0)
  q ← deref (get_elem? primes 1)
  let m2 = exp_mod c pre.dq q
  let difference = pos (exp_mod c pre.dp p) -ℤ pos m2
  let positive = if is_negative difference then difference +ℤ pos p else difference
  h ← big_mod (positive *ℤ pos pre.qinv) p
  add_crt pre.crt_values (drop 2 primes) c (h * q + m2)
