-- ===== src/Encryption/Oaep/Rsa.antt =====
-- checkPub, modInverse, decrypt and encrypt of encryption/go_rsa_oaep_port.go: RSA on numbers.
pub mod Inverse
pub mod Blinding
pub mod TwoPrimes
pub mod ValidKey
pub mod Draws
use go_encrypted_config_valu.Base.{
  ℕ, zero, suc, ◌-◌, ◌*◌, ◌%◌, ◌^◌, Bool, true, false, not, Option, none, some, ltb, ◌==◌,
  if◌then◌else◌,
}
use go_encrypted_config_valu.Base.Int.{ℤ, pos, negsuc, ◌+ℤ◌, ◌*ℤ◌, ◌%ℤ◌}
use go_encrypted_config_valu.Base.Outcome.{
  Outcome, ok, err, starved, public_modulus, exponent_small, exponent_large, decryption,
  random_failed, guard, some_or,
}
use go_encrypted_config_valu.External.{Rand, RsaPublicKey, RsaPrivateKey, Precomputed}
use go_encrypted_config_valu.Encryption.Exec.{Exec, ◌>>=◌, ◌>>◌, pure, lift}
use go_encrypted_config_valu.Encryption.Oaep.BigInt.{exp_mod, big_gcd}
use go_encrypted_config_valu.Encryption.Oaep.Crt.{crt_decrypt}

-- checkPub, with a constructor for each of its three errors.
unfoldable pub check_modulus : Option ℕ → ℕ → Outcome (Unit {0})
check_modulus none e = err public_modulus
check_modulus (some n) e =
    if ltb e 2 then err exponent_small else if ltb (2 ^ 31 - 1) e then err exponent_large else ok tt

abbrev pub check_pub : RsaPublicKey → Outcome (Unit {0})
check_pub k = check_modulus k.n k.e

-- The comparison `x < 1`.
abbrev pub lt_one : ℤ → Bool
lt_one (pos zero) = true
lt_one (pos (suc n)) = false
lt_one (negsuc n) = true

-- modInverse; `none` is `ok == false`.
unfoldable pub mod_inverse : ℕ → ℕ → Option ℤ
mod_inverse a n =
    let found = big_gcd a n in
    if not (found.g == 1) then none else some (if lt_one found.x then found.x +ℤ pos n else found.x)

-- encrypt
unfoldable pub encrypt : ℕ → ℕ → ℕ → ℕ
encrypt n e m = exp_mod m e n

-- The private operation on a number, without the blinding.
unfoldable pub raw_by : Option Precomputed → RsaPrivateKey → ℕ → ℕ → Outcome ℕ
raw_by none priv n c = ok (exp_mod c priv.d n)
raw_by (some pre) priv n c = crt_decrypt pre priv.primes c

abbrev pub raw_decrypt : RsaPrivateKey → ℕ → ℕ → Outcome ℕ
raw_decrypt priv n c = raw_by priv.precomputed priv n c

module _ {S : Type 0} (rand : Rand S) where
  -- rand.Int
  pub draw : ℕ → Exec S ℕ
  draw n s = (some_or random_failed (rand.int n s).0, (rand.int n s).1)

  -- The loop of the blinding: numbers are drawn until one has an inverse. It returns the number and
  -- its inverse.
  unfoldable pub find_blind : ℕ → ℕ → Exec S (ℕ × ℤ)
  unfolding draw
  find_blind zero n = lift starved
  find_blind (suc rounds) n = do
    drawn ← draw n
    let r = if drawn == 0 then 1 else drawn
    elim (mod_inverse r n) [ none ↦ find_blind rounds n | some ir ↦ pure (r, ir) ]

  -- decrypt, for a modulus that is not nil. The random source is never nil in this package.
  unfoldable pub decrypt_number : ℕ → RsaPrivateKey → ℕ → ℕ → Exec S ℕ
  decrypt_number rounds priv n c = do
    lift (guard (not (ltb n c)) decryption)
    lift (guard (not (n == 0)) decryption)
    (r, ir) ← find_blind rounds n
    let blinded = c * exp_mod r priv.public.e n % n
    m ← lift (raw_decrypt priv n blinded)
    pure ((pos m *ℤ ir) %ℤ n)
