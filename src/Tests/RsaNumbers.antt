-- ===== src/Tests/RsaNumbers.antt =====
-- The theorems on the numbers of RSA at concrete inputs.
use go_encrypted_config_valu.Base.{ℕ, none, ◌⊎◌, some, ◌*◌, ◌<◌, ◌≡◌, [], ◌∷◌, arith, refl, subst}
use Prim.Native.Nat.{◌∣◌}
use go_encrypted_config_valu.Base.Prime.{IsPrime}
use go_encrypted_config_valu.Base.Proth.{squares, squares-IsPrime}
use go_encrypted_config_valu.Tests.ProthKey.{three-IsPrime}
use go_encrypted_config_valu.Encryption.Oaep.Rsa.ValidKey.{
  IsValidKey, IsPrecomputed, raw_by-valid_key,
}
use go_encrypted_config_valu.Base.Int.{ℤ, ◌%ℤ◌}
use go_encrypted_config_valu.Base.Mod.{Congruent}
use go_encrypted_config_valu.Base.Outcome.{ok}
use go_encrypted_config_valu.External.{RsaPrivateKey, Precomputed}
use go_encrypted_config_valu.Encryption.Oaep.Rsa.{raw_by, encrypt, decrypt_number, mod_inverse}
use go_encrypted_config_valu.Encryption.Oaep.Rsa.Inverse.{mod_inverse_lem}
use go_encrypted_config_valu.Encryption.Oaep.Rsa.Draws.{DrawsUnit, here, decrypt_number_returns}
use go_encrypted_config_valu.Tests.Packages.{rand}

-- A key of the primes 3 and 13, and the values for them.
abbrev pre : Precomputed
pre = record { dp = 1; dq = 5; qinv = 1; crt_values = [] }

abbrev with_primes : RsaPrivateKey
with_primes = record {
  public = record { n = some 39; e = 5 };
  d = 5;
  primes = 3 ∷ 13 ∷ [];
  precomputed = some pre;
}

thirteen-IsPrime : IsPrime 13
unfolding squares
thirteen-IsPrime = squares-IsPrime 1 3 2 13 refl (omega arith) (omega arith) refl

with_primes-IsValidKey : IsValidKey with_primes 3 13
with_primes-IsValidKey = record {
  modulus = refl;
  exponent_small = omega arith;
  exponent_large = omega arith;
  primes = refl;
  prime_p = three-IsPrime;
  prime_q = thirteen-IsPrime;
  odd_p = omega arith;
  odd_q = omega arith;
  distinct = omega arith;
  exponents_p = refl;
  exponents_q = refl;
}

pre-IsPrecomputed : IsPrecomputed pre 5 3 13
pre-IsPrecomputed = record { dp = refl; dq = refl; qinv = refl; no_more = refl }

raw_by-valid_key_example :
    raw_by (some pre) with_primes (3 * 13) 8 ≡ raw_by none with_primes (3 * 13) 8
raw_by-valid_key_example =
    raw_by-valid_key with_primes pre 3 13 8 with_primes-IsValidKey pre-IsPrecomputed

pre-stored : (pre' : Precomputed) → with_primes.precomputed ≡ some pre' → IsPrecomputed pre' 5 3 13
pre-stored pre' same =
    let is_pre : pre ≡ pre' = cc in subst (λ x. IsPrecomputed x 5 3 13) is_pre pre-IsPrecomputed

draws : DrawsUnit rand 3 13 1 1013
draws = here 0 38 1013 1014 refl (omega arith) (omega arith)

decrypt_number_returns_example :
    (s' : ℕ) × (decrypt_number rand 1 with_primes 39 (encrypt 39 5 8) 1013 ≡ (ok 8, s'))
decrypt_number_returns_example =
    decrypt_number_returns rand 1 with_primes 3 13 8 1013 with_primes-IsValidKey pre-stored
      (omega arith) draws

mod_inverse_lem_example :
    ((mod_inverse 7 40 ≡ none) × (d : ℕ) × (1 < d) × (d ∣ 7) × (d ∣ 40))
    ⊎ ((ir : ℤ) × (mod_inverse 7 40 ≡ some ir) × Congruent 40 (7 * (ir %ℤ 40)) 1)
mod_inverse_lem_example = mod_inverse_lem 7 40 (omega arith)
