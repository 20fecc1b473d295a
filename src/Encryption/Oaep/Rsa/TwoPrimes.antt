-- ===== src/Encryption/Oaep/Rsa/TwoPrimes.antt =====
-- Keys with precomputed values: the private operation is the same with and without them.
use go_encrypted_config_valu.Base.{ℕ, ◌*◌, ◌%◌, ◌^◌, ◌<◌, [], ◌∷◌, none, some, ◌≡◌}
use go_encrypted_config_valu.External.{RsaPrivateKey, Precomputed}
use go_encrypted_config_valu.Encryption.Oaep.Crt.Combine.{IsCrt, crt_decrypt-power}
use go_encrypted_config_valu.Encryption.Oaep.Rsa.{raw_by}
use go_encrypted_config_valu.Encryption.Oaep.Rsa.Blinding.{IsRsaKey}

-- With precomputed values that fit a key of two primes, the private operation by the Chinese remainder
-- theorem gives on every number what the plain power with the private exponent gives.
pub raw_by-precomputed :
    (priv : RsaPrivateKey) (pre : Precomputed) (p q c : ℕ)
    → priv.primes ≡ p ∷ q ∷ []
    → IsCrt pre p q priv.d
    → raw_by (some pre) priv (p * q) c ≡ raw_by none priv (p * q) c
unfolding raw_by
raw_by-precomputed priv pre p q c two crt = rw two (crt_decrypt-power pre p q priv.d c crt)

-- A key with such values meets the laws of a key, if its exponents undo each other.
pub precomputed-IsRsaKey :
    (priv : RsaPrivateKey) (pre : Precomputed) (p q : ℕ)
    → priv.precomputed ≡ some pre
    → priv.primes ≡ p ∷ q ∷ []
    → IsCrt pre p q priv.d
    → 0 < p * q
    → ((m : ℕ) → m < p * q → (m ^ priv.public.e % (p * q)) ^ priv.d % (p * q) ≡ m)
    → IsRsaKey priv (p * q)
unfolding raw_by
precomputed-IsRsaKey priv pre p q has_values two crt positive undo = record {
  positive = positive;
  raw-power = λ c small. rw has_values (raw_by-precomputed priv pre p q c two crt);
  power-power = undo;
}
