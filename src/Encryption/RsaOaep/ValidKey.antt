-- ===== src/Encryption/RsaOaep/ValidKey.antt =====
-- Keys as crypto/rsa documents them are keys for the cipher, and the cipher returns with them.
use go_encrypted_config_valu.Base.{ℕ, ◌*◌, some, Bytes, ◌≡◌}
use go_encrypted_config_valu.External.{Rand, RsaPrivateKey, Precomputed}
use go_encrypted_config_valu.Encryption.Oaep.Rsa.Draws.{DrawsUnit, find_blind_returns}
use go_encrypted_config_valu.Encryption.Oaep.Rsa.ValidKey.{
  IsValidKey, IsPrecomputed, valid_key-IsRsaKey, check_pub-IsValidKey,
}
use go_encrypted_config_valu.Encryption.RsaOaep.RoundTrip.{IsKeyFor, Runs}

-- The values that are stored in the key, if there are any, fit it.
abbrev pub Fits : RsaPrivateKey → ℕ → ℕ → Type 0
Fits priv p q = (pre : Precomputed) → priv.precomputed ≡ some pre → IsPrecomputed pre priv.d p q

module _ (priv : RsaPrivateKey) (p q : ℕ) (key : IsValidKey priv p q) where
  pub valid_key-IsKeyFor : Fits priv p q → IsKeyFor priv (p * q)
  valid_key-IsKeyFor stored = record {
    has_modulus = key.modulus;
    checked = check_pub-IsValidKey priv p q key;
    is_key = valid_key-IsRsaKey priv p q key stored;
  }

  -- A random source that gives the seed, and from `s2` on, within the rounds, a number that is a
  -- multiple of neither prime, is enough for both calls.
  pub valid_key-Runs :
      {S : Type 0} (rand : Rand S) (rounds size : ℕ) (s s1 s2 : S) (seed : Bytes)
      → rand.read size s ≡ (some seed, s1)
      → DrawsUnit rand p q rounds s2
      → (s3 : S) × Runs rand rounds (p * q) size s s1 s2 s3
  valid_key-Runs rand rounds size s s1 s2 seed drawn draws =
      let (blind, s3, found) =
        find_blind_returns rand p q rounds s2 key.prime_p key.prime_q draws in
      (s3, record { seed = seed; blind = blind; drawn = drawn; found = found })
