-- ===== src/Tests/ProthKey.antt =====
-- An RSA key with a large prime, as crypto/rsa documents keys, with its precomputed values.
use go_encrypted_config_valu.Base.{ℕ, ◌*◌, ◌≡◌, [], ◌∷◌, some, arith, refl, subst}
use go_encrypted_config_valu.Base.Prime.{IsPrime}
use go_encrypted_config_valu.Base.Proth.{squares, squares-IsPrime}
use go_encrypted_config_valu.External.{RsaPrivateKey, Precomputed}
use go_encrypted_config_valu.Encryption.Oaep.Rsa.ValidKey.{IsValidKey, IsPrecomputed}
use go_encrypted_config_valu.Encryption.RsaOaep.ValidKey.{Fits}

-- 77 * 2 ^ 559 + 1
abbrev pub prime : ℕ
prime =
    145297553355629342061299851368048352300301466986032956492483942559456530252097730805315878919339862550346532438684408028641167508252104516353615218680158797680501720088577

prime-IsPrime : IsPrime prime
unfolding squares
prime-IsPrime = squares-IsPrime 558 77 3 prime refl (omega arith) (omega arith) refl

pub three-IsPrime : IsPrime 3
unfolding squares
three-IsPrime = squares-IsPrime 0 1 2 3 refl (omega arith) (omega arith) refl

abbrev pub exponent : ℕ
exponent =
    96865035570419561374199900912032234866867644657355304328322628372971020168065153870210585946226575033564354959122938685760778338834736344235743479120105865120334480059051

abbrev pub pre : Precomputed
pre = record { dp = 1; dq = exponent; qinv = 2; crt_values = [] }

abbrev pub key : RsaPrivateKey
key = record {
  public = record { n = some (3 * prime); e = 3 };
  d = exponent;
  primes = 3 ∷ prime ∷ [];
  precomputed = some pre;
}

pub key-IsValidKey : IsValidKey key 3 prime
key-IsValidKey = record {
  modulus = refl;
  exponent_small = omega arith;
  exponent_large = omega arith;
  primes = refl;
  prime_p = three-IsPrime;
  prime_q = prime-IsPrime;
  odd_p = omega arith;
  odd_q = omega arith;
  distinct = omega arith;
  exponents_p = refl;
  exponents_q = refl;
}

pub key-Fits : Fits key 3 prime
key-Fits pre' same =
    let is_pre : pre ≡ pre' = cc in
    subst (λ x. IsPrecomputed x exponent 3 prime) is_pre
      (record { dp = refl; dq = refl; qinv = refl; no_more = refl })
