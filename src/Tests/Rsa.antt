-- ===== src/Tests/Rsa.antt =====
-- The theorems on OAEP at concrete inputs.
use go_encrypted_config_valu.Base.{
  ℕ, ◌⊎◌, ◌-◌, ◌^◌, ◌<◌, ◌≤◌, ◌≡◌, Bytes, IsBytes, replicate, codes, arith, refl,
}
use go_encrypted_config_valu.Base.Int.{ℤ, pos, ◌+ℤ◌, ◌-ℤ◌, ◌*ℤ◌}
use go_encrypted_config_valu.Base.Outcome.{ok, err, decryption}
use go_encrypted_config_valu.Encryption.Oaep.BigInt.{bit_len, count_bits, euclid, big_gcd}
use go_encrypted_config_valu.Encryption.Oaep.Mask.{Hash}
use go_encrypted_config_valu.Encryption.Oaep.Rsa.{find_blind, mod_inverse}
use go_encrypted_config_valu.Encryption.Oaep.Scheme.{modulus_size, encrypt_oaep, decrypt_oaep}
use go_encrypted_config_valu.Encryption.Oaep.Scheme.Total.{decrypt_oaep-cases}
use go_encrypted_config_valu.Encryption.Oaep.Scheme.Branches.{Encrypts, encrypt_oaep-Encrypts}
use go_encrypted_config_valu.Encryption.Oaep.Scheme.RoundTrip.{
  modulus_size_bounds, decrypt_oaep-encrypt,
}
use go_encrypted_config_valu.Encryption.RsaOaep.{sha256, hash}
use go_encrypted_config_valu.Encryption.RsaOaep.RoundTrip.{hash-IsHash}
use go_encrypted_config_valu.Tests.Packages.{rand, digests, rand-IsRand, digests-IsDigests}
use go_encrypted_config_valu.Tests.RsaKey.{n, key, key-IsKeyFor}

abbrev pub blind : ℕ × ℤ
blind = (
  1013,
  pos
      1200042900448950163742061487090178636286295128883237073784476580469249858703945960261088321764563414428638873419507229032533243763952797762046661886151157294999937693967,
)

pub found : find_blind rand 1 n 1013 ≡ (ok blind, 1014)
unfolding find_blind mod_inverse big_gcd euclid ◌+ℤ◌ ◌-ℤ◌ ◌*ℤ◌
found = refl

modulus_size_bounds_example : (256 ^ (modulus_size n - 1) ≤ n) × (n < 256 ^ modulus_size n)
modulus_size_bounds_example = modulus_size_bounds n (omega arith)

pub size_of_n : modulus_size n ≡ 70
unfolding bit_len count_bits
size_of_n = refl

abbrev pub msg : Bytes
msg = codes "word"

abbrev pub digest_32 : Hash
digest_32 = record { size = 32; sum = digests.sha256 }

pub is_digest_32 : hash digests sha256 ≡ ok digest_32
unfolding hash
is_digest_32 = refl

encrypt_oaep-Encrypts_example :
    Encrypts rand digest_32 digest_32 key.public msg
      (codes "l")
      4
      (encrypt_oaep rand digest_32 digest_32 key.public msg (codes "l") 4)
encrypt_oaep-Encrypts_example =
    encrypt_oaep-Encrypts rand digest_32 digest_32 key.public msg (codes "l") 4
      (hash-IsHash digests sha256 digests-IsDigests is_digest_32)
      (hash-IsHash digests sha256 digests-IsDigests is_digest_32) rand-IsRand

decrypt_oaep-encrypt_example :
    (out : Bytes) × IsBytes out
    × (encrypt_oaep rand digest_32 digest_32 key.public msg (codes "l") 4 ≡ (ok out, 5))
    × (decrypt_oaep rand digest_32 digest_32 1 key out (codes "l") 1013 ≡ (ok msg, 1014))
decrypt_oaep-encrypt_example =
    decrypt_oaep-encrypt rand digest_32 digest_32 1 n key msg (codes "l") (replicate 32 4) 4 5 1013
      1014 blind (hash-IsHash digests sha256 digests-IsDigests is_digest_32)
      (hash-IsHash digests sha256 digests-IsDigests is_digest_32) key-IsKeyFor.has_modulus
      key-IsKeyFor.checked key-IsKeyFor.is_key (omega arith) (omega (arith, size_of_n)) rand-IsRand
      refl found

decrypt_oaep-cases_example :
    ((s2 : ℕ) × (decrypt_oaep rand digest_32 digest_32 1 key msg (codes "l") 1013
        ≡ (err decryption, s2)))
    ⊎ ((msg' : Bytes) × (decrypt_oaep rand digest_32 digest_32 1 key msg (codes "l") 1013
          ≡ (ok msg', 1014)))
decrypt_oaep-cases_example =
    decrypt_oaep-cases rand digest_32 digest_32 1 n key msg (codes "l") 1013 1014 blind
      (hash-IsHash digests sha256 digests-IsDigests is_digest_32) key-IsKeyFor.has_modulus
      key-IsKeyFor.checked key-IsKeyFor.is_key found
