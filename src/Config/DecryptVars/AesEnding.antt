-- ===== src/Config/DecryptVars/AesEnding.antt =====
-- DecryptEncryptedStringVariables with an AES key comes to an end.
use go_encrypted_config_valu.Base.{ℕ, Bytes, ◌≢◌}
use go_encrypted_config_valu.Base.Outcome.{starved}
use go_encrypted_config_valu.External.{Packages}
use go_encrypted_config_valu.Encryption.Keys.{aes_key}
use go_encrypted_config_valu.Config.GoValue.{Value, Heap}
use go_encrypted_config_valu.Config.StringVars.Ended.{decrypt_all-ended}
use go_encrypted_config_valu.Config.DecryptVars.{decrypt_in}
use go_encrypted_config_valu.Config.DecryptVars.Ending.{
  IsRanked, Below, decrypt_string_vars_in-ends,
}
use go_encrypted_config_valu.Config.DecryptVars.Shape.{shape, shape_heap}

-- With an AES key, if references lead to objects of a lower rank only, then fuel above the ranks of
-- the addresses in the value is enough: DecryptEncryptedStringVariables ends.
pub decrypt_in-ends :
    {S : Type 0} (p : Packages S) (kind key : Bytes) (rank : ℕ → ℕ) (fuel : ℕ) (v : Value) (t : S)
    (h : Heap)
    → IsRanked rank (shape_heap h)
    → Below rank fuel (shape v)
    → (decrypt_in p (record { key_type = kind; key = aes_key key }) fuel v (t, h)).0 ≢ starved
unfolding decrypt_in
decrypt_in-ends p kind key rank fuel v t h ranked below =
    decrypt_string_vars_in-ends p _ rank fuel _ v t h (decrypt_all-ended p kind key) ranked below
