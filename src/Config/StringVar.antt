-- ===== src/Config/StringVar.antt =====
-- The type StringVar of encryptedconfigvalue/stringvars.go: a text of the form `${...}`.
pub mod Form
use go_encrypted_config_valu.Base.{
  not, ◌&&◌, [], ◌∷◌, ◌++◌, Bytes, codes, has_prefix, has_suffix, from_end, slice,
}
use go_encrypted_config_valu.Base.Outcome.{Outcome, ◌>>=◌, ◌>>◌, guard, string_var_form}

-- NewStringVar
abbrev pub new_string_var : Bytes → Bytes
new_string_var input = b'$' ∷ b'{' ∷ (input ++ (b'}' ∷ []))

-- Contents. The test is the one of the source: it fails where neither end is right.
unfoldable pub contents : Bytes → Outcome Bytes
contents input = do
  guard (not (not (has_prefix input (codes "${")) && not (has_suffix input (codes "}"))))
      string_var_form
  stop ← from_end input 1
  slice input 2 stop
