-- ===== src/Base64.antt =====
-- The parts of Go's encoding/base64 that the program calls: StdEncoding.EncodeToString and
-- StdEncoding.DecodeString. The decoder is not strict about trailing bits and skips line ends.
pub mod RoundTrip
use go_encrypted_config_valu.Base.{
  ℕ, ◌+◌, ◌-◌, ◌*◌, ◌/◌, ◌%◌, Bool, true, false, ◌||◌, List, [], ◌∷◌, Option, none, some, Bytes,
  ltb, ◌==◌, if◌then◌else◌,
}

abbrev pub pad : ℕ
pad = b'='

-- The alphabet, by index.
pub letter : ℕ → ℕ
letter i =
    if ltb i 26
    then b'A' + i
    else if ltb i 52
    then b'a' + (i - 26)
    else if ltb i 62
    then b'0' + (i - 52)
    else if i == 62
    then b'+'
    else b'/'

-- The index of a letter of the alphabet.
pub index : ℕ → Option ℕ
index c =
    if ltb c b'+'
    then none
    else if c == b'+'
    then some 62
    else if ltb c b'/'
    then none
    else if c == b'/'
    then some 63
    else if ltb c 58
    then some (c - b'0' + 52)
    else if ltb c b'A'
    then none
    else if ltb c 91
    then some (c - b'A')
    else if ltb c b'a'
    then none
    else if ltb c 123
    then some (c - b'a' + 26)
    else none

unfoldable pub encode : Bytes → Bytes
unfolding letter
encode [] = []
encode (x ∷ []) = letter (x / 4) ∷ letter (x % 4 * 16) ∷ pad ∷ pad ∷ []
encode (x ∷ y ∷ []) = letter (x / 4) ∷ letter (x % 4 * 16 + y / 16) ∷ letter (y % 16 * 4) ∷ pad ∷ []
encode (x ∷ y ∷ z ∷ s) =
    letter (x / 4)
    ∷ letter (x % 4 * 16 + y / 16)
    ∷ letter (y % 16 * 4 + z / 64)
    ∷ letter (z % 64)
    ∷ encode s

infixl 5 ◌>>=◌
abbrev ◌>>=◌ {ℓ κ} : {A : Type ℓ} {B : Type κ} → Option A → (A → Option B) → Option B
none >>= f = none
some a >>= f = f a

-- Four letters stand for three bytes.
quantum : ℕ → ℕ → ℕ → ℕ → Bytes → Bytes
quantum i j k l s = (i * 4 + j / 16) ∷ (j % 16 * 16 + k / 4) ∷ (k % 4 * 64 + l) ∷ s

-- Padding may only end the text.
last : Bytes → Bytes → Option Bytes
last out [] = some out
last out (c ∷ s) = none

decode_one : ℕ → ℕ → ℕ → Bytes → Option Bytes
decode_one a b d s = do
  i ← index a
  j ← index b
  if d == pad then last ((i * 4 + j / 16) ∷ []) s else none

decode_two : ℕ → ℕ → ℕ → Bytes → Option Bytes
decode_two a b c s = do
  i ← index a
  j ← index b
  k ← index c
  last ((i * 4 + j / 16) ∷ (j % 16 * 16 + k / 4) ∷ []) s

decode_three : ℕ → ℕ → ℕ → ℕ → Option Bytes → Option Bytes
decode_three a b c d rest = do
  i ← index a
  j ← index b
  k ← index c
  l ← index d
  s ← rest
  some (quantum i j k l s)

decode_groups : Bytes → Option Bytes
unfolding index last decode_one decode_two decode_three quantum
decode_groups [] = some []
decode_groups (a ∷ []) = none
decode_groups (a ∷ b ∷ []) = none
decode_groups (a ∷ b ∷ c ∷ []) = none
decode_groups (a ∷ b ∷ c ∷ d ∷ s) =
    let more = decode_three a b c d (decode_groups s) in
    if c == pad then decode_one a b d s else if d == pad then decode_two a b c s else more

strip : Bytes → Bytes
strip [] = []
strip (c ∷ s) = if c == b'\n' || c == b'\r' then strip s else c ∷ strip s

unfoldable pub decode : Bytes → Option Bytes
unfolding strip decode_groups
decode s = decode_groups (strip s)
