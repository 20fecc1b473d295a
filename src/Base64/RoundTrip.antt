-- ===== src/Base64/RoundTrip.antt =====
-- Decoding undoes encoding, and what the encoded text consists of.
use go_encrypted_config_valu.Base.{
  ℕ, ◌+◌, ◌*◌, ◌/◌, ◌%◌, ◌<◌, [], ◌∷◌, some, Bytes, IsBytes, All, Lacks, ◌≡◌, ◌≢◌, refl, arith,
}
use go_encrypted_config_valu.Base64.{
  pad, letter, index, encode, decode, strip, decode_groups, decode_one, decode_two, decode_three,
  last, quantum,
}

-- What a letter of the encoding can be.
pub record IsLetter (c : ℕ) : Type 0 where
  pub ne_pad : c ≢ pad
  pub ne_lf : c ≢ b'\n'
  pub ne_cr : c ≢ b'\r'
  pub ne_colon : c ≢ b':'
  pub ne_brace : c ≢ b'}'
  pub ne_percent : c ≢ b'%'

letter-IsLetter : (i : ℕ) → IsLetter (letter i)
unfolding letter
letter-IsLetter i = ground arith

index-letter : (i : ℕ) → i < 64 → index (letter i) ≡ some i
unfolding letter index
index-letter i h = ground arith

-- A byte that is neither a letter nor the padding does not occur in encoded text.
encode-Lacks : (b : ℕ) → pad ≢ b → ((i : ℕ) → letter i ≢ b) → (s : Bytes) → Lacks b (encode s)
unfolding encode
encode-Lacks b p l [] = tt
encode-Lacks b p l (x ∷ []) = (l (x / 4), (l (x % 4 * 16), (p, (p, tt))))
encode-Lacks b p l (x ∷ y ∷ []) = (l (x / 4), (l (x % 4 * 16 + y / 16), (l (y % 16 * 4), (p, tt))))
encode-Lacks b p l (x ∷ y ∷ z ∷ s) = (
  l (x / 4),
  (l (x % 4 * 16 + y / 16), (l (y % 16 * 4 + z / 64), (l (z % 64), encode-Lacks b p l s))),
)

pub encode-Lacks-colon : (s : Bytes) → Lacks b':' (encode s)
encode-Lacks-colon = encode-Lacks b':' (omega arith) (λ i. (letter-IsLetter i).ne_colon)

pub encode-Lacks-brace : (s : Bytes) → Lacks b'}' (encode s)
encode-Lacks-brace = encode-Lacks b'}' (omega arith) (λ i. (letter-IsLetter i).ne_brace)

pub encode-Lacks-percent : (s : Bytes) → Lacks b'%' (encode s)
encode-Lacks-percent = encode-Lacks b'%' (omega arith) (λ i. (letter-IsLetter i).ne_percent)

strip-Lacks : (s : Bytes) → Lacks b'\n' s → Lacks b'\r' s → strip s ≡ s
unfolding strip
strip-Lacks [] _ _ = refl
strip-Lacks (c ∷ s) (p, hp) (q, hq) = ground (arith, strip-Lacks s hp hq)

strip-encode : (s : Bytes) → strip (encode s) ≡ encode s
strip-encode s =
    strip-Lacks (encode s) (encode-Lacks b'\n' (omega arith) (λ i. (letter-IsLetter i).ne_lf) s)
      (encode-Lacks b'\r' (omega arith) (λ i. (letter-IsLetter i).ne_cr) s)

-- The encoded text is ASCII.
letter-lt : (i : ℕ) → letter i < 128
unfolding letter
letter-lt i = ground arith

pub encode-IsAscii : (s : Bytes) → All (λ c. c < 128) (encode s)
unfolding encode
encode-IsAscii [] = tt
encode-IsAscii (x ∷ []) =
    (letter-lt (x / 4), (letter-lt (x % 4 * 16), (omega arith, (omega arith, tt))))
encode-IsAscii (x ∷ y ∷ []) = (
  letter-lt (x / 4),
  (letter-lt (x % 4 * 16 + y / 16), (letter-lt (y % 16 * 4), (omega arith, tt))),
)
encode-IsAscii (x ∷ y ∷ z ∷ s) = (
  letter-lt (x / 4),
  (
    letter-lt (x % 4 * 16 + y / 16),
    (letter-lt (y % 16 * 4 + z / 64), (letter-lt (z % 64), encode-IsAscii s)),
  ),
)

decode_one_lem :
    (x : ℕ) → x < 256 → decode_one (letter (x / 4)) (letter (x % 4 * 16)) pad [] ≡ some (x ∷ [])
unfolding decode_one last
decode_one_lem x h =
    ground (arith, index-letter (x / 4) (omega arith), index-letter (x % 4 * 16) (omega arith))

decode_two_lem :
    (x y : ℕ)
    → x < 256
    → y < 256
    → decode_two (letter (x / 4)) (letter (x % 4 * 16 + y / 16)) (letter (y % 16 * 4)) []
      ≡ some (x ∷ y ∷ [])
unfolding decode_two last
decode_two_lem x y hx hy = ground (
  arith,
  index-letter (x / 4) (omega arith),
  index-letter (x % 4 * 16 + y / 16) (omega arith),
  index-letter (y % 16 * 4) (omega arith),
)

decode_three_lem :
    (x y z : ℕ) (s : Bytes)
    → x < 256
    → y < 256
    → z < 256
    → decode_three
        (letter (x / 4))
        (letter (x % 4 * 16 + y / 16))
        (letter (y % 16 * 4 + z / 64))
        (letter (z % 64))
        (some s)
      ≡ some (x ∷ y ∷ z ∷ s)
unfolding decode_three quantum
decode_three_lem x y z s hx hy hz = ground (
  arith,
  index-letter (x / 4) (omega arith),
  index-letter (x % 4 * 16 + y / 16) (omega arith),
  index-letter (y % 16 * 4 + z / 64) (omega arith),
  index-letter (z % 64) (omega arith),
)

-- The padding decides which of the three groups is read.
decode_groups_lem :
    (a b c d : ℕ) (s : Bytes)
    → c ≢ pad
    → d ≢ pad
    → decode_groups (a ∷ b ∷ c ∷ d ∷ s) ≡ decode_three a b c d (decode_groups s)
unfolding decode_groups
decode_groups_lem a b c d s hc hd = ground arith

decode_groups_two :
    (a b c : ℕ) → c ≢ pad → decode_groups (a ∷ b ∷ c ∷ pad ∷ []) ≡ decode_two a b c []
unfolding decode_groups
decode_groups_two a b c hc = ground arith

decode_groups-encode : (s : Bytes) → IsBytes s → decode_groups (encode s) ≡ some s
unfolding encode
decode_groups-encode [] h = unfold decode_groups in refl
decode_groups-encode (x ∷ []) (hx, _) = unfold decode_groups in decode_one_lem x hx
decode_groups-encode (x ∷ y ∷ []) (hx, (hy, _)) =
    rw (decode_groups_two _ _ _ (letter-IsLetter (y % 16 * 4)).ne_pad) (decode_two_lem x y hx hy)
decode_groups-encode (x ∷ y ∷ z ∷ s) (hx, (hy, (hz, hs))) =
    rw
      (
        decode_groups_lem _ _ _ _ (encode s) (letter-IsLetter (y % 16 * 4 + z / 64)).ne_pad
            (letter-IsLetter (z % 64)).ne_pad,
        decode_groups-encode s hs,
      )
      (decode_three_lem x y z s hx hy hz)

-- Decoding the encoding of any bytes gives the bytes back.
pub decode-encode : (s : Bytes) → IsBytes s → decode (encode s) ≡ some s
unfolding decode
decode-encode s h = rw (strip-encode s) (decode_groups-encode s h)
