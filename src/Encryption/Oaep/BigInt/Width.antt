-- ===== src/Encryption/Oaep/BigInt/Width.antt =====
-- How many bytes and bits a number has.
use go_encrypted_config_valu.Base.{
  ℕ, zero, suc, ◌+◌, ◌*◌, ◌-◌, ◌/◌, ◌%◌, ◌^◌, ◌≤◌, ◌<◌, [], ◌∷◌, ◌++◌, Bytes, IsBytes, IsByte,
  All-append, length, ◌≡◌, refl, arith, ◌∙◌, sym, subst, length-append, Bool-cases, inl, inr, ◌==◌,
  ltb, ◌↔◌, if◌then◌else◌,
}
use go_encrypted_config_valu.Encryption.Oaep.BigInt.{
  read_digits, set_bytes, write_digits, big_bytes, count_bits, bit_len,
}
use go_encrypted_config_valu.Encryption.Oaep.BigInt.Digits.{
  digits, Fits, padded, Fits-read, left_pad_lem,
}
use go_encrypted_config_valu.Encryption.Oaep.Padding.{left_pad}
use native.Mathlib.Nat.{pow-suc, pow-zero, div-lt_iff_lt-mul}

read_digits-append :
    (acc c : ℕ) (s : Bytes) → read_digits acc (s ++ (c ∷ [])) ≡ read_digits acc s * 256 + c
unfolding read_digits
read_digits-append acc c [] = refl
read_digits-append acc c (x ∷ s) = read_digits-append (acc * 256 + x) c s

-- The digits of a number that fits spell it.
pub set_bytes-digits : (k n : ℕ) → Fits k n → set_bytes (digits k n) ≡ n
unfolding set_bytes digits Fits read_digits
set_bytes-digits zero n f = sym f
set_bytes-digits (suc k) n f =
    read_digits-append 0 (n % 256) (digits k (n / 256))
    ∙ omega (arith, set_bytes-digits k (n / 256) f)

pub length-digits : (k n : ℕ) → length (digits k n) ≡ k
unfolding digits
length-digits zero n = refl
length-digits (suc k) n =
    omega (arith, length-append (digits k (n / 256)) (n % 256 ∷ []), length-digits k (n / 256))

pub digits-IsBytes : (k n : ℕ) → IsBytes (digits k n)
unfolding digits
digits-IsBytes zero n = tt
digits-IsBytes (suc k) n =
    All-append IsByte (digits k (n / 256)) (n % 256 ∷ []) (digits-IsBytes k (n / 256)) (omega arith)

pub length-big_bytes : (k n : ℕ) → Fits k n → length (big_bytes n) ≤ k
unfolding big_bytes
length-big_bytes k n f = (padded k n n (omega arith) f).0

pub left_pad-big_bytes : (k n : ℕ) → Fits k n → left_pad (big_bytes n) k ≡ digits k n
unfolding big_bytes
left_pad-big_bytes k n f =
    let (short, same) = padded k n n (omega arith) f in
    left_pad_lem (write_digits n n []) k short ∙ same

pub set_bytes-Fits : (s : Bytes) → IsBytes s → Fits (length s) (set_bytes s)
unfolding set_bytes Fits
set_bytes-Fits s h =
    let all : length s + 0 ≡ length s = omega arith in rw all at (Fits-read 0 0 s h refl)

pub Fits-mono : (k m n : ℕ) → m ≤ n → Fits k n → Fits k m
unfolding Fits
Fits-mono zero m n h f = omega arith
Fits-mono (suc k) m n h f = Fits-mono k (m / 256) (n / 256) (omega arith) f

-- The number has at most `b` bits.
FitsBits : ℕ → ℕ → Type 0
FitsBits zero n = n ≡ 0
FitsBits (suc b) n = FitsBits b (n / 2)

count_bits-FitsBits : (fuel n : ℕ) → n ≤ fuel → FitsBits (count_bits fuel n) n
unfolding count_bits FitsBits
count_bits-FitsBits zero n h = omega arith
count_bits-FitsBits (suc fuel) n h = elim (Bool-cases (n == 0)) [
  | inl none_left ↦ rw none_left (ground arith)
  | inr more ↦
      let one_more : count_bits fuel (n / 2) + 1 ≡ suc (count_bits fuel (n / 2)) = omega arith in
      rw (more, one_more) (count_bits-FitsBits fuel (n / 2) (ground arith))
]

count_bits_least : (fuel b n : ℕ) → FitsBits b n → count_bits fuel n ≤ b
unfolding count_bits FitsBits
count_bits_least zero b n f = omega arith
count_bits_least (suc fuel) zero n f = ground arith
count_bits_least (suc fuel) (suc b) n f =
    let rest = count_bits_least fuel b (n / 2) f in ground (arith, rest)

FitsBits-zero : (c : ℕ) → FitsBits c 0
unfolding FitsBits
FitsBits-zero zero = refl
FitsBits-zero (suc c) = FitsBits-zero c

FitsBits-add : (c b n : ℕ) → FitsBits b n → FitsBits (b + c) n
unfolding FitsBits
FitsBits-add c zero n f = rw f (FitsBits-zero (0 + c))
FitsBits-add c (suc b) n f =
    let same : suc b + c ≡ suc (b + c) = omega arith in rw same (FitsBits-add c b (n / 2) f)

-- Eight bits are a byte.
eight : (k n : ℕ) → Fits k n ↔ FitsBits (k * 8) n
unfolding Fits FitsBits
eight zero n = (λ f. f, λ f. f)
eight (suc k) n =
    let more : suc k * 8 ≡ suc (suc (suc (suc (suc (suc (suc (suc (k * 8)))))))) = omega arith in
    let same : n / 2 / 2 / 2 / 2 / 2 / 2 / 2 / 2 ≡ n / 256 = omega arith in
    let (to_bits, to_bytes) = eight k (n / 256) in
    rw more (
      (λ f. subst (FitsBits (k * 8)) (sym same) (to_bits f)),
      (λ f. to_bytes (subst (FitsBits (k * 8)) same f)),
    )

-- A number fits the bytes for its bits, and no fewer bytes.
pub bit_len-Fits : (n : ℕ) → Fits ((bit_len n + 7) / 8) n
unfolding bit_len
bit_len-Fits n =
    let b = count_bits n n in
    let k = (b + 7) / 8 in
    let room : b + (k * 8 - b) ≡ k * 8 = omega arith in
    (eight k n).1 (
      subst (λ c. FitsBits c n) room
        (FitsBits-add (k * 8 - b) b n (count_bits-FitsBits n n (omega arith))))

pub bit_len_least : (k n : ℕ) → Fits k n → (bit_len n + 7) / 8 ≤ k
unfolding bit_len
bit_len_least k n f = omega (arith, count_bits_least n (k * 8) n ((eight k n).0 f))

-- The numbers that fit `k` bytes are those below 256 ^ k.
pub Fits-lt : (k n : ℕ) → Fits k n ↔ (n < 256 ^ k)
unfolding Fits
Fits-lt zero n = rw (pow-zero 256) ((λ f. omega arith), (λ h. omega arith))
Fits-lt (suc k) n =
    let (to_lt, to_fits) = Fits-lt k (n / 256) in
    let quotient = div-lt_iff_lt-mul {k = 256} {x = n} {y = 256 ^ k} (omega arith) in
    rw (pow-suc 256 k) ((λ f. quotient.0 (to_lt f)), (λ h. to_fits (quotient.1 h)))

-- The bytes of a number that fits, padded where they are too few.
pub padded-digits :
    (k n : ℕ)
    → Fits k n
    → (if ltb (length (big_bytes n)) k then left_pad (big_bytes n) k else big_bytes n) ≡ digits k n
padded-digits k n f =
    let out = big_bytes n in
    let short = length-big_bytes k n f in
    elim (Bool-cases (ltb (length out) k)) [
      | inl less ↦ rw less (left_pad-big_bytes k n f)
      | inr full ↦
          let no_gap : k - length out ≡ 0 = ground (arith, short, full) in
          rw full (rw (no_gap) at (sym (left_pad_lem out k short)) ∙ left_pad-big_bytes k n f)
    ]
