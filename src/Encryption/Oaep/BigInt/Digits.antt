-- ===== src/Encryption/Oaep/BigInt/Digits.antt =====
-- Bytes read as a number, and the number written as padded bytes.
use go_encrypted_config_valu.Base.{
  ℕ, zero, suc, ◌+◌, ◌*◌, ◌-◌, ◌/◌, ◌%◌, ◌≤◌, ◌<◌, min, [], ◌∷◌, ◌++◌, Bytes, IsBytes, length,
  replicate, ◌≡◌, refl, arith, ◌∙◌, sym, ap, append_assoc, append-nil, length-append,
  length-replicate, replicate-add, take-eq_self, Bool-cases, inl, inr, ◌==◌, false,
}
use go_encrypted_config_valu.Encryption.Oaep.BigInt.{
  read_digits, set_bytes, write_digits, big_bytes,
}
use go_encrypted_config_valu.Encryption.Oaep.Padding.{left_pad}
use go_encrypted_config_valu.Encryption.Oaep.Padding.Block.{copy_at_lem}

-- The last `k` digits of a number.
unfoldable pub digits : ℕ → ℕ → Bytes
digits zero n = []
digits (suc k) n = digits k (n / 256) ++ (n % 256 ∷ [])

-- The number has at most `k` digits.
unfoldable pub Fits : ℕ → ℕ → Type 0
Fits zero n = n ≡ 0
Fits (suc k) n = Fits k (n / 256)

-- One more digit at the end.
shift : (acc c : ℕ) → c < 256 → ((acc * 256 + c) / 256 ≡ acc) × ((acc * 256 + c) % 256 ≡ c)
shift acc c h = (omega arith, omega arith)

digits-read :
    (k acc : ℕ) (s : Bytes)
    → IsBytes s
    → digits (length s + k) (read_digits acc s) ≡ digits k acc ++ s
unfolding digits read_digits
digits-read k acc [] h = let same : 0 + k ≡ k = omega arith in rw (same, append-nil)
digits-read k acc (c ∷ s) (p, h) =
    let more : suc (length s) + k ≡ length s + suc k = omega arith in
    rw (more, digits-read (suc k) (acc * 256 + c) s h, (shift acc c p).0, (shift acc c p).1)
      (append_assoc (digits k acc) (c ∷ []) s)

pub Fits-read :
    (k acc : ℕ) (s : Bytes) → IsBytes s → Fits k acc → Fits (length s + k) (read_digits acc s)
unfolding Fits read_digits
Fits-read k acc [] h f = let same : 0 + k ≡ k = omega arith in rw same f
Fits-read k acc (c ∷ s) (p, h) f =
    let more : suc (length s) + k ≡ length s + suc k = omega arith in
    rw more (Fits-read (suc k) (acc * 256 + c) s h (rw ((shift acc c p).0) f))

write_digits-append :
    (fuel n : ℕ) (acc : Bytes) → write_digits fuel n acc ≡ write_digits fuel n [] ++ acc
unfolding write_digits
write_digits-append zero n acc = refl
write_digits-append (suc fuel) n acc = elim (Bool-cases (n == 0)) [
  | inl e ↦ rw e
  | inr e ↦
      rw
        (
          e,
          write_digits-append fuel (n / 256) (n % 256 ∷ acc),
          write_digits-append fuel (n / 256) (n % 256 ∷ []),
        )
        (sym (append_assoc (write_digits fuel (n / 256) []) (n % 256 ∷ []) acc))
]

write_digits-zero : (fuel : ℕ) → write_digits fuel 0 [] ≡ []
unfolding write_digits
write_digits-zero zero = refl
write_digits-zero (suc fuel) = refl

digits-zero : (k : ℕ) → digits k 0 ≡ replicate k 0
unfolding digits
digits-zero zero = refl
digits-zero (suc k) =
    let one_more : k + 1 ≡ suc k = omega arith in
    rw (digits-zero k)
      (sym (replicate-add {A = ℕ} k 1 0) ∙ ap (λ m. replicate {A = ℕ} m 0) one_more)

-- The digits without leading zeros, and the zeros in front of them.
pub padded :
    (k fuel n : ℕ)
    → n ≤ fuel
    → Fits k n
    → (length (write_digits fuel n []) ≤ k)
      × (replicate (k - length (write_digits fuel n [])) 0 ++ write_digits fuel n [] ≡ digits k n)
unfolding Fits digits write_digits
padded zero fuel n h f = rw (f, write_digits-zero fuel) (omega arith, refl)
padded (suc k) fuel zero h f =
    let all : suc k - 0 ≡ suc k = omega arith in
    rw (write_digits-zero fuel, digits-zero (suc k), append-nil)
      (omega arith, ap (λ m. replicate {A = ℕ} m 0) all)
padded (suc k) zero (suc n) h f = absurd (omega arith)
padded (suc k) (suc fuel) (suc n) h f =
    let m = suc n / 256 in
    let last = suc n % 256 ∷ [] in
    let (short, same) = padded k fuel m (omega arith) f in
    let front = write_digits fuel m [] in
    let not_zero : (suc n == 0) ≡ false = ground arith in
    let step : write_digits (suc fuel) (suc n) [] ≡ front ++ last =
      rw not_zero (write_digits-append fuel m last) in
    let longer : length (front ++ last) ≡ suc (length front) =
      omega (arith, length-append front last) in
    let gap : suc k - suc (length front) ≡ k - length front = omega arith in
    rw (step, longer, gap)
      (
        omega (arith, short),
        sym (append_assoc (replicate (k - length front) 0) front last) ∙ ap (λ x. x ++ last) same,
      )

pub left_pad_lem :
    (s : Bytes) (size : ℕ) → length s ≤ size → left_pad s size ≡ replicate (size - length s) 0 ++ s
unfolding left_pad
left_pad_lem s size h =
    let n = length s in
    let z = size - n in
    let zeros : Bytes = replicate z 0 in
    let room : Bytes = replicate n 0 in
    let smaller : min n size ≡ n = omega arith in
    let sum : size ≡ z + n = omega arith in
    let whole : replicate size 0 ≡ zeros ++ (room ++ []) =
      rw append-nil (ap (λ m. replicate {A = ℕ} m 0) sum ∙ replicate-add {A = ℕ} z n 0) in
    rw (smaller, take-eq_self n s (omega arith), whole)
      (copy_at_lem zeros room [] s z (length-replicate {A = ℕ} z 0) (length-replicate {A = ℕ} n 0)
        ∙ rw append-nil)

-- Bytes read as a big-endian number, written without leading zeros and padded to their length, are
-- the same bytes.
pub left_pad-set_bytes : (s : Bytes) → IsBytes s → left_pad (big_bytes (set_bytes s)) (length s) ≡ s
unfolding big_bytes set_bytes Fits digits
left_pad-set_bytes s h =
    let n = read_digits 0 s in
    let all : length s + 0 ≡ length s = omega arith in
    let fits : Fits (length s) n = rw all at (Fits-read 0 0 s h refl) in
    let (short, same) = padded (length s) n n (omega arith) fits in
    left_pad_lem (write_digits n n []) (length s) short ∙ same ∙ rw all at (digits-read 0 0 s h)
