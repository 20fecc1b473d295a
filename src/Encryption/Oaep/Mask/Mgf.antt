-- ===== src/Encryption/Oaep/Mask/Mgf.antt =====
-- mgf1XOR against the function MGF1 of PKCS#1: the mask is the digests of the seed followed by
-- 0, 1, 2, … as four bytes.
use go_encrypted_config_valu.Base.{
  ℕ, zero, suc, ◌+◌, ◌%◌, ◌^◌, ◌/◌, ◌≤◌, ◌<◌, [], ◌∷◌, ◌++◌, Bytes, IsBytes, IsByte, length,
  bit_xor, ◌≡◌, refl, ap, ap₂, arith, ◌∙◌, sym, subst, All-append, ◌-◌,
}
use go_encrypted_config_valu.Base.Xor.{bit_xor_cancel, bit_xor-lt}
use go_encrypted_config_valu.Base.Outcome.{ok, ok-injective}
use go_encrypted_config_valu.Encryption.Oaep.Mask.{
  Hash, Counter, inc_counter, counter_bytes, xor_digest, mgf1_loop, mgf1_xor,
}
use go_encrypted_config_valu.Encryption.Oaep.Mask.Count.{count, inc_counter_lem}

-- What the program relies on of a hash.
pub record IsHash (h : Hash) : Type 0 where
  pub length_sum : (s : Bytes) → length (h.sum s) ≡ h.size
  pub positive : 0 < h.size
  pub sum-IsBytes : (s : Bytes) → IsBytes (h.sum s)

-- I2OSP of PKCS#1 with four bytes.
abbrev pub four_bytes : ℕ → Bytes
four_bytes i = (i / 2 ^ 24 % 256) ∷ (i / 2 ^ 16 % 256) ∷ (i / 2 ^ 8 % 256) ∷ (i % 256) ∷ []

-- The digests for the counters from `i` on.
pub mask_from : Hash → Bytes → ℕ → ℕ → Bytes
mask_from h seed i zero = []
mask_from h seed i (suc rounds) = h.sum (seed ++ four_bytes i) ++ mask_from h seed (i + 1) rounds

-- The mask that is long enough for `n` bytes.
abbrev pub mask : Hash → Bytes → ℕ → Bytes
mask h seed n = mask_from h seed 0 n

abbrev pub xor_bytes : Bytes → Bytes → Bytes
xor_bytes [] m = []
xor_bytes (o ∷ out) [] = o ∷ out
xor_bytes (o ∷ out) (d ∷ m) = bit_xor o d ∷ xor_bytes out m

pub length-xor_bytes : (out m : Bytes) → length (xor_bytes out m) ≡ length out
length-xor_bytes [] m = refl
length-xor_bytes (o ∷ out) [] = refl
length-xor_bytes (o ∷ out) (d ∷ m) = ap suc (length-xor_bytes out m)

xor_bytes_cancel : (out m : Bytes) → xor_bytes (xor_bytes out m) m ≡ out
xor_bytes_cancel [] m = refl
xor_bytes_cancel (o ∷ out) [] = refl
xor_bytes_cancel (o ∷ out) (d ∷ m) = ap₂ ◌∷◌ (bit_xor_cancel o d) (xor_bytes_cancel out m)

pub xor_bytes-IsBytes : (out m : Bytes) → IsBytes out → IsBytes m → IsBytes (xor_bytes out m)
xor_bytes-IsBytes [] m h k = tt
xor_bytes-IsBytes (o ∷ out) [] h k = h
xor_bytes-IsBytes (o ∷ out) (d ∷ m) (p, h) (q, k) =
    (bit_xor-lt 8 o d p q, xor_bytes-IsBytes out m h k)

-- A round of the loop is a piece of the exclusive or.
xor_digest_lem :
    (out digest m : Bytes)
    → xor_bytes out (digest ++ m)
      ≡ (xor_digest out digest).0 ++ xor_bytes (xor_digest out digest).1 m
unfolding xor_digest
xor_digest_lem [] digest [] = refl
xor_digest_lem [] digest (d ∷ m) = refl
xor_digest_lem (o ∷ out) [] m = refl
xor_digest_lem (o ∷ out) (d ∷ digest) m = ap (λ x. bit_xor o d ∷ x) (xor_digest_lem out digest m)

length-xor_digest :
    (out digest : Bytes) → length (xor_digest out digest).1 ≡ length out - length digest
unfolding xor_digest
length-xor_digest [] digest = omega arith
length-xor_digest (o ∷ out) [] = omega arith
length-xor_digest (o ∷ out) (d ∷ digest) = omega (arith, length-xor_digest out digest)

four_bytes_of_count :
    (c : Counter) (i : ℕ)
    → IsBytes (counter_bytes c)
    → count c ≡ i % 2 ^ 32
    → counter_bytes c ≡ four_bytes i
four_bytes_of_count c i h e = ground arith

module _ (h : Hash) (good : IsHash h) (seed : Bytes) where
  loop_lem :
      (fuel i : ℕ) (c : Counter) (out : Bytes)
      → IsBytes (counter_bytes c)
      → count c ≡ i % 2 ^ 32
      → length out ≤ fuel
      → mgf1_loop fuel h seed c out ≡ ok (xor_bytes out (mask_from h seed i fuel))
  unfolding mgf1_loop mask_from
  loop_lem zero i c [] hc e fits = refl
  loop_lem (suc fuel) i c [] hc e fits = refl
  loop_lem zero i c (o ∷ out) hc e fits = absurd (omega arith)
  loop_lem (suc fuel) i c (o ∷ out) hc e fits =
      let digest = h.sum (seed ++ counter_bytes c) in
      let left = (xor_digest (o ∷ out) digest).1 in
      let (next, next_bytes) = inc_counter_lem c hc in
      let rest = loop_lem fuel (i + 1) (inc_counter c) left next_bytes (omega arith) (
        omega (
          arith,
          length-xor_digest (o ∷ out) digest,
          good.length_sum (seed ++ counter_bytes c),
          good.positive,
        )) in
      rw (rest, ← four_bytes_of_count c i hc e)
        (ap ok (sym (xor_digest_lem (o ∷ out) digest (mask_from h seed (i + 1) fuel))))

  -- For a hash that meets its laws, mgf1XOR ends within its fuel, and what it leaves is the
  -- exclusive or of the bytes with the mask of MGF1 for the seed.
  pub mgf1_xor_lem :
      (out : Bytes) → mgf1_xor out h seed ≡ ok (xor_bytes out (mask h seed (length out)))
  unfolding mgf1_xor
  mgf1_xor_lem out =
      loop_lem (length out) 0 (record { c0 = 0; c1 = 0; c2 = 0; c3 = 0 }) out (omega arith) refl
        (omega arith)

  mask-IsBytes : (i n : ℕ) → IsBytes (mask_from h seed i n)
  unfolding mask_from
  mask-IsBytes i zero = tt
  mask-IsBytes i (suc n) =
      All-append IsByte (h.sum (seed ++ four_bytes i)) _ (good.sum-IsBytes (seed ++ four_bytes i))
        (mask-IsBytes (i + 1) n)

-- Bytes are masked by bytes.
pub mgf1_xor-IsBytes :
    (h : Hash) (seed out : Bytes) {masked : Bytes}
    → IsHash h
    → IsBytes out
    → mgf1_xor out h seed ≡ ok masked
    → IsBytes masked
mgf1_xor-IsBytes h seed out good bytes e =
    subst IsBytes (ok-injective (sym (mgf1_xor_lem h good seed out) ∙ e)) (
      xor_bytes-IsBytes out (mask h seed (length out)) bytes
        (mask-IsBytes h good seed 0 (length out)))

-- For a hash that meets its laws, mgf1XOR returns bytes of the same length, and applied to these
-- with the same seed it gives the first bytes back.
pub mgf1_xor_twice :
    (h : Hash) (seed out : Bytes)
    → IsHash h
    → (masked : Bytes) × (mgf1_xor out h seed ≡ ok masked)
      × (length masked ≡ length out)
      × (mgf1_xor masked h seed ≡ ok out)
mgf1_xor_twice h seed out good =
    let m = mask h seed (length out) in
    let same = length-xor_bytes out m in
    (
      xor_bytes out m,
      mgf1_xor_lem h good seed out,
      same,
      mgf1_xor_lem h good seed (xor_bytes out m)
          ∙ ap ok
              (ap (λ n. xor_bytes (xor_bytes out m) (mask h seed n)) same ∙ xor_bytes_cancel out m),
    )
