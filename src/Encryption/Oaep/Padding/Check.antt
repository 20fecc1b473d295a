-- ===== src/Encryption/Oaep/Padding/Check.antt =====
-- The check of the data block in constant time, against a plain parse of it.
use mathlib.Core.Option
use go_encrypted_config_valu.Base.{
  ℕ, zero, suc, ◌+◌, ◌≤◌, ◌<◌, Bool, true, false, ◌&&◌, [], ◌∷◌, ◌++◌, Option, none, some, Bytes,
  length, take, drop, replicate, str_eq, slice_to, slice_from, slice_panics, if◌then◌else◌, ◌==◌,
  ◌≡◌, ◌⊎◌, inl, inr, refl, ap, arith, ◌∙◌, length-append, length-replicate, take_left_of_eq,
  drop_left_of_eq, append_assoc, Option-cases, str_eq_refl,
}
use go_encrypted_config_valu.Base.Outcome.{Outcome, ok, err, panic, decryption}
use go_encrypted_config_valu.Encryption.Oaep.Padding.{
  Scan, scan_byte, scan_from, check_padding, ◌&◌, ◌&^◌,
}

-- Where the first byte that is not zero stands, if it is a one.
pub mark : Bytes → Option ℕ
mark [] = none
mark (c ∷ s) = if c == 0 then Option.map (λ k. k + 1) (mark s) else if c == 1 then some 0 else none

scan_byte_done :
    (i c j v : ℕ)
    → scan_byte i c (record { looking_for_index = 0; index = j; invalid = v })
      ≡ record { looking_for_index = 0; index = j; invalid = v }
unfolding scan_byte
scan_byte_done i c j v = ground arith

scan_done :
    (i : ℕ) (s : Bytes) (j v : ℕ)
    → scan_from i s (record { looking_for_index = 0; index = j; invalid = v })
      ≡ record { looking_for_index = 0; index = j; invalid = v }
unfolding scan_from
scan_done i [] j v = refl
scan_done i (c ∷ s) j v = rw (scan_byte_done i c j v) (scan_done (i + 1) s j v)

scan_invalid :
    (i : ℕ) (s : Bytes) (x : Scan)
    → (x.looking_for_index ≡ 0) ⊎ (x.looking_for_index ≡ 1)
    → x.invalid ≡ 1
    → (scan_from i s x).invalid ≡ 1
unfolding scan_from scan_byte
scan_invalid i [] x l h = h
scan_invalid i (c ∷ s) x l h =
    scan_invalid (i + 1) s (scan_byte i c x) (ground arith) (ground arith)

-- The scan that has found the mark.
abbrev found_at : ℕ → Scan
found_at i = record { looking_for_index = 0; index = i; invalid = 0 }

scan-mark :
    (i j : ℕ) (s : Bytes) (k : ℕ)
    → mark s ≡ some k
    → scan_from i s (record { looking_for_index = 1; index = j; invalid = 0 })
      ≡ record { looking_for_index = 0; index = i + k; invalid = 0 }
unfolding scan_from scan_byte mark
scan-mark i j [] k h = absurd (cc)
scan-mark i j (zero ∷ s) k h = elim (Option-cases (mark s)) [
  | inl missing ↦ absurd (ground arith)
  | inr (found, e) ↦
      let same : i + 1 + found ≡ i + k = ground arith in
      scan-mark (i + 1) j s found e ∙ ap found_at same
]
scan-mark i j (suc zero ∷ s) k h =
    let same : i ≡ i + k = ground arith in scan_done (i + 1) s i 0 ∙ ap found_at same
scan-mark i j (suc (suc c) ∷ s) k h = absurd (ground arith)

-- Without a mark the scan ends still looking for one, or with a byte that is not allowed.
scan-no_mark :
    (i j : ℕ) (s : Bytes)
    → mark s ≡ none
    → let x = scan_from i s (record { looking_for_index = 1; index = j; invalid = 0 }) in
      (x.looking_for_index ≡ 1) ⊎ (x.invalid ≡ 1)
unfolding scan_from scan_byte mark
scan-no_mark i j [] h = inl refl
scan-no_mark i j (zero ∷ s) h = elim (Option-cases (mark s)) [
  | inl missing ↦ scan-no_mark (i + 1) j s missing
  | inr (found, e) ↦ absurd (ground arith)
]
scan-no_mark i j (suc zero ∷ s) h = absurd (cc)
scan-no_mark i j (suc (suc c) ∷ s) h = inr (
    scan_invalid (i + 1) s
      (scan_byte i (suc (suc c)) (record { looking_for_index = 1; index = j; invalid = 0 }))
      (ground arith) (ground arith))

mark-lt-length : (s : Bytes) (k : ℕ) → mark s ≡ some k → k < length s
unfolding mark
mark-lt-length [] k h = absurd (cc)
mark-lt-length (zero ∷ s) k h = elim (Option-cases (mark s)) [
  | inl missing ↦ absurd (ground arith)
  | inr (found, e) ↦ let less = mark-lt-length s found e in ground (arith, less)
]
mark-lt-length (suc c ∷ s) k h = ground arith

mark-replicate : (z : ℕ) (msg : Bytes) → mark (replicate z 0 ++ (1 ∷ msg)) ≡ some z
unfolding mark
mark-replicate zero msg = refl
mark-replicate (suc z) msg =
    let same : z + 1 ≡ suc z = omega arith in rw (mark-replicate z msg) (ap some same)

cleared : (y : ℕ) → y < 2 → y &^ 1 ≡ 0
cleared zero h = refl
cleared (suc zero) h = refl
cleared (suc (suc y)) h = absurd (omega arith)

-- The test fails on a scan that ended badly.
rejected :
    (y invalid looking : ℕ)
    → y < 2
    → (looking ≡ 1) ⊎ (invalid ≡ 1)
    → (y &^ invalid &^ looking == 1) ≡ false
rejected y invalid looking h (inl e) = rw (e, cleared (y &^ invalid) (omega arith))
rejected y invalid looking h (inr e) = rw (e, cleared y h) (ground arith)

both-lt : (a : ℕ) (b : Bool) → (a ≡ 0) ⊎ (a ≡ 1) → a & (if b then 1 else 0) < 2
both-lt a true (inl e) = rw e (omega arith)
both-lt a false (inl e) = rw e (omega arith)
both-lt a true (inr e) = rw e (omega arith)
both-lt a false (inr e) = rw e (omega arith)

both :
    (a : ℕ) (b : Bool)
    → (a ≡ 0) ⊎ (a ≡ 1)
    → (a & (if b then 1 else 0) &^ 0 &^ 0 == 1) ≡ (a == 1 && b)
both a true (inl e) = rw e
both a false (inl e) = rw e
both a true (inr e) = rw e
both a false (inr e) = rw e

same_branches : (b : Bool) (x : Outcome Bytes) → x ≡ (if b then x else x)
same_branches true x = refl
same_branches false x = refl

-- What is behind the mark.
unfoldable pub behind : Option ℕ → Bytes → Outcome Bytes
behind none rest = err decryption
behind (some k) rest = ok (drop (k + 1) rest)

-- A block that is shorter than a digest makes the check panic.
pub check_padding_panics :
    (size first : ℕ) (l_hash db : Bytes)
    → length db < size
    → check_padding size first l_hash db ≡ panic
unfolding check_padding
check_padding_panics size first l_hash db short = rw (slice_panics db 0 size (inr short))

-- The check in constant time accepts a block if the first byte of the message is zero, the block
-- begins with the digest, and zeros and a one follow. It returns what is behind the one, and is an
-- error on every other block that has the length of a digest.
pub check_padding_lem :
    (size first : ℕ) (l_hash db : Bytes)
    → (first ≡ 0) ⊎ (first ≡ 1)
    → size ≤ length db
    → check_padding size first l_hash db ≡ (
        if first == 1 && str_eq l_hash (take size db)
        then behind (mark (drop size db)) (drop size db)
        else err decryption)
unfolding check_padding behind
check_padding_lem size first l_hash db h long =
    let rest = drop size db in
    let good = str_eq l_hash (take size db) in
    let digest = slice_to db size long in
    let behind_digest = slice_from db size long in
    elim (Option-cases (mark rest)) [
      | inl missing ↦
          let wrong = scan-no_mark 0 0 rest missing in
          rw
            (
              digest,
              behind_digest,
              missing,
              rejected (first & (if good then 1 else 0)) _ _ (both-lt first good h) wrong,
            )
            (same_branches (first == 1 && good) (err decryption))
      | inr (k, e) ↦
          let from_start : 0 + k ≡ k = omega arith in
          rw (
            digest,
            behind_digest,
            scan-mark 0 0 rest k e,
            from_start,
            both first good h,
            slice_from rest (k + 1) (let less = mark-lt-length rest k e in omega (arith, less)),
            e,
          )
    ]

-- The check accepts the data block of a message and returns the message.
pub check_padding-block :
    (l_hash msg : Bytes) (size z : ℕ)
    → length l_hash ≡ size
    → check_padding size 1 l_hash (l_hash ++ (replicate z 0 ++ (1 ∷ msg))) ≡ ok msg
unfolding behind
check_padding-block l_hash msg size z h =
    let rest = replicate z 0 ++ (1 ∷ msg) in
    let is_msg : drop (z + 1) rest ≡ msg = rw (← append_assoc (replicate z 0) (1 ∷ []) msg) (
      drop_left_of_eq (z + 1) (replicate z 0 ++ (1 ∷ [])) msg (
        omega
          (arith, length-append {A = ℕ} (replicate z 0) (1 ∷ []), length-replicate {A = ℕ} z 0))) in
    check_padding_lem size 1 l_hash (l_hash ++ rest) (inr refl)
      (omega (arith, length-append l_hash rest, h))
    ∙ rw (
      take_left_of_eq size l_hash rest h,
      drop_left_of_eq size l_hash rest h,
      str_eq_refl l_hash,
      mark-replicate z msg,
      is_msg,
    )
