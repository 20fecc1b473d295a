-- ===== src/Encryption/AesGcm/Parts.antt =====
-- What Parts returns: where it cuts, and when it panics.
use go_encrypted_config_valu.Base.{
  Bool-cases, ltb, subst, inl, ◌+◌, ◌-◌, ◌++◌, Bytes, length, ◌≡◌, refl, arith, length-append,
  slice_start, slice_middle, slice_last, from_end_lem, sym, inr, take, drop, length-take,
  length-drop, take-append-drop, ap, ◌∙◌, ◌<◌, ◌≤◌, ◌⊎◌, slice, from_end,
}
use go_encrypted_config_valu.Base.Outcome.{ok, panic, ok-injective}
use go_encrypted_config_valu.Encryption.AesGcm.{AesGcmCipher, parts}

-- Parts cuts bytes of at least the two sizes into pieces of these sizes that make up the whole.
pub parts-append :
    (a : AesGcmCipher) (nonce ciphertext tag : Bytes)
    → length nonce ≡ a.nonce_size_bytes
    → length tag ≡ a.tag_size_bytes
    → parts a (nonce ++ (ciphertext ++ tag)) ≡ ok (nonce, ciphertext, tag)
unfolding parts
parts-append a nonce ciphertext tag hn ht =
    let whole = nonce ++ (ciphertext ++ tag) in
    let n = a.nonce_size_bytes in
    let t = n + length ciphertext in
    let size : length whole ≡ t + a.tag_size_bytes =
      omega (arith, length-append nonce (ciphertext ++ tag), length-append ciphertext tag) in
    let size_left : length whole - a.tag_size_bytes ≡ t = omega arith in
    rw
      (
        from_end_lem whole a.tag_size_bytes (omega arith),
        slice_start nonce (ciphertext ++ tag) n hn,
      )
      (rw (
        size_left,
        slice_middle nonce ciphertext tag n t hn refl,
        slice_last nonce ciphertext tag t (omega arith),
      ))

-- The pieces have the sizes of the cipher and make up the whole.
pub record IsCut (a : AesGcmCipher) (whole : Bytes) (pieces : Bytes × Bytes × Bytes) : Type 0 where
  pub length_nonce : length pieces.0 ≡ a.nonce_size_bytes
  pub length_tag : length pieces.2 ≡ a.tag_size_bytes
  pub is_whole : whole ≡ pieces.0 ++ (pieces.1 ++ pieces.2)

pub parts_total :
    (a : AesGcmCipher) (whole : Bytes)
    → a.nonce_size_bytes + a.tag_size_bytes ≤ length whole
    → (pieces : Bytes × Bytes × Bytes) × (parts a whole ≡ ok pieces) × IsCut a whole pieces
parts_total a whole h =
    let n = a.nonce_size_bytes in
    let rest = drop n whole in
    let m = length whole - n - a.tag_size_bytes in
    let nonce = take n whole in
    let ciphertext = take m rest in
    let tag = drop m rest in
    let is_whole : whole ≡ nonce ++ (ciphertext ++ tag) =
      rw (take-append-drop m rest) (sym (take-append-drop n whole)) in
    let hn : length nonce ≡ n = omega (arith, length-take n whole) in
    let ht : length tag ≡ a.tag_size_bytes =
      omega (arith, length-drop m rest, length-drop n whole) in
    (
      (nonce, ciphertext, tag),
      ap (parts a) is_whole ∙ parts-append a nonce ciphertext tag hn ht,
      record { length_nonce = hn; length_tag = ht; is_whole = is_whole },
    )

pub parts_panics :
    (a : AesGcmCipher) (whole : Bytes)
    → length whole < a.nonce_size_bytes + a.tag_size_bytes
    → parts a whole ≡ panic
unfolding parts slice from_end
parts_panics a whole h = ground arith

-- Either the bytes are fewer than the two sizes together, and Parts panics, or Parts returns pieces that
-- are a cut of them: a nonce and a tag of these sizes, which with the ciphertext make up the whole.
pub parts_lem :
    (a : AesGcmCipher) (whole : Bytes)
    → ((length whole < a.nonce_size_bytes + a.tag_size_bytes) × (parts a whole ≡ panic))
      ⊎ ((pieces : Bytes × Bytes × Bytes) × (parts a whole ≡ ok pieces) × IsCut a whole pieces)
parts_lem a whole = elim (Bool-cases (ltb (length whole) (a.nonce_size_bytes + a.tag_size_bytes))) [
  | inl short ↦ inl (ground arith, parts_panics a whole (ground arith))
  | inr fits ↦ inr (parts_total a whole (ground arith))
]

pub parts-IsCut :
    (a : AesGcmCipher) (whole : Bytes) (pieces : Bytes × Bytes × Bytes)
    → parts a whole ≡ ok pieces
    → IsCut a whole pieces
parts-IsCut a whole pieces h =
    elim (Bool-cases (ltb (length whole) (a.nonce_size_bytes + a.tag_size_bytes))) [
      | inl short ↦ cc (parts_panics a whole (ground arith), h)
      | inr fits ↦
          let (found, run, cut) = parts_total a whole (ground arith) in
          subst (IsCut a whole) (ok-injective (sym run ∙ h)) cut
    ]
