-- ===== src/Config/StringVar/Form.antt =====
-- What Contents accepts, and what it does on each input.
use go_encrypted_config_valu.Base.{
  ℕ, ◌+◌, ◌-◌, [], ◌∷◌, ◌++◌, ◌||◌, Bytes, codes, has_prefix, has_suffix, length, slice, from_end,
  ◌≡◌, arith, ◌∙◌, length-append, from_end_lem, slice_middle, ltb, drop, take, ap, inl, inr,
  if◌then◌else◌, Bool-cases, ◌<◌, ◌≤◌, slice_lem,
}
use go_encrypted_config_valu.Base.Outcome.{ok, err, panic, ◌>>=◌, string_var_form}
use go_encrypted_config_valu.Config.StringVar.{new_string_var, contents}

cut_short : (s : Bytes) → length s < 3 → (from_end s 1 >>= λ stop. slice s 2 stop) ≡ panic
unfolding from_end slice
cut_short s h = ground arith

-- Both ends are cut off.
cut :
    (s : Bytes)
    → (from_end s 1 >>= λ stop. slice s 2 stop)
      ≡ (if ltb (length s) 3 then panic else ok (take (length s - 3) (drop 2 s)))
cut s = elim (Bool-cases (ltb (length s) 3)) [
  | inl short ↦ rw short (cut_short s (ground arith))
  | inr long ↦
      let two : 3 ≤ length s = ground arith in
      let left : length s - 1 - 2 ≡ length s - 3 = omega arith in
      rw (
        long,
        from_end_lem s 1 (omega arith),
        slice_lem s 2 (length s - 1) (omega arith) (omega arith),
        left,
      )
]

-- Contents is an error on text with no right end. Text with one right end is treated as text with
-- both: it panics if fewer than three bytes are there, and two bytes in front and one behind are
-- cut off otherwise.
pub contents_lem :
    (s : Bytes)
    → contents s ≡ (
        if has_prefix s (codes "${") || has_suffix s (codes "}")
        then (if ltb (length s) 3 then panic else ok (take (length s - 3) (drop 2 s)))
        else err string_var_form)
unfolding contents
contents_lem s = elim (Bool-cases (has_prefix s (codes "${"))) [
  | inl p ↦ rw p (cut s)
  | inr p ↦ elim (Bool-cases (has_suffix s (codes "}"))) [
    | inl q ↦ rw (p, q) (cut s)
    | inr q ↦ rw (p, q)
  ]
]

middle :
    (a b c : ℕ) (s : Bytes)
    → (from_end (a ∷ b ∷ (s ++ (c ∷ []))) 1 ≡ ok (length s + 2))
      × (slice (a ∷ b ∷ (s ++ (c ∷ []))) 2 (length s + 2) ≡ ok s)
middle a b c s = (
  from_end_lem (a ∷ b ∷ (s ++ (c ∷ []))) 1 (omega arith)
      ∙ ap ok (omega (arith, length-append s (c ∷ []))),
  slice_middle (a ∷ b ∷ []) s (c ∷ []) 2 (length s + 2) (omega arith) (omega arith),
)

-- Contents gives back what NewStringVar has wrapped, for every text.
pub contents-new_string_var : (s : Bytes) → contents (new_string_var s) ≡ ok s
unfolding contents
contents-new_string_var s = rw ((middle b'$' b'{' b'}' s).0, (middle b'$' b'{' b'}' s).1)
