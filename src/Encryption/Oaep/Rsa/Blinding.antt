-- ===== src/Encryption/Oaep/Rsa/Blinding.antt =====
-- The blinding of the private operation makes no difference to what it returns.
use go_encrypted_config_valu.Base.{
  ℕ, zero, suc, ◌*◌, ◌%◌, ◌^◌, ◌<◌, false, some, ltb, ◌==◌, ◌≡◌, refl, sym, ap, ◌∙◌, arith, inl,
  inr, Option-cases, if◌then◌else◌,
}
use go_encrypted_config_valu.Base.Int.{ℤ, pos, ◌*ℤ◌, ◌%ℤ◌}
use go_encrypted_config_valu.Base.Mod.{
  Congruent, mul-Congruent, pow-Congruent, mul-pow, mul-remainder, remainder-lt,
}
use go_encrypted_config_valu.Base.Outcome.{ok}
use go_encrypted_config_valu.External.{Rand, RsaPrivateKey}
use go_encrypted_config_valu.Encryption.Exec.Keeps.{Keeps, pure-Keeps, >>=-Keeps}
use go_encrypted_config_valu.Encryption.Oaep.Rsa.{
  mod_inverse, encrypt, raw_decrypt, draw, find_blind, decrypt_number,
}
use go_encrypted_config_valu.Encryption.Oaep.Rsa.Inverse.{mod_inverse-Congruent}
use native.Mathlib.Nat.{mod-mod, mod-eq_of_lt, mod-lt}

-- What the program relies on of a private key for the modulus `n`: the private operation is a power
-- with the private exponent, and it undoes the power with the public exponent.
pub record IsRsaKey (priv : RsaPrivateKey) (n : ℕ) : Type 0 where
  pub positive : 0 < n
  pub raw-power : (c : ℕ) → c < n → raw_decrypt priv n c ≡ ok (c ^ priv.d % n)
  pub power-power : (m : ℕ) → m < n → (m ^ priv.public.e % n) ^ priv.d % n ≡ m

-- The powers undo each other on every number, up to the modulus.
power_lem :
    (priv : RsaPrivateKey) (n m : ℕ)
    → IsRsaKey priv n
    → (m ^ priv.public.e % n) ^ priv.d % n ≡ m % n
power_lem priv n m key =
    let e = priv.public.e in
    let small = mod-lt m key.positive in
    ap (λ x. x ^ priv.d % n) (sym (pow-Congruent n (m % n) m e (mod-mod m n)))
    ∙ key.power-power (m % n) small

-- A blinded ciphertext is the ciphertext of the product.
blinded_lem : (n m r e : ℕ) → m ^ e % n * (r ^ e % n) % n ≡ (m * r) ^ e % n
blinded_lem n m r e =
    mul-Congruent n (m ^ e % n) (m ^ e) (r ^ e % n) (r ^ e) (mod-mod (m ^ e) n) (mod-mod (r ^ e) n)
    ∙ ap (λ x. x % n) (sym (mul-pow m r e))

unblind :
    (n m r : ℕ) (ir : ℤ) → m < n → Congruent n (r * (ir %ℤ n)) 1 → (pos (m * r % n) *ℤ ir) %ℤ n ≡ m
unblind n m r ir h inverse =
    let i = ir %ℤ n in
    let product = pos (m * r % n) *ℤ ir in
    let regroup : m * r * i ≡ m * (r * i) = grind arith in
    let single : m * 1 ≡ m = omega arith in
    let residue : Congruent n (product %ℤ n) m =
      mul-remainder n (m * r % n) ir (omega arith)
      ∙ mul-Congruent n (m * r % n) (m * r) i i (mod-mod (m * r) n) refl
      ∙ ap (λ x. x % n) regroup
      ∙ mul-Congruent n m m (r * i) 1 refl inverse
      ∙ ap (λ x. x % n) single in
    sym (mod-eq_of_lt (remainder-lt n product (omega arith))) ∙ residue ∙ mod-eq_of_lt h

module _ {S : Type 0} (rand : Rand S) where
  abbrev Anything : S → Type 0
  Anything s = Unit

  -- The search returns a number with its inverse.
  find_blind-Keeps :
      (rounds n : ℕ) → Keeps Anything (find_blind rand rounds n) (λ x. mod_inverse x.0 n ≡ some x.1)
  unfolding find_blind
  find_blind-Keeps zero n = λ s i a e. absurd (cc)
  find_blind-Keeps (suc rounds) n =
      >>=-Keeps Anything (draw rand n) _ (λ drawn. Unit) (λ x. mod_inverse x.0 n ≡ some x.1)
        (λ s i a e. (tt, tt))
        λ drawn any.
          let r = if drawn == 0 then 1 else drawn in
          elim (Option-cases (mod_inverse r n)) [
            | inl missing ↦ rw missing (find_blind-Keeps rounds n)
            | inr (ir, there) ↦ rw there (pure-Keeps Anything (r, ir) _ there)
          ]

  -- For a valid key and a number below the modulus, if the search for a blinding number returns, the
  -- private operation with the blinding gives the number back from its ciphertext, whichever number
  -- was drawn.
  pub decrypt_number-encrypt :
      (rounds : ℕ) (priv : RsaPrivateKey) (n m : ℕ) (s s' : S) (blind : ℕ × ℤ)
      → IsRsaKey priv n
      → m < n
      → find_blind rand rounds n s ≡ (ok blind, s')
      → decrypt_number rand rounds priv n (encrypt n priv.public.e m) s ≡ (ok m, s')
  unfolding decrypt_number encrypt
  decrypt_number-encrypt rounds priv n m s s' blind key small found =
      let e = priv.public.e in
      let (r, ir) = blind in
      let c = m ^ e % n in
      let below : c < n = mod-lt (m ^ e) key.positive in
      let fits : ltb n c ≡ false = ground arith in
      let not_zero : (n == 0) ≡ false = let positive = key.positive in ground arith in
      let (inverse, _) = find_blind-Keeps rounds n s tt blind (ap (λ x. x.0) found) in
      rw (
        fits,
        not_zero,
        found,
        blinded_lem n m r e,
        key.raw-power ((m * r) ^ e % n) (mod-lt ((m * r) ^ e) key.positive),
        power_lem priv n (m * r) key,
        unblind n m r ir small (mod_inverse-Congruent r n ir key.positive inverse),
      )
