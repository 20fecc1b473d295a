-- ===== src/Encryption/Oaep/Rsa/Draws.antt =====
-- The search for a blinding number ends once a number is drawn that has an inverse.
use go_encrypted_config_valu.Base.{
  ℕ, suc, ◌*◌, ◌/◌, ◌%◌, ◌<◌, ◌==◌, if◌then◌else◌, Option, ◌∙◌, none, some, ◌≡◌, ◌≢◌, refl, sym, ap,
  subst, arith, Option-cases, Bool-cases, false, inl, inr,
}
use Prim.Native.Nat.{◌∣◌}
use go_encrypted_config_valu.Base.Int.{ℤ}
use go_encrypted_config_valu.Base.Outcome.{ok}
use go_encrypted_config_valu.Base.Prime.{IsPrime, dvd_of_prime-mul}
use go_encrypted_config_valu.External.{Rand, RsaPrivateKey, Precomputed}
use go_encrypted_config_valu.Encryption.Exec.{Exec, pure, >>=-of-ok}
use go_encrypted_config_valu.Encryption.Oaep.Rsa.{
  mod_inverse, find_blind, draw, encrypt, decrypt_number,
}
use go_encrypted_config_valu.Encryption.Oaep.Rsa.Inverse.{mod_inverse_lem}
use go_encrypted_config_valu.Encryption.Oaep.Rsa.ValidKey.{
  IsValidKey, IsPrecomputed, decrypt_number-encrypt_valid_key,
}
use native.Mathlib.Nat.{
  zero-mod, mul-pos, dvd_trans, dvd-mul_right, dvd_of_mod-eq-zero, mod-eq-zero_of_dvd,
  mul-dvd-mul_left, dvd_of_mul-dvd-mul_left, div-add-mod,
}

-- Nothing above one divides the product of two primes and a number that neither of them divides.
no_common_divisor :
    (p q r d : ℕ) → IsPrime p → IsPrime q → r % p ≢ 0 → r % q ≢ 0 → 1 < d → d ∣ r → d ∣ p * q → ⊥
no_common_divisor p q r d prime_p prime_q unit_p unit_q more of_r of_n =
    let k = p * q / d in
    let whole : d * k ≡ p * q = omega (arith, div-add-mod (p * q) d, mod-eq-zero_of_dvd d of_n) in
    let other : d % p ≢ 0 =
      λ e. unit_p (mod-eq-zero_of_dvd p (dvd_trans p (dvd_of_mod-eq-zero p e) of_r)) in
    let of_k : p ∣ k =
      dvd_of_prime-mul p d k prime_p (subst (λ x. p ∣ x) (sym whole) (dvd-mul_right p q)) other in
    let swap : d * p ≡ p * d = grind arith in
    let both : p * d ∣ p * q =
      subst (λ x. x ∣ p * q) swap (subst (λ x. d * p ∣ x) whole (mul-dvd-mul_left p d of_k)) in
    let positive : 0 < p = let large = prime_p.one_lt in omega arith in
    elim (prime_q.of_dvd d (dvd_of_mul-dvd-mul_left d positive both)) [
      | inl one ↦ omega (arith, one, more)
      | inr same ↦ unit_q (mod-eq-zero_of_dvd q (subst (λ x. x ∣ r) same of_r))
    ]

module _ {S : Type 0} (rand : Rand S) where
  -- The random source gives numbers from `s` on, and one of the first `rounds` of them is a multiple of
  -- neither `p` nor `q`.
  pub data DrawsUnit (p q : ℕ) : ℕ → S → Type 0 where
    here :
        (rounds r : ℕ) (s s' : S)
        → rand.int (p * q) s ≡ (some r, s')
        → r % p ≢ 0
        → r % q ≢ 0
        → DrawsUnit p q (suc rounds) s
    later :
        (rounds r : ℕ) (s s' : S)
        → rand.int (p * q) s ≡ (some r, s')
        → DrawsUnit p q rounds s'
        → DrawsUnit p q (suc rounds) s

  -- One round, after the draw.
  round : ℕ → ℕ → ℕ → Option ℤ → Exec S (ℕ × ℤ)
  round left n r none = find_blind rand left n
  round left n r (some ir) = pure (r, ir)

  draw_lem : (n r : ℕ) (s s' : S) → rand.int n s ≡ (some r, s') → draw rand n s ≡ (ok r, s')
  unfolding draw
  draw_lem n r s s' drawn = rw drawn refl

  round_lem :
      (left n r : ℕ) (s s' : S) (inverse : Option ℤ)
      → rand.int n s ≡ (some r, s')
      → mod_inverse (if r == 0 then 1 else r) n ≡ inverse
      → find_blind rand (suc left) n s ≡ round left n (if r == 0 then 1 else r) inverse s'
  unfolding find_blind round
  round_lem left n r s s' inverse drawn e =
      let run = draw_lem n r s s' drawn in
      let go : ℕ → Exec S (ℕ × ℤ) = λ found.
        round left n (if found == 0 then 1 else found)
          (mod_inverse (if found == 0 then 1 else found) n) in
      >>=-of-ok (draw rand n) go s r (ap (λ x. x.0) run)
      ∙ ap (λ x. go r x.1) run
      ∙ ap (λ i. round left n (if r == 0 then 1 else r) i s') e

  pub find_blind_returns :
      (p q rounds : ℕ) (s : S)
      → IsPrime p
      → IsPrime q
      → DrawsUnit p q rounds s
      → (blind : ℕ × ℤ) × (s' : S) × (find_blind rand rounds (p * q) s ≡ (ok blind, s'))
  unfolding round
  find_blind_returns p q rounds s prime_p prime_q (here left r s0 s' drawn unit_p unit_q) =
      let large_p = prime_p.one_lt in
      let large_q = prime_q.one_lt in
      let not_zero : (r == 0) ≡ false = not_none p r unit_p in
      elim (mod_inverse_lem r (p * q) (mul-pos (omega arith) (omega arith))) [
        | inl (missing, d, more, of_r, of_n) ↦
            absurd (no_common_divisor p q r d prime_p prime_q unit_p unit_q more of_r of_n)
        | inr (ir, found, inverts) ↦
            (let same : (if r == 0 then 1 else r) ≡ r = rw not_zero in
              (
                (r, ir),
                s',
                round_lem left (p * q) r s s' (some ir) drawn (rw same found) ∙ rw same,
              ))
      ]
    where
      not_none : (p r : ℕ) → r % p ≢ 0 → (r == 0) ≡ false
      not_none p r unit = elim (Bool-cases (r == 0)) [
        | inr other ↦ other
        | inl none_left ↦
            let is_zero : r ≡ 0 = ground arith in absurd (unit (rw is_zero (zero-mod p)))
      ]
  find_blind_returns p q rounds s prime_p prime_q (later left r s0 s' drawn rest) =
      let r' = if r == 0 then 1 else r in
      elim (Option-cases (mod_inverse r' (p * q))) [
        | inr (ir, found) ↦ ((r', ir), s', round_lem left (p * q) r s s' (some ir) drawn found)
        | inl missing ↦
            let (blind, s'', run) = find_blind_returns p q left s' prime_p prime_q rest in
            (blind, s'', round_lem left (p * q) r s s' none drawn missing ∙ run)
      ]

  -- For a key of two odd primes as crypto/rsa documents it, with its precomputed values or without, a
  -- number below the modulus, and a random source that draws, within the rounds, a number that is a
  -- multiple of neither prime: the private operation returns, and gives the number back from its
  -- ciphertext.
  pub decrypt_number_returns :
      (rounds : ℕ) (priv : RsaPrivateKey) (p q m : ℕ) (s : S)
      → IsValidKey priv p q
      → ((pre : Precomputed) → priv.precomputed ≡ some pre → IsPrecomputed pre priv.d p q)
      → m < p * q
      → DrawsUnit p q rounds s
      → (s' : S) × (decrypt_number rand rounds priv (p * q) (encrypt (p * q) priv.public.e m) s
          ≡ (ok m, s'))
  decrypt_number_returns rounds priv p q m s key stored small draws =
      let (blind, s', found) = find_blind_returns p q rounds s key.prime_p key.prime_q draws in
      (
        s',
        decrypt_number-encrypt_valid_key rand rounds priv p q m s s' blind key stored small found,
      )
