-- ===== src/Encryption/Exec.antt =====
-- A call that may use the random generator: it takes the generator's state and leaves the next.
-- random.go.
pub mod Keeps
use go_encrypted_config_valu.Base.{ℕ, Bytes, ◌≡◌, refl}
use go_encrypted_config_valu.Base.Outcome.{Outcome, ok, err, panic, starved, random_failed, some_or}
use go_encrypted_config_valu.External.{Rand}

abbrev pub Exec : Type 0 → Type 0 → Type 0
Exec S A = S → Outcome A × S

-- What stands behind a call is run if the call returned a value. The state stays as it is then.
abbrev pub continue : {S A B : Type 0} → (A → Exec S B) → Outcome A → Exec S B
continue f (ok a) s = f a s
continue f (err e) s = (err e, s)
continue f panic s = (panic, s)
continue f starved s = (starved, s)

infixl 5 ◌>>=◌ ◌>>◌
abbrev pub ◌>>=◌ : {S A B : Type 0} → Exec S A → (A → Exec S B) → Exec S B
◌>>=◌ m f s = continue f (m s).0 (m s).1

abbrev pub ◌>>◌ : {S B : Type 0} → Exec S (Unit {0}) → Exec S B → Exec S B
m >> k = m >>= λ _. k

abbrev pub pure : {S A : Type 0} → A → Exec S A
pure a s = (ok a, s)

-- A call that uses no randomness.
abbrev pub lift : {S A : Type 0} → Outcome A → Exec S A
lift r s = (r, s)

-- RandomBytes.
unfoldable pub random_bytes : {S : Type 0} → Rand S → ℕ → Exec S Bytes
random_bytes rand n s = (some_or random_failed (rand.read n s).0, (rand.read n s).1)

-- Inversion of a successful chain.
pub >>=-eq-ok :
    {S A B : Type 0} (m : Exec S A) (f : A → Exec S B) (s : S) {b : B}
    → ((m >>= f) s).0 ≡ ok b
    → (a : A) × ((m s).0 ≡ ok a) × ((f a (m s).1).0 ≡ ok b)
>>=-eq-ok {A} {B} m f s {b} h = go (m s).0 refl
  where
    go : (r : Outcome A) → (m s).0 ≡ r → (a : A) × ((m s).0 ≡ ok a) × ((f a (m s).1).0 ≡ ok b)
    go (ok a) e = (a, e, rw e at h)
    go (err x) e = cc (rw e at h)
    go panic e = cc (rw e at h)
    go starved e = cc (rw e at h)

-- The step behind a call whose outcome is known.
pub >>=-of-ok :
    {S A B : Type 0} (m : Exec S A) (f : A → Exec S B) (s : S) (a : A)
    → (m s).0 ≡ ok a
    → (m >>= f) s ≡ f a (m s).1
>>=-of-ok m f s a h = rw h

continue_assoc :
    {S A B C : Type 0} (f : A → Exec S B) (g : B → Exec S C) (r : Outcome A) (s : S)
    → continue g (continue f r s).0 (continue f r s).1 ≡ continue (λ a. f a >>= g) r s
continue_assoc f g (ok a) s = refl
continue_assoc f g (err e) s = refl
continue_assoc f g panic s = refl
continue_assoc f g starved s = refl

pub >>=_assoc :
    {S A B C : Type 0} (m : Exec S A) (f : A → Exec S B) (g : B → Exec S C) (s : S)
    → ((m >>= f) >>= g) s ≡ (m >>= λ a. f a >>= g) s
>>=_assoc m f g s = continue_assoc f g (m s).0 (m s).1
