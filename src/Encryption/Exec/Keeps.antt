-- ===== src/Encryption/Exec/Keeps.antt =====
-- Reasoning on calls: what a call keeps and returns when it returns, and calls that end.
use go_encrypted_config_valu.Base.{◌≡◌, ◌≢◌, refl, sym, subst, ap}
use go_encrypted_config_valu.Base.Outcome.{Outcome, ok, err, panic, starved, ok-injective}
use go_encrypted_config_valu.Encryption.Exec.{Exec, ◌>>=◌, pure, >>=-eq-ok, >>=-of-ok}

module _ {S : Type 0} (I : S → Type 0) where
  -- If the state meets `I` and the call returns, the result meets `X` and the state meets `I` again.
  abbrev pub Keeps : {A : Type 0} → Exec S A → (A → Type 0) → Type 0
  Keeps {A} m X = (s : S) → I s → (a : A) → (m s).0 ≡ ok a → X a × I (m s).1

  -- The call does not run out of fuel.
  abbrev pub Ends : {A : Type 0} → Exec S A → Type 0
  Ends m = (s : S) → I s → (m s).0 ≢ starved

  pub pure-Keeps : {A : Type 0} (a : A) (X : A → Type 0) → X a → Keeps (pure a) X
  pure-Keeps a X x s i b e = (subst X (ok-injective e) x, i)

  pub >>=-Keeps :
      {A B : Type 0} (m : Exec S A) (f : A → Exec S B) (X : A → Type 0) (Y : B → Type 0)
      → Keeps m X
      → ((a : A) → X a → Keeps (f a) Y)
      → Keeps (m >>= f) Y
  >>=-Keeps m f X Y km kf s i b e =
      let (a, run, next) = >>=-eq-ok m f s e in
      let (x, j) = km s i a run in
      let (y, k) = kf a x (m s).1 j b next in
      (y, subst I (sym (ap (λ r. r.1) (>>=-of-ok m f s a run))) k)

  pub >>=-Ends :
      {A B : Type 0} (m : Exec S A) (f : A → Exec S B) (X : A → Type 0)
      → Ends m
      → Keeps m X
      → ((a : A) → X a → Ends (f a))
      → Ends (m >>= f)
  >>=-Ends {A} {B} m f X em km ef s i = go (m s).0 refl
    where
      go : (r : Outcome A) → (m s).0 ≡ r → ((m >>= f) s).0 ≢ starved
      go (ok a) e = let (x, j) = km s i a e in rw e (ef a x (m s).1 j)
      go (err x) e = rw e (λ h. cc)
      go panic e = rw e (λ h. cc)
      go starved e = absurd (em s i e)

  -- A call whose result is used in a value.
  pub use-Keeps :
      {A B : Type 0} (m : Exec S A) (g : A → B) (X : A → Type 0) (Y : B → Type 0)
      → Keeps m X
      → ((a : A) → X a → Y (g a))
      → Keeps (m >>= λ a. pure (g a)) Y
  use-Keeps m g X Y km h = >>=-Keeps m _ X Y km (λ a x. pure-Keeps (g a) Y (h a x))

  pub pure-Ends : {A : Type 0} (a : A) → Ends (pure a)
  pure-Ends a s i e = cc

  pub use-Ends : {A B : Type 0} (m : Exec S A) (g : A → B) → Ends m → Ends (m >>= λ a. pure (g a))
  use-Ends {A} m g em s i = go (m s).0 refl
    where
      go : (r : Outcome A) → (m s).0 ≡ r → ((m >>= λ a. pure (g a)) s).0 ≢ starved
      go (ok a) e = rw e (λ h. cc)
      go (err x) e = rw e (λ h. cc)
      go panic e = rw e (λ h. cc)
      go starved e = absurd (em s i e)
