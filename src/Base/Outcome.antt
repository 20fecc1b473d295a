-- ===== src/Base/Outcome.antt =====
-- The outcomes of a Go call: a value, an error value, or a run-time panic. `starved` is a loop
-- that has not ended within its fuel.
use mathlib.Core.Bool.{Bool, true, false}
use mathlib.Core.Option.{Option, none, some}
use mathlib.Core.Path.{◌≡◌, refl}

-- One constructor for each place where the program makes or passes on an error.
pub data Error : Type 0 where
  random_failed key_type_mismatch aes_cipher_failed block_cipher_failed open_failed : Error
  invalid_public_key invalid_private_key : Error
  key_form base64_key legacy_rsa_key unknown_key_type unknown_algorithm_type : Error
  value_form base64_content json_syntax unsupported_mode unrecognized_algorithm : Error
  base64_field key_type_unsupported string_var_form : Error
  public_modulus exponent_small exponent_large decryption message_too_long : Error

pub data Outcome {ℓ} (A : Type ℓ) : Type ℓ where
  ok : A → Outcome A
  err : Error → Outcome A
  panic : Outcome A
  starved : Outcome A

-- `if err != nil { return err }` after each call.
infixl 5 ◌>>=◌ ◌>>◌
abbrev pub ◌>>=◌ {ℓ κ} : {A : Type ℓ} {B : Type κ} → Outcome A → (A → Outcome B) → Outcome B
panic >>= rest = panic
starved >>= rest = starved
err e >>= rest = err e
ok a >>= rest = rest a

-- `if !test { return e }`
abbrev pub guard : Bool → Error → Outcome (Unit {0})
guard false e = err e
guard true e = ok tt

abbrev pub ◌>>◌ {ℓ} : {B : Type ℓ} → Outcome (Unit {0}) → Outcome B → Outcome B
first >> rest = first >>= λ done. rest

-- A test whose failure is a run-time panic.
abbrev pub demand : Bool → Outcome (Unit {0})
demand true = ok tt
demand false = panic

-- An error of a callee, replaced by the caller's own.
abbrev pub some_or {ℓ} : {A : Type ℓ} → Error → Option A → Outcome A
some_or e none = err e
some_or e (some a) = ok a

-- An error of a callee that the program turns into a panic, and the use of a nil pointer.
abbrev pub deref {ℓ} : {A : Type ℓ} → Option A → Outcome A
deref none = panic
deref (some a) = ok a

pub deref-eq-ok {ℓ} : {A : Type ℓ} (o : Option A) {a : A} → deref o ≡ ok a → o ≡ some a
deref-eq-ok none h = cc
deref-eq-ok (some b) h = cc

-- A chain that returned had a first call that returned.
pub >>=-eq-ok {ℓ κ} :
    {A : Type ℓ} {B : Type κ} (call : Outcome A) (rest : A → Outcome B) {result : B}
    → (call >>= rest) ≡ ok result
    → (found : A) × (call ≡ ok found) × (rest found ≡ ok result)
>>=-eq-ok panic rest h = cc
>>=-eq-ok starved rest h = cc
>>=-eq-ok (err e) rest h = cc
>>=-eq-ok (ok found) rest h = (found, refl, h)

pub some_or-eq-ok {ℓ} :
    {A : Type ℓ} (e : Error) (o : Option A) {a : A} → some_or e o ≡ ok a → o ≡ some a
some_or-eq-ok e none h = cc
some_or-eq-ok e (some b) h = cc

pub ok-injective {ℓ} : {A : Type ℓ} {a b : A} → ok a ≡ ok b → a ≡ b
ok-injective h = cc
