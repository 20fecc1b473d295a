-- ===== src/Base/Pairwise.antt =====
-- Lists of the same length whose elements are related one by one.
use mathlib.Core.Path.{◌≡◌, refl, subst}
use mathlib.Core.Option.{some}
use mathlib.Core.List.{List, [], ◌∷◌, ◌++◌}
use Prim.Native.Nat.{ℕ, zero, suc}
use go_encrypted_config_valu.Base.Lists.{get_elem?}

module _ {A B : Type 0} (R : A → B → Type 0) where
  unfoldable pub Pairwise : List A → List B → Type 0
  Pairwise [] [] = Unit
  Pairwise (x ∷ xs) (y ∷ ys) = R x y × Pairwise xs ys
  Pairwise [] (y ∷ ys) = ⊥
  Pairwise (x ∷ xs) [] = ⊥

  pub Pairwise-append :
      (xs xs' : List A) (ys ys' : List B)
      → Pairwise xs ys
      → Pairwise xs' ys'
      → Pairwise (xs ++ xs') (ys ++ ys')
  unfolding Pairwise
  Pairwise-append [] xs' [] ys' h k = k
  Pairwise-append (x ∷ xs) xs' (y ∷ ys) ys' (r, h) k = (r, Pairwise-append xs xs' ys ys' h k)
  Pairwise-append [] xs' (y ∷ ys) ys' h k = absurd h
  Pairwise-append (x ∷ xs) xs' [] ys' h k = absurd h

  -- What stands behind an element of the second list.
  pub Pairwise-get_elem? :
      (xs : List A) (ys : List B) (i : ℕ) (y : B)
      → Pairwise xs ys
      → get_elem? ys i ≡ some y
      → (x : A) × (get_elem? xs i ≡ some x) × R x y
  unfolding Pairwise
  Pairwise-get_elem? [] [] i y h e = absurd (cc)
  Pairwise-get_elem? (x ∷ xs) (y' ∷ ys) zero y (r, h) e =
      let same : y' ≡ y = cc in (x, refl, subst (R x) same r)
  Pairwise-get_elem? (x ∷ xs) (y' ∷ ys) (suc i) y (r, h) e = Pairwise-get_elem? xs ys i y h e
  Pairwise-get_elem? [] (y' ∷ ys) i y h e = absurd h
  Pairwise-get_elem? (x ∷ xs) [] i y h e = absurd h

module _ {A : Type 0} (R : A → A → Type 0) where
  pub Pairwise-refl : ((x : A) → R x x) → (xs : List A) → Pairwise R xs xs
  unfolding Pairwise
  Pairwise-refl r [] = tt
  Pairwise-refl r (x ∷ xs) = (r x, Pairwise-refl r xs)

  pub Pairwise-trans :
      ((x y z : A) → R x y → R y z → R x z)
      → (xs ys zs : List A) → Pairwise R xs ys
      → Pairwise R ys zs
      → Pairwise R xs zs
  unfolding Pairwise
  Pairwise-trans t [] [] [] h k = tt
  Pairwise-trans t (x ∷ xs) (y ∷ ys) (z ∷ zs) (r, h) (q, k) =
      (t x y z r q, Pairwise-trans t xs ys zs h k)
  Pairwise-trans t [] (y ∷ ys) zs h k = absurd h
  Pairwise-trans t (x ∷ xs) [] zs h k = absurd h
  Pairwise-trans t [] [] (z ∷ zs) h k = absurd k
  Pairwise-trans t (x ∷ xs) (y ∷ ys) [] h k = absurd k
