-- ===== src/Base/Slices.antt =====
-- Slice expressions on byte slices and strings, with their run-time checks. A slice keeps no spare
-- capacity here: each call of the program that takes `s[:n]` also takes `s[n:]`, which panics if
-- `n` is beyond the length.
use Prim.Native.Nat.{ℕ, ◌+◌, ◌-◌, ◌≤◌, ◌<◌}
use mathlib.Core.Path.{◌≡◌, subst, ap, ◌∙◌}
use mathlib.Core.Bool.{◌&&◌}
use mathlib.Core.List.{[], ◌++◌, append_assoc, append-nil}
use mathlib.Core.Logic.{◌⊎◌}
use native.Mathlib.Omega.{arith}
use go_encrypted_config_valu.Base.Tests.{leb}
use go_encrypted_config_valu.Base.Lists.{
  length, take, drop, length-append, take_left_of_eq, drop_left_of_eq, take-eq_self, length-drop,
}
use go_encrypted_config_valu.Base.Strings.{Bytes}
use go_encrypted_config_valu.Base.Outcome.{Outcome, ok, panic, ◌>>◌, demand}

-- `s[lo:hi]`
unfoldable pub slice : Bytes → ℕ → ℕ → Outcome Bytes
slice s lo hi = do demand (leb lo hi && leb hi (length s)); ok (take (hi - lo) (drop lo s))

-- The index `len(s) - n`; it is negative, and no slice takes it, if `s` is shorter.
unfoldable pub from_end : Bytes → ℕ → Outcome ℕ
from_end s n = do demand (leb n (length s)); ok (length s - n)

pub slice_lem :
    (s : Bytes) (lo hi : ℕ)
    → lo ≤ hi
    → hi ≤ length s
    → slice s lo hi ≡ ok (take (hi - lo) (drop lo s))
unfolding slice
slice_lem s lo hi h k = ground arith

pub slice_panics : (s : Bytes) (lo hi : ℕ) → (hi < lo) ⊎ (length s < hi) → slice s lo hi ≡ panic
unfolding slice
slice_panics s lo hi h = ground arith

pub from_end_lem : (s : Bytes) (n : ℕ) → n ≤ length s → from_end s n ≡ ok (length s - n)
unfolding from_end
from_end_lem s n h = ground arith

pub from_end_panics : (s : Bytes) (n : ℕ) → length s < n → from_end s n ≡ panic
unfolding from_end
from_end_panics s n h = ground arith

pub slice_middle :
    (xs ys zs : Bytes) (lo hi : ℕ)
    → length xs ≡ lo
    → lo + length ys ≡ hi
    → slice (xs ++ (ys ++ zs)) lo hi ≡ ok ys
slice_middle xs ys zs lo hi h k =
    slice_lem _ lo hi (omega arith)
      (omega (arith, length-append xs (ys ++ zs), length-append ys zs))
    ∙ rw (drop_left_of_eq lo xs (ys ++ zs) h)
        (ap ok (take_left_of_eq (hi - lo) ys zs (omega arith)))

pub slice_start : (xs ys : Bytes) (n : ℕ) → length xs ≡ n → slice (xs ++ ys) 0 n ≡ ok xs
slice_start xs ys n h = slice_middle [] xs ys 0 n (omega arith) (omega arith)

pub slice_rest :
    (xs ys : Bytes) (n : ℕ) → length xs ≡ n → slice (xs ++ ys) n (length (xs ++ ys)) ≡ ok ys
slice_rest xs ys n h =
    subst (λ t. slice (xs ++ t) n (length (xs ++ t)) ≡ ok ys) (append-nil ys)
      (slice_middle xs ys [] n _ h
        (omega (arith, length-append xs (ys ++ []), ap length (append-nil ys))))

pub slice_last :
    (xs ys zs : Bytes) (n : ℕ)
    → length xs + length ys ≡ n
    → slice (xs ++ (ys ++ zs)) n (length (xs ++ (ys ++ zs))) ≡ ok zs
slice_last xs ys zs n h =
    subst (λ t. slice t n (length t) ≡ ok zs) (append_assoc xs ys zs)
      (slice_rest (xs ++ ys) zs n (omega (arith, length-append xs ys)))

-- The slices `s[:n]` and `s[n:]`.
pub slice_to : (s : Bytes) (n : ℕ) → n ≤ length s → slice s 0 n ≡ ok (take n s)
slice_to s n h =
    let whole : n - 0 ≡ n = omega arith in
    slice_lem s 0 n (omega arith) h ∙ ap (λ k. ok (take k s)) whole

pub slice_from : (s : Bytes) (n : ℕ) → n ≤ length s → slice s n (length s) ≡ ok (drop n s)
slice_from s n h =
    slice_lem s n (length s) h (omega arith)
    ∙ ap ok (take-eq_self (length s - n) (drop n s) (omega (arith, length-drop n s)))
