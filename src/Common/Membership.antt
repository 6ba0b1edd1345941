-- ===== src/Common/Membership.antt =====
-- Membership at a known place, and the searches for an element that passes a test.

use mathlib.Core.Path.{◌≡◌, refl, subst, sym}
use mathlib.Core.Logic.{◌⊎◌, inl, inr}
use mathlib.Core.Bool.{Bool, true, false}
use mathlib.Core.Option.{none, some}
use mathlib.Core.List.{List, [], ◌∷◌, ◌++◌}
use native.Mathlib.Omega.{arith}
use polsia_build.Common.Lists.{All, any, first}
use polsia_build.Common.Tests.{Bool-cases}

module _ {A : Type 0} where
  -- `x` is an element, at a known place.
  abbrev pub In : A → List A → Type 0
  In x [] = ⊥
  In x (y ∷ ys) = (x ≡ y) ⊎ In x ys

  pub All-In {κ} : (P : A → Type κ) (xs : List A) (x : A) → All P xs → In x xs → P x
  All-In P [] x h m = elim m [ ]
  All-In P (y ∷ ys) x h (inl e) = subst P (sym e) h.0
  All-In P (y ∷ ys) x h (inr m) = All-In P ys x h.1 m

  pub In-append_left : (x : A) (xs ys : List A) → In x xs → In x (xs ++ ys)
  In-append_left x [] ys m = elim m [ ]
  In-append_left x (z ∷ xs) ys (inl e) = inl e
  In-append_left x (z ∷ xs) ys (inr m) = inr (In-append_left x xs ys m)

  pub In-last : (x : A) (xs : List A) → In x (xs ++ x ∷ [])
  In-last x [] = inl refl
  In-last x (_ ∷ xs) = inr (In-last x xs)

  -- The first element that passes is one that passes.
  pub first-some :
      (p : A → Bool) (xs : List A) (x : A) → first p xs ≡ some x → (p x ≡ true) × In x xs
  first-some p [] x h = cc
  first-some p (y ∷ ys) x h = elim (Bool-cases (p y)) [
    | inl t ↦ let e : y ≡ x = ground arith in (rw e at t, inl (sym e))
    | inr f ↦ let (q, m) = first-some p ys x (ground arith) in (q, inr m)
  ]

  pub first-none : (p : A → Bool) (xs : List A) (x : A) → first p xs ≡ none → In x xs → p x ≡ false
  first-none p [] x h m = elim m [ ]
  first-none p (y ∷ ys) x h (inl e) = rw e (ground arith)
  first-none p (y ∷ ys) x h (inr m) = first-none p ys x (ground arith) m

  pub any-false : (p : A → Bool) (xs : List A) (x : A) → any p xs ≡ false → In x xs → p x ≡ false
  any-false p [] x h m = elim m [ ]
  any-false p (y ∷ ys) x h (inl e) = rw e (ground arith)
  any-false p (y ∷ ys) x h (inr m) = any-false p ys x (ground arith) m

  pub In-append : (x y : A) (xs : List A) → In x (xs ++ y ∷ []) → In x xs ⊎ (x ≡ y)
  In-append x y [] (inl e) = inr e
  In-append x y [] (inr m) = elim m [ ]
  In-append x y (z ∷ xs) (inl e) = inl (inl e)
  In-append x y (z ∷ xs) (inr m) = elim (In-append x y xs m) [ inl n ↦ inl (inr n) | inr e ↦ inr e ]
