-- ===== src/Common/Lists.antt =====
-- Lists: Python's `all`, `any`, comprehensions, `in` and `set` on lists of texts.
use Prim.Native.Nat.{ℕ, suc, ◌+◌}
use Prim.Native.String.{String, compare}
use mathlib.Core.Path.{◌≡◌, refl, ap}
use mathlib.Core.Logic.{inl, inr}
use mathlib.Core.Bool.{Bool, true, false, not, ◌&&◌, ◌||◌}
use mathlib.Core.Option.{Option, none, some}
use mathlib.Core.List.{List, [], ◌∷◌, ◌++◌}
use native.Mathlib.Omega.{arith}
use text.Mathlib.Text.{◌==◌, is_le}
use text.Mathlib.TextEquality.{eq_iff}
use polsia_build.Common.Tests.{if◌then◌else◌, Bool-cases}

module _ {ℓ} {A : Type ℓ} where
  abbrev pub length : List A → ℕ
  length [] = 0
  length (_ ∷ xs) = suc (length xs)

  abbrev pub all : (A → Bool) → List A → Bool
  all p [] = true
  all p (x ∷ xs) = p x && all p xs

  abbrev pub any : (A → Bool) → List A → Bool
  any p [] = false
  any p (x ∷ xs) = p x || any p xs

  -- `[x for x in xs if p(x)]`
  abbrev pub select : (A → Bool) → List A → List A
  select p [] = []
  select p (x ∷ xs) = let rest = select p xs in if p x then x ∷ rest else rest

  -- The first element that passes a test.
  abbrev pub first : (A → Bool) → List A → Option A
  first p [] = none
  first p (x ∷ xs) = if p x then some x else first p xs

  -- Not a list of no element.
  abbrev pub is_nil : List A → Bool
  is_nil [] = true
  is_nil (_ ∷ _) = false

  pub length-append : (xs ys : List A) → length (xs ++ ys) ≡ length xs + length ys
  length-append [] ys = omega arith
  length-append (x ∷ xs) ys = omega (arith, length-append xs ys)

  pub any-append : (p : A → Bool) (xs ys : List A) → any p (xs ++ ys) ≡ (any p xs || any p ys)
  any-append p [] ys = refl
  any-append p (x ∷ xs) ys = ground (arith, any-append p xs ys)

module _ {ℓ κ} {A : Type ℓ} (P : A → Type κ) where
  abbrev pub All : List A → Type κ
  All [] = Unit
  All (x ∷ xs) = P x × All xs

  pub All-append : (xs ys : List A) → All xs → All ys → All (xs ++ ys)
  All-append [] ys hx hy = hy
  All-append (x ∷ xs) ys hx hy = (hx.0, All-append xs ys hx.1 hy)

-- `s in xs`
abbrev pub contains : List String → String → Bool
contains [] s = false
contains (x ∷ xs) s = s == x || contains xs s

-- `xs - ys`, for sets of texts.
unfoldable pub minus : List String → List String → List String
minus [] ys = []
minus (x ∷ xs) ys = let rest = minus xs ys in if contains ys x then rest else x ∷ rest

-- `not (xs - ys)`: every text of `xs` is in `ys`.
pub minus_nil :
    (xs ys : List String) (s : String)
    → is_nil (minus xs ys) ≡ true
    → contains xs s ≡ true
    → contains ys s ≡ true
unfolding minus
minus_nil [] ys s h c = cc
minus_nil (x ∷ xs) ys s h c = elim (Bool-cases (s == x)) [
  | inl same ↦ let e : s ≡ x = (eq_iff s x).0 same in rw e (ground arith)
  | inr differ ↦ ground (arith, minus_nil xs ys s)
]

pub nil-minus :
    (xs ys : List String)
    → ((s : String) → contains xs s ≡ true → contains ys s ≡ true)
    → is_nil (minus xs ys) ≡ true
unfolding minus
nil-minus [] ys h = refl
nil-minus (x ∷ xs) ys h =
    ground (arith, h x, eq_iff x x, nil-minus xs ys (λ s c. h s (ground arith)))

-- `set(xs)`: each element once.
unfoldable pub dedup : List String → List String
dedup [] = []
dedup (x ∷ xs) = let rest = dedup xs in if contains rest x then rest else x ∷ rest

insert_text : String → List String → List String
insert_text s [] = s ∷ []
insert_text s (x ∷ xs) = if is_le (compare s x) then s ∷ x ∷ xs else x ∷ insert_text s xs

-- `sorted(xs)`, by code points.
unfoldable pub sorted : List String → List String
unfolding insert_text
sorted [] = []
sorted (x ∷ xs) = insert_text x (sorted xs)

-- `len(xs) == len(set(xs))`: no element comes twice.
unfoldable pub distinct : List String → Bool
distinct [] = true
distinct (x ∷ xs) = not (contains xs x) && distinct xs

pub contains-minus :
    (xs ys : List String) (s : String)
    → contains (minus xs ys) s ≡ (contains xs s && not (contains ys s))
unfolding minus
contains-minus [] ys s = refl
contains-minus (x ∷ xs) ys s = elim (Bool-cases (s == x)) [
  | inl same ↦
      let e : s ≡ x = (eq_iff s x).0 same in
      ground (arith, e, contains-minus xs ys s, eq_iff s x, ap (contains ys) e)
  | inr differ ↦ ground (arith, contains-minus xs ys s)
]

module _ (p : String → Bool) where
  -- Nothing is selected exactly when no text passes the test.
  pub select_nil :
      (xs : List String) (s : String)
      → is_nil (select p xs) ≡ true
      → contains xs s ≡ true
      → p s ≡ false
  select_nil [] s h c = cc
  select_nil (x ∷ xs) s h c = elim (Bool-cases (s == x)) [
    | inl same ↦ let e : s ≡ x = (eq_iff s x).0 same in rw e (ground arith)
    | inr differ ↦ ground (arith, select_nil xs s)
  ]

  pub nil-select :
      (xs : List String)
      → ((s : String) → contains xs s ≡ true → p s ≡ false)
      → is_nil (select p xs) ≡ true
  nil-select [] h = refl
  nil-select (x ∷ xs) h = ground (arith, h x, eq_iff x x, nil-select xs (λ s c. h s (ground arith)))

pub contains-dedup : (xs : List String) (s : String) → contains (dedup xs) s ≡ contains xs s
unfolding dedup
contains-dedup [] s = refl
contains-dedup (x ∷ xs) s = elim (Bool-cases (s == x)) [
  | inl same ↦
      let e : s ≡ x = (eq_iff s x).0 same in rw e (ground (arith, contains-dedup xs x, eq_iff x x))
  | inr differ ↦ ground (arith, contains-dedup xs s)
]

is_nil-insert_text : (s : String) (xs : List String) → is_nil (insert_text s xs) ≡ false
unfolding insert_text
is_nil-insert_text s [] = refl
is_nil-insert_text s (x ∷ xs) = ground arith

pub is_nil-sorted : (xs : List String) → is_nil (sorted xs) ≡ is_nil xs
unfolding sorted
is_nil-sorted [] = refl
is_nil-sorted (x ∷ xs) = is_nil-insert_text x (sorted xs)

pub any_weaken :
    {A : Type 0} (p q : A → Bool) (xs : List A)
    → ((x : A) → p x ≡ true → q x ≡ true)
    → any q xs ≡ false
    → any p xs ≡ false
any_weaken p q [] h n = refl
any_weaken p q (x ∷ xs) h n = ground (arith, h x, any_weaken p q xs h)
