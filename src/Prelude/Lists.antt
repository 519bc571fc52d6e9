-- ===== src/Prelude/Lists.antt =====
-- Lists: Go's slices and the functions of the package `slices` that the program calls.
use Prim.Native.Nat.{ℕ, zero, suc, ◌≤◌}
use Prim.Native.String.{String}
use mathlib.Core.Path.{◌≡◌, refl, ap}
use mathlib.Core.Logic.{◌⊎◌, ◌↔◌, inl, inr}
use mathlib.Core.Bool.{Bool, true, false, ◌||◌, not}
use mathlib.Core.Option.{Option, none, some}
use mathlib.Core.List.{List, [], ◌∷◌, ◌++◌, map}
use native.Mathlib.Omega.{arith}
use text.Mathlib.TextEquality.{eq_iff}
use ipman.Prelude.Tests.{◌==◌, if◌then◌else◌, Bool-cases}

module _ {ℓ} {A : Type ℓ} where
  abbrev pub length : List A → ℕ
  length [] = 0
  length (x ∷ xs) = suc (length xs)

  abbrev pub get_elem? : List A → ℕ → Option A
  get_elem? [] i = none
  get_elem? (x ∷ xs) zero = some x
  get_elem? (x ∷ xs) (suc i) = get_elem? xs i

  -- slices.ContainsFunc
  unfoldable pub any : (A → Bool) → List A → Bool
  any p [] = false
  any p (x ∷ xs) = p x || any p xs

  -- The elements that pass the test, in order.
  unfoldable pub keep : (A → Bool) → List A → List A
  keep p [] = []
  keep p (x ∷ xs) = let rest = keep p xs in if p x then x ∷ rest else rest

  -- slices.DeleteFunc
  unfoldable pub delete_func : (A → Bool) → List A → List A
  unfolding keep
  delete_func p xs = keep (λ x. not (p x)) xs

  -- The first element that passes the test.
  unfoldable pub first : (A → Bool) → List A → Option A
  first p [] = none
  first p (x ∷ xs) = if p x then some x else first p xs

  abbrev pub All {κ} : (A → Type κ) → List A → Type κ
  All P [] = Unit
  All P (x ∷ xs) = P x × All P xs

  pub length-keep-le : (p : A → Bool) (xs : List A) → length (keep p xs) ≤ length xs
  unfolding keep
  length-keep-le p [] = omega arith
  length-keep-le p (x ∷ xs) = ground (arith, length-keep-le p xs)

module _ {ℓ} {A : Type ℓ} (p : A → Bool) where
  pub any-append : (xs ys : List A) → any p (xs ++ ys) ≡ (any p xs || any p ys)
  unfolding any
  any-append [] ys = refl
  any-append (x ∷ xs) ys = ground (arith, any-append xs ys)

-- slices.Contains
unfoldable pub contains : List String → String → Bool
unfolding any
contains xs a = any (λ x. x == a) xs

module _ {A : Type 0} where
  -- `a` stands in the list.
  abbrev pub In : A → List A → Type 0
  In a [] = ⊥
  In a (x ∷ xs) = (x ≡ a) ⊎ In a xs

  pub In-append-left : (a : A) (xs ys : List A) → In a xs → In a (xs ++ ys)
  In-append-left a [] ys h = absurd h
  In-append-left a (x ∷ xs) ys h = ground (arith, In-append-left a xs ys)

  pub In-append-right : (a : A) (xs ys : List A) → In a ys → In a (xs ++ ys)
  In-append-right a [] ys h = h
  In-append-right a (x ∷ xs) ys h = inr (In-append-right a xs ys h)

  pub In-append-cases : (a : A) (xs ys : List A) → In a (xs ++ ys) → In a xs ⊎ In a ys
  In-append-cases a [] ys h = inr h
  In-append-cases a (x ∷ xs) ys h = ground (arith, In-append-cases a xs ys)

  pub In-keep : (p : A → Bool) (a : A) (xs : List A) → In a (keep p xs) ↔ (In a xs × (p a ≡ true))
  unfolding keep
  In-keep p a [] = (λ h. absurd h, λ h. h.0)
  In-keep p a (x ∷ xs) = ground (arith, In-keep p a xs)

  any-In : (p : A → Bool) (a : A) (xs : List A) → In a xs → p a ≡ true → any p xs ≡ true
  unfolding any
  any-In p a [] h e = absurd h
  any-In p a (x ∷ xs) h e = ground (arith, any-In p a xs)

  any_find : (p : A → Bool) (xs : List A) → any p xs ≡ true → (a : A) × In a xs × (p a ≡ true)
  unfolding any
  any_find p [] h = cc
  any_find p (x ∷ xs) h = elim (Bool-cases (p x)) [
    | inl e ↦ (x, inl refl, e)
    | inr e ↦ let (a, i, pa) = any_find p xs (rw e at h) in (a, inr i, pa)
  ]

  pub any_iff :
      (p : A → Bool) (xs : List A) → (any p xs ≡ true) ↔ ((a : A) × In a xs × (p a ≡ true))
  any_iff p xs = (any_find p xs, λ (a, i, e). any-In p a xs i e)

  pub first-some :
      (p : A → Bool) (xs : List A) (a : A) → first p xs ≡ some a → In a xs × (p a ≡ true)
  unfolding first
  first-some p [] a h = cc
  first-some p (x ∷ xs) a h = ground (arith, first-some p xs a)

  pub first-none : (p : A → Bool) (xs : List A) → first p xs ≡ none → any p xs ≡ false
  unfolding first any
  first-none p [] h = refl
  first-none p (x ∷ xs) h = ground (arith, first-none p xs)

pub In-map : {A B : Type 0} (f : A → B) (a : A) (xs : List A) → In a xs → In (f a) (map f xs)
In-map f a [] h = absurd h
In-map f a (x ∷ xs) (inl e) = inl (ap f e)
In-map f a (x ∷ xs) (inr i) = inr (In-map f a xs i)

pub contains_iff : (xs : List String) (a : String) → (contains xs a ≡ true) ↔ In a xs
unfolding contains
contains_iff [] a = (λ h. cc, λ h. absurd h)
contains_iff (x ∷ xs) a = ground (arith, eq_iff x a, contains_iff xs a)

pub contains-append :
    (xs ys : List String) (a : String) → contains (xs ++ ys) a ≡ (contains xs a || contains ys a)
unfolding contains
contains-append [] ys a = refl
contains-append (x ∷ xs) ys a = ground (arith, contains-append xs ys a)
