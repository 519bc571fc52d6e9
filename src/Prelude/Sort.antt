-- ===== src/Prelude/Sort.antt =====
-- slices.Sort and slices.SortFunc: the sorted list, by insertion. Which of two equal elements
-- stands first is left open by Go; here it is their order before.
use Prim.Native.String.{String, compare}
use mathlib.Core.Path.{◌≡◌, refl, ap, ◌∙◌}
use mathlib.Core.Logic.{◌⊎◌}
use mathlib.Core.Bool.{Bool, false, ◌||◌}
use mathlib.Core.List.{List, [], ◌∷◌, map}
use native.Mathlib.Omega.{arith}
use text.Mathlib.Text.{is_le, is_lt}
use text.Mathlib.TextEquality.{eq_iff}
use ipman.Prelude.Tests.{◌==◌, if◌then◌else◌}
use ipman.Prelude.Lists.{In, any, contains}

-- strings.Compare(s, t) <= 0
abbrev pub str_le : String → String → Bool
str_le s t = is_le (compare s t)

-- strings.Compare(s, t) < 0
abbrev pub str_lt : String → String → Bool
str_lt s t = is_lt (compare s t)

module _ {ℓ} {A : Type ℓ} where
  unfoldable pub insert_sorted : (A → A → Bool) → A → List A → List A
  insert_sorted le a [] = a ∷ []
  insert_sorted le a (x ∷ xs) = if le a x then a ∷ x ∷ xs else x ∷ insert_sorted le a xs

  unfoldable pub sort_by : (A → A → Bool) → List A → List A
  unfolding insert_sorted
  sort_by le [] = []
  sort_by le (x ∷ xs) = insert_sorted le x (sort_by le xs)

  any-insert_sorted :
      (le : A → A → Bool) (p : A → Bool) (a : A) (xs : List A)
      → any p (insert_sorted le a xs) ≡ (p a || any p xs)
  unfolding insert_sorted any
  any-insert_sorted le p a [] = refl
  any-insert_sorted le p a (x ∷ xs) = ground (arith, any-insert_sorted le p a xs)

  -- Sorting keeps the elements.
  pub any-sort_by :
      (le : A → A → Bool) (p : A → Bool) (xs : List A) → any p (sort_by le xs) ≡ any p xs
  unfolding sort_by any
  any-sort_by le p [] = refl
  any-sort_by le p (x ∷ xs) =
      ground (arith, any-insert_sorted le p x (sort_by le xs), any-sort_by le p xs)

module _ {A : Type 0} where
  In-insert_sorted :
      (le : A → A → Bool) (a b : A) (xs : List A) → In b (insert_sorted le a xs) → (a ≡ b) ⊎ In b xs
  unfolding insert_sorted
  In-insert_sorted le a b [] h = h
  In-insert_sorted le a b (x ∷ xs) h = ground (arith, In-insert_sorted le a b xs)

  pub In-sort_by : (le : A → A → Bool) (b : A) (xs : List A) → In b (sort_by le xs) → In b xs
  unfolding sort_by
  In-sort_by le b [] h = h
  In-sort_by le b (x ∷ xs) h =
      ground (arith, In-insert_sorted le x b (sort_by le xs), In-sort_by le b xs)

  insert_sorted-In :
      (le : A → A → Bool) (a b : A) (xs : List A) → (a ≡ b) ⊎ In b xs → In b (insert_sorted le a xs)
  unfolding insert_sorted
  insert_sorted-In le a b [] h = h
  insert_sorted-In le a b (x ∷ xs) h = ground (arith, insert_sorted-In le a b xs)

  pub sort_by-In : (le : A → A → Bool) (b : A) (xs : List A) → In b xs → In b (sort_by le xs)
  unfolding sort_by
  sort_by-In le b [] h = h
  sort_by-In le b (x ∷ xs) h =
      ground (arith, insert_sorted-In le x b (sort_by le xs), sort_by-In le b xs)

  -- Sorting commutes with a map that the order does not see.
  map-insert_sorted :
      (le : A → A → Bool) (f : A → A)
      → ((a b : A) → le (f a) (f b) ≡ le a b)
      → (a : A) (xs : List A) → insert_sorted le (f a) (map f xs) ≡ map f (insert_sorted le a xs)
  unfolding insert_sorted
  map-insert_sorted le f h a [] = refl
  map-insert_sorted le f h a (x ∷ xs) = ground (arith, h a x, map-insert_sorted le f h a xs)

  pub map-sort_by :
      (le : A → A → Bool) (f : A → A)
      → ((a b : A) → le (f a) (f b) ≡ le a b)
      → (xs : List A) → sort_by le (map f xs) ≡ map f (sort_by le xs)
  unfolding sort_by
  map-sort_by le f h [] = refl
  map-sort_by le f h (x ∷ xs) =
      ap (insert_sorted le (f x)) (map-sort_by le f h xs)
      ∙ map-insert_sorted le f h x (sort_by le xs)

-- slices.Sort on strings.
unfoldable pub sort : List String → List String
unfolding sort_by
sort xs = sort_by str_le xs

pub contains-sort : (xs : List String) (a : String) → contains (sort xs) a ≡ contains xs a
unfolding sort contains
contains-sort xs a = any-sort_by str_le (λ x. x == a) xs

-- No element stands twice.
abbrev pub IsDistinct : List String → Type 0
IsDistinct [] = Unit
IsDistinct (x ∷ xs) = (contains xs x ≡ false) × IsDistinct xs

contains-insert_sorted :
    (a x : String) (xs : List String)
    → contains (insert_sorted str_le a xs) x ≡ (a == x || contains xs x)
unfolding contains
contains-insert_sorted a x xs = any-insert_sorted str_le (λ y. y == x) a xs

insert_sorted-IsDistinct :
    (a : String) (xs : List String)
    → contains xs a ≡ false
    → IsDistinct xs
    → IsDistinct (insert_sorted str_le a xs)
unfolding insert_sorted contains any
insert_sorted-IsDistinct a [] h d = ground arith
insert_sorted-IsDistinct a (x ∷ xs) h d =
    ground
      (arith, eq_iff a x, eq_iff x a, insert_sorted-IsDistinct a xs, contains-insert_sorted a x xs)

pub sort-IsDistinct : (xs : List String) → IsDistinct xs → IsDistinct (sort xs)
unfolding sort sort_by
sort-IsDistinct [] d = tt
sort-IsDistinct (x ∷ xs) d =
    insert_sorted-IsDistinct x (sort xs) (contains-sort xs x ∙ d.0) (sort-IsDistinct xs d.1)
