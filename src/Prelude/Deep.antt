-- ===== src/Prelude/Deep.antt =====
-- Go's nil: a slice and a map can be nil, which `reflect.DeepEqual` tells from an empty one, and
-- which every other operation reads as empty.
use Prim.Native.Nat.{suc, ◌≤◌}
use Prim.Native.String.{String}
use mathlib.Core.Path.{◌≡◌, refl, sym, ◌∙◌}
use mathlib.Core.Logic.{◌↔◌, inl, inr}
use mathlib.Core.Bool.{Bool, true, false, ◌&&◌, not}
use mathlib.Core.Option.{Option, none, some}
use mathlib.Core.List.{List, [], ◌∷◌}
use native.Mathlib.Omega.{arith}
use text.Mathlib.TextEquality.{eq_iff}
use text.Mathlib.TextPositions.{eq_refl}
use ipman.Prelude.Tests.{◌==◌, nat_eq, str_cases, Option-cases}
use ipman.Prelude.Lists.{length}
use ipman.Prelude.Maps.{Map, lookup, has_key, delete, has_key-delete, has_key-lookup, IsMap}

abbrev pub Slice {ℓ} : Type ℓ → Type ℓ
Slice A = Option (List A)

abbrev pub GoMap {ℓ} : Type ℓ → Type ℓ
GoMap V = Option (Map V)

abbrev pub elems {ℓ} : {A : Type ℓ} → Slice A → List A
elems none = []
elems (some xs) = xs

abbrev pub bool_eq : Bool → Bool → Bool
bool_eq true b = b
bool_eq false b = not b

-- Both nil, or both there and equal.
unfoldable pub option_eq {ℓ} : {A : Type ℓ} → (A → A → Bool) → Option A → Option A → Bool
option_eq eq none none = true
option_eq eq none (some b) = false
option_eq eq (some a) none = false
option_eq eq (some a) (some b) = eq a b

unfoldable pub list_eq {ℓ} : {A : Type ℓ} → (A → A → Bool) → List A → List A → Bool
list_eq eq [] [] = true
list_eq eq [] (y ∷ ys) = false
list_eq eq (x ∷ xs) [] = false
list_eq eq (x ∷ xs) (y ∷ ys) = eq x y && list_eq eq xs ys

-- Every entry of the first map is in the second.
unfoldable pub submap {ℓ} : {V : Type ℓ} → (V → V → Bool) → Map V → Map V → Bool
unfolding option_eq
submap eq [] n = true
submap eq ((k, v) ∷ m) n = option_eq eq (some v) (lookup k n) && submap eq m n

unfoldable pub map_eq {ℓ} : {V : Type ℓ} → (V → V → Bool) → Map V → Map V → Bool
unfolding submap
map_eq eq m n = nat_eq (length m) (length n) && submap eq m n

unfoldable pub strings_eq : Slice String → Slice String → Bool
unfolding option_eq list_eq
strings_eq = option_eq (list_eq (λ s t. s == t))

unfoldable pub string_map_eq : GoMap String → GoMap String → Bool
unfolding option_eq map_eq
string_map_eq = option_eq (map_eq (λ s t. s == t))

list_eq_iff : (xs ys : List String) → (list_eq (λ s t. s == t) xs ys ≡ true) ↔ (xs ≡ ys)
unfolding list_eq
list_eq_iff [] [] = ground arith
list_eq_iff [] (y ∷ ys) = ground arith
list_eq_iff (x ∷ xs) [] = ground arith
list_eq_iff (x ∷ xs) (y ∷ ys) = ground (arith, eq_iff x y, list_eq_iff xs ys)

pub strings_eq_iff : (a b : Slice String) → (strings_eq a b ≡ true) ↔ (a ≡ b)
unfolding strings_eq
strings_eq_iff none none = ground arith
strings_eq_iff none (some b) = ground arith
strings_eq_iff (some a) none = ground arith
strings_eq_iff (some a) (some b) = ground (arith, list_eq_iff a b)

delete_absent {ℓ} :
    {V : Type ℓ} (k : String) (m : Map V) → has_key k m ≡ false → length (delete k m) ≡ length m
unfolding delete has_key
delete_absent k [] h = refl
delete_absent k ((j, v) ∷ m) h = ground (arith, delete_absent k m)

length-delete {ℓ} :
    {V : Type ℓ} (k : String) (m : Map V)
    → IsMap m
    → has_key k m ≡ true
    → suc (length (delete k m)) ≡ length m
unfolding delete has_key
length-delete k [] i h = ground arith
length-delete k ((j, v) ∷ m) i h = ground (arith, eq_iff j k, length-delete k m, delete_absent k m)

delete-IsMap {ℓ} : {V : Type ℓ} (k : String) (m : Map V) → IsMap m → IsMap (delete k m)
unfolding delete
delete-IsMap k [] i = tt
delete-IsMap k ((j, v) ∷ m) i =
    ground (arith, delete-IsMap k m, has_key-delete k j m, eq_iff k j, eq_iff j k)

-- A map that holds all keys of another, and is no longer, holds no other key.
same_keys {ℓ} :
    {V : Type ℓ} (m n : Map V) (k : String)
    → IsMap m
    → IsMap n
    → ((k : String) → has_key k m ≡ true → has_key k n ≡ true)
    → length n ≤ length m
    → has_key k n ≡ true
    → has_key k m ≡ true
unfolding has_key
same_keys [] [] k im jn sub le h = cc
same_keys [] ((j, v) ∷ n) k im jn sub le h = absurd (omega arith)
same_keys ((j, v) ∷ m) n k im jn sub le h =
    let found : has_key j n ≡ true = sub j (ground (arith, eq_iff j j)) in
    let shorter : length (delete j n) ≤ length m = omega (arith, length-delete j n jn found) in
    elim (str_cases j k) [
      | inl e ↦ ground (arith, eq_iff j k)
      | inr e ↦
          let kept : has_key k (delete j n) ≡ true = ground (arith, has_key-delete j k n) in
          let rest =
            same_keys m (delete j n) k im.1 (delete-IsMap j n jn)
              (λ i hi. ground (arith, sub i, has_key-delete j i n, eq_iff j i)) shorter kept in
          ground arith
    ]

option_string_eq :
    (w : String) (o : Option String) → option_eq (λ s t. s == t) (some w) o ≡ true → o ≡ some w
unfolding option_eq
option_string_eq w none h = cc
option_string_eq w (some x) h = ground (arith, eq_iff w x)

submap-lookup :
    (m n : Map String) (k v : String)
    → submap (λ s t. s == t) m n ≡ true
    → lookup k m ≡ some v
    → lookup k n ≡ some v
unfolding submap lookup
submap-lookup [] n k v h e = cc
submap-lookup ((j, w) ∷ m) n k v h e =
    ground (arith, eq_iff j k, option_string_eq w (lookup j n), submap-lookup m n k v)

submap-keys :
    (m n : Map String) (k : String)
    → submap (λ s t. s == t) m n ≡ true
    → has_key k m ≡ true
    → has_key k n ≡ true
submap-keys m n k h e = elim (Option-cases (lookup k m)) [
  | inl o ↦ ground (arith, has_key-lookup k m)
  | inr (v, o) ↦ ground (arith, has_key-lookup k n, submap-lookup m n k v)
]

map_eq-length :
    (m n : Map String)
    → map_eq (λ s t. s == t) m n ≡ true
    → (length m ≡ length n) × (submap (λ s t. s == t) m n ≡ true)
unfolding map_eq
map_eq-length m n h = ground arith

-- Maps that DeepEqual calls equal have the same entries.
pub map_eq-lookup :
    (m n : Map String) (k : String)
    → IsMap m
    → IsMap n
    → map_eq (λ s t. s == t) m n ≡ true
    → lookup k n ≡ lookup k m
map_eq-lookup m n k im jn h =
    let (same, sub) = map_eq-length m n h in
    elim (Option-cases (lookup k m)) [
      | inr (v, o) ↦ submap-lookup m n k v sub o ∙ sym o
      | inl o ↦ ground (
        arith,
        has_key-lookup k m,
        has_key-lookup k n,
        same_keys m n k im jn (λ j. submap-keys m n j sub) (omega arith),
      )
    ]

-- Every entry of `m` is found in `n`.
abbrev Found : Map String → Map String → Type 0
Found [] n = Unit
Found ((k, v) ∷ m) n = (lookup k n ≡ some v) × Found m n

Found-submap : (m n : Map String) → Found m n → submap (λ s t. s == t) m n ≡ true
unfolding submap option_eq
Found-submap [] n f = refl
Found-submap ((k, v) ∷ m) n f = ground (arith, eq_iff v v, Found-submap m n)

Found-cons :
    (k v : String) (m n : Map String) → has_key k m ≡ false → Found m n → Found m ((k, v) ∷ n)
unfolding lookup has_key
Found-cons k v [] n h f = tt
Found-cons k v ((j, w) ∷ m) n h f = ground (arith, eq_iff k j, eq_iff j k, Found-cons k v m n)

Found-refl : (m : Map String) → IsMap m → Found m m
unfolding lookup
Found-refl [] i = tt
Found-refl ((k, v) ∷ m) i = (ground (arith, eq_refl k), Found-cons k v m m i.0 (Found-refl m i.1))

-- DeepEqual calls a map equal to itself.
pub string_map_eq_refl : (m : GoMap String) → IsMap (elems m) → string_map_eq m m ≡ true
unfolding string_map_eq map_eq
string_map_eq_refl none i = refl
string_map_eq_refl (some m) i = ground (arith, Found-submap m m, Found-refl m i)
