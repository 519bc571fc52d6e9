-- ===== src/Prelude/Maps.antt =====
-- Go's maps with string keys, as association lists. The order of the entries stands for the order
-- of one iteration, which Go leaves open.
use Prim.Native.String.{String}
use mathlib.Core.Path.{◌≡◌, refl}
use mathlib.Core.Bool.{Bool, true, false, ◌||◌, ◌&&◌, not}
use mathlib.Core.Option.{Option, none, some}
use mathlib.Core.List.{List, [], ◌∷◌}
use native.Mathlib.Omega.{arith}
use text.Mathlib.TextEquality.{eq_iff}
use ipman.Prelude.Tests.{◌==◌, if◌then◌else◌}
use ipman.Prelude.Lists.{contains}

abbrev pub Map {ℓ} : Type ℓ → Type ℓ
Map V = List (String × V)

abbrev pub get_or {ℓ} : {V : Type ℓ} → V → Option V → V
get_or d none = d
get_or d (some v) = v

abbrev pub is_some {ℓ} : {V : Type ℓ} → Option V → Bool
is_some none = false
is_some (some v) = true

module _ {ℓ} {V : Type ℓ} where
  -- v, ok := m[k]
  unfoldable pub lookup : String → Map V → Option V
  lookup k [] = none
  lookup k ((j, v) ∷ m) = if j == k then some v else lookup k m

  unfoldable pub has_key : String → Map V → Bool
  has_key k [] = false
  has_key k ((j, v) ∷ m) = j == k || has_key k m

  -- m[k] = v
  unfoldable pub insert : String → V → Map V → Map V
  insert k v [] = (k, v) ∷ []
  insert k v ((j, w) ∷ m) = if j == k then (k, v) ∷ m else (j, w) ∷ insert k v m

  -- delete(m, k)
  unfoldable pub delete : String → Map V → Map V
  delete k [] = []
  delete k ((j, w) ∷ m) = let rest = delete k m in if j == k then rest else (j, w) ∷ rest

  -- maps.Keys
  unfoldable pub keys : Map V → List String
  keys [] = []
  keys ((k, v) ∷ m) = k ∷ keys m

  -- maps.Values
  unfoldable pub values : Map V → List V
  values [] = []
  values ((k, v) ∷ m) = v ∷ values m

  -- No key stands twice: what a Go map gives for nothing.
  abbrev pub IsMap : Map V → Type 0
  IsMap [] = Unit
  IsMap ((k, v) ∷ m) = (has_key k m ≡ false) × IsMap m

  pub lookup-insert :
      (key sought : String) (val : V) (es : Map V)
      → lookup sought (insert key val es) ≡ (if key == sought then some val else lookup sought es)
  unfolding insert lookup
  lookup-insert key sought val [] = refl
  lookup-insert key sought val ((there, w) ∷ es) = ground (
    arith,
    lookup-insert key sought val es,
    eq_iff there sought,
    eq_iff key sought,
    eq_iff there key,
  )

  pub lookup-delete :
      (k j : String) (m : Map V) → lookup j (delete k m) ≡ (if k == j then none else lookup j m)
  unfolding lookup delete
  lookup-delete k j [] = ground arith
  lookup-delete k j ((i, v) ∷ m) =
      ground (arith, lookup-delete k j m, eq_iff i k, eq_iff i j, eq_iff k j)

  pub has_key-insert :
      (k j : String) (v : V) (m : Map V) → has_key j (insert k v m) ≡ (k == j || has_key j m)
  unfolding has_key insert
  has_key-insert k j v [] = refl
  has_key-insert k j v ((i, w) ∷ m) =
      ground (arith, eq_iff k j, eq_iff i k, eq_iff i j, has_key-insert k j v m)

  pub has_key-delete :
      (k j : String) (m : Map V) → has_key j (delete k m) ≡ (not (k == j) && has_key j m)
  unfolding has_key delete
  has_key-delete k j [] = ground arith
  has_key-delete k j ((i, v) ∷ m) =
      ground (arith, has_key-delete k j m, eq_iff i k, eq_iff i j, eq_iff k j)

  pub contains-keys : (k : String) (m : Map V) → contains (keys m) k ≡ has_key k m
  unfolding contains keys has_key
  contains-keys k [] = refl
  contains-keys k ((j, v) ∷ m) = ground (arith, contains-keys k m)

  pub has_key-lookup : (k : String) (m : Map V) → has_key k m ≡ is_some (lookup k m)
  unfolding lookup has_key
  has_key-lookup k [] = refl
  has_key-lookup k ((j, v) ∷ m) = ground (arith, has_key-lookup k m)

  pub insert-IsMap : (k : String) (v : V) (m : Map V) → IsMap m → IsMap (insert k v m)
  unfolding insert has_key
  insert-IsMap k v [] h = ground arith
  insert-IsMap k v ((j, w) ∷ m) h =
      ground (arith, insert-IsMap k v m, has_key-insert k j v m, eq_iff j k, eq_iff k j)
