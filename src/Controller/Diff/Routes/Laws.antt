-- ===== src/Controller/Diff/Routes/Laws.antt =====
-- What r3labs/diff documents of `Diff` on two lists of strings without duplicates and on two maps
-- of strings: which elements are created, deleted and updated.
use ipman.Prelude.{
  String, ◌==◌, ◌≡◌, Bool, true, false, not, ◌&&◌, List, [], ◌∷◌, Option, none, some, Slice, GoMap,
  elems, lookup, contains, any, IsDistinct, IsMap, if◌then◌else◌,
}
use ipman.Controller.Diff.Routes.{Any, nil, str, other, Change, ChangeType, create, delete, update}

abbrev pub is_str : String → Any → Bool
is_str v nil = false
is_str v (str s) = s == v
is_str v other = false

-- A created value has no old one, a deleted value no new one, an updated value both.
abbrev pub shaped : ChangeType → Any → Any → Bool
shaped create nil (str b) = true
shaped delete (str a) nil = true
shaped update (str a) (str b) = true
shaped _ _ _ = false

abbrev pub IsShaped : List Change → Type 0
IsShaped [] = Unit
IsShaped (c ∷ cs) = (shaped c.kind c.from c.to ≡ true) × IsShaped cs

abbrev pub adds : List Change → String → Bool
adds cs v = any (λ (c : Change). is_str v c.to) cs

abbrev pub removes : List Change → String → Bool
removes cs v = any (λ (c : Change). is_str v c.from) cs

-- The changes from list `a` to list `b`.
pub record IsListDiff (a b : Slice String) (cs : List Change) : Type 0 where
  pub shape : IsShaped cs
  pub added : (v : String) → adds cs v ≡ (contains (elems b) v && not (contains (elems a) v))
  pub removed : (v : String) → removes cs v ≡ (contains (elems a) v && not (contains (elems b) v))

-- The change is at this key.
abbrev pub at_key : String → List String → Bool
at_key k [] = false
at_key k (p ∷ ps) = p == k

abbrev pub value_of : Any → Option String
value_of nil = none
value_of (str s) = some s
value_of other = none

abbrev pub changed : String → List Change → Bool
changed k cs = any (λ (c : Change). at_key k c.path) cs

abbrev pub KeyAbsent : List String → List Change → Type 0
KeyAbsent [] cs = ⊥
KeyAbsent (k ∷ ps) cs = changed k cs ≡ false

-- Every change names its key, and no later change names it again.
abbrev pub HasKeys : List Change → Type 0
HasKeys [] = Unit
HasKeys (c ∷ cs) = KeyAbsent c.path cs × HasKeys cs

abbrev pub target : String → List Change → Option String → Option String
target k [] old = old
target k (c ∷ cs) old = if at_key k c.path then value_of c.to else target k cs old

-- The changes from map `a` to map `b`: at most one for a key, to the key's value in `b`.
pub record IsMapDiff (a b : GoMap String) (cs : List Change) : Type 0 where
  pub shape : IsShaped cs
  pub keyed : HasKeys cs
  pub targets : (k : String) → target k cs (lookup k (elems a)) ≡ lookup k (elems b)

-- The package, with its documented behaviour.
pub record DiffLibrary : Type 0 where
  pub slices : Slice String → Slice String → List Change
  pub maps : GoMap String → GoMap String → List Change
  pub slices_law :
      (a b : Slice String)
      → IsDistinct (elems a)
      → IsDistinct (elems b)
      → IsListDiff a b (slices a b)
  pub maps_law : (a b : GoMap String) → IsMap (elems a) → IsMap (elems b) → IsMapDiff a b (maps a b)
