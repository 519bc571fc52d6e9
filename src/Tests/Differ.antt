-- ===== src/Tests/Differ.antt =====
-- A small implementation of what the route diff asks of its library, for the tests.
use ipman.Prelude.{
  String, ◌==◌, ◌≡◌, refl, false, not, ◌&&◌, ◌||◌, List, [], ◌∷◌, ◌++◌, Option, none, some, Slice,
  GoMap, Map, elems, lookup, get_or, has_key, has_key-lookup, contains, any, IsMap, eq_iff, arith,
  if◌then◌else◌,
}
use ipman.Controller.Diff.Routes.{nil, str, Change, create, delete, update}
use ipman.Controller.Diff.Routes.Laws.{
  IsShaped, adds, removes, IsListDiff, KeyAbsent, HasKeys, changed, target, IsMapDiff, DiffLibrary,
}

abbrev created : List String → String → Change
created p v = record { kind = create; path = p; from = nil; to = str v }

abbrev deleted : List String → String → Change
deleted p v = record { kind = delete; path = p; from = str v; to = nil }

abbrev updated : List String → String → String → Change
updated p v w = record { kind = update; path = p; from = str v; to = str w }

unfoldable gone : List String → List String → List Change
unfolding contains
gone [] ys = []
gone (x ∷ xs) ys = let rest = gone xs ys in if contains ys x then rest else deleted [] x ∷ rest

unfoldable fresh : List String → List String → List Change
unfolding contains
fresh xs [] = []
fresh xs (y ∷ ys) = let rest = fresh xs ys in if contains xs y then rest else created [] y ∷ rest

unfoldable pub slices : Slice String → Slice String → List Change
unfolding gone fresh
slices a b = gone (elems a) (elems b) ++ fresh (elems a) (elems b)

IsShaped-append : (cs ds : List Change) → IsShaped cs → IsShaped ds → IsShaped (cs ++ ds)
IsShaped-append [] ds c d = d
IsShaped-append (e ∷ cs) ds c d = (c.0, IsShaped-append cs ds c.1 d)

gone-IsShaped : (xs ys : List String) → IsShaped (gone xs ys)
unfolding gone
gone-IsShaped [] ys = tt
gone-IsShaped (x ∷ xs) ys = ground (arith, gone-IsShaped xs ys)

fresh-IsShaped : (xs ys : List String) → IsShaped (fresh xs ys)
unfolding fresh
fresh-IsShaped xs [] = tt
fresh-IsShaped xs (y ∷ ys) = ground (arith, fresh-IsShaped xs ys)

gone_lem :
    (xs ys : List String) (v : String)
    → (adds (gone xs ys) v ≡ false)
      × (removes (gone xs ys) v ≡ (contains xs v && not (contains ys v)))
unfolding gone contains any
gone_lem [] ys v = (refl, refl)
gone_lem (x ∷ xs) ys v = ground (arith, eq_iff x v, gone_lem xs ys v)

fresh_lem :
    (xs ys : List String) (v : String)
    → (removes (fresh xs ys) v ≡ false)
      × (adds (fresh xs ys) v ≡ (contains ys v && not (contains xs v)))
unfolding fresh contains any
fresh_lem xs [] v = (refl, refl)
fresh_lem xs (y ∷ ys) v = ground (arith, eq_iff y v, fresh_lem xs ys v)

adds-append : (cs ds : List Change) (v : String) → adds (cs ++ ds) v ≡ (adds cs v || adds ds v)
unfolding any
adds-append [] ds v = refl
adds-append (c ∷ cs) ds v = ground (arith, adds-append cs ds v)

removes-append :
    (cs ds : List Change) (v : String) → removes (cs ++ ds) v ≡ (removes cs v || removes ds v)
unfolding any
removes-append [] ds v = refl
removes-append (c ∷ cs) ds v = ground (arith, removes-append cs ds v)

pub slices-IsListDiff : (a b : Slice String) → IsListDiff a b (slices a b)
unfolding slices
slices-IsListDiff a b = record {
  shape =
      IsShaped-append (gone (elems a) (elems b)) (fresh (elems a) (elems b))
        (gone-IsShaped (elems a) (elems b)) (fresh-IsShaped (elems a) (elems b));
  added = λ v. ground (
    arith,
    adds-append (gone (elems a) (elems b)) (fresh (elems a) (elems b)) v,
    gone_lem (elems a) (elems b) v,
    fresh_lem (elems a) (elems b) v,
  );
  removed = λ v. ground (
    arith,
    removes-append (gone (elems a) (elems b)) (fresh (elems a) (elems b)) v,
    gone_lem (elems a) (elems b) v,
    fresh_lem (elems a) (elems b) v,
  );
}

unfoldable lost : Map String → Map String → List Change
unfolding has_key
lost [] n = []
lost ((k, v) ∷ m) n = let rest = lost m n in if has_key k n then rest else deleted (k ∷ []) v ∷ rest

unfoldable newer : Map String → Map String → List Change
unfolding lookup
newer m [] = []
newer m ((k, v) ∷ n) =
    let rest = newer m n in
    elim (lookup k m) [
      | none ↦ created (k ∷ []) v ∷ rest
      | some w ↦ if w == v then rest else updated (k ∷ []) w v ∷ rest
    ]

unfoldable pub maps : GoMap String → GoMap String → List Change
unfolding lost newer
maps a b = lost (elems a) (elems b) ++ newer (elems a) (elems b)

lost-IsShaped : (m n : Map String) → IsShaped (lost m n)
unfolding lost
lost-IsShaped [] n = tt
lost-IsShaped ((k, v) ∷ m) n = ground (arith, lost-IsShaped m n)

newer-IsShaped : (m n : Map String) → IsShaped (newer m n)
unfolding newer
newer-IsShaped m [] = tt
newer-IsShaped m ((k, v) ∷ n) = ground (arith, newer-IsShaped m n)

changed-lost :
    (k : String) (m n : Map String) → changed k (lost m n) ≡ (has_key k m && not (has_key k n))
unfolding lost has_key any
changed-lost k [] n = refl
changed-lost k ((j, v) ∷ m) n = ground (arith, eq_iff j k, changed-lost k m n)

changed-newer :
    (k : String) (m n : Map String) → has_key k n ≡ false → changed k (newer m n) ≡ false
unfolding newer has_key any
changed-newer k m [] h = refl
changed-newer k m ((j, v) ∷ n) h = ground (arith, changed-newer k m n)

changed-append :
    (k : String) (cs ds : List Change) → changed k (cs ++ ds) ≡ (changed k cs || changed k ds)
unfolding any
changed-append k [] ds = refl
changed-append k (c ∷ cs) ds = ground (arith, changed-append k cs ds)

target-append :
    (k : String) (cs ds : List Change) (old : Option String)
    → target k (cs ++ ds) old ≡ (if changed k cs then target k cs old else target k ds old)
unfolding any
target-append k [] ds old = refl
target-append k (c ∷ cs) ds old = ground (arith, target-append k cs ds old)

target-lost :
    (k : String) (m n : Map String) (old : Option String)
    → target k (lost m n) old ≡ (if changed k (lost m n) then none else old)
unfolding lost any
target-lost k [] n old = refl
target-lost k ((j, v) ∷ m) n old = ground (arith, target-lost k m n old)

target-unchanged :
    (k : String) (cs : List Change) (old : Option String)
    → changed k cs ≡ false
    → target k cs old ≡ old
unfolding any
target-unchanged k [] old h = refl
target-unchanged k (c ∷ cs) old h = ground (arith, target-unchanged k cs old)

target-newer :
    (k : String) (m n : Map String)
    → IsMap n
    → target k (newer m n) (lookup k m) ≡ (if has_key k n then lookup k n else lookup k m)
unfolding newer has_key lookup
target-newer k m [] u = refl
target-newer k m ((j, v) ∷ n) u = ground (
  arith,
  eq_iff j k,
  eq_iff (get_or "" (lookup j m)) v,
  target-newer k m n,
  changed-newer k m n,
  target-unchanged k (newer m n) (lookup k m),
)

lost-HasKeys : (m n : Map String) → IsMap m → HasKeys (lost m n)
unfolding lost
lost-HasKeys [] n u = tt
lost-HasKeys ((k, v) ∷ m) n u = ground (arith, lost-HasKeys m n, changed-lost k m n)

newer-HasKeys : (m n : Map String) → IsMap n → HasKeys (newer m n)
unfolding newer
newer-HasKeys m [] u = tt
newer-HasKeys m ((k, v) ∷ n) u = ground (arith, newer-HasKeys m n, changed-newer k m n)

-- None of the keys of the first changes is among the second.
abbrev Apart : List Change → List Change → Type 0
Apart [] ds = Unit
Apart (c ∷ cs) ds = KeyAbsent c.path ds × Apart cs ds

KeyAbsent-append :
    (p : List String) (cs ds : List Change)
    → KeyAbsent p cs
    → KeyAbsent p ds
    → KeyAbsent p (cs ++ ds)
KeyAbsent-append [] cs ds c d = c
KeyAbsent-append (k ∷ p) cs ds c d = ground (arith, changed-append k cs ds)

HasKeys-append : (cs ds : List Change) → HasKeys cs → HasKeys ds → Apart cs ds → HasKeys (cs ++ ds)
HasKeys-append [] ds c d a = d
HasKeys-append (e ∷ cs) ds c d a =
    (KeyAbsent-append e.path cs ds c.0 a.0, HasKeys-append cs ds c.1 d a.1)

lost-Apart : (m n o : Map String) → Apart (lost m n) (newer o n)
unfolding lost
lost-Apart [] n o = tt
lost-Apart ((k, v) ∷ m) n o = ground (arith, lost-Apart m n o, changed-newer k o n)

pub maps-IsMapDiff :
    (a b : GoMap String) → IsMap (elems a) → IsMap (elems b) → IsMapDiff a b (maps a b)
unfolding maps
maps-IsMapDiff a b u w =
    let m = elems a in
    let n = elems b in
    record {
      shape = IsShaped-append (lost m n) (newer m n) (lost-IsShaped m n) (newer-IsShaped m n);
      keyed =
          HasKeys-append (lost m n) (newer m n) (lost-HasKeys m n u) (newer-HasKeys m n w)
            (lost-Apart m n m);
      targets = λ k. ground (
        arith,
        target-append k (lost m n) (newer m n) (lookup k m),
        target-lost k m n (lookup k m),
        changed-lost k m n,
        target-newer k m n w,
        has_key-lookup k m,
        has_key-lookup k n,
      );
    }

abbrev pub differ : DiffLibrary
differ = record {
  slices = slices;
  maps = maps;
  slices_law = λ a b u v. slices-IsListDiff a b;
  maps_law = maps-IsMapDiff;
}
