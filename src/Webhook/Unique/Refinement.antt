-- ===== src/Webhook/Unique/Refinement.antt =====
-- What `validate_unique` accepts: no pair of an address and a child's name occurs twice, and no
-- interface id does.
use ipman.Prelude.{
  String, ◌==◌, ◌≡◌, refl, ◌↔◌, ap, ◌∙◌, Bool, true, false, not, ◌&&◌, ◌||◌, List, [], ◌∷◌, ◌++◌,
  Option, none, some, Slice, elems, lookup, lookup-insert, get_or, insert, contains,
  contains-append, values, Bool-cases, ◌⊎◌, inl, inr, eq_iff, arith, if◌then◌else◌,
}
use mathlib.Core.Path.{fun_ext}
use ipman.Api.{Child, IpSecConnection, ℤ, int_eq, pos, negsuc}
use ipman.Webhook.Verdict.{Reason, is_allowed}
use ipman.Webhook.Unique.{
  Table, Added, added, refused, add_ips, add_pools, has_id, add_children, validate_unique,
}

abbrev Pairs : Type 0
Pairs = List (String × String)

unfoldable pub has_pair : Pairs → String → String → Bool
has_pair [] ip name = false
has_pair ((i, n) ∷ ps) ip name = (i == ip && n == name) || has_pair ps ip name

-- No pair occurs twice.
unfoldable pub IsDistinctPairs : Pairs → Type 0
IsDistinctPairs [] = Unit
IsDistinctPairs ((ip, name) ∷ ps) = (has_pair ps ip name ≡ false) × IsDistinctPairs ps

unfoldable pub tag : String → List String → Pairs
tag name [] = []
tag name (ip ∷ ips) = (ip, name) ∷ tag name ips

unfoldable pub pool_pairs : String → List (Slice String) → Pairs
pool_pairs name [] = []
pool_pairs name (p ∷ ps) = tag name (elems p) ++ pool_pairs name ps

-- The addresses of the children, each with the child's name.
unfoldable pub pairs : List Child → Pairs
pairs [] = []
pairs (c ∷ cs) = pool_pairs c.name (values (elems c.ip_pools)) ++ pairs cs

unfoldable pub ids : List Child → List ℤ
ids [] = []
ids (c ∷ cs) = c.xfrm_if_id ∷ ids cs

unfoldable pub IsDistinctIds : List ℤ → Type 0
IsDistinctIds [] = Unit
IsDistinctIds (i ∷ is) = (has_id is i ≡ false) × IsDistinctIds is

abbrev Seen : Type 0
Seen = String → String → Bool

abbrev seen : Table → Seen
seen t ip name = contains (get_or [] (lookup ip t)) name

abbrev extend : Seen → String → String → Seen
extend s ip name = λ j m. s j m || (ip == j && name == m)

-- The same check over pairs: none at a pair that was seen.
unfoldable run : Seen → Pairs → Option Seen
run s [] = some s
run s ((ip, name) ∷ ps) = let rest = run (extend s ip name) ps in if s ip name then none else rest

abbrev run_from : Option Seen → Pairs → Option Seen
run_from none ps = none
run_from (some s) ps = run s ps

abbrev view : Added → Option Seen
view (added t) = some (seen t)
view (refused r) = none

seen-insert :
    (ip name : String) (t : Table)
    → seen (insert ip (get_or [] (lookup ip t) ++ name ∷ []) t) ≡ extend (seen t) ip name
unfolding contains
seen-insert ip name t = fun_ext (λ j. fun_ext (λ m. ground (
  arith,
  lookup-insert ip j (get_or [] (lookup ip t) ++ name ∷ []) t,
  contains-append (get_or [] (lookup ip t)) (name ∷ []) m,
  eq_iff ip j,
  eq_iff name m,
)))

run-append : (s : Seen) (ps qs : Pairs) → run s (ps ++ qs) ≡ run_from (run s ps) qs
unfolding run
run-append s [] qs = refl
run-append s ((ip, name) ∷ ps) qs = elim (Bool-cases (s ip name)) [
  | inl e ↦ rw (e) refl
  | inr e ↦ rw (e) (run-append (extend s ip name) ps qs)
]

add_ips_lem :
    (name : String) (ips : List String) (t : Table)
    → view (add_ips name ips t) ≡ run (seen t) (tag name ips)
unfolding add_ips tag run
add_ips_lem name [] t = refl
add_ips_lem name (ip ∷ ips) t = elim (Bool-cases (seen t ip name)) [
  | inl e ↦ rw (e) refl
  | inr e ↦ rw (e) (
      add_ips_lem name ips (insert ip (get_or [] (lookup ip t) ++ name ∷ []) t)
      ∙ ap (λ s. run s (tag name ips)) (seen-insert ip name t))
]

Added-cases : (r : Added) → ((u : Table) × (r ≡ added u)) ⊎ ((e : Reason) × (r ≡ refused e))
Added-cases (added u) = inl (u, refl)
Added-cases (refused e) = inr (e, refl)

add_pools_lem :
    (name : String) (pools : List (Slice String)) (t : Table)
    → view (add_pools name pools t) ≡ run (seen t) (pool_pairs name pools)
unfolding add_pools pool_pairs run
add_pools_lem name [] t = refl
add_pools_lem name (p ∷ ps) t =
    rw
      (
        run-append (seen t) (tag name (elems p)) (pool_pairs name ps),
        ← add_ips_lem name (elems p) t,
      )
      (elim (Added-cases (add_ips name (elems p) t)) [
        | inl (u, e) ↦ rw (add_pools, e) (add_pools_lem name ps u)
        | inr (r, e) ↦ rw (add_pools, e) refl
      ])

unfoldable fresh_ids : List ℤ → List ℤ → Bool
fresh_ids js [] = true
fresh_ids js (i ∷ is) = not (has_id js i) && fresh_ids (i ∷ js) is

unfoldable some_run : Option Seen → Bool
some_run none = false
some_run (some s) = true

add_children_lem :
    (cs : List Child) (t : Table) (js : List ℤ)
    → is_allowed (add_children cs t js)
      ≡ (some_run (run (seen t) (pairs cs)) && fresh_ids js (ids cs))
unfolding add_children pairs ids run fresh_ids some_run
add_children_lem [] t js = refl
add_children_lem (c ∷ cs) t js =
    let pools = values (elems c.ip_pools) in
    rw (run-append (seen t) (pool_pairs c.name pools) (pairs cs), ← add_pools_lem c.name pools t)
      (elim (Added-cases (add_pools c.name pools t)) [
        | inl (u, e) ↦
            rw (add_children, e) (ground (arith, add_children_lem cs u (c.xfrm_if_id ∷ js)))
        | inr (r, e) ↦ rw (add_children, e) refl
      ])

-- No pair was seen.
unfoldable clean : Seen → Pairs → Bool
clean s [] = true
clean s ((ip, name) ∷ ps) = not (s ip name) && clean s ps

clean-extend :
    (s : Seen) (ip name : String) (ps : Pairs)
    → clean (extend s ip name) ps ≡ (clean s ps && not (has_pair ps ip name))
unfolding clean has_pair
clean-extend s ip name [] = refl
clean-extend s ip name ((j, m) ∷ ps) =
    ground
      (arith, clean-extend s ip name ps, eq_iff ip j, eq_iff j ip, eq_iff name m, eq_iff m name)

run_iff :
    (ps : Pairs) (s : Seen)
    → (some_run (run s ps) ≡ true) ↔ ((clean s ps ≡ true) × IsDistinctPairs ps)
unfolding run clean IsDistinctPairs some_run
run_iff [] s = ground arith
run_iff ((ip, name) ∷ ps) s =
    ground (arith, run_iff ps (extend s ip name), clean-extend s ip name ps)

clean-none : (ps : Pairs) → clean (seen []) ps ≡ true
unfolding clean contains lookup
clean-none [] = refl
clean-none ((ip, name) ∷ ps) = clean-none ps

int_eq_comm : (i j : ℤ) → int_eq i j ≡ int_eq j i
unfolding int_eq
int_eq_comm (pos m) (pos n) = ground arith
int_eq_comm (pos m) (negsuc n) = refl
int_eq_comm (negsuc m) (pos n) = refl
int_eq_comm (negsuc m) (negsuc n) = ground arith

-- No id is among the given ones.
unfoldable none_of : List ℤ → List ℤ → Bool
none_of js [] = true
none_of js (i ∷ is) = not (has_id js i) && none_of js is

none_of-cons : (j : ℤ) (js is : List ℤ) → none_of (j ∷ js) is ≡ (none_of js is && not (has_id is j))
unfolding none_of
none_of-cons j js [] = refl
none_of-cons j js (i ∷ is) = ground (arith, none_of-cons j js is, int_eq_comm i j)

fresh_ids_iff :
    (is js : List ℤ) → (fresh_ids js is ≡ true) ↔ ((none_of js is ≡ true) × IsDistinctIds is)
unfolding fresh_ids none_of IsDistinctIds
fresh_ids_iff [] js = ground arith
fresh_ids_iff (i ∷ is) js = ground (arith, fresh_ids_iff is (i ∷ js), none_of-cons i js is)

none_of-nil : (is : List ℤ) → none_of [] is ≡ true
unfolding none_of
none_of-nil [] = refl
none_of-nil (i ∷ is) = none_of-nil is

-- A connection is accepted exactly if no address occurs twice under one child's name, across all
-- pools and children, and no interface id occurs twice.
pub validate_unique_iff :
    (c : IpSecConnection)
    → (is_allowed (validate_unique c) ≡ true) ↔ (
        IsDistinctPairs (pairs (values c.spec.children))
        × IsDistinctIds (ids (values c.spec.children)))
unfolding validate_unique
validate_unique_iff c =
    let cs = values c.spec.children in
    ground (
      arith,
      add_children_lem cs [] [],
      run_iff (pairs cs) (seen []),
      clean-none (pairs cs),
      fresh_ids_iff (ids cs) [],
      none_of-nil (ids cs),
    )
