-- ===== src/Controller/Diff/Proxy/Names.antt =====
-- The names that `diffProxy` keeps in r.AllConns.
use ipman.Prelude.{
  ℕ, zero, suc, ◌-◌, String, ◌==◌, ◌≡◌, ◌≢◌, Bool, true, not, List, [], ◌∷◌, ◌++◌, length,
  get_elem?, any, keep, contains, contains-append, eq_iff, arith, Bool-cases, Option-cases, inl,
  inr,
}
use ipman.Api.{IpSecConnection}
use ipman.Controller.Diff.Proxy.{
  delete_in_place, empties, is_conn, add_names, prune_names, drop_empty, track_all,
}

contains-add_names_old :
    (cs : List IpSecConnection) (names : List String) (n : String)
    → contains names n ≡ true
    → contains (add_names cs names) n ≡ true
unfolding add_names
contains-add_names_old [] names n h = h
contains-add_names_old (c ∷ cs) names n h = ground (
  arith,
  contains-append names (c.name ∷ []) n,
  contains-add_names_old cs names n,
  contains-add_names_old cs (names ++ c.name ∷ []) n,
)

contains-last : (names : List String) (n : String) → contains (names ++ n ∷ []) n ≡ true
unfolding contains any
contains-last [] n = ground (arith, eq_iff n n)
contains-last (m ∷ names) n = ground (arith, contains-last names n)

contains-add_names :
    (cs : List IpSecConnection) (names : List String) (n : String)
    → is_conn cs n ≡ true
    → contains (add_names cs names) n ≡ true
unfolding add_names any
contains-add_names [] names n h = ground arith
contains-add_names (c ∷ cs) names n h = ground (
  arith,
  eq_iff c.name n,
  contains-last names c.name,
  contains-add_names_old cs names n,
  contains-add_names_old cs (names ++ c.name ∷ []) n,
  contains-add_names cs names n,
  contains-add_names cs (names ++ c.name ∷ []) n,
)

pub contains-keep :
    (p : String → Bool) (names : List String) (n : String)
    → p n ≡ true
    → contains names n ≡ true
    → contains (keep p names) n ≡ true
unfolding contains keep any
contains-keep p [] n e h = ground arith
contains-keep p (m ∷ names) n e h = ground (arith, eq_iff m n, contains-keep p names n)

-- Deleting another name keeps a name.
contains-delete_in_place :
    (names : List String) (m n : String)
    → contains names n ≡ true
    → m ≢ n
    → contains (delete_in_place m names) n ≡ true
unfolding delete_in_place
contains-delete_in_place names m n h d =
    let p = λ (s : String). not (s == m) in
    ground (
      arith,
      eq_iff n m,
      contains-keep p names n,
      contains-append (keep p names) (empties (length names - length (keep p names))) n,
    )

contains-prune_names :
    (conns : List IpSecConnection) (k i : ℕ) (names : List String) (n : String)
    → is_conn conns n ≡ true
    → contains names n ≡ true
    → contains (prune_names conns k i names) n ≡ true
unfolding prune_names
contains-prune_names conns zero i names n c h = h
contains-prune_names conns (suc k) i names n c h = elim (Option-cases (get_elem? names i)) [
  | inl e ↦ rw (e) (contains-prune_names conns k (suc i) names n c h)
  | inr (m, e) ↦ elim (Bool-cases (is_conn conns m)) [
    | inl f ↦ rw (e, f) (contains-prune_names conns k (suc i) names n c h)
    | inr f ↦
        rw (e, f)
          (contains-prune_names conns k (suc i) (delete_in_place m names) n c
            (contains-delete_in_place names m n h (λ s. ground (arith, f, s))))
  ]
]

-- Whatever was tracked before, every connection of the cluster that has a name is tracked after
-- `diffProxy` has updated r.AllConns.
pub contains-track_all :
    (conns : List IpSecConnection) (names : List String) (n : String)
    → is_conn conns n ≡ true
    → n ≢ ""
    → contains (track_all conns names) n ≡ true
unfolding track_all drop_empty
contains-track_all conns names n c h =
    let all = add_names conns names in
    contains-keep (λ (s : String). not (s == "")) (prune_names conns (length all) 0 all) n
      (ground (arith, eq_iff n ""))
      (contains-prune_names conns (length all) 0 all n c (contains-add_names conns names n c))
