-- ===== src/Swan/Status/Exact.antt =====
-- `checkStatus` reports exactly what is configured and not up.
use ipman.Prelude.{
  String, ◌==◌, ◌≡◌, refl, Bool, true, not, ◌||◌, ◌&&◌, List, [], ◌∷◌, ◌++◌, Map, lookup, has_key,
  keys, get_or, has_key-lookup, contains-keys, IsMap, any, any-append, contains, eq_iff, arith,
}
use ipman.Swan.Ast.{Conn, Entry, SwanAst}
use ipman.Swan.Names.{configured_in, named, lists_with, any_conn, declares, is_up, is_configured}
use ipman.Swan.Collector.Refinement.{has_child-collect, has_key-collect}
use ipman.Swan.Visitor.{Visitor, new_visitor, visit_ast}
use ipman.Swan.Visitor.Refinement.{misses}
use ipman.Swan.Visitor.Walk.{misses_conn, visit_entries-Walked}
use ipman.Swan.Status.{
  FailureInfo, drop_failed, child_failures, children_failures, conn_failures, failed_of,
  check_status,
}

abbrev pub reported : String → String → FailureInfo → Bool
reported c ch f = f.connection == c && f.child == ch

-- The pair stands in the list of failures.
abbrev pub reports : List FailureInfo → String → String → Bool
reports fs c ch = any (reported c ch) fs

-- The outer test of `checkStatus` only saves work.
failed_of_lem :
    (v : Visitor)
    → failed_of v
      ≡ children_failures (drop_failed (keys v.missing_conns) v.missing_children)
        ++ conn_failures (keys v.missing_conns)
unfolding failed_of keys
failed_of_lem v = ground arith

module _ (c ch : String) where
  reports-child_failures :
      (k : String) (cs : List String)
      → reports (child_failures k cs) c ch ≡ (k == c && contains cs ch)
  unfolding child_failures any contains
  reports-child_failures k [] = ground arith
  reports-child_failures k (x ∷ cs) = ground (arith, reports-child_failures k cs)

  reports-children_failures :
      (gone : List String) (m : Map (List String))
      → IsMap m
      → reports (children_failures (drop_failed gone m)) c ch
        ≡ (not (contains gone c) && contains (get_or [] (lookup c m)) ch)
  unfolding drop_failed children_failures lookup any contains
  reports-children_failures gone [] h = ground arith
  reports-children_failures gone ((k, v) ∷ m) h = ground (
    arith,
    eq_iff k c,
    has_key-lookup k m,
    has_key-lookup c m,
    reports-children_failures gone m,
    reports-child_failures k v,
    any-append {0} (reported c ch) (child_failures k v) (children_failures (drop_failed gone m)),
  )

  reports-conn_failures :
      (ks : List String) → reports (conn_failures ks) c ch ≡ (contains ks c && "" == ch)
  unfolding conn_failures any contains
  reports-conn_failures [] = refl
  reports-conn_failures (k ∷ ks) = ground (arith, reports-conn_failures ks)

  reports-failed_of :
      (v : Visitor)
      → IsMap v.missing_children
      → reports (failed_of v) c ch
        ≡ ((not (misses_conn v c) && misses v c ch) || (misses_conn v c && "" == ch))
  reports-failed_of v h = ground (
    arith,
    failed_of_lem v,
    any-append {0} (reported c ch)
        (children_failures (drop_failed (keys v.missing_conns) v.missing_children))
        (conn_failures (keys v.missing_conns)),
    reports-children_failures (keys v.missing_conns) v.missing_children,
    reports-conn_failures (keys v.missing_conns),
    contains-keys c v.missing_conns,
  )

any_mono :
    (p q : Conn → Bool) (cs : List Conn)
    → ((k : Conn) → p k ≡ true → q k ≡ true)
    → any p cs ≡ true
    → any q cs ≡ true
unfolding any
any_mono p q [] h e = cc
any_mono p q (k ∷ cs) h e = ground (arith, h k, any_mono p q cs h)

any_conn_mono :
    (p q : Conn → Bool) (es : List Entry)
    → ((k : Conn) → p k ≡ true → q k ≡ true)
    → any_conn p es ≡ true
    → any_conn q es ≡ true
unfolding any
any_conn_mono p q [] h t = cc
any_conn_mono p q (e ∷ es) h t = ground (arith, any_mono p q e.conn h, any_conn_mono p q es h)

pub declares_of_configured :
    (conns : SwanAst) (c ch : String) → is_configured conns c ch ≡ true → declares conns c ≡ true
declares_of_configured conns c ch =
    any_conn_mono (lists_with configured_in c ch) (named c) conns.entry (λ k e. ground arith)

-- `checkStatus` reports a child of a connection exactly if it is configured under the connection,
-- the connection has an association and the child has none; and it reports the connection itself
-- (with the empty child name) exactly if the connection is configured and has no association.
pub check_status_lem :
    (conns sas : SwanAst) (c ch : String)
    → reports (check_status conns sas) c ch ≡ (
        (is_configured conns c ch && declares sas c && not (is_up sas c ch))
        || (declares conns c && not (declares sas c) && "" == ch))
unfolding check_status new_visitor visit_ast has_key lookup contains
check_status_lem conns sas c ch = ground (
  arith,
  visit_entries-Walked c ch conns.entry (new_visitor sas),
  reports-failed_of c ch (visit_ast conns (new_visitor sas)),
  has_child-collect sas c ch,
  has_key-collect sas c,
  declares_of_configured conns c ch,
)
