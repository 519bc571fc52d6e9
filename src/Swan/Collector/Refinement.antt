-- ===== src/Swan/Collector/Refinement.antt =====
-- The collector's map answers exactly what the listing declares.
use ipman.Prelude.{
  String, ◌==◌, ◌≡◌, true, ◌||◌, ◌&&◌, List, [], ◌∷◌, none, some, Option, lookup, has_key, insert,
  get_or, lookup-insert, contains, any, contains-append, eq_iff, arith,
}
use ipman.Swan.Ast.{Entity, option, block, Entities, nil, cons, Conn, Entry, SwanAst}
use ipman.Swan.Collector.{
  Children, set_child, sa_name, set_found, visit_sas, visit_children, visit_own, visit_entity,
  visit_entities, init_conn, visit_conn, visit_conns, visit_entries, collect,
}
use ipman.Swan.Collector.Keys.{has_key-body, has_key-init_conn}
use ipman.Swan.Visitor.{has_child}
use ipman.Swan.Names.{
  as_list, sa_names, block_names, own_names, up_in, up_in_entity, declares, is_up, named,
  lists_with, any_conn,
}

has_child-set_child :
    (conn child c ch : String) (m : Children)
    → has_child (set_child conn child m) c ch ≡ ((conn == c && child == ch) || has_child m c ch)
unfolding has_child set_child
has_child-set_child conn child c ch m = ground (
  arith,
  eq_iff conn c,
  lookup-insert conn c (insert child true (get_or [] (lookup conn m))) m,
  lookup-insert child ch true (get_or [] (lookup conn m)),
)

module _ (conn c ch : String) where
  has_child-set_found :
      (found : Option String) (m : Children)
      → has_child (set_found conn found m) c ch
        ≡ ((conn == c && contains (as_list found) ch) || has_child m c ch)
  unfolding contains
  has_child-set_found none m = ground arith
  has_child-set_found (some n) m = ground (arith, has_child-set_child conn n c ch m)

  has_child-visit_sas :
      (es : Entities) (m : Children)
      → has_child (visit_sas conn es m) c ch
        ≡ ((conn == c && contains (sa_names es) ch) || has_child m c ch)
  unfolding visit_sas sa_names contains
  has_child-visit_sas nil m = ground arith
  has_child-visit_sas (cons (option key v) es) m = has_child-visit_sas es m
  has_child-visit_sas (cons (block name body) es) m = ground (
    arith,
    has_child-visit_sas es (set_found conn (sa_name body) m),
    has_child-set_found (sa_name body) m,
    contains-append (as_list (sa_name body)) (sa_names es) ch,
  )

  has_child-visit_children :
      (es : Entities) (m : Children)
      → has_child (visit_children conn es m) c ch
        ≡ ((conn == c && contains (block_names es) ch) || has_child m c ch)
  unfolding visit_children block_names contains
  has_child-visit_children nil m = ground arith
  has_child-visit_children (cons (option key v) es) m = has_child-visit_children es m
  has_child-visit_children (cons (block name body) es) m = ground (
    arith,
    has_child-visit_children es (set_child conn name m),
    has_child-set_child conn name c ch m,
  )

  has_child-visit_own :
      (name : String) (es : Entities) (m : Children)
      → has_child (visit_own conn name es m) c ch
        ≡ ((conn == c && contains (own_names name es) ch) || has_child m c ch)
  unfolding visit_own own_names contains
  has_child-visit_own name es m =
      ground (arith, has_child-visit_sas es m, has_child-visit_children es m)

  mutual
    unfolding visit_entity up_in_entity contains

    has_child-visit_entity :
        (e : Entity) (m : Children)
        → has_child (visit_entity conn e m) c ch
          ≡ ((conn == c && contains (up_in_entity e) ch) || has_child m c ch)
    has_child-visit_entity (option key v) m = ground arith
    has_child-visit_entity (block name body) m = ground (
      arith,
      has_child-visit_entities body (visit_own conn name body m),
      has_child-visit_own name body m,
      contains-append (own_names name body) (up_in body) ch,
    )

    has_child-visit_entities :
        (es : Entities) (m : Children)
        → has_child (visit_entities conn es m) c ch
          ≡ ((conn == c && contains (up_in es) ch) || has_child m c ch)
    has_child-visit_entities nil m = ground arith
    has_child-visit_entities (cons e es) m = ground (
      arith,
      has_child-visit_entities es (visit_entity conn e m),
      has_child-visit_entity e m,
      contains-append (up_in_entity e) (up_in es) ch,
    )

has_child-init_conn :
    (conn c ch : String) (m : Children) → has_child (init_conn conn m) c ch ≡ has_child m c ch
unfolding has_child init_conn lookup
has_child-init_conn conn c ch m = ground (arith, lookup-insert conn c [] m, eq_iff conn c)

module _ (c ch : String) where
  has_child-visit_conns :
      (cs : List Conn) (m : Children)
      → has_child (visit_conns cs m) c ch ≡ (any (lists_with up_in c ch) cs || has_child m c ch)
  unfolding visit_conns visit_conn any
  has_child-visit_conns [] m = ground arith
  has_child-visit_conns (k ∷ cs) m = ground (
    arith,
    has_child-visit_conns cs (visit_conn k m),
    has_child-visit_entities k.name c ch k.body (init_conn k.name m),
    has_child-init_conn k.name c ch m,
  )

  has_child-visit_entries :
      (es : List Entry) (m : Children)
      → has_child (visit_entries es m) c ch
        ≡ (any_conn (lists_with up_in c ch) es || has_child m c ch)
  unfolding visit_entries any
  has_child-visit_entries [] m = ground arith
  has_child-visit_entries (e ∷ es) m =
      ground
        (arith, has_child-visit_entries es (visit_conns e.conn m), has_child-visit_conns e.conn m)

module _ (c : String) where
  has_key-visit_conns :
      (cs : List Conn) (m : Children)
      → has_key c (visit_conns cs m) ≡ (any (named c) cs || has_key c m)
  unfolding visit_conns visit_conn any
  has_key-visit_conns [] m = ground arith
  has_key-visit_conns (k ∷ cs) m = ground (
    arith,
    has_key-visit_conns cs (visit_conn k m),
    has_key-body k.name c k.body (init_conn k.name m),
    has_key-init_conn k.name c m,
    has_key-init_conn k.name k.name m,
    eq_iff k.name k.name,
  )

  has_key-visit_entries :
      (es : List Entry) (m : Children)
      → has_key c (visit_entries es m) ≡ (any_conn (named c) es || has_key c m)
  unfolding visit_entries any
  has_key-visit_entries [] m = ground arith
  has_key-visit_entries (e ∷ es) m =
      ground (arith, has_key-visit_entries es (visit_conns e.conn m), has_key-visit_conns e.conn m)

-- The collected map has a child under a connection exactly if the listing names that child, in a
-- `child-sas` or a `children` block at any depth of a connection of that name.
pub has_child-collect :
    (ast : SwanAst) (c ch : String) → has_child (collect ast) c ch ≡ is_up ast c ch
unfolding collect has_child lookup
has_child-collect ast c ch = ground (arith, has_child-visit_entries c ch ast.entry [])

-- The collected map has a connection exactly if the listing has a connection of that name.
pub has_key-collect : (ast : SwanAst) (c : String) → has_key c (collect ast) ≡ declares ast c
unfolding collect has_key
has_key-collect ast c = ground (arith, has_key-visit_entries c ast.entry [])
