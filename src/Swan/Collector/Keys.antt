-- ===== src/Swan/Collector/Keys.antt =====
-- A walk over a connection's body adds no connection to the collector's map.
use ipman.Prelude.{
  String, [], ◌==◌, ◌≡◌, true, none, some, Option, has_key, has_key-insert, has_key-lookup, eq_iff,
  arith, ◌||◌,
}
use ipman.Swan.Ast.{Entity, option, block, Entities, nil, cons}
use ipman.Swan.Collector.{
  Children, set_child, sa_name, set_found, visit_sas, visit_children, visit_own, visit_entity,
  visit_entities, init_conn,
}

pub has_key-set_child :
    (conn child c : String) (m : Children)
    → has_key c (set_child conn child m) ≡ (conn == c || has_key c m)
unfolding set_child
has_key-set_child conn child c m = has_key-insert conn c _ m

has_key-set_found :
    (conn c : String) (found : Option String) (m : Children)
    → has_key conn m ≡ true
    → has_key c (set_found conn found m) ≡ has_key c m
has_key-set_found conn c none m h = ground arith
has_key-set_found conn c (some n) m h = ground (arith, has_key-set_child conn n c m, eq_iff conn c)

has_key-visit_sas :
    (conn c : String) (es : Entities) (m : Children)
    → has_key conn m ≡ true
    → has_key c (visit_sas conn es m) ≡ has_key c m
unfolding visit_sas
has_key-visit_sas conn c nil m h = ground arith
has_key-visit_sas conn c (cons (option key v) es) m h = has_key-visit_sas conn c es m h
has_key-visit_sas conn c (cons (block name body) es) m h = ground (
  arith,
  has_key-visit_sas conn c es (set_found conn (sa_name body) m),
  has_key-set_found conn c (sa_name body) m,
  has_key-set_found conn conn (sa_name body) m,
)

has_key-visit_children :
    (conn c : String) (es : Entities) (m : Children)
    → has_key conn m ≡ true
    → has_key c (visit_children conn es m) ≡ has_key c m
unfolding visit_children
has_key-visit_children conn c nil m h = ground arith
has_key-visit_children conn c (cons (option key v) es) m h = has_key-visit_children conn c es m h
has_key-visit_children conn c (cons (block name body) es) m h = ground (
  arith,
  has_key-visit_children conn c es (set_child conn name m),
  has_key-set_child conn name c m,
  has_key-set_child conn name conn m,
  eq_iff conn c,
)

has_key-visit_own :
    (conn c name : String) (es : Entities) (m : Children)
    → has_key conn m ≡ true
    → has_key c (visit_own conn name es m) ≡ has_key c m
unfolding visit_own
has_key-visit_own conn c name es m h =
    ground (arith, has_key-visit_sas conn c es m, has_key-visit_children conn c es m)

mutual
  unfolding visit_entity

  has_key-visit_entity :
      (conn c : String) (e : Entity) (m : Children)
      → has_key conn m ≡ true
      → has_key c (visit_entity conn e m) ≡ has_key c m
  has_key-visit_entity conn c (option key v) m h = ground arith
  has_key-visit_entity conn c (block name body) m h = ground (
    arith,
    has_key-visit_entities conn c body (visit_own conn name body m),
    has_key-visit_own conn c name body m,
    has_key-visit_own conn conn name body m,
  )

  has_key-visit_entities :
      (conn c : String) (es : Entities) (m : Children)
      → has_key conn m ≡ true
      → has_key c (visit_entities conn es m) ≡ has_key c m
  has_key-visit_entities conn c nil m h = ground arith
  has_key-visit_entities conn c (cons e es) m h = ground (
    arith,
    has_key-visit_entities conn c es (visit_entity conn e m),
    has_key-visit_entity conn c e m,
    has_key-visit_entity conn conn e m,
  )

pub has_key-body :
    (conn c : String) (es : Entities) (m : Children)
    → has_key conn m ≡ true
    → has_key c (visit_entities conn es m) ≡ has_key c m
has_key-body = has_key-visit_entities

pub has_key-init_conn :
    (conn c : String) (m : Children) → has_key c (init_conn conn m) ≡ (conn == c || has_key c m)
unfolding init_conn
has_key-init_conn conn c m =
    ground (arith, has_key-insert conn c [] m, eq_iff conn c, has_key-lookup conn m)
