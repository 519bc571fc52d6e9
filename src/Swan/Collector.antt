-- ===== src/Swan/Collector.antt =====
-- `ConnectionCollector` of pkg/swanparse/visitor.go. Its methods return an error that is always
-- nil, which the model leaves out.

pub mod Keys
pub mod Refinement
use ipman.Prelude.{
  String, ◌==◌, Bool, true, Option, none, some, List, [], ◌∷◌, Map, lookup, insert, get_or,
  if◌then◌else◌,
}
use ipman.Swan.Ast.{array, single, Entity, option, block, Entities, nil, cons, Conn, Entry, SwanAst}

abbrev pub Children : Type 0
Children = Map (Map Bool)

-- c.Children[conn][child] = true; `visit_conn` has made the inner map.
unfoldable pub set_child : String → String → Children → Children
set_child conn child m = insert conn (insert child true (get_or [] (lookup conn m))) m

-- childEntity.Option != nil && Key == "name" && Value.Single != nil
unfoldable pub name_option : Entity → Option String
name_option (option key (single v)) = if key == "name" then some v else none
name_option (option key (array vs)) = none
name_option (block name body) = none

-- The loop that breaks at the first name option.
unfoldable pub sa_name : Entities → Option String
unfolding name_option
sa_name nil = none
sa_name (cons e es) = elim (name_option e) [ some v ↦ some v | none ↦ sa_name es ]

abbrev pub set_found : String → Option String → Children → Children
set_found conn none m = m
set_found conn (some child) m = set_child conn child m

-- The loop over a `child-sas` block.
unfoldable pub visit_sas : String → Entities → Children → Children
unfolding set_child sa_name
visit_sas conn nil m = m
visit_sas conn (cons (option key v) es) m = visit_sas conn es m
visit_sas conn (cons (block name body) es) m = visit_sas conn es (set_found conn (sa_name body) m)

-- The loop over a `children` block.
unfoldable pub visit_children : String → Entities → Children → Children
unfolding set_child
visit_children conn nil m = m
visit_children conn (cons (option key v) es) m = visit_children conn es m
visit_children conn (cons (block name body) es) m = visit_children conn es (set_child conn name m)

-- The first part of VisitBlock: what the block itself declares.
unfoldable pub visit_own : String → String → Entities → Children → Children
unfolding visit_sas visit_children
visit_own conn name body m =
    if name == "child-sas"
    then visit_sas conn body m
    else if name == "children"
    then visit_children conn body m
    else m

unfoldable mutual
  unfolding visit_own

  -- VisitEntity, VisitBlock and VisitOption
  pub visit_entity : String → Entity → Children → Children
  visit_entity conn (option key v) m = m
  visit_entity conn (block name body) m = visit_entities conn body (visit_own conn name body m)

  pub visit_entities : String → Entities → Children → Children
  visit_entities conn nil m = m
  visit_entities conn (cons e es) m = visit_entities conn es (visit_entity conn e m)

-- if c.Children[conn.Name] == nil { c.Children[conn.Name] = make(map[string]bool) }
unfoldable pub init_conn : String → Children → Children
init_conn conn m = elim (lookup conn m) [ none ↦ insert conn [] m | some _ ↦ m ]

unfoldable pub visit_conn : Conn → Children → Children
unfolding init_conn
visit_conn conn m = visit_entities conn.name conn.body (init_conn conn.name m)

unfoldable pub visit_conns : List Conn → Children → Children
visit_conns [] m = m
visit_conns (c ∷ cs) m = visit_conns cs (visit_conn c m)

unfoldable pub visit_entries : List Entry → Children → Children
visit_entries [] m = m
visit_entries (e ∷ es) m = visit_entries es (visit_conns e.conn m)

-- NewConnectionCollector and VisitAST
unfoldable pub collect : SwanAst → Children
unfolding visit_entries
collect ast = visit_entries ast.entry []
