-- ===== src/Swan/Visitor.antt =====
-- `StrongSwanVisitor` of cmd/restctl/visitor.go: the connections and children that are configured
-- and have no security association. Its methods return an error that is always nil.
pub mod Refinement
pub mod Walk
use ipman.Prelude.{
  String, ◌==◌, Bool, true, false, List, [], ◌∷◌, ◌++◌, none, some, Map, lookup, insert, get_or,
  if◌then◌else◌,
}
use ipman.Swan.Ast.{Entity, option, block, Entities, nil, cons, Conn, Entry, SwanAst}
use ipman.Swan.Collector.{Children, collect}

pub record Visitor : Type 0 where
  pub sas_children : Children
  pub missing_conns : Map Bool
  pub missing_children : Map (List String)

-- NewStrongSwanVisitor
unfoldable pub new_visitor : SwanAst → Visitor
new_visitor sas = record { sas_children = collect sas; missing_conns = []; missing_children = [] }

-- `exists` of the loop in VisitBlock: a missing connection, or a missing child, gives false.
unfoldable pub has_child : Children → String → String → Bool
has_child m conn child = get_or false (lookup child (get_or [] (lookup conn m)))

-- The body of the loop: append(r.MissingChildren[conn], child) unless it exists.
unfoldable pub check_child : String → String → Visitor → Visitor
unfolding has_child
check_child conn child v = if has_child v.sas_children conn child then v else record v {
  missing_children =
      insert conn (get_or [] (lookup conn v.missing_children) ++ child ∷ []) v.missing_children;
}

-- The loop over a `children` block.
unfoldable pub check_children : String → Entities → Visitor → Visitor
unfolding check_child
check_children conn nil v = v
check_children conn (cons (option key value) es) v = check_children conn es v
check_children conn (cons (block name body) es) v = check_children conn es (check_child conn name v)

unfoldable mutual
  unfolding check_children

  -- VisitEntity, VisitBlock and VisitOption
  pub visit_entity : String → Entity → Visitor → Visitor
  visit_entity conn (option key value) v = v
  visit_entity conn (block name body) v =
      visit_entities conn body (if name == "children" then check_children conn body v else v)

  pub visit_entities : String → Entities → Visitor → Visitor
  visit_entities conn nil v = v
  visit_entities conn (cons e es) v = visit_entities conn es (visit_entity conn e v)

-- if _, ok := r.SasChildren[conn.Name]; !ok { r.MissingConns[conn.Name] = true }
unfoldable pub check_conn : String → Visitor → Visitor
check_conn conn v = elim (lookup conn v.sas_children) [
  | none ↦ record v { missing_conns = insert conn true v.missing_conns }
  | some _ ↦ v
]

unfoldable pub visit_conn : Conn → Visitor → Visitor
unfolding check_conn
visit_conn conn v = visit_entities conn.name conn.body (check_conn conn.name v)

unfoldable pub visit_conns : List Conn → Visitor → Visitor
visit_conns [] v = v
visit_conns (c ∷ cs) v = visit_conns cs (visit_conn c v)

unfoldable pub visit_entries : List Entry → Visitor → Visitor
visit_entries [] v = v
visit_entries (e ∷ es) v = visit_entries es (visit_conns e.conn v)

unfoldable pub visit_ast : SwanAst → Visitor → Visitor
unfolding visit_entries
visit_ast ast v = visit_entries ast.entry v
