-- ===== src/Swan/Status.antt =====
-- `checkStatus` of cmd/restctl/main.go.
pub mod Exact
use ipman.Prelude.{
  String, ◌==◌, Bool, true, false, not, ◌&&◌, ◌||◌, List, [], ◌∷◌, ◌++◌, Map, keys, contains, any,
  if◌then◌else◌,
}
use ipman.Swan.Ast.{SwanAst}
use ipman.Swan.Visitor.{Visitor, new_visitor, visit_ast}

pub record FailureInfo : Type 0 where
  pub connection : String
  pub child : String

-- maps.DeleteFunc(v.MissingChildren, …) on the missing connections.
unfoldable pub drop_failed : List String → Map (List String) → Map (List String)
drop_failed gone [] = []
drop_failed gone ((k, v) ∷ m) =
    let rest = drop_failed gone m in if contains gone k then rest else (k, v) ∷ rest

unfoldable pub child_failures : String → List String → List FailureInfo
child_failures conn [] = []
child_failures conn (c ∷ cs) = record { connection = conn; child = c } ∷ child_failures conn cs

unfoldable pub children_failures : Map (List String) → List FailureInfo
unfolding child_failures
children_failures [] = []
children_failures ((k, v) ∷ m) = child_failures k v ++ children_failures m

unfoldable pub conn_failures : List String → List FailureInfo
conn_failures [] = []
conn_failures (c ∷ cs) = record { connection = c; child = "" } ∷ conn_failures cs

abbrev is_empty {ℓ} : {A : Type ℓ} → List A → Bool
is_empty [] = true
is_empty (x ∷ xs) = false

unfoldable pub failed_of : Visitor → List FailureInfo
unfolding drop_failed children_failures conn_failures
failed_of v =
    if not (is_empty v.missing_conns) || not (is_empty v.missing_children)
    then children_failures (drop_failed (keys v.missing_conns) v.missing_children)
      ++ conn_failures (keys v.missing_conns)
    else []

unfoldable pub check_status : SwanAst → SwanAst → List FailureInfo
unfolding failed_of visit_ast new_visitor
check_status conns sas = failed_of (visit_ast conns (new_visitor sas))
