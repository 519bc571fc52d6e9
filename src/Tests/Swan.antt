-- ===== src/Tests/Swan.antt =====
-- The theorems on listings at concrete inputs.
use ipman.Prelude.{
  String, true, is_some, Option, some, refl, ◌==◌, ◌≡◌, not, ◌&&◌, ◌||◌, [], ◌∷◌, has_key,
}
use ipman.Swan.Ast.{single, option, block, nil, cons, SwanAst}
use ipman.Swan.Collector.{collect}
use ipman.Swan.Collector.Refinement.{has_child-collect, has_key-collect}
use ipman.Swan.Visitor.{has_child}
use ipman.Swan.Names.{declares, is_up, is_configured}
use ipman.Swan.Status.{check_status}
use ipman.Swan.Status.Exact.{reports, check_status_lem}
use ipman.Swan.Restart.{RestartConnectionChildRequest, restart_connection, restart_connection_child}
use ipman.Swan.Restart.Initiates.{
  lacks_conn, lacks_child, restart_connection_lem, restart_connection_child_lem,
}

-- The connection `office` with the children `red` and `blue`, as it is configured.
abbrev configured : SwanAst
configured = record {
  entry =
      record {
        command = "list-conn event";
        name = "";
        conn =
            record {
              name = "office";
              body = cons (option "version" (single "IKEv2")) (
                  cons (block "children" (cons (block "red" nil) (cons (block "blue" nil) nil)))
                    nil);
            }
            ∷ [];
      }
      ∷ [];
}

-- Only `red` is up.
abbrev established : SwanAst
established = record {
  entry =
      record {
        command = "list-sa event";
        name = "";
        conn =
            record {
              name = "office";
              body =
                  cons
                    (block "child-sas"
                      (cons (block "red-1" (cons (option "name" (single "red")) nil)) nil))
                    nil;
            }
            ∷ [];
      }
      ∷ [];
}

has_child-collect_example :
    has_child (collect established) "office" "red" ≡ is_up established "office" "red"
has_child-collect_example = has_child-collect established "office" "red"

has_key-collect_example : has_key "office" (collect established) ≡ declares established "office"
has_key-collect_example = has_key-collect established "office"

check_status_lem_example : reports (check_status configured established) "office" "blue" ≡ (
    (is_configured configured "office" "blue"
      && declares established "office"
      && not (is_up established "office" "blue"))
    || (declares configured "office" && not (declares established "office") && "" == "blue"))
check_status_lem_example = check_status_lem configured established "office" "blue"

abbrev asked : RestartConnectionChildRequest
asked = record { connection_name = "office"; child_name = "blue" }

abbrev decode_name : String → Option String
decode_name s = some "office"

abbrev decode_child : String → Option RestartConnectionChildRequest
decode_child s = some asked

restart_connection_child_lem_example :
    is_some
      (restart_connection_child decode_name decode_child
        (some configured)
        (some established)
        (λ args. true)
        (some "{}")).initiated
    ≡ (lacks_conn configured established "office"
        || lacks_child configured established "office" "blue"
        || lacks_child configured established "office" "")
restart_connection_child_lem_example =
    restart_connection_child_lem decode_name decode_child configured established (λ args. true) "{}"
      asked refl

restart_connection_lem_example :
    is_some
      (restart_connection decode_name decode_child
        (some configured)
        (some established)
        (λ args. true)
        (some "{}")).initiated
    ≡ (lacks_conn configured established "office" || lacks_child configured established "office" "")
restart_connection_lem_example =
    restart_connection_lem decode_name decode_child configured established (λ args. true) "{}"
      "office" refl
