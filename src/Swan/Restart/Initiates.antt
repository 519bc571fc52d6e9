-- ===== src/Swan/Restart/Initiates.antt =====
-- When the restart handlers call swanctl.
use ipman.Prelude.{
  String, ◌==◌, ◌≡◌, refl, Bool, not, ◌&&◌, ◌||◌, List, [], ◌∷◌, Option, some, is_some, any, eq_iff,
  arith,
}
use ipman.Swan.Ast.{SwanAst}
use ipman.Swan.Names.{declares, is_up, is_configured}
use ipman.Swan.Status.{FailureInfo, check_status}
use ipman.Swan.Status.Exact.{reports, check_status_lem}
use ipman.Swan.Restart.{
  RestartConnectionChildRequest, list_failed, restart_if, initiate, restart_connection,
  restart_connection_child,
}

-- The connection has an association, and this child, which is configured, has none.
abbrev pub lacks_child : SwanAst → SwanAst → String → String → Bool
lacks_child conns sas c ch = is_configured conns c ch && declares sas c && not (is_up sas c ch)

-- The connection is configured and has no association.
abbrev pub lacks_conn : SwanAst → SwanAst → String → Bool
lacks_conn conns sas c = declares conns c && not (declares sas c)

any-reports :
    (fs : List FailureInfo) (c ch : String)
    → any (λ (f : FailureInfo). f.connection == c && (f.child == ch || f.child == "")) fs
      ≡ (reports fs c ch || reports fs c "")
unfolding any
any-reports [] c ch = refl
any-reports (f ∷ fs) c ch = ground (arith, any-reports fs c ch)

module _ (unmarshal_name : String → Option String)
    (unmarshal_child : String → Option RestartConnectionChildRequest) (conns sas : SwanAst)
    (swanctl : List String → Bool) where
  -- For a request that decodes, and listings that both succeed, `RestartConnectionChild` calls
  -- swanctl exactly if the connection is configured and has no association, or it has one and the
  -- child is configured and has none (or a child with the empty name has none).
  pub restart_connection_child_lem :
      (body : String) (q : RestartConnectionChildRequest)
      → unmarshal_child body ≡ some q
      → is_some
          (restart_connection_child unmarshal_name unmarshal_child
            (some conns)
            (some sas)
            swanctl
            (some body)).initiated
        ≡ (lacks_conn conns sas q.connection_name
            || lacks_child conns sas q.connection_name q.child_name
            || lacks_child conns sas q.connection_name "")
  unfolding restart_connection_child restart_if list_failed initiate
  restart_connection_child_lem body q e = ground (
    arith,
    e,
    any-reports (check_status conns sas) q.connection_name q.child_name,
    check_status_lem conns sas q.connection_name q.child_name,
    check_status_lem conns sas q.connection_name "",
    eq_iff "" "",
  )

  -- Likewise `RestartConnection` calls swanctl exactly if the connection is configured and has no
  -- association, or a child with the empty name has none.
  pub restart_connection_lem :
      (body name : String)
      → unmarshal_name body ≡ some name
      → is_some
          (restart_connection unmarshal_name unmarshal_child
            (some conns)
            (some sas)
            swanctl
            (some body)).initiated
        ≡ (lacks_conn conns sas name || lacks_child conns sas name "")
  unfolding restart_connection restart_if list_failed initiate
  restart_connection_lem body name e =
      ground (arith, e, check_status_lem conns sas name "", eq_iff "" "")
