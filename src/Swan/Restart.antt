-- ===== src/Swan/Restart.antt =====
-- `RestartConnection` and `RestartConnectionChild` of cmd/restctl/main.go. Parameters: the request's
-- decoder, the two listings of swanctl and the success of `swanctl --initiate`.
pub mod Initiates
use ipman.Prelude.{
  String, ◌==◌, Bool, true, false, ◌&&◌, ◌||◌, List, [], ◌∷◌, Option, none, some, any,
  if◌then◌else◌, ℕ,
}
use ipman.Swan.Ast.{SwanAst}
use ipman.Swan.Status.{FailureInfo, check_status}

-- The reply, and the arguments of the call of swanctl, if there was one.
pub record Restarted : Type 0 where
  pub status : ℕ
  pub body : String
  pub initiated : Option (List String)

pub record RestartConnectionChildRequest : Type 0 where
  pub connection_name : String
  pub child_name : String

-- listFailedConnections: both listings, or an error.
unfoldable pub list_failed : Option SwanAst → Option SwanAst → Option (List FailureInfo)
unfolding check_status
list_failed none sas = none
list_failed (some conns) none = none
list_failed (some conns) (some sas) = some (check_status conns sas)

abbrev bad_request : Restarted
bad_request = record { status = 400; body = "\"Bad Request\"\n"; initiated = none }

-- The call of swanctl with these arguments.
unfoldable pub initiate : (List String → Bool) → List String → Restarted
initiate swanctl args =
    if swanctl args
    then record { status = 200; body = "\"OK\"\n"; initiated = some args }
    else record { status = 500; body = "\"Action failed\"\n"; initiated = some args }

-- What both handlers do with the failures, the test for a failure and swanctl's arguments.
unfoldable pub restart_if :
    (List String → Bool)
    → Option (List FailureInfo)
    → (FailureInfo → Bool)
    → List String
    → Restarted
unfolding initiate any
restart_if swanctl none test args = record {
  status = 500;
  body = "\"Action failed\"\n";
  initiated = none;
}
restart_if swanctl (some failures) test args =
    if any test failures
    then initiate swanctl args
    else record { status = 200; body = "\"OK\"\n"; initiated = none }

module _ (unmarshal_name : String → Option String)
    (unmarshal_child : String → Option RestartConnectionChildRequest)
    (list_conns list_sas : Option SwanAst) (swanctl : List String → Bool) where
  -- `none` is a body that cannot be read.
  unfoldable pub restart_connection : Option String → Restarted
  unfolding list_failed restart_if
  restart_connection none = bad_request
  restart_connection (some body) = elim (unmarshal_name body) [
    | none ↦ bad_request
    | some name ↦
        restart_if swanctl (list_failed list_conns list_sas)
          (λ (f : FailureInfo). f.connection == name && f.child == "")
          ("--initiate" ∷ "--ike" ∷ name ∷ "--timeout" ∷ "3" ∷ [])
  ]

  unfoldable pub restart_connection_child : Option String → Restarted
  unfolding list_failed restart_if
  restart_connection_child none = bad_request
  restart_connection_child (some body) = elim (unmarshal_child body) [
    | none ↦ bad_request
    | some request ↦
        restart_if swanctl (list_failed list_conns list_sas)
          (λ (f : FailureInfo).
            f.connection == request.connection_name
            && (f.child == request.child_name || f.child == ""))
          ("--initiate" ∷ "--child" ∷ request.child_name ∷ "--ike" ∷ request.connection_name
            ∷ "--timeout" ∷ "3" ∷ [])
  ]
