-- ===== src/Controller/Status.antt =====
-- `updateIPSecConnectionStatus` with its calls of the API server, `UpdateStatus`, and the loop of
-- `Reconcile` that tries it again after a conflict, all of internal/controller/ipman_controller.go.
pub mod Retries
use Prim.Native.String
use ipman.Prelude.{
  ℕ, zero, suc, ◌+◌, String, ◌==◌, Bool, true, false, ◌&&◌, leb, nat_eq, List, [], ◌∷◌, Option,
  none, some, elems, if◌then◌else◌,
}
use ipman.Errors.{GoError, Try, done, fails, panics, wrapped, is_conflict, is_not_found}
use ipman.Api.{ℤ, IpSecConnection, CharonGroup, CharonGroupRef}
use ipman.Kube.{Pod}
use ipman.Controller.FreeIps.{update_status, requeue_in}
use ipman.Controller.Desired.{get_group}

-- What the functions return: the time until the next round, and the error.
pub record StatusResult : Type 0 where
  pub requeue : Option ℤ
  pub error : Option GoError

pub record Node : Type 0 where
  pub host_name : String
  pub machine_id : String

-- The answers of the API server in one call of UpdateStatus, with the two
-- readings of the clock. No answer is a panic:
-- the cases for one are there to cover the type.
pub record StatusAnswers : Type 0 where
  pub now : ℕ
  pub later : ℕ
  pub conns : Try (List IpSecConnection)
  pub pods : Try (List Pod)
  pub nodes : Try (List Node)
  pub groups : Try (List CharonGroup)
  pub restctl_pod : String → Try (Unit {0})
  pub put : IpSecConnection → Option GoError

abbrev pub ends : Option ℤ → Option GoError → StatusResult
ends rq err = record { requeue = rq; error = err }

-- What the answer to the get call of a node's restctl pod ends the loop with, if it does.
abbrev pod_answer : Option ℤ → Try (Unit {0}) → Option StatusResult
pod_answer rq (done u) = none
pod_answer rq (fails e) =
    if is_not_found e
    then some (ends rq none)
    else some (ends none (some (wrapped "Couldn't get charon pod" e)))
pod_answer rq panics = none

-- The loop over the nodes.
unfoldable pub check_nodes : StatusAnswers → CharonGroupRef → Option ℤ → List Node → StatusResult
unfolding get_group is_not_found
check_nodes a ref rq [] = ends rq none
check_nodes a ref rq (n ∷ ns) = elim (get_group a.groups ref) [
  | fails e ↦ ends rq (some e)
  | panics ↦ ends rq none
  | done g ↦ elim (n.host_name == g.node_name) [
    | false ↦ check_nodes a ref rq ns
    | true ↦ elim (pod_answer rq (a.restctl_pod (String.◌++◌ "restctl-pod-" n.machine_id))) [
      | none ↦ check_nodes a ref rq ns
      | some r ↦ r
    ]
  ]
]

module _ (parse_time : String → Option ℕ) (a : StatusAnswers) where
  -- updateIPSecConnectionStatus: the connection with its new status, and what is returned.
  unfoldable pub update_conn_status : IpSecConnection → IpSecConnection × StatusResult
  unfolding update_status requeue_in check_nodes
  update_conn_status conn = elim a.pods [
    | fails e ↦ (conn, ends none (some e))
    | panics ↦ (conn, ends none none)
    | done pods ↦
        let written = update_status parse_time a.now pods conn in
        let rq = requeue_in parse_time a.later (elems written.status.pending_ips) in
        elim a.nodes [
          | fails e ↦ (written, ends rq (some e))
          | panics ↦ (written, ends rq none)
          | done ns ↦ (written, check_nodes a conn.spec.group rq ns)
        ]
  ]

  -- The loop of UpdateStatus, with the connections whose status it writes. Each round replaces the
  -- time of the round before.
  unfoldable pub update_each : List IpSecConnection → Option ℤ → List IpSecConnection × StatusResult
  unfolding update_conn_status
  update_each [] rq = ([], ends rq none)
  update_each (conn ∷ cl) rq =
      let (written, r) = update_conn_status conn in
      elim r.error [
        | some e ↦ ([], r)
        | none ↦ elim (a.put written) [
          | some e ↦ ([], ends r.requeue (some e))
          | none ↦ let (more, last) = update_each cl r.requeue in (written ∷ more, last)
        ]
      ]

  -- UpdateStatus
  unfoldable pub update_all : List IpSecConnection × StatusResult
  unfolding update_each
  update_all = elim a.conns [
    | fails e ↦ ([], ends none (some e))
    | panics ↦ ([], ends none none)
    | done cl ↦ update_each cl none
  ]

abbrev pub update_status_max_retries : ℕ
update_status_max_retries = 5

-- apierrors.IsConflict(err), which is false for nil
unfoldable pub conflicts : StatusResult → Bool
unfolding is_conflict
conflicts r = elim r.error [ none ↦ false | some e ↦ is_conflict e ]

-- The loop of Reconcile; `attempt k` is what the call of UpdateStatus number k returns.
unfoldable pub retry : ℕ → (ℕ → StatusResult) → ℕ → StatusResult → StatusResult × ℕ
unfolding conflicts
retry zero attempt ctr r = (r, ctr)
retry (suc fuel) attempt ctr r =
    let again = retry fuel attempt (ctr + 1) (attempt ctr) in
    if conflicts r && leb ctr update_status_max_retries then again else (r, ctr)

-- The first call and the loop, which makes five rounds at most.
unfoldable pub update_with_retries : (ℕ → StatusResult) → StatusResult × ℕ
unfolding retry
update_with_retries attempt = retry 6 attempt 1 (attempt 0)

-- The error that Reconcile gives up with: only when the counter has passed the last try.
unfoldable pub last_error : StatusResult × ℕ → Option GoError
last_error (r, ctr) = if nat_eq ctr (update_status_max_retries + 1) then r.error else none
