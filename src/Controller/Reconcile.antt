-- ===== src/Controller/Reconcile.antt =====
-- `Reconcile` and `res` of internal/controller/ipman_controller.go. Parameters: what carries out
-- an action, on a state of the cluster that is left open, and what the API server answers.
pub mod Outcomes
use ipman.Prelude.{
  ℕ, ◌*◌, String, ◌==◌, Bool, true, false, not, ltb, List, [], ◌∷◌, ◌++◌, Option, none, some, Slice,
  GoMap, if◌then◌else◌,
}
use ipman.Errors.{
  GoError, Try, done, fails, panics, message, wrapped, as_wrapped, is_not_found, is_restart_error,
  ◌>>=◌,
}
use ipman.Api.{ℤ, pos, IpSecConnection}
use ipman.Controller.State.{XfrmPodSpec, ClusterState}
use ipman.Controller.Action.{Action}
use ipman.Controller.CorePod.{CorePod}
use ipman.Controller.Create.{Envs}
use ipman.Controller.Desired.{create_desired_state}
use ipman.Controller.Observed.{Answers, get_cluster_state}
use ipman.Controller.Status.{StatusResult, update_with_retries, last_error}
use ipman.Controller.FreeIps.{second, int_lt}
use ipman.Controller.Diff.Routes.{Change}
use ipman.Controller.Diff.Proxy.{Tracked}
use ipman.Controller.Diff.States.{DeepEqual, diff_states}

abbrev pub minute : ℕ
minute = second * 60

abbrev lesser : ℤ → ℤ → ℤ
lesser a b = if int_lt b a then b else a

-- slices.Min, of a list and one element more
unfoldable pub min_of : ℤ → List ℤ → ℤ
unfolding int_lt
min_of a [] = a
min_of a (b ∷ bs) = min_of (lesser a b) bs

-- res
unfoldable pub res : Option ℤ → List ℤ → ℤ
unfolding min_of
res none [] = pos minute
res none (t ∷ ts) = min_of t ts
res (some rq) times = min_of rq times

-- The result of Reconcile: the delay that it asks for, which controller-runtime takes for none unless
-- it is positive, or the error; with the names that the
-- reconciler keeps, which are left open after an error.
abbrev pub Outcome : Type 0
Outcome = Try (ℤ × Tracked)

abbrev is_empty : List String → Bool
is_empty [] = true
is_empty (x ∷ xs) = false

-- The end of Reconcile.
unfoldable pub finish : Option ℤ → Tracked → Outcome
unfolding res
finish rq st =
    if is_empty st.not_loaded_conns
    then done (res rq [], st)
    else done (res rq (pos (second * 3) ∷ []), st)

-- The answer to the get call of the request's pod: whether Reconcile ends with it.
unfoldable pub check_pod : Try CorePod → Option (Try ℤ)
unfolding is_not_found
check_pod (done p) = if p.pod_ip == "" then some (done (pos second)) else none
check_pod (fails e) = if is_not_found e then none else some (fails e)
check_pod panics = none

module _ {W : Type 0} (perform : Action → W → W × Option GoError) where
  -- The loop over the actions.
  unfoldable pub do_actions : List Action → W → W × Option GoError
  do_actions [] w = (w, none)
  do_actions (a ∷ rest) w =
      let (w2, err) = perform a w in
      elim err [
        | none ↦ do_actions rest w2
        | some e ↦ elim (is_restart_error e) [ true ↦ do_actions rest w2 | false ↦ (w2, some e) ]
      ]

  -- The loop over the actions, and the end, unless an error came before.
  unfoldable pub act : Option ℤ → Try (List Action × Tracked) → W → W × Outcome
  unfolding do_actions finish
  act rq (fails err) w = (w, fails err)
  act rq panics w = (w, panics)
  act rq (done (acts, st)) w =
      let (w2, err) = do_actions acts w in
      elim err [ none ↦ (w2, finish rq st) | some e ↦ (w2, fails e) ]

module _ (e : Envs) (unmarshal : String → XfrmPodSpec) (deep_equal : DeepEqual)
    (diff_slices : Slice String → Slice String → List Change)
    (diff_maps : GoMap String → GoMap String → List Change)
    (configs : String → Option (List String)) where
  abbrev or_compare_error : Option (List Action × Tracked) → Try (List Action × Tracked)
  or_compare_error none = fails (message "Error comparing states")
  or_compare_error (some r) = done r

  -- From GetClusterState to DiffStates; `listed` answers the last list call.
  unfoldable pub plan : Answers → Try (List IpSecConnection) → Tracked → Try (List Action × Tracked)
  unfolding get_cluster_state create_desired_state diff_states
  plan a listed st = do
    current ← get_cluster_state e unmarshal a
    desired ← create_desired_state e a.groups a.pods a.conns
    cl ← as_wrapped "Couldn't list IPSecConnections" listed
    or_compare_error (diff_states deep_equal diff_slices diff_maps configs desired current cl st)

  module _ {W : Type 0} (perform : Action → W → W × Option GoError) where
    -- The part behind the loop of status updates; another error than the last try's is dropped.
    unfoldable pub after_status :
        StatusResult × ℕ → Answers → Try (List IpSecConnection) → Tracked → W → W × Outcome
    unfolding last_error plan act
    after_status (r, ctr) a listed st w = elim (last_error (r, ctr)) [
      | some err ↦ (w, fails (wrapped "Error updating status after 5 tries" err))
      | none ↦ act perform r.requeue (plan a listed st) w
    ]

    unfoldable pub reconcile :
        Try CorePod
        → (ℕ → StatusResult)
        → Answers
        → Try (List IpSecConnection)
        → Tracked
        → W
        → W × Outcome
    unfolding check_pod update_with_retries after_status
    reconcile pod attempt a listed st w = elim (check_pod pod) [
      | some (done rq) ↦ (w, done (rq, st))
      | some (fails err) ↦ (w, fails err)
      | some panics ↦ (w, panics)
      | none ↦ after_status (update_with_retries attempt) a listed st w
    ]
