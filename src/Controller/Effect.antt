-- ===== src/Controller/Effect.antt =====
-- What the route actions of internal/controller/actions.go do to the routes that the pod's spec
-- annotation records: the last part of each `Do`, from the decoded spec to the one written back, and
-- how far each `Do` gets.
use ipman.Prelude.{
  Option, Bool, true, false, All, inl, inr, if◌then◌else◌, String, ◌==◌, ◌≡◌, refl, List, [], ◌∷◌,
  ◌++◌, none, some, Slice, elems, sort, insert, delete, delete_func,
}
use ipman.Errors.{Try, done, fails, panics, message, Try-cases, ◌>>=◌}
use ipman.Controller.State.{Routes}
use ipman.Controller.Action.{
  Action, xfrm, create_pod, delete_pod, add_local_route, delete_local_route, add_remote_route,
  delete_remote_route, add_bridge_fdb, delete_bridge_fdb,
}

-- slices.Sort(slices.DeleteFunc(rs, …)); a nil slice stays nil.
abbrev pub without_route : String → Slice String → Slice String
without_route r none = none
without_route r (some xs) = some (sort (delete_func (λ x. x == r) xs))

unfoldable pub record_add_local : String → Routes → Routes
record_add_local r rs = record rs { local = some (sort (elems rs.local ++ r ∷ [])) }

unfoldable pub record_delete_local : String → Routes → Routes
record_delete_local r rs = record rs { local = without_route r rs.local }

unfoldable pub record_add_remote : String → Routes → Routes
record_add_remote r rs = record rs { remote = some (sort (elems rs.remote ++ r ∷ [])) }

unfoldable pub record_delete_remote : String → Routes → Routes
record_delete_remote r rs = record rs { remote = without_route r rs.remote }

unfoldable pub record_add_fdb : String → String → Routes → Routes
record_add_fdb k ip rs = record rs { bridge_fdb = some (insert k ip (elems rs.bridge_fdb)) }

unfoldable pub record_delete_fdb : String → Routes → Routes
record_delete_fdb k rs = record rs { bridge_fdb = some (delete k (elems rs.bridge_fdb)) }

-- The recorded routes after one action; the other actions do not write them.
unfoldable pub record_action : Action → Routes → Routes
unfolding record_add_local record_delete_local record_add_remote record_delete_remote record_add_fdb
    record_delete_fdb
record_action (add_local_route r pod) rs = record_add_local r rs
record_action (delete_local_route r pod) rs = record_delete_local r rs
record_action (add_remote_route r pod) rs = record_add_remote r rs
record_action (delete_remote_route r pod) rs = record_delete_remote r rs
record_action (add_bridge_fdb k ip pod) rs = record_add_fdb k ip rs
record_action (delete_bridge_fdb k ip pod) rs = record_delete_fdb k rs
record_action _ rs = rs

unfoldable pub record_actions : List Action → Routes → Routes
unfolding record_action
record_actions [] rs = rs
record_actions (a ∷ rest) rs = record_actions rest (record_action a rs)

-- An xfrm pod: the routes that its annotation records, and those that the pod was told to install.
pub record XfrmRoutes : Type 0 where
  pub recorded : Routes
  pub installed : Routes

-- How far a route action gets: DeleteRemoteRouteAction reads its pod only when the action has no
-- address for it, and then decodes a nil pod; the two bridge actions post to the address that the
-- action has, without waiting for one. What the cluster and the pod answer is success.
unfoldable pub try_action : Action → Try (Unit {0})
try_action (delete_remote_route r pod) = if pod.meta.ip == "" then done tt else panics
try_action (add_bridge_fdb k ip pod) =
    if pod.meta.ip == "" then fails (message "Couldn't send post") else done tt
try_action (delete_bridge_fdb k ip pod) =
    if pod.meta.ip == "" then fails (message "Couldn't send post") else done tt
try_action _ = done tt

abbrev is_route_action : Action → Bool
is_route_action (add_local_route r pod) = true
is_route_action (delete_local_route r pod) = true
is_route_action (add_remote_route r pod) = true
is_route_action (delete_remote_route r pod) = true
is_route_action (add_bridge_fdb k ip pod) = true
is_route_action (delete_bridge_fdb k ip pod) = true
is_route_action _ = false

-- The pod is told what is recorded.
abbrev pub moved : Action → XfrmRoutes → XfrmRoutes
moved a s = record {
  recorded = record_action a s.recorded;
  installed = record_action a s.installed;
}

-- One action on the one xfrm pod that it names; `none` is no pod, for which a route action waits in
-- vain. A new pod records the routes of its specification (CreateK8sPodMeta) and has none
-- installed.
unfoldable pub run_action : Action → Option XfrmRoutes → Try (Option XfrmRoutes)
unfolding record_action try_action
run_action (create_pod (xfrm p)) s = done (
    some (record {
      recorded = p.spec.routes;
      installed = record { local = none; remote = none; bridge_fdb = none };
    }))
run_action (delete_pod (xfrm p)) s = done none
run_action a none =
    if is_route_action a then fails (message "Timeout waiting for pod") else done none
run_action a (some s) = try_action a >>= (λ u. done (some (moved a s)))

unfoldable pub run_actions : List Action → Option XfrmRoutes → Try (Option XfrmRoutes)
unfolding run_action
run_actions [] s = done s
run_actions (a ∷ rest) s = run_action a s >>= (λ s2. run_actions rest s2)

-- The action is carried out on whatever pod there is.
abbrev pub IsAllowed : Action → Type 0
IsAllowed a = (s : XfrmRoutes) → run_action a (some s) ≡ done (some (moved a s))

-- Actions that are carried out record and install what they say.
pub run_actions_allowed :
    (acts : List Action) (s : XfrmRoutes)
    → All IsAllowed acts
    → run_actions acts (some s)
      ≡ done (
          some (record {
            recorded = record_actions acts s.recorded;
            installed = record_actions acts s.installed;
          }))
unfolding run_actions record_actions
run_actions_allowed [] s h = refl
run_actions_allowed (a ∷ acts) s (h, rest) = rw (h s) (run_actions_allowed acts (moved a s) rest)

pub run_actions-append :
    (xs ys : List Action) (s : Option XfrmRoutes)
    → run_actions (xs ++ ys) s ≡ (run_actions xs s >>= (λ s2. run_actions ys s2))
unfolding run_actions
run_actions-append [] ys s = refl
run_actions-append (a ∷ xs) ys s = elim (Try-cases (run_action a s)) [
  | inl (s2, e) ↦ rw e (run_actions-append xs ys s2)
  | inr (inl (err, e)) ↦ rw e refl
  | inr (inr e) ↦ rw e refl
]

pub record_actions-append :
    (xs ys : List Action) (rs : Routes)
    → record_actions (xs ++ ys) rs ≡ record_actions ys (record_actions xs rs)
unfolding record_actions
record_actions-append [] ys rs = refl
record_actions-append (a ∷ xs) ys rs = record_actions-append xs ys (record_action a rs)
