-- ===== src/Controller/Diff/Routes/Panics.antt =====
-- What becomes of the actions of `diffRoutes` when a remote route is removed.
use ipman.Prelude.{
  String, ◌==◌, ◌≡◌, ◌≢◌, refl, sym, ap, ◌∙◌, true, false, ◌⊎◌, inl, inr, Bool-cases, List, [], ◌∷◌,
  ◌++◌, some, Slice, elems, contains, any, All, In, In-append-left, In-append-right, strings_eq,
  strings_eq_iff, IsDistinct, eq_iff, arith,
}
use ipman.Errors.{panics}
use ipman.Controller.State.{XfrmPod}
use ipman.Controller.Action.{Action, add_remote_route, delete_remote_route}
use ipman.Controller.Effect.{
  XfrmRoutes, record_actions, moved, run_action, run_actions, run_actions-append, IsAllowed,
  run_actions_allowed,
}
use ipman.Controller.Diff.Routes.{
  Any, nil, str, Change, ChangeType, create, delete, update, ok, route_change, route_changes,
  sorted, sort_routes, diff_local, diff_remote, diff_bridge_fdb, diff_routes,
}
use ipman.Controller.Diff.Routes.Laws.{is_str, shaped, IsShaped, removes, DiffLibrary}
use ipman.Controller.Diff.Routes.Converge.{
  IsRoutes, contains-sorted, sorted-IsDistinct, diff_routes-Holds,
}
use ipman.Controller.Diff.Routes.Runs.{bind-ok, ok_eq, route_changes-All, diff_local-IsAllowed}

-- The action is a panic, whatever pod there is.
abbrev IsPanic : Action → Type 0
IsPanic a = (s : XfrmRoutes) → run_action a (some s) ≡ panics

run_actions_panics :
    (acts more : List Action) (a : Action) (s : XfrmRoutes)
    → All (λ b. IsAllowed b ⊎ IsPanic b) acts
    → In a acts
    → IsPanic a
    → run_actions (acts ++ more) (some s) ≡ panics
unfolding run_actions
run_actions_panics [] more a s h i p = absurd i
run_actions_panics (b ∷ acts) more a s (inr q, rest) i p = rw (q s) refl
run_actions_panics (b ∷ acts) more a s (inl ok_b, rest) (inl same) p =
    rw (rw (sym same) at (p s)) refl
run_actions_panics (b ∷ acts) more a s (inl ok_b, rest) (inr i) p =
    rw (ok_b s) (run_actions_panics acts more a (moved b s) rest i p)

module _ (del add : String → Action) where
  route_change-In :
      (kind : ChangeType) (from to : Any) (acts : List Action) (r : String)
      → shaped kind from to ≡ true
      → route_change del add kind from to ≡ ok acts
      → is_str r from ≡ true
      → In (del r) acts
  unfolding route_change
  route_change-In create nil (str b) acts r s h e = cc
  route_change-In delete (str q) nil acts r s h e =
      let same : q ≡ r = ground (arith, e, eq_iff q r) in
      rw (sym (ok_eq (del q ∷ []) acts h)) (inl (ap del same))
  route_change-In update (str q) (str b) acts r s h e =
      let same : q ≡ r = ground (arith, e, eq_iff q r) in
      rw (sym (ok_eq (del q ∷ add b ∷ []) acts h)) (inl (ap del same))
  route_change-In _ _ _ acts r s h e = cc

  route_changes-In :
      (cs : List Change) (acts : List Action) (r : String)
      → IsShaped cs
      → route_changes del add cs ≡ ok acts
      → removes cs r ≡ true
      → In (del r) acts
  unfolding route_changes any
  route_changes-In [] acts r s h e = cc
  route_changes-In (c ∷ cs) acts r s h e =
      let (one, made, h2) = bind-ok (route_change del add c.kind c.from c.to) _ acts h in
      let (rest, rest_made, h3) = bind-ok (route_changes del add cs) _ acts h2 in
      rw (sym (ok_eq (one ++ rest) acts h3)) (elim (Bool-cases (is_str r c.from)) [
        | inl here ↦
            In-append-left (del r) one rest (route_change-In c.kind c.from c.to one r s.0 made here)
        | inr other ↦
            In-append-right (del r) one rest
              (route_changes-In cs rest r s.1 rest_made (ground (arith, e, other)))
      ])

module _ (lib : DiffLibrary) (pod : XfrmPod) (has_ip : (pod.meta.ip == "") ≡ false) where
  delete_remote_route-IsPanic : (r : String) → IsPanic (delete_remote_route r pod)
  unfolding run_action
  delete_remote_route-IsPanic r s = rw has_ip refl

  -- An action for each remote route that goes, and each of them a panic.
  diff_remote-IsPanic :
      (a b : Slice String) (acts : List Action) (v : String)
      → IsDistinct (elems a)
      → IsDistinct (elems b)
      → contains (elems a) v ≡ true
      → contains (elems b) v ≡ false
      → diff_remote lib.slices lib.maps pod a b ≡ ok acts
      → In (delete_remote_route v pod) acts × All (λ c. IsAllowed c ⊎ IsPanic c) acts
  unfolding diff_remote run_action
  diff_remote-IsPanic a b acts v i j old new h = elim (Bool-cases (strings_eq a b)) [
    | inl e ↦
        let same : a ≡ b = (strings_eq_iff a b).0 e in
        let both : contains (elems a) v ≡ false = rw same new in cc
    | inr e ↦
        let law = lib.slices_law a b i j in
        let made = rw (diff_remote, e) at h in
        (
          route_changes-In (λ r. delete_remote_route r pod) (λ r. add_remote_route r pod)
              (lib.slices a b) acts v law.shape made (ground (arith, law.removed v, old, new)),
          route_changes-All (λ c. IsAllowed c ⊎ IsPanic c) (λ r. delete_remote_route r pod)
              (λ r. add_remote_route r pod) (lib.slices a b) acts law.shape made
              (λ r. inl (λ s. refl)) (λ r gone. inr (delete_remote_route-IsPanic r)),
        )
  ]

diff_routes_panics :
    (lib : DiffLibrary) (current desired : XfrmPod) (acts : List Action) (v : String)
    (s : XfrmRoutes)
    → IsRoutes current.spec.routes
    → IsRoutes desired.spec.routes
    → (current.meta.ip == "") ≡ false
    → contains (elems current.spec.routes.remote) v ≡ true
    → contains (elems desired.spec.routes.remote) v ≡ false
    → diff_routes lib.slices lib.maps current desired ≡ ok acts
    → run_actions acts (some s) ≡ panics
unfolding diff_routes sort_routes
diff_routes_panics lib current desired acts v s c d ip old new h =
    let pod = sort_routes current in
    let rs = current.spec.routes in
    let want = desired.spec.routes in
    let (ls, ls_made, h2) =
      bind-ok (diff_local lib.slices lib.maps pod (sorted rs.local) (sorted want.local)) _ acts h in
    let (ms, ms_made, h3) =
      bind-ok (diff_remote lib.slices lib.maps pod (sorted rs.remote) (sorted want.remote)) _ acts
        h2 in
    let (fs, fs_made, h4) =
      bind-ok (diff_bridge_fdb lib.slices lib.maps pod rs.bridge_fdb want.bridge_fdb) _ acts h3 in
    let (there, all) =
      diff_remote-IsPanic lib pod ip (sorted rs.remote) (sorted want.remote) ms v
        (sorted-IsDistinct rs.remote c.remote) (sorted-IsDistinct want.remote d.remote)
        (contains-sorted rs.remote v ∙ old) (contains-sorted want.remote v ∙ new) ms_made in
    let after : XfrmRoutes = record {
      recorded = record_actions ls s.recorded;
      installed = record_actions ls s.installed;
    } in
    rw
      (
        sym (ok_eq (ls ++ (ms ++ fs)) acts h4),
        run_actions-append ls (ms ++ fs) (some s),
        run_actions_allowed ls s (
            diff_local-IsAllowed lib pod ip (sorted rs.local) (sorted want.local) ls
              (sorted-IsDistinct rs.local c.local) (sorted-IsDistinct want.local d.local) ls_made),
      )
      (run_actions_panics ms fs (delete_remote_route v pod) after all there
        (delete_remote_route-IsPanic lib pod ip v))

-- For any current and desired routes without duplicates, any change library with the documented
-- behaviour and a current pod with an address, if a remote route is removed, diffRoutes succeeds,
-- and its actions, all of whose calls the cluster and the pod answer, end in a panic.
pub run_actions-diff_routes_panics :
    (lib : DiffLibrary) (current desired : XfrmPod) (v : String) (s : XfrmRoutes)
    → IsRoutes current.spec.routes
    → IsRoutes desired.spec.routes
    → current.meta.ip ≢ ""
    → contains (elems current.spec.routes.remote) v ≡ true
    → contains (elems desired.spec.routes.remote) v ≡ false
    → (acts : List Action) × (diff_routes lib.slices lib.maps current desired ≡ ok acts)
      × (run_actions acts (some s) ≡ panics)
run_actions-diff_routes_panics lib current desired v s c d ip old new =
    let (acts, made, holds) = diff_routes-Holds lib current desired c d in
    let has_ip : (current.meta.ip == "") ≡ false = ground (arith, ip, eq_iff current.meta.ip "") in
    (acts, made, diff_routes_panics lib current desired acts v s c d has_ip old new made)
