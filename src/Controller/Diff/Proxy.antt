-- ===== src/Controller/Diff/Proxy.antt =====
-- `diffProxy` of internal/controller/ipman_controller.go. Parameter: what restctl's /configs
-- answers, `none` for a request that fails. Left out: the metrics of updateMetric.
pub mod Names
pub mod Loaded
use ipman.Prelude.{
  ℕ, zero, suc, ◌-◌, String, ◌==◌, Bool, true, false, not, ◌&&◌, ◌||◌, List, [], ◌∷◌, ◌++◌, Option,
  none, some, length, get_elem?, any, keep, contains, if◌then◌else◌,
}
use ipman.Api.{IpSecConnection, CharonGroupRef, same_nsn}
use ipman.Controller.State.{IpmanPod, RestctlPodSpec}
use ipman.Controller.Action.{Action, restctl, create_pod, delete_pod, override_config}
use ipman.Controller.Diff.Pods.{compare_pods}

-- The fields of the reconciler that the function writes.
pub record Tracked : Type 0 where
  pub all_conns : List String
  pub not_loaded_conns : List String

abbrev empties : ℕ → List String
empties zero = []
empties (suc n) = "" ∷ empties n

-- What slices.DeleteFunc(xs, func(s) { s == n }) leaves in the array of xs: the rest is moved to the
-- front, and what follows is cleared. The callers keep the old length.
unfoldable pub delete_in_place : String → List String → List String
unfolding keep
delete_in_place n xs =
    let kept = keep (λ (s : String). not (s == n)) xs in kept ++ empties (length xs - length kept)

abbrev pub is_conn : List IpSecConnection → String → Bool
is_conn conns n = any (λ (c : IpSecConnection). c.name == n) conns

-- The loop that adds the names of the connections.
unfoldable pub add_names : List IpSecConnection → List String → List String
unfolding contains
add_names [] names = names
add_names (c ∷ cs) names =
    add_names cs (if contains names c.name then names else names ++ c.name ∷ [])

-- The loop over r.AllConns, which reads the array that it deletes from, index by index.
unfoldable pub prune_names : List IpSecConnection → ℕ → ℕ → List String → List String
unfolding delete_in_place
prune_names conns zero i names = names
prune_names conns (suc n) i names = prune_names conns n (suc i) (elim (get_elem? names i) [
  | none ↦ names
  | some name ↦ if is_conn conns name then names else delete_in_place name names
])

unfoldable pub drop_empty : List String → List String
unfolding keep
drop_empty = keep (λ (s : String). not (s == ""))

unfoldable pub track_all : List IpSecConnection → List String → List String
unfolding add_names prune_names drop_empty
track_all conns names =
    let all = add_names conns names in drop_empty (prune_names conns (length all) 0 all)

-- The loop over the connections of the group, with the flag `allLoaded`.
unfoldable pub track_loaded :
    List IpSecConnection → List String → List String → Bool → List String × Bool
unfolding contains delete_in_place
track_loaded [] loaded missing flag = (missing, flag)
track_loaded (c ∷ cs) loaded missing flag =
    if contains loaded c.name
    then track_loaded cs loaded (delete_in_place c.name missing) flag
    else if contains missing c.name
    then track_loaded cs loaded missing flag
    else track_loaded cs loaded (missing ++ c.name ∷ []) false

-- A loaded connection is not one of the group.
unfoldable pub any_extra : List IpSecConnection → List String → Bool
unfolding any
any_extra conns loaded = any (λ (n : String). not (is_conn conns n)) loaded

-- The last part, once restctl has answered.
unfoldable pub compare_loaded :
    String
    → List IpSecConnection
    → List IpSecConnection
    → List String
    → Tracked
    → List Action × Tracked
unfolding track_all track_loaded any_extra drop_empty
compare_loaded pod_name conns group_conns loaded st =
    let all = track_all conns st.all_conns in
    let (missing, all_loaded) = track_loaded group_conns loaded st.not_loaded_conns true in
    if not all_loaded || any_extra group_conns loaded
    then (
      override_config pod_name group_conns ∷ [],
      record { all_conns = all; not_loaded_conns = missing },
    )
    else ([], record { all_conns = all; not_loaded_conns = drop_empty missing })

abbrev pub of_group : CharonGroupRef → List IpSecConnection → List IpSecConnection
of_group gr = keep (λ (c : IpSecConnection). same_nsn gr c.spec.group)

module _ (configs : String → Option (List String)) where
  unfoldable pub diff_proxy :
      Option (IpmanPod RestctlPodSpec)
      → Option (IpmanPod RestctlPodSpec)
      → List IpSecConnection
      → Tracked
      → Option (List Action × Tracked)
  unfolding compare_loaded compare_pods keep same_nsn
  diff_proxy none none conns st = some ([], st)
  diff_proxy none (some c) conns st = some (delete_pod (restctl c) ∷ [], st)
  diff_proxy (some d) none conns st =
      some (create_pod (restctl d) ∷ override_config d.meta.name (of_group d.group conns) ∷ [], st)
  diff_proxy (some d) (some c) conns st =
      if compare_pods (some d) (some c)
      then elim (configs c.meta.ip) [
        | none ↦ none
        | some loaded ↦ some (compare_loaded c.meta.name conns (of_group d.group conns) loaded st)
      ]
      else some (
        delete_pod (restctl c)
            ∷ create_pod (restctl d)
            ∷ override_config d.meta.name (of_group d.group conns)
            ∷ [],
        st,
      )
