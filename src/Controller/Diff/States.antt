-- ===== src/Controller/Diff/States.antt =====
-- `DiffStates` of internal/controller/ipman_controller.go. Parameters: `reflect.DeepEqual` at the
-- four types of its calls, the library of the route diffs, and restctl's answers to /configs.
use ipman.Prelude.{
  String, Bool, not, ◌&&◌, List, [], ◌∷◌, ◌++◌, Option, none, some, is_some, Slice, GoMap,
  if◌then◌else◌,
}
use ipman.Api.{IpSecConnection}
use ipman.Controller.State.{
  IpmanPod, CharonPodSpec, RestctlPodSpec, XfrmPod, GroupState, ClusterState,
}
use ipman.Controller.Action.{Action, create_monitor, delete_monitor}
use ipman.Controller.Diff.Pods.{diff_charon, delete_node, find_group}
use ipman.Controller.Diff.Routes.{Change}
use ipman.Controller.Diff.Xfrms.{diff_xfrms}
use ipman.Controller.Diff.IpSecs.{diff_ip_secs}
use ipman.Controller.Diff.Proxy.{Tracked, diff_proxy}

pub record DeepEqual : Type 0 where
  pub groups : GroupState → GroupState → Bool
  pub charons : Option (IpmanPod CharonPodSpec) → Option (IpmanPod CharonPodSpec) → Bool
  pub proxies : Option (IpmanPod RestctlPodSpec) → Option (IpmanPod RestctlPodSpec) → Bool
  pub xfrms : List XfrmPod → List XfrmPod → Bool

unfoldable pub diff_monitor : Bool → Bool → List Action
diff_monitor desired current =
    (if desired && not current then create_monitor ∷ [] else [])
    ++ (if not desired && current then delete_monitor ∷ [] else [])

abbrev pub diff_ip_secs_by :
    Option (IpmanPod RestctlPodSpec) → GroupState → GroupState → List Action
diff_ip_secs_by none gs cur = []
diff_ip_secs_by (some proxy) gs cur = diff_ip_secs gs.ip_secs cur.ip_secs proxy.meta.ip

-- The loop over the current groups, which deletes the ones that are not desired.
unfoldable pub delete_groups : ClusterState → List GroupState → List Action
unfolding find_group delete_node
delete_groups desired [] = []
delete_groups desired (g ∷ gs) =
    (if is_some (find_group g.group_ref desired) then [] else delete_node g)
    ++ delete_groups desired gs

module _ (deep_equal : DeepEqual) (diff_slices : Slice String → Slice String → List Change)
    (diff_maps : GoMap String → GoMap String → List Change)
    (configs : String → Option (List String)) where
  -- One desired group against the current one; an error of diffProxy ends the function.
  unfoldable pub diff_group :
      List IpSecConnection → GroupState → GroupState → Tracked → Option (List Action × Tracked)
  unfolding diff_charon diff_proxy diff_xfrms diff_ip_secs
  diff_group conns gs cur st =
      if deep_equal.groups gs cur
      then some ([], st)
      else let charons =
          if deep_equal.charons gs.charon cur.charon
          then []
          else diff_charon gs.charon cur.charon in
        let xfrms =
          if deep_equal.xfrms gs.xfrms cur.xfrms
          then []
          else diff_xfrms diff_slices diff_maps gs.xfrms cur.xfrms in
        let rest = xfrms ++ diff_ip_secs_by cur.proxy gs cur in
        elim (if deep_equal.proxies gs.proxy cur.proxy
          then some ([], st)
          else diff_proxy configs gs.proxy cur.proxy conns st) [
            | none ↦ none
            | some (proxies, st2) ↦ some (charons ++ (proxies ++ rest), st2)
          ]

  -- The loop over the desired groups; one that the cluster has not is passed over.
  unfoldable pub diff_groups :
      List IpSecConnection
      → ClusterState
      → List GroupState
      → Tracked
      → Option (List Action × Tracked)
  unfolding find_group diff_group
  diff_groups conns current [] st = some ([], st)
  diff_groups conns current (g ∷ gs) st = elim (find_group g.group_ref current) [
    | none ↦ diff_groups conns current gs st
    | some cur ↦ elim (diff_group conns g cur st) [
      | none ↦ none
      | some (acts, st2) ↦ elim (diff_groups conns current gs st2) [
        | none ↦ none
        | some (more, st3) ↦ some (acts ++ more, st3)
      ]
    ]
  ]

  unfoldable pub diff_states :
      ClusterState → ClusterState → List IpSecConnection → Tracked → Option (List Action × Tracked)
  unfolding diff_monitor diff_groups delete_groups
  diff_states desired current conns st = elim (diff_groups conns current desired.groups st) [
    | none ↦ none
    | some (acts, st2) ↦ some (
      diff_monitor desired.pod_monitor current.pod_monitor
          ++ (acts ++ delete_groups desired current.groups),
      st2,
    )
  ]
