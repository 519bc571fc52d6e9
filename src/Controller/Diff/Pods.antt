-- ===== src/Controller/Diff/Pods.antt =====
-- `comparePods`, `diffImmutablePod`, `diffCharon`, `deleteNode`, `FindPod`, `FindXfrms` and
-- `findGroup` of internal/controller/ipman_controller.go.
pub mod Settles
use ipman.Prelude.{
  ◌==◌, Bool, true, false, not, ◌&&◌, ◌||◌, List, [], ◌∷◌, ◌++◌, Option, none, some, first,
  delete_func, if◌then◌else◌,
}
use ipman.Api.{CharonGroupRef}
use ipman.Controller.State.{
  PodMeta, IpmanPod, CharonPodSpec, XfrmPod, IpSecConnectionState, GroupState, ClusterState,
}
use ipman.Controller.Action.{Action, AnyPod, create_pod, delete_pod, charon, restctl, xfrm}

unfoldable pub same_meta : PodMeta → PodMeta → Bool
same_meta a b = a.name == b.name && a.namespace == b.namespace && a.node_name == b.node_name

-- Two equal pointers are both nil or give pods with the same metadata.
unfoldable pub compare_pods : {S : Type 0} → Option (IpmanPod S) → Option (IpmanPod S) → Bool
unfolding same_meta
compare_pods none none = true
compare_pods none (some c) = false
compare_pods (some d) none = false
compare_pods (some d) (some c) = same_meta d.meta c.meta

abbrev replace_pod :
    {S : Type 0} → (IpmanPod S → AnyPod) → Option (IpmanPod S) → Option (IpmanPod S) → List Action
replace_pod wrap none none = []
replace_pod wrap none (some c) = delete_pod (wrap c) ∷ []
replace_pod wrap (some d) none = create_pod (wrap d) ∷ []
replace_pod wrap (some d) (some c) = delete_pod (wrap c) ∷ create_pod (wrap d) ∷ []

-- `wrap` says which instance of the generic actions is built.
unfoldable pub diff_immutable_pod :
    {S : Type 0} → (IpmanPod S → AnyPod) → Option (IpmanPod S) → Option (IpmanPod S) → List Action
unfolding compare_pods
diff_immutable_pod wrap desired current =
    if compare_pods desired current then [] else replace_pod wrap desired current

unfoldable pub diff_charon :
    Option (IpmanPod CharonPodSpec) → Option (IpmanPod CharonPodSpec) → List Action
unfolding diff_immutable_pod
diff_charon = diff_immutable_pod charon

unfoldable pub delete_xfrms : List XfrmPod → List Action
delete_xfrms [] = []
delete_xfrms (x ∷ xs) = delete_pod (xfrm x) ∷ delete_xfrms xs

abbrev delete_one : {S : Type 0} → (IpmanPod S → AnyPod) → Option (IpmanPod S) → List Action
delete_one wrap none = []
delete_one wrap (some p) = delete_pod (wrap p) ∷ []

unfoldable pub delete_node : GroupState → List Action
unfolding delete_xfrms
delete_node ns =
    delete_one charon ns.charon ++ (delete_one restctl ns.proxy ++ delete_xfrms ns.xfrms)

-- FindPod compares the pod's namespace with itself.
unfoldable pub find_pod : {S : Type 0} → List (IpmanPod S) → CharonGroupRef → Option (IpmanPod S)
unfolding first
find_pod {S} ps gr =
    first (λ (p : IpmanPod S). p.group.name == gr.name && p.group.namespace == p.group.namespace) ps

unfoldable pub find_xfrms : List XfrmPod → CharonGroupRef → List XfrmPod
unfolding delete_func
find_xfrms ps gr =
    delete_func
      (λ (p : XfrmPod). not (p.group.name == gr.name) || not (p.group.namespace == gr.namespace)) ps

unfoldable pub find_ip_secs : List IpSecConnectionState → CharonGroupRef → List IpSecConnectionState
unfolding delete_func
find_ip_secs cs gr =
    delete_func
      (λ (c : IpSecConnectionState).
        not (c.group.name == gr.name) || not (c.group.namespace == gr.namespace))
      cs

-- `findGroup` returns an index, by which its callers read the group.
unfoldable pub find_group : CharonGroupRef → ClusterState → Option GroupState
unfolding first
find_group ref s =
    first
      (λ (g : GroupState). g.group_ref.name == ref.name && g.group_ref.namespace == ref.namespace)
      s.groups
