-- ===== src/Controller/Observed.antt =====
-- `GetClusterIPSecs` and `GetClusterState` of internal/controller/ipman_controller.go. What the API
-- server answers in one run of the reconciler is a record.
pub mod Fixpoint
use ipman.Prelude.{String, Bool, true, false, List, [], ◌∷◌, map, sort_by, if◌then◌else◌}
use ipman.Errors.{Try, done, fails, panics, request_error, as_request, is_not_found, ◌>>=◌}
use ipman.Api.{IpSecConnection, CharonGroup}
use ipman.Controller.State.{
  IpmanPod, CharonPodSpec, RestctlPodSpec, XfrmPodSpec, XfrmPod, IpSecConnectionState, GroupState,
  ClusterState,
}
use ipman.Controller.CorePod.{
  CorePod, charon_from_pod, restctl_from_pod, xfrm_from_pod, get_cluster_pods_as,
}
use ipman.Controller.Create.{Envs}
use ipman.Controller.Desired.{ref_of, sort_pods}
use ipman.Controller.Diff.Pods.{find_pod, find_xfrms, find_ip_secs}
use ipman.Controller.Diff.IpSecs.{cluster_ip_secs}

-- The answers to the list calls, the pods by their type label, and to the get call of the monitor.
pub record Answers : Type 0 where
  pub groups : Try (List CharonGroup)
  pub conns : Try (List IpSecConnection)
  pub pods : Try (List CorePod)
  pub charons : Try (List CorePod)
  pub restctls : Try (List CorePod)
  pub xfrms : Try (List CorePod)
  pub pod_monitor : Try (Unit {0})

-- GetClusterIPSecs
unfoldable pub get_cluster_ip_secs : Try (List IpSecConnection) → Try (List IpSecConnectionState)
unfolding cluster_ip_secs
get_cluster_ip_secs listed = do conns ← listed; done (cluster_ip_secs conns)

abbrev monitor_answer : Try (Unit {0}) → Try Bool
monitor_answer (done u) = done true
monitor_answer (fails e) =
    if is_not_found e then done false else fails (request_error "Get" "PodMonitor" e)
monitor_answer panics = panics

-- The monitor is asked for only if monitoring is enabled.
unfoldable pub get_monitor : Envs → Try (Unit {0}) → Try Bool
unfolding is_not_found
get_monitor e answer = if e.is_monitoring_enabled then monitor_answer answer else done false

-- One round of the loop over the groups.
unfoldable pub observed_group :
    List (IpmanPod CharonPodSpec)
    → List (IpmanPod RestctlPodSpec)
    → List XfrmPod
    → List IpSecConnectionState
    → CharonGroup
    → GroupState
unfolding find_pod find_xfrms find_ip_secs
observed_group charons proxies xfrms ip_secs g = record {
  charon = find_pod charons (ref_of g);
  proxy = find_pod proxies (ref_of g);
  xfrms = find_xfrms xfrms (ref_of g);
  group_ref = ref_of g;
  ip_secs = find_ip_secs ip_secs (ref_of g);
}

unfoldable pub get_cluster_state : Envs → (String → XfrmPodSpec) → Answers → Try ClusterState
unfolding get_monitor get_cluster_pods_as charon_from_pod restctl_from_pod xfrm_from_pod
    get_cluster_ip_secs observed_group sort_by
get_cluster_state e unmarshal a = do
  groups ← as_request "List" "CharonGroups" a.groups
  pod_monitor ← get_monitor e a.pod_monitor
  charons ← get_cluster_pods_as charon_from_pod a.charons
  proxies ← get_cluster_pods_as restctl_from_pod a.restctls
  xfrms ← get_cluster_pods_as (xfrm_from_pod unmarshal) a.xfrms
  ip_secs ← get_cluster_ip_secs a.conns
  done (record {
    groups = map (observed_group charons proxies (sort_pods xfrms) ip_secs) groups;
    pod_monitor = pod_monitor;
  })
