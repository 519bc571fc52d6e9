-- ===== src/Controller/Create.antt =====
-- How a pod is made: `CreateK8sPodMeta` of internal/controller/state.go, `ApplySpec` of
-- charon_pod.go, restctl_pod.go and xfrm_pod.go, and `createPodFromSpec` of actions.go.
pub mod RoundTrip
pub mod Settles
use ipman.Prelude.{
  String, ◌==◌, Bool, true, false, List, [], ◌∷◌, none, some, Map, elems, insert, if◌then◌else◌,
}
use ipman.Controller.State.{IpmanPod, CharonPodSpec, RestctlPodSpec, XfrmPodSpec}
use ipman.Controller.Action.{AnyPod, charon, restctl, xfrm}
use ipman.Controller.CorePod.{
  CorePod, Volume, group_key, group_namespace_key, spec_key, socket_volume, charon_container,
  restctl_container, xfrm_container,
}

-- The fields that the modelled functions read.
pub record Envs : Type 0 where
  pub namespace_name : String
  pub host_sockets_path : String
  pub xfrminion_image : String
  pub xfrminion_pull_policy : String
  pub xfrminjector_image : String
  pub xfrminjector_pull_policy : String
  pub charon_daemon_image : String
  pub charon_daemon_pull_policy : String
  pub restctl_image : String
  pub restctl_pull_policy : String
  pub caddy_image : String
  pub is_monitoring_enabled : Bool
  pub service_account_name : String

-- json.Marshal at the three types of specification.
pub record Marshal : Type 0 where
  pub charon : CharonPodSpec → String
  pub restctl : RestctlPodSpec → String
  pub xfrm : XfrmPodSpec → String

abbrev pub type_key : String
type_key = "ipman.dialo.ai/type"

abbrev host_name_key : String
host_name_key = "kubernetes.io/hostname"

-- maps.Copy(dst, src)
unfoldable pub copy_map : Map String → Map String → Map String
unfolding insert
copy_map dst [] = dst
copy_map dst ((k, v) ∷ src) = copy_map (insert k v dst) src

-- The fields that are not set have Go's zero values.
unfoldable pub pod_meta : {S : Type 0} → String → String → IpmanPod S → CorePod
unfolding copy_map
pod_meta type_label spec_json p = record {
  name = p.meta.name;
  namespace = p.meta.namespace;
  labels =
      (type_key, type_label)
      ∷ (group_key, p.group.name)
      ∷ (group_namespace_key, p.group.namespace)
      ∷ [];
  annotations = some (copy_map ((spec_key, spec_json) ∷ []) (elems p.annotations));
  node_selector = if p.meta.node_name == "" then [] else (host_name_key, p.meta.node_name) ∷ [];
  node_name = "";
  pod_ip = "";
  host_network = false;
  host_pid = false;
  restart_policy = "";
  service_account_name = "";
  volumes = [];
  containers = [];
}

unfoldable pub create_k8s_pod_meta : Marshal → AnyPod → CorePod
unfolding pod_meta
create_k8s_pod_meta m (charon p) = pod_meta "charon" (m.charon p.spec) p
create_k8s_pod_meta m (restctl p) = pod_meta "restctl" (m.restctl p.spec) p
create_k8s_pod_meta m (xfrm p) = pod_meta "xfrm" (m.xfrm p.spec) p

abbrev pub charon_socket_volume : String → Volume
charon_socket_volume host_path = record { name = socket_volume; host_path = some host_path }

unfoldable pub apply_charon : CharonPodSpec → CorePod → Envs → CorePod
apply_charon s p e = record p {
  volumes =
      charon_socket_volume s.host_path ∷ record { name = "charon-conf"; host_path = none } ∷ [];
  containers =
      record {
        name = charon_container;
        image = e.charon_daemon_image;
        pull_policy = e.charon_daemon_pull_policy;
      }
      ∷ [];
  host_network = s.host_network;
  host_pid = true;
  restart_policy = "Never";
}

unfoldable pub apply_restctl : RestctlPodSpec → CorePod → Envs → CorePod
apply_restctl s p e = record p {
  volumes = charon_socket_volume s.host_path ∷ [];
  host_pid = true;
  service_account_name = e.service_account_name;
  containers =
      record {
        name = restctl_container;
        image = e.restctl_image;
        pull_policy = e.restctl_pull_policy;
      }
      ∷ [];
}

unfoldable pub apply_xfrm : XfrmPodSpec → CorePod → Envs → CorePod
apply_xfrm s p e = record p {
  containers =
      record {
        name = xfrm_container;
        image = e.xfrminion_image;
        pull_policy = e.xfrminion_pull_policy;
      }
      ∷ [];
  restart_policy = "Never";
  host_pid = true;
}

unfoldable pub apply_spec : AnyPod → CorePod → Envs → CorePod
unfolding apply_charon apply_restctl apply_xfrm
apply_spec (charon p) = apply_charon p.spec
apply_spec (restctl p) = apply_restctl p.spec
apply_spec (xfrm p) = apply_xfrm p.spec

unfoldable pub create_pod_from_spec : Marshal → Envs → AnyPod → CorePod
unfolding create_k8s_pod_meta apply_spec
create_pod_from_spec m e p = apply_spec p (create_k8s_pod_meta m p) e
