-- ===== src/Controller/CorePod.antt =====
-- The pods of Kubernetes, as far as the controller writes and reads them, and the functions of
-- internal/controller/ipman_controller.go that read an IpmanPod off one. Left out: mounts, ports,
-- environment and capabilities of a container, and the type of a host path.
use ipman.Prelude.{
  String, ◌==◌, Bool, List, [], ◌∷◌, Option, none, some, Map, GoMap, elems, lookup, get_or,
  if◌then◌else◌,
}
use ipman.Errors.{Try, done, panics, as_request, ◌>>=◌}
use ipman.Api.{CharonGroupRef}
use ipman.Controller.State.{PodMeta, IpmanPod, CharonPodSpec, RestctlPodSpec, XfrmPodSpec}

pub record Container : Type 0 where
  pub name : String
  pub image : String
  pub pull_policy : String

-- The host path is nil for a volume of another kind.
pub record Volume : Type 0 where
  pub name : String
  pub host_path : Option String

pub record CorePod : Type 0 where
  pub name : String
  pub namespace : String
  pub labels : Map String
  pub annotations : GoMap String
  pub node_selector : Map String
  pub node_name : String
  pub pod_ip : String
  pub host_network : Bool
  pub host_pid : Bool
  pub restart_policy : String
  pub service_account_name : String
  pub volumes : List Volume
  pub containers : List Container

abbrev pub group_key : String
group_key = "ipman.dialo.ai/group"

abbrev pub group_namespace_key : String
group_namespace_key = "ipman.dialo.ai/groupNamespace"

abbrev pub spec_key : String
spec_key = "ipman.dialo.ai/spec"

abbrev pub socket_volume : String
socket_volume = "charon-host-socket"

abbrev pub charon_container : String
charon_container = "charon-daemon"

-- CharonAPIProxyContainerName and RestctlContainerName
abbrev pub restctl_container : String
restctl_container = "restctl"

abbrev pub xfrm_container : String
xfrm_container = "xfrm-container"

-- The last volume of that name that the loop passes.
unfoldable pub find_volume : List Volume → Option Volume → Option Volume
find_volume [] found = found
find_volume (v ∷ vs) found = find_volume vs (if v.name == socket_volume then some v else found)

abbrev host_path_of : Option Volume → Try String
host_path_of none = panics
host_path_of (some v) = elim v.host_path [ none ↦ panics | some path ↦ done path ]

-- ExtractCharonVolumeSocketPath, which reads through nil when there is no such volume.
unfoldable pub extract_socket_path : CorePod → Try String
unfolding find_volume
extract_socket_path p = host_path_of (find_volume p.volumes none)

unfoldable pub find_image : String → List Container → String → String
find_image wanted [] img = img
find_image wanted (c ∷ cs) img = find_image wanted cs (if c.name == wanted then c.image else img)

unfoldable pub extract_container_image : CorePod → String → String
unfolding find_image
extract_container_image p container_name = find_image container_name p.containers ""

abbrev pub meta_of : CorePod → String → PodMeta
meta_of p container_name = record {
  name = p.name;
  namespace = p.namespace;
  ip = p.pod_ip;
  node_name = p.node_name;
  image = extract_container_image p container_name;
}

abbrev pub group_of : CorePod → CharonGroupRef
group_of p = record {
  name = get_or "" (lookup group_key p.labels);
  namespace = get_or "" (lookup group_namespace_key p.labels);
}

unfoldable pub charon_from_pod : CorePod → Try (IpmanPod CharonPodSpec)
unfolding extract_socket_path extract_container_image lookup
charon_from_pod p = do
  path ← extract_socket_path p
  done (record {
    meta = meta_of p charon_container;
    spec = record { host_path = path; host_network = p.host_network };
    annotations = p.annotations;
    group = group_of p;
  })

unfoldable pub restctl_from_pod : CorePod → Try (IpmanPod RestctlPodSpec)
unfolding extract_socket_path extract_container_image lookup
restctl_from_pod p = do
  path ← extract_socket_path p
  done (record {
    meta = meta_of p restctl_container;
    spec = record { host_path = path };
    annotations = none;
    group = group_of p;
  })

-- `unmarshal` gives what json.Unmarshal leaves in a new XfrmPodSpec; its error is only printed.
unfoldable pub xfrm_from_pod : (String → XfrmPodSpec) → CorePod → Try (IpmanPod XfrmPodSpec)
unfolding extract_container_image lookup
xfrm_from_pod unmarshal p = done (record {
  meta = meta_of p xfrm_container;
  spec = unmarshal (get_or "" (lookup spec_key (elems p.annotations)));
  annotations = none;
  group = group_of p;
})

unfoldable pub transform_all :
    {S : Type 0} → (CorePod → Try (IpmanPod S)) → List CorePod → Try (List (IpmanPod S))
transform_all transformer [] = done []
transform_all transformer (p ∷ ps) = do
  first_pod ← transformer p
  rest ← transform_all transformer ps
  done (first_pod ∷ rest)

-- GetClusterPodsAs, from the answer to the list call of GetClusterPodsByType
unfoldable pub get_cluster_pods_as :
    {S : Type 0} → (CorePod → Try (IpmanPod S)) → Try (List CorePod) → Try (List (IpmanPod S))
unfolding transform_all
get_cluster_pods_as transformer listed = do
  ps ← as_request "List" "Pods" listed
  transform_all transformer ps
