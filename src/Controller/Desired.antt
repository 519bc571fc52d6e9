-- ===== src/Controller/Desired.antt =====
-- The state that the connections ask for: `GetGroup`, `CreateCharons`, `CreateRestctls`,
-- `CreateXfrms`, `CreateClusterNodes`, `CreateNodes` and `CreateDesiredState` of
-- internal/controller/ipman_controller.go. What the API server answers to each list call of one
-- run is a parameter, the same for every call of a kind.
pub mod Complete
use Prim.Native.String
use ipman.Prelude.{
  ℕ, String, ◌==◌, Bool, ◌&&◌, List, [], ◌∷◌, ◌++◌, map, Option, none, some, Map, insert, first,
  sort_by, str_le, join, ends_with, if◌then◌else◌,
}
use ipman.Errors.{GoError, Try, done, fails, panics, message, as_request, as_wrapped, ◌>>=◌}
use ipman.Api.{Child, IpSecConnection, CharonGroup, CharonGroupRef, uint32}
use ipman.Controller.State.{
  IpmanPod, CharonPodSpec, RestctlPodSpec, XfrmPod, GroupState, ClusterState,
}
use ipman.Controller.CorePod.{CorePod}
use ipman.Controller.Create.{Envs}
use ipman.Controller.Workers.{Worker, Workers, workers_at, create_workers}
use ipman.Controller.Diff.Pods.{find_pod, find_xfrms, find_ip_secs}
use ipman.Controller.Diff.IpSecs.{create_ip_secs}

abbrev pub group_not_found : String → GoError
group_not_found name = message (String.◌++◌ "Charon group " (String.◌++◌ name " not found"))

abbrev pub or_not_found : String → Option CharonGroup → Try CharonGroup
or_not_found name none = fails (group_not_found name)
or_not_found name (some g) = done g

-- GetGroup, which compares names only.
unfoldable pub get_group : Try (List CharonGroup) → CharonGroupRef → Try CharonGroup
unfolding first
get_group listed gr = do
  gs ← listed
  or_not_found gr.name (first (λ (g : CharonGroup). g.name == gr.name) gs)

abbrev slash_code : ℕ
slash_code = 0x2f

-- The path of a group's sockets, as CreateCharons, CreateRestctls and createXfrmJob spell it.
unfoldable pub full_path : String → CharonGroup → String
unfolding ends_with join
full_path sockets g =
    let path = join (g.name ∷ g.namespace ∷ []) "/" in
    if ends_with slash_code sockets
    then String.◌++◌ sockets path
    else String.◌++◌ sockets (String.◌++◌ "/" path)

abbrev pub ref_of : CharonGroup → CharonGroupRef
ref_of g = record { name = g.name; namespace = g.namespace }

unfoldable pub create_charon : Envs → CharonGroup → IpmanPod CharonPodSpec
unfolding full_path join
create_charon e g = record {
  meta = record {
    name = join ("charon-pod" ∷ g.namespace ∷ g.name ∷ []) "-";
    namespace = e.namespace_name;
    ip = "";
    node_name = g.node_name;
    image = e.charon_daemon_image;
  };
  spec = record { host_path = full_path e.host_sockets_path g; host_network = g.host_network };
  annotations = g.charon_extra_annotations;
  group = ref_of g;
}

unfoldable pub create_charons : Envs → List CharonGroup → List (IpmanPod CharonPodSpec)
unfolding create_charon
create_charons e groups = map (create_charon e) groups

unfoldable pub create_restctl : Envs → CharonGroup → IpmanPod RestctlPodSpec
unfolding full_path join
create_restctl e g = record {
  meta = record {
    name = join ("restctl-pod" ∷ g.namespace ∷ g.name ∷ []) "-";
    namespace = e.namespace_name;
    ip = "";
    node_name = g.node_name;
    image = e.caddy_image;
  };
  spec = record { host_path = full_path e.host_sockets_path g };
  annotations = none;
  group = ref_of g;
}

unfoldable pub create_restctls : Envs → List CharonGroup → List (IpmanPod RestctlPodSpec)
unfolding create_restctl
create_restctls e groups = map (create_restctl e) groups

-- The bridge's entries: by VXLAN address, the last worker's own.
unfoldable pub bridge_of : List Worker → Map String → Map String
unfolding insert
bridge_of [] m = m
bridge_of (w ∷ ws) m = bridge_of ws (insert w.spec.vxlan_ip w.meta.ip m)

unfoldable pub create_xfrm : Envs → String → IpSecConnection → List Worker → Child → XfrmPod
unfolding bridge_of uint32 join
create_xfrm e node_name conn ws c = record {
  meta = record {
    name = join ("xfrm-pod" ∷ c.name ∷ conn.name ∷ []) "-";
    namespace = e.namespace_name;
    ip = "";
    node_name = node_name;
    image = e.xfrminion_image;
  };
  spec = record {
    routes = record {
      local = c.local_ips;
      remote = c.remote_ips;
      bridge_fdb = some (bridge_of ws []);
    };
    props = record {
      owner_child = c.name;
      owner_connection = conn.name;
      interface_id = uint32 c.xfrm_if_id;
      xfrm_ip = c.xfrm_ip;
      vxlan_ip = c.vxlan_ip;
    };
  };
  annotations = none;
  group = conn.spec.group;
}

-- The loop over the children of a connection.
unfoldable pub child_xfrms : Envs → String → IpSecConnection → Workers → Map Child → List XfrmPod
unfolding create_xfrm workers_at
child_xfrms e node_name conn ws [] = []
child_xfrms e node_name conn ws ((k, c) ∷ m) =
    create_xfrm e node_name conn (workers_at ws conn.name c.name) c
    ∷ child_xfrms e node_name conn ws m

-- After an error of GetGroup the loop goes on with a group without a node.
abbrev pub node_of : Try CharonGroup → String
node_of (done g) = g.node_name
node_of (fails e) = ""
node_of panics = ""

unfoldable pub xfrms_of :
    Envs → Try (List CharonGroup) → Workers → List IpSecConnection → List XfrmPod
unfolding child_xfrms get_group
xfrms_of e groups ws [] = []
xfrms_of e groups ws (conn ∷ cl) =
    child_xfrms e (node_of (get_group groups conn.spec.group)) conn ws conn.spec.children
    ++ xfrms_of e groups ws cl

-- CreateXfrms: an error of CreateWorkers gives no pod.
unfoldable pub create_xfrms :
    Envs → Try (List CharonGroup) → Try (List CorePod) → List IpSecConnection → List XfrmPod
unfolding create_workers xfrms_of
create_xfrms e groups pods cl = elim (create_workers pods) [
  | done ws ↦ xfrms_of e groups ws cl
  | fails err ↦ []
  | panics ↦ []
]

-- groups[group.Nsn()] = group
unfoldable pub add_group : CharonGroup → List CharonGroup → List CharonGroup
add_group g [] = g ∷ []
add_group g (h ∷ hs) =
    if h.name == g.name && h.namespace == g.namespace then g ∷ hs else h ∷ add_group g hs

-- The loop of CreateClusterNodes that collects the groups; an error ends it.
unfoldable pub collect_groups :
    Try (List CharonGroup) → List IpSecConnection → List CharonGroup → Try (List CharonGroup)
unfolding get_group add_group
collect_groups listed [] gs = done gs
collect_groups listed (c ∷ cl) gs = do
  g ← get_group listed c.spec.group
  collect_groups listed cl (add_group g gs)

-- sortPods
abbrev pub sort_pods : {S : Type 0} → List (IpmanPod S) → List (IpmanPod S)
sort_pods {S} ps = sort_by (λ (a b : IpmanPod S). str_le a.meta.name b.meta.name) ps

-- One round of the last loop of CreateClusterNodes.
unfoldable pub group_state :
    Envs → List CharonGroup → List XfrmPod → List IpSecConnection → CharonGroup → GroupState
unfolding find_pod find_xfrms find_ip_secs create_charons create_restctls create_ip_secs
group_state e groups xfrms cl g = record {
  charon = find_pod (create_charons e groups) (ref_of g);
  proxy = find_pod (create_restctls e groups) (ref_of g);
  xfrms = find_xfrms xfrms (ref_of g);
  group_ref = ref_of g;
  ip_secs = find_ip_secs (create_ip_secs cl) (ref_of g);
}

unfoldable pub create_cluster_nodes :
    Envs
    → Try (List CharonGroup)
    → Try (List CorePod)
    → List IpSecConnection
    → Try (List GroupState)
unfolding collect_groups create_xfrms group_state sort_by
create_cluster_nodes e listed pods cl = do
  groups ← collect_groups listed cl []
  done (map (group_state e groups (sort_pods (create_xfrms e listed pods cl)) cl) groups)

unfoldable pub create_nodes :
    Envs
    → Try (List CharonGroup)
    → Try (List CorePod)
    → Try (List IpSecConnection)
    → Try (List GroupState)
unfolding create_cluster_nodes sort_by
create_nodes e listed pods conns = do
  cl ← as_request "List" "IPSecConnections" conns
  gs ← create_cluster_nodes e listed pods cl
  done (sort_by (λ (a b : GroupState). str_le a.group_ref.name b.group_ref.name) gs)

unfoldable pub create_desired_state :
    Envs
    → Try (List CharonGroup)
    → Try (List CorePod)
    → Try (List IpSecConnection)
    → Try ClusterState
unfolding create_nodes
create_desired_state e listed pods conns = do
  gs ← as_wrapped "Error creating groups" (create_nodes e listed pods conns)
  done (record { groups = gs; pod_monitor = e.is_monitoring_enabled })
