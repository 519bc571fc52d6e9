-- ===== src/Tests/Cluster.antt =====
-- The theorems on the desired and the observed state at concrete inputs.
use ipman.Prelude.{
  ◌==◌, if◌then◌else◌, false, String, ◌≡◌, refl, true, false, not, List, [], ◌∷◌, map, none, some,
  All, In, has_key, keep, any,
}
use ipman.Errors.{done, fails, wrapped}
use ipman.Api.{CharonGroup, Child, IpSecConnection}
use ipman.Controller.State.{XfrmPodSpec, XfrmPod, GroupState, ClusterState}
use ipman.Controller.Action.{charon}
use ipman.Controller.CorePod.{CorePod}
use ipman.Controller.Create.{Envs, Marshal}
use ipman.Controller.Create.Settles.{IsStored}
use ipman.Controller.Workers.{worker_key, worker_from_pod, workers_at, collect_workers}
use ipman.Controller.Workers.Exact.{is_worker_of, collect_workers_exact}
use ipman.Controller.Desired.{
  group_not_found, get_group, ref_of, create_xfrm, sort_pods, group_state, create_cluster_nodes,
  create_desired_state,
}
use ipman.Controller.Desired.Complete.{
  has_group, create_cluster_nodes-In, create_desired_state-fails,
}
use ipman.Controller.Observed.{get_cluster_state}
use ipman.Controller.Observed.Fixpoint.{IsSettled, running_answers, get_cluster_state-IsSettled}
use ipman.Tests.Data.{connection, worker}
use ipman.Tests.Differ.{differ}

abbrev pub envs : Envs
envs = record {
  namespace_name = "ims";
  host_sockets_path = "/run/charon";
  xfrminion_image = "xfrminion";
  xfrminion_pull_policy = "Always";
  xfrminjector_image = "xfrminjector";
  xfrminjector_pull_policy = "Always";
  charon_daemon_image = "charon";
  charon_daemon_pull_policy = "Always";
  restctl_image = "restctl";
  restctl_pull_policy = "Always";
  caddy_image = "caddy";
  is_monitoring_enabled = true;
  service_account_name = "ipman";
}

abbrev pub group : CharonGroup
group = record {
  name = "g";
  namespace = "ipman";
  host_network = true;
  charon_extra_annotations = none;
  node_name = "n1";
  interface_name = none;
}

abbrev worker_pod : CorePod
worker_pod = record {
  name = "w";
  namespace = "default";
  labels = (worker_key, "red") ∷ [];
  annotations = some worker.annotations;
  node_selector = [];
  node_name = "n1";
  pod_ip = "10.0.0.7";
  host_network = false;
  host_pid = false;
  restart_policy = "";
  service_account_name = "";
  volumes = [];
  containers = [];
}

collect_workers_exact_example :
    workers_at (collect_workers (worker_pod ∷ []) []) "office" "red"
    ≡ map worker_from_pod (keep (is_worker_of "office" "red") (worker_pod ∷ []))
collect_workers_exact_example = collect_workers_exact "office" "red" (worker_pod ∷ [])

group_is_listed : All (λ c. has_group (group ∷ []) c ≡ true) (connection ∷ [])
unfolding any
group_is_listed = (refl, tt)

create_cluster_nodes-In_example :
    (states : List GroupState) × (create_cluster_nodes envs
        (done (group ∷ []))
        (done (worker_pod ∷ []))
        (connection ∷ [])
      ≡ done states)
    × ((conn : IpSecConnection) (g : CharonGroup) (k : String) (c : Child)
        → In conn (connection ∷ [])
        → In (k, c) conn.spec.children
        → get_group (done (group ∷ [])) conn.spec.group ≡ done g
        → ref_of g ≡ conn.spec.group
        → (s : GroupState) × In s states
          × (s.group_ref ≡ conn.spec.group)
          × In
              (create_xfrm envs g.node_name conn
                (workers_at (collect_workers (worker_pod ∷ []) []) conn.name c.name)
                c)
              s.xfrms)
create_cluster_nodes-In_example =
    create_cluster_nodes-In envs (group ∷ []) (worker_pod ∷ []) (connection ∷ []) group_is_listed

group_is_missing : any (λ c. not (has_group [] c)) (connection ∷ []) ≡ true
unfolding any
group_is_missing = refl

create_desired_state-fails_example :
    (c : IpSecConnection) × In c (connection ∷ [])
    × (has_group [] c ≡ false)
    × (create_desired_state envs (done []) (done []) (done (connection ∷ []))
        ≡ fails (wrapped "Error creating groups" (group_not_found c.spec.group.name)))
create_desired_state-fails_example =
    create_desired_state-fails envs [] (done []) (connection ∷ []) group_is_missing

-- The two pods' specifications are encoded as their child's name.
abbrev marshal : Marshal
marshal = record {
  charon = λ s. s.host_path;
  restctl = λ s. s.host_path;
  xfrm = λ s. s.props.owner_child;
}

abbrev pod_of : String → String → XfrmPod
pod_of node child = record {
  meta = record { name = child; namespace = "ims"; ip = ""; node_name = node; image = "xfrminion" };
  spec = record {
    routes = record {
      local = some ("10.2.0.0/24" ∷ []);
      remote = none;
      bridge_fdb = some (("10.2.0.5", "10.0.0.5") ∷ []);
    };
    props = record {
      owner_child = child;
      owner_connection = "office";
      interface_id = 7;
      xfrm_ip = "10.1.0.1/24";
      vxlan_ip = "10.2.0.1/24";
    };
  };
  annotations = none;
  group = record { name = "g"; namespace = "ipman" };
}

abbrev pub unmarshal : String → XfrmPodSpec
unmarshal child = (pod_of "n1" child).spec

abbrev pods : List XfrmPod
pods = pod_of "n1" "red" ∷ pod_of "n1" "blue" ∷ []

-- The address of a pod, by its name.
abbrev addresses : String → String
addresses name = if name == "red" then "10.0.0.9" else "10.0.0.8"

pods-IsStored : All (IsStored marshal unmarshal envs addresses) pods
unfolding has_key
pods-IsStored = ((refl, refl, (refl, tt)), ((refl, refl, (refl, tt)), tt))

get_cluster_state-IsSettled_example :
    (state : ClusterState) × (get_cluster_state envs unmarshal (
        running_answers marshal unmarshal envs addresses
          (group ∷ [])
          (connection ∷ [])
          []
          (group ∷ [])
          pods)
      ≡ done state)
    × ((g : CharonGroup)
        → In g (group ∷ [])
        → (have : GroupState) × In have state.groups
          × IsSettled marshal unmarshal envs addresses differ.slices differ.maps
              (group_state envs (group ∷ []) (sort_pods pods) (connection ∷ []) g)
              have)
get_cluster_state-IsSettled_example =
    get_cluster_state-IsSettled marshal unmarshal envs addresses differ.slices differ.maps
      (group ∷ []) (connection ∷ []) [] (group ∷ []) pods pods-IsStored
