-- ===== src/Controller/Workers.antt =====
-- The worker pods: `workerFromPod`, `hasAnnotations`, `GetWorkersState` and `CreateWorkers` of
-- internal/controller/ipman_controller.go, and the types of state.go.
pub mod Exact
use ipman.Prelude.{
  String, ◌==◌, Bool, not, ◌&&◌, List, [], ◌∷◌, ◌++◌, none, Map, elems, lookup, get_or, insert,
  has_key, if◌then◌else◌,
}
use ipman.Errors.{Try, done, ◌>>=◌}
use ipman.Kube.{child_name_key, ipman_name_key, pool_name_key, vxlan_ip_key}
use ipman.Controller.State.{PodMeta}
use ipman.Controller.CorePod.{CorePod}

pub record WorkerPodSpec : Type 0 where
  pub routes : List String
  pub owner_connection : String
  pub owner_child : String
  pub vxlan_ip : String

pub record Worker : Type 0 where
  pub meta : PodMeta
  pub spec : WorkerPodSpec

abbrev pub worker_key : String
worker_key = "ipman.dialo.ai/worker"

abbrev pub remote_ips_key : String
remote_ips_key = "ipman.dialo.ai/remoteIps"

abbrev pub pod_annotation : CorePod → String → String
pod_annotation p key = get_or "" (lookup key (elems p.annotations))

abbrev pub pod_label : CorePod → String → String
pod_label p key = get_or "" (lookup key p.labels)

unfoldable pub worker_from_pod : CorePod → Worker
unfolding lookup
worker_from_pod p = record {
  meta = record {
    name = p.name;
    namespace = p.namespace;
    ip = p.pod_ip;
    node_name = p.node_name;
    image = "";
  };
  spec = record {
    routes = pod_annotation p remote_ips_key ∷ [];
    owner_connection = pod_annotation p ipman_name_key;
    owner_child = pod_annotation p child_name_key;
    vxlan_ip = pod_annotation p vxlan_ip_key;
  };
}

unfoldable pub has_annotations : CorePod → Bool
unfolding has_key
has_annotations p =
    has_key child_name_key (elems p.annotations)
    && has_key ipman_name_key (elems p.annotations)
    && has_key pool_name_key (elems p.annotations)

-- The loop of GetWorkersState: it ends at the first worker without an address.
unfoldable pub ready_workers : List CorePod → List Worker
unfolding has_annotations worker_from_pod
ready_workers [] = []
ready_workers (p ∷ ps) =
    let rest = ready_workers ps in
    if has_annotations p then (if p.pod_ip == "" then [] else worker_from_pod p ∷ rest) else rest

unfoldable pub get_workers_state : Try (List CorePod) → Try (List Worker)
unfolding ready_workers
get_workers_state listed = do pods ← listed; done (ready_workers pods)

-- By connection, by child.
abbrev pub Workers : Type 0
Workers = Map (Map (List Worker))

-- ws[conn][child]
unfoldable pub workers_at : Workers → String → String → List Worker
unfolding lookup
workers_at ws conn child = get_or [] (lookup child (get_or [] (lookup conn ws)))

-- The last part of the loop of CreateWorkers: the maps are made when they are missing.
unfoldable pub add_worker : CorePod → Workers → Workers
unfolding insert lookup worker_from_pod workers_at
add_worker p ws =
    let pod_chn = pod_label p worker_key in
    let pod_con = pod_annotation p ipman_name_key in
    insert pod_con
      (insert pod_chn (workers_at ws pod_con pod_chn ++ worker_from_pod p ∷ [])
        (get_or [] (lookup pod_con ws)))
      ws

-- The loop of CreateWorkers.
unfoldable pub collect_workers : List CorePod → Workers → Workers
unfolding add_worker
collect_workers [] ws = ws
collect_workers (p ∷ ps) ws = collect_workers ps (if p.pod_ip == "" then ws else add_worker p ws)

-- CreateWorkers, from the answer to its list call, which names no label: the selector is not used.
unfoldable pub create_workers : Try (List CorePod) → Try Workers
unfolding collect_workers
create_workers listed = do pods ← listed; done (collect_workers pods [])
