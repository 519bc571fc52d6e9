-- ===== src/Controller/Workers/Exact.antt =====
-- What CreateWorkers collects for a child of a connection.
use ipman.Prelude.{
  String, ◌==◌, ◌≡◌, Bool, not, ◌&&◌, List, [], ◌∷◌, ◌++◌, lookup, get_or, insert, lookup-insert,
  keep, map, eq_iff, arith, if◌then◌else◌, sym,
}
use mathlib.Core.List.{append_assoc, append-nil}
use ipman.Kube.{ipman_name_key}
use ipman.Controller.CorePod.{CorePod}
use ipman.Controller.Workers.{
  Workers, worker_key, pod_label, pod_annotation, worker_from_pod, workers_at, add_worker,
  collect_workers,
}

-- The pod has an address, and names the connection and the child.
abbrev pub is_worker_of : String → String → CorePod → Bool
is_worker_of conn child p =
    not (p.pod_ip == "")
    && pod_annotation p ipman_name_key == conn
    && pod_label p worker_key == child

lookup_workers :
    (conn child : String) (p : CorePod) (ws : Workers) (con chn : String)
    → get_or [] (
        lookup child (
          get_or [] (
            lookup conn (
              insert con
                (insert chn
                  (get_or [] (lookup chn (get_or [] (lookup con ws))) ++ worker_from_pod p ∷ [])
                  (get_or [] (lookup con ws)))
                ws))))
      ≡ (if con == conn && chn == child
          then get_or [] (lookup child (get_or [] (lookup conn ws))) ++ worker_from_pod p ∷ []
          else get_or [] (lookup child (get_or [] (lookup conn ws))))
lookup_workers conn child p ws con chn = ground (
  arith,
  lookup-insert con conn
      (insert chn (get_or [] (lookup chn (get_or [] (lookup con ws))) ++ worker_from_pod p ∷ [])
        (get_or [] (lookup con ws)))
      ws,
  lookup-insert chn child
      (get_or [] (lookup chn (get_or [] (lookup con ws))) ++ worker_from_pod p ∷ [])
      (get_or [] (lookup con ws)),
  eq_iff con conn,
  eq_iff chn child,
)

workers_at-add_worker :
    (conn child : String) (p : CorePod) (ws : Workers)
    → workers_at (add_worker p ws) conn child ≡ (
        if pod_annotation p ipman_name_key == conn && pod_label p worker_key == child
        then workers_at ws conn child ++ worker_from_pod p ∷ []
        else workers_at ws conn child)
unfolding workers_at add_worker
workers_at-add_worker conn child p ws =
    lookup_workers conn child p ws (pod_annotation p ipman_name_key) (pod_label p worker_key)

workers_at-collect_workers :
    (conn child : String) (ps : List CorePod) (ws : Workers)
    → workers_at (collect_workers ps ws) conn child
      ≡ workers_at ws conn child ++ map worker_from_pod (keep (is_worker_of conn child) ps)
unfolding collect_workers keep
workers_at-collect_workers conn child [] ws = sym (append-nil (workers_at ws conn child))
workers_at-collect_workers conn child (p ∷ ps) ws = ground (
  arith,
  workers_at-collect_workers conn child ps ws,
  workers_at-collect_workers conn child ps (add_worker p ws),
  workers_at-add_worker conn child p ws,
  append_assoc (workers_at ws conn child) (worker_from_pod p ∷ [])
      (map worker_from_pod (keep (is_worker_of conn child) ps)),
)

-- For a child of a connection CreateWorkers collects the pods with an address that name both, in
-- the order of the list.
pub collect_workers_exact :
    (conn child : String) (ps : List CorePod)
    → workers_at (collect_workers ps []) conn child
      ≡ map worker_from_pod (keep (is_worker_of conn child) ps)
unfolding workers_at lookup
collect_workers_exact conn child ps = workers_at-collect_workers conn child ps []
