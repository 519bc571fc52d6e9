-- ===== src/Controller/FreeIps.antt =====
-- `updateIPSecConnectionStatus` of internal/controller/ipman_controller.go: the addresses that a
-- pod can be given. Time is in nanoseconds; the clock and `time.Parse` are parameters.
pub mod Exact
use ipman.Prelude.{
  ℕ, ◌+◌, ◌-◌, ◌*◌, ◌^◌, String, Bool, true, false, not, ◌&&◌, ◌||◌, ltb, List, [], ◌∷◌, Option,
  none, some, Map, GoMap, Slice, elems, lookup, get_or, has_key, insert, keys, contains, any, keep,
  if◌then◌else◌, ◌==◌,
}
use ipman.Api.{ℤ, pos, negsuc, Child, IpSecConnection, IpSecConnectionStatus}
use ipman.Kube.{Pod, annotation, child_name_key, vxlan_ip_key}

-- The order of time.Duration
unfoldable pub int_lt : ℤ → ℤ → Bool
int_lt (pos m) (pos n) = ltb m n
int_lt (pos m) (negsuc n) = false
int_lt (negsuc m) (pos n) = true
int_lt (negsuc m) (negsuc n) = ltb n m

-- t.Sub(u), which stops at the bounds of an int64.
unfoldable pub sub_times : ℕ → ℕ → ℤ
sub_times t u =
    if ltb t u
    then negsuc (if ltb (u - t) (2 ^ 63) then u - t - 1 else 2 ^ 63 - 1)
    else pos (if ltb (t - u) (2 ^ 63) then t - u else 2 ^ 63 - 1)

-- status.freeIPs: by child, by pool.
abbrev pub FreeIps : Type 0
FreeIps = Map (GoMap (Slice String))

-- The loop that deletes the children that are gone.
unfoldable pub drop_children : Map Child → FreeIps → FreeIps
unfolding has_key
drop_children children [] = []
drop_children children ((k, v) ∷ m) =
    let rest = drop_children children m in if has_key k children then (k, v) ∷ rest else rest

-- The loop over the pools of a child.
unfoldable pub set_pools : Map (Slice String) → Map (Slice String) → Map (Slice String)
unfolding insert
set_pools [] m = m
set_pools ((pool_name, ips) ∷ pools) m = set_pools pools (insert pool_name ips m)

-- The loop over the children.
unfoldable pub set_children : Map Child → FreeIps → FreeIps
unfolding set_pools insert lookup
set_children [] m = m
set_children ((child_name, c) ∷ cs) m = set_children cs (
    insert child_name
      (some (set_pools (elems c.ip_pools) (elems (get_or none (lookup child_name m))))) m)

-- podsWithAnnotation
unfoldable pub child_pods : Map Child → List Pod → List Pod
unfolding keep contains lookup
child_pods children = keep (λ (p : Pod). contains (keys children) (annotation p child_name_key))

unfoldable pub pod_ips : List Pod → List String
unfolding lookup
pod_ips [] = []
pod_ips (p ∷ ps) = annotation p vxlan_ip_key ∷ pod_ips ps

abbrev pub second : ℕ
second = 1000000000

-- ReconcilerPendingIPsTimeoutSeconds
abbrev pub pending_timeout : ℕ
pending_timeout = second * 35

-- The addresses that are neither pending nor a pod's.
unfoldable pub drop_taken : List String → List String → Map (Slice String) → Map (Slice String)
unfolding keep contains
drop_taken pending used [] = []
drop_taken pending used ((pool_name, ips) ∷ m) =
    (
      pool_name,
      some (keep (λ (ip : String). not (contains pending ip || contains used ip)) (elems ips)),
    )
    ∷ drop_taken pending used m

abbrev pub drop_all : List String → List String → FreeIps → FreeIps
drop_all pending used [] = []
drop_all pending used ((child_name, pools) ∷ m) =
    (child_name, some (drop_taken pending used (elems pools))) ∷ drop_all pending used m

module _ (parse_time : String → Option ℕ) where
  -- The test of maps.DeleteFunc for the pending addresses.
  unfoldable pub is_over : ℕ → List Pod → String → String → Bool
  unfolding any lookup
  is_over now pods ip timestamp = elim (parse_time timestamp) [
    | none ↦ true
    | some ts ↦
        any (λ (p : Pod). annotation p vxlan_ip_key == ip) pods || ltb (ts + pending_timeout) now
  ]

  unfoldable pub drop_pending : ℕ → List Pod → Map String → Map String
  unfolding is_over
  drop_pending now pods [] = []
  drop_pending now pods ((ip, timestamp) ∷ m) =
      let rest = drop_pending now pods m in
      if is_over now pods ip timestamp then rest else (ip, timestamp) ∷ rest

  abbrev pub drop_over : ℕ → List Pod → GoMap String → GoMap String
  drop_over now pods none = none
  drop_over now pods (some m) = some (drop_pending now pods m)

  -- What is written to the connection's status.
  unfoldable pub update_status : ℕ → List Pod → IpSecConnection → IpSecConnection
  unfolding drop_children set_children child_pods pod_ips drop_pending drop_taken keys
  update_status now all_pods conn =
      let children = conn.spec.children in
      let pods = child_pods children all_pods in
      let pending = drop_over now pods conn.status.pending_ips in
      let free = set_children children (drop_children children (elems conn.status.free_ips)) in
      record conn {
        status = record conn.status {
          free_ips = some (drop_all (keys (elems pending)) (pod_ips pods) free);
          pending_ips = pending;
        };
      }

  abbrev sooner : ℤ → Option ℤ → Option ℤ
  sooner d none = some d
  sooner d (some e) = if int_lt e d then some e else some d

  -- The time until the first pending address runs out, which is negative behind it; a malformed
  -- time is Go's zero time. `now` is the clock in this loop, which is read later than that of the
  -- pending addresses.
  unfoldable pub requeue_in : ℕ → Map String → Option ℤ
  unfolding int_lt sub_times
  requeue_in now [] = none
  requeue_in now ((ip, timestamp) ∷ m) =
      sooner (sub_times (get_or 0 (parse_time timestamp) + pending_timeout) now) (requeue_in now m)
