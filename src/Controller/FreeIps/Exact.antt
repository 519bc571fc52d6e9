-- ===== src/Controller/FreeIps/Exact.antt =====
-- The free addresses of a pool, exactly.
use ipman.Prelude.{
  ℕ, String, ◌==◌, ◌≡◌, refl, ◌∙◌, Bool, false, not, ◌&&◌, ◌||◌, List, [], ◌∷◌, Option, none, some,
  Map, IsMap, GoMap, Slice, elems, lookup, lookup-insert, get_or, has_key, has_key-lookup,
  contains-keys, insert, keys, contains, any, keep, ap, ltb, ◌+◌, inl, inr, Bool-cases, eq_iff,
  arith,
}
use mathlib.Core.Path.{fun_ext}
use ipman.Api.{Child, IpSecConnection}
use ipman.Kube.{Pod, annotation, child_name_key, vxlan_ip_key}
use ipman.Controller.FreeIps.{
  FreeIps, drop_children, set_pools, set_children, child_pods, pod_ips, drop_taken, drop_all,
  drop_over, update_status, is_over, drop_pending, pending_timeout,
}

-- status.freeIPs[child][pool]
abbrev pub pool_of : IpSecConnection → String → String → Option (Slice String)
pool_of c child_name pool_name =
    lookup pool_name (elems (get_or none (lookup child_name (elems c.status.free_ips))))

lookup-set_pools_other :
    (pools m : Map (Slice String)) (pool_name : String)
    → has_key pool_name pools ≡ false
    → lookup pool_name (set_pools pools m) ≡ lookup pool_name m
unfolding set_pools has_key
lookup-set_pools_other [] m p h = refl
lookup-set_pools_other ((k, ips) ∷ pools) m p h =
    ground (arith, lookup-set_pools_other pools (insert k ips m) p, lookup-insert k p ips m)

lookup-set_pools :
    (pools m : Map (Slice String)) (pool_name : String) (ips : Slice String)
    → IsMap pools
    → lookup pool_name pools ≡ some ips
    → lookup pool_name (set_pools pools m) ≡ some ips
unfolding set_pools lookup
lookup-set_pools [] m p ips u h = ground arith
lookup-set_pools ((k, v) ∷ pools) m p ips u h = ground (
  arith,
  eq_iff k p,
  lookup-set_pools_other pools (insert k v m) p,
  lookup-insert k p v m,
  lookup-set_pools pools (insert k v m) p ips,
)

lookup-set_children_other :
    (cs : Map Child) (m : FreeIps) (k : String)
    → has_key k cs ≡ false
    → lookup k (set_children cs m) ≡ lookup k m
unfolding set_children has_key
lookup-set_children_other [] m k h = refl
lookup-set_children_other ((j, c) ∷ cs) m k h =
    let pools = some (set_pools (elems c.ip_pools) (elems (get_or none (lookup j m)))) in
    ground (arith, lookup-set_children_other cs (insert j pools m) k, lookup-insert j k pools m)

lookup-set_children :
    (cs : Map Child) (m : FreeIps) (k : String) (c : Child)
    → IsMap cs
    → lookup k cs ≡ some c
    → lookup k (set_children cs m)
      ≡ some (some (set_pools (elems c.ip_pools) (elems (get_or none (lookup k m)))))
unfolding set_children lookup
lookup-set_children [] m k c u h = ground arith
lookup-set_children ((j, d) ∷ cs) m k c u h =
    let pools = some (set_pools (elems d.ip_pools) (elems (get_or none (lookup j m)))) in
    elim (Bool-cases (j == k)) [
      | inl e ↦
          let same = (eq_iff j k).0 e in
          let other : has_key k cs ≡ false = rw (same) at (u.0) in
          let there : d ≡ c = ground (arith, e) in
          ground (
            arith,
            e,
            same,
            there,
            lookup-set_children_other cs (insert j pools m) k other,
            lookup-insert j k pools m,
          )
      | inr e ↦ ground (
        arith,
        e,
        lookup-insert j k pools m,
        lookup-set_children cs (insert j pools m) k c u.1 (rw (e, lookup) at h),
      )
    ]

-- The test of drop_taken.
abbrev kept : List String → List String → String → Bool
kept pending used = λ ip. not (contains pending ip || contains used ip)

lookup-drop_taken :
    (pending used : List String) (m : Map (Slice String)) (pool_name : String) (ips : Slice String)
    → lookup pool_name m ≡ some ips
    → lookup pool_name (drop_taken pending used m)
      ≡ some (some (keep (kept pending used) (elems ips)))
unfolding drop_taken lookup
lookup-drop_taken pending used [] p ips h = ground arith
lookup-drop_taken pending used ((k, v) ∷ m) p ips h = elim (Bool-cases (k == p)) [
  | inl e ↦
      let there : v ≡ ips = ground (arith, e) in
      rw (e) (ap (λ t. some (some (keep (kept pending used) (elems t)))) there)
  | inr e ↦ rw (e) (lookup-drop_taken pending used m p ips (rw (e, lookup) at h))
]

module _ (parse_time : String → Option ℕ) where
  lookup-drop_all :
      (pending used : List String) (m : FreeIps) (k : String) (pools : GoMap (Slice String))
      → lookup k m ≡ some pools
      → lookup k (drop_all pending used m) ≡ some (some (drop_taken pending used (elems pools)))
  unfolding lookup
  lookup-drop_all pending used [] k pools h = ground arith
  lookup-drop_all pending used ((j, v) ∷ m) k pools h = elim (Bool-cases (j == k)) [
    | inl e ↦
        let there : v ≡ pools = ground (arith, e) in
        rw (e)
          (ap (λ (t : GoMap (Slice String)). some (some (drop_taken pending used (elems t)))) there)
    | inr e ↦ rw (e) (lookup-drop_all pending used m k pools (rw (e, lookup) at h))
  ]

  -- A pod of one of the children has the address.
  unfoldable pub is_used : Map Child → List Pod → String → Bool
  unfolding any contains keys lookup
  is_used children pods ip =
      any
        (λ (p : Pod).
          contains (keys children) (annotation p child_name_key) && annotation p vxlan_ip_key == ip)
        pods

  -- The address was handed out, and its time has not run out.
  unfoldable pub is_waiting : ℕ → Map String → String → Bool
  unfolding lookup
  is_waiting now pending ip = elim (lookup ip pending) [
    | none ↦ false
    | some timestamp ↦ elim (parse_time timestamp) [
      | none ↦ false
      | some ts ↦ not (ltb (ts + pending_timeout) now)
    ]
  ]

  -- What the update leaves free: neither a pod's address nor a pending one.
  unfoldable pub is_free : ℕ → List Pod → IpSecConnection → String → Bool
  unfolding is_used is_waiting
  is_free now pods conn ip =
      not (is_used conn.spec.children pods ip || is_waiting now (elems conn.status.pending_ips) ip)

  contains-pod_ips :
      (children : Map Child) (pods : List Pod) (ip : String)
      → contains (pod_ips (child_pods children pods)) ip ≡ is_used children pods ip
  unfolding child_pods pod_ips contains keep is_used any
  contains-pod_ips children [] ip = refl
  contains-pod_ips children (p ∷ ps) ip = ground (arith, contains-pod_ips children ps ip)

  any-used :
      (children : Map Child) (pods : List Pod) (ip : String)
      → any (λ (p : Pod). annotation p vxlan_ip_key == ip) (child_pods children pods)
        ≡ is_used children pods ip
  unfolding child_pods contains keep is_used any
  any-used children [] ip = refl
  any-used children (p ∷ ps) ip = ground (arith, any-used children ps ip)

  has_key-drop_pending :
      (now : ℕ) (pods : List Pod) (m : Map String) (ip : String)
      → IsMap m
      → has_key ip (drop_pending parse_time now pods m)
        ≡ elim (lookup ip m) [ none ↦ false | some ts ↦ not (is_over parse_time now pods ip ts) ]
  unfolding drop_pending has_key lookup
  has_key-drop_pending now pods [] ip u = refl
  has_key-drop_pending now pods ((k, ts) ∷ m) ip u =
      ground (arith, eq_iff k ip, has_key-drop_pending now pods m ip, has_key-lookup ip m)

  contains-none : (ip : String) → contains (keys {V = String} []) ip ≡ false
  unfolding contains keys
  contains-none ip = refl

  kept_lem :
      (now : ℕ) (pods : List Pod) (children : Map Child) (pending : GoMap String) (ip : String)
      → IsMap (elems pending)
      → kept
          (keys (elems (drop_over parse_time now (child_pods children pods) pending)))
          (pod_ips (child_pods children pods))
          ip
        ≡ not (is_used children pods ip || is_waiting now (elems pending) ip)
  unfolding is_waiting is_over
  kept_lem now pods children none ip u =
      ground (arith, contains-pod_ips children pods ip, contains-none ip)
  kept_lem now pods children (some m) ip u = ground (
    arith,
    contains-pod_ips children pods ip,
    contains-keys ip (drop_pending parse_time now (child_pods children pods) m),
    has_key-drop_pending now (child_pods children pods) m ip u,
    any-used children pods ip,
  )

  -- After an update of the status, the free addresses of a pool are, in the pool's order, those
  -- that no pod of a child of the connection has and that are not waiting for one: handed out at
  -- most 35 seconds ago. The maps' keys are assumed to differ, as a Go map's do.
  pub update_status-free :
      (now : ℕ) (pods : List Pod) (conn : IpSecConnection) (child_name pool_name : String)
      (c : Child) (ips : Slice String)
      → IsMap conn.spec.children
      → IsMap (elems c.ip_pools)
      → IsMap (elems conn.status.pending_ips)
      → lookup child_name conn.spec.children ≡ some c
      → lookup pool_name (elems c.ip_pools) ≡ some ips
      → pool_of (update_status parse_time now pods conn) child_name pool_name
        ≡ some (some (keep (is_free now pods conn) (elems ips)))
  unfolding update_status is_free
  update_status-free now pods conn k p c ips mc mp mw found pool =
      let children = conn.spec.children in
      let used = pod_ips (child_pods children pods) in
      let pending =
        keys
          (elems (drop_over parse_time now (child_pods children pods) conn.status.pending_ips)) in
      let old = drop_children children (elems conn.status.free_ips) in
      let there = elems (get_or none (lookup k old)) in
      let set = lookup-set_children children old k c mc found in
      let left =
        lookup-drop_all pending used (set_children children old) k
          (some (set_pools (elems c.ip_pools) there)) set in
      rw (left) (
        lookup-drop_taken pending used (set_pools (elems c.ip_pools) there) p ips
          (lookup-set_pools (elems c.ip_pools) there p ips mp pool)
        ∙ ap (λ f. some (some (keep f (elems ips))))
            (fun_ext (λ ip. kept_lem now pods children conn.status.pending_ips ip mw)))
