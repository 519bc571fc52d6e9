-- ===== src/Webhook/Update.antt =====
-- `validateIPSecConnectionUpdate`, `isChildDeleted` and `isChildAdded` of
-- internal/webhook/v1/validating_webhook.go. The package net is a parameter: `net.ParseCIDR`, with
-- the address and the subnet that it returns, and `Contains` of a subnet.
pub mod Keeps
use ipman.Prelude.{
  String, ◌==◌, Bool, not, ◌&&◌, ◌||◌, List, [], ◌∷◌, ◌++◌, Option, none, some, Map, GoMap, Slice,
  elems, lookup, get_or, has_key, keys, values, insert, contains, any, keep, length, nat_eq,
  if◌then◌else◌,
}
use ipman.Api.{Child, IpSecConnection, pos, equal_except_changable, pools_eq}
use ipman.Prelude.{strings_eq}
use ipman.Kube.{Pod, annotation, ipman_name_key, child_name_key, vxlan_ip_key}
use ipman.Webhook.Verdict.{
  Verdict, allowed, denied, depend_on_child, not_changable, uses_deleted_ip, uses_local_ip,
  bad_local_ip, bad_pod_ip, and_then, each,
}
use ipman.Webhook.Unique.{validate_unique}

-- The children of the second map whose key the first one has not.
unfoldable pub missing_children : Map Child → Map Child → List Child
unfolding has_key
missing_children m [] = []
missing_children m ((k, v) ∷ n) =
    let rest = missing_children m n in if has_key k m then rest else v ∷ rest

-- The map `dependentPods`.
unfoldable pub dependent_pods :
    IpSecConnection → IpSecConnection → List Pod → Map (List Pod) → Map (List Pod)
unfolding lookup insert contains keys
dependent_pods new old [] m = m
dependent_pods new old (p ∷ ps) m =
    dependent_pods new old ps (elim (lookup ipman_name_key p.annotations) [
      | none ↦ m
      | some imn ↦ elim (lookup child_name_key p.annotations) [
        | none ↦ m
        | some cn ↦
            if imn == new.name
              && (contains (keys new.spec.children) cn || contains (keys old.spec.children) cn)
            then insert cn (get_or [] (lookup cn m) ++ p ∷ []) m
            else m
      ]
    ])

-- The loop over the deleted children.
unfoldable pub check_deleted : Map (List Pod) → List Child → Verdict
unfolding lookup
check_deleted dependent [] = allowed
check_deleted dependent (c ∷ cs) = elim (get_or [] (lookup c.name dependent)) [
  | [] ↦ check_deleted dependent cs
  | p ∷ ps ↦ denied (depend_on_child (p ∷ ps))
]

-- maps.DeleteFunc with the names of the added children.
unfoldable pub without_added : List Child → Map Child → Map Child
unfolding any
without_added added [] = []
without_added added ((k, c) ∷ m) =
    let rest = without_added added m in
    if any (λ (a : Child). a.name == c.name) added then rest else (k, c) ∷ rest

abbrev zero_child : Child
zero_child = record {
  name = "";
  local_ips = none;
  remote_ips = none;
  xfrm_if_id = pos 0;
  ip_pools = none;
  xfrm_ip = "";
  vxlan_ip = "";
  extra = none;
}

-- The addresses that the old pools have and the new ones of the same name have not.
unfoldable pub deleted_ips : GoMap (Slice String) → Map (Slice String) → List String
unfolding keep lookup contains
deleted_ips new [] = []
deleted_ips new ((pool_name, pool) ∷ pools) =
    keep (λ (ip : String). not (contains (elems (get_or none (lookup pool_name (elems new)))) ip))
      (elems pool)
    ++ deleted_ips new pools

-- The first pod whose annotation is the address.
unfoldable pub pod_with : String → List Pod → Option Pod
unfolding lookup
pod_with ip [] = none
pod_with ip (p ∷ ps) =
    let rest = pod_with ip ps in if annotation p vxlan_ip_key == ip then some p else rest

unfoldable pub violating_pod : List String → List Pod → Option Pod
unfolding pod_with
violating_pod [] pods = none
violating_pod (ip ∷ ips) pods = elim (pod_with ip pods) [
  | none ↦ violating_pod ips pods
  | some p ↦ some p
]

-- The check of the pools of one child.
unfoldable pub check_pools : Map (List Pod) → Child → Child → Verdict
unfolding violating_pod deleted_ips pools_eq values
check_pools dependent new old =
    if pools_eq new.ip_pools old.ip_pools
    then allowed
    else each
        (λ (pods : List Pod).
          elim (violating_pod (deleted_ips new.ip_pools (elems old.ip_pools)) pods) [
            | none ↦ allowed
            | some p ↦ denied (uses_deleted_ip p)
          ])
        (values dependent)

module _ {Ip Net : Type 0} (parse_cidr : String → Option (Ip × Net))
    (contains_ip : Net → Ip → Bool) where
  -- The loop over the pods for one deleted local address.
  unfoldable pub check_local : String → Net → List Pod → Verdict
  unfolding lookup
  check_local ip subnet [] = allowed
  check_local ip subnet (p ∷ ps) = elim (lookup vxlan_ip_key p.annotations) [
    | none ↦ check_local ip subnet ps
    | some pod_ip ↦ elim (parse_cidr pod_ip) [
      | none ↦ denied (bad_pod_ip pod_ip)
      | some (net_ip, net) ↦
          let rest = check_local ip subnet ps in
          if contains_ip subnet net_ip || ip == pod_ip then denied (uses_local_ip p) else rest
    ]
  ]

  -- The loop over the deleted local addresses.
  unfoldable pub check_locals : List Pod → List String → Verdict
  unfolding check_local
  check_locals pods [] = allowed
  check_locals pods (ip ∷ ips) = elim (parse_cidr ip) [
    | none ↦ denied (bad_local_ip ip)
    | some (addr, subnet) ↦ and_then (check_local ip subnet pods) (check_locals pods ips)
  ]

  -- The loop's body for one of the new children.
  unfoldable pub check_child :
      IpSecConnection → List Pod → Map (List Pod) → String × Child → Verdict
  unfolding check_pools check_locals keep contains lookup equal_except_changable strings_eq
  check_child old pods dependent (name, new_child) =
      let old_child = get_or zero_child (lookup name old.spec.children) in
      if equal_except_changable new_child old_child
      then and_then (check_pools dependent new_child old_child) (
          if strings_eq new_child.local_ips old_child.local_ips
          then allowed
          else check_locals pods (
              keep (λ (ip : String). not (contains (elems new_child.local_ips) ip))
                (elems old_child.local_ips)))
      else denied not_changable

  -- `new.Spec.Children` is the map from which DeleteFunc removes entries.
  unfoldable pub validate_update : IpSecConnection → IpSecConnection → List Pod → Verdict
  unfolding dependent_pods check_deleted missing_children without_added check_child
  validate_update new old pods =
      let dependent = dependent_pods new old pods [] in
      let left =
        without_added (missing_children old.spec.children new.spec.children) new.spec.children in
      and_then
        (if nat_eq (length new.spec.children) (length old.spec.children)
          then allowed
          else check_deleted dependent (missing_children new.spec.children old.spec.children))
        (and_then (each (check_child old pods dependent) left)
          (validate_unique (record new { spec = record new.spec { children = left } })))
