-- ===== src/Webhook/Unique.antt =====
-- `validateIPSecConnectionUnique` of internal/webhook/v1/validating_webhook.go.
pub mod Refinement
use ipman.Prelude.{
  String, Bool, true, false, ◌||◌, List, [], ◌∷◌, ◌++◌, Option, none, some, Map, elems, lookup,
  get_or, insert, contains, values, Slice, if◌then◌else◌,
}
use ipman.Api.{Child, IpSecConnection, ℤ, int_eq}
use ipman.Webhook.Verdict.{Verdict, Reason, allowed, denied, duplicated_ip, duplicated_id}

-- The map `ips`: the names of the children that have an address.
abbrev pub Table : Type 0
Table = Map (List String)

pub data Added : Type 0 where
  added : Table → Added
  refused : Reason → Added

-- The loop over the addresses of a pool.
unfoldable pub add_ips : String → List String → Table → Added
unfolding lookup insert contains
add_ips name [] t = added t
add_ips name (ip ∷ ips) t =
    let children = get_or [] (lookup ip t) in
    let rest = add_ips name ips (insert ip (children ++ name ∷ []) t) in
    if contains children name then refused (duplicated_ip ip) else rest

-- The loop over the pools of a child.
unfoldable pub add_pools : String → List (Slice String) → Table → Added
unfolding add_ips
add_pools name [] t = added t
add_pools name (pool ∷ pools) t = elim (add_ips name (elems pool) t) [
  | added u ↦ add_pools name pools u
  | refused r ↦ refused r
]

abbrev pub has_id : List ℤ → ℤ → Bool
has_id [] i = false
has_id (j ∷ js) i = int_eq j i || has_id js i

-- The loop over the children, with `ips` and `ifids`.
unfoldable pub add_children : List Child → Table → List ℤ → Verdict
unfolding add_pools
add_children [] t ids = allowed
add_children (c ∷ cs) t ids = elim (add_pools c.name (values (elems c.ip_pools)) t) [
  | added u ↦
      let rest = add_children cs u (c.xfrm_if_id ∷ ids) in
      if has_id ids c.xfrm_if_id then denied (duplicated_id c.xfrm_if_id) else rest
  | refused r ↦ denied r
]

unfoldable pub validate_unique : IpSecConnection → Verdict
unfolding add_children values
validate_unique c = add_children (values c.spec.children) [] []
