-- ===== src/Webhook/Creation.antt =====
-- `validateIPSecConnectionCreation` and `validateIPSecConnectionDeletion` of
-- internal/webhook/v1/validating_webhook.go.
use ipman.Prelude.{
  String, ◌==◌, Bool, true, false, not, ◌&&◌, List, none, some, Slice, elems, lookup, has_key,
  values, count_char, nat_eq,
}
use ipman.Api.{Child, IpSecConnection}
use ipman.Kube.{Pod, annotation, ipman_name_key, child_name_key}
use ipman.Webhook.Verdict.{
  Verdict, Reason, allowed, denied, name_exists, pods_exist, invalid_local_ip, invalid_remote_ip,
  invalid_pool_ip, uses_connection, and_then, each,
}
use ipman.Webhook.Unique.{validate_unique}

-- strings.Count(ip, "/") == 1
unfoldable pub has_mask : String → Bool
unfolding count_char
has_mask ip = nat_eq (count_char 0x2f ip) 1

abbrev pub require : Bool → Reason → Verdict
require true r = allowed
require false r = denied r

abbrev pub valid_pool : String × Slice String → Verdict
valid_pool (name, pool) =
    each (λ (ip : String). require (has_mask ip) (invalid_pool_ip name ip)) (elems pool)

-- The loop's body for one child.
unfoldable pub valid_child : Child → Verdict
unfolding has_mask
valid_child c =
    and_then
      (each (λ (ip : String). require (has_mask ip) (invalid_local_ip ip)) (elems c.local_ips))
      (and_then
        (each (λ (ip : String). require (has_mask ip) (invalid_remote_ip ip)) (elems c.remote_ips))
        (each valid_pool (elems c.ip_pools)))

unfoldable pub validate_creation : IpSecConnection → List IpSecConnection → List Pod → Verdict
unfolding valid_child values
validate_creation c other pods =
    and_then
      (each
        (λ (o : IpSecConnection).
          require (not (o.spec.name == c.spec.name)) (name_exists o.spec.name))
        other)
      (and_then
        (each
          (λ (p : Pod). require (not (annotation p ipman_name_key == c.spec.name)) (pods_exist p))
          pods)
        (and_then (each valid_child (values c.spec.children)) (validate_unique c)))

-- A pod's two annotations name the connection and one of its children.
unfoldable pub uses_child : IpSecConnection → Pod → Bool
unfolding lookup has_key
uses_child c p = elim (lookup child_name_key p.annotations) [
  | none ↦ false
  | some cn ↦ elim (lookup ipman_name_key p.annotations) [
    | none ↦ false
    | some imn ↦ has_key cn c.spec.children && imn == c.name
  ]
]

unfoldable pub validate_deletion : IpSecConnection → List Pod → Verdict
unfolding uses_child
validate_deletion c workers =
    each (λ (p : Pod). require (not (uses_child c p)) (uses_connection p)) workers
