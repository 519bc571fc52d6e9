-- ===== src/Webhook/Allocate/Round.antt =====
-- The webhook and the operator together: an address that was handed out is not offered again by
-- the next update of the status.
use ipman.Prelude.{
  ℕ, ◌+◌, ◌≤◌, String, ◌≡◌, refl, Bool, false, List, [], ◌∷◌, Option, none, some, IsMap, Slice, In,
  elems, lookup, get_or, contains, any, keep, eq_iff, arith,
}
use ipman.Api.{Child, IpSecConnection, ℤ}
use ipman.Kube.{Pod}
use ipman.Controller.FreeIps.{pending_timeout, update_status}
use ipman.Controller.FreeIps.Exact.{pool_of, is_free, update_status-free}
use ipman.Webhook.Patch.{JsonPatch}
use ipman.Webhook.Allocate.{patched, PodRequest, World, serve_http}
use ipman.Webhook.Allocate.Once.{address_patch, serve_http-not_free}

contains-keep-false :
    (p : String → Bool) (xs : List String) (a : String)
    → p a ≡ false
    → contains (keep p xs) a ≡ false
unfolding contains keep any
contains-keep-false p [] a h = refl
contains-keep-false p (x ∷ xs) a h = ground (arith, eq_iff x a, contains-keep-false p xs a)

-- When a pod's request had a status written, the pod is given an address, and an update of that
-- status in the next 35 seconds leaves the address in no pool of the connection's children,
-- whatever pods there are then. The clock's text is assumed to be read back as a time, and the keys
-- of the maps to differ.
pub serve_http-update_status :
    (format_int : ℤ → String) (marshal : Slice String → String) (parse_time : String → Option ℕ)
    (w : World) (r : PodRequest) (d : IpSecConnection) (t now : ℕ) (pods : List Pod)
    (child_name pool_name : String) (c : Child) (ips : Slice String)
    → (serve_http format_int marshal w r).written ≡ some d
    → parse_time w.now ≡ some t
    → now ≤ t + pending_timeout
    → IsMap d.spec.children
    → IsMap (elems c.ip_pools)
    → IsMap (elems d.status.pending_ips)
    → lookup child_name d.spec.children ≡ some c
    → lookup pool_name (elems c.ip_pools) ≡ some ips
    → (ip : String) × (patches : List JsonPatch) × ((serve_http format_int marshal w r).reply
        ≡ patched patches)
      × In (address_patch ip) patches
      × (contains
            (elems
              (get_or none (pool_of (update_status parse_time now pods d) child_name pool_name)))
            ip
          ≡ false)
serve_http-update_status fi ms pt w r d t now pods k p c ips h e le mc mp mw found pool =
    let (ip, patches, replied, given, free) =
      serve_http-not_free fi ms pt w r d t now pods h e le in
    (
      ip,
      patches,
      replied,
      given,
      rw (update_status-free pt now pods d k p c ips mc mp mw found pool)
          (contains-keep-false (is_free pt now pods d) (elems ips) ip free),
    )
