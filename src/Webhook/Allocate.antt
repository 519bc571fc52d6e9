-- ===== src/Webhook/Allocate.antt =====
-- `ServeHTTP` of internal/webhook/v1/mutating_webhook.go. Parameters: `format_int` as in the patch,
-- `marshal` for `json.Marshal` of a list of strings, and what the cluster and the clock answer.
pub mod Once
pub mod Round
use ipman.Prelude.{
  String, ◌==◌, Bool, true, false, not, ◌&&◌, ◌||◌, List, [], ◌∷◌, Option, none, some, Map, GoMap,
  Slice, elems, lookup, get_or, insert, values, first, is_some, if◌then◌else◌,
}
use ipman.Api.{Child, IpSecConnection, IpSecConnectionStatus, ℤ}
use ipman.Kube.{child_name_key, ipman_name_key, pool_name_key, vxlan_ip_key}
use ipman.Webhook.Patch.{PodSpec, JsonPatch, patch}

pub data Reply : Type 0 where
  no_patch : Reply
  refused : String → Reply
  patched : List JsonPatch → Reply

-- The reply, the connection whose status was written, and whether the lease is still held.
pub record Served : Type 0 where
  pub reply : Reply
  pub written : Option IpSecConnection
  pub locked : Bool

pub record PodRequest : Type 0 where
  pub kind : String
  pub dry_run : Bool
  pub annotations : Map String
  pub spec : PodSpec

-- What the handler is told: its configuration, the answers of the cluster, the formatted time.
pub record World : Type 0 where
  pub is_test : Bool
  pub image : String
  pub clientset : Bool
  pub lease : Bool
  pub connection : String → Option IpSecConnection
  pub update : Bool
  pub now : String

abbrev early : Reply → Served
early r = record { reply = r; written = none; locked = false }

abbrev holding : Reply → Served
holding r = record { reply = r; written = none; locked = true }

-- The status once the first free address of the pool is handed out.
unfoldable pub hand_out :
    IpSecConnection → String → String → String → List String → String → IpSecConnection
unfolding lookup insert
hand_out c child_name pool_name ip rest now = record c {
  status = record c.status {
    free_ips = some (
        insert child_name
          (some (
            insert pool_name (some rest)
              (elems (get_or none (lookup child_name (elems c.status.free_ips))))))
          (elems c.status.free_ips));
    pending_ips = some (insert ip now (elems c.status.pending_ips));
  };
}

module _ (format_int : ℤ → String) (marshal : Slice String → String) where
  -- The annotations of the patched pod.
  unfoldable pub annotations_of : Child → String → String → Map String
  annotations_of child ip gateway =
      (vxlan_ip_key, ip)
      ∷ ("ipman.dialo.ai/xfrmIp", child.xfrm_ip)
      ∷ ("ipman.dialo.ai/interfaceId", format_int child.xfrm_if_id)
      ∷ ("ipman.dialo.ai/remoteIps", marshal child.remote_ips)
      ∷ ("ipman.dialo.ai/localIps", marshal child.local_ips)
      ∷ ("ipman.dialo.ai/xfrmUnderlyingIp", gateway)
      ∷ []

  -- From the address on; `ip ∷ rest` is the pool.
  unfoldable pub give :
      World → PodRequest → IpSecConnection → Child → String → String → List String → Served
  unfolding lookup annotations_of patch hand_out
  give w r c child pool_name ip rest = elim (lookup child.name (elems c.status.xfrm_gateway_ips)) [
    | none ↦ holding (refused "XfrmPod for that child is not ready yet")
    | some gateway ↦
        let p =
          patched
            (patch format_int r.spec ip gateway (annotations_of child ip gateway) child w.image) in
        if gateway == ""
        then holding (refused "XfrmGateway not yet assigned an ip")
        else if r.dry_run || w.is_test
        then holding p
        else if w.update
        then record {
          reply = p;
          written = some (hand_out c child.name pool_name ip rest w.now);
          locked = true;
        }
        else early (refused "couldn't update status")
  ]

  -- With the lock held. A pool that is missing has no address either.
  unfoldable pub allocate : World → PodRequest → String → String → String → Served
  unfolding first lookup values give
  allocate w r child_name ipman_name pool_name = elim (w.connection ipman_name) [
    | none ↦ holding (refused "Couldn't fetch ipsecconnection")
    | some c ↦ elim (first (λ (k : Child). k.name == child_name) (values c.spec.children)) [
      | none ↦ holding (refused "Couldn't find a matching child")
      | some child ↦
          elim (elems (
            get_or none (
              lookup pool_name
                (elems (get_or none (lookup child.name (elems c.status.free_ips))))))) [
                  | [] ↦ holding (refused "No free ip addresses in pool")
                  | ip ∷ rest ↦ give w r c child pool_name ip rest
                ]
    ]
  ]

  unfoldable pub serve_http : World → PodRequest → Served
  unfolding lookup allocate
  serve_http w r =
      let child = lookup child_name_key r.annotations in
      let ipman = lookup ipman_name_key r.annotations in
      let pool = lookup pool_name_key r.annotations in
      if not (r.kind == "Pod")
      then early no_patch
      else if not (is_some child || is_some ipman || is_some pool)
      then early no_patch
      else if not (is_some child && is_some ipman && is_some pool)
      then early (refused "some annotations missing")
      else if not w.clientset
      then early (refused "couldn't create clientset")
      else if r.dry_run || w.is_test || w.lease
      then allocate w r (get_or "" child) (get_or "" ipman) (get_or "" pool)
      else early (refused "Couldnt create lease")
