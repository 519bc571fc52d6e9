-- ===== src/Tests/Webhook.antt =====
-- The webhooks' theorems at concrete inputs.
use ipman.Prelude.{
  IsMap, get_or, Option, Bool, contains, has_key, elems, String, ◌==◌, ◌≡◌, ◌↔◌, refl, true, false,
  List, [], ◌∷◌, none, some, Slice, In, lookup, insert, first, values, arith, if◌then◌else◌,
}
use ipman.Api.{Child, IpSecConnection, ℤ}
use ipman.Controller.FreeIps.Exact.{pool_of}
use ipman.Controller.FreeIps.{update_status}
use ipman.Webhook.Allocate.Round.{serve_http-update_status}
use ipman.Webhook.Verdict.{is_allowed}
use ipman.Webhook.Unique.{validate_unique}
use ipman.Webhook.Unique.Refinement.{
  IsDistinctPairs, IsDistinctIds, pairs, ids, validate_unique_iff,
}
use ipman.Webhook.Patch.{JsonPatch}
use ipman.Webhook.Allocate.{patched, PodRequest, World, serve_http, allocate, give, hand_out}
use ipman.Webhook.Allocate.Once.{address_patch}
use ipman.Tests.Data.{connection, red, blue, worker, read_time}

validate_unique_iff_example : (is_allowed (validate_unique connection) ≡ true) ↔ (
    IsDistinctPairs (pairs (values connection.spec.children))
    × IsDistinctIds (ids (values connection.spec.children)))
validate_unique_iff_example = validate_unique_iff connection

abbrev seven : ℤ → String
seven i = "7"

abbrev no_json : Slice String → String
no_json s = "[]"

abbrev world : World
world = record {
  is_test = false;
  image = "vxlandlord";
  clientset = true;
  lease = true;
  connection = λ name. if name == "office" then some connection else none;
  update = true;
  now = "noon";
}

abbrev request : PodRequest
request = record {
  kind = "Pod";
  dry_run = false;
  annotations = worker.annotations;
  spec = record { containers = []; init_containers = [] };
}

abbrev written : IpSecConnection
unfolding hand_out insert lookup
written = hand_out connection "red" "main" "10.2.0.6/32" ("10.2.0.7/32" ∷ []) "noon"

is_written : (serve_http seven no_json world request).written ≡ some written
unfolding serve_http allocate give hand_out lookup insert first values
is_written = refl

-- The pool of `red` loses 10.2.0.6, and the worker has 10.2.0.7.
abbrev smaller_red : Child
smaller_red = record red {
  ip_pools = some (("main", some ("10.2.0.5/32" ∷ "10.2.0.7/32" ∷ [])) ∷ []);
}

abbrev smaller : IpSecConnection
smaller = record connection {
  spec = record connection.spec { children = ("red", smaller_red) ∷ ("blue", blue) ∷ [] };
}

abbrev no_cidr : String → Option (String × String)
no_cidr s = none

abbrev never : String → String → Bool
never net ip = false

written_children-IsMap : IsMap written.spec.children
unfolding has_key written
written_children-IsMap = (refl, (refl, tt))

red_pools-IsMap : IsMap (elems red.ip_pools)
unfolding has_key
red_pools-IsMap = (refl, tt)

written_pending-IsMap : IsMap (elems written.status.pending_ips)
unfolding has_key written hand_out insert
written_pending-IsMap = (refl, (refl, tt))

written_red : lookup "red" written.spec.children ≡ some red
unfolding lookup written
written_red = refl

main_pool :
    lookup "main" (elems red.ip_pools)
    ≡ some (some ("10.2.0.5/32" ∷ "10.2.0.6/32" ∷ "10.2.0.7/32" ∷ []))
unfolding lookup
main_pool = refl

serve_http-update_status_example :
    (ip : String) × (patches : List JsonPatch) × ((serve_http seven no_json world request).reply
      ≡ patched patches)
    × In (address_patch ip) patches
    × (contains
          (elems (
            get_or none (pool_of (update_status read_time 43230000000000 [] written) "red" "main")))
          ip
        ≡ false)
serve_http-update_status_example =
    serve_http-update_status seven no_json read_time world request written 43200000000000
      43230000000000 [] "red" "main" red (some ("10.2.0.5/32" ∷ "10.2.0.6/32" ∷ "10.2.0.7/32" ∷ []))
      is_written refl (omega arith) written_children-IsMap red_pools-IsMap written_pending-IsMap
      written_red main_pool
