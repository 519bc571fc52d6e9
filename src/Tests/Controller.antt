-- ===== src/Tests/Controller.antt =====
-- The controller's theorems at concrete inputs.
use ipman.Prelude.{
  any, eq_iff, String, true, false, ◌≡◌, ◌≢◌, refl, In, inl, inr, IsMap, IsDistinct, has_key, any,
  keys, List, [], ◌∷◌, none, some, elems, lookup, keep, map, contains, arith,
}
use ipman.Api.{IpSecConnection}
use ipman.Controller.State.{XfrmPod, Routes}
use ipman.Controller.Action.{Action}
use ipman.Errors.{panics}
use ipman.Controller.Effect.{run_actions}
use ipman.Controller.Diff.Routes.{ok, diff_routes}
use ipman.Controller.Diff.Routes.Converge.{IsRoutes}
use ipman.Controller.Diff.Routes.Panics.{run_actions-diff_routes_panics}
use ipman.Controller.Diff.IpSecs.{create_ip_secs, cluster_ip_secs, mark_up, diff_ip_secs}
use ipman.Controller.Diff.IpSecs.Converge.{names, diff_ip_secs-mark_up}
use ipman.Controller.FreeIps.{update_status}
use ipman.Controller.FreeIps.Exact.{pool_of, is_free, is_used, is_waiting, update_status-free}
use ipman.Tests.Differ.{differ}
use ipman.Tests.Data.{connection, red, read_time, worker}

abbrev pod_with_routes : Routes → XfrmPod
pod_with_routes rs = record {
  meta = record {
    name = "xfrm-red";
    namespace = "ipman";
    ip = "10.0.0.9";
    node_name = "n1";
    image = "x";
  };
  spec = record {
    routes = rs;
    props = record {
      owner_child = "red";
      owner_connection = "office";
      interface_id = 7;
      xfrm_ip = "10.1.0.1/24";
      vxlan_ip = "10.2.0.1/24";
    };
  };
  annotations = none;
  group = record { name = "g"; namespace = "ipman" };
}

abbrev old_routes : Routes
old_routes = record {
  local = some ("10.2.0.0/24" ∷ "10.3.0.0/24" ∷ []);
  remote = some ("192.168.0.0/24" ∷ []);
  bridge_fdb = some (("10.2.0.5", "10.0.0.5") ∷ ("10.2.0.6", "10.0.0.6") ∷ []);
}

abbrev new_routes : Routes
new_routes = record {
  local = some ("10.3.0.0/24" ∷ "10.4.0.0/24" ∷ []);
  remote = none;
  bridge_fdb = some (("10.2.0.6", "10.0.0.8") ∷ ("10.2.0.7", "10.0.0.7") ∷ []);
}

old_routes-IsRoutes : IsRoutes old_routes
unfolding contains has_key
old_routes-IsRoutes = record {
  local = (refl, (refl, tt));
  remote = (refl, tt);
  bridge_fdb = (refl, (refl, tt));
}

new_routes-IsRoutes : IsRoutes new_routes
unfolding contains has_key
new_routes-IsRoutes = record {
  local = (refl, (refl, tt));
  remote = tt;
  bridge_fdb = (refl, (refl, tt));
}

-- A remote route more, and none less.
abbrev more_routes : Routes
more_routes = record new_routes { remote = some ("192.168.0.0/24" ∷ "192.168.1.0/24" ∷ []) }

has_address : ◌≢◌ {A = String} "10.0.0.9" ""
has_address e = ground (arith, eq_iff "10.0.0.9" "", e)

remote_there : contains (elems old_routes.remote) "192.168.0.0/24" ≡ true
unfolding contains
remote_there = refl

remote_gone : contains (elems new_routes.remote) "192.168.0.0/24" ≡ false
unfolding contains
remote_gone = refl

run_actions-diff_routes_panics_example :
    (acts : List Action) × (diff_routes differ.slices differ.maps
        (pod_with_routes old_routes)
        (pod_with_routes new_routes)
      ≡ ok acts)
    × (run_actions acts (some (record { recorded = old_routes; installed = old_routes })) ≡ panics)
run_actions-diff_routes_panics_example =
    run_actions-diff_routes_panics differ (pod_with_routes old_routes) (pod_with_routes new_routes)
      "192.168.0.0/24" (record { recorded = old_routes; installed = old_routes })
      old_routes-IsRoutes new_routes-IsRoutes has_address remote_there remote_gone

-- A wanted pod: it has no address, and no forwarding entry.
abbrev new_pod : XfrmPod
new_pod = record (pod_with_routes (record new_routes { bridge_fdb = none })) {
  meta = record (pod_with_routes new_routes).meta { ip = "" };
}

one_name : IsDistinct (names (connection ∷ []))
unfolding contains
one_name = (refl, tt)

has_children : (c : IpSecConnection) → In c (connection ∷ []) → c.spec.children ≢ []
has_children c (inl e) h = ground (arith, e)
has_children c (inr i) h = i

diff_ip_secs-mark_up_example :
    diff_ip_secs
      (create_ip_secs (connection ∷ []))
      (cluster_ip_secs (map mark_up (connection ∷ [])))
      "10.0.0.2"
    ≡ []
diff_ip_secs-mark_up_example =
    diff_ip_secs-mark_up (connection ∷ []) "10.0.0.2" one_name has_children

children-IsMap : IsMap connection.spec.children
unfolding has_key
children-IsMap = (refl, (refl, tt))

pools-IsMap : IsMap (elems red.ip_pools)
unfolding has_key
pools-IsMap = (refl, tt)

pending-IsMap : IsMap (elems connection.status.pending_ips)
unfolding has_key
pending-IsMap = (refl, tt)

red_is_found : lookup "red" connection.spec.children ≡ some red
unfolding lookup
red_is_found = refl

pool_is_found :
    lookup "main" (elems red.ip_pools)
    ≡ some (some ("10.2.0.5/32" ∷ "10.2.0.6/32" ∷ "10.2.0.7/32" ∷ []))
unfolding lookup
pool_is_found = refl

update_status-free_example :
    pool_of (update_status read_time 43210000000000 (worker ∷ []) connection) "red" "main"
    ≡ some (
        some (
          keep
            (is_free read_time 43210000000000 (worker ∷ []) connection)
            ("10.2.0.5/32" ∷ "10.2.0.6/32" ∷ "10.2.0.7/32" ∷ [])))
update_status-free_example =
    update_status-free read_time 43210000000000 (worker ∷ []) connection "red" "main" red
      (some ("10.2.0.5/32" ∷ "10.2.0.6/32" ∷ "10.2.0.7/32" ∷ [])) children-IsMap pools-IsMap
      pending-IsMap red_is_found pool_is_found

-- One address is pending, one is the worker's.
one_is_free :
    keep
      (is_free read_time 43210000000000 (worker ∷ []) connection)
      ("10.2.0.5/32" ∷ "10.2.0.6/32" ∷ "10.2.0.7/32" ∷ [])
    ≡ "10.2.0.6/32" ∷ []
unfolding keep is_free is_used is_waiting lookup any contains keys
one_is_free = refl
