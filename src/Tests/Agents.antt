-- ===== src/Tests/Agents.antt =====
-- The theorems on the set-up of xfrm pods and on their routes at concrete inputs.
use ipman.Prelude.{
  any, any_iff, keep, In, Option, ◌==◌, Bool-cases, inl, inr, eq_iff, arith, ℕ, ◌≡◌, ◌≢◌, refl,
  String, Bool, true, false, not, ◌&&◌, ◌||◌, nat_eq, List, [], ◌∷◌, none, some, if◌then◌else◌,
}
use ipman.Errors.{Try, done, fails, api, not_found}
use ipman.Api.{IpSecConnection}
use ipman.Controller.State.{XfrmProperties}
use ipman.Controller.Wait.{PodStatus, JobStatus, wait_for_pod_ready}
use ipman.Controller.Setup.{SetupAnswers, set_gateway, complete_setup}
use ipman.Controller.Setup.Gateway.{IsGateway, complete_setup-IsGateway}
use ipman.Xfrminion.{Link, Route, Kernel, ok, find_link, add_local_route, delete_local_route}
use ipman.Xfrminion.Routes.{IsTable, Means, same_route, delete_local_route-add_local_route}
use ipman.Tests.Data.{connection}
use ipman.Tests.Cluster.{envs, group}

abbrev new_job : JobStatus
new_job = record { active = 0; succeeded = 0; failed = 0; is_completed = false }

abbrev finished_job : JobStatus
finished_job = record { active = 0; succeeded = 1; failed = 0; is_completed = true }

-- The job is seen running twice, and then finished.
abbrev polls : ℕ → Try JobStatus
polls k = done (if nat_eq k 2 then finished_job else record new_job { active = 1 })

-- The pod is not there at first.
abbrev pod_polls : ℕ → Try PodStatus
pod_polls k =
    if nat_eq k 0
    then fails (api not_found)
    else done (record { phase = "Running"; pod_ip = "10.0.0.9" })

abbrev answers : SetupAnswers
answers = record {
  wait = wait_for_pod_ready 3 false pod_polls;
  pid_reply = done (record { code = 200; pid = done 17 });
  group = done group;
  create = λ job. done new_job;
  job = λ k. fails (api not_found);
  delete_job = done tt;
  after_delete = λ k. done tt;
  create_again = λ job. done new_job;
  poll = polls;
  setup_vxlan = done 200;
  conn = done connection;
  put = λ c. none;
}

abbrev pub props : XfrmProperties
props = record {
  owner_child = "blue";
  owner_connection = "office";
  interface_id = 8;
  xfrm_ip = "10.1.0.1/24";
  vxlan_ip = "10.2.0.1/24";
}

abbrev pending : PodStatus
pending = record { phase = "Pending"; pod_ip = "" }

setup_runs :
    complete_setup envs answers props pending ≡ done (set_gateway "blue" "10.0.0.9" connection)
unfolding complete_setup wait_for_pod_ready
setup_runs = refl

complete_setup-IsGateway_example :
    (ip : String) × (conn : IpSecConnection) × (ip ≢ "")
    × (answers.conn ≡ done conn)
    × IsGateway props ip conn (set_gateway "blue" "10.0.0.9" connection)
complete_setup-IsGateway_example =
    complete_setup-IsGateway envs answers props pending (set_gateway "blue" "10.0.0.9" connection) 3
      pod_polls refl setup_runs

-- A kernel whose state is its list of routes, with one route for a destination.
abbrev pub Table : Type 0
Table = List Route

abbrev pub links : List Link
links =
    record { kind = "vxlan"; name = "vxlan7"; index = 3 }
    ∷ record { kind = "xfrm"; name = "xfrm7"; index = 4 }
    ∷ []

abbrev pub has : Table → Route → Bool
has t r = any (λ (q : Route). same_route q r) t

abbrev insert_route : Route → Table → Table × Option String
insert_route r t =
    if any (λ (q : Route). q.dst == r.dst) t then (t, some "file exists") else (r ∷ t, none)

abbrev remove_route : Route → Table → Table × Option String
remove_route r t =
    if has t r
    then (keep (λ (q : Route). not (same_route r q)) t, none)
    else (t, some "no such process")

abbrev pub kernel : Kernel Table
kernel = record {
  link_list = λ t. some links;
  route_add = insert_route;
  route_del = remove_route;
  run = λ args t. (t, ("", false));
  parse_cidr = λ text. some text;
}

has-keep :
    (r q : Route) (t : Table)
    → has (keep (λ (p : Route). not (same_route r p)) t) q ≡ (not (same_route r q) && has t q)
unfolding any keep
has-keep r q [] = ground arith
has-keep r q (p ∷ t) =
    ground (arith, has-keep r q t, eq_iff r.dst p.dst, eq_iff p.dst q.dst, eq_iff r.dst q.dst)

there : (q : Route) (t : Table) → In q t → has t q ≡ true
there q t i =
    (any_iff (λ (p : Route). same_route p q) t).1 (q, i, ground (arith, eq_iff q.dst q.dst))

links_stay :
    (r : Route) (t : Table) → kernel.link_list (kernel.route_add r t).0 ≡ kernel.link_list t
links_stay r t = refl

existing :
    (r : Route) (t : Table)
    → (kernel.route_add r t).1 ≡ some "file exists"
    → (q : Route) × (has t q ≡ true) × (q.dst ≡ r.dst)
existing r t h = elim (Bool-cases (any (λ (q : Route). q.dst == r.dst) t)) [
  | inl e ↦
      let (q, i, same) = (any_iff (λ (q : Route). q.dst == r.dst) t).0 e in
      (q, there q t i, ground (arith, same, eq_iff q.dst r.dst))
  | inr e ↦ cc (rw e at h)
]

adding :
    (r q : Route) (t : Table)
    → (kernel.route_add r t).1 ≡ none
    → has (kernel.route_add r t).0 q ≡ (same_route r q || has t q)
unfolding any
adding r q t h = elim (Bool-cases (any (λ (p : Route). p.dst == r.dst) t)) [
  | inl e ↦ cc (rw e at h)
  | inr e ↦ rw e refl
]

refusing :
    (r q : Route) (t : Table) (e : String)
    → (kernel.route_add r t).1 ≡ some e
    → has (kernel.route_add r t).0 q ≡ has t q
refusing r q t e h = elim (Bool-cases (any (λ (p : Route). p.dst == r.dst) t)) [
  | inl y ↦ rw y refl
  | inr n ↦ cc (rw n at h)
]

deleting :
    (r q : Route) (t : Table)
    → (kernel.route_del r t).1 ≡ none
    → has (kernel.route_del r t).0 q ≡ (not (same_route r q) && has t q)
deleting r q t h = elim (Bool-cases (has t r)) [
  | inl y ↦ rw y (has-keep r q t)
  | inr n ↦ cc (rw n at h)
]

pub kernel-IsTable : IsTable kernel has
kernel-IsTable = record {
  links = links_stay;
  added = adding;
  not_added = refusing;
  exists = existing;
  deleted = deleting;
}

abbrev no_routes : Table
no_routes = []

abbrev local : Route
local = record { link_index = 3; dst = "10.2.0.0/24" }

abbrev remote : Route
remote = record { link_index = 4; dst = "192.168.0.0/24" }

local-Means : Means kernel has kernel-IsTable "vxlan" "10.2.0.0/24" no_routes local
unfolding find_link
local-Means = record {
  listed = links;
  all_links = refl;
  link = record { kind = "vxlan"; name = "vxlan7"; index = 3 };
  found = refl;
  net = "10.2.0.0/24";
  parsed = refl;
  route = refl;
}

free : (q : Route) → q.dst ≡ local.dst → has no_routes q ≡ false
unfolding any
free q e = refl

local_is_added : (add_local_route kernel (some "10.2.0.0/24") no_routes).1 ≡ ok
unfolding add_local_route any
local_is_added = refl

local_is_deleted :
    (delete_local_route kernel
      (some "10.2.0.0/24")
      (add_local_route kernel (some "10.2.0.0/24") no_routes).0).1
    ≡ ok
unfolding add_local_route delete_local_route any keep
local_is_deleted = refl

delete_local_route-add_local_route_example :
    (has (add_local_route kernel (some "10.2.0.0/24") no_routes).0 local ≡ true)
    × ((q : Route)
        → has
            (delete_local_route kernel
              (some "10.2.0.0/24")
              (add_local_route kernel (some "10.2.0.0/24") no_routes).0).0
            q
          ≡ has no_routes q)
delete_local_route-add_local_route_example =
    delete_local_route-add_local_route kernel has kernel-IsTable "10.2.0.0/24" no_routes local
      local-Means free local_is_added local_is_deleted
