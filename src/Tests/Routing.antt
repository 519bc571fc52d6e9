-- ===== src/Tests/Routing.antt =====
-- The theorem on a route action and the pod that answers it at a concrete input.
use ipman.Prelude.{true, false, [], ◌∷◌, none, some}
use ipman.Errors.{done}
use ipman.Controller.State.{Routes}
use ipman.Controller.CorePod.{CorePod}
use ipman.Controller.Routing.{RouteAnswers}
use ipman.Xfrminion.{Route}
use ipman.Tests.Agents.{Table, props}

abbrev xfrm_core_pod : CorePod
xfrm_core_pod = record {
  name = "xfrm-pod";
  namespace = "ims";
  labels = [];
  annotations = none;
  node_selector = [];
  node_name = "n1";
  pod_ip = "10.0.0.9";
  host_network = false;
  host_pid = true;
  restart_policy = "";
  service_account_name = "";
  volumes = [];
  containers = [];
}

-- One local route is recorded and installed.
abbrev old_routes : Routes
old_routes = record { local = some ("10.2.0.0/24" ∷ []); remote = none; bridge_fdb = none }

abbrev answers : RouteAnswers
answers = record {
  wait = done xfrm_core_pod;
  unmarshal = λ text. record { routes = old_routes; props = props };
  writes = λ x. true;
}

abbrev old_route : Route
old_route = record { link_index = 3; dst = "10.2.0.0/24" }

abbrev new_route : Route
new_route = record { link_index = 3; dst = "10.3.0.0/24" }

abbrev table : Table
table = old_route ∷ []
