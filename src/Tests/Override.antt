-- ===== src/Tests/Override.antt =====
-- The theorem on what the controller sends to restctl at a concrete input.
use ipman.Prelude.{◌≡◌, ◌↔◌, refl, false, List, [], ◌∷◌, none, some, In}
use ipman.Errors.{done}
use ipman.Api.{CharonGroup, IpSecConnection}
use ipman.Controller.CorePod.{CorePod, socket_volume, group_key, group_namespace_key}
use ipman.Controller.Override.{OverrideAnswers, override_config}
use ipman.Controller.Override.Maps.{is_named, IsApart}
use ipman.Controller.Override.Sent.{IsSent, override_config-IsSent}
use ipman.Restctl.Reload.{ConnData, Response}
use ipman.Tests.Data.{connection}
use ipman.Tests.Cluster.{group}

-- A second group on the same node.
abbrev other_group : CharonGroup
other_group = record group { name = "h" }

abbrev branch : IpSecConnection
branch = record connection {
  name = "branch";
  spec = record connection.spec {
    name = "branch";
    group = record { name = "h"; namespace = "ipman" };
  };
}

abbrev restctl_pod : CorePod
restctl_pod = record {
  name = "restctl-pod-ipman-g";
  namespace = "ims";
  labels = (group_key, "g") ∷ (group_namespace_key, "ipman") ∷ [];
  annotations = none;
  node_selector = [];
  node_name = "n1";
  pod_ip = "10.0.0.3";
  host_network = false;
  host_pid = false;
  restart_policy = "";
  service_account_name = "";
  volumes = record { name = socket_volume; host_path = some "/run/charon" } ∷ [];
  containers = [];
}

abbrev reply : Response
reply = record { status = 200; failed_conns = []; failed_secrets = []; errs = [] }

abbrev answers : OverrideAnswers
answers = record {
  pod = done restctl_pod;
  groups = done (group ∷ other_group ∷ []);
  secret = λ s. done (some (("k", "psk") ∷ []));
  post = λ d. done reply;
}

abbrev sent : List ConnData
sent = record { secret = "psk"; conn = connection } ∷ record { secret = ""; conn = branch } ∷ []

-- The connection of the other group goes without its secret.
override_runs : override_config false answers (connection ∷ branch ∷ []) ≡ done sent
unfolding override_config
override_runs = refl

apart : IsApart (connection ∷ branch ∷ [])
unfolding IsApart is_named
apart = (refl, (refl, tt))

override_config-IsSent_example :
    (pod : CorePod) × (response : Response) × (answers.pod ≡ done pod)
    × (answers.post sent ≡ done response)
    × (response.status ≡ 200)
    × ((d : ConnData) → In d sent ↔ (In d.conn (connection ∷ branch ∷ []) × IsSent answers pod d))
override_config-IsSent_example =
    override_config-IsSent false answers (connection ∷ branch ∷ []) sent override_runs apart
