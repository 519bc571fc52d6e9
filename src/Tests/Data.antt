-- ===== src/Tests/Data.antt =====
-- The data that the tests share.
use ipman.Prelude.{ℕ, String, ◌==◌, [], ◌∷◌, Option, none, some, if◌then◌else◌}
use ipman.Api.{Child, IpSecConnection, pos}
use ipman.Kube.{Pod, child_name_key, ipman_name_key, pool_name_key, vxlan_ip_key}

abbrev pub red : Child
red = record {
  name = "red";
  local_ips = some ("10.2.0.0/24" ∷ []);
  remote_ips = some ("192.168.0.0/24" ∷ []);
  xfrm_if_id = pos 7;
  ip_pools = some (("main", some ("10.2.0.5/32" ∷ "10.2.0.6/32" ∷ "10.2.0.7/32" ∷ [])) ∷ []);
  xfrm_ip = "10.1.0.1/24";
  vxlan_ip = "10.2.0.1/24";
  extra = none;
}

abbrev pub blue : Child
blue = record red {
  name = "blue";
  xfrm_if_id = pos 8;
  ip_pools = some (("main", some ("10.2.0.8/32" ∷ [])) ∷ ("spare", none) ∷ []);
}

abbrev pub connection : IpSecConnection
connection = record {
  name = "office";
  spec = record {
    name = "office";
    remote_addr = "1.2.3.4";
    local_addr = "5.6.7.8";
    local_id = "a";
    remote_id = "b";
    secret_ref = record { name = "s"; namespace = "ipman"; key = "k" };
    children = ("red", red) ∷ ("blue", blue) ∷ [];
    extra = [];
    group = record { name = "g"; namespace = "ipman" };
  };
  status = record {
    xfrm_gateway_ips = some (("red", "10.0.0.9") ∷ []);
    free_ips = some (("red", some (("main", some ("10.2.0.6/32" ∷ "10.2.0.7/32" ∷ [])) ∷ [])) ∷ []);
    pending_ips = some (("10.2.0.5/32", "noon") ∷ []);
    state = "";
    children_state = none;
  };
}

abbrev pub worker : Pod
worker = record {
  name = "w";
  namespace = "default";
  annotations =
      (child_name_key, "red")
      ∷ (ipman_name_key, "office")
      ∷ (pool_name_key, "main")
      ∷ (vxlan_ip_key, "10.2.0.7/32")
      ∷ [];
}

-- Reads one text as a time.
abbrev pub read_time : String → Option ℕ
read_time s = if s == "noon" then some 43200000000000 else none
