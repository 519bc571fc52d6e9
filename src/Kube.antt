-- ===== src/Kube.antt =====
-- What the webhooks and the controller read of a worker pod, with the annotations' keys of
-- api/v1/constants.go.
use ipman.Prelude.{String, Map, lookup, get_or}

pub record Pod : Type 0 where
  pub name : String
  pub namespace : String
  pub annotations : Map String

abbrev pub child_name_key : String
child_name_key = "ipman.dialo.ai/childName"

abbrev pub ipman_name_key : String
ipman_name_key = "ipman.dialo.ai/ipmanName"

abbrev pub pool_name_key : String
pool_name_key = "ipman.dialo.ai/poolName"

abbrev pub vxlan_ip_key : String
vxlan_ip_key = "ipman.dialo.ai/vxlanIp"

-- p.Annotations[key]
abbrev pub annotation : Pod → String → String
annotation p key = get_or "" (lookup key p.annotations)
