-- ===== src/Controller/Override.antt =====
-- `OverrideConfigAction.Do` of internal/controller/actions.go: what the controller sends to restctl.
pub mod Maps
pub mod Sent
use ipman.Prelude.{
  ℕ, String, ◌==◌, Bool, true, false, List, [], ◌∷◌, Option, none, some, Map, GoMap, elems, get_or,
  lookup, insert, nat_eq, if◌then◌else◌,
}
use ipman.Errors.{Try, done, fails, panics, message, as_wrapped, ◌>>=◌}
use ipman.Api.{IpSecConnection, CharonGroup, CharonGroupRef, SecretRef, same_nsn}
use ipman.Controller.CorePod.{CorePod, group_of, restctl_from_pod}
use ipman.Controller.Desired.{get_group, ref_of}
use ipman.Restctl.Reload.{ConnData, Response}

-- What is answered: `post` to /reload, with the decoded body. The answers to the pings only say how
-- long Do waits.
pub record OverrideAnswers : Type 0 where
  pub pod : Try CorePod
  pub groups : Try (List CharonGroup)
  pub secret : SecretRef → Try (GoMap String)
  pub post : List ConnData → Try Response

-- The zero value that a missing key of a Go map gives.
abbrev pub no_group : CharonGroup
no_group = record {
  name = "";
  namespace = "";
  host_network = false;
  charon_extra_annotations = none;
  node_name = "";
  interface_name = none;
}

abbrev pub group_at : Map CharonGroup → IpSecConnection → CharonGroup
group_at groups c = get_or no_group (lookup c.name groups)

-- The loop that makes the map of groups.
unfoldable pub config_groups :
    Try (List CharonGroup) → List IpSecConnection → Map CharonGroup → Try (Map CharonGroup)
unfolding get_group insert
config_groups listed [] m = done m
config_groups listed (c ∷ cs) m = do
  g ← get_group listed c.spec.group
  config_groups listed cs (insert c.name g m)

abbrev pub not_empty : String → Try String
not_empty text = if text == "" then fails (message "Error, empty secret") else done text

-- The secret of a connection. A missing key gives the empty text.
unfoldable pub get_secret : (SecretRef → Try (GoMap String)) → IpSecConnection → Try String
unfolding lookup
get_secret secret c = do
  data_of ← as_wrapped "Couldn't get secret" (secret c.spec.secret_ref)
  not_empty (get_or "" (lookup c.spec.secret_ref.key (elems data_of)))

-- The loop that makes the map of secrets: `own` is the group of the pod.
unfoldable pub config_secrets :
    (SecretRef → Try (GoMap String))
    → CharonGroupRef
    → Map CharonGroup
    → List IpSecConnection
    → Map String
    → Try (Map String)
unfolding get_secret same_nsn lookup insert
config_secrets secret own groups [] m = done m
config_secrets secret own groups (c ∷ cs) m = elim (same_nsn (ref_of (group_at groups c)) own) [
  | false ↦ config_secrets secret own groups cs m
  | true ↦
      get_secret secret c >>= (λ text. config_secrets secret own groups cs (insert c.name text m))
]

-- The loop that makes the data.
unfoldable pub config_data :
    Map CharonGroup → Map String → String → List IpSecConnection → List ConnData
unfolding lookup
config_data groups secrets node [] = []
config_data groups secrets node (c ∷ cs) =
    let rest = config_data groups secrets node cs in
    if (group_at groups c).node_name == node
    then record { secret = get_or "" (lookup c.name secrets); conn = c } ∷ rest
    else rest

abbrev pub not_in_test : Bool → Try (Unit {0})
not_in_test true = fails (message "Couldn't send ping request to proxy pod")
not_in_test false = done tt

-- The end of Do: the error of another status is the response itself, here its text.
abbrev pub check_reply : List ConnData → Response → Try (List ConnData)
check_reply sent r = if nat_eq r.status 200 then done sent else fails (message "Reload")

-- OverrideConfigAction.Do with IsTest, the configurations and the answers: the data that it sent.
unfoldable pub override_config : Bool → OverrideAnswers → List IpSecConnection → Try (List ConnData)
unfolding config_groups config_secrets config_data restctl_from_pod
override_config is_test a configs = do
  pod ← as_wrapped "Couldn't get pod" a.pod
  im_pod ← restctl_from_pod pod
  pinged ← not_in_test is_test
  groups ← config_groups a.groups configs []
  secrets ← config_secrets a.secret im_pod.group groups configs []
  reply ←
      as_wrapped "Error sending post" (a.post (config_data groups secrets pod.node_name configs))
  check_reply (config_data groups secrets pod.node_name configs) reply
