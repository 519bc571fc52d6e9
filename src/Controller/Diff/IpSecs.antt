-- ===== src/Controller/Diff/IpSecs.antt =====
-- The state of the connections: `createIPSecs`, `GetClusterIPSecs`, `getIPSec`, `firstChildName`
-- and `diffIPSecs` of internal/controller/ipman_controller.go, and what
-- `UpdateChildConnectionStatus` of internal/controller/actions.go writes.
pub mod Converge
use ipman.Prelude.{
  String, ◌==◌, Bool, true, false, not, ◌&&◌, ◌||◌, List, [], ◌∷◌, ◌++◌, Option, none, some, GoMap,
  Map, elems, lookup, insert, keys, first, any, keep, sort, sort_by, str_le, is_blank,
  if◌then◌else◌,
}
use ipman.Api.{Child, IpSecConnection, IpSecConnectionStatus}
use ipman.Controller.State.{IpSecConnectionState}
use ipman.Controller.Action.{Action, restart_child_connection, update_child_connection_status}

abbrev pub all_up : Map Child → Map String
all_up [] = []
all_up ((k, c) ∷ m) = (k, "UP") ∷ all_up m

abbrev pub wanted_state : IpSecConnection → IpSecConnectionState
wanted_state conn = record {
  name = conn.name;
  state = "UP";
  children_state = some (all_up conn.spec.children);
  group = conn.spec.group;
}

unfoldable pub wanted_states : List IpSecConnection → List IpSecConnectionState
wanted_states [] = []
wanted_states (c ∷ cs) =
    let rest = wanted_states cs in if is_blank c.name then rest else wanted_state c ∷ rest

unfoldable pub create_ip_secs : List IpSecConnection → List IpSecConnectionState
unfolding wanted_states
create_ip_secs cl =
    sort_by (λ (a b : IpSecConnectionState). str_le a.name b.name) (wanted_states cl)

abbrev pub shown_state : IpSecConnection → IpSecConnectionState
shown_state c = record {
  name = c.name;
  state = c.status.state;
  children_state = c.status.children_state;
  group = c.spec.group;
}

-- GetClusterIPSecs, from the listed connections
unfoldable pub cluster_ip_secs : List IpSecConnection → List IpSecConnectionState
cluster_ip_secs [] = []
cluster_ip_secs (c ∷ cs) =
    let rest = cluster_ip_secs cs in if is_blank c.name then rest else shown_state c ∷ rest

unfoldable pub get_ip_sec : List IpSecConnectionState → String → Option IpSecConnectionState
unfolding first
get_ip_sec items name = first (λ (i : IpSecConnectionState). i.name == name) items

abbrev head? : List String → Option String
head? [] = none
head? (x ∷ xs) = some x

-- The first of the sorted names.
unfoldable pub first_child_name : GoMap String → Option String
first_child_name children = head? (sort (keys (elems children)))

-- The loop over the wanted children of a connection that is not down.
unfoldable pub diff_children : String → IpSecConnectionState → String → Map String → List Action
diff_children name c ip [] = []
diff_children name c ip ((child, want) ∷ m) =
    elim (lookup child (elems c.children_state)) [
      | none ↦ update_child_connection_status name ∷ []
      | some val ↦
          if c.state == ""
          then update_child_connection_status name ∷ []
          else if val == "UP"
          then []
          else restart_child_connection name child ip ∷ []
    ]
    ++ diff_children name c ip m

abbrev is_nil {ℓ} : {A : Type ℓ} → Option A → Bool
is_nil none = true
is_nil (some a) = false

abbrev pub restart_first : IpSecConnectionState → String → Option String → List Action
restart_first c ip none = []
restart_first c ip (some child) = restart_child_connection c.name child ip ∷ []

-- The first part of a round: a status that is not filled in is asked for.
abbrev pub fill_in : IpSecConnectionState → IpSecConnectionState → List Action
fill_in d c =
    if c.state == "" || is_nil c.children_state
    then update_child_connection_status d.name ∷ []
    else []

-- One round of the loop, for a wanted state and the current one of that name.
unfoldable pub diff_ip_sec : IpSecConnectionState → IpSecConnectionState → String → List Action
unfolding first_child_name diff_children
diff_ip_sec d c ip =
    fill_in d c
    ++ (if c.state == "Down"
        then restart_first c ip (first_child_name d.children_state)
        else diff_children d.name c ip (elems d.children_state))

-- The loop; a connection without a current state is passed over.
unfoldable pub diff_states_of :
    List IpSecConnectionState → List IpSecConnectionState → String → List Action
unfolding get_ip_sec diff_ip_sec
diff_states_of [] current ip = []
diff_states_of (d ∷ ds) current ip =
    elim (get_ip_sec current d.name) [ none ↦ [] | some c ↦ diff_ip_sec d c ip ]
    ++ diff_states_of ds current ip

unfoldable pub diff_ip_secs :
    List IpSecConnectionState → List IpSecConnectionState → String → List Action
unfolding diff_states_of keep any
diff_ip_secs desired current ip =
    diff_states_of
      (keep
        (λ (d : IpSecConnectionState).
          any (λ (s : IpSecConnectionState). s.name == d.name && not (s.name == "")) current)
        desired)
      current ip

-- The loop over ipsec.Spec.Children that writes "UP"; the map is made when it is first needed.
unfoldable pub set_up : List String → GoMap String → GoMap String
set_up [] m = m
set_up (k ∷ ks) m = set_up ks (some (insert k "UP" (elems m)))

-- What the action UpdateChildConnectionStatus writes to the connection's status.
unfoldable pub mark_up : IpSecConnection → IpSecConnection
unfolding set_up
mark_up c = record c {
  status = record c.status {
    children_state = set_up (keys c.spec.children) c.status.children_state;
    state = "UP";
  };
}
