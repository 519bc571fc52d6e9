-- ===== src/Tests/Restctl.antt =====
-- The theorems on restctl at concrete inputs.
use ipman.Prelude.{
  any, ◌⊎◌, ℕ, ◌+◌, ◌<◌, ◌≤◌, String, ◌≡◌, ◌≢◌, ◌↔◌, inr, refl, true, false, List, [], ◌∷◌, ◌++◌,
  none, some, All, In, Map, lookup, has_key, values, contains, nat_eq, arith, eq_iff,
}
use ipman.Errors.{done}
use ipman.Api.{IpSecConnection, pos}
use ipman.Swan.Status.{FailureInfo}
use ipman.Controller.Action.{restart_child_connection}
use ipman.Controller.Diff.IpSecs.{wanted_state, shown_state, diff_ip_sec}
use ipman.Restctl.Downgrade.{downgrade, restart_child}
use ipman.Restctl.Downgrade.Recovery.{diff_ip_sec-downgrade, restart_child-downgrade}
use ipman.Restctl.Time.{format_nat, normalize_time}
use ipman.Restctl.Time.RoundTrip.{hours, normalize_time-format_nat}
use ipman.Restctl.Translate.{IkeConfig, config_of}
use ipman.Restctl.Reload.{
  ConnData, Client, Reload, Wanted, made, runs_on, flatten, make_client, load, reload_config,
}
use ipman.Restctl.Reload.Replies.{
  IsGiven, IsApart, is_config, names_conn, IsLoaded, In-load_unloaded, reload_config_ok,
}
use ipman.Restctl.Reload.Clients.{make_client_first}
use ipman.Tests.Data.{connection}

abbrev red_fails : FailureInfo
red_fails = record { connection = "office"; child = "red" }

abbrev both_up : Map String
both_up = ("red", "UP") ∷ ("blue", "UP") ∷ []

abbrev up : IpSecConnection
up = record connection {
  status = record connection.status { state = "UP"; children_state = some both_up };
}

red_is_named : ◌≢◌ {A = String} "red" ""
red_is_named e = ground (arith, eq_iff "red" "", e)

red_is_listed : has_key "red" connection.spec.children ≡ true
unfolding has_key
red_is_listed = refl

diff_ip_sec-downgrade_example :
    In
      (restart_child_connection "office" "red" "10.0.0.2")
      (diff_ip_sec (wanted_state up) (shown_state (downgrade red_fails up)) "10.0.0.2")
diff_ip_sec-downgrade_example =
    diff_ip_sec-downgrade red_fails up "red" "10.0.0.2" (inr (refl, red_is_named, red_is_listed))

red_is_up : lookup "red" both_up ≡ some "UP"
unfolding lookup
red_is_up = refl

none_is_down : contains (values both_up) "Down" ≡ false
unfolding contains values
none_is_down = refl

restart_child-downgrade_example :
    restart_child
      (λ c. none)
      "office"
      "red"
      (done (record { code = 200; body = "ok" }))
      (done (downgrade red_fails up))
    ≡ done up
restart_child-downgrade_example =
    restart_child-downgrade (λ c. none) red_fails up both_up "ok" red_is_named refl refl red_is_up
      none_is_down refl

normalize_time-format_nat_example : normalize_time (format_nat 4 ++ b'h' ∷ []) ≡ done (pos 14400)
normalize_time-format_nat_example = normalize_time-format_nat hours 4 (omega arith)

abbrev config : IkeConfig
config = config_of connection.spec (pos 2) (pos 14400) (pos 14400)

abbrev client : Client
client = record {
  loaded_conns = ("office" ∷ []) ∷ ("gone" ∷ []) ∷ [];
  load_shared = λ k. true;
  load_conns = λ m. true;
  list_conns = none;
}

abbrev configs : List ConnData
configs = record { secret = " psk\n"; conn = connection } ∷ []

abbrev reloaded : Reload
reloaded = load client configs (record {
  to_load = ("office", config) ∷ [];
  secrets = ("office", record { secret = "psk"; owners = "1.2.3.4" ∷ [] }) ∷ [];
  errs = [];
})

reload_runs : reload_config client (some (some configs)) ≡ done reloaded
unfolding reload_config
reload_runs = refl

status_is_ok : reloaded.response.status ≡ 200
unfolding load
status_is_ok = refl

apart : IsApart configs
unfolding IsApart is_config
apart = (refl, tt)

reload_config_ok_example : All (IsGiven reloaded.to_load) configs × IsLoaded client reloaded.to_load
reload_config_ok_example = reload_config_ok client configs reloaded reload_runs status_is_ok apart

abbrev collected : Wanted
collected = record { to_load = []; secrets = []; errs = [] }

gone_is_named : ◌≢◌ {A = String} "gone" ""
gone_is_named e = ground (arith, eq_iff "gone" "", e)

In-load_unloaded_example : In "gone" (load client configs collected).unloaded ↔ (
    (configs ≢ [])
    × In "gone" (flatten client.loaded_conns)
    × (any (names_conn "gone") configs ≡ false))
In-load_unloaded_example = In-load_unloaded client configs collected "gone" gone_is_named

-- The first two rounds fail.
make_client_first_example :
    ((n : ℕ) × (make_client 4 (λ k. nat_eq k 2) 0 0 ≡ made n)
      × (0 ≤ n)
      × (n < 0 + 4)
      × (nat_eq n 2 ≡ true)
      × ((j : ℕ) → 0 ≤ j → j < n → nat_eq j 2 ≡ false))
    ⊎ ((make_client 4 (λ k. nat_eq k 2) 0 0 ≡ runs_on)
        × ((j : ℕ) → 0 ≤ j → j < 0 + 4 → nat_eq j 2 ≡ false))
make_client_first_example = make_client_first 4 (λ k. nat_eq k 2) 0
