-- ===== src/Restctl/Reload.antt =====
-- `reloadConfig` of cmd/restctl/main.go. Parameters: what the client of the daemon's vici socket
-- answers, and the decoded request. Left out: the texts of the errors, and what was done before a
-- panic.
pub mod Replies
pub mod Clients
use ipman.Prelude.{
  ℕ, zero, suc, ◌+◌, ◌*◌, String, Bool, true, false, not, ◌&&◌, List, [], ◌∷◌, ◌++◌, Option, none,
  some, Map, insert, delete, keys, values, contains, length, keep, trim_space, ltb, if◌then◌else◌,
}
use ipman.Errors.{Try, done, fails, panics}
use ipman.Api.{Child, IpSecConnection}
use ipman.Restctl.Translate.{IkeConfig, translate}

pub record ConnData : Type 0 where
  pub secret : String
  pub conn : IpSecConnection

-- goviciclient.Key of the type IKE
pub record Key : Type 0 where
  pub secret : String
  pub owners : List String

-- What the client answers: the connections that are loaded, to each secret, to the connections, and
-- the connections afterwards. An error is none, or false.
pub record Client : Type 0 where
  pub loaded_conns : List (List String)
  pub load_shared : Key → Bool
  pub load_conns : Map IkeConfig → Bool
  pub list_conns : Option (List (List String))

-- ConnectionLoadError, with the status code and, of the errors, for whom they are.
pub record Response : Type 0 where
  pub status : ℕ
  pub failed_conns : List String
  pub failed_secrets : List String
  pub errs : List String

-- What the handler did: the connections it unloaded, the keys it loaded, the configurations it
-- loaded, and its response.
pub record Reload : Type 0 where
  pub unloaded : List String
  pub shared : List Key
  pub to_load : Map IkeConfig
  pub response : Response

abbrev pub max_tries : ℕ
max_tries = 30

-- How the loop that makes a client ends: with the client of a round, at the test of its counter, or
-- not within the fuel.
pub data Ending : Type 0 where
  made : ℕ → Ending
  gave_up : Ending
  runs_on : Ending

-- The loop that makes a client; `attempt k` says whether round k makes one. The body of the loop
-- leaves `tries` as it is.
unfoldable pub make_client : ℕ → (ℕ → Bool) → ℕ → ℕ → Ending
make_client zero attempt tries k = runs_on
make_client (suc fuel) attempt tries k =
    let rest = make_client fuel attempt tries (k + 1) in
    if ltb tries max_tries then (if attempt k then made k else rest) else gave_up

-- make([]string, n): empty names in front of the wanted ones.
unfoldable pub blanks : ℕ → List String
blanks zero = []
blanks (suc n) = "" ∷ blanks n

unfoldable pub config_names : List ConnData → List String
config_names [] = []
config_names (c ∷ cs) = c.conn.name ∷ c.conn.spec.name ∷ config_names cs

unfoldable pub wanted_names : List ConnData → List String
unfolding blanks config_names
wanted_names cs = blanks (length cs * 2) ++ config_names cs

-- for range data.Configs
unfoldable pub once_each : {A : Type 0} → List ConnData → A → List A
once_each [] a = []
once_each (c ∷ cs) a = a ∷ once_each cs a

unfoldable pub unload_names : List String → List ConnData → List String → List String
unfolding contains once_each
unload_names wanted cs [] = []
unload_names wanted cs (name ∷ names) =
    (if not (contains wanted name) then once_each cs name else []) ++ unload_names wanted cs names

unfoldable pub unload_all : List String → List ConnData → List (List String) → List String
unfolding unload_names
unload_all wanted cs [] = []
unload_all wanted cs (names ∷ rest) = unload_names wanted cs names ++ unload_all wanted cs rest

-- What the loop over the configurations collects.
pub record Wanted : Type 0 where
  pub to_load : Map IkeConfig
  pub secrets : Map Key
  pub errs : List String

abbrev pub start : Wanted
start = record { to_load = []; secrets = []; errs = [] }

abbrev pub add_config : ConnData → Try IkeConfig → Wanted → Wanted
add_config c (done cfg) w = record w {
  to_load = insert c.conn.spec.name cfg w.to_load;
  secrets =
      insert c.conn.spec.name
        (record { secret = trim_space c.secret; owners = c.conn.spec.remote_addr ∷ [] }) w.secrets;
}
add_config c (fails e) w = record w { errs = w.errs ++ c.conn.spec.name ∷ [] }
add_config c panics w = w

-- The loop over the configurations; a panic of translate ends the handler.
unfoldable pub collect_configs : List ConnData → Wanted → Try Wanted
unfolding translate insert trim_space
collect_configs [] w = done w
collect_configs (c ∷ cs) w = elim (translate c.conn.spec) [
  | done cfg ↦ collect_configs cs (add_config c (done cfg) w)
  | fails e ↦ collect_configs cs (add_config c (fails e) w)
  | panics ↦ panics
]

-- The loop over the secrets: the names whose secret is refused.
unfoldable pub refused_secrets : (Key → Bool) → Map Key → List String
refused_secrets load [] = []
refused_secrets load ((k, key) ∷ m) =
    let rest = refused_secrets load m in if load key then rest else k ∷ rest

unfoldable pub delete_all : List String → Map IkeConfig → Map IkeConfig
unfolding delete
delete_all [] m = m
delete_all (k ∷ ks) m = delete_all ks (delete k m)

unfoldable pub flatten : List (List String) → List String
flatten [] = []
flatten (xs ∷ rest) = xs ++ flatten rest

abbrev pub not_listed : Option (List (List String)) → Map IkeConfig → List String
not_listed none m = []
not_listed (some conns) m = keep (λ k. not (contains (flatten conns) k)) (keys m)

-- The names that were not loaded, which are looked up only after an error.
unfoldable pub not_loaded : Client → Map IkeConfig → List String
unfolding flatten keep contains keys
not_loaded client m = if client.load_conns m then [] else not_listed client.list_conns m

abbrev pub list_error : Option (List (List String)) → List String
list_error none = "ListConns" ∷ []
list_error (some conns) = []

unfoldable pub load_errors : Client → Map IkeConfig → List String
load_errors client m = if client.load_conns m then [] else list_error client.list_conns

abbrev is_empty {ℓ} : {A : Type ℓ} → List A → Bool
is_empty [] = true
is_empty (x ∷ xs) = false

abbrev pub respond : List String → List String → List String → Response
respond conns secrets errs = record {
  status = if is_empty conns && is_empty secrets && is_empty errs then 200 else 400;
  failed_conns = conns;
  failed_secrets = secrets;
  errs = errs;
}

-- The part behind the loop over the configurations.
unfoldable pub load : Client → List ConnData → Wanted → Reload
unfolding wanted_names unload_all refused_secrets delete_all not_loaded load_errors values
load client cs w =
    let refused = refused_secrets client.load_shared w.secrets in
    let to_load = delete_all refused w.to_load in
    record {
      unloaded = unload_all (wanted_names cs) cs client.loaded_conns;
      shared = values w.secrets;
      to_load = to_load;
      response = respond (not_loaded client to_load) refused (w.errs ++ load_errors client to_load);
    }

-- An unreadable request, as its decoding tells it, is refused; nothing is loaded.
abbrev refuse_request : Reload
refuse_request = record {
  unloaded = [];
  shared = [];
  to_load = [];
  response = record { status = 400; failed_conns = []; failed_secrets = []; errs = "request" ∷ [] };
}

-- reloadConfig, once it has a client; the request is decoded, and its slice of configurations can
-- be nil.
unfoldable pub reload_config : Client → Option (Option (List ConnData)) → Try Reload
unfolding collect_configs load
reload_config client none = done refuse_request
reload_config client (some none) = done refuse_request
reload_config client (some (some cs)) = elim (collect_configs cs start) [
  | done w ↦ done (load client cs w)
  | fails e ↦ fails e
  | panics ↦ panics
]
