-- ===== src/Restctl/Translate.antt =====
-- `getExtra` and `translate` of cmd/restctl/main.go. The types of the package goviciclient have the
-- fields that the function sets.
pub mod Children
use ipman.Prelude.{
  ℕ, String, ◌==◌, Bool, not, List, [], ◌∷◌, Option, none, some, Slice, Map, GoMap, elems, get_or,
  lookup, insert, split, contains, if◌then◌else◌,
}
use ipman.Errors.{Try, done, fails, panics, message, as_wrapped, ◌>>=◌}
use ipman.Api.{Child, IpSecConnectionSpec, ℤ, pos}
use ipman.Restctl.Time.{codes, parse_int, format_int, or_error, normalize_time}

pub record AuthConfig : Type 0 where
  pub id : String
  pub auth : String

pub record ChildSaConfig : Type 0 where
  pub local_ts : Slice String
  pub remote_ts : Slice String
  pub in_interface_id : ℤ
  pub out_interface_id : ℤ
  pub mode : String
  pub start_action : String
  pub esp_proposals : Slice String
  pub rekey_time : String
  pub rand_packets : String
  pub updown : String
  pub hostaccess : String
  pub policies : String
  pub set_mark_in : String
  pub set_mark_out : String
  pub dpd_action : String
  pub close_action : String
  pub extra : GoMap String

-- The version is the list of its characters' codes.
pub record IkeConfig : Type 0 where
  pub local_addrs : List String
  pub remote_addrs : List String
  pub version : List ℕ
  pub local_auths : AuthConfig
  pub remote_auths : AuthConfig
  pub children : Map ChildSaConfig
  pub proposals : List String
  pub rekey_time : ℤ
  pub reauth_time : ℤ
  pub local_port : String
  pub remote_port : String
  pub pull : String
  pub dscp : String
  pub encap : String
  pub mobike : String
  pub dpd_delay : String
  pub dpd_timeout : String
  pub fragmentation : String
  pub childless : String
  pub send_certreq : String
  pub send_cert : String
  pub ppk_id : String
  pub ppk_required : String
  pub keyingtries : String
  pub unique : String
  pub over_time : String
  pub rand_time : String
  pub mediation : String
  pub mediated_by : String
  pub mediation_peer : String
  pub close_action : String
  pub pools : Slice String

-- getExtra
unfoldable pub get_extra : Map String → String → String → String
unfolding lookup
get_extra e k d = get_or d (lookup k e)

-- if val, ok := extra[key]; ok { field = val }, on a field that is empty
abbrev pub option : Map String → String → String
option extra key = get_or "" (lookup key extra)

-- The keys that the switch skips.
abbrev pub handled_keys : List String
handled_keys =
    "mode" ∷ "start_action" ∷ "esp_proposals" ∷ "rekey_time" ∷ "rand_packets" ∷ "updown"
    ∷ "hostaccess" ∷ "policies" ∷ "set_mark_in" ∷ "set_mark_out" ∷ "dpd_action" ∷ "close_action"
    ∷ []

-- The loop over the remaining options; the map is made when it is first needed.
unfoldable pub remaining : List String → Map String → GoMap String → GoMap String
unfolding contains insert
remaining handled [] m = m
remaining handled ((key, value) ∷ extra) m =
    remaining handled extra (if contains handled key then m else some (insert key value (elems m)))

abbrev pub single_proposal : Option String → Slice String
single_proposal none = none
single_proposal (some p) = some (p ∷ [])

-- One round of the loop over the children.
unfoldable pub translate_child : Child → ChildSaConfig
unfolding lookup remaining
translate_child v =
    let extra = elems v.extra in
    record {
      local_ts = v.local_ips;
      remote_ts = v.remote_ips;
      in_interface_id = v.xfrm_if_id;
      out_interface_id = v.xfrm_if_id;
      mode = get_or "tunnel" (lookup "mode" extra);
      start_action = option extra "start_action";
      esp_proposals = single_proposal (lookup "esp_proposals" extra);
      rekey_time = option extra "rekey_time";
      rand_packets = option extra "rand_packets";
      updown = option extra "updown";
      hostaccess = option extra "hostaccess";
      policies = option extra "policies";
      set_mark_in = option extra "set_mark_in";
      set_mark_out = option extra "set_mark_out";
      dpd_action = option extra "dpd_action";
      close_action = option extra "close_action";
      extra = remaining handled_keys extra none;
    }

unfoldable pub translate_children : Map Child → Map ChildSaConfig
unfolding translate_child
translate_children [] = []
translate_children ((k, v) ∷ m) = (k, translate_child v) ∷ translate_children m

-- The default when the option is missing or empty.
unfoldable pub proposals_of : Map String → List String
unfolding lookup
proposals_of extra =
    let val = option extra "proposals" in
    if val == "" then "aes256-sha256-ecp256" ∷ [] else val ∷ []

unfoldable pub pools_of : Map String → Slice String
unfolding lookup split
pools_of extra = let val = option extra "pools" in if val == "" then none else some (split b',' val)

-- rekey_time and reauth_time, with the default of four hours
abbrev pub time_option : Option String → Try ℤ
time_option none = done (pos 14400)
time_option (some val) = normalize_time (codes val)

unfoldable pub config_of : IpSecConnectionSpec → ℤ → ℤ → ℤ → IkeConfig
unfolding translate_children proposals_of pools_of format_int lookup
config_of s version rekey reauth = record {
  local_addrs = s.local_addr ∷ [];
  remote_addrs = s.remote_addr ∷ [];
  version = format_int version;
  local_auths = record { id = s.local_id; auth = "psk" };
  remote_auths = record { id = s.remote_id; auth = "psk" };
  children = translate_children s.children;
  proposals = proposals_of s.extra;
  rekey_time = rekey;
  reauth_time = reauth;
  local_port = option s.extra "local_port";
  remote_port = option s.extra "remote_port";
  pull = option s.extra "pull";
  dscp = option s.extra "dscp";
  encap = option s.extra "encap";
  mobike = option s.extra "mobike";
  dpd_delay = option s.extra "dpd_delay";
  dpd_timeout = option s.extra "dpd_timeout";
  fragmentation = option s.extra "fragmentation";
  childless = option s.extra "childless";
  send_certreq = option s.extra "send_certreq";
  send_cert = option s.extra "send_cert";
  ppk_id = option s.extra "ppk_id";
  ppk_required = option s.extra "ppk_required";
  keyingtries = option s.extra "keyingtries";
  unique = option s.extra "unique";
  over_time = option s.extra "over_time";
  rand_time = option s.extra "rand_time";
  mediation = option s.extra "mediation";
  mediated_by = option s.extra "mediated_by";
  mediation_peer = option s.extra "mediation_peer";
  close_action = option s.extra "close_action";
  pools = pools_of s.extra;
}

unfoldable pub translate : IpSecConnectionSpec → Try IkeConfig
unfolding get_extra parse_int normalize_time lookup config_of
translate s = do
  version ←
      as_wrapped "Error parsing version"
        (or_error (parse_int (codes (get_extra s.extra "version" "2"))))
  rekey ← as_wrapped "Error parsing rekey_time" (time_option (lookup "rekey_time" s.extra))
  reauth ← as_wrapped "Error parsing reauth_time" (time_option (lookup "reauth_time" s.extra))
  done (config_of s version rekey reauth)
