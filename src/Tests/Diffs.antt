-- ===== src/Tests/Diffs.antt =====
-- The theorems on the group and proxy diffs at concrete inputs.
use ipman.Prelude.{
  keep, String, ◌==◌, ◌≡◌, ◌≢◌, inl, refl, Bool, true, false, ◌&&◌, [], ◌∷◌, none, some, contains,
  any, eq_iff, arith,
}
use ipman.Api.{CharonGroupRef, IpSecConnection, same_nsn}
use ipman.Controller.Action.{override_config}
use ipman.Controller.Diff.Proxy.{Tracked, is_conn, track_all, diff_proxy}
use ipman.Controller.Diff.Proxy.Names.{contains-track_all}
use ipman.Controller.Diff.Proxy.Loaded.{has_conn, diff_proxy_override}
use ipman.Controller.Diff.States.{DeepEqual}
use ipman.Controller.State.{IpmanPod, RestctlPodSpec}
use ipman.Controller.Diff.Pods.{compare_pods}
use ipman.Tests.Data.{connection}

office_is_listed : is_conn (connection ∷ []) "office" ≡ true
unfolding any
office_is_listed = refl

office_is_named : ◌≢◌ {A = String} "office" ""
office_is_named e = ground (arith, eq_iff "office" "", e)

contains-track_all_example :
    contains (track_all (connection ∷ []) ("gone" ∷ "lost" ∷ [])) "office" ≡ true
contains-track_all_example =
    contains-track_all (connection ∷ []) ("gone" ∷ "lost" ∷ []) "office" office_is_listed
      office_is_named

abbrev pub untracked : Tracked
untracked = record { all_conns = []; not_loaded_conns = [] }

nothing_is_loaded : contains [] "office" ≡ false
unfolding contains
nothing_is_loaded = refl

abbrev nsn_equal : CharonGroupRef → CharonGroupRef → Bool
nsn_equal a b = a.namespace == b.namespace && a.name == b.name

-- Groups are compared by their names only.
abbrev pub by_name : DeepEqual
by_name = record {
  groups = λ g h. nsn_equal g.group_ref h.group_ref;
  charons = λ a b. false;
  proxies = λ a b. false;
  xfrms = λ a b. false;
}

abbrev restctl_on : String → IpmanPod RestctlPodSpec
restctl_on node = record {
  meta = record {
    name = "restctl-1";
    namespace = "ipman";
    ip = "10.0.0.2";
    node_name = node;
    image = "restctl";
  };
  spec = record { host_path = "/run" };
  annotations = none;
  group = record { name = "a"; namespace = "ipman" };
}

runs_as_wanted : compare_pods (some (restctl_on "n1")) (some (restctl_on "n1")) ≡ true
unfolding compare_pods
runs_as_wanted = refl

-- A group whose connection restctl has not loaded, and another group's.
abbrev of_a : IpSecConnection
of_a = record connection {
  spec = record connection.spec { group = record { name = "a"; namespace = "ipman" } };
}

abbrev elsewhere : IpSecConnection
elsewhere = record connection { name = "branch" }

office_of_a : has_conn (restctl_on "n1").group (of_a ∷ elsewhere ∷ []) "office" ≡ true
unfolding any same_nsn
office_of_a = refl

diff_proxy_override_example :
    (st2 : Tracked) × (diff_proxy
        (λ ip. some [])
        (some (restctl_on "n1"))
        (some (restctl_on "n1"))
        (of_a ∷ elsewhere ∷ [])
        untracked
      ≡ some (
        override_config "restctl-1" (
              keep
                (λ (x : IpSecConnection). same_nsn (restctl_on "n1").group x.spec.group)
                (of_a ∷ elsewhere ∷ []))
            ∷ [],
        st2,
      ))
diff_proxy_override_example =
    diff_proxy_override (λ ip. some []) (restctl_on "n1") (restctl_on "n1") (of_a ∷ elsewhere ∷ [])
      untracked [] "office" runs_as_wanted refl
      (inl (office_of_a, nothing_is_loaded, nothing_is_loaded, office_is_named))
