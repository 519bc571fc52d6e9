-- ===== src/Controller/Diff/Proxy/Loaded.antt =====
-- When `diffProxy` sends restctl its configuration again.
use ipman.Prelude.{
  Option, some, ap, ◌∙◌, ◌&&◌, ℕ, zero, suc, ◌-◌, String, ◌==◌, ◌≡◌, ◌≢◌, ◌⊎◌, inl, inr, refl, Bool,
  true, false, not, List, [], ◌∷◌, ◌++◌, length, any, keep, contains, contains-append, eq_iff,
  arith,
}
use ipman.Api.{IpSecConnection, CharonGroupRef, same_nsn}
use ipman.Controller.State.{IpmanPod, RestctlPodSpec}
use ipman.Controller.Diff.Pods.{compare_pods}
use ipman.Controller.Action.{override_config}
use ipman.Controller.Diff.Proxy.{
  of_group, diff_proxy, Tracked, empties, delete_in_place, is_conn, track_loaded, any_extra,
  compare_loaded,
}

contains-empties : (k : ℕ) (n : String) → n ≢ "" → contains (empties k) n ≡ false
unfolding contains any
contains-empties zero n h = refl
contains-empties (suc k) n h = ground (arith, eq_iff "" n, contains-empties k n h)

contains-keep_not :
    (p : String → Bool) (names : List String) (n : String)
    → contains names n ≡ false
    → contains (keep p names) n ≡ false
unfolding contains keep any
contains-keep_not p [] n h = refl
contains-keep_not p (m ∷ names) n h = ground (arith, contains-keep_not p names n)

contains-delete_in_place_not :
    (names : List String) (m n : String)
    → contains names n ≡ false
    → n ≢ ""
    → contains (delete_in_place m names) n ≡ false
unfolding delete_in_place
contains-delete_in_place_not names m n h d =
    let p = λ (s : String). not (s == m) in
    let k = length names - length (keep p names) in
    ground (
      arith,
      contains-keep_not p names n,
      contains-append (keep p names) (empties k) n,
      contains-empties k n d,
    )

track_loaded-false :
    (cs : List IpSecConnection) (loaded missing : List String)
    → (track_loaded cs loaded missing false).1 ≡ false
unfolding track_loaded
track_loaded-false [] loaded missing = refl
track_loaded-false (c ∷ cs) loaded missing = ground (
  arith,
  track_loaded-false cs loaded (delete_in_place c.name missing),
  track_loaded-false cs loaded missing,
  track_loaded-false cs loaded (missing ++ c.name ∷ []),
)

-- A connection that is neither loaded nor noted clears the flag.
track_loaded_lem :
    (cs : List IpSecConnection) (loaded missing : List String) (flag : Bool) (n : String)
    → is_conn cs n ≡ true
    → contains loaded n ≡ false
    → contains missing n ≡ false
    → n ≢ ""
    → (track_loaded cs loaded missing flag).1 ≡ false
unfolding track_loaded any contains
track_loaded_lem [] loaded missing flag n c l m d = ground arith
track_loaded_lem (k ∷ cs) loaded missing flag n c l m d = ground (
  arith,
  eq_iff k.name n,
  contains-delete_in_place_not missing k.name n m d,
  track_loaded-false cs loaded (missing ++ k.name ∷ []),
  track_loaded_lem cs loaded (delete_in_place k.name missing) flag n,
  track_loaded_lem cs loaded missing flag n,
)

any_extra_lem :
    (gs : List IpSecConnection) (loaded : List String) (n : String)
    → is_conn gs n ≡ false
    → contains loaded n ≡ true
    → any_extra gs loaded ≡ true
unfolding any_extra contains any
any_extra_lem gs [] n c l = ground arith
any_extra_lem gs (m ∷ loaded) n c l = ground (arith, eq_iff m n, any_extra_lem gs loaded n)

compare_loaded_override :
    (pod_name : String) (conns group_conns : List IpSecConnection) (loaded : List String)
    (st : Tracked) (n : String)
    → ((is_conn group_conns n ≡ true)
        × (contains loaded n ≡ false)
        × (contains st.not_loaded_conns n ≡ false)
        × (n ≢ ""))
      ⊎ ((is_conn group_conns n ≡ false) × (contains loaded n ≡ true))
    → (compare_loaded pod_name conns group_conns loaded st).0
      ≡ override_config pod_name group_conns ∷ []
unfolding compare_loaded
compare_loaded_override pod_name conns gs loaded st n (inl (c, l, m, d)) =
    ground (arith, track_loaded_lem gs loaded st.not_loaded_conns true n c l m d)
compare_loaded_override pod_name conns gs loaded st n (inr (c, l)) =
    ground (arith, any_extra_lem gs loaded n c l)

is_conn-of_group :
    (gr : CharonGroupRef) (cs : List IpSecConnection) (n : String)
    → is_conn (of_group gr cs) n
      ≡ any (λ (c : IpSecConnection). c.name == n && same_nsn gr c.spec.group) cs
unfolding keep any
is_conn-of_group gr [] n = refl
is_conn-of_group gr (c ∷ cs) n = ground (arith, is_conn-of_group gr cs n)

-- A connection of this name, of the group.
abbrev pub has_conn : CharonGroupRef → List IpSecConnection → String → Bool
has_conn gr cs n = any (λ (c : IpSecConnection). c.name == n && same_nsn gr c.spec.group) cs

-- If restctl runs as wanted and answers, and it has not loaded a named connection of its group that
-- was not noted before, or has loaded one that is not of its group, then `diffProxy` sends it the
-- configuration of the connections of its group, and does nothing else.
pub diff_proxy_override :
    (configs : String → Option (List String)) (d c : IpmanPod RestctlPodSpec)
    (conns : List IpSecConnection) (st : Tracked) (loaded : List String) (n : String)
    → compare_pods (some d) (some c) ≡ true
    → configs c.meta.ip ≡ some loaded
    → ((has_conn d.group conns n ≡ true)
        × (contains loaded n ≡ false)
        × (contains st.not_loaded_conns n ≡ false)
        × (n ≢ ""))
      ⊎ ((has_conn d.group conns n ≡ false) × (contains loaded n ≡ true))
    → (st2 : Tracked) × (diff_proxy configs (some d) (some c) conns st
        ≡ some (
          override_config c.meta.name
                (keep (λ (x : IpSecConnection). same_nsn d.group x.spec.group) conns)
              ∷ [],
          st2,
        ))
unfolding diff_proxy
diff_proxy_override configs d c conns st loaded n same answered h =
    let gs = of_group d.group conns in
    let sends = compare_loaded_override c.meta.name conns gs loaded st n (elim h [
      | inl (k, l, m, e) ↦ inl (is_conn-of_group d.group conns n ∙ k, l, m, e)
      | inr (k, l) ↦ inr (is_conn-of_group d.group conns n ∙ k, l)
    ]) in
    (
      (compare_loaded c.meta.name conns gs loaded st).1,
      rw (same, answered)
          (ap (λ acts. some (acts, (compare_loaded c.meta.name conns gs loaded st).1)) sends),
    )
