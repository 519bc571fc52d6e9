-- ===== src/Controller/Override/Sent.antt =====
-- What OverrideConfigAction sends for each connection.
use ipman.Prelude.{
  String, ◌==◌, ◌≡◌, ◌↔◌, inl, inr, refl, sym, ap, ◌∙◌, Bool, true, false, List, [], ◌∷◌, Map,
  get_or, lookup, nat_eq, In, Bool-cases, arith, eq_iff,
}
use ipman.Errors.{bind-done, unwrapped, done, as_wrapped}
use ipman.Api.{IpSecConnection, CharonGroup, CharonGroupRef, same_nsn}
use ipman.Controller.CorePod.{CorePod, group_of, extract_socket_path, restctl_from_pod}
use ipman.Controller.State.{IpmanPod, RestctlPodSpec}
use ipman.Controller.Desired.{get_group, ref_of}
use ipman.Restctl.Reload.{ConnData, Response}
use ipman.Controller.Override.{
  OverrideAnswers, group_at, config_groups, get_secret, config_secrets, config_data, not_in_test,
  check_reply, override_config,
}
use ipman.Controller.Override.Maps.{IsApart, config_groups-In, Given, config_secrets-In}

same_data :
    (secrets : Map String) (c : IpSecConnection) (d : ConnData)
    → c ≡ d.conn
    → d.secret ≡ get_or "" (lookup d.conn.name secrets)
    → ◌≡◌ {A = ConnData} (record { secret = get_or "" (lookup c.name secrets); conn = c }) d
same_data secrets c d same s =
    ap (λ (x : IpSecConnection). record { secret = get_or "" (lookup x.name secrets); conn = x })
      same
    ∙ ap (λ t. record { secret = t; conn = d.conn }) (sym s)

config_data-In :
    (groups : Map CharonGroup) (secrets : Map String) (node : String) (cs : List IpSecConnection)
    (d : ConnData)
    → In d (config_data groups secrets node cs) ↔ (
        In d.conn cs
        × ((group_at groups d.conn).node_name ≡ node)
        × (d.secret ≡ get_or "" (lookup d.conn.name secrets)))
unfolding config_data
config_data-In groups secrets node [] d = (λ i. absurd i, λ (i, n, s). absurd i)
config_data-In groups secrets node (c ∷ cs) d =
    let (there, back) = config_data-In groups secrets node cs d in
    elim (Bool-cases ((group_at groups c).node_name == node)) [
      | inl e ↦ rw e (
        λ x. elim x [
          | inl same ↦
              rw (sym same)
                (inl refl, ground (arith, e, eq_iff (group_at groups c).node_name node), refl)
          | inr i ↦ let (j, n, s) = there i in (inr j, n, s)
        ],
        λ (i, n, s). elim i [
          | inl same ↦ inl (same_data secrets c d same s)
          | inr j ↦ inr (back (j, n, s))
        ],
      )
      | inr e ↦ rw e (
        λ i. let (j, n, s) = there i in (inr j, n, s),
        λ (i, n, s). elim i [
          | inl same ↦ absurd (
              ground (
                arith,
                e,
                eq_iff (group_at groups c).node_name node,
                ap (λ x. (group_at groups x).node_name) same ∙ n,
              ))
          | inr j ↦ back (j, n, s)
        ],
      )
    ]

-- What restctl is told of a connection: its group, which runs on the pod's node, and its secret.
pub record IsSent (a : OverrideAnswers) (pod : CorePod) (d : ConnData) : Type 0 where
  pub group : CharonGroup
  pub listed : get_group a.groups d.conn.spec.group ≡ done group
  pub on_node : group.node_name ≡ pod.node_name
  pub own_secret :
      same_nsn (ref_of group) (group_of pod) ≡ true → get_secret a.secret d.conn ≡ done d.secret
  pub no_secret : same_nsn (ref_of group) (group_of pod) ≡ false → d.secret ≡ ""

done_eq : {A : Type 0} (x y : A) → done x ≡ done y → x ≡ y
done_eq x y h = cc

restctl_from_pod-group :
    (pod : CorePod) (im_pod : IpmanPod RestctlPodSpec)
    → restctl_from_pod pod ≡ done im_pod
    → im_pod.group ≡ group_of pod
unfolding restctl_from_pod
restctl_from_pod-group pod im_pod h =
    let (path, found, rest) = bind-done (extract_socket_path pod) _ im_pod h in
    ap (λ (p : IpmanPod RestctlPodSpec). p.group) (sym (done_eq _ im_pod rest))

config_data-IsSent :
    (a : OverrideAnswers) (pod : CorePod) (configs : List IpSecConnection)
    (groups : Map CharonGroup) (secrets : Map String)
    → config_groups a.groups configs [] ≡ done groups
    → config_secrets a.secret (group_of pod) groups configs [] ≡ done secrets
    → IsApart configs
    → (d : ConnData)
    → In d (config_data groups secrets pod.node_name configs) ↔ (In d.conn configs × IsSent a pod d)
unfolding Given lookup
config_data-IsSent a pod configs groups secrets g s apart d =
    let (there, back) = config_data-In groups secrets pod.node_name configs d in
    (
      λ i.
          let (j, on, text) = there i in
          let (own, other) =
            config_secrets-In a.secret (group_of pod) groups configs [] secrets d.conn s apart j
              refl in
          (
            j,
            record {
              group = group_at groups d.conn;
              listed = config_groups-In a.groups configs [] groups d.conn g apart j;
              on_node = on;
              own_secret = λ e. own e ∙ ap done (sym text);
              no_secret = λ e. text ∙ other e;
            },
          ),
      λ (j, sent).
          let (own, other) =
            config_secrets-In a.secret (group_of pod) groups configs [] secrets d.conn s apart j
              refl in
          let same : sent.group ≡ group_at groups d.conn =
            done_eq sent.group (group_at groups d.conn)
              (sym sent.listed ∙ config_groups-In a.groups configs [] groups d.conn g apart j) in
          back (
            j,
            ap (λ (x : CharonGroup). x.node_name) (sym same) ∙ sent.on_node,
            elim (Bool-cases (same_nsn (ref_of (group_at groups d.conn)) (group_of pod))) [
              | inl e ↦
                  done_eq d.secret (get_or "" (lookup d.conn.name secrets))
                    (sym (sent.own_secret (rw same e)) ∙ own e)
              | inr e ↦ sent.no_secret (rw same e) ∙ sym (other e)
            ],
          ),
    )

checked :
    (sent given : List ConnData) (r : Response)
    → check_reply given r ≡ done sent
    → (r.status ≡ 200) × (given ≡ sent)
checked sent given r h = elim (Bool-cases (nat_eq r.status 200)) [
  | inl e ↦ (ground (arith, e), done_eq given sent (rw (check_reply, e) at h))
  | inr e ↦ absurd (cc (rw (check_reply, e) at h))
]

sends :
    (a : OverrideAnswers) (pod : CorePod) (own : CharonGroupRef) (configs : List IpSecConnection)
    (sent : List ConnData) (groups : Map CharonGroup) (secrets : Map String) (reply : Response)
    → own ≡ group_of pod
    → config_groups a.groups configs [] ≡ done groups
    → config_secrets a.secret own groups configs [] ≡ done secrets
    → as_wrapped "Error sending post" (a.post (config_data groups secrets pod.node_name configs))
      ≡ done reply
    → check_reply (config_data groups secrets pod.node_name configs) reply ≡ done sent
    → IsApart configs
    → (a.post sent ≡ done reply)
      × (reply.status ≡ 200)
      × ((d : ConnData) → In d sent ↔ (In d.conn configs × IsSent a pod d))
sends a pod own configs sent groups secrets reply of_pod g s posted h apart =
    let (ok, same) = checked sent (config_data groups secrets pod.node_name configs) reply h in
    (
      ap a.post (sym same)
          ∙ unwrapped "Error sending post"
              (a.post (config_data groups secrets pod.node_name configs)) reply posted,
      ok,
      λ d.
          rw (sym same)
            (config_data-IsSent a pod configs groups secrets g (rw of_pod at s) apart d),
    )

-- If OverrideConfigAction.Do succeeds for connections without a name twice, restctl answered 200 to
-- exactly the connections whose group runs on its node: those of its own group with their secrets,
-- the others with an empty one.
pub override_config-IsSent :
    (is_test : Bool) (a : OverrideAnswers) (configs : List IpSecConnection) (sent : List ConnData)
    → override_config is_test a configs ≡ done sent
    → IsApart configs
    → (pod : CorePod) × (reply : Response) × (a.pod ≡ done pod)
      × (a.post sent ≡ done reply)
      × (reply.status ≡ 200)
      × ((d : ConnData) → In d sent ↔ (In d.conn configs × IsSent a pod d))
unfolding override_config
override_config-IsSent is_test a configs sent h apart =
    let (pod, there, h1) = bind-done (as_wrapped "Couldn't get pod" a.pod) _ sent h in
    let (im_pod, read, h2) = bind-done (restctl_from_pod pod) _ sent h1 in
    let (u, pinged, h3) = bind-done (not_in_test is_test) _ sent h2 in
    let (groups, g, h4) = bind-done (config_groups a.groups configs []) _ sent h3 in
    let (secrets, s, h5) =
      bind-done (config_secrets a.secret im_pod.group groups configs []) _ sent h4 in
    let (reply, posted, h6) =
      bind-done
        (as_wrapped "Error sending post"
          (a.post (config_data groups secrets pod.node_name configs)))
        _ sent h5 in
    let (answered, ok, each) =
      sends a pod im_pod.group configs sent groups secrets reply
        (restctl_from_pod-group pod im_pod read) g s posted h6 apart in
    (pod, reply, unwrapped "Couldn't get pod" a.pod pod there, answered, ok, each)
