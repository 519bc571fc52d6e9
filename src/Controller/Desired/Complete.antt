-- ===== src/Controller/Desired/Complete.antt =====
-- The desired state has the xfrm pod of every child of every connection.
use ipman.Prelude.{
  false, String, ◌==◌, ◌≡◌, refl, Bool, true, not, ◌&&◌, ◌||◌, List, [], ◌∷◌, map, Map, any, first,
  All, delete_func, In, In-map, In-keep, In-append-left, In-append-right, any_iff, first-some,
  first-none, Option-cases, inl, inr, sort_by-In, eq_iff, arith, sym, ap, ◌∙◌, str_le,
}
use ipman.Errors.{Try, done, fails, wrapped}
use ipman.Api.{Child, IpSecConnection, CharonGroup, CharonGroupRef}
use ipman.Controller.State.{XfrmPod, GroupState}
use ipman.Controller.CorePod.{CorePod}
use ipman.Controller.Create.{Envs}
use ipman.Controller.Workers.{Workers, workers_at, collect_workers, create_workers}
use ipman.Controller.Diff.Pods.{find_xfrms}
use ipman.Controller.Desired.{
  group_not_found, or_not_found, get_group, ref_of, create_xfrm, child_xfrms, node_of, xfrms_of,
  create_xfrms, add_group, collect_groups, sort_pods, group_state, create_cluster_nodes,
  create_nodes, create_desired_state,
}

abbrev same_ref : CharonGroupRef → CharonGroup → Bool
same_ref r h = h.name == r.name && h.namespace == r.namespace

any-add_group :
    (r : CharonGroupRef) (g : CharonGroup) (hs : List CharonGroup)
    → any (same_ref r) (add_group g hs) ≡ (same_ref r g || any (same_ref r) hs)
unfolding add_group any
any-add_group r g [] = refl
any-add_group r g (h ∷ hs) =
    ground (arith, any-add_group r g hs, eq_iff h.name g.name, eq_iff h.namespace g.namespace)

-- The connection's group is listed, by its name.
abbrev pub has_group : List CharonGroup → IpSecConnection → Bool
has_group listed c = any (λ (g : CharonGroup). g.name == c.spec.group.name) listed

get_group_found :
    (listed : List CharonGroup) (c : IpSecConnection)
    → has_group listed c ≡ true
    → (g : CharonGroup) × (get_group (done listed) c.spec.group ≡ done g)
unfolding get_group
get_group_found listed c h =
    elim (Option-cases (first (λ (g : CharonGroup). g.name == c.spec.group.name) listed)) [
      | inl e ↦ cc (first-none (λ (g : CharonGroup). g.name == c.spec.group.name) listed e)
      | inr (g, e) ↦ (g, ap (or_not_found c.spec.group.name) e)
    ]

-- What CreateClusterNodes collects: no group is lost, and every connection's is there.
record Collected (listed gs : List CharonGroup) (cl : List IpSecConnection) (acc : List CharonGroup)
    : Type 0 where
  collected : collect_groups (done listed) cl acc ≡ done gs
  kept : (r : CharonGroupRef) → any (same_ref r) acc ≡ true → any (same_ref r) gs ≡ true
  found :
      (c : IpSecConnection) (g : CharonGroup)
      → In c cl
      → get_group (done listed) c.spec.group ≡ done g
      → any (same_ref (ref_of g)) gs ≡ true

same_ref_refl : (g : CharonGroup) → same_ref (ref_of g) g ≡ true
same_ref_refl g = ground (arith, eq_iff g.name g.name, eq_iff g.namespace g.namespace)

done_eq : {g h : CharonGroup} → done g ≡ done h → g ≡ h
done_eq e = cc

collect_groups_lem :
    (listed : List CharonGroup) (cl : List IpSecConnection) (acc : List CharonGroup)
    → All (λ c. has_group listed c ≡ true) cl
    → (gs : List CharonGroup) × Collected listed gs cl acc
unfolding collect_groups
collect_groups_lem listed [] acc h =
    (acc, record { collected = refl; kept = λ r i. i; found = λ c g i e. absurd i })
collect_groups_lem listed (c ∷ cl) acc (here, there) =
    let (g, e) = get_group_found listed c here in
    let (gs, rest) = collect_groups_lem listed cl (add_group g acc) there in
    (
      gs,
      record {
        collected = rw e rest.collected;
        kept = λ r i. rest.kept r (ground (arith, any-add_group r g acc));
        found = λ c2 g2 i e2. elim i [
          | inl same ↦
              let eq : g2 ≡ g = cc in
              rw eq (
                rest.kept (ref_of g)
                  (ground (arith, any-add_group (ref_of g) g acc, same_ref_refl g)))
          | inr later ↦ rest.found c2 g2 later e2
        ];
      },
    )

module _ (e : Envs) (ws : Workers) where
  child_xfrms-In :
      (node_name : String) (conn : IpSecConnection) (k : String) (c : Child) (m : Map Child)
      → In (k, c) m
      → In
          (create_xfrm e node_name conn (workers_at ws conn.name c.name) c)
          (child_xfrms e node_name conn ws m)
  unfolding child_xfrms
  child_xfrms-In node_name conn k c [] h = absurd h
  child_xfrms-In node_name conn k c ((j, d) ∷ m) (inl same) = inl (
      ap
        (λ (x : String × Child).
          create_xfrm e node_name conn (workers_at ws conn.name x.1.name) x.1)
        same)
  child_xfrms-In node_name conn k c ((j, d) ∷ m) (inr h) =
      inr (child_xfrms-In node_name conn k c m h)

  xfrms_of-In :
      (listed : Try (List CharonGroup)) (g : CharonGroup) (conn : IpSecConnection) (k : String)
      (c : Child) (cl : List IpSecConnection)
      → get_group listed conn.spec.group ≡ done g
      → In conn cl
      → In (k, c) conn.spec.children
      → In
          (create_xfrm e g.node_name conn (workers_at ws conn.name c.name) c)
          (xfrms_of e listed ws cl)
  unfolding xfrms_of
  xfrms_of-In listed g conn k c [] found h i = absurd h
  xfrms_of-In listed g conn k c (conn2 ∷ cl) found (inl same) i =
      let own = child_xfrms-In g.node_name conn k c conn.spec.children i in
      In-append-left (create_xfrm e g.node_name conn (workers_at ws conn.name c.name) c)
        (child_xfrms e (node_of (get_group listed conn2.spec.group)) conn2 ws conn2.spec.children)
        (xfrms_of e listed ws cl) (rw (same, found) own)
  xfrms_of-In listed g conn k c (conn2 ∷ cl) found (inr later) i =
      In-append-right _
        (child_xfrms e (node_of (get_group listed conn2.spec.group)) conn2 ws conn2.spec.children) _
        (xfrms_of-In listed g conn k c cl found later i)

find_xfrms-In :
    (x : XfrmPod) (ps : List XfrmPod) (r : CharonGroupRef)
    → In x ps
    → x.group ≡ r
    → In x (find_xfrms ps r)
unfolding find_xfrms delete_func
find_xfrms-In x ps r i same =
    (In-keep
        (λ (p : XfrmPod).
          not (not (p.group.name == r.name) || not (p.group.namespace == r.namespace)))
        x ps).1
      (
        i,
        ground (
          arith,
          ap (λ (s : CharonGroupRef). s.name) same,
          ap (λ (s : CharonGroupRef). s.namespace) same,
          eq_iff x.group.name r.name,
          eq_iff x.group.namespace r.namespace,
        ),
      )

-- The state of a collected group has every xfrm pod with that reference.
group_state-In :
    (e : Envs) (gs : List CharonGroup) (xfrms : List XfrmPod) (cl : List IpSecConnection)
    (r : CharonGroupRef) (x : XfrmPod)
    → any (same_ref r) gs ≡ true
    → In x xfrms
    → x.group ≡ r
    → (s : GroupState) × In s (map (group_state e gs (sort_pods xfrms) cl) gs)
      × (s.group_ref ≡ r)
      × In x s.xfrms
unfolding group_state
group_state-In e gs xfrms cl r x found i same =
    let (h, at, eq) = (any_iff (same_ref r) gs).0 found in
    let ref : ref_of h ≡ r = ground (arith, eq_iff h.name r.name, eq_iff h.namespace r.namespace) in
    (
      group_state e gs (sort_pods xfrms) cl h,
      In-map (group_state e gs (sort_pods xfrms) cl) h gs at,
      ref,
      find_xfrms-In x (sort_pods xfrms) (ref_of h)
          (sort_by-In (λ (a b : XfrmPod). str_le a.meta.name b.meta.name) x xfrms i)
          (same ∙ sym ref),
    )

-- If the group of every connection is listed, CreateClusterNodes succeeds; and if the namespace
-- of a connection's reference is that of the first group of its name, a state of that group has the
-- xfrm pod of each child of the connection, with the workers that CreateWorkers collected.
pub create_cluster_nodes-In :
    (e : Envs) (listed : List CharonGroup) (pods : List CorePod) (cl : List IpSecConnection)
    → All (λ c. has_group listed c ≡ true) cl
    → (states : List GroupState) × (create_cluster_nodes e (done listed) (done pods) cl
        ≡ done states)
      × ((conn : IpSecConnection) (g : CharonGroup) (k : String) (c : Child)
          → In conn cl
          → In (k, c) conn.spec.children
          → get_group (done listed) conn.spec.group ≡ done g
          → ref_of g ≡ conn.spec.group
          → (s : GroupState) × In s states
            × (s.group_ref ≡ conn.spec.group)
            × In
                (create_xfrm e g.node_name conn
                  (workers_at (collect_workers pods []) conn.name c.name)
                  c)
                s.xfrms)
unfolding create_cluster_nodes create_xfrms create_xfrm create_workers
create_cluster_nodes-In e listed pods cl h =
    let (gs, c) = collect_groups_lem listed cl [] h in
    (
      map (group_state e gs (sort_pods (create_xfrms e (done listed) (done pods) cl)) cl) gs,
      rw c.collected refl,
      λ conn g k child at of_conn is_group same.
          group_state-In e gs (create_xfrms e (done listed) (done pods) cl) cl conn.spec.group
            (create_xfrm e g.node_name conn
              (workers_at (collect_workers pods []) conn.name child.name) child)
            (rw same at (c.found conn g at is_group))
            (xfrms_of-In e (collect_workers pods []) (done listed) g conn k child cl is_group at
              of_conn)
            refl,
    )

collect_groups_fails :
    (listed : List CharonGroup) (cl : List IpSecConnection) (acc : List CharonGroup)
    → any (λ c. not (has_group listed c)) cl ≡ true
    → (c : IpSecConnection) × In c cl
      × (has_group listed c ≡ false)
      × (collect_groups (done listed) cl acc ≡ fails (group_not_found c.spec.group.name))
unfolding collect_groups any get_group
collect_groups_fails listed [] acc h = cc
collect_groups_fails listed (c ∷ cl) acc h =
    let named = λ (g : CharonGroup). g.name == c.spec.group.name in
    elim (Option-cases (first named listed)) [
      | inl e ↦ (c, inl refl, first-none named listed e, rw (e, or_not_found) refl)
      | inr (g, e) ↦
          let (at, is_named) = first-some named listed g e in
          let here : has_group listed c ≡ true = (any_iff named listed).1 (g, at, is_named) in
          let (other, there, absent, rest) =
            collect_groups_fails listed cl (add_group g acc) (ground arith) in
          (other, inr there, absent, rw e rest)
    ]

-- If the group of one connection is not listed, CreateDesiredState fails for all connections, with
-- an error that names the group of such a connection.
pub create_desired_state-fails :
    (e : Envs) (listed : List CharonGroup) (pods : Try (List CorePod)) (cl : List IpSecConnection)
    → any (λ c. not (has_group listed c)) cl ≡ true
    → (c : IpSecConnection) × In c cl
      × (has_group listed c ≡ false)
      × (create_desired_state e (done listed) pods (done cl)
          ≡ fails (wrapped "Error creating groups" (group_not_found c.spec.group.name)))
unfolding create_desired_state create_nodes create_cluster_nodes
create_desired_state-fails e listed pods cl h =
    let (c, there, absent, failed) = collect_groups_fails listed cl [] h in
    (c, there, absent, rw failed refl)
