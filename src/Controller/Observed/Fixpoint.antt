-- ===== src/Controller/Observed/Fixpoint.antt =====
-- Once the pods of the desired state run, DiffStates has nothing to do for them.
use ipman.Prelude.{
  String, ◌==◌, ◌≡◌, refl, Bool, not, ◌&&◌, ◌||◌, List, [], ◌∷◌, map, Option, none, some, Map,
  Slice, GoMap, All, In, In-keep, In-map, Bool-cases, keep, delete_func, first, In-sort_by,
  map-sort_by, eq_refl, arith, inl, inr,
}
use ipman.Errors.{done}
use ipman.Api.{CharonGroup, CharonGroupRef, IpSecConnection}
use ipman.Controller.State.{
  IpmanPod, CharonPodSpec, RestctlPodSpec, XfrmPodSpec, XfrmPod, IpSecConnectionState, GroupState,
  ClusterState,
}
use ipman.Controller.Action.{AnyPod, charon, restctl}
use ipman.Controller.CorePod.{
  CorePod, charon_from_pod, restctl_from_pod, transform_all, get_cluster_pods_as,
}
use ipman.Controller.Create.{Envs, Marshal, create_pod_from_spec}
use ipman.Controller.Create.RoundTrip.{
  placed, seen, charon_from_pod-create_pod_from_spec, restctl_from_pod-create_pod_from_spec,
}
use ipman.Controller.Create.Settles.{
  running, IsStored, cluster_pod, compare_xfrm_lists-running, transform_all-cluster_pod, stored-In,
}
use ipman.Controller.Desired.{create_charons, create_restctls, sort_pods, group_state, ref_of}
use ipman.Controller.Observed.{
  Answers, get_monitor, get_cluster_ip_secs, observed_group, get_cluster_state,
}
use ipman.Controller.Diff.IpSecs.{cluster_ip_secs}
use ipman.Controller.Diff.Pods.{
  same_meta, compare_pods, diff_immutable_pod, diff_charon, find_pod, find_xfrms,
}
use ipman.Controller.Diff.Routes.{Change}
use ipman.Controller.Diff.Xfrms.{by_name, diff_xfrms}

abbrev map_option : {A B : Type 0} → (A → B) → Option A → Option B
map_option f none = none
map_option f (some a) = some (f a)

first-map :
    {A B : Type 0} (f : A → B) (p : B → Bool) (q : A → Bool)
    → ((a : A) → p (f a) ≡ q a)
    → (xs : List A) → first p (map f xs) ≡ map_option f (first q xs)
unfolding first
first-map f p q h [] = refl
first-map f p q h (x ∷ xs) = ground (arith, h x, first-map f p q h xs)

keep-map :
    {A B : Type 0} (f : A → B) (p : B → Bool) (q : A → Bool)
    → ((a : A) → p (f a) ≡ q a)
    → (xs : List A) → keep p (map f xs) ≡ map f (keep q xs)
unfolding keep
keep-map f p q h [] = refl
keep-map f p q h (x ∷ xs) = ground (arith, h x, keep-map f p q h xs)

-- A pod as it is read back on the node that it names.
abbrev at_home :
    {S : Type 0}
    → (String → String)
    → String
    → (IpmanPod S → Option (Map String))
    → IpmanPod S
    → IpmanPod S
at_home ip image annotations p = seen p.meta.node_name (ip p.meta.name) image (annotations p) p

find_pod-at_home :
    {S : Type 0} (ip : String → String) (image : String)
    (annotations : IpmanPod S → Option (Map String)) (ps : List (IpmanPod S)) (r : CharonGroupRef)
    → find_pod (map (at_home ip image annotations) ps) r
      ≡ map_option (at_home ip image annotations) (find_pod ps r)
unfolding find_pod
find_pod-at_home {S} ip image annotations ps r =
    first-map (at_home ip image annotations)
      (λ (p : IpmanPod S). p.group.name == r.name && p.group.namespace == p.group.namespace)
      (λ (p : IpmanPod S). p.group.name == r.name && p.group.namespace == p.group.namespace)
      (λ p. refl) ps

-- No action for a pod that is read back on its node.
diff-at_home :
    {S : Type 0} (wrap : IpmanPod S → AnyPod) (ip : String → String) (image : String)
    (annotations : IpmanPod S → Option (Map String)) (o : Option (IpmanPod S))
    → diff_immutable_pod wrap o (map_option (at_home ip image annotations) o) ≡ []
unfolding diff_immutable_pod compare_pods same_meta
diff-at_home wrap ip image annotations none = refl
diff-at_home wrap ip image annotations (some p) =
    ground (arith, eq_refl p.meta.name, eq_refl p.meta.namespace, eq_refl p.meta.node_name)

find_xfrms-running :
    (ip : String → String) (image : String) (ps : List XfrmPod) (r : CharonGroupRef)
    → find_xfrms (map (running ip image) ps) r ≡ map (running ip image) (find_xfrms ps r)
unfolding find_xfrms delete_func
find_xfrms-running ip image ps r =
    keep-map (running ip image) _
      (λ (p : XfrmPod).
        not (not (p.group.name == r.name) || not (p.group.namespace == r.namespace)))
      (λ p. refl) ps

In-find_xfrms :
    (p : XfrmPod) (ps : List XfrmPod) (r : CharonGroupRef) → In p (find_xfrms ps r) → In p ps
unfolding find_xfrms delete_func
In-find_xfrms p ps r i =
    ((In-keep
        (λ (q : XfrmPod).
          not (not (q.group.name == r.name) || not (q.group.namespace == r.namespace)))
        p ps).0
      i).0

sort_pods-running :
    (ip : String → String) (image : String) (ps : List XfrmPod)
    → sort_pods (map (running ip image) ps) ≡ map (running ip image) (sort_pods ps)
sort_pods-running ip image ps = map-sort_by by_name (running ip image) (λ a b. refl) ps

module _ (m : Marshal) (unmarshal : String → XfrmPodSpec) (e : Envs) (ip : String → String) where
  -- The cluster's pod for a wanted one, on the node that it names.
  abbrev pub home_pod : {S : Type 0} → (IpmanPod S → AnyPod) → IpmanPod S → CorePod
  home_pod wrap p = placed p.meta.node_name (ip p.meta.name) (create_pod_from_spec m e (wrap p))

  abbrev pub seen_charon : IpmanPod CharonPodSpec → IpmanPod CharonPodSpec
  seen_charon =
      at_home ip e.charon_daemon_image (λ p. (create_pod_from_spec m e (charon p)).annotations)

  abbrev pub seen_restctl : IpmanPod RestctlPodSpec → IpmanPod RestctlPodSpec
  seen_restctl = at_home ip e.restctl_image (λ p. none)

  charons_read :
      (ps : List (IpmanPod CharonPodSpec))
      → transform_all charon_from_pod (map (home_pod charon) ps) ≡ done (map seen_charon ps)
  unfolding transform_all
  charons_read [] = refl
  charons_read (p ∷ ps) =
      rw
        (
          charon_from_pod-create_pod_from_spec m e p.meta.node_name (ip p.meta.name) p,
          charons_read ps,
        )
        refl

  restctls_read :
      (ps : List (IpmanPod RestctlPodSpec))
      → transform_all restctl_from_pod (map (home_pod restctl) ps) ≡ done (map seen_restctl ps)
  unfolding transform_all
  restctls_read [] = refl
  restctls_read (p ∷ ps) =
      rw
        (
          restctl_from_pod-create_pod_from_spec m e p.meta.node_name (ip p.meta.name) p,
          restctls_read ps,
        )
        refl

  get_monitor_there : get_monitor e (done tt) ≡ done e.is_monitoring_enabled
  unfolding get_monitor
  get_monitor_there = elim (Bool-cases e.is_monitoring_enabled) [
    | inl on ↦ rw on refl
    | inr off ↦ rw off refl
  ]

  -- The answers of a cluster that runs the wanted pods, each on the node that it names.
  abbrev pub running_answers :
      List CharonGroup
      → List IpSecConnection
      → List CorePod
      → List CharonGroup
      → List XfrmPod
      → Answers
  running_answers listed conns pods wanted xs = record {
    groups = done listed;
    conns = done conns;
    pods = done pods;
    charons = done (map (home_pod charon) (create_charons e wanted));
    restctls = done (map (home_pod restctl) (create_restctls e wanted));
    xfrms = done (map (cluster_pod m unmarshal e ip) xs);
    pod_monitor = done tt;
  }

  module _ (diff_slices : Slice String → Slice String → List Change)
      (diff_maps : GoMap String → GoMap String → List Change) where
    -- The pods of a wanted group against those of the current one: nothing to do.
    abbrev pub IsSettled : GroupState → GroupState → Type 0
    IsSettled want have =
        (have.group_ref ≡ want.group_ref)
        × (diff_charon want.charon have.charon ≡ [])
        × (diff_immutable_pod restctl want.proxy have.proxy ≡ [])
        × (diff_xfrms diff_slices diff_maps want.xfrms have.xfrms ≡ [])

    observed_group-IsSettled :
        (wanted : List CharonGroup) (xs : List XfrmPod) (cl : List IpSecConnection)
        (ip_secs : List IpSecConnectionState) (g : CharonGroup)
        → All (IsStored m unmarshal e ip) xs
        → IsSettled (group_state e wanted (sort_pods xs) cl g) (
            observed_group
              (map seen_charon (create_charons e wanted))
              (map seen_restctl (create_restctls e wanted))
              (sort_pods (map (running ip e.xfrminion_image) xs))
              ip_secs
              g)
    unfolding group_state observed_group diff_charon diff_xfrms
    observed_group-IsSettled wanted xs cl ip_secs g h = (
      refl,
      rw
          (find_pod-at_home ip e.charon_daemon_image
            (λ p. (create_pod_from_spec m e (charon p)).annotations) (create_charons e wanted)
            (ref_of g))
          (diff-at_home charon ip e.charon_daemon_image
            (λ p. (create_pod_from_spec m e (charon p)).annotations)
            (find_pod (create_charons e wanted) (ref_of g))),
      rw (find_pod-at_home ip e.restctl_image (λ p. none) (create_restctls e wanted) (ref_of g)) (
          diff-at_home restctl ip e.restctl_image (λ p. none)
            (find_pod (create_restctls e wanted) (ref_of g))),
      rw
          (
            sort_pods-running ip e.xfrminion_image xs,
            find_xfrms-running ip e.xfrminion_image (sort_pods xs) (ref_of g),
            compare_xfrm_lists-running ip e.xfrminion_image (find_xfrms (sort_pods xs) (ref_of g))
                (λ p i.
                  stored-In m unmarshal e ip xs h p
                    (In-sort_by by_name p xs (In-find_xfrms p (sort_pods xs) (ref_of g) i))),
          )
          refl,
    )

    -- If the cluster runs the charon and restctl pods of the wanted groups and the given xfrm pods,
    -- as createPodFromSpec made them and each on the node that it names, then GetClusterState
    -- succeeds, and between the wanted state of any listed group and its current state the diffs of
    -- the charon, restctl and xfrm pods are empty.
    pub get_cluster_state-IsSettled :
        (listed : List CharonGroup) (conns : List IpSecConnection) (pods : List CorePod)
        (wanted : List CharonGroup) (xs : List XfrmPod)
        → All (IsStored m unmarshal e ip) xs
        → (state : ClusterState) × (get_cluster_state e unmarshal
              (running_answers listed conns pods wanted xs)
            ≡ done state)
          × ((g : CharonGroup)
              → In g listed
              → (have : GroupState) × In have state.groups
                × IsSettled (group_state e wanted (sort_pods xs) conns g) have)
    unfolding get_cluster_state get_cluster_pods_as get_cluster_ip_secs
    get_cluster_state-IsSettled listed conns pods wanted xs h = (
      record {
        groups =
            map
              (observed_group (map seen_charon (create_charons e wanted))
                (map seen_restctl (create_restctls e wanted))
                (sort_pods (map (running ip e.xfrminion_image) xs)) (cluster_ip_secs conns))
              listed;
        pod_monitor = e.is_monitoring_enabled;
      },
      rw
          (
            get_monitor_there,
            charons_read (create_charons e wanted),
            restctls_read (create_restctls e wanted),
            transform_all-cluster_pod m unmarshal e ip xs h,
          )
          refl,
      λ g i. (
        observed_group (map seen_charon (create_charons e wanted))
            (map seen_restctl (create_restctls e wanted))
            (sort_pods (map (running ip e.xfrminion_image) xs)) (cluster_ip_secs conns) g,
        In-map
            (observed_group (map seen_charon (create_charons e wanted))
              (map seen_restctl (create_restctls e wanted))
              (sort_pods (map (running ip e.xfrminion_image) xs)) (cluster_ip_secs conns))
            g listed i,
        observed_group-IsSettled wanted xs conns (cluster_ip_secs conns) g h,
      ),
    )
