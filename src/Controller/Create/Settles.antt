-- ===== src/Controller/Create/Settles.antt =====
-- The pods that the controller made are, once read back, no difference from the wanted ones.
use ipman.Prelude.{
  String, ◌≡◌, refl, true, false, List, [], ◌∷◌, map, none, Slice, GoMap, elems, All, In, IsMap,
  length, strings_eq_iff, string_map_eq_refl, sort_by, In-sort_by, map-sort_by, has_key, eq_refl,
  arith, inl, inr, sym,
}
use ipman.Errors.{done}
use ipman.Controller.State.{XfrmPodSpec, XfrmPod}
use ipman.Controller.Action.{xfrm}
use ipman.Controller.CorePod.{CorePod, spec_key, xfrm_from_pod, get_cluster_pods_as, transform_all}
use ipman.Controller.Create.{Envs, Marshal, create_pod_from_spec}
use ipman.Controller.Create.RoundTrip.{placed, seen, xfrm_from_pod-create_pod_from_spec}
use ipman.Controller.Diff.Pods.{same_meta}
use ipman.Controller.Diff.Routes.{Change}
use ipman.Controller.Diff.Xfrms.{
  same_props, routes_eq, compare_xfrm_pods, pairwise_equal, by_name, compare_xfrm_lists, diff_xfrms,
}

module _ (ip : String → String) (image : String) where
  -- An xfrm pod that runs on its node, as it is read back.
  abbrev pub running : XfrmPod → XfrmPod
  running p = seen p.meta.node_name (ip p.meta.name) image none p

  abbrev pub HasMap : XfrmPod → Type 0
  HasMap p = IsMap (elems p.spec.routes.bridge_fdb)

  compare_xfrm_pods-running : (p : XfrmPod) → HasMap p → compare_xfrm_pods p (running p) ≡ true
  unfolding compare_xfrm_pods same_meta same_props routes_eq
  compare_xfrm_pods-running p h = ground (
    arith,
    eq_refl p.meta.name,
    eq_refl p.meta.namespace,
    eq_refl p.meta.node_name,
    eq_refl p.spec.props.owner_child,
    eq_refl p.spec.props.owner_connection,
    eq_refl p.spec.props.xfrm_ip,
    eq_refl p.spec.props.vxlan_ip,
    strings_eq_iff p.spec.routes.local p.spec.routes.local,
    strings_eq_iff p.spec.routes.remote p.spec.routes.remote,
    string_map_eq_refl p.spec.routes.bridge_fdb h,
  )

  pairwise_equal-running :
      (ps : List XfrmPod)
      → ((p : XfrmPod) → In p ps → HasMap p)
      → pairwise_equal ps (map running ps) ≡ true
  unfolding pairwise_equal
  pairwise_equal-running [] h = refl
  pairwise_equal-running (p ∷ ps) h = ground (
    arith,
    compare_xfrm_pods-running p (h p (inl refl)),
    pairwise_equal-running ps (λ q i. h q (inr i)),
  )

  length-running : (ps : List XfrmPod) → length (map running ps) ≡ length ps
  length-running [] = refl
  length-running (p ∷ ps) = omega (arith, length-running ps)

  pub compare_xfrm_lists-running :
      (ps : List XfrmPod)
      → ((p : XfrmPod) → In p ps → HasMap p)
      → compare_xfrm_lists ps (map running ps) ≡ true
  unfolding compare_xfrm_lists
  compare_xfrm_lists-running ps h = ground (
    arith,
    length-running ps,
    map-sort_by by_name running (λ a b. refl) ps,
    pairwise_equal-running (sort_by by_name ps) (λ p i. h p (In-sort_by by_name p ps i)),
  )

module _ (m : Marshal) (unmarshal : String → XfrmPodSpec) (e : Envs) (ip : String → String) where
  -- The cluster's pod of a specification, on the node that it names.
  abbrev pub cluster_pod : XfrmPod → CorePod
  cluster_pod p = placed p.meta.node_name (ip p.meta.name) (create_pod_from_spec m e (xfrm p))

  -- The specification is read back as it was written, and is a Go value.
  abbrev pub IsStored : XfrmPod → Type 0
  IsStored p =
      (unmarshal (m.xfrm p.spec) ≡ p.spec)
      × (has_key spec_key (elems p.annotations) ≡ false)
      × IsMap (elems p.spec.routes.bridge_fdb)

  pub transform_all-cluster_pod :
      (ps : List XfrmPod)
      → All IsStored ps
      → transform_all (xfrm_from_pod unmarshal) (map cluster_pod ps)
        ≡ done (map (running ip e.xfrminion_image) ps)
  unfolding transform_all
  transform_all-cluster_pod [] h = refl
  transform_all-cluster_pod (p ∷ ps) ((decodes, absent, is_map), rest) =
      rw
        (
          xfrm_from_pod-create_pod_from_spec m e p.meta.node_name (ip p.meta.name) unmarshal p
              decodes absent,
          transform_all-cluster_pod ps rest,
        )
        refl

  pub stored-In :
      (ps : List XfrmPod)
      → All IsStored ps
      → (p : XfrmPod) → In p ps
      → IsMap (elems p.spec.routes.bridge_fdb)
  stored-In [] h p i = absurd i
  stored-In (q ∷ ps) ((decodes, absent, is_map), rest) p (inl same) = rw (sym same) is_map
  stored-In (q ∷ ps) (h, rest) p (inr i) = stored-In ps rest p i

  -- If the cluster's xfrm pods are the wanted ones as createPodFromSpec made them, each on the node
  -- that it names, then GetClusterPodsAs reads them without an error and diffXfrms asks for nothing.
  pub diff_xfrms_settled :
      (diff_slices : Slice String → Slice String → List Change)
      (diff_maps : GoMap String → GoMap String → List Change) (ps : List XfrmPod)
      → All IsStored ps
      → (current : List XfrmPod) × (get_cluster_pods_as
            (xfrm_from_pod unmarshal)
            (done (map cluster_pod ps))
          ≡ done current)
        × (diff_xfrms diff_slices diff_maps ps current ≡ [])
  unfolding get_cluster_pods_as diff_xfrms
  diff_xfrms_settled diff_slices diff_maps ps h = (
    map (running ip e.xfrminion_image) ps,
    transform_all-cluster_pod ps h,
    rw (compare_xfrm_lists-running ip e.xfrminion_image ps (stored-In ps h)) refl,
  )
