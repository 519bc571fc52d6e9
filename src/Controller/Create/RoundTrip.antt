-- ===== src/Controller/Create/RoundTrip.antt =====
-- A pod that is made from a specification is read back as that specification.
use ipman.Prelude.{
  String, ◌≡◌, refl, false, [], ◌∷◌, none, Option, Map, arith, elems, lookup, has_key, insert,
  lookup-insert,
}
use ipman.Errors.{done}
use ipman.Controller.State.{IpmanPod, CharonPodSpec, RestctlPodSpec, XfrmPodSpec, XfrmPod}
use ipman.Controller.Action.{charon, restctl, xfrm}
use ipman.Controller.CorePod.{
  CorePod, spec_key, charon_from_pod, restctl_from_pod, xfrm_from_pod, find_volume, find_image,
  extract_socket_path, extract_container_image,
}
use ipman.Controller.Create.{
  Envs, Marshal, copy_map, pod_meta, create_k8s_pod_meta, apply_charon, apply_restctl, apply_xfrm,
  apply_spec, create_pod_from_spec,
}

-- A running pod: the scheduler has chosen the node, and the address is given.
abbrev pub placed : String → String → CorePod → CorePod
placed node ip p = record p { node_name = node; pod_ip = ip }

lookup-copy_map :
    (k : String) (m dst : Map String)
    → has_key k m ≡ false
    → lookup k (copy_map dst m) ≡ lookup k dst
unfolding copy_map has_key
lookup-copy_map k [] dst h = refl
lookup-copy_map k ((j, v) ∷ m) dst h =
    ground (arith, lookup-copy_map k m (insert j v dst), lookup-insert j k v dst)

-- What is read back of a pod: only its place and its image are not the specification's.
abbrev pub seen :
    {S : Type 0} → String → String → String → Option (Map String) → IpmanPod S → IpmanPod S
seen node ip image annotations p = record p {
  meta = record p.meta { ip = ip; node_name = node; image = image };
  annotations = annotations;
}

module _ (m : Marshal) (e : Envs) (node ip : String) where
  -- CharonFromPod gives back the charon pod that createPodFromSpec made, at its place, with its
  -- image and annotations.
  pub charon_from_pod-create_pod_from_spec :
      (p : IpmanPod CharonPodSpec)
      → charon_from_pod (placed node ip (create_pod_from_spec m e (charon p)))
        ≡ done
            (seen node ip e.charon_daemon_image (create_pod_from_spec m e (charon p)).annotations p)
  unfolding charon_from_pod create_pod_from_spec create_k8s_pod_meta apply_spec apply_charon
      pod_meta find_volume find_image extract_socket_path extract_container_image lookup
  charon_from_pod-create_pod_from_spec p = refl

  -- RestctlFromPod gives back the restctl pod that createPodFromSpec made, at its place.
  pub restctl_from_pod-create_pod_from_spec :
      (p : IpmanPod RestctlPodSpec)
      → restctl_from_pod (placed node ip (create_pod_from_spec m e (restctl p)))
        ≡ done (seen node ip e.restctl_image none p)
  unfolding restctl_from_pod create_pod_from_spec create_k8s_pod_meta apply_spec apply_restctl
      pod_meta find_volume find_image extract_socket_path extract_container_image lookup
  restctl_from_pod-create_pod_from_spec p = refl

  -- XfrmFromPod gives back the xfrm pod that createPodFromSpec made, at its place, if the encoded
  -- specification decodes to itself and the pod's own annotations have not its key.
  pub xfrm_from_pod-create_pod_from_spec :
      (unmarshal : String → XfrmPodSpec) (p : XfrmPod)
      → unmarshal (m.xfrm p.spec) ≡ p.spec
      → has_key spec_key (elems p.annotations) ≡ false
      → xfrm_from_pod unmarshal (placed node ip (create_pod_from_spec m e (xfrm p)))
        ≡ done (seen node ip e.xfrminion_image none p)
  unfolding xfrm_from_pod create_pod_from_spec create_k8s_pod_meta apply_spec apply_xfrm pod_meta
      find_image extract_container_image lookup
  xfrm_from_pod-create_pod_from_spec unmarshal p h absent =
      rw
        (
          lookup-copy_map spec_key (elems p.annotations) ((spec_key, m.xfrm p.spec) ∷ []) absent,
          lookup,
          h,
        )
        refl
