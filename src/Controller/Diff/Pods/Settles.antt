-- ===== src/Controller/Diff/Pods/Settles.antt =====
-- What `diffImmutablePod` leaves in the cluster.
use ipman.Prelude.{◌==◌, Bool, ◌&&◌, List, [], ◌∷◌, Option, none, some, if◌then◌else◌}
use ipman.Controller.State.{PodMeta, IpmanPod}
use ipman.Controller.Action.{Action, AnyPod, charon, restctl, xfrm, create_pod, delete_pod}

-- The name and the namespace of a pod, by which the API server knows it.
abbrev pub meta_of_any : AnyPod → PodMeta
meta_of_any (charon p) = p.meta
meta_of_any (restctl p) = p.meta
meta_of_any (xfrm p) = p.meta

abbrev pub same_object : AnyPod → AnyPod → Bool
same_object p q =
    (meta_of_any p).name == (meta_of_any q).name
    && (meta_of_any p).namespace == (meta_of_any q).namespace

-- The pod of a group's slot after the actions: created where there is none, and deleted only by its
-- own name and namespace. `none` stands for a call that leaves two pods, or that the cluster
-- refuses because there is no such pod.
unfoldable pub run_slot : List Action → Option AnyPod → Option (Option AnyPod)
run_slot [] s = some s
run_slot (create_pod p ∷ rest) none = run_slot rest (some p)
run_slot (create_pod p ∷ rest) (some q) = none
run_slot (delete_pod p ∷ rest) (some q) =
    let after = run_slot rest none in if same_object p q then after else none
run_slot (delete_pod p ∷ rest) none = none
run_slot (_ ∷ rest) s = run_slot rest s

abbrev pub wrapped : {S : Type 0} → (IpmanPod S → AnyPod) → Option (IpmanPod S) → Option AnyPod
wrapped wrap none = none
wrapped wrap (some p) = some (wrap p)
