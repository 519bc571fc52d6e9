-- ===== src/Controller/Diff/Xfrms.antt =====
-- `createXfrmPod`, `compareXfrmPods`, `recreatePod` and `diffXfrms` of
-- internal/controller/ipman_controller.go.
pub mod Installed
pub mod Search
use ipman.Prelude.{
  ℕ, zero, suc, ◌+◌, ◌/◌, String, ◌==◌, Bool, true, false, not, ◌&&◌, ◌||◌, List, [], ◌∷◌, ◌++◌,
  Option, none, some, Slice, GoMap, Map, elems, length, first, sort_by, str_le, str_lt, strings_eq,
  string_map_eq, nat_eq, ltb, get_elem?, if◌then◌else◌,
}
use ipman.Controller.State.{XfrmPod, XfrmProperties, Routes}
use ipman.Controller.Action.{
  Action, xfrm, create_pod, delete_pod, add_local_route, add_remote_route, add_bridge_fdb,
}
use ipman.Controller.Diff.Pods.{same_meta}
use ipman.Controller.Diff.Routes.{Change, Result, ok, err, diff_routes}

-- The pod with the zero value for its routes.
abbrev pub no_routes : Routes
no_routes = record { local = none; remote = none; bridge_fdb = none }

abbrev pub without_routes : XfrmPod → XfrmPod
without_routes x = record x { spec = record x.spec { routes = no_routes } }

unfoldable pub add_locals : XfrmPod → List String → List Action
add_locals x [] = []
add_locals x (r ∷ rs) = add_local_route r x ∷ add_locals x rs

unfoldable pub add_remotes : XfrmPod → List String → List Action
add_remotes x [] = []
add_remotes x (r ∷ rs) = add_remote_route r x ∷ add_remotes x rs

unfoldable pub add_fdbs : XfrmPod → Map String → List Action
add_fdbs x [] = []
add_fdbs x ((vxlan_ip, pod_ip) ∷ m) = add_bridge_fdb vxlan_ip pod_ip x ∷ add_fdbs x m

unfoldable pub create_xfrm_pod : XfrmPod → List Action
unfolding add_locals add_remotes add_fdbs
create_xfrm_pod p =
    let rs = p.spec.routes in
    let x = without_routes p in
    create_pod (xfrm x)
    ∷ (add_locals x (elems rs.local)
        ++ (add_remotes x (elems rs.remote) ++ add_fdbs x (elems rs.bridge_fdb)))

unfoldable pub recreate_pod : XfrmPod → XfrmPod → List Action
recreate_pod old new = delete_pod (xfrm old) ∷ create_pod (xfrm new) ∷ []

unfoldable pub same_props : XfrmProperties → XfrmProperties → Bool
same_props a b =
    a.owner_child == b.owner_child
    && a.owner_connection == b.owner_connection
    && nat_eq a.interface_id b.interface_id
    && a.xfrm_ip == b.xfrm_ip
    && a.vxlan_ip == b.vxlan_ip

-- reflect.DeepEqual on routes
unfoldable pub routes_eq : Routes → Routes → Bool
routes_eq a b =
    strings_eq a.local b.local
    && strings_eq a.remote b.remote
    && string_map_eq a.bridge_fdb b.bridge_fdb

unfoldable pub compare_xfrm_pods : XfrmPod → XfrmPod → Bool
unfolding same_meta same_props routes_eq
compare_xfrm_pods a b =
    same_meta a.meta b.meta
    && same_props a.spec.props b.spec.props
    && routes_eq a.spec.routes b.spec.routes

abbrev pub by_name : XfrmPod → XfrmPod → Bool
by_name a b = str_le a.meta.name b.meta.name

-- The loop over both sorted lists.
unfoldable pub pairwise_equal : List XfrmPod → List XfrmPod → Bool
unfolding compare_xfrm_pods
pairwise_equal (d ∷ ds) (c ∷ cs) = compare_xfrm_pods d c && pairwise_equal ds cs
pairwise_equal _ _ = true

abbrev pub same_length : List XfrmPod → List XfrmPod → Bool
same_length ds cs = nat_eq (length ds) (length cs)

-- compareXfrmPodsLists
unfoldable pub compare_xfrm_lists : List XfrmPod → List XfrmPod → Bool
unfolding pairwise_equal
compare_xfrm_lists desired current =
    same_length desired current
    && pairwise_equal (sort_by by_name desired) (sort_by by_name current)

-- The list after compareXfrmPodsLists: sorted in place if the lengths agree.
abbrev pub after_compare : List XfrmPod → List XfrmPod → List XfrmPod → List XfrmPod
after_compare desired current l = if same_length desired current then sort_by by_name l else l

abbrev pub before : Option XfrmPod → String → Bool
before none name = false
before (some x) name = str_lt x.meta.name name

-- The loop of slices.BinarySearchFunc: the first index whose name is not before the target's.
unfoldable pub search_from : ℕ → List XfrmPod → String → ℕ → ℕ → ℕ
search_from zero xs name i j = i
search_from (suc fuel) xs name i j = elim (ltb i j) [
  | false ↦ i
  | true ↦
      let h = (i + j) / 2 in
      elim (before (get_elem? xs h) name) [
        | true ↦ search_from fuel xs name (h + 1) j
        | false ↦ search_from fuel xs name i h
      ]
]

abbrev pub named : Option XfrmPod → String → Bool
named none name = false
named (some x) name = x.meta.name == name

unfoldable pub binary_search : List XfrmPod → String → Bool
unfolding search_from
binary_search xs name = named (get_elem? xs (search_from (length xs) xs name 0 (length xs))) name

module _ (diff_slices : Slice String → Slice String → List Change)
    (diff_maps : GoMap String → GoMap String → List Change) where
  -- diffRoutes; an error is logged and gives no action.
  unfoldable pub route_actions : XfrmPod → XfrmPod → List Action
  unfolding diff_routes
  route_actions c x = elim (diff_routes diff_slices diff_maps c x) [ ok acts ↦ acts | err e ↦ [] ]

  -- One desired pod against the current pod of the same name.
  unfoldable pub update_xfrm : XfrmPod → XfrmPod → List Action
  unfolding compare_xfrm_pods recreate_pod route_actions
  update_xfrm x c =
      if compare_xfrm_pods x c
      then []
      else if not (same_props x.spec.props c.spec.props)
      then recreate_pod c x
      else if not (x.meta.node_name == c.meta.node_name)
      then recreate_pod c x
      else if not (routes_eq x.spec.routes c.spec.routes)
      then route_actions c x
      else []

  -- One round of the loop over the desired pods.
  unfoldable pub diff_xfrm : List XfrmPod → XfrmPod → List Action
  unfolding first create_xfrm_pod update_xfrm
  diff_xfrm current x = elim (first (λ (p : XfrmPod). p.meta.name == x.meta.name) current) [
    | none ↦ create_xfrm_pod x
    | some c ↦ update_xfrm x c
  ]

  unfoldable pub diff_each : List XfrmPod → List XfrmPod → List Action
  unfolding diff_xfrm
  diff_each [] current = []
  diff_each (x ∷ xs) current = diff_xfrm current x ++ diff_each xs current

  -- The loop over the current pods.
  unfoldable pub delete_gone : List XfrmPod → List XfrmPod → List Action
  unfolding binary_search
  delete_gone desired [] = []
  delete_gone desired (x ∷ xs) =
      let rest = delete_gone desired xs in
      if binary_search desired x.meta.name then rest else delete_pod (xfrm x) ∷ rest

  unfoldable pub diff_xfrms : List XfrmPod → List XfrmPod → List Action
  unfolding compare_xfrm_lists diff_each delete_gone
  diff_xfrms desired current =
      if compare_xfrm_lists desired current
      then []
      else let ds = after_compare desired current desired in
        let cs = after_compare desired current current in diff_each ds cs ++ delete_gone ds cs
