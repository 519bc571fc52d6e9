-- ===== src/Controller/Diff/Routes.antt =====
-- `diffRoutes` of internal/controller/ipman_controller.go. The package r3labs/diff, which lists
-- the changes, is a parameter.
pub mod Laws
pub mod Reach
pub mod Fdb
pub mod Converge
pub mod Runs
pub mod Panics
use ipman.Prelude.{
  String, Bool, true, false, not, List, [], ◌∷◌, ◌++◌, Option, none, some, Slice, GoMap, elems,
  sort, strings_eq, string_map_eq, if◌then◌else◌,
}
use ipman.Controller.State.{IpmanPod, XfrmPod, XfrmPodSpec, Routes}
use ipman.Controller.Action.{
  Action, add_local_route, delete_local_route, add_remote_route, delete_remote_route,
  add_bridge_fdb, delete_bridge_fdb,
}

-- A value of Go's type `any`: nil, a string or something else.
pub data Any : Type 0 where
  nil : Any
  str : String → Any
  other : Any

pub data ChangeType : Type 0 where
  create delete update unknown : ChangeType

-- diff.Change
pub record Change : Type 0 where
  pub kind : ChangeType
  pub path : List String
  pub from : Any
  pub to : Any

-- `out_of_range` is the panic of `c.Path[0]` on an empty path.
pub data RouteError : Type 0 where
  not_a_string unexpected_operation out_of_range : RouteError

pub data Result {ℓ} (A : Type ℓ) : Type ℓ where
  ok : A → Result A
  err : RouteError → Result A

infixl 5 ◌>>=◌
abbrev pub ◌>>=◌ {ℓ κ} : {A : Type ℓ} {B : Type κ} → Result A → (A → Result B) → Result B
ok a >>= f = f a
err e >>= f = err e

abbrev is_nil : Any → Bool
is_nil nil = true
is_nil (str s) = false
is_nil other = false

abbrev one : (String → Action) → Any → Result (List Action)
one f nil = err not_a_string
one f (str s) = ok (f s ∷ [])
one f other = err not_a_string

abbrev both : (String → Action) → (String → Action) → Any → Any → Result (List Action)
both del add (str a) (str b) = ok (del a ∷ add b ∷ [])
both del add _ _ = err not_a_string

-- One round of the switch over a change to a list of routes; a type with no case does nothing.
unfoldable pub route_change :
    (String → Action) → (String → Action) → ChangeType → Any → Any → Result (List Action)
route_change del add create from to = one add to
route_change del add delete from to = one del from
route_change del add update from to =
    if is_nil to then one del from else if is_nil from then one add to else both del add from to
route_change del add unknown from to = ok []

-- The loop over the changes; an error ends it.
unfoldable pub route_changes :
    (String → Action) → (String → Action) → List Change → Result (List Action)
unfolding route_change
route_changes del add [] = ok []
route_changes del add (c ∷ cs) = do
  acts ← route_change del add c.kind c.from c.to
  rest ← route_changes del add cs
  ok (acts ++ rest)

abbrev head_path : List String → Result String
head_path [] = err out_of_range
head_path (p ∷ ps) = ok p

abbrev one_at : List String → (String → String → Action) → Any → Result (List Action)
one_at path f nil = err not_a_string
one_at path f (str s) = do k ← head_path path; ok (f k s ∷ [])
one_at path f other = err not_a_string

abbrev both_at :
    List String
    → (String → String → Action)
    → (String → String → Action)
    → Any
    → Any
    → Result (List Action)
both_at path del add (str a) (str b) = do k ← head_path path; ok (del k a ∷ add k b ∷ [])
both_at path del add _ _ = err not_a_string

-- One round of the switch over a change to the bridge's forwarding entries.
unfoldable pub fdb_change :
    (String → String → Action)
    → (String → String → Action)
    → List String
    → ChangeType
    → Any
    → Any
    → Result (List Action)
fdb_change del add path update from to =
    if is_nil to
    then one_at path del from
    else if is_nil from
    then one_at path add to
    else both_at path del add from to
fdb_change del add path create from to = one_at path add to
fdb_change del add path delete from to = one_at path del from
fdb_change del add path unknown from to = err unexpected_operation

unfoldable pub fdb_changes : XfrmPod → List Change → Result (List Action)
unfolding fdb_change
fdb_changes pod [] = ok []
fdb_changes pod (c ∷ cs) = do
  acts ←
      fdb_change (λ k ip. delete_bridge_fdb k ip pod) (λ k ip. add_bridge_fdb k ip pod) c.path
        c.kind c.from c.to
  rest ← fdb_changes pod cs
  ok (acts ++ rest)

-- slices.Sort sorts in place, so every copy of the slice is sorted too.
abbrev pub sorted : Slice String → Slice String
sorted none = none
sorted (some xs) = some (sort xs)

-- The pod as the actions hold it: its route lists have been sorted in place.
unfoldable pub sort_routes : XfrmPod → XfrmPod
sort_routes p = record p {
  spec = record p.spec {
    routes = record p.spec.routes {
      local = sorted p.spec.routes.local;
      remote = sorted p.spec.routes.remote;
    };
  };
}

module _ (diff_slices : Slice String → Slice String → List Change)
    (diff_maps : GoMap String → GoMap String → List Change) where
  unfoldable pub diff_local : XfrmPod → Slice String → Slice String → Result (List Action)
  unfolding route_changes
  diff_local pod clr dlr =
      if strings_eq clr dlr
      then ok []
      else route_changes (λ r. delete_local_route r pod) (λ r. add_local_route r pod)
          (diff_slices clr dlr)

  unfoldable pub diff_remote : XfrmPod → Slice String → Slice String → Result (List Action)
  unfolding route_changes
  diff_remote pod crr drr =
      if strings_eq crr drr
      then ok []
      else route_changes (λ r. delete_remote_route r pod) (λ r. add_remote_route r pod)
          (diff_slices crr drr)

  unfoldable pub diff_bridge_fdb : XfrmPod → GoMap String → GoMap String → Result (List Action)
  unfolding fdb_changes
  diff_bridge_fdb pod cfdb dfdb =
      if string_map_eq cfdb dfdb then ok [] else fdb_changes pod (diff_maps cfdb dfdb)

  unfoldable pub diff_routes : XfrmPod → XfrmPod → Result (List Action)
  unfolding diff_local diff_remote diff_bridge_fdb sort_routes
  diff_routes current desired = do
    let pod = sort_routes current
    let want = sort_routes desired
    locals ← diff_local pod pod.spec.routes.local want.spec.routes.local
    remotes ← diff_remote pod pod.spec.routes.remote want.spec.routes.remote
    fdbs ← diff_bridge_fdb pod pod.spec.routes.bridge_fdb want.spec.routes.bridge_fdb
    ok (locals ++ (remotes ++ fdbs))
