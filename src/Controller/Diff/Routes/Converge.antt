-- ===== src/Controller/Diff/Routes/Converge.antt =====
-- `diffRoutes` as a whole: its actions, recorded one after the other on the pod's current routes,
-- give the desired routes.
use ipman.Prelude.{
  String, ◌≡◌, refl, ap, sym, ◌∙◌, true, List, [], ◌++◌, none, some, Slice, GoMap, elems, lookup,
  contains, contains-sort, IsDistinct, sort-IsDistinct, IsMap, strings_eq, strings_eq_iff,
  string_map_eq, map_eq-lookup, inl, inr, Bool-cases,
}
use ipman.Controller.State.{Routes, XfrmPod}
use ipman.Controller.Action.{Action}
use ipman.Controller.Effect.{record_actions, record_actions-append}
use ipman.Controller.Diff.Routes.{
  ok, sorted, sort_routes, diff_local, diff_remote, diff_bridge_fdb, diff_routes,
}
use ipman.Controller.Diff.Routes.Laws.{DiffLibrary}
use ipman.Controller.Diff.Routes.Reach.{
  IsListDiff-reach, local-IsRouteList, remote-IsRouteList, but_local, but_remote,
}
use ipman.Controller.Diff.Routes.Fdb.{IsMapDiff-reach, but_fdb, entry}

-- The routes hold what is wanted: the same route lists up to order, the same entries.
pub record Holds (want got : Routes) : Type 0 where
  pub locals : (v : String) → contains (elems got.local) v ≡ contains (elems want.local) v
  pub remotes : (v : String) → contains (elems got.remote) v ≡ contains (elems want.remote) v
  pub entries : (k : String) → lookup k (elems got.bridge_fdb) ≡ lookup k (elems want.bridge_fdb)

-- What Kubernetes' and Go's types give: lists without duplicates, maps.
pub record IsRoutes (rs : Routes) : Type 0 where
  pub local : IsDistinct (elems rs.local)
  pub remote : IsDistinct (elems rs.remote)
  pub bridge_fdb : IsMap (elems rs.bridge_fdb)

pub contains-sorted :
    (s : Slice String) (v : String) → contains (elems (sorted s)) v ≡ contains (elems s) v
contains-sorted none v = refl
contains-sorted (some xs) v = contains-sort xs v

pub sorted-IsDistinct : (s : Slice String) → IsDistinct (elems s) → IsDistinct (elems (sorted s))
sorted-IsDistinct none d = d
sorted-IsDistinct (some xs) d = sort-IsDistinct xs d

string_map_eq-lookup :
    (a b : GoMap String) (k : String)
    → IsMap (elems a)
    → IsMap (elems b)
    → string_map_eq a b ≡ true
    → lookup k (elems b) ≡ lookup k (elems a)
unfolding string_map_eq
string_map_eq-lookup none none k i j h = refl
string_map_eq-lookup none (some n) k i j h = cc
string_map_eq-lookup (some m) none k i j h = cc
string_map_eq-lookup (some m) (some n) k i j h = map_eq-lookup m n k i j h

module _ (lib : DiffLibrary) (pod : XfrmPod) where
  diff_local-reach :
      (a b : Slice String)
      → IsDistinct (elems a)
      → IsDistinct (elems b)
      → (acts : List Action) × (diff_local lib.slices lib.maps pod a b ≡ ok acts)
        × ((v : String) (rs : Routes)
            → contains (elems rs.local) v ≡ contains (elems a) v
            → contains (elems (record_actions acts rs).local) v ≡ contains (elems b) v)
        × ((rs : Routes) → but_local (record_actions acts rs) ≡ but_local rs)
  unfolding diff_local
  diff_local-reach a b i j = elim (Bool-cases (strings_eq a b)) [
    | inl e ↦ (
      [],
      rw e refl,
      λ v rs h. unfold record_actions in rw (← (strings_eq_iff a b).0 e) h,
      λ rs. unfold record_actions in refl,
    )
    | inr e ↦
        let (acts, made, reach, kept) =
          IsListDiff-reach (local-IsRouteList pod) a b (lib.slices a b) (lib.slices_law a b i j) in
        (acts, rw e made, reach, kept)
  ]

  diff_remote-reach :
      (a b : Slice String)
      → IsDistinct (elems a)
      → IsDistinct (elems b)
      → (acts : List Action) × (diff_remote lib.slices lib.maps pod a b ≡ ok acts)
        × ((v : String) (rs : Routes)
            → contains (elems rs.remote) v ≡ contains (elems a) v
            → contains (elems (record_actions acts rs).remote) v ≡ contains (elems b) v)
        × ((rs : Routes) → but_remote (record_actions acts rs) ≡ but_remote rs)
  unfolding diff_remote
  diff_remote-reach a b i j = elim (Bool-cases (strings_eq a b)) [
    | inl e ↦ (
      [],
      rw e refl,
      λ v rs h. unfold record_actions in rw (← (strings_eq_iff a b).0 e) h,
      λ rs. unfold record_actions in refl,
    )
    | inr e ↦
        let (acts, made, reach, kept) =
          IsListDiff-reach (remote-IsRouteList pod) a b (lib.slices a b) (lib.slices_law a b i j) in
        (acts, rw e made, reach, kept)
  ]

  diff_bridge_fdb-reach :
      (a b : GoMap String)
      → IsMap (elems a)
      → IsMap (elems b)
      → (acts : List Action) × (diff_bridge_fdb lib.slices lib.maps pod a b ≡ ok acts)
        × ((k : String) (rs : Routes)
            → entry k rs ≡ lookup k (elems a)
            → entry k (record_actions acts rs) ≡ lookup k (elems b))
        × ((rs : Routes) → but_fdb (record_actions acts rs) ≡ but_fdb rs)
  unfolding diff_bridge_fdb
  diff_bridge_fdb-reach a b i j = elim (Bool-cases (string_map_eq a b)) [
    | inl e ↦ (
      [],
      rw e refl,
      λ k rs h. unfold record_actions in (h ∙ sym (string_map_eq-lookup a b k i j e)),
      λ rs. unfold record_actions in refl,
    )
    | inr e ↦
        let (acts, made, reach, kept) =
          IsMapDiff-reach pod a b (lib.maps a b) (lib.maps_law a b i j) in
        (acts, rw e made, reach, kept)
  ]

-- The three parts in a row, each of which leaves the other two alone.
pub joined :
    (rs want r1 r2 r3 : Routes)
    → ((v : String) → contains (elems r1.local) v ≡ contains (elems want.local) v)
    → but_local r1 ≡ but_local rs
    → ((v : String)
        → contains (elems r1.remote) v ≡ contains (elems rs.remote) v
        → contains (elems r2.remote) v ≡ contains (elems want.remote) v)
    → but_remote r2 ≡ but_remote r1
    → ((k : String)
        → entry k r2 ≡ lookup k (elems rs.bridge_fdb)
        → entry k r3 ≡ lookup k (elems want.bridge_fdb))
    → but_fdb r3 ≡ but_fdb r2
    → Holds want r3
joined rs want r1 r2 r3 l lk m mk f fk =
    let remote1 : r1.remote ≡ rs.remote = ap (λ p. p.0) lk in
    let fdb1 : r1.bridge_fdb ≡ rs.bridge_fdb = ap (λ p. p.1) lk in
    let local2 : r2.local ≡ r1.local = ap (λ p. p.0) mk in
    let fdb2 : r2.bridge_fdb ≡ r1.bridge_fdb = ap (λ p. p.1) mk in
    let local3 : r3.local ≡ r2.local = ap (λ p. p.0) fk in
    let remote3 : r3.remote ≡ r2.remote = ap (λ p. p.1) fk in
    record {
      locals = λ v. ap (λ s. contains (elems s) v) (local3 ∙ local2) ∙ l v;
      remotes = λ v.
          ap (λ s. contains (elems s) v) remote3 ∙ m v (ap (λ s. contains (elems s) v) remote1);
      entries = λ k. f k (ap (λ m. lookup k (elems m)) (fdb2 ∙ fdb1));
    }

-- Whatever the current and the desired routes are (lists without duplicates, and maps), `diffRoutes`
-- succeeds, and its actions, recorded in order on the current routes, end in the desired routes:
-- each route list has the same elements and each forwarding entry is the same.
pub diff_routes-Holds :
    (lib : DiffLibrary) (current desired : XfrmPod)
    → IsRoutes current.spec.routes
    → IsRoutes desired.spec.routes
    → (acts : List Action) × (diff_routes lib.slices lib.maps current desired ≡ ok acts)
      × Holds desired.spec.routes (record_actions acts current.spec.routes)
unfolding diff_routes
diff_routes-Holds lib current desired c d =
    let rs = current.spec.routes in
    let want = desired.spec.routes in
    let pod = sort_routes current in
    let (ls, ls_made, ls_reach, ls_kept) =
      diff_local-reach lib pod (sorted rs.local) (sorted want.local)
        (sorted-IsDistinct rs.local c.local) (sorted-IsDistinct want.local d.local) in
    let (ms, ms_made, ms_reach, ms_kept) =
      diff_remote-reach lib pod (sorted rs.remote) (sorted want.remote)
        (sorted-IsDistinct rs.remote c.remote) (sorted-IsDistinct want.remote d.remote) in
    let (fs, fs_made, fs_reach, fs_kept) =
      diff_bridge_fdb-reach lib pod rs.bridge_fdb want.bridge_fdb c.bridge_fdb d.bridge_fdb in
    (
      ls ++ (ms ++ fs),
      rw (ls_made, ms_made, fs_made) refl,
      rw
          (
            record_actions-append ls (ms ++ fs) rs,
            record_actions-append ms fs (record_actions ls rs),
          )
          (joined rs want (record_actions ls rs) (record_actions ms (record_actions ls rs)) _
            (λ v. ls_reach v rs (sym (contains-sorted rs.local v)) ∙ contains-sorted want.local v)
            (ls_kept rs)
            (λ v h.
              ms_reach v (record_actions ls rs) (h ∙ sym (contains-sorted rs.remote v))
              ∙ contains-sorted want.remote v)
            (ms_kept (record_actions ls rs))
            (λ k. fs_reach k (record_actions ms (record_actions ls rs)))
            (fs_kept (record_actions ms (record_actions ls rs)))),
    )
