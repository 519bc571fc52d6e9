-- ===== src/Controller/Diff/Routes/Reach.antt =====
-- The route actions lead to the desired routes.
use ipman.Prelude.{
  String, ◌==◌, ◌≡◌, refl, ◌∙◌, true, false, not, ◌&&◌, ◌||◌, List, [], ◌∷◌, ◌++◌, none, some,
  Slice, GoMap, elems, contains, any, delete_func, sort, contains-sort, contains-append, eq_iff,
  arith,
}
use ipman.Controller.State.{Routes, XfrmPod}
use ipman.Controller.Action.{
  Action, add_local_route, delete_local_route, add_remote_route, delete_remote_route,
}
use ipman.Controller.Effect.{without_route, record_action, record_actions, record_actions-append}
use ipman.Controller.Diff.Routes.{
  Any, nil, str, Change, ChangeType, create, delete, update, ok, route_change, route_changes,
}
use ipman.Controller.Diff.Routes.Laws.{shaped, is_str, IsShaped, adds, removes, IsListDiff}

contains-delete_func :
    (xs : List String) (r v : String)
    → contains (delete_func (λ x. x == r) xs) v ≡ (contains xs v && not (r == v))
unfolding contains delete_func
contains-delete_func [] r v = refl
contains-delete_func (x ∷ xs) r v =
    ground (arith, eq_iff x r, eq_iff x v, eq_iff r v, contains-delete_func xs r v)

contains_one : (r v : String) → contains (r ∷ []) v ≡ (r == v)
unfolding contains
contains_one r v = ground arith

contains-without_route :
    (s : Slice String) (r v : String)
    → contains (elems (without_route r s)) v ≡ (contains (elems s) v && not (r == v))
unfolding contains
contains-without_route none r v = refl
contains-without_route (some xs) r v =
    ground (arith, contains-sort (delete_func (λ x. x == r) xs) v, contains-delete_func xs r v)

contains-snoc :
    (xs : List String) (r v : String) → contains (sort (xs ++ r ∷ [])) v ≡ (contains xs v || r == v)
contains-snoc xs r v =
    ground (arith, contains-sort (xs ++ r ∷ []) v, contains-append xs (r ∷ []) v, contains_one r v)

-- A list of routes among the recorded ones, with the two actions that write it.
-- `rest` is what they leave alone.
pub record IsRouteList {B : Type 0} (view : Routes → Slice String) (rest : Routes → B)
    (del add : String → Action) : Type 0 where
  pub on_add :
      (r v : String) (rs : Routes)
      → contains (elems (view (record_action (add r) rs))) v
        ≡ (contains (elems (view rs)) v || r == v)
  pub on_delete :
      (r v : String) (rs : Routes)
      → contains (elems (view (record_action (del r) rs))) v
        ≡ (contains (elems (view rs)) v && not (r == v))
  pub add_rest : (r : String) (rs : Routes) → rest (record_action (add r) rs) ≡ rest rs
  pub delete_rest : (r : String) (rs : Routes) → rest (record_action (del r) rs) ≡ rest rs

module _ {B : Type 0} {view : Routes → Slice String} {rest : Routes → B} {del add : String → Action}
    (l : IsRouteList view rest del add) where
  route_change-reach :
      (kind : ChangeType) (from to : Any)
      → shaped kind from to ≡ true
      → (acts : List Action) × (route_change del add kind from to ≡ ok acts)
        × ((v : String) (rs : Routes)
            → (is_str v to && is_str v from) ≡ false
            → contains (elems (view (record_actions acts rs))) v
              ≡ (is_str v to || (contains (elems (view rs)) v && not (is_str v from))))
        × ((rs : Routes) → rest (record_actions acts rs) ≡ rest rs)
  unfolding route_change record_actions
  route_change-reach create nil (str b) h =
      (add b ∷ [], refl, λ v rs e. ground (arith, l.on_add b v rs), l.add_rest b)
  route_change-reach delete (str a) nil h =
      (del a ∷ [], refl, λ v rs e. ground (arith, l.on_delete a v rs), l.delete_rest a)
  route_change-reach update (str a) (str b) h = (
    del a ∷ add b ∷ [],
    refl,
    λ v rs e. ground (arith, l.on_delete a v rs, l.on_add b v (record_action (del a) rs)),
    λ rs. l.add_rest b (record_action (del a) rs) ∙ l.delete_rest a rs,
  )
  route_change-reach _ _ _ h = cc

  -- Shaped changes give actions, which add and remove what the changes name.
  route_changes-reach :
      (cs : List Change)
      → IsShaped cs
      → (acts : List Action) × (route_changes del add cs ≡ ok acts)
        × ((v : String) (rs : Routes)
            → (adds cs v && removes cs v) ≡ false
            → contains (elems (view (record_actions acts rs))) v
              ≡ (adds cs v || (contains (elems (view rs)) v && not (removes cs v))))
        × ((rs : Routes) → rest (record_actions acts rs) ≡ rest rs)
  unfolding route_changes record_actions any
  route_changes-reach [] h = ([], refl, λ v rs e. ground arith, λ rs. refl)
  route_changes-reach (c ∷ cs) h =
      let (one, made, reach, kept) = route_change-reach c.kind c.from c.to h.0 in
      let (more, rest_made, rest_reach, rest_kept) = route_changes-reach cs h.1 in
      (
        one ++ more,
        rw (made, rest_made) refl,
        λ v rs e.
            rw (record_actions-append one more rs)
              (ground (arith, reach v rs, rest_reach v (record_actions one rs))),
        λ rs. rw (record_actions-append one more rs) (rest_kept (record_actions one rs) ∙ kept rs),
      )

  -- With the changes that the library lists, the view ends up with the wanted elements.
  pub IsListDiff-reach :
      (a b : Slice String) (cs : List Change)
      → IsListDiff a b cs
      → (acts : List Action) × (route_changes del add cs ≡ ok acts)
        × ((v : String) (rs : Routes)
            → contains (elems (view rs)) v ≡ contains (elems a) v
            → contains (elems (view (record_actions acts rs))) v ≡ contains (elems b) v)
        × ((rs : Routes) → rest (record_actions acts rs) ≡ rest rs)
  IsListDiff-reach a b cs d =
      let (acts, made, reach, kept) = route_changes-reach cs d.shape in
      (acts, made, λ v rs e. ground (arith, d.added v, d.removed v, reach v rs), kept)

-- The recorded parts that the actions on one list leave alone.
abbrev pub but_local : Routes → Slice String × GoMap String
but_local rs = (rs.remote, rs.bridge_fdb)

abbrev pub but_remote : Routes → Slice String × GoMap String
but_remote rs = (rs.local, rs.bridge_fdb)

module _ (pod : XfrmPod) where
  pub local-IsRouteList :
      IsRouteList
        (λ rs. rs.local)
        but_local
        (λ r. delete_local_route r pod)
        (λ r. add_local_route r pod)
  unfolding record_action contains
  local-IsRouteList = record {
    on_add = λ r v rs. contains-snoc (elems rs.local) r v;
    on_delete = λ r v rs. contains-without_route rs.local r v;
    add_rest = λ r rs. refl;
    delete_rest = λ r rs. refl;
  }

  pub remote-IsRouteList :
      IsRouteList
        (λ rs. rs.remote)
        but_remote
        (λ r. delete_remote_route r pod)
        (λ r. add_remote_route r pod)
  unfolding record_action contains
  remote-IsRouteList = record {
    on_add = λ r v rs. contains-snoc (elems rs.remote) r v;
    on_delete = λ r v rs. contains-without_route rs.remote r v;
    add_rest = λ r rs. refl;
    delete_rest = λ r rs. refl;
  }
