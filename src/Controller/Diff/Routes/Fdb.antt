-- ===== src/Controller/Diff/Routes/Fdb.antt =====
-- The actions on the bridge's forwarding entries lead to the desired entries.
use ipman.Prelude.{
  String, ◌==◌, ◌≡◌, refl, ◌∙◌, true, false, List, [], ◌∷◌, ◌++◌, Option, none, some, Slice, GoMap,
  elems, lookup, any, lookup-insert, lookup-delete, eq_iff, arith, if◌then◌else◌,
}
use ipman.Controller.State.{Routes, XfrmPod}
use ipman.Controller.Action.{Action, add_bridge_fdb, delete_bridge_fdb}
use ipman.Controller.Effect.{record_action, record_actions, record_actions-append}
use ipman.Controller.Diff.Routes.{
  Any, nil, str, Change, ChangeType, create, delete, update, ok, fdb_change, fdb_changes,
}
use ipman.Controller.Diff.Routes.Laws.{
  shaped, IsShaped, at_key, changed, KeyAbsent, HasKeys, value_of, target, IsMapDiff,
}

abbrev pub but_fdb : Routes → Slice String × Slice String
but_fdb rs = (rs.local, rs.remote)

abbrev pub entry : String → Routes → Option String
entry k rs = lookup k (elems rs.bridge_fdb)

module _ (pod : XfrmPod) where
  abbrev pub del : String → String → Action
  del k ip = delete_bridge_fdb k ip pod

  abbrev pub add : String → String → Action
  add k ip = add_bridge_fdb k ip pod

  on_add :
      (j ip k : String) (rs : Routes)
      → entry k (record_action (add j ip) rs) ≡ (if j == k then some ip else entry k rs)
  unfolding record_action
  on_add j ip k rs = lookup-insert j k ip (elems rs.bridge_fdb)

  -- Only the forwarding entries change.
  pub entry-add_bridge_fdb :
      (j ip k : String) (rs : Routes)
      → (entry k (record_action (add j ip) rs) ≡ (if j == k then some ip else entry k rs))
        × (but_fdb (record_action (add j ip) rs) ≡ but_fdb rs)
  entry-add_bridge_fdb j ip k rs = (on_add j ip k rs, unfold record_action in refl)

  on_delete :
      (j ip k : String) (rs : Routes)
      → entry k (record_action (del j ip) rs) ≡ (if j == k then none else entry k rs)
  unfolding record_action
  on_delete j ip k rs = lookup-delete j k (elems rs.bridge_fdb)

  fdb_change-reach :
      (j : String) (path : List String) (kind : ChangeType) (from to : Any)
      → shaped kind from to ≡ true
      → (acts : List Action) × (fdb_change del add (j ∷ path) kind from to ≡ ok acts)
        × ((k : String) (rs : Routes)
            → entry k (record_actions acts rs) ≡ (if j == k then value_of to else entry k rs))
        × ((rs : Routes) → but_fdb (record_actions acts rs) ≡ but_fdb rs)
  unfolding fdb_change record_actions
  fdb_change-reach j path create nil (str b) h =
      (add j b ∷ [], refl, λ k rs. on_add j b k rs, λ rs. unfold record_action in refl)
  fdb_change-reach j path delete (str a) nil h =
      (del j a ∷ [], refl, λ k rs. on_delete j a k rs, λ rs. unfold record_action in refl)
  fdb_change-reach j path update (str a) (str b) h = (
    del j a ∷ add j b ∷ [],
    refl,
    λ k rs. ground (arith, on_delete j a k rs, on_add j b k (record_action (del j a) rs)),
    λ rs. unfold record_action in refl,
  )
  fdb_change-reach _ _ _ _ _ h = cc

  -- The same for a path that is not empty.
  change-reach :
      (path : List String) (cs : List Change) (kind : ChangeType) (from to : Any)
      → KeyAbsent path cs
      → shaped kind from to ≡ true
      → (acts : List Action) × (fdb_change del add path kind from to ≡ ok acts)
        × ((k : String) (rs : Routes)
            → entry k (record_actions acts rs)
              ≡ (if at_key k path then value_of to else entry k rs))
        × ((rs : Routes) → but_fdb (record_actions acts rs) ≡ but_fdb rs)
  change-reach [] cs kind from to a h = absurd a
  change-reach (j ∷ path) cs kind from to a h = fdb_change-reach j path kind from to h

  at_key-KeyAbsent :
      (k : String) (path : List String) (cs : List Change)
      → KeyAbsent path cs
      → at_key k path ≡ true
      → changed k cs ≡ false
  at_key-KeyAbsent k [] cs a h = absurd a
  at_key-KeyAbsent k (j ∷ path) cs a h = rw (← (eq_iff j k).0 h) a

  target_unchanged :
      (k : String) (cs : List Change) (old : Option String)
      → changed k cs ≡ false
      → target k cs old ≡ old
  unfolding any
  target_unchanged k [] old h = refl
  target_unchanged k (c ∷ cs) old h = ground (arith, target_unchanged k cs old)

  fdb_changes-reach :
      (cs : List Change)
      → IsShaped cs
      → HasKeys cs
      → (acts : List Action) × (fdb_changes pod cs ≡ ok acts)
        × ((k : String) (rs : Routes) → entry k (record_actions acts rs) ≡ target k cs (entry k rs))
        × ((rs : Routes) → but_fdb (record_actions acts rs) ≡ but_fdb rs)
  unfolding fdb_changes record_actions
  fdb_changes-reach [] h ks = ([], refl, λ k rs. refl, λ rs. refl)
  fdb_changes-reach (c ∷ cs) h ks =
      let (one, made, reach, kept) = change-reach c.path cs c.kind c.from c.to ks.0 h.0 in
      let (more, rest_made, rest_reach, rest_kept) = fdb_changes-reach cs h.1 ks.1 in
      (
        one ++ more,
        rw (made, rest_made) refl,
        λ k rs. rw (record_actions-append one more rs) (
            ground (
              arith,
              reach k rs,
              rest_reach k (record_actions one rs),
              at_key-KeyAbsent k c.path cs,
              target_unchanged k cs (value_of c.to),
            )),
        λ rs. rw (record_actions-append one more rs) (rest_kept (record_actions one rs) ∙ kept rs),
      )

  pub IsMapDiff-reach :
      (a b : GoMap String) (cs : List Change)
      → IsMapDiff a b cs
      → (acts : List Action) × (fdb_changes pod cs ≡ ok acts)
        × ((k : String) (rs : Routes)
            → entry k rs ≡ lookup k (elems a)
            → entry k (record_actions acts rs) ≡ lookup k (elems b))
        × ((rs : Routes) → but_fdb (record_actions acts rs) ≡ but_fdb rs)
  IsMapDiff-reach a b cs d =
      let (acts, made, reach, kept) = fdb_changes-reach cs d.shape d.keyed in
      (acts, made, λ k rs e. reach k rs ∙ rw e (d.targets k), kept)
