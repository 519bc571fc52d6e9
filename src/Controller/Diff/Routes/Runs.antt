-- ===== src/Controller/Diff/Routes/Runs.antt =====
-- `diffRoutes` with the actions carried out: which of them get through.
use ipman.Prelude.{
  String, ◌==◌, ◌≡◌, refl, sym, true, false, inl, inr, Bool-cases, List, [], ◌∷◌, ◌++◌, Slice,
  elems, any, All, strings_eq, IsDistinct, eq_refl, arith,
}
use ipman.Controller.State.{XfrmPod}
use ipman.Controller.Action.{Action, add_local_route, delete_local_route}
use ipman.Controller.Effect.{run_action, IsAllowed}
use ipman.Controller.Diff.Routes.{
  Any, nil, str, Change, ChangeType, create, delete, update, Result, ok, err, ◌>>=◌, route_change,
  route_changes, diff_local,
}
use ipman.Controller.Diff.Routes.Laws.{is_str, shaped, IsShaped, removes, DiffLibrary}

pub bind-ok :
    {A B : Type 0} (t : Result A) (f : A → Result B) (b : B)
    → (t >>= f) ≡ ok b
    → (a : A) × (t ≡ ok a) × (f a ≡ ok b)
bind-ok (ok a) f b h = (a, refl, h)
bind-ok (err e) f b h = cc

pub All-append :
    (P : Action → Type 0) (xs ys : List Action) → All P xs → All P ys → All P (xs ++ ys)
All-append P [] ys hx hy = hy
All-append P (x ∷ xs) ys hx hy = (hx.0, All-append P xs ys hx.1 hy)

pub ok_eq : {A : Type 0} (a b : A) → ok a ≡ ok b → a ≡ b
ok_eq a b h = cc

module _ (P : Action → Type 0) (del add : String → Action) where
  -- The actions of a change add anything, and delete only what the change removes.
  route_change-All :
      (kind : ChangeType) (from to : Any) (acts : List Action)
      → shaped kind from to ≡ true
      → route_change del add kind from to ≡ ok acts
      → ((r : String) → P (add r))
      → ((r : String) → is_str r from ≡ true → P (del r))
      → All P acts
  unfolding route_change
  route_change-All create nil (str b) acts s h a d = rw (sym (ok_eq (add b ∷ []) acts h)) (a b, tt)
  route_change-All delete (str r) nil acts s h a d =
      rw (sym (ok_eq (del r ∷ []) acts h)) (d r (eq_refl r), tt)
  route_change-All update (str r) (str b) acts s h a d =
      rw (sym (ok_eq (del r ∷ add b ∷ []) acts h)) (d r (eq_refl r), (a b, tt))
  route_change-All _ _ _ acts s h a d = cc

  pub route_changes-All :
      (cs : List Change) (acts : List Action)
      → IsShaped cs
      → route_changes del add cs ≡ ok acts
      → ((r : String) → P (add r))
      → ((r : String) → removes cs r ≡ true → P (del r))
      → All P acts
  unfolding route_changes any
  route_changes-All [] acts s h a d = rw (sym (ok_eq [] acts h)) tt
  route_changes-All (c ∷ cs) acts s h a d =
      let (one, made, h2) = bind-ok (route_change del add c.kind c.from c.to) _ acts h in
      let (rest, rest_made, h3) = bind-ok (route_changes del add cs) _ acts h2 in
      rw (sym (ok_eq (one ++ rest) acts h3)) (
        All-append P one rest
          (route_change-All c.kind c.from c.to one s.0 made a (λ r e. d r (ground (arith, e))))
          (route_changes-All cs rest s.1 rest_made a (λ r e. d r (ground (arith, e)))))

module _ (lib : DiffLibrary) (pod : XfrmPod) (has_ip : (pod.meta.ip == "") ≡ false) where
  pub diff_local-IsAllowed :
      (a b : Slice String) (acts : List Action)
      → IsDistinct (elems a)
      → IsDistinct (elems b)
      → diff_local lib.slices lib.maps pod a b ≡ ok acts
      → All IsAllowed acts
  unfolding diff_local run_action
  diff_local-IsAllowed a b acts i j h = elim (Bool-cases (strings_eq a b)) [
    | inl e ↦ rw (sym (ok_eq [] acts (rw (diff_local, e) at h))) tt
    | inr e ↦
        route_changes-All IsAllowed (λ r. delete_local_route r pod) (λ r. add_local_route r pod)
          (lib.slices a b) acts (lib.slices_law a b i j).shape (rw (diff_local, e) at h)
          (λ r s. refl) (λ r e2 s. refl)
  ]
