-- ===== src/Controller/Routing/Installed.antt =====
-- Recorded routes are installed, and stay so.
use ipman.Prelude.{
  false, ◌||◌, Option, String, ◌≡◌, Bool, true, List, none, some, elems, lookup, get_or, In,
}
use ipman.Errors.{Try, done, fails, panics}
use ipman.Controller.State.{Routes, XfrmPod}
use ipman.Controller.CorePod.{CorePod, spec_key, meta_of, group_of, xfrm_container}
use ipman.Controller.Effect.{record_add_local}
use ipman.Controller.Routing.{RouteAnswers, with_routes}
use ipman.Xfrminion.{Route, Kernel}
use ipman.Xfrminion.Routes.{same_route, IsTable, Means}

-- The routes that the pod's annotation records.
abbrev pub recorded : RouteAnswers → CorePod → Routes
recorded a p = (a.unmarshal (get_or "" (lookup spec_key (elems p.annotations)))).routes

-- The pod as it is read, with these routes.
abbrev pub written : RouteAnswers → CorePod → Routes → XfrmPod
written a p rs = with_routes rs (record {
  meta = meta_of p xfrm_container;
  spec = a.unmarshal (get_or "" (lookup spec_key (elems p.annotations)));
  annotations = none;
  group = group_of p;
})

-- The recorded routes behind an action.
abbrev pub recorded_after : Routes → Try (Option XfrmPod) → Routes
recorded_after old (done (some x)) = x.spec.routes
recorded_after old _ = old

module _ {K : Type 0} (kernel : Kernel K) (has : K → Route → Bool)
    (table : IsTable kernel has) where
  abbrev pub IsInstalled : String → List String → K → Type 0
  IsInstalled kind texts k =
      (t : String) → In t texts → (r : Route) × Means kernel has table kind t k r × (has k r ≡ true)

  -- What is recorded is in the kernel's table.
  pub record IsInSync (rs : Routes) (k : K) : Type 0 where
    pub local : IsInstalled "vxlan" (elems rs.local) k
    pub remote : IsInstalled "xfrm" (elems rs.remote) k

  abbrev HasOnly : Route → Route → K → K → Type 0
  HasOnly r q k k2 = has k2 q ≡ (same_route r q || has k q)

  -- What AddLocalRouteAction.Do ends with: the route is recorded, or its record could not be
  -- written, which is no error, or the pod has refused it.
  abbrev pub Ends : RouteAnswers → CorePod → String → Try (Option XfrmPod) → Type 0
  Ends a p text (done (some x)) = x.spec.routes ≡ record_add_local text (recorded a p)
  Ends a p text (done none) = a.writes (written a p (record_add_local text (recorded a p))) ≡ false
  Ends a p text (fails e) = Unit
  Ends a p text panics = ⊥
