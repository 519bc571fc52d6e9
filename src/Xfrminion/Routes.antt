-- ===== src/Xfrminion/Routes.antt =====
-- What the handlers of local and remote routes do to the kernel's table.
use ipman.Prelude.{
  ◌⊎◌, String, ◌==◌, ◌≡◌, inl, inr, refl, sym, ap, ◌∙◌, Bool, true, false, not, ◌&&◌, ◌||◌, nat_eq,
  List, Option, none, some, Bool-cases, eq_iff, eq_refl, arith,
}
use ipman.Xfrminion.{
  Link, Route, Kernel, Reply, ok, refused, find_link, on_link, on_route, reply_tolerant,
  reply_strict, add_local_route, delete_local_route,
}

abbrev pub same_route : Route → Route → Bool
same_route r q = nat_eq r.link_index q.link_index && r.dst == q.dst

-- What the kernel's table of routes is relied on for. An added route is there with all others, a
-- deleted one is gone, and a call that is refused changes nothing. A route is refused as existing
-- only if one for its destination is there, over whatever link. The links stay as they are.
pub record IsTable {K : Type 0} (kernel : Kernel K) (has : K → Route → Bool) : Type 0 where
  pub links : (r : Route) (k : K) → kernel.link_list (kernel.route_add r k).0 ≡ kernel.link_list k
  pub added :
      (r q : Route) (k : K)
      → (kernel.route_add r k).1 ≡ none
      → has (kernel.route_add r k).0 q ≡ (same_route r q || has k q)
  pub not_added :
      (r q : Route) (k : K) (e : String)
      → (kernel.route_add r k).1 ≡ some e
      → has (kernel.route_add r k).0 q ≡ has k q
  pub exists :
      (r : Route) (k : K)
      → (kernel.route_add r k).1 ≡ some "file exists"
      → (q : Route) × (has k q ≡ true) × (q.dst ≡ r.dst)
  pub deleted :
      (r q : Route) (k : K)
      → (kernel.route_del r k).1 ≡ none
      → has (kernel.route_del r k).0 q ≡ (not (same_route r q) && has k q)

module _ {K : Type 0} (kernel : Kernel K) (has : K → Route → Bool)
    (table : IsTable kernel has) where
  -- The route that a request means.
  pub record Means (kind text : String) (k : K) (r : Route) : Type 0 where
    pub listed : List Link
    pub all_links : kernel.link_list k ≡ some listed
    pub link : Link
    pub found : find_link kind listed none ≡ some link
    pub net : String
    pub parsed : kernel.parse_cidr text ≡ some net
    pub route : r ≡ record { link_index = link.index; dst = net }

  pub same_route_refl : (r : Route) → same_route r r ≡ true
  same_route_refl r = ground (arith, eq_refl r.dst)

  -- No other route than this one is there for its destination.
  abbrev pub IsOnly : Route → K → Type 0
  IsOnly r k = (q : Route) → has k q ≡ true → q.dst ≡ r.dst → q ≡ r

  -- The reply to adding a route, and the table behind it.
  abbrev pub Added : Route → K → K × Reply → Type 0
  Added r k p =
      ((p.1 ≡ ok) × ((q : Route) → has p.0 q ≡ (same_route r q || has k q)))
      ⊎ ((p.1 ≡ refused 400) × ((q : Route) → has p.0 q ≡ has k q))

  route_eq : (r q : Route) → same_route r q ≡ true → r ≡ q
  route_eq r q h = ground (arith, eq_iff r.dst q.dst)

  already : (r q : Route) (k : K) → has k r ≡ true → has k q ≡ (same_route r q || has k q)
  already r q k old = elim (Bool-cases (same_route r q)) [
    | inl e ↦ rw e (ap (has k) (sym (route_eq r q e)) ∙ old)
    | inr e ↦ rw e refl
  ]

  exists_already :
      (r : Route) (k : K) (e : String)
      → IsOnly r k
      → (kernel.route_add r k).1 ≡ some e
      → (e == "file exists") ≡ true
      → has k r ≡ true
  exists_already r k e only at same =
      let named : e ≡ "file exists" = ground (arith, same, eq_iff e "file exists") in
      let (q, there, to) = table.exists r k (at ∙ ap some named) in
      ap (has k) (sym (only q there to)) ∙ there

  tolerated :
      (r : Route) (k : K) (p : K × Option String)
      → kernel.route_add r k ≡ p
      → IsOnly r k
      → Added r k (reply_tolerant kernel p)
  tolerated r k (k2, none) at only =
      inl (
        refl,
        λ q. ap (λ x. has x q) (sym (ap (λ p. p.0) at)) ∙ table.added r q k (ap (λ p. p.1) at),
      )
  tolerated r k (k2, some e) at only =
      let same : (q : Route) → has k2 q ≡ has k q = λ q.
        ap (λ x. has x q) (sym (ap (λ p. p.0) at)) ∙ table.not_added r q k e (ap (λ p. p.1) at) in
      elim (Bool-cases (e == "file exists")) [
        | inl y ↦ inl (
          rw y refl,
          λ q. same q ∙ already r q k (exists_already r k e only (ap (λ p. p.1) at) y),
        )
        | inr n ↦ inr (rw n refl, same)
      ]

  on_link_route :
      (kind text : String) (missing : Reply) (act : Route → K → K × Reply) (k : K) (r : Route)
      → Means kind text k r
      → on_link kernel kind missing (on_route kernel act text) k ≡ act r k
  on_link_route kind text missing act k r m =
      rw (on_link, m.all_links, m.found, on_route, m.parsed) (ap (λ x. act x k) (sym m.route))

  -- The meaning of a request is the same behind an added route.
  after_added :
      (kind text : String) (k : K) (r q : Route)
      → Means kind text k r
      → Means kind text (kernel.route_add q k).0 r
  after_added kind text k r q m = record {
    listed = m.listed;
    all_links = table.links q k ∙ m.all_links;
    link = m.link;
    found = m.found;
    net = m.net;
    parsed = m.parsed;
    route = m.route;
  }

  restored :
      (r q : Route) (k : K)
      → has k r ≡ false
      → (not (same_route r q) && (same_route r q || has k q)) ≡ has k q
  restored r q k absent = elim (Bool-cases (same_route r q)) [
    | inl e ↦ rw e (sym (ap (has k) (sym (route_eq r q e)) ∙ absent))
    | inr e ↦ rw e refl
  ]

  -- Adding a local route whose destination is routed over no other link is either answered with
  -- 200, and the route is there with all others, or refused, and the table is as it was.
  pub add_local_route-Added :
      (text : String) (k : K) (r : Route)
      → Means "vxlan" text k r
      → IsOnly r k
      → Added r k (add_local_route kernel (some text) k)
  unfolding add_local_route
  add_local_route-Added text k r m only =
      rw
        (on_link_route "vxlan" text (refused 400)
          (λ q j. reply_tolerant kernel (kernel.route_add q j)) k r m)
        (tolerated r k (kernel.route_add r k) refl only)

  strict_ok : (p : K × Option String) → (reply_strict kernel p).1 ≡ ok → p.1 ≡ none
  strict_ok (k, none) h = refl
  strict_ok (k, some e) h = cc

  strict_state : (p : K × Option String) → (reply_strict kernel p).0 ≡ p.0
  strict_state (k, none) = refl
  strict_state (k, some e) = refl

  delete_local_route_ok :
      (text : String) (k : K) (r q : Route)
      → Means "vxlan" text k r
      → (delete_local_route kernel (some text) k).1 ≡ ok
      → has (delete_local_route kernel (some text) k).0 q ≡ (not (same_route r q) && has k q)
  unfolding delete_local_route
  delete_local_route_ok text k r q m h =
      let here =
        on_link_route "vxlan" text (refused 400) (λ q j. reply_strict kernel (kernel.route_del q j))
          k r m in
      let done = strict_ok (kernel.route_del r k) (rw here at h) in
      rw (here, strict_state (kernel.route_del r k)) (table.deleted r q k done)

  added_ok :
      (r : Route) (k : K) (p : K × Reply)
      → Added r k p
      → p.1 ≡ ok
      → (q : Route) → has p.0 q ≡ (same_route r q || has k q)
  added_ok r k (k2, reply) (inl (e, now)) h q = now q
  added_ok r k (k2, reply) (inr (e, now)) h q = cc

  tolerant_state : (p : K × Option String) → (reply_tolerant kernel p).0 ≡ p.0
  tolerant_state (k, none) = refl
  tolerant_state (k, some e) = refl

  still_Means :
      (kind text : String) (k : K) (r q : Route)
      → Means kind text k q
      → Means kind text (reply_tolerant kernel (kernel.route_add r k)).0 q
  still_Means kind text k r q m =
      rw (tolerant_state (kernel.route_add r k)) (after_added kind text k q r m)

  -- Requests mean the same behind an added route.
  pub add_local_route-Means :
      (text kind other : String) (k : K) (r q : Route)
      → Means "vxlan" text k r
      → Means kind other k q
      → Means kind other (add_local_route kernel (some text) k).0 q
  unfolding add_local_route
  add_local_route-Means text kind other k r q m n =
      rw
        (on_link_route "vxlan" text (refused 400)
          (λ q j. reply_tolerant kernel (kernel.route_add q j)) k r m)
        (still_Means kind other k r q n)

  -- A local route to a destination that had none: if adding it and then deleting it are both
  -- answered with 200, it is there in between, and behind both the table is as it was.
  pub delete_local_route-add_local_route :
      (text : String) (k : K) (r : Route)
      → Means "vxlan" text k r
      → ((q : Route) → q.dst ≡ r.dst → has k q ≡ false)
      → (add_local_route kernel (some text) k).1 ≡ ok
      → (delete_local_route kernel (some text) (add_local_route kernel (some text) k).0).1 ≡ ok
      → (has (add_local_route kernel (some text) k).0 r ≡ true)
        × ((q : Route)
            → has
                (delete_local_route kernel (some text) (add_local_route kernel (some text) k).0).0
                q
              ≡ has k q)
  delete_local_route-add_local_route text k r m free add_ok del_ok =
      let there = (add_local_route kernel (some text) k).0 in
      let only : IsOnly r k = λ q h e. let no : has k q ≡ false = free q e in cc in
      let now =
        added_ok r k (add_local_route kernel (some text) k) (add_local_route-Added text k r m only)
          add_ok in
      (
        ground (arith, now r, same_route_refl r),
        λ q.
            delete_local_route_ok text there r q (add_local_route-Means text "vxlan" text k r r m m)
              del_ok
            ∙ (ap (λ b. not (same_route r q) && b) (now q) ∙ restored r q k (free r refl)),
      )
