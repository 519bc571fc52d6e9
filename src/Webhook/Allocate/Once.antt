-- ===== src/Webhook/Allocate/Once.antt =====
-- An address that was handed out is not free again.
use ipman.Prelude.{
  ℕ, ◌+◌, ◌≤◌, String, ◌==◌, ◌≡◌, ◌⊎◌, refl, false, List, [], ◌∷◌, Option, none, some, Slice, In,
  inl, inr, elems, lookup, lookup-insert, get_or, values, first, eq_iff, arith, Option-cases,
}
use ipman.Api.{Child, IpSecConnection, ℤ}
use ipman.Kube.{Pod, child_name_key, ipman_name_key, pool_name_key}
use ipman.Controller.FreeIps.{pending_timeout}
use ipman.Controller.FreeIps.Exact.{is_free, is_waiting}
use ipman.Webhook.Patch.{JsonPatch, text, patch, annotation_patch}
use ipman.Webhook.Allocate.{
  patched, Served, PodRequest, World, hand_out, annotations_of, give, allocate, serve_http,
}

List-cases {ℓ} : {A : Type ℓ} (xs : List A) → (xs ≡ []) ⊎ ((a : A) × (ys : List A) × (xs ≡ a ∷ ys))
List-cases [] = inl refl
List-cases (x ∷ xs) = inr (x, xs, refl)

-- The patch that gives the pod its address.
abbrev pub address_patch : String → JsonPatch
address_patch ip = record {
  op = "add";
  path = "/metadata/annotations/ipman.dialo.ai~1vxlanIp";
  value = text ip;
}

hand_out-waiting :
    (parse_time : String → Option ℕ) (c : IpSecConnection) (child_name pool_name ip : String)
    (rest : List String) (stamp : String) (t now : ℕ) (pods : List Pod)
    → parse_time stamp ≡ some t
    → now ≤ t + pending_timeout
    → is_free parse_time now pods (hand_out c child_name pool_name ip rest stamp) ip ≡ false
unfolding hand_out is_free is_waiting
hand_out-waiting parse_time c k p ip rest stamp t now pods e le =
    ground (arith, e, le, lookup-insert ip ip stamp (elems c.status.pending_ips), eq_iff ip ip)

-- What a run that wrote a status did.
record Gave (w : World) (s : Served) (d : IpSecConnection) : Type 0 where
  ip : String
  patches : List JsonPatch
  replied : s.reply ≡ patched patches
  given : In (address_patch ip) patches
  child_name : String
  pool_name : String
  rest : List String
  old : IpSecConnection
  taken : d ≡ hand_out old child_name pool_name ip rest w.now

module _ (format_int : ℤ → String) (marshal : Slice String → String) where
  -- The patches when the address is given.
  abbrev patches_of : World → PodRequest → IpSecConnection → Child → String → List JsonPatch
  patches_of w r c child ip =
      let gateway = get_or "" (lookup child.name (elems c.status.xfrm_gateway_ips)) in
      patch format_int r.spec ip gateway (annotations_of format_int marshal child ip gateway) child
        w.image

  give-written :
      (w : World) (r : PodRequest) (c : IpSecConnection) (child : Child) (pool_name ip : String)
      (rest : List String) (d : IpSecConnection)
      → (give format_int marshal w r c child pool_name ip rest).written ≡ some d
      → ((give format_int marshal w r c child pool_name ip rest).reply
          ≡ patched (patches_of w r c child ip))
        × (d ≡ hand_out c child.name pool_name ip rest w.now)
  unfolding give
  give-written w r c child p ip rest d h =
      ground (arith, Option-cases (lookup child.name (elems c.status.xfrm_gateway_ips)))

  give-Gave :
      (w : World) (r : PodRequest) (c : IpSecConnection) (child : Child) (pool_name ip : String)
      (rest : List String) (d : IpSecConnection)
      → (give format_int marshal w r c child pool_name ip rest).written ≡ some d
      → Gave w (give format_int marshal w r c child pool_name ip rest) d
  unfolding patch annotations_of annotation_patch
  give-Gave w r c child p ip rest d h =
      let (replied, taken) = give-written w r c child p ip rest d h in
      record {
        ip = ip;
        patches = patches_of w r c child ip;
        replied = replied;
        given = inl refl;
        child_name = child.name;
        pool_name = p;
        rest = rest;
        old = c;
        taken = taken;
      }

  nothing :
      (w : World) (s : Served) (d : IpSecConnection)
      → s.written ≡ none
      → s.written ≡ some d
      → Gave w s d
  nothing w s d n h = absurd (ground arith)

  allocate-Gave :
      (w : World) (r : PodRequest) (child_name ipman_name pool_name : String) (d : IpSecConnection)
      → (allocate format_int marshal w r child_name ipman_name pool_name).written ≡ some d
      → Gave w (allocate format_int marshal w r child_name ipman_name pool_name) d
  unfolding allocate
  allocate-Gave w r k n p d h = elim (Option-cases (w.connection n)) [
    | inl e ↦ nothing w (allocate format_int marshal w r k n p) d (rw (allocate, e) refl) h
    | inr (c, e) ↦
        elim (Option-cases (first (λ (j : Child). j.name == k) (values c.spec.children))) [
          | inl f ↦ nothing w (allocate format_int marshal w r k n p) d (rw (allocate, e, f) refl) h
          | inr (child, f) ↦
              elim (List-cases (
                elems (
                  get_or none (
                    lookup p
                      (elems (get_or none (lookup child.name (elems c.status.free_ips)))))))) [
                        | inl g ↦
                            nothing w (allocate format_int marshal w r k n p) d
                              (rw (allocate, e, f, g) refl) h
                        | inr (ip, rest, g) ↦
                            rw (allocate, e, f, g)
                              (give-Gave w r c child p ip rest d (rw (allocate, e, f, g) at h))
                      ]
        ]
  ]

  -- Only the last branch writes.
  served :
      (w : World) (r : PodRequest) (d : IpSecConnection)
      → (serve_http format_int marshal w r).written ≡ some d
      → serve_http format_int marshal w r
        ≡ allocate format_int marshal w r
            (get_or "" (lookup child_name_key r.annotations))
            (get_or "" (lookup ipman_name_key r.annotations))
            (get_or "" (lookup pool_name_key r.annotations))
  unfolding serve_http
  served w r d h = ground arith

  serve_http-Gave :
      (w : World) (r : PodRequest) (d : IpSecConnection)
      → (serve_http format_int marshal w r).written ≡ some d
      → Gave w (serve_http format_int marshal w r) d
  serve_http-Gave w r d h =
      let child = lookup child_name_key r.annotations in
      let ipman = lookup ipman_name_key r.annotations in
      let pool = lookup pool_name_key r.annotations in
      let e = served w r d h in
      rw (e)
        (allocate-Gave w r (get_or "" child) (get_or "" ipman) (get_or "" pool) d (rw (e) at h))

  -- When a pod's request had a status written, the pod is given an address, and that address is not
  -- free for the next 35 seconds: not by the status that was written, whatever pods there are then.
  -- The clock's text is assumed to be read back as a time.
  pub serve_http-not_free :
      (parse_time : String → Option ℕ) (w : World) (r : PodRequest) (d : IpSecConnection)
      (t now : ℕ) (pods : List Pod)
      → (serve_http format_int marshal w r).written ≡ some d
      → parse_time w.now ≡ some t
      → now ≤ t + pending_timeout
      → (ip : String) × (patches : List JsonPatch) × ((serve_http format_int marshal w r).reply
          ≡ patched patches)
        × In (address_patch ip) patches
        × (is_free parse_time now pods d ip ≡ false)
  serve_http-not_free parse_time w r d t now pods h e le =
      let g = serve_http-Gave w r d h in
      (
        g.ip,
        g.patches,
        g.replied,
        g.given,
        rw (g.taken) (
            hand_out-waiting parse_time g.old g.child_name g.pool_name g.ip g.rest w.now t now pods
              e le),
      )
