-- ===== src/Controller/Diff/IpSecs/Converge.antt =====
-- The status that is written optimistically asks for no further action.
use ipman.Prelude.{
  String, ◌==◌, ◌≡◌, ◌≢◌, refl, true, false, not, ◌&&◌, List, [], ◌∷◌, some, GoMap, Map, elems,
  lookup, lookup-insert, has_key, keys, any, keep, map, In, inl, inr, Bool-cases, In-sort_by,
  insert, str_le, sort_by, ◌⊎◌, ap, contains, contains-keys, IsDistinct, is_blank, In-keep, eq_iff,
  arith, if◌then◌else◌,
}
use ipman.Api.{Child, IpSecConnection}
use ipman.Controller.State.{IpSecConnectionState}
use ipman.Controller.Diff.IpSecs.{
  all_up, wanted_state, wanted_states, create_ip_secs, shown_state, cluster_ip_secs, get_ip_sec,
  diff_children, diff_ip_sec, diff_states_of, diff_ip_secs, set_up, mark_up,
}

-- The current state is up, and so is every child that is wanted.
pub record IsUp (d c : IpSecConnectionState) : Type 0 where
  pub up : c.state ≡ "UP"
  pub known : (m : Map String) × (c.children_state ≡ some m)
  pub children :
      (k : String)
      → has_key k (elems d.children_state) ≡ true
      → lookup k (elems c.children_state) ≡ some "UP"

diff_children-nil :
    (name ip : String) (c : IpSecConnectionState) (m : Map String)
    → c.state ≡ "UP"
    → ((k : String) → has_key k m ≡ true → lookup k (elems c.children_state) ≡ some "UP")
    → diff_children name c ip m ≡ []
unfolding diff_children has_key
diff_children-nil name ip c [] u h = refl
diff_children-nil name ip c ((k, v) ∷ m) u h =
    let found : lookup k (elems c.children_state) ≡ some "UP" = h k (ground (arith, eq_iff k k)) in
    rw (found, u) (diff_children-nil name ip c m u (λ j hj. h j (ground arith)))

-- A connection that is up needs no action.
diff_ip_sec-nil : (d c : IpSecConnectionState) (ip : String) → IsUp d c → diff_ip_sec d c ip ≡ []
unfolding diff_ip_sec
diff_ip_sec-nil d c ip h =
    let (m, e) = h.known in
    let set : (c.state == "") ≡ false = ap (λ s. s == "") h.up in
    let up : (c.state == "Down") ≡ false = ap (λ s. s == "Down") h.up in
    ground
      (arith, e, set, up, diff_children-nil d.name ip c (elems d.children_state) h.up h.children)

diff_states_of-nil :
    (ds current : List IpSecConnectionState) (ip : String)
    → ((d : IpSecConnectionState)
        → In d ds
        → (c : IpSecConnectionState) × (get_ip_sec current d.name ≡ some c) × IsUp d c)
    → diff_states_of ds current ip ≡ []
unfolding diff_states_of
diff_states_of-nil [] current ip h = refl
diff_states_of-nil (d ∷ ds) current ip h =
    let (c, found, up) = h d (inl refl) in
    rw (found, diff_ip_sec-nil d c ip up) (diff_states_of-nil ds current ip (λ e i. h e (inr i)))

lookup-set_up :
    (ks : List String) (m : GoMap String) (k : String)
    → lookup k (elems (set_up ks m)) ≡ (if contains ks k then some "UP" else lookup k (elems m))
unfolding set_up contains
lookup-set_up [] m k = refl
lookup-set_up (j ∷ ks) m k = ground (
  arith,
  eq_iff j k,
  lookup-set_up ks (some (insert j "UP" (elems m))) k,
  lookup-insert j k "UP" (elems m),
)

set_up_known :
    (k : String) (ks : List String) (m : GoMap String)
    → (n : Map String) × (set_up (k ∷ ks) m ≡ some n)
unfolding set_up
set_up_known k [] m = (insert k "UP" (elems m), refl)
set_up_known k (j ∷ ks) m = set_up_known j ks (some (insert k "UP" (elems m)))

has_key-all_up : (k : String) (m : Map Child) → has_key k (all_up m) ≡ has_key k m
unfolding has_key
has_key-all_up k [] = refl
has_key-all_up k ((j, c) ∷ m) = ground (arith, has_key-all_up k m)

mark_up_children :
    (m : Map Child) (s : GoMap String) → m ≢ [] → (n : Map String) × (set_up (keys m) s ≡ some n)
unfolding keys
mark_up_children [] s h = absurd (h refl)
mark_up_children ((k, c) ∷ m) s h = set_up_known k (keys m) s

mark_up-IsUp :
    (conn : IpSecConnection)
    → conn.spec.children ≢ []
    → IsUp (wanted_state conn) (shown_state (mark_up conn))
unfolding mark_up
mark_up-IsUp conn h = record {
  up = refl;
  known = mark_up_children conn.spec.children conn.status.children_state h;
  children = λ k e. ground (
    arith,
    lookup-set_up (keys conn.spec.children) conn.status.children_state k,
    contains-keys k conn.spec.children,
    has_key-all_up k conn.spec.children,
  );
}

name-mark_up : (c : IpSecConnection) → (mark_up c).name ≡ c.name
unfolding mark_up
name-mark_up c = refl

abbrev pub names : List IpSecConnection → List String
names [] = []
names (c ∷ cs) = c.name ∷ names cs

In-names :
    (conn : IpSecConnection) (cl : List IpSecConnection)
    → In conn cl
    → contains (names cl) conn.name ≡ true
unfolding contains
In-names conn [] h = absurd h
In-names conn (c ∷ cs) (inl e) = ground (arith, e, eq_iff c.name conn.name)
In-names conn (c ∷ cs) (inr h) = ground (arith, In-names conn cs h)

get_ip_sec-mark_up :
    (conn : IpSecConnection) (cl : List IpSecConnection)
    → IsDistinct (names cl)
    → In conn cl
    → is_blank conn.name ≡ false
    → get_ip_sec (cluster_ip_secs (map mark_up cl)) conn.name ≡ some (shown_state (mark_up conn))
unfolding get_ip_sec cluster_ip_secs
get_ip_sec-mark_up conn [] d h b = absurd h
get_ip_sec-mark_up conn (c ∷ cs) d (inl e) b =
    ground (arith, e, name-mark_up c, name-mark_up conn, eq_iff conn.name conn.name)
get_ip_sec-mark_up conn (c ∷ cs) d (inr h) b = ground (
  arith,
  name-mark_up c,
  eq_iff c.name conn.name,
  In-names conn cs h,
  get_ip_sec-mark_up conn cs d.1 h b,
)

wanted_states-In :
    (d : IpSecConnectionState) (cl : List IpSecConnection)
    → In d (wanted_states cl)
    → (conn : IpSecConnection) × In conn cl × (wanted_state conn ≡ d) × (is_blank conn.name ≡ false)
unfolding wanted_states
wanted_states-In d [] h = absurd h
wanted_states-In d (c ∷ cs) h = elim (Bool-cases (is_blank c.name)) [
  | inl e ↦
      let (conn, i, same, shown) = wanted_states-In d cs (rw (e, wanted_states) at h) in
      (conn, inr i, same, shown)
  | inr e ↦
      let k : (wanted_state c ≡ d) ⊎ In d (wanted_states cs) = rw (e, wanted_states) at h in
      elim k [
        | inl same ↦ (c, inl refl, same, e)
        | inr i ↦ let (conn, i, same, shown) = wanted_states-In d cs i in (conn, inr i, same, shown)
      ]
]

-- A wanted state has a current one that is up.
settled :
    (cl : List IpSecConnection) (d : IpSecConnectionState)
    → IsDistinct (names cl)
    → ((c : IpSecConnection) → In c cl → c.spec.children ≢ [])
    → In d (wanted_states cl)
    → (c : IpSecConnectionState) × (get_ip_sec (cluster_ip_secs (map mark_up cl)) d.name ≡ some c)
      × IsUp d c
settled cl d distinct full i =
    let (conn, i, same, shown) = wanted_states-In d cl i in
    rw⁻¹ same (
      (
        shown_state (mark_up conn),
        get_ip_sec-mark_up conn cl distinct i shown,
        mark_up-IsUp conn (full conn i),
      ))

-- Once UpdateChildConnectionStatus has written the status of every listed connection, `diffIPSecs`
-- asks for no action, if the connections' names differ and every connection has a child.
pub diff_ip_secs-mark_up :
    (cl : List IpSecConnection) (ip : String)
    → IsDistinct (names cl)
    → ((c : IpSecConnection) → In c cl → c.spec.children ≢ [])
    → diff_ip_secs (create_ip_secs cl) (cluster_ip_secs (map mark_up cl)) ip ≡ []
unfolding diff_ip_secs create_ip_secs
diff_ip_secs-mark_up cl ip distinct full =
    let cur = cluster_ip_secs (map mark_up cl) in
    let listed = λ (d : IpSecConnectionState).
      any (λ (s : IpSecConnectionState). s.name == d.name && not (s.name == "")) cur in
    let le = λ (a b : IpSecConnectionState). str_le a.name b.name in
    diff_states_of-nil (keep listed (sort_by le (wanted_states cl))) cur ip (λ d i.
      settled cl d distinct full (
        In-sort_by le d (wanted_states cl)
          ((In-keep listed d (sort_by le (wanted_states cl))).0 i).0))
