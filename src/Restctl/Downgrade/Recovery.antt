-- ===== src/Restctl/Downgrade/Recovery.antt =====
-- A failure that restctl reports makes the operator restart the child, and a successful restart
-- undoes the report.
use ipman.Prelude.{
  String, ◌==◌, ◌≡◌, ◌≢◌, ◌⊎◌, inl, inr, refl, sym, ap, ◌∙◌, true, false, Option, none, some, elems,
  lookup, has_key, insert, values, contains, [], ◌∷◌, Map, In, In-append-right, lookup-insert,
  if◌then◌else◌, eq_iff, arith, str_cases,
}
use ipman.Errors.{GoError, done}
use ipman.Api.{IpSecConnection, Child}
use ipman.Swan.Status.{FailureInfo}
use ipman.Controller.State.{IpSecConnectionState}
use ipman.Controller.Action.{restart_child_connection, update_child_connection_status}
use ipman.Controller.Diff.IpSecs.{
  wanted_state, shown_state, first_child_name, diff_children, diff_ip_sec, all_up, fill_in,
  restart_first,
}
use ipman.Restctl.Downgrade.{downgrade, with_child_up, put_status, after_reply, restart_child}

diff_children-In :
    (name child ip : String) (c : IpSecConnectionState) (m : Map Child)
    → has_key child m ≡ true
    → lookup child (elems c.children_state) ≡ some "Down"
    → c.state ≢ ""
    → In (restart_child_connection name child ip) (diff_children name c ip (all_up m))
unfolding diff_children has_key
diff_children-In name child ip c [] h down s = cc
diff_children-In name child ip c ((k, v) ∷ m) h down s = elim (str_cases k child) [
  | inl e ↦
      let known : (c.state == "") ≡ false = ground (arith, eq_iff c.state "") in
      rw (e, down, known) (inl (ap (λ x. restart_child_connection name x ip) e))
  | inr (n, e) ↦
      In-append-right (restart_child_connection name child ip)
        (elim (lookup k (elems c.children_state)) [
          | none ↦ update_child_connection_status name ∷ []
          | some val ↦
              if c.state == ""
              then update_child_connection_status name ∷ []
              else if val == "UP"
              then []
              else restart_child_connection name k ip ∷ []
        ])
        (diff_children name c ip (all_up m))
        (diff_children-In name child ip c m (ground arith) down s)
]

-- restctl reports a child of the connection, or the connection itself, and then the child is the
-- first of the sorted children.
abbrev pub Reports : FailureInfo → IpSecConnection → String → Type 0
Reports fi c child =
    ((fi.child ≡ "") × (first_child_name (wanted_state c).children_state ≡ some child))
    ⊎ ((fi.child ≡ child) × (child ≢ "") × (has_key child c.spec.children ≡ true))

insert-insert :
    (k v w : String) (m : Map String) → lookup k m ≡ some v → insert k v (insert k w m) ≡ m
unfolding insert lookup
insert-insert k v w [] h = cc
insert-insert k v w ((j, u) ∷ m) h = ground (arith, eq_iff j k, eq_iff k k, insert-insert k v w m)

with_child_up-downgrade :
    (fi : FailureInfo) (c : IpSecConnection) (m : Map String)
    → fi.child ≢ ""
    → c.status.state ≡ "UP"
    → c.status.children_state ≡ some m
    → lookup fi.child m ≡ some "UP"
    → contains (values m) "Down" ≡ false
    → ((downgrade fi c).status.children_state ≡ some (insert fi.child "Down" m))
      × (with_child_up (downgrade fi c) (insert fi.child "UP" (insert fi.child "Down" m)) ≡ c)
unfolding with_child_up downgrade
with_child_up-downgrade fi c m named up there child_up none_down =
    let down : downgrade fi c ≡ record c {
      status = record c.status {
        state = "Degraded";
        children_state = some (insert fi.child "Down" m);
      };
    } =
      ground (arith, eq_iff fi.child "") in
    (ground (arith, down), ground (arith, down, insert-insert fi.child "UP" "Down" m child_up))

-- A report of a child that is up, in a connection that is up with no child down, and the child's
-- successful restart leave the connection as it was.
pub restart_child-downgrade :
    (put : IpSecConnection → Option GoError) (fi : FailureInfo) (c : IpSecConnection)
    (m : Map String) (body : String)
    → fi.child ≢ ""
    → c.status.state ≡ "UP"
    → c.status.children_state ≡ some m
    → lookup fi.child m ≡ some "UP"
    → contains (values m) "Down" ≡ false
    → put c ≡ none
    → restart_child put fi.connection fi.child
        (done (record { code = 200; body = body }))
        (done (downgrade fi c))
      ≡ done c
unfolding restart_child after_reply
restart_child-downgrade put fi c m body named up there child_up none_down written =
    let (state, back) = with_child_up-downgrade fi c m named up there child_up none_down in
    rw (state, back, put_status, written) (ap done back)

-- A connection that is down: its first child is restarted.
diff_ip_sec-down :
    (d c : IpSecConnectionState) (child ip : String)
    → c.state ≡ "Down"
    → first_child_name d.children_state ≡ some child
    → In (restart_child_connection c.name child ip) (diff_ip_sec d c ip)
unfolding diff_ip_sec
diff_ip_sec-down d c child ip down head =
    In-append-right (restart_child_connection c.name child ip) (fill_in d c)
      (if c.state == "Down"
        then restart_first c ip (first_child_name d.children_state)
        else diff_children d.name c ip (elems d.children_state))
      (rw (down, head) (inl refl))

-- A connection that is not down: its children that are down are restarted.
diff_ip_sec-degraded :
    (conn : IpSecConnection) (c : IpSecConnectionState) (child ip : String)
    → c.state ≡ "Degraded"
    → has_key child conn.spec.children ≡ true
    → lookup child (elems c.children_state) ≡ some "Down"
    → In (restart_child_connection conn.name child ip) (diff_ip_sec (wanted_state conn) c ip)
unfolding diff_ip_sec
diff_ip_sec-degraded conn c child ip degraded listed down =
    let not_down : (c.state == "Down") ≡ false =
      ground (arith, eq_iff c.state "Down", eq_iff "Degraded" "Down", degraded) in
    In-append-right (restart_child_connection conn.name child ip) (fill_in (wanted_state conn) c)
      (if c.state == "Down"
        then restart_first c ip (first_child_name (wanted_state conn).children_state)
        else diff_children conn.name c ip (all_up conn.spec.children))
      (rw not_down (
        diff_children-In conn.name child ip c conn.spec.children listed down
          (λ e. ground (arith, eq_iff "Degraded" "", sym degraded ∙ e))))

-- When restctl reports a child, or a connection that is down, diffIPSecs asks for the child's
-- restart, or for the restart of the connection's first child.
pub diff_ip_sec-downgrade :
    (fi : FailureInfo) (c : IpSecConnection) (child ip : String)
    → Reports fi c child
    → In
        (restart_child_connection c.name child ip)
        (diff_ip_sec (wanted_state c) (shown_state (downgrade fi c)) ip)
unfolding downgrade
diff_ip_sec-downgrade fi c child ip (inl (whole, head)) =
    let down : downgrade fi c ≡ record c { status = record c.status { state = "Down" } } =
      ground (arith, eq_iff fi.child "") in
    rw down (
      diff_ip_sec-down (wanted_state c)
        (shown_state (record c { status = record c.status { state = "Down" } })) child ip refl head)
diff_ip_sec-downgrade fi c child ip (inr (same, named, listed)) =
    let down : downgrade fi c ≡ record c {
      status = record c.status {
        state = "Degraded";
        children_state = some (insert child "Down" (elems c.status.children_state));
      };
    } =
      ground (arith, eq_iff fi.child "", same) in
    rw down (
      diff_ip_sec-degraded c
        (shown_state (record c {
          status = record c.status {
            state = "Degraded";
            children_state = some (insert child "Down" (elems c.status.children_state));
          };
        }))
        child ip refl listed
        (ground (
          arith,
          lookup-insert child child "Down" (elems c.status.children_state),
          eq_iff child child,
        )))
