-- ===== src/Restctl/Downgrade.antt =====
-- `downgradeConnectionStatus` of cmd/restctl/main.go, and what the operator then does: diffIPSecs
-- and the action RestartChildConnectionAction of internal/controller/actions.go.
pub mod Recovery
use ipman.Prelude.{
  ℕ, String, ◌==◌, Bool, true, false, not, ◌&&◌, ◌||◌, nat_eq, Option, none, some, elems, insert,
  values, contains, List, Map, GoMap, if◌then◌else◌,
}
use ipman.Errors.{GoError, Try, done, fails, panics, message, wrapped, connection_restart, ◌>>=◌}
use ipman.Api.{IpSecConnection, IpSecConnectionStatus}
use ipman.Swan.Status.{FailureInfo}

-- What one round of downgradeConnectionStatus writes to the connection that it fetched.
unfoldable pub downgrade : FailureInfo → IpSecConnection → IpSecConnection
unfolding insert
downgrade fi c =
    if fi.child == "" then record c { status = record c.status { state = "Down" } } else record c {
      status = record c.status {
        state = "Degraded";
        children_state = some (insert fi.child "Down" (elems c.status.children_state));
      };
    }

-- restctl's reply: the status code and the body.
pub record Reply : Type 0 where
  pub code : ℕ
  pub body : String

-- NewConnectionRestartError
abbrev pub new_connection_restart_error : String → String → GoError
new_connection_restart_error conn child =
    wrapped "Restctl failed to restart the connection" (connection_restart conn child)

-- ipsec.Status.ChildrenState[a.ChildName] = "UP", which panics on a nil map.
abbrev set_child_up : String → GoMap String → Try (Map String)
set_child_up child none = panics
set_child_up child (some m) = done (insert child "UP" m)

-- The connection after a child is set up: it is up when no child is down.
unfoldable pub with_child_up : IpSecConnection → Map String → IpSecConnection
unfolding values contains
with_child_up c m = record c {
  status = record c.status {
    children_state = some m;
    state = if contains (values m) "Down" then c.status.state else "UP";
  };
}

abbrev refuse {ℓ} : {A : Type ℓ} → String → Try A → Try A
refuse text (done a) = done a
refuse text (fails e) = fails (message text)
refuse text panics = panics

abbrev pub put_status : (IpSecConnection → Option GoError) → IpSecConnection → Try IpSecConnection
put_status put c = elim (put c) [
  | none ↦ done c
  | some e ↦ fails (message "Error updating IPSecConnection after restarting in restctl")
]

-- What restctl's reply means for the connection that was fetched.
unfoldable pub after_reply :
    (IpSecConnection → Option GoError)
    → String
    → String
    → Reply
    → IpSecConnection
    → Try IpSecConnection
unfolding with_child_up
after_reply put conn child reply c =
    if nat_eq reply.code 500 && reply.body == "Action failed"
    then fails (new_connection_restart_error conn child)
    else if not (nat_eq reply.code 200)
    then fails (message "Error restarting a connection in restctl pod")
    else do m ← set_child_up child c.status.children_state; put_status put (with_child_up c m)

-- RestartChildConnectionAction.Do, from the answers to its calls: the connection that it wrote.
unfoldable pub restart_child :
    (IpSecConnection → Option GoError)
    → String
    → String
    → Try Reply
    → Try IpSecConnection
    → Try IpSecConnection
unfolding after_reply
restart_child put conn child post get = do
  reply ← refuse "Error sending request to reload a connection to restctl pod" post
  c ← refuse "Error fetching IPSecConnection for status update" get
  after_reply put conn child reply c

-- The reply of RestartConnectionAction.Do: any code but 200 is refused before the test for a
-- failed restart.
unfoldable pub after_conn_reply :
    (IpSecConnection → Option GoError) → String → Reply → Try IpSecConnection → Try IpSecConnection
after_conn_reply put name reply get =
    if not (nat_eq reply.code 200)
    then fails (message "Error restarting a connection in restctl pod")
    else do
      c ← refuse "Error fetching IPSecConnection for status update" get
      (if nat_eq reply.code 500 && reply.body == "Action failed"
          then fails (new_connection_restart_error name "")
          else put_status put (record c { status = record c.status { state = "UP" } }))

-- RestartConnectionAction.Do
unfoldable pub restart_conn :
    (IpSecConnection → Option GoError)
    → String
    → Try Reply
    → Try IpSecConnection
    → Try IpSecConnection
unfolding after_conn_reply
restart_conn put name post get = do
  reply ← refuse "Error sending request to reload a connection to restctl pod" post
  after_conn_reply put name reply get
