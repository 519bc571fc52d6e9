-- ===== src/Controller/Setup.antt =====
-- The methods of XfrmPodSpec in internal/controller/xfrm_pod.go: `CompleteSetup`, `createXfrmJob`
-- and `CompleteDeletion`. The answers of the API server and of the xfrm pod are a record.
pub mod Gateway
use ipman.Prelude.{
  ℕ, zero, suc, ◌+◌, String, ◌==◌, Bool, true, false, not, ◌&&◌, ◌||◌, leb, nat_eq, List, [], ◌∷◌,
  Option, none, some, Map, GoMap, elems, get_or, insert, delete, join, if◌then◌else◌,
}
use ipman.Errors.{
  GoError, ApiError, api, already_exists, Try, done, fails, panics, message, wrapped, as_wrapped,
  is_not_found, ◌>>=◌,
}
use ipman.Api.{IpSecConnection, CharonGroup}
use ipman.Controller.State.{XfrmProperties}
use ipman.Controller.Create.{Envs}
use ipman.Controller.Desired.{full_path}
use ipman.Controller.Wait.{PodStatus, JobStatus, wait_for_job_completion}

-- The fields that the function fills in from its arguments; the others are constants.
pub record Job : Type 0 where
  pub name : String
  pub namespace : String
  pub node_name : String
  pub socket_path : String
  pub image : String
  pub pull_policy : String
  pub target_pid : ℕ
  pub xfrm_id : ℕ
  pub interface_name : String

unfoldable pub create_xfrm_job : Envs → ℕ → ℕ → String → CharonGroup → Job
unfolding full_path join
create_xfrm_job e pid id conn_name group = record {
  name = join ("ipman-injector" ∷ conn_name ∷ group.name ∷ []) "-";
  namespace = e.namespace_name;
  node_name = group.node_name;
  socket_path = full_path e.host_sockets_path group;
  image = e.xfrminjector_image;
  pull_policy = e.xfrminjector_pull_policy;
  target_pid = pid;
  xfrm_id = id;
  interface_name = get_or "" group.interface_name;
}

-- A reply of the xfrm pod: its status code, and what its body decodes to.
pub record PidReply : Type 0 where
  pub code : ℕ
  pub pid : Try ℕ

-- `wait` is what waitForPodReady returns; `job k` and `after_delete k` answer the get calls for a
-- conflicting job before and after its deletion, `poll` those of waitForJobCompletion.
pub record SetupAnswers : Type 0 where
  pub wait : Try PodStatus
  pub pid_reply : Try PidReply
  pub group : Try CharonGroup
  pub create : Job → Try JobStatus
  pub job : ℕ → Try JobStatus
  pub delete_job : Try (Unit {0})
  pub after_delete : ℕ → Try (Unit {0})
  pub create_again : Job → Try JobStatus
  pub poll : ℕ → Try JobStatus
  pub setup_vxlan : Try ℕ
  pub conn : Try IpSecConnection
  pub put : IpSecConnection → Option GoError

-- apierrors.IsAlreadyExists
unfoldable pub is_already_exists : GoError → Bool
is_already_exists (api already_exists) = true
is_already_exists (wrapped text e) = is_already_exists e
is_already_exists _ = false

-- The first loop of CompleteSetup, for as many rounds as the fuel; one is enough when waiting gives
-- a pod with an address.
unfoldable pub wait_for_address : ℕ → Try PodStatus → PodStatus → Try PodStatus
wait_for_address zero wait pod = done pod
wait_for_address (suc fuel) wait pod = elim (pod.pod_ip == "") [
  | false ↦ done pod
  | true ↦ wait >>= (λ p. wait_for_address fuel wait p)
]

-- The pid of the xfrm pod.
unfoldable pub get_pid : Try PidReply → Try ℕ
get_pid reply = do
  r ← as_wrapped "Couldn't get xfrm pods PID" reply
  (if nat_eq r.code 200
      then as_wrapped "Couldn't read PID" r.pid
      else fails (message "PID: Status code not 200"))

-- The loop that waits for the conflicting job.
unfoldable pub wait_inactive : ℕ → (ℕ → Try JobStatus) → ℕ → JobStatus → Try (Unit {0})
wait_inactive zero get tries job = done tt
wait_inactive (suc fuel) get tries job = elim (not (nat_eq job.active 0) && leb tries 30) [
  | false ↦ done tt
  | true ↦
      as_wrapped "Get conflicting job" (get tries)
      >>= (λ next. wait_inactive fuel get (tries + 1) next)
]

-- The loop that waits until the job is gone.
unfoldable pub wait_deleted : ℕ → (ℕ → Try (Unit {0})) → ℕ → Try (Unit {0})
unfolding is_not_found
wait_deleted zero get tries = done tt
wait_deleted (suc fuel) get tries = elim (leb tries 30) [
  | false ↦ done tt
  | true ↦ elim (get (tries + 1)) [
    | done u ↦ wait_deleted fuel get (tries + 1)
    | panics ↦ panics
    | fails e ↦ elim (is_not_found e) [
      | true ↦ done tt
      | false ↦ fails (wrapped "Get conflicting job while waiting for delete" e)
    ]
  ]
]

-- The get call behind the deletion, and the loop after it.
unfoldable pub await_deletion : (ℕ → Try (Unit {0})) → Try (Unit {0})
unfolding wait_deleted is_not_found
await_deletion get = elim (get 0) [
  | done u ↦ wait_deleted 31 get 0
  | panics ↦ panics
  | fails e ↦ if is_not_found e then done tt else fails (message "Get conflicting job")
]

-- if err != nil { return fmt.Errorf("…") }, which drops the error
abbrev as_message : {A : Type 0} → String → Try A → Try A
as_message text (done a) = done a
as_message text (fails e) = fails (message text)
as_message text panics = panics

-- What is done about a job of the same name.
unfoldable pub replace_job : SetupAnswers → Job → Try JobStatus
unfolding wait_inactive await_deletion
replace_job a job = do
  existing ← as_wrapped "Getting conflicting job" (a.job 0)
  idle ← wait_inactive 30 a.job 1 existing
  deleted ← as_message "Delete conflicting job after it finished" a.delete_job
  gone ← await_deletion a.after_delete
  as_wrapped "Create job after deleting conflicting one" (a.create_again job)

abbrev created : SetupAnswers → Job → Try JobStatus → Try JobStatus
created a job (done status) = done status
created a job panics = panics
created a job (fails e) =
    if is_already_exists e then replace_job a job else fails (wrapped "Error creating job" e)

unfoldable pub create_job : SetupAnswers → Job → Try JobStatus
unfolding replace_job is_already_exists
create_job a job = created a job (a.create job)

-- The reply to /setupVxlan.
unfoldable pub check_vxlan : Try ℕ → Try (Unit {0})
check_vxlan reply = do
  code ← as_wrapped "Couldn't create vxlan interface" reply
  (if nat_eq code 200 then done tt else fails (message "vxlan: Status code not 200"))

unfoldable pub set_gateway : String → String → IpSecConnection → IpSecConnection
unfolding insert
set_gateway child ip c = record c {
  status = record c.status {
    xfrm_gateway_ips = some (insert child ip (elems c.status.xfrm_gateway_ips));
  };
}

abbrev or_update_error : Option GoError → IpSecConnection → Try IpSecConnection
or_update_error none c = done c
or_update_error (some e) c = fails e

-- XfrmPodSpec.CompleteSetup: the connection whose status it wrote.
unfoldable pub complete_setup :
    Envs → SetupAnswers → XfrmProperties → PodStatus → Try IpSecConnection
unfolding wait_for_address get_pid create_xfrm_job create_job wait_for_job_completion check_vxlan
    set_gateway
complete_setup e a props pod = do
  ready ← wait_for_address 1 a.wait pod
  pid ← get_pid a.pid_reply
  group ← a.group
  job ← create_job a (create_xfrm_job e pid props.interface_id props.owner_connection group)
  finished ← as_wrapped "Creating xfrm interface job failed" (wait_for_job_completion a.poll job)
  vxlan ← check_vxlan a.setup_vxlan
  conn ← as_wrapped "Couldn't get ipsec connection" a.conn
  or_update_error (a.put (set_gateway props.owner_child ready.pod_ip conn))
      (set_gateway props.owner_child ready.pod_ip conn)

abbrev pub without_gateway : String → GoMap String → GoMap String
without_gateway child none = none
without_gateway child (some m) = some (delete child m)

-- XfrmPodSpec.CompleteDeletion: what it writes, whose error it drops.
unfoldable pub complete_deletion : Try IpSecConnection → XfrmProperties → Try IpSecConnection
unfolding delete
complete_deletion conn props = do
  c ← as_wrapped "Couldn't get ipsec connection" conn
  done (record c {
    status = record c.status {
      xfrm_gateway_ips = without_gateway props.owner_child c.status.xfrm_gateway_ips;
    };
  })
