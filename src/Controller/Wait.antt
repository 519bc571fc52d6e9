-- ===== src/Controller/Wait.antt =====
-- The loops that wait for the cluster: `waitForPodReady` and `DeletePod` of
-- internal/controller/generic.go, and `waitForJobCompletion` of xfrm_pod.go. `get k` is what the
-- API server answers to the get call number k.
pub mod Limits
use ipman.Prelude.{
  ℕ, zero, suc, ◌+◌, String, ◌==◌, Bool, true, false, not, ◌&&◌, ◌||◌, ltb, nat_eq, Option, none,
  some, if◌then◌else◌,
}
use ipman.Errors.{GoError, Try, done, fails, panics, message, is_not_found, ◌>>=◌}

pub record PodStatus : Type 0 where
  pub phase : String
  pub pod_ip : String

-- A failed get leaves the pod as it is.
abbrev pub got : {A : Type 0} → Try A → A → A
got (done p) old = p
got (fails e) old = old
got panics old = old

-- A loop of waitForPodReady: the pod, and the number of the next get call.
unfoldable pub wait_until :
    (PodStatus → Bool) → ℕ → (ℕ → Try PodStatus) → ℕ → ℕ → ℕ → PodStatus → Try (PodStatus × ℕ)
wait_until ready limit get zero k tries pod = fails (message "Timeout waiting for pod")
wait_until ready limit get (suc fuel) k tries pod = elim (ready pod) [
  | true ↦ done (pod, k)
  | false ↦ elim (ltb limit tries) [
    | true ↦ fails (message "Timeout waiting for pod")
    | false ↦ wait_until ready limit get fuel (k + 1) (tries + 1) (got (get k) pod)
  ]
]

abbrev pub is_running : PodStatus → Bool
is_running p = p.phase == "Running"

abbrev pub has_address : PodStatus → Bool
has_address p = not (p.pod_ip == "")

-- The first try counts twice when its error is not that there is no such pod.
unfoldable pub first_tries : Try PodStatus → ℕ
unfolding is_not_found
first_tries (done p) = 1
first_tries (fails e) = if is_not_found e then 1 else 2
first_tries panics = 1

abbrev pub no_status : PodStatus
no_status = record { phase = ""; pod_ip = "" }

-- waitForPodReady, with WaitForPodTimeoutSeconds and IsTest. Each loop makes limit + 1 rounds at
-- most.
unfoldable pub wait_for_pod_ready : ℕ → Bool → (ℕ → Try PodStatus) → Try PodStatus
unfolding wait_until first_tries
wait_for_pod_ready limit is_test get =
    let pod = got (get 0) no_status in
    if is_test then done (record pod { pod_ip = "10.10.10.10" }) else do
      (running, k) ← wait_until is_running limit get (limit + 1) 1 (first_tries (get 0)) pod
      (ready, last) ← wait_until has_address limit get (limit + 1) k 1 running
      done ready

abbrev pub delete_pod_max_retries : ℕ
delete_pod_max_retries = 5

-- The loop of DeletePod, which does not look at the answers: the number of delete calls.
unfoldable pub delete_pod : ℕ → ℕ → ℕ → ℕ × Option GoError
delete_pod zero tries calls = (calls, none)
delete_pod (suc fuel) tries calls = elim (ltb delete_pod_max_retries tries) [
  | true ↦ (calls, some (message "Error deleting pod after 5 tries"))
  | false ↦ delete_pod fuel (tries + 1) (calls + 1)
]

pub record JobStatus : Type 0 where
  pub active : ℕ
  pub succeeded : ℕ
  pub failed : ℕ
  pub is_completed : Bool

abbrev pub max_tries : ℕ
max_tries = 60

abbrev pub is_finished : JobStatus → Bool
is_finished j = nat_eq j.succeeded 1 && j.is_completed

-- The second loop of waitForJobCompletion; the first makes no round, as GET_TRIES is 0.
unfoldable pub job_loop : ℕ → (ℕ → Try JobStatus) → ℕ → JobStatus → Try (JobStatus × ℕ)
job_loop zero get timer job = done (job, timer)
job_loop (suc fuel) get timer job = elim (not (is_finished job) && ltb timer max_tries) [
  | false ↦ done (job, timer)
  | true ↦ elim (get timer) [
    | fails e ↦ fails e
    | panics ↦ panics
    | done next ↦ job_loop fuel get (timer + 1) next
  ]
]

unfoldable pub job_result : JobStatus × ℕ → Try (Unit {0})
job_result (job, timer) =
    if (nat_eq timer max_tries && not (nat_eq job.active 0)) || not (nat_eq job.failed 0)
    then fails (message "Setting up failed")
    else done tt

-- waitForJobCompletion, from the job that was created.
unfoldable pub wait_for_job_completion : (ℕ → Try JobStatus) → JobStatus → Try (Unit {0})
unfolding job_loop job_result
wait_for_job_completion get job = do last ← job_loop max_tries get 0 job; job_result last
