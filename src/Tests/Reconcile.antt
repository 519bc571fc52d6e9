-- ===== src/Tests/Reconcile.antt =====
-- The theorems on rounds of the reconciler at concrete inputs.
use ipman.Prelude.{ℕ, suc, ◌≡◌, ◌↔◌, true, [], Option, none, some, is_some, nat_eq, if◌then◌else◌}
use ipman.Api.{pos}
use ipman.Errors.{GoError, Try, done, fails, api, conflict, not_found}
use ipman.Controller.Action.{Action}
use ipman.Controller.CorePod.{CorePod}
use ipman.Controller.FreeIps.{second}
use ipman.Controller.Observed.{Answers}
use ipman.Controller.Status.{StatusResult, ends, conflicts, update_with_retries, last_error}
use ipman.Controller.Status.Retries.{has_error, last_error-update_with_retries}

-- The second call of UpdateStatus succeeds.
abbrev second_succeeds : ℕ → StatusResult
second_succeeds k =
    if nat_eq k 1 then ends (some (pos second)) none else ends none (some (api conflict))

last_error-update_with_retries_example :
    (is_some (last_error (update_with_retries second_succeeds)) ≡ true) ↔ (
      (conflicts (second_succeeds 0) ≡ true)
      × (conflicts (second_succeeds 1) ≡ true)
      × (conflicts (second_succeeds 2) ≡ true)
      × (conflicts (second_succeeds 3) ≡ true)
      × (conflicts (second_succeeds 4) ≡ true)
      × (has_error (second_succeeds 5) ≡ true))
last_error-update_with_retries_example = last_error-update_with_retries second_succeeds

-- An empty cluster.
abbrev answers : Answers
answers = record {
  groups = done [];
  conns = done [];
  pods = done [];
  charons = done [];
  restctls = done [];
  xfrms = done [];
  pod_monitor = fails (api not_found);
}

-- Counts the actions.
abbrev count : Action → ℕ → ℕ × Option GoError
count a n = (suc n, none)

abbrev no_pod : Try CorePod
no_pod = fails (api not_found)
