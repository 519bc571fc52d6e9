-- ===== src/Webhook/Verdict.antt =====
-- The verdicts of the functions of internal/webhook/v1/validating_webhook.go that validate a
-- connection: each returns `true, nil` or `false` with an error.
use ipman.Prelude.{String, List, [], ◌∷◌, Bool, true, false}
use ipman.Kube.{Pod}
use ipman.Api.{ℤ}

pub data Reason : Type 0 where
  duplicated_ip : String → Reason
  duplicated_id : ℤ → Reason
  name_exists : String → Reason
  pods_exist : Pod → Reason
  invalid_local_ip : String → Reason
  invalid_remote_ip : String → Reason
  invalid_pool_ip : String → String → Reason
  uses_connection : Pod → Reason
  depend_on_child : List Pod → Reason
  not_changable : Reason
  uses_deleted_ip : Pod → Reason
  uses_local_ip : Pod → Reason
  bad_local_ip : String → Reason
  bad_pod_ip : String → Reason
  bad_old_object bad_new_object : Reason
  cannot_list_pods cannot_list_connections no_group unknown_action : Reason

pub data Verdict : Type 0 where
  allowed : Verdict
  denied : Reason → Verdict

-- The next check, when this one passes.
abbrev pub and_then : Verdict → Verdict → Verdict
and_then allowed v = v
and_then (denied r) v = denied r

-- The first denial of the rounds of a loop.
abbrev pub each {ℓ} : {A : Type ℓ} → (A → Verdict) → List A → Verdict
each f [] = allowed
each f (x ∷ xs) = and_then (f x) (each f xs)

abbrev pub is_allowed : Verdict → Bool
is_allowed allowed = true
is_allowed (denied r) = false
