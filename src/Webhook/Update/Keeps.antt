-- ===== src/Webhook/Update/Keeps.antt =====
-- An accepted update keeps the addresses that pods use.
use ipman.Prelude.{String, List, [], none, some, Map, lookup, get_or}
use ipman.Kube.{Pod}
use ipman.Webhook.Verdict.{Verdict, uses_deleted_ip, allowed, denied}
use ipman.Webhook.Update.{violating_pod}

-- The pods that depend on a child.
abbrev dependent : Map (List Pod) → String → List Pod
dependent m cn = get_or [] (lookup cn m)

-- The verdict on one list of pods in the loop of the pool check.
abbrev no_violation : List String → List Pod → Verdict
no_violation ips pods = elim (violating_pod ips pods) [
  | none ↦ allowed
  | some p ↦ denied (uses_deleted_ip p)
]
