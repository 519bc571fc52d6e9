-- ===== src/Controller/Wait/Limits.antt =====
-- What the waiting loops give, and that their fuel is enough.
use ipman.Prelude.{ℕ, zero, suc, ◌+◌, ◌≤◌, ◌≡◌, inl, inr, sym, Bool, true, false, arith}
use ipman.Errors.{Try, done, Try-cases}
use ipman.Controller.Wait.{
  PodStatus, got, wait_until, is_running, has_address, first_tries, no_status, wait_for_pod_ready,
}

wait_until-ready :
    (ready : PodStatus → Bool) (limit : ℕ) (get : ℕ → Try PodStatus) (fuel k tries : ℕ)
    (pod p : PodStatus) (n : ℕ)
    → wait_until ready limit get fuel k tries pod ≡ done (p, n)
    → (ready p ≡ true) × (n ≤ k + fuel)
unfolding wait_until
wait_until-ready ready limit get zero k tries pod p n h = cc
wait_until-ready ready limit get (suc fuel) k tries pod p n h =
    ground (arith, wait_until-ready ready limit get fuel (k + 1) (tries + 1) (got (get k) pod) p n)

-- With enough fuel the loop gives up only when it has passed its last try.
wait_until_enough :
    (ready : PodStatus → Bool) (limit : ℕ) (get : ℕ → Try PodStatus) (fuel more k tries : ℕ)
    (pod : PodStatus)
    → 1 ≤ fuel
    → 1 ≤ more
    → limit + 2 ≤ tries + fuel
    → limit + 2 ≤ tries + more
    → wait_until ready limit get fuel k tries pod ≡ wait_until ready limit get more k tries pod
unfolding wait_until
wait_until_enough ready limit get zero more k tries pod f m h g = absurd (omega arith)
wait_until_enough ready limit get (suc fuel) zero k tries pod f m h g = absurd (omega arith)
wait_until_enough ready limit get (suc fuel) (suc more) k tries pod f m h g =
    ground
      (arith, wait_until_enough ready limit get fuel more (k + 1) (tries + 1) (got (get k) pod))

-- When waitForPodReady returns no error, and does not run in a test, the pod has an address.
pub wait_for_pod_ready-has_address :
    (limit : ℕ) (get : ℕ → Try PodStatus) (p : PodStatus)
    → wait_for_pod_ready limit false get ≡ done p
    → has_address p ≡ true
unfolding wait_for_pod_ready
wait_for_pod_ready-has_address limit get p h =
    elim (Try-cases (
      wait_until is_running limit get (limit + 1) 1 (first_tries (get 0))
        (got (get 0) no_status))) [
          | inl ((running, k), e) ↦
              elim (Try-cases (wait_until has_address limit get (limit + 1) k 1 running)) [
                | inl ((ready, n), g) ↦
                    let same : ready ≡ p = cc (rw (wait_for_pod_ready, e, g) at h) in
                    rw (sym same)
                      (wait_until-ready has_address limit get (limit + 1) k 1 running ready n g).0
                | inr (inl (err, g)) ↦ absurd (cc (rw (wait_for_pod_ready, e, g) at h))
                | inr (inr g) ↦ absurd (cc (rw (wait_for_pod_ready, e, g) at h))
              ]
          | inr (inl (err, e)) ↦ absurd (cc (rw (wait_for_pod_ready, e) at h))
          | inr (inr e) ↦ absurd (cc (rw (wait_for_pod_ready, e) at h))
        ]
