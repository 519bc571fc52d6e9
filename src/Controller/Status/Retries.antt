-- ===== src/Controller/Status/Retries.antt =====
-- How often Reconcile calls UpdateStatus, and when it gives up.
use ipman.Prelude.{ℕ, zero, suc, ◌+◌, ◌≤◌, ◌≡◌, refl, Bool, true, is_some, ◌↔◌, arith}
use ipman.Controller.Status.{StatusResult, conflicts, retry, update_with_retries, last_error}

-- With any two amounts of fuel that reach the sixth call the loop gives the same.
retry_enough :
    (fuel more : ℕ) (attempt : ℕ → StatusResult) (ctr : ℕ) (r : StatusResult)
    → 6 ≤ ctr + fuel
    → 6 ≤ ctr + more
    → retry fuel attempt ctr r ≡ retry more attempt ctr r
unfolding retry
retry_enough zero zero attempt ctr r h k = refl
retry_enough zero (suc more) attempt ctr r h k = ground arith
retry_enough (suc fuel) zero attempt ctr r h k = ground arith
retry_enough (suc fuel) (suc more) attempt ctr r h k =
    ground (arith, retry_enough fuel more attempt (ctr + 1) (attempt ctr))

-- Reconcile calls UpdateStatus six times at most.
retry-le :
    (fuel : ℕ) (attempt : ℕ → StatusResult) (ctr : ℕ) (r : StatusResult)
    → ctr ≤ 6
    → (retry fuel attempt ctr r).1 ≤ 6
unfolding retry
retry-le zero attempt ctr r h = h
retry-le (suc fuel) attempt ctr r h = ground (arith, retry-le fuel attempt (ctr + 1) (attempt ctr))

abbrev pub has_error : StatusResult → Bool
has_error r = is_some r.error

-- Reconcile gives up on the status exactly if the first five calls of UpdateStatus conflict and
-- the sixth returns an error of any kind.
pub last_error-update_with_retries :
    (attempt : ℕ → StatusResult)
    → (is_some (last_error (update_with_retries attempt)) ≡ true) ↔ (
        (conflicts (attempt 0) ≡ true)
        × (conflicts (attempt 1) ≡ true)
        × (conflicts (attempt 2) ≡ true)
        × (conflicts (attempt 3) ≡ true)
        × (conflicts (attempt 4) ≡ true)
        × (has_error (attempt 5) ≡ true))
unfolding update_with_retries last_error retry
last_error-update_with_retries attempt = ground arith
