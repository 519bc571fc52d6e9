-- ===== src/Restctl/Reload/Clients.antt =====
-- The loop of reloadConfig that makes a client of the daemon.
use ipman.Prelude.{
  ℕ, zero, suc, ◌+◌, ◌<◌, ◌≤◌, sym, ap, ◌∙◌, ◌≡◌, ◌⊎◌, Bool, true, false, arith, Bool-cases, inl,
  inr, refl,
}
use ipman.Restctl.Reload.{made, runs_on, make_client}

-- From round k on, with the counter at its start, the loop ends within a number of rounds with the
-- client of the first of them that makes one, or runs on when none of them does; so it never ends
-- at the test of its counter, however many rounds fail.
pub make_client_first :
    (fuel : ℕ) (attempt : ℕ → Bool) (k : ℕ)
    → ((n : ℕ) × (make_client fuel attempt 0 k ≡ made n)
        × (k ≤ n)
        × (n < k + fuel)
        × (attempt n ≡ true)
        × ((j : ℕ) → k ≤ j → j < n → attempt j ≡ false))
      ⊎ ((make_client fuel attempt 0 k ≡ runs_on)
          × ((j : ℕ) → k ≤ j → j < k + fuel → attempt j ≡ false))
unfolding make_client
make_client_first zero attempt k = inr (refl, λ j l u. absurd (omega arith))
make_client_first (suc fuel) attempt k = elim (Bool-cases (attempt k)) [
  | inl e ↦ inl (k, rw e refl, omega arith, omega arith, e, λ j l u. absurd (omega arith))
  | inr e ↦ elim (make_client_first fuel attempt (k + 1)) [
    | inl (n, r, l, u, a, before) ↦ inl (
      n,
      rw e r,
      omega arith,
      omega arith,
      a,
      λ j lj uj. here_or_later j e (λ m. before j m uj) lj,
    )
    | inr (r, before) ↦
        inr (rw e r, λ j lj uj. here_or_later j e (λ m. before j m (omega arith)) lj)
  ]
]
  where
    same_or_above : (j : ℕ) → k ≤ j → (k ≡ j) ⊎ (k + 1 ≤ j)
    same_or_above j l = ground arith

    here_or_later :
        (j : ℕ) → attempt k ≡ false → (k + 1 ≤ j → attempt j ≡ false) → k ≤ j → attempt j ≡ false
    here_or_later j e later l = elim (same_or_above j l) [
      | inl same ↦ ap attempt (sym same) ∙ e
      | inr m ↦ later m
    ]
