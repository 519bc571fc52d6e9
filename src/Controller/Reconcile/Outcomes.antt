-- ===== src/Controller/Reconcile/Outcomes.antt =====
-- What a round of the reconciler has done when it returns.
use ipman.Prelude.{
  ◌*◌, String, ◌≡◌, true, false, get_or, List, [], ◌∷◌, Option, some, Slice, GoMap, ◌⊎◌,
}
use ipman.Errors.{GoError, Try, done}
use ipman.Api.{ℤ, pos, IpSecConnection}
use ipman.Controller.State.{XfrmPodSpec}
use ipman.Controller.Action.{Action}
use ipman.Controller.CorePod.{CorePod}
use ipman.Controller.Create.{Envs}
use ipman.Controller.Observed.{Answers}
use ipman.Controller.FreeIps.{second, int_lt}
use ipman.Controller.Diff.Routes.{Change}
use ipman.Controller.Diff.Proxy.{Tracked}
use ipman.Controller.Diff.States.{DeepEqual}
use ipman.Controller.Reconcile.{minute, plan}

module _ {W : Type 0} (perform : Action → W → W × Option GoError) where
  -- Every action, one after the other.
  abbrev pub carry_out : List Action → W → W
  carry_out [] w = w
  carry_out (a ∷ rest) w = carry_out rest (perform a w).0

-- What the delay is: without a name that restctl has not loaded the status's delay, or a minute;
-- with one three seconds, or the status's delay if that is less.
abbrev pub Asks : Option ℤ → List String → ℤ → Type 0
Asks rq [] again = again ≡ get_or (pos minute) rq
Asks rq (x ∷ names) again =
    ((d : ℤ) × (rq ≡ some d) × (again ≡ d) × (int_lt (pos (second * 3)) d ≡ false))
    ⊎ ((again ≡ pos (second * 3)) × ((d : ℤ) → rq ≡ some d → int_lt (pos (second * 3)) d ≡ true))

module _ (e : Envs) (unmarshal : String → XfrmPodSpec) (deep_equal : DeepEqual)
    (diff_slices : Slice String → Slice String → List Change)
    (diff_maps : GoMap String → GoMap String → List Change)
    (configs : String → Option (List String)) {W : Type 0}
    (perform : Action → W → W × Option GoError) where
  -- A round that compared the states, and carried out all of the difference.
  pub record IsDone (rq : Option ℤ) (a : Answers) (listed : Try (List IpSecConnection))
      (st st2 : Tracked) (w w2 : W) (again : ℤ) : Type 0 where
    pub acts : List Action
    pub planned :
        plan e unmarshal deep_equal diff_slices diff_maps configs a listed st ≡ done (acts, st2)
    pub carried : w2 ≡ carry_out perform acts w
    pub asks : Asks rq st2.not_loaded_conns again
