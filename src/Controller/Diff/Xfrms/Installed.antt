-- ===== src/Controller/Diff/Xfrms/Installed.antt =====
-- What a pod that `createXfrmPod` creates is told.
use ipman.Prelude.{Option, some, String, ◌≡◌, [], ◌∷◌, Map}
use ipman.Controller.State.{XfrmPod, Routes}
use ipman.Controller.Effect.{XfrmRoutes}
use ipman.Errors.{Try, done, fails, message}
use ipman.Controller.Diff.Routes.Converge.{Holds}

-- What becomes of the actions for a pod with these forwarding entries.
unfoldable pub IsCreated : XfrmPod → Map String → Try (Option XfrmRoutes) → Type 0
IsCreated x [] r =
    (s : XfrmRoutes) × (r ≡ done (some s))
    × Holds x.spec.routes s.recorded
    × Holds x.spec.routes s.installed
IsCreated x (e ∷ m) r = r ≡ fails (message "Couldn't send post")
