-- ===== src/Controller.antt =====
-- The reconciler of internal/controller: the states it compares and how it compares them.
pub mod State
pub mod CorePod
pub mod Create
pub mod Workers
pub mod Desired
pub mod Observed
pub mod Status
pub mod Reconcile
pub mod Wait
pub mod Setup
pub mod Override
pub mod Routing
pub mod Action
pub mod Effect
pub mod Diff
pub mod FreeIps
