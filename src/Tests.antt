-- ===== src/Tests.antt =====
-- Runs of the theorems at concrete inputs.
pub mod Data
pub mod Differ
pub mod Controller
pub mod Swan
pub mod Webhook
pub mod Diffs
pub mod Restctl
pub mod Cluster
pub mod Reconcile
pub mod Agents
pub mod Override
pub mod Routing
