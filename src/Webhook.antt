-- ===== src/Webhook.antt =====
-- The admission webhooks of internal/webhook/v1.
pub mod Verdict
pub mod Creation
pub mod Unique
pub mod Update
pub mod Review
pub mod Patch
pub mod Allocate
