-- ===== src/Restctl.antt =====
-- The parts of cmd/restctl/main.go beside the listings of swanctl, which are in Swan.
pub mod Downgrade
pub mod Time
pub mod Translate
pub mod Reload
