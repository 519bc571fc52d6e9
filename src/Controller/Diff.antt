-- ===== src/Controller/Diff.antt =====
-- The comparison of desired and current state in internal/controller/ipman_controller.go.
pub mod Pods
pub mod Routes
pub mod Xfrms
pub mod IpSecs
pub mod Proxy
pub mod States
