-- ===== src/UpgradeJob.antt =====
-- controllers/upgradejob_controller.go, a child for each of its parts.
pub mod Env
pub mod Status
pub mod Lock
pub mod Environment
pub mod HookJob
pub mod Hooks
pub mod Track
pub mod Pools
pub mod Failure
pub mod Started
pub mod Reconcile
pub mod Safety
pub mod Consistent
pub mod Health
pub mod Window
pub mod Requeue
