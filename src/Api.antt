-- ===== src/Api.antt =====
-- api/v1beta1 and the Kubernetes objects that the controllers read and write. Each child holds the
-- types of one kind; a field that no modelled code looks at is left out.
pub mod Time
pub mod Meta
pub mod Upstream
pub mod Job
pub mod Hook
pub mod Window
pub mod Config
pub mod Drain
pub mod Managed
pub mod Duration
