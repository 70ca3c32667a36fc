-- ===== src/Tests.antt =====
-- Concrete inputs: a cluster and its libraries, and the theorems applied to them.
mod Fixtures
mod Jobs
mod Configs
mod Drains
mod Versions
mod Others
