-- ===== src/Container.antt =====
-- pkg/micantainer/container.go: a container and its life.
pub mod State
pub mod Core
pub mod Presence
pub mod Lifecycle
pub mod Update
pub mod Making
pub mod Fit
pub mod Helper
