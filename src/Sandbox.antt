-- ===== src/Sandbox.antt =====
-- pkg/micantainer/sandbox.go: a sandbox and its containers.
pub mod Core
pub mod Accounting
pub mod Pinning
pub mod Members
pub mod Lifecycle
pub mod Calls
pub mod Setup
pub mod Rules
pub mod Upkeep
pub mod Outcome
pub mod Runs
pub mod Refinement
