-- ===== src/Shim.antt =====
-- pkg/shim: the task service of containerd for the sandbox and its containers.
pub mod Core
pub mod Start
pub mod Ending
pub mod Deletion
pub mod Watching
pub mod Requests
pub mod Events
pub mod Rules
pub mod Tidy
pub mod Keeping
pub mod Configuration
pub mod Creation
pub mod Runs
pub mod Outcome
