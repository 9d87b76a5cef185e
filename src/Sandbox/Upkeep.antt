-- ===== src/Sandbox/Upkeep.antt =====
-- pkg/micantainer/sandbox.go: validity of a sandbox across its operations.
pub mod Accounts
pub mod Affinity
pub mod Requests
pub mod Deletion
pub mod Awaiting
pub mod Addition
pub mod Creation
pub mod Whole
pub mod Life
pub mod Status
pub mod Leftover
