-- ===== src/Examples.antt =====
-- The theorems at concrete inputs, and tests of the definitions. No code is modelled here.
mod CpuLists
pub mod Limits
pub mod Client
mod Lifecycle
pub mod Sandbox
mod Helper
mod Config
mod Shim
mod Oci
