-- ===== src/Mica.antt =====
-- pkg/libmica.
pub mod CpuString
pub mod Buffer
pub mod Command
pub mod Executor
pub mod ClientConf
pub mod Host
pub mod Socket
pub mod Update
pub mod Control
pub mod Status
