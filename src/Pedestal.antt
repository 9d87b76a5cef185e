-- ===== src/Pedestal.antt =====
-- pkg/pedestal.
pub mod CpuArray
pub mod Weight
pub mod Essential
pub mod Planner
pub mod Xl
