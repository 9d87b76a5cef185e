-- ===== src/Resources/Limits.antt =====
-- pkg/micantainer/container_resources.go: what the accessors return, and ValidateResourceLimits.
use micrun.Prelude.{
  ℕ, ◌*◌, ◌/◌, ◌≤◌, ◌<◌, ◌≡◌, ◌∙◌, false, Option, none, some, arith, ◌==◌, ltb, if◌then◌else◌, pos,
  u32, int64,
}
use native.Mathlib.Nat.{mul-div_cancel}
use micrun.Resources.{
  ContainerConfig, LinuxCpu, cpu_capacity, cpu_spec, capacity_of, memory_limit_mb,
  memory_reservation_mb, container_max_mem_mb, set_memory_reservation_mb,
}

-- The two texts of the errors.
pub data LimitError : Type 0 where
  cpu_exceeds memory_exceeds : LimitError

-- ValidateResourceLimits. `system_cpus` is libmica.MaxClientCPUNum(), `total_mb` the total of
-- pedestal.HostMemoryMiB(), 0 where it is not known.
unfoldable pub validate_resource_limits : ℕ → ℕ → ContainerConfig → Option LimitError
validate_resource_limits system_cpus total_mb cfg =
    let host = if total_mb == 0 then 2048 else total_mb in
    let limit = memory_limit_mb cfg in
    let memory =
      if ltb 0 limit then if ltb host limit then some memory_exceeds else none else none in
    if cfg.is_infra
    then none
    else if ltb 0 (cpu_capacity cfg)
    then if ltb system_cpus (cpu_capacity cfg) then some cpu_exceeds else memory
    else memory

int64_small : (n : ℕ) → n < 9223372036854775808 → int64 n ≡ pos n
int64_small n h = ground arith

-- The capacity is the quota in percent of the period, where the product fits an int64.
pub capacity_of_exact :
    (quota period : ℕ)
    → 0 < period
    → quota * 100 < 9223372036854775808
    → period < 9223372036854775808
    → capacity_of (some (pos quota)) (some period) ≡ u32 (quota * 100 / period)
capacity_of_exact quota period h fits fits' =
    rw (int64_small (quota * 100) fits, int64_small period fits') (ground arith)

-- SetMemoryReservationMB is read back, and the limit stays.
pub memory_reservation_mb-set :
    (mb : ℕ) (cfg : ContainerConfig)
    → mb < 4294967296
    → (memory_reservation_mb (set_memory_reservation_mb mb cfg) ≡ mb)
      × (memory_limit_mb (set_memory_reservation_mb mb cfg) ≡ memory_limit_mb cfg)
unfolding memory_reservation_mb memory_limit_mb set_memory_reservation_mb
memory_reservation_mb-set mb cfg h = ground arith

-- The memory that a client is created with is never 0.
pub container_max_mem_mb_pos : (cfg : ContainerConfig) → 0 < container_max_mem_mb cfg
unfolding container_max_mem_mb
container_max_mem_mb_pos cfg = ground arith

capacity_of_cpus :
    (k period : ℕ)
    → 0 < period
    → k < 1000
    → k * period * 100 < 9223372036854775808
    → period < 9223372036854775808
    → capacity_of (some (pos (k * period))) (some period) ≡ 100 * k
capacity_of_cpus k period h small fits fits' =
    capacity_of_exact (k * period) period h fits fits'
    ∙ (let e : k * period * 100 ≡ 100 * k * period = grind arith in
        rw e (rw (mul-div_cancel (100 * k) h) (omega arith)))

cpu_capacity_lem :
    (cfg : ContainerConfig) {cpu : LinuxCpu}
    → cpu_spec cfg ≡ some cpu
    → cpu_capacity cfg ≡ capacity_of cpu.quota cpu.period
unfolding cpu_capacity
cpu_capacity_lem cfg e = rw e

-- A container that asks for `k` whole CPUs passes only where the host has 100 * k of them, since
-- the test compares percents with a number of CPUs.
pub validate_whole_cpus :
    (system_cpus total_mb k period : ℕ) (cfg : ContainerConfig) (cpu : LinuxCpu)
    → cfg.is_infra ≡ false
    → cpu_spec cfg ≡ some cpu
    → cpu.quota ≡ some (pos (k * period))
    → cpu.period ≡ some period
    → 0 < period
    → k < 1000
    → k * period * 100 < 9223372036854775808
    → period < 9223372036854775808
    → validate_resource_limits system_cpus total_mb cfg ≡ none
    → 100 * k ≤ system_cpus
unfolding validate_resource_limits
validate_whole_cpus n total k period cfg cpu infra spec q p h small fits fits' ok =
    let e : cpu_capacity cfg ≡ 100 * k =
      cpu_capacity_lem cfg spec ∙ (rw (q, p) (capacity_of_cpus k period h small fits fits')) in
    ground arith
