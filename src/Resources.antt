-- ===== src/Resources.antt =====
-- The resources of the OCI runtime specification that the code reads (specs.LinuxResources), and
-- pkg/micantainer/container_resources.go. A pointer is an `Option`; int64 is ℤ, uint64 and uint32
-- are numbers below the power of two. `cfg` is never nil where its functions are called.
use micrun.Prelude.{
  ℕ, zero, suc, ◌+◌, ◌*◌, ◌/◌, ◌%◌, List, [], ◌∷◌, Bool, true, false, Option, none, some, Bytes,
  ◌==◌, ltb, if◌then◌else◌, ℤ, pos, negsuc, int64, quot, u32, u32_of, u64,
}
pub mod Limits

pub record LinuxCpu : Type 0 where
  pub shares : Option ℕ
  pub quota : Option ℤ
  pub burst : Option ℕ
  pub period : Option ℕ
  pub realtime_runtime : Option ℤ
  pub realtime_period : Option ℕ
  pub cpus : Bytes
  pub mems : Bytes
  pub idle : Option ℤ

pub record LinuxMemory : Type 0 where
  pub limit : Option ℤ
  pub reservation : Option ℤ
  pub swap : Option ℤ
  pub swappiness : Option ℕ
  pub disable_oom_killer : Option Bool

pub record LinuxResources : Type 0 where
  pub cpu : Option LinuxCpu
  pub memory : Option LinuxMemory
  -- the limits of HugepageLimits, in bytes
  pub hugepage_limits : List ℕ

-- &specs.LinuxCPU{} and its kin
abbrev pub no_cpu : LinuxCpu
no_cpu = record {
  shares = none;
  quota = none;
  burst = none;
  period = none;
  realtime_runtime = none;
  realtime_period = none;
  cpus = [];
  mems = [];
  idle = none;
}

abbrev pub no_memory : LinuxMemory
no_memory = record {
  limit = none;
  reservation = none;
  swap = none;
  swappiness = none;
  disable_oom_killer = none;
}

abbrev pub no_resources : LinuxResources
no_resources = record { cpu = none; memory = none; hugepage_limits = [] }

-- The fields of ContainerConfig that decide what the client gets.
pub record ContainerConfig : Type 0 where
  pub id : Bytes
  pub is_infra : Bool
  pub resources : Option LinuxResources
  pub image_abs_path : Bytes
  pub pedestal_conf : Bytes
  pub os : Bytes
  pub vcpu_num : ℕ
  pub pcpu_num : ℕ
  pub max_vcpu_num : ℕ
  pub memory_threshold_mb : ℕ

-- ensureResources, ensureCPU, ensureMemory: what is there, or an empty one.
abbrev pub ensured {ℓ} : {A : Type ℓ} → A → Option A → A
ensured d none = d
ensured d (some a) = a

unfoldable pub ensure_resources : ContainerConfig → LinuxResources
ensure_resources cfg = ensured no_resources cfg.resources

unfoldable pub ensure_cpu : ContainerConfig → LinuxCpu
unfolding ensure_resources
ensure_cpu cfg = ensured no_cpu (ensure_resources cfg).cpu

unfoldable pub ensure_memory : ContainerConfig → LinuxMemory
unfolding ensure_resources
ensure_memory cfg = ensured no_memory (ensure_resources cfg).memory

abbrev pub resources_cpu : Option LinuxResources → Option LinuxCpu
resources_cpu none = none
resources_cpu (some r) = r.cpu

abbrev resources_memory : Option LinuxResources → Option LinuxMemory
resources_memory none = none
resources_memory (some r) = r.memory

-- cpuSpec
unfoldable pub cpu_spec : ContainerConfig → Option LinuxCpu
cpu_spec cfg = resources_cpu cfg.resources

-- memorySpec
unfoldable pub memory_spec : ContainerConfig → Option LinuxMemory
memory_spec cfg = resources_memory cfg.resources

-- (*cpu.Quota * num2CapRatio) / int64(*cpu.Period), where the product wraps and a capacity that is
-- not positive is 0.
abbrev pub positive_u32 : ℤ → ℕ
positive_u32 (pos n) = u32 n
positive_u32 (negsuc n) = 0

abbrev pub capacity_of : Option ℤ → Option ℕ → ℕ
capacity_of (some (pos quota)) (some period) =
    if period == 0
    then 0
    else if quota == 0
    then 0
    else positive_u32 (quot (int64 (quota * 100)) (int64 period))
capacity_of _ _ = 0

abbrev cpu_capacity_of : Option LinuxCpu → ℕ
cpu_capacity_of none = 0
cpu_capacity_of (some cpu) = capacity_of cpu.quota cpu.period

-- cpuCapacity
unfoldable pub cpu_capacity : ContainerConfig → ℕ
unfolding cpu_spec
cpu_capacity cfg = cpu_capacity_of (cpu_spec cfg)

abbrev shares_of : Option LinuxCpu → ℕ
shares_of none = 0
shares_of (some cpu) = ensured 0 cpu.shares

-- cpuShares
unfoldable pub cpu_shares : ContainerConfig → ℕ
unfolding cpu_spec
cpu_shares cfg = shares_of (cpu_spec cfg)

abbrev pub mask_of : Option LinuxCpu → Bytes
mask_of none = []
mask_of (some cpu) = cpu.cpus

-- cpuMask
unfoldable pub cpu_mask : ContainerConfig → Bytes
unfolding cpu_spec
cpu_mask cfg = mask_of (cpu_spec cfg)

-- bytesToMiB
unfoldable pub bytes_to_mib : Option ℤ → ℕ
bytes_to_mib none = 0
bytes_to_mib (some (pos n)) = u32 (n / 1048576)
bytes_to_mib (some (negsuc n)) = 0

-- miBToBytes
unfoldable pub mib_to_bytes : ℕ → ℤ
mib_to_bytes mb = pos (mb * 1048576)

abbrev limit_of : Option LinuxMemory → Option ℤ
limit_of none = none
limit_of (some m) = m.limit

abbrev reservation_of : Option LinuxMemory → Option ℤ
reservation_of none = none
reservation_of (some m) = m.reservation

-- memoryLimitMB, over memoryLimitBytes
unfoldable pub memory_limit_mb : ContainerConfig → ℕ
unfolding memory_spec bytes_to_mib
memory_limit_mb cfg = bytes_to_mib (limit_of (memory_spec cfg))

-- memoryReservationMB, over memoryReservationBytes
unfoldable pub memory_reservation_mb : ContainerConfig → ℕ
unfolding memory_spec bytes_to_mib
memory_reservation_mb cfg = bytes_to_mib (reservation_of (memory_spec cfg))

-- defs.DefaultMinMemMB
abbrev pub default_min_mem_mb : ℕ
default_min_mem_mb = 16

-- containerMaxMemMB
unfoldable pub container_max_mem_mb : ContainerConfig → ℕ
container_max_mem_mb cfg =
    if memory_limit_mb cfg == 0
    then if memory_reservation_mb cfg == 0 then default_min_mem_mb else memory_reservation_mb cfg
    else memory_limit_mb cfg

-- setMemoryReservationMB
unfoldable pub set_memory_reservation_mb : ℕ → ContainerConfig → ContainerConfig
unfolding ensure_memory mib_to_bytes
set_memory_reservation_mb mb cfg =
    let m = ensure_memory cfg in
    let m' = record m { reservation = some (mib_to_bytes mb) } in
    let r = ensure_resources cfg in record cfg { resources = some (record r { memory = some m' }) }
