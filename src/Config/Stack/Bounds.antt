-- ===== src/Config/Stack/Bounds.antt =====
-- pkg/oci/runtime_setup.go: the numbers of the runtime's configuration and their bounds.
use micrun.Prelude.{ℕ, ◌≤◌, ◌≡◌, ◌⊎◌, max}
use micrun.Config.Runtime.{RuntimeConfig, max_uint32, mem_low_threshold}

-- The bounds of the numbers, of which the memory that is reserved is the default or in the range.
pub record IsBounded (high : ℕ) (r : RuntimeConfig) : Type 0 where
  pub some_vcpu : 1 ≤ r.max_container_vcpus
  pub vcpus_fit : r.max_container_vcpus ≤ max_uint32
  pub max_memory : r.max_container_mem_mb ≤ high
  pub min_memory :
      (r.min_container_mem_mb ≡ 32)
      ⊎ ((mem_low_threshold ≤ r.min_container_mem_mb)
          × (r.min_container_mem_mb ≤ max mem_low_threshold high))
  pub mini_vcpus_fit : r.mini_vcpu_num ≤ max_uint32
