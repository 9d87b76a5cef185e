-- ===== src/Oci/Defaults.antt =====
-- pkg/oci/oci_configs.go: the defaults that the runtime's configuration gives a container, and the threshold
-- of its memory. Numbers are of 32 bits, and a product wraps.
use micrun.Prelude.{
  ℕ, ◌+◌, ◌-◌, ◌*◌, List, Bool, true, false, ◌&&◌, not, Option, none, some, Bytes, codes, ◌++◌, ltb,
  ◌==◌, if◌then◌else◌, u32,
}
use micrun.Keyed.{lookup}
use micrun.Resources.{
  ContainerConfig, memory_limit_mb, memory_reservation_mb, set_memory_reservation_mb,
  default_min_mem_mb,
}
use micrun.Container.Presence.{is_nil}
use micrun.Pedestal.Essential.{PedType}
use micrun.Config.Runtime.{
  RuntimeConfig, new_runtime_config, parse_uint32, max_uint32, default_max_container_vcpus,
}
pub mod Bounds

-- defs.ContainerMaxVcpuNum
abbrev pub container_max_vcpu_num : Bytes
container_max_vcpu_num = codes "org.openeuler.micrun.container.max_vcpu_num"

-- What the runtime's configuration allows, or the default.
abbrev pub configured_vcpus : RuntimeConfig → ℕ
configured_vcpus rc =
    if rc.max_container_vcpus == 0 then default_max_container_vcpus else rc.max_container_vcpus

abbrev pub vcpus_parsed : RuntimeConfig → ℕ × Bool → ℕ
vcpus_parsed rc (n, fine) = if fine && not (n == 0) then n else configured_vcpus rc

abbrev pub vcpus_of : RuntimeConfig → Option Bytes → ℕ
vcpus_of rc none = configured_vcpus rc
vcpus_of rc (some value) =
    if is_nil value then configured_vcpus rc else vcpus_parsed rc (parse_uint32 value)

-- resolveMaxVcpu
unfoldable pub resolve_max_vcpu : List (Bytes × Bytes) → RuntimeConfig → ℕ
unfolding lookup parse_uint32
resolve_max_vcpu annotations rc = vcpus_of rc (lookup container_max_vcpu_num annotations)

abbrev pub or_else : ℕ → ℕ → ℕ
or_else a b = if a == 0 then b else a

-- calculateClientMemThreshold
unfoldable pub calculate_client_mem_threshold : ContainerConfig → RuntimeConfig → ℕ
unfolding memory_limit_mb memory_reservation_mb
calculate_client_mem_threshold cfg rc =
    let max_mem =
      or_else (memory_limit_mb cfg) (
        or_else (memory_reservation_mb cfg) (or_else rc.min_container_mem_mb default_min_mem_mb)) in
    if ltb 2147483647 max_mem
    then max_uint32 - 1
    else or_else (u32 (max_mem * 2)) (default_min_mem_mb * 2)

-- The reservation that a container without one gets.
abbrev pub reserve : RuntimeConfig → ContainerConfig → ContainerConfig
reserve rc cfg =
    if memory_reservation_mb cfg == 0
    then set_memory_reservation_mb (or_else rc.min_container_mem_mb default_min_mem_mb) cfg
    else cfg

-- A reservation above the limit is cut to it.
abbrev pub cut : ContainerConfig → ContainerConfig
cut cfg =
    if memory_limit_mb cfg == 0
    then cfg
    else if ltb (memory_limit_mb cfg) (memory_reservation_mb cfg)
    then set_memory_reservation_mb (memory_limit_mb cfg) cfg
    else cfg

abbrev pub with_limits : List (Bytes × Bytes) → RuntimeConfig → ContainerConfig → ContainerConfig
with_limits annotations rc cfg = record cfg {
  max_vcpu_num = resolve_max_vcpu annotations rc;
  memory_threshold_mb = calculate_client_mem_threshold cfg rc;
}

-- The configuration that is given, or a new one.
abbrev pub configured : PedType → Option RuntimeConfig → RuntimeConfig
configured ped none = new_runtime_config ped
configured ped (some rc) = rc

-- applyContainerRuntimeDefaults
unfoldable pub apply_container_runtime_defaults :
    PedType → List (Bytes × Bytes) → Option RuntimeConfig → ContainerConfig → ContainerConfig
unfolding memory_limit_mb memory_reservation_mb set_memory_reservation_mb resolve_max_vcpu
    calculate_client_mem_threshold new_runtime_config
apply_container_runtime_defaults ped annotations rc cfg =
    let rc' = configured ped rc in with_limits annotations rc' (cut (reserve rc' cfg))
