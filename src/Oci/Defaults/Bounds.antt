-- ===== src/Oci/Defaults/Bounds.antt =====
-- pkg/oci/oci_configs.go: the limits that a container ends up with.
use micrun.Prelude.{
  ◌∙◌, ℕ, ◌*◌, ◌<◌, ◌≤◌, List, Option, none, some, Bytes, ltb, ◌==◌, ◌≡◌, refl, ◌↔◌, ◌⊎◌, inl, inr,
  arith, Bool-cases,
}
use micrun.Keyed.{lookup}
use micrun.Resources.{
  ContainerConfig, memory_limit_mb, memory_reservation_mb, bytes_to_mib, default_min_mem_mb,
}
use micrun.Resources.Limits.{memory_reservation_mb-set}
use micrun.Pedestal.Essential.{PedType}
use micrun.Config.Runtime.{RuntimeConfig}
use micrun.Oci.Defaults.{
  apply_container_runtime_defaults, resolve_max_vcpu, calculate_client_mem_threshold, reserve, cut,
  with_limits, container_max_vcpu_num, vcpus_of, configured, or_else,
}

-- What the limits of a container have to be: the limit is the one that was asked for.
pub record Limits (asked : ℕ) (c : ContainerConfig) : Type 0 where
  pub vcpus : 0 < c.max_vcpu_num
  pub kept : memory_limit_mb c ≡ asked
  pub reserved : 0 < memory_reservation_mb c
  pub below : (asked ≡ 0) ⊎ (memory_reservation_mb c ≤ asked)
  pub covered : (c.memory_threshold_mb < asked) ↔ (asked ≡ 4294967295)
  pub doubled : 0 < asked → asked ≤ 2147483647 → c.memory_threshold_mb ≡ 2 * asked
  pub fits : c.memory_threshold_mb ≤ 4294967295

memory_limit_mb-lt : (cfg : ContainerConfig) → memory_limit_mb cfg < 4294967296
unfolding memory_limit_mb bytes_to_mib
memory_limit_mb-lt cfg = ground arith

vcpus_of_pos : (rc : RuntimeConfig) (o : Option Bytes) → 0 < vcpus_of rc o
vcpus_of_pos rc none = ground arith
vcpus_of_pos rc (some value) = ground arith

-- The threshold, by the limit and the reservation.
threshold_lem :
    (cfg : ContainerConfig) (rc : RuntimeConfig)
    → 0 < memory_reservation_mb cfg
    → memory_reservation_mb cfg < 4294967296
    → (calculate_client_mem_threshold cfg rc ≤ 4294967295)
      × ((calculate_client_mem_threshold cfg rc < memory_limit_mb cfg)
          ↔ (memory_limit_mb cfg ≡ 4294967295))
      × (0 < memory_limit_mb cfg
          → memory_limit_mb cfg ≤ 2147483647
          → calculate_client_mem_threshold cfg rc ≡ 2 * memory_limit_mb cfg)
unfolding calculate_client_mem_threshold
threshold_lem cfg rc pos small = let fits = memory_limit_mb-lt cfg in ground arith

reserve_lem :
    (rc : RuntimeConfig) (cfg : ContainerConfig)
    → rc.min_container_mem_mb < 4294967296
    → (0 < memory_reservation_mb (reserve rc cfg))
      × (memory_limit_mb (reserve rc cfg) ≡ memory_limit_mb cfg)
reserve_lem rc cfg small =
    let mb = or_else rc.min_container_mem_mb default_min_mem_mb in
    let set = memory_reservation_mb-set mb cfg (ground arith) in
    elim (Bool-cases (memory_reservation_mb cfg == 0)) [
      | inl none_yet ↦ rw none_yet (rw set.0 (ground arith), set.1)
      | inr there ↦ rw there (ground arith, refl)
    ]

cut_lem :
    (cfg : ContainerConfig)
    → 0 < memory_reservation_mb cfg
    → (0 < memory_reservation_mb (cut cfg))
      × (memory_limit_mb (cut cfg) ≡ memory_limit_mb cfg)
      × ((memory_limit_mb cfg ≡ 0) ⊎ (memory_reservation_mb (cut cfg) ≤ memory_limit_mb cfg))
cut_lem cfg pos =
    let limit = memory_limit_mb cfg in
    let set = memory_reservation_mb-set limit cfg (memory_limit_mb-lt cfg) in
    elim (Bool-cases (limit == 0)) [
      | inl unlimited ↦ rw unlimited (pos, refl, inl (ground arith))
      | inr limited ↦ elim (Bool-cases (ltb limit (memory_reservation_mb cfg))) [
        | inl above ↦
            rw (limited, above) (rw set.0 (ground arith), set.1, inr (rw set.0 (ground arith)))
        | inr below ↦ rw (limited, below) (pos, refl, inr (ground arith))
      ]
    ]

memory_reservation_mb-lt : (cfg : ContainerConfig) → memory_reservation_mb cfg < 4294967296
unfolding memory_reservation_mb bytes_to_mib
memory_reservation_mb-lt cfg = ground arith

-- The limits do not depend on the fields that are set last.
with_limits-same :
    (annotations : List (Bytes × Bytes)) (rc : RuntimeConfig) (cfg : ContainerConfig)
    → (memory_limit_mb (with_limits annotations rc cfg) ≡ memory_limit_mb cfg)
      × (memory_reservation_mb (with_limits annotations rc cfg) ≡ memory_reservation_mb cfg)
unfolding memory_limit_mb memory_reservation_mb
with_limits-same annotations rc cfg = (refl, refl)

Limits-of :
    (annotations : List (Bytes × Bytes)) (rc : RuntimeConfig) (cfg : ContainerConfig)
    → rc.min_container_mem_mb < 4294967296
    → Limits (memory_limit_mb cfg) (with_limits annotations rc (cut (reserve rc cfg)))
unfolding resolve_max_vcpu
Limits-of annotations rc cfg small =
    let r = reserve rc cfg in
    let first = reserve_lem rc cfg small in
    let second = cut_lem r first.0 in
    let asked : memory_limit_mb (cut r) ≡ memory_limit_mb cfg = second.1 ∙ first.1 in
    let same = with_limits-same annotations rc (cut r) in
    let t = threshold_lem (cut r) rc second.0 (memory_reservation_mb-lt (cut r)) in
    record {
      vcpus = vcpus_of_pos rc (lookup container_max_vcpu_num annotations);
      kept = same.0 ∙ asked;
      reserved = rw same.1 second.0;
      below = rw (same.1, ← first.1) second.2;
      covered = rw (← asked) t.1;
      doubled = rw (← asked) t.2;
      fits = t.0;
    }

-- If the memory that the runtime's configuration reserves fits in 32 bits: applyContainerRuntimeDefaults
-- leaves the memory limit, allows at least one virtual CPU and reserves memory, not more than a limit
-- that is not 0. The threshold fits in 32 bits, is twice a limit between 1 and 2147483647, and is below
-- the limit exactly for a limit of 4294967295.
pub apply_container_runtime_defaults-Limits :
    (ped : PedType) (annotations : List (Bytes × Bytes)) (rc : Option RuntimeConfig)
    (cfg : ContainerConfig)
    → (configured ped rc).min_container_mem_mb < 4294967296
    → Limits (memory_limit_mb cfg) (apply_container_runtime_defaults ped annotations rc cfg)
unfolding apply_container_runtime_defaults
apply_container_runtime_defaults-Limits ped annotations rc cfg small =
    Limits-of annotations (configured ped rc) cfg small
