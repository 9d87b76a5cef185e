-- ===== src/OciResources.antt =====
-- pkg/micantainer/container_resources.go: ParseOCIResources, and CpusetRangeValid of
-- pkg/micantainer/utils.go. `physical` is pedestal.HostCPUCounts().Physical.
use micrun.Prelude.{
  ℕ, ◌<◌, List, [], ◌∷◌, ◌≡◌, refl, ◌∙◌, ap, subst, ◌≤◌, Bool, true, false, not, Option, none, some,
  Bytes, arith, All, elem, ltb, leb, ◌==◌, if◌then◌else◌, length, u32, Bool-cases, inl, inr,
}
use micrun.Text.{max_int}
use micrun.Sorting.{sort_ints, sort_ints-All}
use micrun.Cpuset.Ranges.{Fits}
use micrun.Resources.{
  ContainerConfig, LinuxCpu, LinuxMemory, LinuxResources, ensured, no_resources, ensure_resources,
}
use micrun.Pedestal.Essential.{EssentialResource, PedType}
use micrun.Pedestal.Planner.{plan_essential_resources, is_empty_text}
use micrun.Pedestal.CpuArray.{parse_cpu_arr}
use micrun.Mica.CpuString.{parse_cpu_string}
use micrun.Mica.CpuString.RoundTrip.{parse_cpu_string-parse_cpu_arr}
pub mod Clip

-- A loop that keeps the numbers that pass a test, in their order.
unfoldable pub filter_cpus : (ℕ → Bool) → List ℕ → List ℕ
filter_cpus p [] = []
filter_cpus p (c ∷ cs) = let rest = filter_cpus p cs in if p c then c ∷ rest else rest

-- The CPUs that CpusetRangeValid finds out of range; it answers true if there are none.
unfoldable pub out_of_range : ℕ → List ℕ → List ℕ
unfolding filter_cpus
out_of_range physical cpus = filter_cpus (λ c. leb physical c) cpus

-- What is left of a cpuset, and the number of virtual CPUs for it.
abbrev pub clip_list : Bytes → ℕ → List ℕ → List ℕ → Bytes × ℕ
clip_list cpus vcpu_num list [] = (cpus, vcpu_num)
clip_list cpus vcpu_num list (bad ∷ bads) =
    elim (filter_cpus (λ c. not (elem c (bad ∷ bads))) list) [
      | [] ↦ ([], 1)
      | v ∷ vs ↦ (parse_cpu_arr (v ∷ vs), u32 (length (v ∷ vs)))
    ]

abbrev pub clip_parsed : ℕ → Bytes → ℕ → Option (List ℕ) → Bytes × ℕ
clip_parsed physical cpus vcpu_num none = (cpus, vcpu_num)
clip_parsed physical cpus vcpu_num (some list) =
    clip_list cpus vcpu_num list (out_of_range physical list)

-- The part of ParseOCIResources that drops the CPUs that the host does not have.
unfoldable pub clip : ℕ → Bytes → ℕ → Bytes × ℕ
unfolding out_of_range filter_cpus
clip physical [] vcpu_num = ([], vcpu_num)
clip physical (c ∷ s) vcpu_num = clip_parsed physical (c ∷ s) vcpu_num (parse_cpu_string (c ∷ s))

abbrev pub planned_vcpus : Option ℕ → ℕ → ℕ
planned_vcpus none old = old
planned_vcpus (some n) old = if ltb 0 n then n else old

-- The branch for a specification with CPU resources. cloneLinuxCPU copies the fields.
unfoldable pub parse_oci_cpu : ℕ → EssentialResource → LinuxCpu → ContainerConfig → ContainerConfig
unfolding clip
parse_oci_cpu physical res cpu cfg =
    let vcpu_num = planned_vcpus res.vcpu cfg.vcpu_num in
    let cpus = if is_empty_text res.client_cpu_set then cpu.cpus else res.client_cpu_set in
    let (cpus', vcpu_num') = clip physical cpus vcpu_num in
    let r = record (ensure_resources cfg) { cpu = some (record cpu { cpus = cpus' }) } in
    record cfg { resources = some r; vcpu_num = vcpu_num' }

abbrev spec_cpu : Option LinuxResources → Option LinuxCpu
spec_cpu none = none
spec_cpu (some r) = r.cpu

abbrev spec_memory : Option LinuxResources → Option LinuxMemory
spec_memory none = none
spec_memory (some r) = r.memory

abbrev pub with_cpu : ℕ → EssentialResource → Option LinuxCpu → ContainerConfig → ContainerConfig
with_cpu physical res none cfg = cfg
with_cpu physical res (some cpu) cfg = parse_oci_cpu physical res cpu cfg

-- cloneLinuxMemory copies the fields.
abbrev pub with_memory : Option LinuxMemory → ContainerConfig → ContainerConfig
with_memory none cfg = cfg
with_memory (some m) cfg = record cfg {
  resources = some (record (ensure_resources cfg) { memory = some m });
}

-- ParseOCIResources; it returns no error.
unfoldable pub parse_oci_resources :
    PedType → ℕ → Option LinuxResources → ContainerConfig → ContainerConfig
unfolding parse_oci_cpu ensure_resources
parse_oci_resources ped physical spec cfg =
    if cfg.is_infra
    then cfg
    else let ensured_cfg = record cfg { resources = some (ensure_resources cfg) } in
      let res = plan_essential_resources ped spec in
      with_memory (spec_memory spec) (with_cpu physical res (spec_cpu spec) ensured_cfg)
