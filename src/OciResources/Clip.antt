-- ===== src/OciResources/Clip.antt =====
-- pkg/micantainer/container_resources.go: the cpuset after ParseOCIResources.
use micrun.Prelude.{
  leb, ℕ, ◌<◌, List, [], ◌∷◌, ◌≡◌, refl, ◌∙◌, ap, sym, subst, ◌≤◌, true, false, not, Option, none,
  some, Bytes, arith, All, elem, if◌then◌else◌, Bool-cases, inl, inr,
}
use micrun.Text.{max_int}
use micrun.Sorting.{sort_ints, sort_ints-All}
use micrun.Cpuset.Ranges.{Below, Fits}
use micrun.Resources.{
  cpu_mask, ContainerConfig, LinuxCpu, LinuxMemory, LinuxResources, ensure_resources,
}
use micrun.Pedestal.Essential.{EssentialResource, PedType}
use micrun.Pedestal.Planner.{client_cpu_set_same, plan_essential_resources, is_empty_text}
use micrun.Pedestal.CpuArray.{parse_cpu_arr}
use micrun.Mica.CpuString.{parse_cpu_string}
use micrun.Mica.CpuString.Range.{parse_cpu_string-Fits}
use micrun.Mica.CpuString.RoundTrip.{parse_cpu_string-parse_cpu_arr}
use micrun.OciResources.{
  with_memory, with_cpu, planned_vcpus, filter_cpus, out_of_range, clip_list, clip_parsed, clip,
  parse_oci_cpu, parse_oci_resources,
}

All-in_range :
    (physical : ℕ) (cs : List ℕ) → out_of_range physical cs ≡ [] → All (λ c. c < physical) cs
unfolding out_of_range filter_cpus
All-in_range physical [] e = tt
All-in_range physical (c ∷ cs) e = ground (arith, All-in_range physical cs)

elem-out_of_range :
    (physical x : ℕ) (cs : List ℕ)
    → elem x cs ≡ true
    → physical ≤ x
    → elem x (out_of_range physical cs) ≡ true
unfolding out_of_range filter_cpus
elem-out_of_range physical x [] e h = cc
elem-out_of_range physical x (c ∷ cs) e h = ground (arith, elem-out_of_range physical x cs)

-- What is not among the CPUs out of range is in range.
kept_in_range :
    (physical : ℕ) (full list : List ℕ)
    → All (λ c. elem c full ≡ true) list
    → All (λ c. c < physical) (filter_cpus (λ c. not (elem c (out_of_range physical full))) list)
unfolding filter_cpus
kept_in_range physical full [] _ = tt
kept_in_range physical full (c ∷ cs) (there, h) =
    elim (Bool-cases (elem c (out_of_range physical full))) [
      | inl bad ↦ rw bad (kept_in_range physical full cs h)
      | inr good ↦ rw good (
        (ground (arith, elem-out_of_range physical c full there)),
        kept_in_range physical full cs h,
      )
    ]

elem_weaken :
    (x : ℕ) (cs list : List ℕ)
    → All (λ c. elem c cs ≡ true) list
    → All (λ c. elem c (x ∷ cs) ≡ true) list
elem_weaken x cs [] _ = tt
elem_weaken x cs (y ∷ list) (hy, h) = ((ground arith), elem_weaken x cs list h)

elem-All_in : (cs : List ℕ) → All (λ c. elem c cs ≡ true) cs
elem-All_in [] = tt
elem-All_in (c ∷ cs) = ((ground arith), elem_weaken c cs cs (elem-All_in cs))

-- The text stands for CPUs that the host has.
abbrev pub InRange : ℕ → Bytes → Type 0
InRange physical cpus =
    (out : List ℕ) × (parse_cpu_string cpus ≡ some out) × All (λ c. c < physical) out

Below-host : (physical : ℕ) (l : List ℕ) → physical ≤ max_int → All (λ c. c < physical) l → Below l
Below-host physical [] host h = tt
Below-host physical (c ∷ l) host (low, h) = (omega arith, Below-host physical l host h)

clip_kept :
    (physical : ℕ) (kept : List ℕ)
    → physical ≤ max_int
    → All (λ c. c < physical) kept
    → InRange physical (parse_cpu_arr kept)
clip_kept physical kept host low = (
  sort_ints kept,
  parse_cpu_string-parse_cpu_arr kept (Below-host physical kept host low),
  sort_ints-All (λ c. c < physical) kept low,
)

-- A list of ints that names a CPU which the host does not have.
out_of_range-small :
    (physical b : ℕ) (cs bads : List ℕ)
    → Fits cs
    → out_of_range physical cs ≡ b ∷ bads
    → physical ≤ max_int
unfolding out_of_range filter_cpus
out_of_range-small physical b [] bads fits e = cc
out_of_range-small physical b (c ∷ cs) bads (fit, fits) e = elim (Bool-cases (leb physical c)) [
  | inl high ↦ ground arith
  | inr low ↦ out_of_range-small physical b cs bads fits (rw low at e)
]

clip_list-InRange :
    (physical vcpu_num : ℕ) (cpus : Bytes) (list bads kept : List ℕ)
    → parse_cpu_string cpus ≡ some list
    → out_of_range physical list ≡ bads
    → filter_cpus (λ c. not (elem c bads)) list ≡ kept
    → Fits list
    → InRange physical (clip_list cpus vcpu_num list bads).0
clip_list-InRange physical n cpus list [] kept e eb ek fits =
    (list, e, All-in_range physical list eb)
clip_list-InRange physical n cpus list (b ∷ bads) [] e eb ek fits =
    rw (ek, clip_list) ([], unfold parse_cpu_string in refl, tt)
clip_list-InRange physical n cpus list (b ∷ bads) (v ∷ vs) e eb ek fits =
    rw (ek, clip_list)
      (clip_kept physical (v ∷ vs) (out_of_range-small physical b list bads fits eb) (
        subst (All (λ c. c < physical)) ek (
          subst (λ l. All (λ c. c < physical) (filter_cpus (λ c. not (elem c l)) list)) eb
            (kept_in_range physical list list (elem-All_in list)))))

-- After the clipping a cpuset that could be read stands for CPUs of the host alone.
pub clip-InRange :
    (physical vcpu_num : ℕ) (cpus : Bytes) (list : List ℕ)
    → parse_cpu_string cpus ≡ some list
    → Fits list
    → InRange physical (clip physical cpus vcpu_num).0
unfolding clip
clip-InRange physical n [] list e fits = ([], unfold parse_cpu_string in refl, tt)
clip-InRange physical n (c ∷ s) list e fits =
    rw (e, clip_parsed) (clip_list-InRange physical n (c ∷ s) list _ _ e refl refl fits)

with_memory_mask :
    (m : Option LinuxMemory) (cfg : ContainerConfig) → cpu_mask (with_memory m cfg) ≡ cpu_mask cfg
unfolding cpu_mask ensure_resources
with_memory_mask none cfg = refl
with_memory_mask (some m) cfg = ground arith

parse_oci_cpu_mask :
    (physical : ℕ) (res : EssentialResource) (cpu : LinuxCpu) (cfg : ContainerConfig)
    → (if is_empty_text res.client_cpu_set then cpu.cpus else res.client_cpu_set) ≡ cpu.cpus
    → cpu_mask (parse_oci_cpu physical res cpu cfg)
      ≡ (clip physical cpu.cpus (planned_vcpus res.vcpu cfg.vcpu_num)).0
unfolding cpu_mask parse_oci_cpu
parse_oci_cpu_mask physical res cpu cfg e =
    ap (λ s. (clip physical s (planned_vcpus res.vcpu cfg.vcpu_num)).0) e

parse_oci_resources_mask :
    (ped : PedType) (physical : ℕ) (r : LinuxResources) (cpu : LinuxCpu) (cfg : ContainerConfig)
    → cfg.is_infra ≡ false
    → r.cpu ≡ some cpu
    → cpu_mask (parse_oci_resources ped physical (some r) cfg)
      ≡ (clip physical cpu.cpus
          (planned_vcpus (plan_essential_resources ped (some r)).vcpu cfg.vcpu_num)).0
unfolding parse_oci_resources
parse_oci_resources_mask ped physical r cpu cfg infra e =
    let res = plan_essential_resources ped (some r) in
    let base = record cfg { resources = some (ensure_resources cfg) } in
    ap (λ b. cpu_mask (if b then cfg else with_memory r.memory (with_cpu physical res r.cpu base)))
      infra
    ∙ (with_memory_mask r.memory (with_cpu physical res r.cpu base)
        ∙ (ap (λ c. cpu_mask (with_cpu physical res c base)) e
            ∙ parse_oci_cpu_mask physical res cpu base (client_cpu_set_same ped r cpu e)))

-- After ParseOCIResources for a container that is not an infra container, its cpuset, if the
-- specification's can be read, names CPUs of the host alone.
pub parse_oci_resources-InRange :
    (ped : PedType) (physical : ℕ) (r : LinuxResources) (cpu : LinuxCpu) (cfg : ContainerConfig)
    (list : List ℕ)
    → cfg.is_infra ≡ false
    → r.cpu ≡ some cpu
    → parse_cpu_string cpu.cpus ≡ some list
    → InRange physical (cpu_mask (parse_oci_resources ped physical (some r) cfg))
parse_oci_resources-InRange ped physical r cpu cfg list infra e read =
    subst (InRange physical) (sym (parse_oci_resources_mask ped physical r cpu cfg infra e))
      (clip-InRange physical _ cpu.cpus list read (parse_cpu_string-Fits cpu.cpus read))
