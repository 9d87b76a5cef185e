-- ===== src/Pedestal/Planner.antt =====
-- pkg/pedestal/planner.go: the essential resources of an OCI specification. A nil `spec`,
-- `spec.Linux` or `spec.Linux.Resources` is `none`.
use micrun.Prelude.{
  ℕ, ◌*◌, ◌≤◌, ◌<◌, [], ◌∷◌, ◌≡◌, refl, Bool, true, false, ◌&&◌, Option, none, some, Bytes, arith,
  ltb, if◌then◌else◌, ℤ, pos, negsuc, int64, quot, u32, u32_of, shift20,
}
use micrun.Cpuset.{CpuSet, size}
use micrun.Cpuset.Parse.{parse, Outcome}
use micrun.Resources.{LinuxCpu, LinuxMemory, LinuxResources}
use micrun.Pedestal.Weight.{share_to_weight, default_xen_weight, share_to_weight_bounds}
use micrun.Pedestal.Essential.{EssentialResource, init_resource, PedType, xen, is_xen}

abbrev valid_set : Bytes → Outcome → Bytes × ℕ
valid_set s (set, none) = (s, u32 (size set))
valid_set s (set, some e) = ([], 0)

-- validateCPUSet
unfoldable pub validate_cpu_set : Bytes → Bytes × ℕ
validate_cpu_set s = valid_set s (parse s)

abbrev pub is_empty_text : Bytes → Bool
is_empty_text [] = true
is_empty_text (_ ∷ _) = false

-- A cpuset counts only if it is not empty and has CPUs.
abbrev pub counted : Bytes × ℕ → Bytes × ℕ
counted ([], n) = ([], 0)
counted (c ∷ s, n) = if ltb 0 n then (c ∷ s, n) else ([], 0)

-- The branch with a quota and a period that are positive.
abbrev quota_capacity : ℕ → ℕ → ℕ → ℕ
quota_capacity quota period vcpu_num =
    let raw = u32_of (quot (int64 (quota * 100)) (int64 period)) in
    let most = u32 (vcpu_num * 100) in
    if ltb 0 raw then if ltb 0 vcpu_num then if ltb most raw then most else raw else raw else 0

abbrev set_capacity : ℕ → ℕ
set_capacity vcpu_num = if ltb 0 vcpu_num then u32 (vcpu_num * 100) else 0

unfoldable pub plan_capacity : Option ℤ → Option ℕ → ℕ → ℕ
plan_capacity (some (pos quota)) (some period) vcpu_num =
    if ltb 0 quota && ltb 0 period
    then quota_capacity quota period vcpu_num
    else set_capacity vcpu_num
plan_capacity _ _ vcpu_num = set_capacity vcpu_num

abbrev unset_weight : Bool → Option ℕ
unset_weight convert = if convert then some default_xen_weight else none

unfoldable pub plan_weight : Bool → Option ℕ → Option ℕ
plan_weight convert none = unset_weight convert
plan_weight convert (some shares) =
    if ltb 0 shares
    then if convert then some (share_to_weight shares) else some (u32 shares)
    else unset_weight convert

-- The part for the CPU.
unfoldable pub plan_cpu : Bool → Option LinuxCpu → EssentialResource → EssentialResource
unfolding validate_cpu_set plan_capacity plan_weight
plan_cpu convert none res = record res { cpu_weight = none }
plan_cpu convert (some cpu) res =
    let (cpus, vcpu_num) = counted (validate_cpu_set cpu.cpus) in
    record res {
      client_cpu_set = cpus;
      vcpu = if ltb 0 vcpu_num then some vcpu_num else res.vcpu;
      cpu_capacity = some (plan_capacity cpu.quota cpu.period vcpu_num);
      cpu_weight = plan_weight convert cpu.shares;
    }

abbrev max_memory : Option ℤ → Option ℕ → Option ℕ
max_memory (some (pos n)) old = if ltb 0 n then some (u32_of (shift20 (pos n))) else old
max_memory _ old = old

-- The part for the memory.
unfoldable pub plan_memory : Option LinuxMemory → EssentialResource → EssentialResource
plan_memory none res = res
plan_memory (some m) res = record res { memory_max_mb = max_memory m.limit res.memory_max_mb }

-- linuxResourceToEssential
unfoldable pub linux_resource_to_essential : Option LinuxResources → Bool → EssentialResource
unfolding plan_cpu plan_memory init_resource
linux_resource_to_essential none convert = init_resource
linux_resource_to_essential (some r) convert =
    plan_memory r.memory (plan_cpu convert r.cpu init_resource)

-- PlanEssentialResources, over plannerForHost and the two planners.
unfoldable pub plan_essential_resources : PedType → Option LinuxResources → EssentialResource
unfolding linux_resource_to_essential
plan_essential_resources ped none = init_resource
plan_essential_resources ped (some r) = linux_resource_to_essential (some r) (is_xen ped)

abbrev pub value_or {ℓ} : {A : Type ℓ} → A → Option A → A
value_or d none = d
value_or d (some a) = a

plan_capacity-le :
    (quota : Option ℤ) (period : Option ℕ) (n : ℕ)
    → 0 < n
    → n * 100 < 4294967296
    → plan_capacity quota period n ≤ n * 100
unfolding plan_capacity
plan_capacity-le none period n h fits = ground arith
plan_capacity-le (some (pos q)) none n h fits = ground arith
plan_capacity-le (some (pos q)) (some p) n h fits = ground arith
plan_capacity-le (some (negsuc q)) period n h fits = ground arith

plan_weight_bounds :
    (shares : Option ℕ)
    → (1 ≤ value_or 0 (plan_weight true shares)) × (value_or 0 (plan_weight true shares) ≤ 65535)
unfolding plan_weight
plan_weight_bounds none = omega arith
plan_weight_bounds (some s) = ground (arith, share_to_weight_bounds s s)

plan_memory_frame :
    (m : Option LinuxMemory) (res : EssentialResource)
    → let res' = plan_memory m res in
      (res'.vcpu ≡ res.vcpu)
      × (res'.client_cpu_set ≡ res.client_cpu_set)
      × (res'.cpu_capacity ≡ res.cpu_capacity)
      × (res'.cpu_weight ≡ res.cpu_weight)
unfolding plan_memory
plan_memory_frame none res = (refl, refl, refl, refl)
plan_memory_frame (some m) res = (refl, refl, refl, refl)

counted_set :
    (c : ℕ) (s : Bytes) (set : CpuSet)
    → parse (c ∷ s) ≡ (set, none)
    → 0 < size set
    → size set * 100 < 4294967296
    → counted (validate_cpu_set (c ∷ s)) ≡ (c ∷ s, size set)
unfolding validate_cpu_set
counted_set c s set e h fits = rw (e, valid_set) (ground arith)

counted_same :
    (s : Bytes) (o : Outcome)
    → let set = (counted (valid_set s o)).0 in (if is_empty_text set then s else set) ≡ s
counted_same [] (set, none) = refl
counted_same (c ∷ s) (set, none) = ground arith
counted_same s (set, some e) = refl

-- The cpuset of the plan is the one asked for, or none at all.
pub client_cpu_set_same :
    (ped : PedType) (r : LinuxResources) (cpu : LinuxCpu)
    → r.cpu ≡ some cpu
    → let set = (plan_essential_resources ped (some r)).client_cpu_set in
      (if is_empty_text set then cpu.cpus else set) ≡ cpu.cpus
unfolding plan_essential_resources
client_cpu_set_same ped r cpu e = rw e (
    rw (plan_memory_frame r.memory (plan_cpu (is_xen ped) (some cpu) init_resource)).1
      (counted_same cpu.cpus (parse cpu.cpus)))

-- On Xen, for a CPU part whose cpuset is not empty, is read by Parse without an error, and has n > 0
-- CPUs with n * 100 in 32 bits: the plan of the code has n virtual CPUs, keeps the cpuset, has a
-- capacity of at most 100 for each CPU, and a weight between 1 and 65535.
pub plan_bounds :
    (r : LinuxResources) (cpu : LinuxCpu) (c : ℕ) (s : Bytes) (set : CpuSet)
    → r.cpu ≡ some cpu
    → cpu.cpus ≡ c ∷ s
    → parse (c ∷ s) ≡ (set, none)
    → 0 < size set
    → size set * 100 < 4294967296
    → let res = plan_essential_resources xen (some r) in
      (res.vcpu ≡ some (size set))
      × (res.client_cpu_set ≡ c ∷ s)
      × (value_or 0 res.cpu_capacity ≤ size set * 100)
      × (1 ≤ value_or 0 res.cpu_weight)
      × (value_or 0 res.cpu_weight ≤ 65535)
unfolding plan_essential_resources linux_resource_to_essential
plan_bounds r cpu c s set e es ep some_cpus fits =
    rw (e, es, counted_set c s set ep some_cpus fits)
      (ground (
        arith,
        plan_capacity-le cpu.quota cpu.period (size set),
        plan_weight_bounds cpu.shares,
        plan_memory_frame r.memory (record init_resource {
          client_cpu_set = c ∷ s;
          vcpu = some (size set);
          cpu_capacity = some (plan_capacity cpu.quota cpu.period (size set));
          cpu_weight = plan_weight true cpu.shares;
        }),
      ))
