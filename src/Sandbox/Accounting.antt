-- ===== src/Sandbox/Accounting.antt =====
-- pkg/micantainer/utils.go (calculateSandboxVCPUs, calculateSandboxMemory), sandbox.go (updateResources),
-- sandbox_resource.go and pkg/utils/resource_utils.go. The sums are uint32 and uint64.
use micrun.Prelude.{
  ℕ, ◌+◌, ◌*◌, ◌/◌, List, [], ◌∷◌, Bool, true, false, ◌||◌, Option, none, some, Bytes, ◌==◌, ltb,
  if◌then◌else◌, u32, u64, ℤ, pos, negsuc,
}
use micrun.Keyed.{lookup}
use micrun.Resources.{ContainerConfig, LinuxCpu, LinuxResources}
use micrun.Cpuset.{size}
use micrun.Cpuset.Parse.{parse, Outcome}
use micrun.Pedestal.Planner.{is_empty_text}
use micrun.Container.State.{StateString, stopped, down, same}
use micrun.Container.Core.{Container, Outside, Result, ok, Step}
use micrun.Container.Presence.{check_state}
use micrun.Sandbox.Core.{Sandbox, SandboxResource, World, Op, pure, ◌>>=◌, go_on, get, modify, call}

-- utils.CalculateVCpusFromMilliCpus
unfoldable pub vcpus_from_milli_cpus : ℕ → ℕ
vcpus_from_milli_cpus milli = u32 (milli + 999) / 1000

-- utils.CalculateMilliCPUs
unfoldable pub milli_cpus : ℤ → ℕ → ℕ
milli_cpus (pos quota) period = if period == 0 then 0 else u32 (u64 (quota * 1000) / period)
milli_cpus (negsuc n) period = 0

-- The virtual CPUs that a quota and a period ask for; 0 if they do not.
abbrev pub quota_vcpus : Option ℕ → Option ℤ → ℕ
quota_vcpus (some period) (some quota) =
    if period == 0 then 0 else vcpus_from_milli_cpus (milli_cpus quota period)
quota_vcpus _ _ = 0

abbrev pub parsed_vcpus : Outcome → ℕ
parsed_vcpus (set, none) = u32 (size set)
parsed_vcpus (set, some e) = 1

abbrev pub cpus_vcpus : Bytes → ℕ
cpus_vcpus cpus = if is_empty_text cpus then 1 else parsed_vcpus (parse cpus)

abbrev pub cpu_vcpus : LinuxCpu → ℕ
cpu_vcpus cpu =
    if ltb 0 (quota_vcpus cpu.period cpu.quota)
    then quota_vcpus cpu.period cpu.quota
    else cpus_vcpus cpu.cpus

abbrev pub resources_vcpus : Option LinuxResources → ℕ
resources_vcpus none = 1
resources_vcpus (some r) = elim r.cpu [ none ↦ 1 | some cpu ↦ cpu_vcpus cpu ]

-- What calculateSandboxVCPUs adds for a container that is counted.
unfoldable pub vcpus_of : ContainerConfig → ℕ
unfolding vcpus_from_milli_cpus milli_cpus
vcpus_of cc = if ltb 0 cc.vcpu_num then cc.vcpu_num else resources_vcpus cc.resources

-- The sum of the limits in MiB, added to what there is.
abbrev pub add_hugepages : List ℕ → ℕ → ℕ
add_hugepages [] total = total
add_hugepages (limit ∷ limits) total = add_hugepages limits (u64 (total + limit / 1048576))

abbrev pub add_limit : Option ℤ → ℕ → ℕ
add_limit (some (pos n)) total = if ltb 0 n then u64 (total + n / 1048576) else total
add_limit _ total = total

abbrev pub add_resources : Bool → Option LinuxResources → ℕ → ℕ
add_resources huge none total = total
add_resources huge (some r) total = elim r.memory [
  | none ↦ total
  | some m ↦
      if huge
      then add_hugepages r.hugepage_limits (add_limit m.limit total)
      else add_limit m.limit total
]

-- What calculateSandboxMemory makes of its sum for a container that is counted.
unfoldable pub add_memory : Bool → ContainerConfig → ℕ → ℕ
add_memory huge cc total = add_resources huge cc.resources total

abbrev pub is_inactive : StateString → Bool
is_inactive s = same s stopped || same s down

-- resizeVCPUs; the numbers that it returns are only logged.
abbrev pub resize_vcpus : ℕ → SandboxResource → SandboxResource
resize_vcpus n res = record res { vcpu_num = n }

-- resizeMemory: newMemMB << 20
abbrev pub resize_memory : ℕ → SandboxResource → SandboxResource
resize_memory mb res = record res { memory_pool_bytes = u64 (mb * 1048576) }

abbrev pub with_res : (SandboxResource → SandboxResource) → Sandbox → Sandbox
with_res f s = record s { res = f s.res }

module _ {W : Type 0} (world : World W) where
  abbrev pub with_ok : {A : Type 0} → Container × W × A → Container × W × Result A
  with_ok (c, w, a) = (c, w, ok a)

  -- checkState of a container of the sandbox.
  abbrev pub looking : Outside W → Step W StateString
  looking outside c w = with_ok (check_state outside c w)

  unfoldable pub look : Container → Op W StateString
  unfolding call check_state
  look c = call world looking c

  abbrev pub active_if_there : Option Container → Op W Bool
  active_if_there none = pure true
  active_if_there (some c) = do s ← look c; pure (if is_inactive s then false else true)

  -- Whether a container is counted: not an infra container, and neither stopped nor down if it is
  -- there.
  unfoldable pub is_counted : ContainerConfig → Op W Bool
  unfolding look go_on
  is_counted cc (s, w) =
      if cc.is_infra then ((s, w), ok false) else active_if_there (lookup cc.id s.containers) (s, w)

  -- The loop over ContainerConfigs of both functions.
  unfoldable pub add_up : (ContainerConfig → ℕ → ℕ) → List (Bytes × ContainerConfig) → ℕ → Op W ℕ
  unfolding is_counted go_on
  add_up add [] total = pure total
  add_up add ((id, cc) ∷ ccs) total = do
    counted ← is_counted cc
    add_up add ccs (if counted then add cc total else total)

  abbrev pub add_vcpus : ContainerConfig → ℕ → ℕ
  add_vcpus cc total = u32 (total + vcpus_of cc)

  -- calculateSandboxVCPUs; a sandbox that is there gives no error.
  unfoldable pub calculate_sandbox_vcpus : Op W ℕ
  unfolding add_up vcpus_of go_on
  calculate_sandbox_vcpus = do s ← get; add_up add_vcpus s.config.container_configs 0

  -- calculateSandboxMemory
  unfoldable pub calculate_sandbox_memory : Op W ℕ
  unfolding add_up add_memory go_on
  calculate_sandbox_memory = do
    s ← get
    add_up (add_memory s.config.huge_page_support) s.config.container_configs 0

  abbrev pub recalculate : Op W Unit
  recalculate = do
    vcpus ← calculate_sandbox_vcpus
    memory ← calculate_sandbox_memory
    modify (λ s.
        with_res
          (λ res. resize_memory memory (resize_vcpus (u32 (vcpus + s.config.mini_vcpu_num)) res)) s)

  -- updateResources
  unfoldable pub update_resources : Op W Unit
  unfolding calculate_sandbox_vcpus calculate_sandbox_memory go_on
  update_resources (s, w) =
      if s.config.infra_only
      then ((s, w), ok tt)
      else if s.config.static_resource_mgmt
      then ((s, w), ok tt)
      else recalculate (s, w)
