-- ===== src/Mica/Executor.antt =====
-- pkg/libmica/resource_manager.go: MicaExecutor, which records what the client was last given. The
-- records are `int`s that are set from uint32 values only. `ctl` is micaCtl: it changes the world
-- outside and tells whether there was no error.
use micrun.Prelude.{
  ℕ, ◌+◌, ◌*◌, List, [], ◌∷◌, ◌++◌, Bool, true, false, ◌&&◌, ◌||◌, not, Option, none, some, Bytes,
  codes, ltb, leb, ◌==◌, if◌then◌else◌, max, u32,
}
use micrun.Text.{itoa, trim_space}
use micrun.Pedestal.CpuArray.{parse_cpu_arr}
use micrun.Pedestal.Essential.{EssentialResource, init_resource}
use micrun.Pedestal.Planner.{is_empty_text}
use micrun.Mica.Buffer.{copy_into, trim_right_nul}
use micrun.Mica.Command.{MicaCommand, update}
pub mod Memory
pub mod Update

pub record Executor : Type 0 where
  pub id : Bytes
  pub cpu_str : Bytes  -- [MaxCPUStringLen]byte
  pub vcpu_num : ℕ
  pub cpu_weight : ℕ
  pub cpu_capacity : ℕ
  pub memory_mb : ℕ
  pub memory_threshold_mb : ℕ

abbrev pub max_cpu_string_len : ℕ
max_cpu_string_len = 128

-- MicaExecutor{Id: id}
unfoldable pub new_executor : Bytes → Executor
new_executor id = record {
  id = id;
  cpu_str = copy_into max_cpu_string_len [];
  vcpu_num = 0;
  cpu_weight = 0;
  cpu_capacity = 0;
  memory_mb = 0;
  memory_threshold_mb = 0;
}

-- CurrentMaxMem
unfoldable pub current_max_mem : Executor → ℕ
current_max_mem me = u32 me.memory_mb

-- RecordMemoryState
unfoldable pub record_memory_state : ℕ → ℕ → Executor → Executor
record_memory_state current threshold me = record me {
  memory_mb = current;
  memory_threshold_mb = max me.memory_threshold_mb (if threshold == 0 then current else threshold);
}

-- The text of a byte array, without the NUL bytes at its end.
unfoldable pub recorded_cpus : Executor → Bytes
recorded_cpus me = trim_right_nul me.cpu_str

-- ReadResource
unfoldable pub read_resource : Executor → EssentialResource
unfolding recorded_cpus
read_resource me = record init_resource {
  vcpu = if ltb 0 me.vcpu_num then some (u32 me.vcpu_num) else init_resource.vcpu;
  cpu_weight = if ltb 0 me.cpu_weight then some (u32 me.cpu_weight) else none;
  cpu_capacity =
      if ltb 0 me.cpu_capacity then some (u32 me.cpu_capacity) else init_resource.cpu_capacity;
  memory_max_mb = if ltb 0 me.memory_mb then some (u32 me.memory_mb) else none;
  client_cpu_set = recorded_cpus me;
}

-- NeedUpdateCpuCap; `physical` is pedestal.HostCPUCounts().Physical.
unfoldable pub need_update_cpu_cap : ℕ → ℕ → Executor → Bool
need_update_cpu_cap physical target me =
    not (u32 me.cpu_capacity == target && leb (u32 (100 * physical)) target)

-- NeedUpdateMemLimit
unfoldable pub need_update_mem_limit : ℕ → Executor → Bool
unfolding current_max_mem
need_update_mem_limit target me = not (current_max_mem me == target)

-- NeedUpdateMemThreshold
unfoldable pub need_update_mem_threshold : ℕ → Executor → Bool
need_update_mem_threshold target me = ltb me.memory_threshold_mb target

-- NeedUpdateVCpus
unfoldable pub need_update_vcpus : ℕ → ℕ → Executor → Bool
need_update_vcpus physical target me =
    if target == 0 || ltb physical target then false else not (u32 me.vcpu_num == target)

-- NeedUpdateCpuShare
unfoldable pub need_update_cpu_share : ℕ → Executor → Bool
need_update_cpu_share target me = not (u32 me.cpu_weight == target)

abbrev pub bytes_eq : Bytes → Bytes → Bool
bytes_eq [] [] = true
bytes_eq (a ∷ s) (b ∷ t) = a == b && bytes_eq s t
bytes_eq _ _ = false

-- NeedUpdateCpuSet
unfoldable pub need_update_cpu_set : Bytes → Bytes → Executor → Bool
unfolding recorded_cpus
need_update_cpu_set old new me =
    let current = trim_space (recorded_cpus me) in
    if bytes_eq (trim_space old) (trim_space new)
    then false
    else if is_empty_text current
    then not (bytes_eq (trim_space old) (trim_space new))
    else not (bytes_eq current (trim_space new))

module _ {W : Type 0} (ctl : MicaCommand → Bytes → List Bytes → W → W × Bool) where
  -- micaCtl(MUpdate, me.Id, "<key> <value>")
  request : Bytes → Bytes → Executor → W → W × Bool
  request key value me w = ctl update me.id ((key ++ (b' ' ∷ value)) ∷ []) w

  -- The result of a request: the record changes only if there was no error.
  abbrev pub settle : W × Bool → Executor → Executor → W × Executor × Bool
  settle (w, true) me changed = (w, changed, true)
  settle (w, false) me changed = (w, me, false)

  -- UpdateVCPUNum; the two numbers that it returns are only logged.
  unfoldable pub update_vcpu_num : ℕ → Executor → W → W × Executor × Bool
  unfolding request
  update_vcpu_num n me w = settle (request (codes "VCPU") (itoa n) me w) me me

  -- UpdatePCPUConstrains
  unfoldable pub update_pcpu_constrains : Bytes → Executor → W → W × Executor × Bool
  unfolding request
  update_pcpu_constrains cpus me w =
      settle (request (codes "CPU") cpus me w) me
        (record me { cpu_str = copy_into max_cpu_string_len cpus })

  -- UpdateCPUCapacity
  unfoldable pub update_cpu_capacity : ℕ → Executor → W → W × Executor × Bool
  unfolding request
  update_cpu_capacity cap me w =
      settle (request (codes "CPUCpacity") (itoa cap) me w) me (record me { cpu_capacity = cap })

  -- UpdateCPUWeight
  unfoldable pub update_cpu_weight : ℕ → Executor → W → W × Executor × Bool
  unfolding request
  update_cpu_weight weight me w =
      settle (request (codes "CPUWeight") (itoa weight) me w) me (record me { cpu_weight = weight })

  -- UpdateMemoryThreshold
  unfoldable pub update_memory_threshold : ℕ → Executor → W → W × Executor × Bool
  unfolding request
  update_memory_threshold mb me w =
      if leb mb me.memory_threshold_mb
      then (w, me, true)
      else settle (request (codes "MaxMem") (itoa mb) me w) me
          (record me { memory_threshold_mb = max mb me.memory_threshold_mb })

  -- UpdateMemory
  unfoldable pub update_memory : ℕ → Executor → W → W × Executor × Bool
  unfolding request
  update_memory mb me w =
      settle (request (codes "Memory") (itoa mb) me w) me
        (record me { memory_mb = mb; memory_threshold_mb = max mb me.memory_threshold_mb })

  -- VcpuPin
  unfoldable pub vcpu_pin : List ℕ → Executor → W → W × Executor × Bool
  unfolding update_pcpu_constrains
  vcpu_pin cpus me w =
      if is_empty_text (parse_cpu_arr cpus)
      then (w, me, false)
      else update_pcpu_constrains (parse_cpu_arr cpus) me w

  -- A step and, if it gave no error, the next one.
  abbrev pub then_do :
      W × Executor × Bool → (Executor → W → W × Executor × Bool) → W × Executor × Bool
  then_do (w, me, true) next = next me w
  then_do (w, me, false) next = (w, me, false)

  -- The end of EnsureMemoryLimit; `current` was read at its start.
  reach_limit : ℕ → ℕ → Executor → W → W × Executor × Bool
  unfolding update_memory
  reach_limit current target me w =
      if current == target then (w, me, true) else update_memory target me w

  -- EnsureMemoryLimit
  unfoldable pub ensure_memory_limit : ℕ → Executor → W → W × Executor × Bool
  unfolding update_memory_threshold reach_limit current_max_mem
  ensure_memory_limit target me w =
      let current = current_max_mem me in
      let threshold = if me.memory_threshold_mb == 0 then current else me.memory_threshold_mb in
      if ltb threshold target
      then (then_do (update_memory_threshold target me w)
          (λ me' w'. reach_limit current target (record me' { memory_threshold_mb = target }) w'))
      else reach_limit current target me w
