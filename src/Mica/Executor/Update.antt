-- ===== src/Mica/Executor/Update.antt =====
-- pkg/micantainer/utils.go: updateContainerResource, on the record of the client. `physical` is
-- pedestal.HostCPUCounts().Physical. The log is left out.
use micrun.Prelude.{ℕ, Bool, true, false, Option, none, some, Bytes, List, if◌then◌else◌}
use micrun.Pedestal.Essential.{EssentialResource}
use micrun.Mica.Command.{MicaCommand}
use micrun.Mica.Executor.{
  Executor, read_resource, need_update_cpu_cap, need_update_mem_limit, need_update_cpu_set,
  need_update_cpu_share, need_update_vcpus, update_cpu_capacity, ensure_memory_limit,
  update_pcpu_constrains, update_cpu_weight, update_vcpu_num, then_do,
}
pub mod Applied

module _ {W : Type 0} (ctl : MicaCommand → Bytes → List Bytes → W → W × Bool) where
  -- A request that is made if it is needed.
  abbrev pub if_needed : Bool → W × Executor × Bool → Executor → W → W × Executor × Bool
  if_needed true done me w = done
  if_needed false done me w = (w, me, true)

  abbrev pub update_capacity : ℕ → Option ℕ → Executor → W → W × Executor × Bool
  update_capacity physical none me w = (w, me, true)
  update_capacity physical (some cap) me w =
      if_needed (need_update_cpu_cap physical cap me) (update_cpu_capacity ctl cap me w) me w

  abbrev pub update_limit : Option ℕ → Executor → W → W × Executor × Bool
  update_limit none me w = (w, me, true)
  update_limit (some mb) me w =
      if_needed (need_update_mem_limit mb me) (ensure_memory_limit ctl mb me w) me w

  abbrev pub update_cpus : Bytes → Bytes → Executor → W → W × Executor × Bool
  update_cpus old new me w =
      if_needed (need_update_cpu_set old new me) (update_pcpu_constrains ctl new me w) me w

  abbrev pub update_weight : Option ℕ → Executor → W → W × Executor × Bool
  update_weight none me w = (w, me, true)
  update_weight (some weight) me w =
      if_needed (need_update_cpu_share weight me) (update_cpu_weight ctl weight me w) me w

  -- An error of this request is only logged.
  abbrev pub logged : W × Executor × Bool → W × Executor × Bool
  logged (w, me, done) = (w, me, true)

  abbrev pub update_vcpus : ℕ → Option ℕ → Option ℕ → Executor → W → W × Executor × Bool
  update_vcpus physical (some old) (some new) me w =
      if_needed (need_update_vcpus physical new me) (logged (update_vcpu_num ctl new me w)) me w
  update_vcpus physical _ _ me w = (w, me, true)

  -- updateContainerResource; an error ends it.
  unfoldable pub update_container_resource :
      ℕ → EssentialResource → Executor → W → W × Executor × Bool
  update_container_resource physical updated me w =
      let old = read_resource me in
      then_do ctl (update_capacity physical updated.cpu_capacity me w) (λ me1 w1.
        then_do ctl (update_limit updated.memory_max_mb me1 w1) (λ me2 w2.
          then_do ctl (update_cpus old.client_cpu_set updated.client_cpu_set me2 w2) (λ me3 w3.
            then_do ctl (update_weight updated.cpu_weight me3 w3)
              (λ me4 w4. update_vcpus physical old.vcpu updated.vcpu me4 w4))))
