-- ===== src/Container/Update/Forgotten.antt =====
-- pkg/micantainer/container.go: an update that names no CPUs.
use micrun.Prelude.{
  ℕ, ◌≡◌, refl, ◌∙◌, ap, subst, sym, [], List, Bool, true, some, Bytes, arith, u32,
}
use micrun.Text.{trim_space}
use micrun.Resources.{LinuxCpu, LinuxResources}
use micrun.Pedestal.Essential.{init_resource}
use micrun.Pedestal.Weight.{share_to_weight}
use micrun.Mica.Command.{MicaCommand}
use micrun.Mica.Executor.{Executor, recorded_cpus}
use micrun.Mica.Executor.Memory.{Covers}
use micrun.Mica.Executor.Update.{update_container_resource}
use micrun.Mica.Executor.Update.Applied.{Asked, Fits32, update_container_resource_lem}
use micrun.Container.Update.{extract_changes}

extract_changes_unset :
    (r : LinuxResources) (cpu : LinuxCpu)
    → r.cpu ≡ some cpu
    → cpu.cpus ≡ []
    → ((extract_changes r).0.cpu_capacity ≡ some 0) × ((extract_changes r).0.client_cpu_set ≡ [])
unfolding extract_changes init_resource
extract_changes_unset r cpu e unset = (ground arith, ground arith)

extract_changes-Fits32 :
    (r : LinuxResources)
    → Fits32 (extract_changes r).0.memory_max_mb × Fits32 (extract_changes r).0.cpu_weight
unfolding extract_changes share_to_weight
extract_changes-Fits32 r = (ground arith, ground arith)

trim_space_nil : trim_space [] ≡ []
unfolding trim_space
trim_space_nil = refl

module _ {W : Type 0} (ctl : MicaCommand → Bytes → List Bytes → W → W × Bool) where
  -- For a record whose threshold covers its memory, and resources with a CPU part that names no
  -- CPUs, whatever quota and period it names: if updateContainerResource of what extractChanges
  -- takes from them gives no error, the capacity that is recorded for the client is 0 in 32 bits,
  -- which stands for no limit, and its recorded CPU text is blank.
  pub extract_changes-forgotten :
      (physical : ℕ) (r : LinuxResources) (cpu : LinuxCpu) (me : Executor) (w : W)
      → Covers me
      → r.cpu ≡ some cpu
      → cpu.cpus ≡ []
      → (update_container_resource ctl physical (extract_changes r).0 me w).2 ≡ true
      → let me' = (update_container_resource ctl physical (extract_changes r).0 me w).1 in
        (u32 me'.cpu_capacity ≡ 0) × (trim_space (recorded_cpus me') ≡ [])
  extract_changes-forgotten physical r cpu me w c e none_named done =
      let x = (extract_changes r).0 in
      let (cap, cpus) = extract_changes_unset r cpu e none_named in
      let fits = extract_changes-Fits32 r in
      let h =
        update_container_resource_lem ctl physical x me w c
          (subst Fits32 (sym cap) (omega arith), fits.0, fits.1) (rw cpus (omega arith))
          (rw cpus tt) done in
      (
        subst (λ a. Asked a (u32 (update_container_resource ctl physical x me w).1.cpu_capacity))
            cap h.0,
        h.2 ∙ ap trim_space cpus ∙ trim_space_nil,
      )
