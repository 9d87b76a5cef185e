-- ===== src/Container/Update.antt =====
-- pkg/micantainer/container.go: update of a container's resources. `physical` is
-- pedestal.HostCPUCounts().Physical.
use micrun.Prelude.{
  ℕ, [], ◌∷◌, Bool, true, false, ◌||◌, not, Option, none, some, Bytes, ◌==◌, if◌then◌else◌, ℤ, pos,
  u32_of, shift20,
}
use micrun.Resources.{
  LinuxCpu, LinuxMemory, LinuxResources, ContainerConfig, ensure_cpu, ensure_memory,
  ensure_resources,
}
use micrun.Pedestal.Weight.{share_to_weight}
use micrun.Pedestal.Essential.{EssentialResource, init_resource}
use micrun.Mica.Executor.Update.{update_container_resource}
use micrun.Mica.Control.{mica_ctl}
use micrun.Container.State.{StateString, ready, running, same}
use micrun.Container.Core.{
  Container, Outside, Error, refused, failed, Result, ok, error, Step, and_then,
}
use micrun.Container.Presence.{check_state}
use micrun.Container.Lifecycle.{from_executor}
pub mod Forgotten

-- A pointer to a number that is not 0.
abbrev set_number : Option ℕ → Bool
set_number none = false
set_number (some n) = not (n == 0)

abbrev set_int : Option ℤ → Bool
set_int none = false
set_int (some (pos n)) = not (n == 0)
set_int (some _) = true

abbrev set_text : Bytes → Bool
set_text [] = false
set_text (_ ∷ _) = true

abbrev is_given : {A : Type 0} → Option A → Bool
is_given none = false
is_given (some _) = true

abbrev weight_of : Option ℕ → Option ℕ
weight_of none = none
weight_of (some shares) = some (share_to_weight shares)

-- The part of extractChanges for the CPU.
abbrev pub cpu_changes : Option LinuxCpu → EssentialResource → EssentialResource × Bool
cpu_changes none res = (res, false)
cpu_changes (some cpu) res = (
  record res { client_cpu_set = cpu.cpus; cpu_weight = weight_of cpu.shares },
  set_number cpu.period || set_int cpu.quota || set_text cpu.cpus || is_given cpu.shares,
)

-- The part for the memory.
abbrev pub memory_changes : Option ℤ → EssentialResource × Bool → EssentialResource × Bool
memory_changes none (res, changed) = (res, changed)
memory_changes (some limit) (res, changed) =
    let mb = u32_of (shift20 limit) in
    (record res { memory_min_mb = mb; memory_max_mb = some mb }, true)

abbrev limit_in : Option LinuxMemory → Option ℤ
limit_in none = none
limit_in (some m) = m.limit

-- extractChanges
unfoldable pub extract_changes : LinuxResources → EssentialResource × Bool
unfolding init_resource
extract_changes r =
    memory_changes (limit_in r.memory)
      (cpu_changes r.cpu (record init_resource { memory_max_mb = none; cpu_weight = none }))

abbrev or_old : {A : Type 0} → Bool → A → A → A
or_old given new old = if given then new else old

-- What applyChanges writes into the configuration.
abbrev merge_cpu : Option LinuxCpu → LinuxCpu → LinuxCpu
merge_cpu none old = old
merge_cpu (some new) old = record old {
  period = or_old (set_number new.period) new.period old.period;
  quota = or_old (set_int new.quota) new.quota old.quota;
  cpus = or_old (set_text new.cpus) new.cpus old.cpus;
  shares = or_old (is_given new.shares) new.shares old.shares;
}

abbrev merge_memory : Option ℤ → LinuxMemory → LinuxMemory
merge_memory none old = old
merge_memory (some limit) old = record old { limit = some limit }

unfoldable pub merge : LinuxResources → ContainerConfig → ContainerConfig
merge r cfg = record cfg {
  resources = some (record (ensure_resources cfg) {
    cpu = some (merge_cpu r.cpu (ensure_cpu cfg));
    memory = some (merge_memory (limit_in r.memory) (ensure_memory cfg));
  });
}

-- validateUpdate: the resources, the CPU and the memory of the configuration are there.
unfoldable pub validate_update : ContainerConfig → ContainerConfig
validate_update cfg = record cfg {
  resources = some (record (ensure_resources cfg) {
    cpu = some (ensure_cpu cfg);
    memory = some (ensure_memory cfg);
  });
}

module _ {W : Type 0} (outside : Outside W) (physical : ℕ) where
  abbrev pub finish : LinuxResources → Step W Bool
  finish r c w = (record c { config = merge r c.config }, w, ok true)

  -- applyChanges, up to its call of updateResources
  unfoldable pub apply_changes : EssentialResource → LinuxResources → Step W Bool
  unfolding update_container_resource merge
  apply_changes res r c w =
      and_then
        (from_executor outside c
          (update_container_resource (mica_ctl outside.host) physical res c.me w))
        (λ _. finish r)

  abbrev pub update_present :
      LinuxResources → Container × W × StateString → Container × W × Result Bool
  update_present r (c, w, s) =
      let c' = record c { config = validate_update c.config } in
      let applied = apply_changes (extract_changes r).0 r c' w in
      if not (same s ready || same s running)
      then (c, w, error refused)
      else if (extract_changes r).1
      then applied
      else (c', w, ok false)

  -- update; notOperational is that the state is neither ready nor running. The result is whether the
  -- sandbox's updateResources, whose error is only logged, is the last step.
  unfoldable pub update : StateString → LinuxResources → Step W Bool
  unfolding apply_changes extract_changes validate_update check_state
  update sandbox r c w =
      let present = update_present r (check_state outside c w) in
      if c.config.is_infra
      then (c, w, ok false)
      else if not (same sandbox running)
      then (c, w, error refused)
      else present
