-- ===== src/Sandbox/Calls.antt =====
-- pkg/micantainer/sandbox.go: the operations on a container of a sandbox, by its id. The container that
-- some of them return is the one of the id. StatsContainer takes the time of the virtual CPUs, a sum of
-- floats that xl gives, as an argument.
use micrun.Prelude.{ℕ, ◌*◌, Bool, Option, none, some, Bytes, ◌==◌, if◌then◌else◌, u64}
use micrun.Keyed.{lookup}
use micrun.Resources.{LinuxResources, memory_limit_mb}
use micrun.Mica.Executor.{current_max_mem}
use micrun.Mica.Control.{client_not_exist}
use micrun.Container.State.{StateString, running, stopped, down, same}
use micrun.Container.Core.{
  Outside, Container, Error, container_not_found, empty_container_id, container_down, sandbox_down,
  refused, canceled, ok, error, Step, update_exit_notifier,
}
use micrun.Container.Presence.{ensure_client_presence, is_nil}
use micrun.Container.Lifecycle.{start, stop, kill, pause, resume}
use micrun.Container.Update.{update}
use micrun.Container.Making.{winresize}
use micrun.Sandbox.Core.{
  World, Op, pure, fail, ◌>>=◌, ◌>>◌, go_on, get, call, find, log_error, when, store_sandbox,
}
use micrun.Sandbox.Accounting.{look, update_resources}
use micrun.Sandbox.Pinning.{check_vcpus_pinning}

-- ContainerStats, of which the other fields are 0
pub record Stats : Type 0 where
  pub total_usage : ℕ
  pub memory_limit : ℕ
  pub memory_usage : ℕ

-- stats of a container, but for the state of its sandbox
unfoldable pub stats : ℕ → Container → Stats
stats total_usec c =
    let threshold = c.me.memory_threshold_mb in
    let limit = if threshold == 0 then memory_limit_mb c.config else threshold in
    record {
      total_usage = total_usec;
      memory_limit = u64 (limit * 1048576);
      memory_usage = u64 (current_max_mem c.me * 1048576);
    }

-- How the wait for an exit ends: the context is done, or the channel is closed.
pub data Wait : Type 0 where
  done closed : Wait

module _ {W : Type 0} (world : World W) where
  -- StartContainer
  unfoldable pub start_container : Bytes → Op W Unit
  unfolding find call start store_sandbox check_vcpus_pinning go_on
  start_container id = do
    c ← find id
    call world (λ outside. start outside) c
    store_sandbox world
    check_vcpus_pinning world

  -- StopContainer
  unfoldable pub stop_container : Bytes → Bool → Op W Unit
  unfolding find call stop store_sandbox go_on
  stop_container id force = do
    c ← find id
    call world (λ outside. stop outside force) c
    store_sandbox world

  abbrev pub kill_if_there : Container → Op W Unit
  kill_if_there c (s, w) =
      if client_not_exist world.host c.config.id w
      then ((s, w), ok tt)
      else call world (λ outside. kill outside s.state) c (s, w)

  -- KillContainer
  unfoldable pub kill_container : Bytes → Op W Unit
  unfolding find call kill client_not_exist go_on
  kill_container id = do c ← find id; kill_if_there c

  -- PauseContainer
  unfoldable pub pause_container : Bytes → Op W Unit
  unfolding find call pause store_sandbox go_on
  pause_container id = do c ← find id; call world (λ outside. pause outside) c; store_sandbox world

  -- ResumeContainer
  unfoldable pub resume_container : Bytes → Op W Unit
  unfolding find call resume store_sandbox go_on
  resume_container id = do
    s ← get
    c ← find id
    call world (λ outside. resume outside s.state) c
    store_sandbox world

  abbrev pub updating : LinuxResources → StateString → Outside W → Step W Bool
  updating r state outside = update outside world.physical state r

  -- update of a container, with its last step
  abbrev pub update_and_recalculate : LinuxResources → StateString → Container → Op W Unit
  update_and_recalculate r state c = do
    applied ← call world (updating r state) c
    when applied (log_error (update_resources world))

  abbrev pub update_found : LinuxResources → Container → Op W Unit
  update_found r c = do
    s ← get
    log_error (update_and_recalculate r s.state c)
    log_error (check_vcpus_pinning world)
    log_error (store_sandbox world)

  -- UpdateContainer
  unfoldable pub update_container : Bytes → LinuxResources → Op W Unit
  unfolding find call update update_resources check_vcpus_pinning store_sandbox go_on
  update_container id r (s, w) =
      if s.config.static_resource_mgmt
      then ((s, w), ok tt)
      else (do c ← find id; update_found r c) (s, w)

  -- The Status of a container that is there.
  unfoldable pub container_status : Bytes → Op W StateString
  unfolding find look go_on
  container_status id = do c ← find id; look world c

  abbrev pub unless_down : StateString → Op W StateString
  unless_down state at = if same state down then (at, error container_not_found) else (at, ok state)

  abbrev pub status_of_found : Option Container → Op W StateString
  status_of_found none = pure down
  status_of_found (some c) = do
    call world (λ outside. ensure_client_presence outside) c
    c' ← find c.config.id
    state ← look world c'
    unless_down state

  -- StatusContainer, of which the state is kept; no container of the id gives an empty status, here
  -- `down`.
  unfoldable pub status_container : Bytes → Op W StateString
  unfolding find call look ensure_client_presence go_on
  status_container id (s, w) =
      if is_nil id
      then ((s, w), error empty_container_id)
      else status_of_found (lookup id s.containers) (s, w)

  abbrev pub if_running : {A : Type 0} → Op W A → Error → Op W A
  if_running op e (s, w) = if same s.state running then op (s, w) else ((s, w), error e)

  -- StatsContainer
  unfoldable pub stats_container : ℕ → Bytes → Op W Stats
  unfolding find stats go_on
  stats_container total_usec id = do c ← find id; if_running (pure (stats total_usec c)) refused

  -- IOStream, of which the streams do nothing
  unfoldable pub io_stream : Bytes → Op W Unit
  unfolding find go_on
  io_stream id = if_running (do find id; pure tt) sandbox_down

  -- WinResize
  unfoldable pub win_resize : Bytes → Op W Unit
  unfolding find call winresize go_on
  win_resize id =
      if_running (do c ← find id; call world (λ outside. winresize outside) c) sandbox_down

  -- exitNotifierForState
  abbrev pub notifier_for : StateString → Outside W → Step W Unit
  notifier_for state outside c w = (update_exit_notifier state c, w, ok tt)

  abbrev pub waited : Wait → Op W Unit
  waited done = fail canceled
  waited closed = pure tt

  abbrev pub wait_unless_stopped : Wait → Bytes → StateString → Op W Unit
  wait_unless_stopped ends id state at =
      if same state down
      then (at, error container_down)
      else if same state stopped
      then (at, ok tt)
      else (do c ← find id; call world (notifier_for state) c; waited ends) at

  -- WaitContainerExit, for a wait that ends
  unfoldable pub wait_container_exit : Wait → Bytes → Op W Unit
  unfolding find call look update_exit_notifier go_on
  wait_container_exit ends id = do
    c ← find id
    state ← look world c
    wait_unless_stopped ends id state
