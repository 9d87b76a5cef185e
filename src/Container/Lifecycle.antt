-- ===== src/Container/Lifecycle.antt =====
-- pkg/micantainer/container.go: start, stop, kill, pause and resume. The context and the log are left
-- out. `sandbox` is the state of the container's sandbox.
use micrun.Prelude.{ℕ, Bool, true, false, ◌&&◌, ◌||◌, not, ◌==◌, leb, if◌then◌else◌}
use micrun.Resources.{memory_limit_mb}
use micrun.Pedestal.Essential.{is_xen}
use micrun.Mica.Executor.{
  Executor, record_memory_state, current_max_mem, update_memory_threshold, update_memory, then_do,
}
use micrun.Mica.Control.{mica_ctl, client_not_exist, start_client, stop_client, pause_client}
use micrun.Container.State.{
  StateString, ready, running, stopped, creating, paused, down, same, transition,
}
use micrun.Container.Core.{
  Container, Outside, Error, micad_op_failed, refused, failed, Result, ok, error, Step, and_then,
  ask, set_container_state,
}
use micrun.Container.Presence.{check_state, ensure_client_presence, with_executor}
pub mod Rules
pub mod Attendance
pub mod Triples
pub mod Switches
pub mod Runs
pub mod Notifier
pub mod Outcome
pub mod Failure

module _ {W : Type 0} (outside : Outside W) where
  abbrev pub from_executor : Container → W × Executor × Bool → Container × W × Result Unit
  from_executor c (w, me, true) = (with_executor me c, w, ok tt)
  from_executor c (w, me, false) = (with_executor me c, w, error failed)

  -- The requests of setupMemory, for a limit.
  raise_memory : ℕ → Executor → W → W × Executor × Bool
  unfolding update_memory_threshold update_memory
  raise_memory limit me w =
      let ctl = mica_ctl outside.host in
      then_do ctl (update_memory_threshold ctl limit me w) (λ me' w'.
        then_do ctl (update_memory ctl limit me' w')
          (λ me'' w''. (w'', record_memory_state limit limit me'', true)))

  -- setupMemory
  unfoldable pub setup_memory : Step W Unit
  unfolding raise_memory
  setup_memory c w =
      let limit = memory_limit_mb c.config in
      if c.config.is_infra
        || not (is_xen outside.host.ped)
        || limit == 0
        || (current_max_mem c.me == limit && leb limit c.me.memory_threshold_mb)
      then (c, w, ok tt)
      else from_executor c (raise_memory limit c.me w)

  -- startClient
  unfoldable pub start_container_client : Step W Unit
  unfolding ensure_client_presence setup_memory
  start_container_client c w = and_then (ensure_client_presence outside c w) (λ _ c' w'.
      and_then (ask failed (start_client outside.host c'.config.id) c' w') (λ _. setup_memory))

  abbrev pub stop_unless_stopped : Bool → Container × W × StateString → Container × W × Result Unit
  stop_unless_stopped force (c, w, s) =
      if same s stopped
      then (c, w, ok tt)
      else if not (transition c.state s stopped) && not force
      then (c, w, error refused)
      else ask failed (stop_client outside.host c.config.id) c w

  -- doStop
  unfoldable pub do_stop : Bool → Step W Unit
  unfolding check_state
  do_stop force c w =
      let client_stopped = stop_unless_stopped force (check_state outside c w) in
      if c.config.is_infra
      then (if c.infra_cmd then ask failed outside.terminate c w else (c, w, ok tt))
      else client_stopped

  -- stop
  unfoldable pub stop : Bool → Step W Unit
  unfolding ensure_client_presence do_stop set_container_state
  stop force c w =
      and_then (ensure_client_presence outside c w)
        (λ _ c' w'. and_then (do_stop force c' w') (λ _. set_container_state outside stopped))

  -- A failed start: the container is stopped, and an error of that is only logged.
  abbrev pub stop_if_failed : Container × W × Result Unit → Container × W
  stop_if_failed (c, w, ok _) = (c, w)
  stop_if_failed (c, w, error _) = let r = stop true c w in (r.0, r.1)

  abbrev pub then_running : Container × W → Container × W × Result Unit
  then_running (c, w) = set_container_state outside running c w

  abbrev pub may_start : StateString → Bool
  may_start s = same s ready || same s stopped

  abbrev pub start_infra : StateString → Step W Unit
  start_infra s c w =
      if same s running
      then (c, w, ok tt)
      else if not (may_start s) || not (transition c.state s running)
      then (c, w, error refused)
      else set_container_state outside running c w

  abbrev pub start_from : StateString → Step W Unit
  start_from s c w =
      if c.config.is_infra
      then start_infra s c w
      else if same s running || not (may_start s) || not (transition c.state s running)
      then (c, w, error refused)
      else then_running (stop_if_failed (start_container_client c w))

  -- start
  unfoldable pub start : Step W Unit
  unfolding ensure_client_presence start_container_client stop set_container_state
  start c w = and_then (ensure_client_presence outside c w) start_from

  abbrev pub kill_client : Step W Unit
  kill_client c w =
      if client_not_exist outside.host c.config.id w
      then set_container_state outside stopped c w
      else and_then (do_stop true c w) (λ _. set_container_state outside stopped)

  -- kill
  unfoldable pub kill : StateString → Step W Unit
  unfolding ensure_client_presence do_stop set_container_state
  kill sandbox c w =
      if not (same sandbox ready) && not (same sandbox running)
      then (c, w, error refused)
      else and_then (ensure_client_presence outside c w) (λ _. kill_client)

  abbrev pub pause_from : StateString → Step W Unit
  pause_from s c w =
      if not (same s running)
      then (c, w, error refused)
      else if c.config.is_infra
      then set_container_state outside paused c w
      else and_then (ask micad_op_failed (pause_client outside.host c.config.id) c w)
          (λ _. set_container_state outside paused)

  -- pause
  unfoldable pub pause : Step W Unit
  unfolding ensure_client_presence set_container_state
  pause c w = and_then (ensure_client_presence outside c w) pause_from

  abbrev pub resume_from : StateString → StateString → Step W Unit
  resume_from sandbox s c w =
      if not (same s paused) && not (same sandbox stopped)
      then (c, w, error refused)
      else if c.config.is_infra
      then set_container_state outside running c w
      else and_then (ask micad_op_failed (start_client outside.host c.config.id) c w)
          (λ _. set_container_state outside running)

  -- resume
  unfoldable pub resume : StateString → Step W Unit
  unfolding ensure_client_presence set_container_state
  resume sandbox c w = and_then (ensure_client_presence outside c w) (resume_from sandbox)
