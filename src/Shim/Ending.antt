-- ===== src/Shim/Ending.antt =====
-- pkg/shim/kill.go, utils.go (getContainerStatus) and shim_services.go (Kill): the kill of a container, and its
-- status.
use micrun.Prelude.{
  ℕ, [], Bool, true, false, ◌||◌, not, Option, none, some, Bytes, ◌==◌, if◌then◌else◌,
}
use micrun.Keyed.{lookup}
use micrun.Container.Presence.{is_nil}
use micrun.Container.Core.{Result, ok, error}
use micrun.Container.State.{StateString}
use micrun.Sandbox.Core.{World}
use micrun.Sandbox.Lifecycle.{stop_sandbox, delete_sandbox}
use micrun.Sandbox.Calls.{kill_container, pause_container, status_container, container_status}
use micrun.Shim.Core.{
  Status, unknown, created, running, stopped, paused, pausing, can_be_sandbox, ShimContainer, Fault,
  container_not_found, sandbox_not_found, Outcome, done, failed, At, Op, pure, fail, go_on, ◌>>=◌,
  ◌>>◌, modify, write, with_lock, find, has_sandbox, ask_sandbox, put, at_status, io_exit,
}

-- What the end of a container asks of the system.
pub record Ground (W : Type 0) : Type 0 where
  pub unmount_all : Bytes → W → W × Bool
  pub now : W → ℕ

abbrev pub same_status : Status → Status → Bool
same_status unknown unknown = true
same_status created created = true
same_status running running = true
same_status stopped stopped = true
same_status paused paused = true
same_status pausing pausing = true
same_status _ _ = false

-- The switch over the state of the sandbox's container.
unfoldable pub task_status : StateString → Status
task_status StateString.ready = created
task_status StateString.running = running
task_status StateString.paused = paused
task_status StateString.stopped = stopped
task_status _ = unknown

abbrev pub sigkill : ℕ
sigkill = 9

abbrev pub sigterm : ℕ
sigterm = 15

abbrev pub sigcont : ℕ
sigcont = 18

abbrev pub sigstop : ℕ
sigstop = 19

module _ {W : Type 0} (world : World W) (outside : Ground W) where
  abbrev pub status_or_unknown : Result StateString → Status
  status_or_unknown (ok state) = task_status state
  status_or_unknown (error e) = unknown

  abbrev pub answered_status : Result StateString → Op W Status
  answered_status r = pure (status_or_unknown r)

  -- getContainerStatus, with the status that the callers take for an error
  unfoldable pub get_container_status : Bytes → Op W Status
  unfolding ask_sandbox status_container task_status go_on
  get_container_status id (s, w) =
      if has_sandbox s.sandbox
      then go_on (ask_sandbox (status_container world id) (s, w)) answered_status
      else ((s, w), done unknown)

  abbrev pub refresh_status : ShimContainer → Op W Unit
  refresh_status c = do status ← get_container_status c.id; write (at_status status c)

  abbrev pub drop_sandbox : Op W Unit
  drop_sandbox = modify (λ s. record s { sandbox = none })

  abbrev pub ignore : {A : Type 0} → Result A → Op W Unit
  ignore r = pure tt

  -- Stop with force and Delete, whose errors are only logged.
  abbrev pub end_sandbox : Op W Unit
  end_sandbox = do
    r ← ask_sandbox (stop_sandbox world true)
    r' ← ask_sandbox (delete_sandbox world)
    pure tt

  abbrev pub end_and_drop : Op W Unit
  end_and_drop (s, w) =
      if has_sandbox s.sandbox then (do end_sandbox; drop_sandbox) (s, w) else ((s, w), done tt)

  abbrev pub kill_sandbox : ShimContainer → Op W Unit
  kill_sandbox c = do end_and_drop; write (at_status stopped c); io_exit (at_status stopped c)

  -- killed.Status(), whose look at the container may find it down; its result is only logged.
  unfoldable pub log_status : Bytes → Op W Unit
  unfolding ask_sandbox container_status go_on
  log_status id (s, w) =
      if has_sandbox s.sandbox
      then go_on (ask_sandbox (container_status world id) (s, w)) ignore
      else ((s, w), done tt)

  abbrev pub exit_unknown : ShimContainer → Op W Unit
  exit_unknown c = do write (at_status unknown c); io_exit (at_status unknown c)

  abbrev pub killed : ShimContainer → Result Unit → Op W Unit
  killed c (ok _) = do exit_unknown c; log_status c.id
  killed c (error e) = do refresh_status c; fail (Fault.from_sandbox e)

  abbrev pub kill_in_sandbox : ShimContainer → Op W Unit
  kill_in_sandbox c (s, w) =
      if has_sandbox s.sandbox
      then go_on (ask_sandbox (kill_container world c.id) (s, w)) (killed c)
      else ((s, w), failed sandbox_not_found)

  abbrev pub kill_task : ShimContainer → Op W Unit
  kill_task c at =
      if same_status c.status stopped
      then (at, done tt)
      else if can_be_sandbox c.c_type
      then kill_sandbox c at
      else kill_in_sandbox c at

  abbrev pub paused_by_signal : ShimContainer → Result Unit → Op W Unit
  paused_by_signal c (ok _) = pure tt
  paused_by_signal c (error e) = do refresh_status c; fail (Fault.from_sandbox e)

  abbrev pub pause_by_signal : ShimContainer → Op W Unit
  pause_by_signal c (s, w) =
      if same_status c.status pausing || same_status c.status stopped
      then ((s, w), done tt)
      else if has_sandbox s.sandbox
      then go_on (ask_sandbox (pause_container world c.id) (s, w)) (paused_by_signal c)
      else ((s, w), failed sandbox_not_found)

  abbrev pub deliver : ℕ → Bytes → ShimContainer → Op W Unit
  deliver signal exec_id c at =
      if not (is_nil exec_id)
      then (at, done tt)
      else if signal == sigkill || signal == sigterm
      then kill_task c at
      else if signal == sigstop || signal == sigcont
      then pause_by_signal c at
      else (at, done tt)

  abbrev pub kill_locked : Bytes → Bytes → ℕ → Op W Unit
  kill_locked id exec_id signal = do c ← find container_not_found id; deliver signal exec_id c

  -- Kill
  unfoldable pub kill : Bytes → Bytes → ℕ → Op W Unit
  unfolding with_lock find ask_sandbox stop_sandbox delete_sandbox kill_container pause_container
      get_container_status log_status can_be_sandbox io_exit put go_on
  kill id exec_id signal = with_lock (kill_locked id exec_id signal)

  abbrev pub exit_of : Option ShimContainer → Op W Unit
  exit_of none = pure tt
  exit_of (some c) = io_exit c

  abbrev pub exit_if_failed : Bytes → At W × Outcome Unit → At W × Outcome Unit
  exit_if_failed id ((s, w), failed e) = exit_of (lookup id s.containers) (s, w)
  exit_if_failed id r = r

  -- requestContainerKill
  unfoldable pub request_container_kill : Bytes → ℕ → Op W Unit
  unfolding kill io_exit
  request_container_kill id signal at = exit_if_failed id (kill id [] signal at)
