-- ===== src/Shim/Watching.antt =====
-- pkg/shim/shimContainer.go: waitContainerExit, the watcher of a container.
use micrun.Prelude.{ℕ, ◌++◌, ◌∷◌, [], true, not, Bytes, if◌then◌else◌}
use micrun.Sandbox.Core.{World}
use micrun.Sandbox.Lifecycle.{stop_sandbox, delete_sandbox}
use micrun.Sandbox.Calls.{stop_container}
use micrun.Shim.Core.{
  stopped, can_be_sandbox, is_cri_sandbox, ShimContainer, ExitEvent, container_not_found, done,
  blocked, Op, go_on, ◌>>=◌, ◌>>◌, modify, write, with_lock, find, has_sandbox, ask_sandbox, put,
}
use micrun.Shim.Ending.{Ground, sigkill, ignore, end_sandbox, request_container_kill}

-- How the wait of waitContainerExit ends: exitIOch is closed, the context is done, or the timer fires.
pub data Wake : Type 0 where
  io_closed canceled timed_out : Wake

module _ {W : Type 0} (world : World W) (outside : Ground W) where
  abbrev pub refind : Bytes → Op W ShimContainer
  refind id = find container_not_found id

  -- <-c.exitIOch
  abbrev pub await_closed : ShimContainer → Op W Unit
  await_closed c at = if c.exit_closed then (at, done tt) else (at, blocked)

  abbrev pub kill_and_await : ShimContainer → Op W Unit
  kill_and_await c = do
    request_container_kill world outside c.id sigkill
    c' ← refind c.id
    await_closed c'

  -- The select; the timer is there for all but the containers that are sandboxes of CRI.
  abbrev pub woken : Wake → ShimContainer → Op W Unit
  woken io_closed c at = await_closed c at
  woken Wake.canceled c at = kill_and_await c at
  woken timed_out c at = if is_cri_sandbox c.c_type then (at, blocked) else kill_and_await c at

  abbrev pub end_in_sandbox : ShimContainer → Op W Unit
  end_in_sandbox c (s, w) =
      if not (has_sandbox s.sandbox)
      then ((s, w), done tt)
      else if can_be_sandbox c.c_type
      then end_sandbox world outside (s, w)
      else go_on (ask_sandbox (stop_container world c.id true) (s, w)) (ignore world outside)

  abbrev pub exited_at : ℕ → ShimContainer → ShimContainer
  exited_at now c = record c { status = stopped; exit = 0; exit_time = now }

  abbrev pub exit_event : ℕ → ℕ → ShimContainer → ExitEvent
  exit_event now shim_pid c = record {
    ts = now;
    cid = c.id;
    execid = [];
    pid = shim_pid;
    status = 0;
  }

  abbrev pub finish : ℕ → ShimContainer → Op W Unit
  finish now c = do end_in_sandbox c; write (exited_at now c)

  -- go func() { s.ec <- exitEvent }
  abbrev pub put_exit : ℕ → Bytes → Op W Unit
  put_exit now id = do
    c ← refind id
    modify (λ s. record s { exits = s.exits ++ exit_event now s.shim_pid c ∷ [] })

  abbrev pub finish_at : Bytes → Op W Unit
  finish_at id (s, w) =
      (do with_lock (do c ← refind id; finish (outside.now w) c); put_exit (outside.now w) id)
        (s, w)

  -- waitContainerExit, of a container that is not deleted in the meantime
  unfoldable pub wait_container_exit : Wake → Bytes → Op W Unit
  unfolding with_lock find ask_sandbox request_container_kill stop_sandbox delete_sandbox
      stop_container can_be_sandbox is_cri_sandbox put go_on
  wait_container_exit wake id = do c ← refind id; woken wake c; finish_at id
