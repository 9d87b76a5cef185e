-- ===== src/Shim/Requests.antt =====
-- pkg/shim/shim_services.go: State, Pids, Pause, Resume, Checkpoint, Exec, ResizePty, CloseIO, Update, Wait,
-- Stats, Connect and Shutdown. What a request says in a response beside the state of the container is left
-- out, and typeurl.UnmarshalAny gives the resources of an update, if there are any.
use micrun.Prelude.{
  ℕ, List, ◌∷◌, [], Bool, true, not, Option, none, some, Bytes, ◌&&◌, ◌||◌, not, if◌then◌else◌,
}
use micrun.Keyed.{lookup}
use micrun.Container.Presence.{is_nil}
use micrun.Container.Core.{Result, ok, error}
use micrun.Resources.{LinuxResources, no_resources, ensured}
use micrun.Sandbox.Core.{World}
use micrun.Sandbox.Calls.{
  Wait, Stats, pause_container, resume_container, win_resize, update_container, stats_container,
}
use micrun.Shim.Core.{
  running, stopped, paused, pausing, ShimContainer, task_paused, task_resumed, container_not_found,
  sandbox_not_found, not_implemented, other, canceled, Outcome, done, failed, blocked, exited, At,
  Op, pure, go_on, ◌>>=◌, ◌>>◌, get, write, lock, with_lock, unlock_after, find, has_sandbox,
  ask_sandbox, or_fail, put, at_status, send,
}
use micrun.Shim.Ending.{Ground, get_container_status, refresh_status, same_status, ignore}

-- What StateResponse says of a container.
pub record StateResponse : Type 0 where
  pub container : ShimContainer
  pub pid : ℕ
  pub exec_id : Bytes

module _ {W : Type 0} (world : World W) (outside : Ground W) where
  abbrev pub response : Bytes → ShimContainer → Op W StateResponse
  response exec_id c (s, w) =
      ((s, w), done (record { container = c; pid = s.shim_pid; exec_id = exec_id }))

  abbrev pub state_locked : Bytes → Bytes → Op W StateResponse
  state_locked id exec_id = do c ← find other id; response exec_id c

  -- State
  unfoldable pub state : Bytes → Bytes → Op W StateResponse
  unfolding with_lock find go_on
  state id exec_id = with_lock (state_locked id exec_id)

  abbrev pub pids_locked : Op W ℕ
  pids_locked (s, w) = ((s, w), done s.shim_pid)

  -- Pids
  unfoldable pub pids : Op W ℕ
  unfolding with_lock go_on
  pids = with_lock pids_locked

  abbrev pub connect_locked : Op W (ℕ × ℕ)
  connect_locked (s, w) = ((s, w), done (s.shim_pid, s.shim_pid))

  -- Connect
  unfoldable pub connect : Op W (ℕ × ℕ)
  unfolding with_lock go_on
  connect = with_lock connect_locked

  -- Checkpoint and Exec, which do nothing
  abbrev pub empty_response : Op W Unit
  empty_response = pure tt

  abbrev pub paused_or_not : ShimContainer → Result Unit → Op W Unit
  paused_or_not c (ok _) = do write (at_status paused c); send (task_paused c.id)
  paused_or_not c (error e) = refresh_status world outside c

  abbrev pub pause_present : Bytes → ShimContainer → Op W Unit
  pause_present id c (s, w) =
      if has_sandbox s.sandbox
      then go_on (ask_sandbox (pause_container world id) (s, w)) (paused_or_not c)
      else ((s, w), failed sandbox_not_found)

  abbrev pub pause_found : Bytes → ShimContainer → Op W Unit
  pause_found id c = do write (at_status pausing c); pause_present id (at_status pausing c)

  abbrev pub pause_locked : Bytes → Op W Unit
  pause_locked id = do c ← find container_not_found id; pause_found id c

  -- Pause, which gives no error where the sandbox gives one
  unfoldable pub pause : Bytes → Op W Unit
  unfolding with_lock find put ask_sandbox pause_container get_container_status go_on
  pause id = with_lock (pause_locked id)

  abbrev pub resumed_or_not : ShimContainer → Result Unit → Op W Unit
  resumed_or_not c (ok _) = do write (at_status running c); send (task_resumed c.id)
  resumed_or_not c (error e) = refresh_status world outside c

  abbrev pub resume_present : ShimContainer → Op W Unit
  resume_present c (s, w) =
      if has_sandbox s.sandbox
      then go_on (ask_sandbox (resume_container world c.id) (s, w)) (resumed_or_not c)
      else ((s, w), failed sandbox_not_found)

  abbrev pub resume_locked : Bytes → Op W Unit
  resume_locked id = do c ← find container_not_found id; resume_present c

  -- Resume, likewise
  unfoldable pub resume : Bytes → Op W Unit
  unfolding with_lock find put ask_sandbox resume_container get_container_status go_on
  resume id = with_lock (resume_locked id)

  abbrev pub resize_present : Bytes → Op W Unit
  resize_present id (s, w) =
      if has_sandbox s.sandbox
      then go_on (ask_sandbox (win_resize world id) (s, w)) or_fail
      else ((s, w), failed sandbox_not_found)

  abbrev pub resize_found : Bytes → ShimContainer → Op W Unit
  resize_found id c = resize_present id

  abbrev pub resize_locked : Bytes → Op W Unit
  resize_locked id = do c ← find container_not_found id; resize_found id c

  -- ResizePty
  unfoldable pub resize_pty : Bytes → Op W Unit
  unfolding with_lock find ask_sandbox win_resize go_on
  resize_pty id = with_lock (resize_locked id)

  -- Whether ioCopy reads a FIFO of the container as its stdin.
  abbrev pub has_reader : ShimContainer → Bool
  has_reader c = c.tty && not (is_nil c.stdin)

  -- The FIFO's reader is closed, so that the copy of stdin ends, which closes stdinCloser; then <-stdinCloser is
  -- waited for, with the lock held. What is closed behind it is only logged.
  abbrev pub close_stdin : Bool → ShimContainer → Op W Unit
  close_stdin stdin c at =
      if not stdin || c.stdin_closed
      then (at, done tt)
      else if has_reader c
      then write (record c { stdin_closed = true }) at
      else (at, blocked)

  abbrev pub close_present : Bytes → Bool → ShimContainer → Op W Unit
  close_present exec_id stdin c at =
      if is_nil exec_id then close_stdin stdin c at else (at, failed not_implemented)

  -- CloseIO
  unfoldable pub close_io : Bytes → Bytes → Bool → Op W Unit
  unfolding with_lock find go_on
  close_io id exec_id stdin =
      with_lock (do c ← find container_not_found id; close_present exec_id stdin c)

  abbrev pub update_present : LinuxResources → Option ShimContainer → Op W Unit
  update_present r none at = (at, done tt)
  update_present r (some c) (s, w) =
      if has_sandbox s.sandbox
      then go_on (ask_sandbox (update_container world c.id r) (s, w)) (ignore world outside)
      else ((s, w), failed sandbox_not_found)

  abbrev pub update_locked : Bytes → Option LinuxResources → Op W Unit
  update_locked id r (s, w) =
      update_present (ensured no_resources r) (lookup id s.containers) (s, w)

  -- Update
  unfoldable pub update : Bytes → Option LinuxResources → Op W Unit
  unfolding with_lock ask_sandbox update_container go_on
  update id r = with_lock (update_locked id r)

  -- What a Stats response holds: the empty metrics, or those of the sandbox.
  abbrev pub metrics_or_empty : Result Stats → Op W (Option Stats)
  metrics_or_empty (ok stats) at = (at, done (some stats))
  metrics_or_empty (error e) at = (at, done none)

  -- marshalMetrics, up to the format
  abbrev pub marshal_metrics : ℕ → Bytes → Op W (Option Stats)
  marshal_metrics total_usec id (s, w) =
      if has_sandbox s.sandbox
      then go_on (ask_sandbox (stats_container world total_usec id) (s, w)) metrics_or_empty
      else ((s, w), done none)

  abbrev pub stats_present : ℕ → Bytes → Option ShimContainer → Op W (Option Stats)
  stats_present total_usec id none at = (at, done none)
  stats_present total_usec id (some c) at = marshal_metrics total_usec id at

  abbrev pub stats_locked : ℕ → Bytes → Op W (Option Stats)
  stats_locked total_usec id (s, w) = stats_present total_usec id (lookup id s.containers) (s, w)

  -- Stats
  unfoldable pub stats : ℕ → Bytes → Op W (Option Stats)
  unfolding with_lock ask_sandbox stats_container go_on
  stats total_usec id = with_lock (stats_locked total_usec id)

  abbrev pub shut_down_if_empty : List (Bytes × ShimContainer) → Op W Unit
  shut_down_if_empty [] (s, w) = ((record s { shut_down = true }, w), exited)
  shut_down_if_empty (c ∷ cs) at = (at, done tt)

  -- Shutdown, where the removal of the socket is only logged
  unfoldable pub shutdown : Op W Unit
  unfolding with_lock go_on
  shutdown = do s ← with_lock get; shut_down_if_empty s.containers

  -- What a request that waits keeps of the container.
  abbrev pub waiting : Bytes → ShimContainer → Op W ShimContainer
  waiting exec_id c at = if is_nil exec_id then (at, done c) else (at, failed not_implemented)

  abbrev pub exit_of : At W → ShimContainer × At W → At W × Outcome (ℕ × ℕ)
  exit_of at (c, at') = go_on (lock at') (λ _ at''. unlock_after (at'', done (c.exit, c.exit_time)))

  -- The wait for the exit: `meanwhile` is what happens to the container and to the service.
  abbrev pub wait_unlocked :
      Wait → (ShimContainer × At W → ShimContainer × At W) → ShimContainer → Op W (ℕ × ℕ)
  wait_unlocked ends meanwhile c at =
      if same_status c.status stopped then exit_of at (c, at) else elim ends [
        | Wait.done ↦ (at, failed canceled)
        | Wait.closed ↦ exit_of at (meanwhile (c, at))
      ]

  -- Wait
  unfoldable pub wait :
      Wait → (ShimContainer × At W → ShimContainer × At W) → Bytes → Bytes → Op W (ℕ × ℕ)
  unfolding with_lock lock unlock_after find go_on
  wait ends meanwhile id exec_id = do
    c ← with_lock (do c ← find container_not_found id; waiting exec_id c)
    wait_unlocked ends meanwhile c
