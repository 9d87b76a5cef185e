-- ===== src/Shim/Start.antt =====
-- pkg/shim/start.go, shimio.go (newTtyIO, newPipeIO, ioCopy) and shim_services.go (Start): the start of a
-- container. url.Parse and fifo.OpenFifo are asked of the outside; detectControlChars and the bytes that
-- ioCopy carries are left out, and what its goroutines do to the channels is kept.
use micrun.Prelude.{
  ◌+◌, Bool, true, false, ◌||◌, not, Option, none, some, Bytes, codes, if◌then◌else◌, ℕ,
}
use micrun.Mica.Executor.{bytes_eq}
use micrun.Container.Presence.{is_nil}
use micrun.Container.Core.{Result}
use micrun.Sandbox.Core.{World}
use micrun.Sandbox.Lifecycle.{start_sandbox}
use micrun.Sandbox.Calls.{start_container, io_stream}
use micrun.Shim.Core.{
  running, ContainerType, no_type, can_be_sandbox, is_cri_sandbox, ShimContainer, task_start,
  task_exec_started, ShimService, container_not_found, not_implemented, other, Outcome, done,
  failed, panicked, At, Op, pure, go_on, ◌>>=◌, ◌>>◌, write, pid_or, when, with_lock, find,
  has_sandbox, ask_sandbox, or_fail, put, at_status, send, io_exit, close_stdin_closer,
}

-- What the streams of a container ask of the system: url.Parse with its scheme, and fifo.OpenFifo.
pub record Streams (W : Type 0) : Type 0 where
  pub scheme : Bytes → Option Bytes
  pub open_fifo : Bytes → W → W × Bool

abbrev pub is_no_type : ContainerType → Bool
is_no_type no_type = true
is_no_type _ = false

-- Whether one of the streams has a path.
abbrev pub has_streams : ShimContainer → Bool
has_streams c = not (is_nil c.stdin) || not (is_nil c.stdout) || not (is_nil c.stderr)

module _ {W : Type 0} (world : World W) (streams : Streams W) where
  abbrev pub opened : ShimService → W × Bool → At W × Outcome Unit
  opened s (w, true) = ((s, w), done tt)
  opened s (w, false) = ((s, w), failed other)

  abbrev pub open_unless_nil : Bytes → Op W Unit
  open_unless_nil path (s, w) =
      if is_nil path then ((s, w), done tt) else opened s (streams.open_fifo path w)

  -- newPipeIO
  unfoldable pub new_pipe_io : ShimContainer → Op W Unit
  unfolding go_on
  new_pipe_io c = do open_unless_nil c.stdin; open_unless_nil c.stdout

  abbrev pub with_scheme : ShimContainer → Option Bytes → Op W Unit
  with_scheme c none at = (at, failed other)
  with_scheme c (some scheme) at =
      if is_nil scheme || bytes_eq scheme (codes "fifo")
      then new_pipe_io c at
      else if bytes_eq scheme (codes "binary") || bytes_eq scheme (codes "file")
      then (at, failed not_implemented)
      else (at, failed other)

  -- newTtyIO
  unfoldable pub new_tty_io : ShimContainer → Op W Unit
  unfolding new_pipe_io
  new_tty_io c = with_scheme c (streams.scheme c.stdout)

  -- The start of ioCopy: without a stdin nothing else will close stdinCloser.
  unfoldable pub io_copy : ShimContainer → Op W Unit
  unfolding close_stdin_closer
  io_copy c = when (is_nil c.stdin) (close_stdin_closer c)

  -- The end of ioCopy, when all copies are done: close(exitch), past the Once of ioExit.
  unfoldable pub io_copy_end : ShimContainer → Op W Unit
  io_copy_end c (s, w) =
      if c.exit_closed
      then ((s, w), panicked)
      else ((put (record c { exit_closed = true }) s, w), done tt)

  -- The end of the copy of stdin.
  unfoldable pub stdin_copy_end : ShimContainer → Op W Unit
  unfolding close_stdin_closer
  stdin_copy_end c = close_stdin_closer c

  abbrev pub attach : ShimContainer → Op W Unit
  attach c = do new_tty_io c; write (record c { tty = true }); io_copy (record c { tty = true })

  -- Infra containers stay alive until they are killed.
  abbrev pub detached : ShimContainer → Op W Unit
  detached c = do
    close_stdin_closer c
    when (not (is_cri_sandbox c.c_type)) (io_exit (record c { stdin_closed = true }))

  abbrev pub attach_or_detach : ShimContainer → Op W Unit
  attach_or_detach c at = if has_streams c then attach c at else detached c at

  abbrev pub start_in_sandbox : ShimContainer → Op W (Result Unit)
  start_in_sandbox c at =
      if can_be_sandbox c.c_type
      then ask_sandbox (start_sandbox world) at
      else ask_sandbox (start_container world c.id) at

  -- go waitContainerExit, of the container as it is now
  abbrev pub watch : Bytes → Op W Unit
  watch id = do c ← find container_not_found id; write (record c { watchers = c.watchers + 1 })

  abbrev pub start_with_sandbox : ShimContainer → Op W Unit
  start_with_sandbox c = do
    r ← start_in_sandbox c
    or_fail r
    write (at_status running c)
    r' ← ask_sandbox (io_stream world c.id)
    or_fail r'
    attach_or_detach (at_status running c)
    watch c.id

  -- startContainer
  unfoldable pub start_shim_container : ShimContainer → Op W Unit
  unfolding ask_sandbox start_sandbox start_container io_stream new_tty_io io_copy io_exit
      close_stdin_closer put find can_be_sandbox is_cri_sandbox go_on
  start_shim_container c (s, w) =
      if is_no_type c.c_type
      then ((s, w), failed other)
      else if has_sandbox s.sandbox
      then start_with_sandbox c (s, w)
      else ((s, w), failed other)

  abbrev pub start_task : Bytes → ShimContainer → Op W ℕ
  start_task exec_id c (s, w) =
      if is_nil exec_id
      then (do
        start_shim_container c
        send (task_start c.id (pid_or s.shim_pid c))
        pure (pid_or s.shim_pid c))
          (s, w)
      else (do send (task_exec_started c.id exec_id s.shim_pid); pure s.shim_pid) (s, w)

  abbrev pub start_locked : Bytes → Bytes → Op W ℕ
  start_locked id exec_id = do c ← find container_not_found id; start_task exec_id c

  -- Start
  unfoldable pub start : Bytes → Bytes → Op W ℕ
  unfolding with_lock find start_shim_container go_on
  start id exec_id = with_lock (start_locked id exec_id)
