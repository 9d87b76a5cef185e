-- ===== src/Shim/Deletion.antt =====
-- pkg/shim/delete.go and shim_services.go (Delete). mount.UnmountAll and time.Now are asked of the outside, and a
-- path is joined to a bundle by a slash.
use micrun.Prelude.{
  ℕ, ◌++◌, Bool, true, false, ◌&&◌, not, Option, none, some, Bytes, codes, if◌then◌else◌,
}
use micrun.Keyed.{lookup, remove}
use micrun.Container.Presence.{is_nil}
use micrun.Container.Core.{Error, Result, ok, error}
use micrun.Sandbox.Core.{World}
use micrun.Sandbox.Lifecycle.{stop_sandbox, delete_sandbox}
use micrun.Sandbox.Members.{delete_container}
use micrun.Sandbox.Calls.{stop_container}
use micrun.Shim.Core.{
  stopped, can_be_sandbox, ShimContainer, task_delete, ShimService, Fault, not_implemented, other,
  Outcome, done, failed, At, Op, pure, go_on, ◌>>=◌, ◌>>◌, modify, pid_or, when, with_lock,
  has_sandbox, ask_sandbox, put, send,
}
use micrun.Shim.Ending.{Ground, same_status, end_and_drop}

module _ {W : Type 0} (world : World W) (outside : Ground W) where
  abbrev pub is_not_found : Error → Bool
  is_not_found Error.container_not_found = true
  is_not_found _ = false

  abbrev pub unless_not_found : {A : Type 0} → Result A → Op W Unit
  unless_not_found (ok a) at = (at, done tt)
  unless_not_found (error e) at =
      if is_not_found e then (at, done tt) else (at, failed (Fault.from_sandbox e))

  abbrev pub stop_first : ShimContainer → Op W Unit
  stop_first c = do r ← ask_sandbox (stop_container world c.id false); unless_not_found r

  abbrev pub delete_in_sandbox : ShimContainer → Op W Unit
  delete_in_sandbox c = do
    when (not (same_status c.status stopped)) (stop_first c)
    r ← ask_sandbox (delete_container world c.id)
    unless_not_found r

  abbrev pub delete_pod_container : ShimContainer → Op W Unit
  delete_pod_container c (s, w) =
      if not (can_be_sandbox c.c_type) && has_sandbox s.sandbox
      then delete_in_sandbox c (s, w)
      else ((s, w), done tt)

  abbrev pub unmounted : ShimContainer → ShimService → W × Bool → At W × Outcome Unit
  unmounted c s (w, true) = ((put (record c { mounted = false }) s, w), done tt)
  unmounted c s (w, false) = ((s, w), failed other)

  abbrev pub inner_rootfs : ShimContainer → Bytes
  inner_rootfs c = c.bundle ++ codes "/rootfs"

  abbrev pub unmount : ShimContainer → Op W Unit
  unmount c (s, w) =
      if c.mounted
      then unmounted c s (outside.unmount_all (inner_rootfs c) w)
      else ((s, w), done tt)

  abbrev pub forget : Bytes → Op W Unit
  forget id = modify (λ s. record s { containers = remove id s.containers })

  -- deleteContainer
  unfoldable pub delete_shim_container : ShimContainer → Op W Unit
  unfolding ask_sandbox stop_container delete_container can_be_sandbox put remove go_on
  delete_shim_container c = do delete_pod_container c; unmount c; forget c.id

  -- What a DeleteResponse holds.
  abbrev pub Deleted : Type 0
  Deleted = ℕ × ℕ × ℕ

  abbrev pub idempotent_delete : Bytes → Op W Deleted
  idempotent_delete id (s, w) =
      (do
        send (task_delete id s.shim_pid 0 (outside.now w))
        forget id
        pure (s.shim_pid, 0, outside.now w))
        (s, w)

  abbrev pub delete_found : Bytes → ShimContainer → Op W Deleted
  delete_found id c (s, w) =
      (do
        when (can_be_sandbox c.c_type) (end_and_drop world outside)
        delete_shim_container c
        send (task_delete id (pid_or s.shim_pid c) c.exit c.exit_time)
        pure (pid_or s.shim_pid c, c.exit, c.exit_time))
        (s, w)

  abbrev pub delete_looked : Bytes → Bytes → Option ShimContainer → Op W Deleted
  delete_looked id exec_id none at = idempotent_delete id at
  delete_looked id exec_id (some c) at =
      if is_nil exec_id then delete_found id c at else (at, failed not_implemented)

  abbrev pub delete_locked : Bytes → Bytes → Op W Deleted
  delete_locked id exec_id (s, w) = delete_looked id exec_id (lookup id s.containers) (s, w)

  -- Delete
  unfoldable pub delete : Bytes → Bytes → Op W Deleted
  unfolding with_lock ask_sandbox stop_sandbox delete_sandbox delete_shim_container can_be_sandbox
      remove go_on
  delete id exec_id = with_lock (delete_locked id exec_id)
