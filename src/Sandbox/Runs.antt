-- ===== src/Sandbox/Runs.antt =====
-- pkg/micantainer/sandbox.go: sequences of operations on a sandbox, with errors or without.
use micrun.Sandbox.Upkeep.Life.{start_sandbox-Keeps, stop_sandbox-Keeps, delete_sandbox-Keeps}
use micrun.Sandbox.Upkeep.Status.{status_container-Keeps, wait_container_exit-Keeps}
use micrun.Container.Fit.Fresh.{Saved}
use micrun.Sandbox.Upkeep.Creation.{create_container-Keeps}
use micrun.Sandbox.Upkeep.Requests.{
  kill_container-Keeps, pause_container-Keeps, resume_container-Keeps, start_container-Keeps,
  stop_container-Keeps, update_container-Keeps, win_resize-Keeps,
}
use micrun.Resources.{ContainerConfig, LinuxResources}
use micrun.Sandbox.Members.{create_container, delete_container}
use micrun.Sandbox.Rules.Results.{Yields-Keeps}
use micrun.Container.Core.{Result}
use micrun.Sandbox.Lifecycle.{delete_sandbox, start_sandbox, stop_sandbox}
use micrun.Sandbox.Upkeep.Deletion.{Gone, delete_container-Yields}
use micrun.Sandbox.Core.{At, Sandbox, World}
use micrun.Sandbox.Rules.{IsValid, IsValid-Stable}
use micrun.Sandbox.Calls.{
  Wait, kill_container, pause_container, resume_container, start_container, status_container,
  stop_container, update_container, wait_container_exit, win_resize,
}
use micrun.Prelude.{[], Bool, Bytes, List, ◌∷◌}

-- A request to a sandbox.
pub data Request : Type 0 where
  starts : Request
  stops : (force : Bool) → Request
  deletes : Request
  creates : ContainerConfig → Request
  starts_container pauses resumes kills removes resizes asks : (id : Bytes) → Request
  stops_container : (id : Bytes) (force : Bool) → Request
  updates : (id : Bytes) → LinuxResources → Request
  waits : Wait → (id : Bytes) → Request

module _ {W : Type 0} (world : World W) where
  abbrev at_of : {A : Type 0} → At W × Result A → At W
  at_of r = r.0

  abbrev pub perform : Request → At W → At W
  perform starts at = at_of (start_sandbox world at)
  perform (stops force) at = at_of (stop_sandbox world force at)
  perform deletes at = at_of (delete_sandbox world at)
  perform (creates cfg) at = at_of (create_container world cfg at)
  perform (starts_container id) at = at_of (start_container world id at)
  perform (pauses id) at = at_of (pause_container world id at)
  perform (resumes id) at = at_of (resume_container world id at)
  perform (kills id) at = at_of (kill_container world id at)
  perform (removes id) at = at_of (delete_container world id at)
  perform (resizes id) at = at_of (win_resize world id at)
  perform (asks id) at = at_of (status_container world id at)
  perform (stops_container id force) at = at_of (stop_container world id force at)
  perform (updates id r) at = at_of (update_container world id r at)
  perform (waits ends id) at = at_of (wait_container_exit world ends id at)

  abbrev pub perform_requests : List Request → At W → At W
  perform_requests [] at = at
  perform_requests (r ∷ rs) at = perform_requests rs (perform r at)

module _ {W : Type 0} (world : World W)
    (saved : (id : Bytes) (w : W) → Saved (world.saved_state id w)) where
  perform-IsValid :
      (r : Request) (s : Sandbox) (w : W) → IsValid s → IsValid (perform world r (s, w)).0
  perform-IsValid starts s w v = start_sandbox-Keeps world s w v
  perform-IsValid (stops force) s w v = stop_sandbox-Keeps world force s w v
  perform-IsValid deletes s w v = delete_sandbox-Keeps world s w v
  perform-IsValid (creates cfg) s w v = create_container-Keeps world saved cfg s w v
  perform-IsValid (starts_container id) s w v = start_container-Keeps world IsValid-Stable id s w v
  perform-IsValid (pauses id) s w v = pause_container-Keeps world IsValid-Stable id s w v
  perform-IsValid (resumes id) s w v = resume_container-Keeps world IsValid-Stable id s w v
  perform-IsValid (kills id) s w v = kill_container-Keeps world IsValid-Stable id s w v
  perform-IsValid (removes id) s w v =
      Yields-Keeps IsValid (λ _. Gone id) (delete_container world id (s, w)) (λ _ _ h. h.0)
        (delete_container-Yields world id s w v)
  perform-IsValid (resizes id) s w v = win_resize-Keeps world IsValid-Stable id s w v
  perform-IsValid (asks id) s w v = status_container-Keeps world id s w v
  perform-IsValid (stops_container id force) s w v =
      stop_container-Keeps world IsValid-Stable id force s w v
  perform-IsValid (updates id r) s w v = update_container-Keeps world IsValid-Stable id r s w v
  perform-IsValid (waits ends id) s w v = wait_container_exit-Keeps world ends id s w v

  -- If no file of a container holds the state `creating`: after any sequence of requests to a valid
  -- sandbox, with errors or without, each of its containers has a config in ContainerConfigs that is its
  -- own, the id of its key, a state that is not `creating`, and an exit notifier that is there exactly
  -- while it is neither stopped nor down and that is closed once.
  pub perform_requests-IsValid :
      (requests : List Request) (s : Sandbox) (w : W)
      → IsValid s
      → IsValid (perform_requests world requests (s, w)).0
  perform_requests-IsValid [] s w v = v
  perform_requests-IsValid (r ∷ rs) s w v =
      let at = perform world r (s, w) in
      perform_requests-IsValid rs at.0 at.1 (perform-IsValid r s w v)
