-- ===== src/Shim/Runs/Stuck.antt =====
-- pkg/shim/shim_services.go: a service that hangs, and what becomes of a new one.
use micrun.Prelude.{
  ℕ, List, [], ◌∷◌, Bool, true, false, Option, none, some, Bytes, ◌≡◌, refl, inl, inr, Bool-cases,
  ap, ◌∙◌,
}
use micrun.Keyed.{lookup, remove}
use micrun.Config.Runtime.{RuntimeConfig}
use micrun.Sandbox.Core.{World}
use micrun.Shim.Core.{
  ContainerType, ShimContainer, ShimService, Fault, container_not_found, other, failed, blocked, At,
  Op, go_on, get, lock, unlock_after, with_lock, find,
}
use micrun.Shim.Start.{Streams, start, start_locked, start_task}
use micrun.Shim.Ending.{Ground, kill, kill_locked, deliver}
use micrun.Shim.Deletion.{delete, delete_locked}
use micrun.Shim.Requests.{
  state, state_locked, response, pids, pids_locked, connect, connect_locked, pause, pause_locked,
  pause_found, resume, resume_locked, resume_present, resize_pty, resize_locked, resize_found,
  update, update_locked, stats, stats_locked, shutdown, shut_down_if_empty, close_io, close_stdin,
  has_reader,
}
use micrun.Shim.Creation.{CreateRequest, create, new_service}
use micrun.Shim.Configuration.{ShimSpec, Nursery}
use micrun.Shim.Creation.Blocked.{Fate, refused, waiting, crashing, fate, Comes, create-blocked}
use micrun.Shim.Runs.{
  Request, starts, deletes, asks_state, kills, pauses, resumes, resizes, updates, asks_stats,
  asks_pids, connects, shuts_down, perform,
}

-- A service that has no container and no sandbox.
abbrev pub Empty : ShimService → Type 0
Empty s = (s.containers ≡ []) × (s.sandbox ≡ none)

lookup-empty : (id : Bytes) (s : ShimService) → s.containers ≡ [] → lookup id s.containers ≡ none
unfolding lookup
lookup-empty id s e = ap (lookup id) e

module _ {W : Type 0} where
  with_lock_free :
      {A : Type 0} (m : Op W A) (s : ShimService) (w : W)
      → s.locked ≡ false
      → with_lock m (s, w) ≡ unlock_after (m (record s { locked = true }, w))
  unfolding with_lock lock go_on
  with_lock_free m s w free = simp free

  find-failed :
      {A : Type 0} (id : Bytes) (e : Fault) (s : ShimService) (w : W)
      (next : ShimContainer → Op W A)
      → s.containers ≡ []
      → go_on (find e id (record s { locked = true }, w)) next
        ≡ ((record s { locked = true }, w), failed e)
  unfolding find go_on
  find-failed id e s w next empty = rw (lookup-empty id s empty) refl

  with_find :
      {A : Type 0} (m : Op W A) (e : Fault) (s : ShimService) (w : W)
      → s.locked ≡ false
      → m (record s { locked = true }, w) ≡ ((record s { locked = true }, w), failed e)
      → with_lock m (s, w) ≡ ((record s { locked = false }, w), failed e)
  unfolding unlock_after
  with_find m e s w free h = with_lock_free m s w free ∙ ap unlock_after h

module _ {W : Type 0} (world : World W) (streams : Streams W) (outside : Ground W) where
  -- Who does not get the lock waits.
  perform-blocked :
      (r : Request) (s : ShimService) (w : W)
      → s.locked ≡ true
      → perform world streams outside r (s, w) ≡ ((s, w), blocked)
  unfolding perform start delete state kill pause resume resize_pty update stats pids connect
      shutdown with_lock lock go_on
  perform-blocked (starts id exec_id) s w held = rw held refl
  perform-blocked (deletes id exec_id) s w held = rw held refl
  perform-blocked (asks_state id exec_id) s w held = rw held refl
  perform-blocked (kills id exec_id signal) s w held = rw held refl
  perform-blocked (pauses id) s w held = rw held refl
  perform-blocked (resumes id) s w held = rw held refl
  perform-blocked (resizes id) s w held = rw held refl
  perform-blocked (updates id r) s w held = rw held refl
  perform-blocked (asks_stats total_usec id) s w held = rw held refl
  perform-blocked asks_pids s w held = rw held refl
  perform-blocked connects s w held = rw held refl
  perform-blocked shuts_down s w held = rw held refl

  close_stdin_waits :
      (c : ShimContainer) (at : At W)
      → c.stdin_closed ≡ false
      → has_reader world outside c ≡ false
      → close_stdin world outside true c at ≡ (at, blocked)
  close_stdin_waits c at open_ unread = simp (open_, unread)

  -- For a service whose lock is free and a container of it whose stdinCloser is not closed and of which ioCopy
  -- reads no FIFO as stdin, as that of a container that was not started: CloseIO of its stdin waits with the lock
  -- held, and so does then every request other than Create, CloseIO, Wait, Checkpoint and Exec, also Start, which
  -- would close stdinCloser.
  pub close_io-blocked :
      (id : Bytes) (c : ShimContainer) (s : ShimService) (w : W)
      → s.locked ≡ false
      → lookup id s.containers ≡ some c
      → c.stdin_closed ≡ false
      → has_reader world outside c ≡ false
      → (close_io world outside id [] true (s, w) ≡ ((record s { locked = true }, w), blocked))
        × ((r : Request)
            → perform world streams outside r (record s { locked = true }, w)
              ≡ ((record s { locked = true }, w), blocked))
  unfolding close_io with_lock lock find unlock_after go_on
  close_io-blocked id c s w free there open_ unread = (
    rw (free, there)
        (ap unlock_after (close_stdin_waits c (record s { locked = true }, w) open_ unread)),
    λ r. perform-blocked r (record s { locked = true }) w refl,
  )

  shut_down_if_empty-Empty :
      (cs : List (Bytes × ShimContainer)) (s : ShimService) (w : W)
      → Empty s
      → Empty (shut_down_if_empty world outside cs (s, w)).0.0
  shut_down_if_empty-Empty [] s w e = e
  shut_down_if_empty-Empty (c ∷ cs) s w e = e

  shutdown-Empty :
      (s : ShimService) (w : W)
      → s.locked ≡ false
      → Empty s
      → Empty (shutdown world outside (s, w)).0.0
  unfolding shutdown unlock_after go_on
  shutdown-Empty s w free e =
      rw (with_lock_free get s w free)
        (shut_down_if_empty-Empty s.containers (record s { locked = false }) w e)

  perform-Empty_free :
      (r : Request) (s : ShimService) (w : W)
      → s.locked ≡ false
      → Empty s
      → Empty (perform world streams outside r (s, w)).0.0
  unfolding perform start delete state kill pause resume resize_pty update stats pids connect remove
      go_on
  perform-Empty_free (starts id exec_id) s w free (e, e') =
      rw
        (with_find (start_locked world streams id exec_id) container_not_found s w free
          (find-failed id container_not_found s w (start_task world streams exec_id) e))
        (e, e')
  perform-Empty_free (deletes id exec_id) s w free (e, e') =
      rw (with_lock_free (delete_locked world outside id exec_id) s w free, lookup-empty id s e)
        (rw e refl, e')
  perform-Empty_free (asks_state id exec_id) s w free (e, e') =
      rw
        (with_find (state_locked world outside id exec_id) other s w free
          (find-failed id other s w (response world outside exec_id) e))
        (e, e')
  perform-Empty_free (kills id exec_id signal) s w free (e, e') =
      rw
        (with_find (kill_locked world outside id exec_id signal) container_not_found s w free
          (find-failed id container_not_found s w (deliver world outside signal exec_id) e))
        (e, e')
  perform-Empty_free (pauses id) s w free (e, e') =
      rw
        (with_find (pause_locked world outside id) container_not_found s w free
          (find-failed id container_not_found s w (pause_found world outside id) e))
        (e, e')
  perform-Empty_free (resumes id) s w free (e, e') =
      rw
        (with_find (resume_locked world outside id) container_not_found s w free
          (find-failed id container_not_found s w (resume_present world outside) e))
        (e, e')
  perform-Empty_free (resizes id) s w free (e, e') =
      rw
        (with_find (resize_locked world outside id) container_not_found s w free
          (find-failed id container_not_found s w (resize_found world outside id) e))
        (e, e')
  perform-Empty_free (updates id r) s w free (e, e') =
      rw (with_lock_free (update_locked world outside id r) s w free, lookup-empty id s e) (e, e')
  perform-Empty_free (asks_stats total_usec id) s w free (e, e') =
      rw (with_lock_free (stats_locked world outside total_usec id) s w free, lookup-empty id s e)
        (e, e')
  perform-Empty_free asks_pids s w free (e, e') =
      rw (with_lock_free (pids_locked world outside) s w free) (e, e')
  perform-Empty_free connects s w free (e, e') =
      rw (with_lock_free (connect_locked world outside) s w free) (e, e')
  perform-Empty_free shuts_down s w free e = shutdown-Empty s w free e

  perform-Empty :
      (r : Request) (s : ShimService) (w : W)
      → Empty s
      → Empty (perform world streams outside r (s, w)).0.0
  perform-Empty r s w e = elim (Bool-cases s.locked) [
    | inl held ↦ rw (perform-blocked r s w held) e
    | inr free ↦ perform-Empty_free r s w free e
  ]

-- A request of any kind but CloseIO, Wait, Checkpoint and Exec.
pub data AnyRequest : Type 0 where
  creates : CreateRequest → AnyRequest
  asks : Request → AnyRequest

module _ {W : Type 0} (world : World W) (streams : Streams W) (outside : Ground W)
    (nursery : Nursery W)
    (setup : CreateRequest → ContainerType → ShimSpec → Option RuntimeConfig → Op W Bool) where
  abbrev pub perform_any : AnyRequest → At W → At W
  perform_any (creates r) at = (create nursery setup r at).0
  perform_any (asks r) at = (perform world streams outside r at).0

  abbrev pub perform_all : List AnyRequest → At W → At W
  perform_all [] at = at
  perform_all (r ∷ rs) at = perform_all rs (perform_any r at)

  create-Empty :
      (r : CreateRequest) (s : ShimService) (w : W)
      → Empty s
      → Empty (create nursery setup r (s, w)).0.0
  unfolding create with_lock lock go_on
  create-Empty r s w e = elim (Bool-cases s.locked) [
    | inl held ↦ rw held e
    | inr free ↦ ended (fate nursery r w) (create-blocked nursery setup r s w free)
  ]
    where
      ended : (f : Fate) → Comes nursery setup r s w f → Empty (create nursery setup r (s, w)).0.0
      ended refused (fault, h) = rw h e
      ended waiting h = rw h e
      ended crashing h = rw h e

  perform_all-Empty :
      (requests : List AnyRequest) (s : ShimService) (w : W)
      → Empty s
      → Empty (perform_all requests (s, w)).0
  perform_all-Empty [] s w e = e
  perform_all-Empty (creates r ∷ rs) s w e =
      let at = perform_any (creates r) (s, w) in
      perform_all-Empty rs at.0 at.1 (create-Empty r s w e)
  perform_all-Empty (asks r ∷ rs) s w e =
      let at = perform_any (asks r) (s, w) in
      perform_all-Empty rs at.0 at.1 (perform-Empty world streams outside r s w e)

  -- In no sequence of requests other than CloseIO, Wait, Checkpoint and Exec to a service that New gives does it
  -- come to have a container or a sandbox, whatever the requests to Create are.
  pub new_service-Empty :
      (requests : List AnyRequest) (id : Bytes) (pid : ℕ) (w : W)
      → Empty (perform_all requests (new_service id pid, w)).0
  unfolding new_service
  new_service-Empty requests id pid w =
      perform_all-Empty requests (new_service id pid) w (refl, refl)
