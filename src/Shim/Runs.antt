-- ===== src/Shim/Runs.antt =====
-- pkg/shim/shim_services.go: sequences of requests to the service.
use micrun.Prelude.{
  ℕ, List, [], ◌∷◌, Bool, true, false, not, Option, none, some, Bytes, ◌≡◌, refl, if◌then◌else◌,
  arith, inl, inr, Bool-cases,
}
use micrun.Keyed.{lookup, remove}
use micrun.Resources.{LinuxResources}
use micrun.Sandbox.Core.{World}
use micrun.Shim.Core.{
  ShimContainer, ShimService, container_not_found, Outcome, done, failed, blocked, panicked, exited,
  At, Op, go_on, get, lock, unlock_after, with_lock, find, write, at_status, pausing, other, pure,
}
use micrun.Shim.Start.{Streams, start, start_locked, start_task}
use micrun.Shim.Ending.{Ground, kill, kill_locked, deliver}
use micrun.Shim.Deletion.{delete, delete_locked}
use micrun.Shim.Requests.{
  state, state_locked, response, pids, pids_locked, connect, connect_locked, pause, pause_locked,
  pause_found, pause_present, resume, resume_locked, resume_present, resize_pty, resize_locked,
  resize_found, update, update_locked, stats, stats_locked, shutdown, shut_down_if_empty,
}
use micrun.Shim.Rules.{Ends, go_on-Ends}
use micrun.Shim.Tidy.{Sound, Tidy, Held, same_containers-Tidy}
use micrun.Shim.Keeping.{
  Never, Keeps, go_on-Keeps, done-Keeps, failed-Keeps, find-Keeps, write-Keeps,
}
use micrun.Shim.Keeping.Start.{start_task-Keeps}
use micrun.Shim.Keeping.Ending.{deliver-Keeps}
use micrun.Shim.Keeping.Deletion.{delete_locked-Keeps}
use micrun.Shim.Keeping.Requests.{
  pause_present-Keeps, resume_present-Keeps, resize_present-Keeps, update_locked-Keeps,
  stats_locked-Keeps,
}
pub mod Stuck

-- The requests that take the lock and wait for nothing else; Create is not one of them.
pub data Request : Type 0 where
  starts deletes asks_state : (id exec_id : Bytes) → Request
  kills : (id exec_id : Bytes) (signal : ℕ) → Request
  pauses resumes resizes : (id : Bytes) → Request
  updates : (id : Bytes) → Option LinuxResources → Request
  asks_stats : (total_usec : ℕ) (id : Bytes) → Request
  asks_pids connects shuts_down : Request

module _ {W : Type 0} where
  -- A service whose lock is free and whose containers are as they should be; a process that has crashed has no
  -- use for its lock.
  abbrev pub Frees : {A : Type 0} → At W × Outcome A → Type 0
  Frees r = Ends (Held false) Never Tidy (λ _. Held false) r

  unlock_after-Frees : {A : Type 0} (r : At W × Outcome A) → Keeps r → Frees (unlock_after r)
  unfolding Ends unlock_after
  unlock_after-Frees ((s, w), done a) h = (refl, same_containers-Tidy s _ refl h.1)
  unlock_after-Frees ((s, w), failed e) h = (refl, same_containers-Tidy s _ refl h.1)
  unlock_after-Frees ((s, w), blocked) h = absurd h
  unlock_after-Frees ((s, w), panicked) h = same_containers-Tidy s _ refl h.1
  unlock_after-Frees ((s, w), exited) h = h.1

  with_lock-Frees :
      {A : Type 0} (m : Op W A) (s : ShimService) (w : W)
      → Held false s
      → ((s' : ShimService) → Held true s' → Keeps (m (s', w)))
      → Frees (with_lock m (s, w))
  unfolding with_lock lock go_on
  with_lock-Frees m s w (free, tidy) keeps = rw free (
      unlock_after-Frees _
        (keeps (record s { locked = true }) (refl, same_containers-Tidy s _ refl tidy)))

  -- A request without its response.
  abbrev pub unanswered : {A : Type 0} → At W × Outcome A → At W × Outcome Unit
  unanswered r = go_on r (λ _ at. (at, done tt))

  unanswered-Frees : {A : Type 0} (r : At W × Outcome A) → Frees r → Frees (unanswered r)
  unfolding Ends go_on
  unanswered-Frees ((s, w), done a) h = h
  unanswered-Frees ((s, w), failed e) h = h
  unanswered-Frees ((s, w), blocked) h = h
  unanswered-Frees ((s, w), panicked) h = h
  unanswered-Frees ((s, w), exited) h = h

module _ {W : Type 0} (world : World W) (streams : Streams W) (outside : Ground W) where
  unfoldable pub perform : Request → Op W Unit
  unfolding start delete state kill pause resume resize_pty update stats pids connect shutdown go_on
  perform (starts id exec_id) at = unanswered (start world streams id exec_id at)
  perform (deletes id exec_id) at = unanswered (delete world outside id exec_id at)
  perform (asks_state id exec_id) at = unanswered (state world outside id exec_id at)
  perform (kills id exec_id signal) at = kill world outside id exec_id signal at
  perform (pauses id) at = pause world outside id at
  perform (resumes id) at = resume world outside id at
  perform (resizes id) at = resize_pty world outside id at
  perform (updates id r) at = update world outside id r at
  perform (asks_stats total_usec id) at = unanswered (stats world outside total_usec id at)
  perform asks_pids at = unanswered (pids world outside at)
  perform connects at = unanswered (connect world outside at)
  perform shuts_down at = shutdown world outside at

  -- The next requests are served unless the service hangs or has gone.
  abbrev pub then_serve : At W × Outcome Unit → Op W Unit → At W × Outcome Unit
  then_serve (at, done _) next = next at
  then_serve (at, failed e) next = next at
  then_serve (at, blocked) next = (at, blocked)
  then_serve (at, panicked) next = (at, panicked)
  then_serve (at, exited) next = (at, exited)

  unfoldable pub serve : List Request → Op W Unit
  unfolding perform
  serve [] at = (at, done tt)
  serve (r ∷ rs) at = then_serve (perform r at) (serve rs)

  shut_down_if_empty-Frees :
      (cs : List (Bytes × ShimContainer)) (s : ShimService) (w : W)
      → Held false s
      → Frees (shut_down_if_empty world outside cs (s, w))
  unfolding Ends
  shut_down_if_empty-Frees [] s w h = same_containers-Tidy s _ refl h.1
  shut_down_if_empty-Frees (c ∷ cs) s w h = h

  shutdown-Frees : (s : ShimService) (w : W) → Held false s → Frees (shutdown world outside (s, w))
  unfolding shutdown with_lock lock unlock_after go_on
  shutdown-Frees s w (free, tidy) = rw free (
      shut_down_if_empty-Frees s.containers (record s { locked = false }) w
        (refl, same_containers-Tidy s _ refl tidy))

  perform-Frees : (r : Request) (s : ShimService) (w : W) → Held false s → Frees (perform r (s, w))
  unfolding perform start delete state kill pause resume resize_pty update stats pids connect
  perform-Frees (starts id exec_id) s w h =
      unanswered-Frees (start world streams id exec_id (s, w)) (
        with_lock-Frees (start_locked world streams id exec_id) s w h (λ s' h'.
          find-Keeps container_not_found id s' w (start_task world streams exec_id) h'
            (λ c s'' w'' fit h''. start_task-Keeps world streams exec_id c s'' w'' fit h'')))
  perform-Frees (deletes id exec_id) s w h =
      unanswered-Frees (delete world outside id exec_id (s, w)) (
        with_lock-Frees (delete_locked world outside id exec_id) s w h
          (λ s' h'. delete_locked-Keeps world outside id exec_id s' w h'))
  perform-Frees (asks_state id exec_id) s w h =
      unanswered-Frees (state world outside id exec_id (s, w)) (
        with_lock-Frees (state_locked world outside id exec_id) s w h (λ s' h'.
          find-Keeps other id s' w (response world outside exec_id) h' (λ c s'' w'' fit h''.
            done-Keeps (record { container = c; pid = s''.shim_pid; exec_id = exec_id }) s'' w''
              h'')))
  perform-Frees (kills id exec_id signal) s w h =
      with_lock-Frees (kill_locked world outside id exec_id signal) s w h (λ s' h'.
        find-Keeps container_not_found id s' w (deliver world outside signal exec_id) h'
          (λ c s'' w'' fit h''. deliver-Keeps world outside signal exec_id c s'' w'' fit h''))
  perform-Frees (pauses id) s w h = with_lock-Frees (pause_locked world outside id) s w h (λ s' h'.
      find-Keeps container_not_found id s' w (pause_found world outside id) h' (λ c s'' w'' fit h''.
        go_on-Keeps (write (at_status pausing c) (s'', w''))
          (λ _. pause_present world outside id (at_status pausing c))
          (write-Keeps (at_status pausing c) s'' w'' fit h'')
          (λ _ s3 w3 h3. pause_present-Keeps world outside id (at_status pausing c) s3 w3 fit h3)))
  perform-Frees (resumes id) s w h =
      with_lock-Frees (resume_locked world outside id) s w h (λ s' h'.
        find-Keeps container_not_found id s' w (resume_present world outside) h'
          (λ c s'' w'' fit h''. resume_present-Keeps world outside c s'' w'' fit h''))
  perform-Frees (resizes id) s w h =
      with_lock-Frees (resize_locked world outside id) s w h (λ s' h'.
        find-Keeps container_not_found id s' w (resize_found world outside id) h'
          (λ c s'' w'' fit h''. resize_present-Keeps world outside id s'' w'' h''))
  perform-Frees (updates id r) s w h =
      with_lock-Frees (update_locked world outside id r) s w h
        (λ s' h'. update_locked-Keeps world outside id r s' w h')
  perform-Frees (asks_stats total_usec id) s w h =
      unanswered-Frees (stats world outside total_usec id (s, w)) (
        with_lock-Frees (stats_locked world outside total_usec id) s w h
          (λ s' h'. stats_locked-Keeps world outside total_usec id s' w h'))
  perform-Frees asks_pids s w h =
      unanswered-Frees (pids world outside (s, w)) (
        with_lock-Frees (pids_locked world outside) s w h (λ s' h'. done-Keeps s'.shim_pid s' w h'))
  perform-Frees connects s w h = unanswered-Frees (connect world outside (s, w)) (
      with_lock-Frees (connect_locked world outside) s w h
        (λ s' h'. done-Keeps (s'.shim_pid, s'.shim_pid) s' w h'))
  perform-Frees shuts_down s w h = shutdown-Frees s w h

  then_serve-Frees :
      (r : At W × Outcome Unit) (next : Op W Unit)
      → Frees r
      → ((s : ShimService) (w : W) → Held false s → Frees (next (s, w)))
      → Frees (then_serve r next)
  unfolding Ends
  then_serve-Frees ((s, w), done a) next h step = step s w h
  then_serve-Frees ((s, w), failed e) next h step = step s w h
  then_serve-Frees ((s, w), blocked) next h step = h
  then_serve-Frees ((s, w), panicked) next h step = h
  then_serve-Frees ((s, w), exited) next h step = h

  -- For a service whose lock is free, whose containers have the ids of their keys, and whose exit channels are
  -- closed where the Once was used: no sequence of requests hangs, if it has no Create, CloseIO, Wait, Checkpoint
  -- and Exec. Unless the process panics or exits, the lock is free at the end; and the containers are as they were
  -- said to be.
  pub serve-Frees :
      (requests : List Request) (s : ShimService) (w : W)
      → Held false s
      → Frees (serve requests (s, w))
  unfolding serve Ends
  serve-Frees [] s w h = h
  serve-Frees (r ∷ rs) s w h =
      then_serve-Frees (perform r (s, w)) (serve rs) (perform-Frees r s w h)
        (λ s' w' h'. serve-Frees rs s' w' h')
