-- ===== src/Shim/Keeping/Ending.antt =====
-- pkg/shim: Kill, Delete and the status of a container, under the lock.
use micrun.Prelude.{ℕ, true, ◌||◌, not, Bytes, refl, ◌==◌}
use micrun.Container.Core.{Error, Result, ok, error}
use micrun.Container.Presence.{is_nil}
use micrun.Sandbox.Core.{World}
use micrun.Sandbox.Lifecycle.{stop_sandbox, delete_sandbox}
use micrun.Sandbox.Calls.{kill_container, pause_container, status_container, container_status}
use micrun.Shim.Core.{
  Status, ShimContainer, ShimService, Fault, sandbox_not_found, done, fail, go_on, has_sandbox,
  ask_sandbox, write, at_status, unknown, stopped, pausing, can_be_sandbox, io_exit,
}
use micrun.Shim.Ending.{
  Ground, get_container_status, answered_status, refresh_status, end_sandbox, end_and_drop, killed,
  exit_unknown, log_status, ignore, kill_task, paused_by_signal, pause_by_signal, deliver,
  same_status, sigkill, sigterm, sigstop, sigcont, drop_sandbox,
}
use micrun.Shim.Tidy.{Sound, Held, same_containers-Tidy}
use micrun.Shim.Keeping.{
  Keeps, go_on-Keeps, if-Keeps, done-Keeps, failed-Keeps, write-Keeps, ask-Keeps, ask_twice-Keeps,
  io_exit-Keeps,
}

module _ {W : Type 0} (world : World W) (outside : Ground W) where
  get_container_status-Keeps :
      (id : Bytes) (s : ShimService) (w : W)
      → Held true s
      → Keeps (get_container_status world outside id (s, w))
  unfolding get_container_status
  get_container_status-Keeps id s w h =
      if-Keeps (has_sandbox s.sandbox) _ _
        (λ there.
          go_on-Keeps (ask_sandbox (status_container world id) (s, w))
            (answered_status world outside) (ask-Keeps (status_container world id) s w there h)
            (λ r s' w' h'. done-Keeps _ s' w' h'))
        (λ _. done-Keeps unknown s w h)

  pub refresh_status-Keeps :
      (c : ShimContainer) (s : ShimService) (w : W)
      → Sound c
      → Held true s
      → Keeps (refresh_status world outside c (s, w))
  refresh_status-Keeps c s w fit h =
      go_on-Keeps (get_container_status world outside c.id (s, w))
        (λ status. write (at_status status c)) (get_container_status-Keeps c.id s w h)
        (λ status s' w' h'. write-Keeps (at_status status c) s' w' fit h')

  pub end_and_drop-Keeps :
      (s : ShimService) (w : W) → Held true s → Keeps (end_and_drop world outside (s, w))
  end_and_drop-Keeps s w h =
      if-Keeps (has_sandbox s.sandbox) _ _
        (λ there.
          go_on-Keeps (end_sandbox world outside (s, w)) (λ _. drop_sandbox world outside)
            (ask_twice-Keeps (stop_sandbox world true) (delete_sandbox world)
              (λ _ _ at. (at, done tt)) s w there h (λ _ _ s' w' h'. done-Keeps tt s' w' h'))
            (λ _ s' w' h'. done-Keeps tt _ w' (h'.0, same_containers-Tidy s' _ refl h'.1)))
        (λ _. done-Keeps tt s w h)

  write_and_exit-Keeps :
      (status : Status) (c : ShimContainer) (s : ShimService) (w : W)
      → Sound c
      → Held true s
      → Keeps (go_on (write (at_status status c) (s, w)) (λ _. io_exit (at_status status c)))
  write_and_exit-Keeps status c s w fit h =
      go_on-Keeps (write (at_status status c) (s, w)) (λ _. io_exit (at_status status c))
        (write-Keeps (at_status status c) s w fit h)
        (λ _ s' w' h'. io_exit-Keeps (at_status status c) s' w' h')

  refresh_and_fail-Keeps :
      (e : Error) (c : ShimContainer) (s : ShimService) (w : W)
      → Sound c
      → Held true s
      → Keeps (
          go_on
            (refresh_status world outside c (s, w))
            (λ _. fail {A = Unit {0}} (Fault.from_sandbox e)))
  refresh_and_fail-Keeps e c s w fit h =
      go_on-Keeps (refresh_status world outside c (s, w)) (λ _. fail (Fault.from_sandbox e))
        (refresh_status-Keeps c s w fit h)
        (λ _ s' w' h'. failed-Keeps Unit (Fault.from_sandbox e) s' w' h')

  log_status-Keeps :
      (id : Bytes) (s : ShimService) (w : W)
      → Held true s
      → Keeps (log_status world outside id (s, w))
  unfolding log_status
  log_status-Keeps id s w h =
      if-Keeps (has_sandbox s.sandbox) _ _
        (λ there.
          go_on-Keeps (ask_sandbox (container_status world id) (s, w)) (ignore world outside)
            (ask-Keeps (container_status world id) s w there h)
            (λ r s' w' h'. done-Keeps tt s' w' h'))
        (λ _. done-Keeps tt s w h)

  killed-Keeps :
      (c : ShimContainer) (r : Result Unit) (s : ShimService) (w : W)
      → Sound c
      → Held true s
      → Keeps (killed world outside c r (s, w))
  killed-Keeps c (ok _) s w fit h =
      go_on-Keeps (exit_unknown world outside c (s, w)) (λ _. log_status world outside c.id)
        (write_and_exit-Keeps unknown c s w fit h) (λ _ s' w' h'. log_status-Keeps c.id s' w' h')
  killed-Keeps c (error e) s w fit h = refresh_and_fail-Keeps e c s w fit h

  paused_by_signal-Keeps :
      (c : ShimContainer) (r : Result Unit) (s : ShimService) (w : W)
      → Sound c
      → Held true s
      → Keeps (paused_by_signal world outside c r (s, w))
  paused_by_signal-Keeps c (ok _) s w fit h = done-Keeps tt s w h
  paused_by_signal-Keeps c (error e) s w fit h = refresh_and_fail-Keeps e c s w fit h

  kill_task-Keeps :
      (c : ShimContainer) (s : ShimService) (w : W)
      → Sound c
      → Held true s
      → Keeps (kill_task world outside c (s, w))
  kill_task-Keeps c s w fit h =
      if-Keeps (same_status c.status stopped) _ _ (λ _. done-Keeps tt s w h)
        (λ _.
          if-Keeps (can_be_sandbox c.c_type) _ _
            (λ _.
              go_on-Keeps (end_and_drop world outside (s, w))
                (λ _ at.
                  go_on (write (at_status stopped c) at) (λ _. io_exit (at_status stopped c)))
                (end_and_drop-Keeps s w h)
                (λ _ s' w' h'. write_and_exit-Keeps stopped c s' w' fit h'))
            (λ _.
              if-Keeps (has_sandbox s.sandbox) _ _
                (λ there.
                  go_on-Keeps (ask_sandbox (kill_container world c.id) (s, w))
                    (killed world outside c) (ask-Keeps (kill_container world c.id) s w there h)
                    (λ r s' w' h'. killed-Keeps c r s' w' fit h'))
                (λ _. failed-Keeps Unit sandbox_not_found s w h)))

  pause_by_signal-Keeps :
      (c : ShimContainer) (s : ShimService) (w : W)
      → Sound c
      → Held true s
      → Keeps (pause_by_signal world outside c (s, w))
  pause_by_signal-Keeps c s w fit h =
      if-Keeps (same_status c.status pausing || same_status c.status stopped) _ _
        (λ _. done-Keeps tt s w h)
        (λ _.
          if-Keeps (has_sandbox s.sandbox) _ _
            (λ there.
              go_on-Keeps (ask_sandbox (pause_container world c.id) (s, w))
                (paused_by_signal world outside c)
                (ask-Keeps (pause_container world c.id) s w there h)
                (λ r s' w' h'. paused_by_signal-Keeps c r s' w' fit h'))
            (λ _. failed-Keeps Unit sandbox_not_found s w h))

  pub deliver-Keeps :
      (signal : ℕ) (exec_id : Bytes) (c : ShimContainer) (s : ShimService) (w : W)
      → Sound c
      → Held true s
      → Keeps (deliver world outside signal exec_id c (s, w))
  deliver-Keeps signal exec_id c s w fit h =
      if-Keeps (not (is_nil exec_id)) _ _ (λ _. done-Keeps tt s w h)
        (λ _.
          if-Keeps (signal == sigkill || signal == sigterm) _ _ (λ _. kill_task-Keeps c s w fit h)
            (λ _.
              if-Keeps (signal == sigstop || signal == sigcont) _ _
                (λ _. pause_by_signal-Keeps c s w fit h) (λ _. done-Keeps tt s w h)))
