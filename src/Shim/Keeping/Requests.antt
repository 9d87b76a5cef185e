-- ===== src/Shim/Keeping/Requests.antt =====
-- pkg/shim: Pause, Resume, ResizePty, Update and Stats, under the lock.
use micrun.Prelude.{ℕ, true, Option, none, some, Bytes}
use micrun.Keyed.{lookup}
use micrun.Container.Core.{Result, ok, error}
use micrun.Resources.{LinuxResources, no_resources, ensured}
use micrun.Sandbox.Core.{World}
use micrun.Sandbox.Calls.{
  Stats, pause_container, resume_container, win_resize, update_container, stats_container,
}
use micrun.Shim.Core.{
  ShimContainer, ShimService, sandbox_not_found, has_sandbox, ask_sandbox, or_fail, write,
  at_status, running, paused, send, task_paused, task_resumed,
}
use micrun.Shim.Ending.{Ground, ignore}
use micrun.Shim.Requests.{
  paused_or_not, pause_present, resumed_or_not, resume_present, resize_present, update_present,
  update_locked, metrics_or_empty, stats_present, stats_locked,
}
use micrun.Shim.Tidy.{Sound, Held}
use micrun.Shim.Keeping.{
  Keeps, go_on-Keeps, if-Keeps, done-Keeps, failed-Keeps, write-Keeps, send-Keeps, ask-Keeps,
  or_fail-Keeps,
}
use micrun.Shim.Keeping.Ending.{refresh_status-Keeps}

module _ {W : Type 0} (world : World W) (outside : Ground W) where
  paused_or_not-Keeps :
      (c : ShimContainer) (r : Result Unit) (s : ShimService) (w : W)
      → Sound c
      → Held true s
      → Keeps (paused_or_not world outside c r (s, w))
  paused_or_not-Keeps c (ok _) s w fit h =
      go_on-Keeps (write (at_status paused c) (s, w)) (λ _. send (task_paused c.id))
        (write-Keeps (at_status paused c) s w fit h)
        (λ _ s' w' h'. send-Keeps (task_paused c.id) s' w' h')
  paused_or_not-Keeps c (error e) s w fit h = refresh_status-Keeps world outside c s w fit h

  pub pause_present-Keeps :
      (id : Bytes) (c : ShimContainer) (s : ShimService) (w : W)
      → Sound c
      → Held true s
      → Keeps (pause_present world outside id c (s, w))
  pause_present-Keeps id c s w fit h =
      if-Keeps (has_sandbox s.sandbox) _ _
        (λ there.
          go_on-Keeps (ask_sandbox (pause_container world id) (s, w))
            (paused_or_not world outside c) (ask-Keeps (pause_container world id) s w there h)
            (λ r s' w' h'. paused_or_not-Keeps c r s' w' fit h'))
        (λ _. failed-Keeps Unit sandbox_not_found s w h)

  resumed_or_not-Keeps :
      (c : ShimContainer) (r : Result Unit) (s : ShimService) (w : W)
      → Sound c
      → Held true s
      → Keeps (resumed_or_not world outside c r (s, w))
  resumed_or_not-Keeps c (ok _) s w fit h =
      go_on-Keeps (write (at_status running c) (s, w)) (λ _. send (task_resumed c.id))
        (write-Keeps (at_status running c) s w fit h)
        (λ _ s' w' h'. send-Keeps (task_resumed c.id) s' w' h')
  resumed_or_not-Keeps c (error e) s w fit h = refresh_status-Keeps world outside c s w fit h

  pub resume_present-Keeps :
      (c : ShimContainer) (s : ShimService) (w : W)
      → Sound c
      → Held true s
      → Keeps (resume_present world outside c (s, w))
  resume_present-Keeps c s w fit h =
      if-Keeps (has_sandbox s.sandbox) _ _
        (λ there.
          go_on-Keeps (ask_sandbox (resume_container world c.id) (s, w))
            (resumed_or_not world outside c) (ask-Keeps (resume_container world c.id) s w there h)
            (λ r s' w' h'. resumed_or_not-Keeps c r s' w' fit h'))
        (λ _. failed-Keeps Unit sandbox_not_found s w h)

  pub resize_present-Keeps :
      (id : Bytes) (s : ShimService) (w : W)
      → Held true s
      → Keeps (resize_present world outside id (s, w))
  resize_present-Keeps id s w h =
      if-Keeps (has_sandbox s.sandbox) _ _
        (λ there.
          go_on-Keeps (ask_sandbox (win_resize world id) (s, w)) or_fail
            (ask-Keeps (win_resize world id) s w there h) (λ r s' w' h'. or_fail-Keeps r s' w' h'))
        (λ _. failed-Keeps Unit sandbox_not_found s w h)

  pub update_locked-Keeps :
      (id : Bytes) (r : Option LinuxResources) (s : ShimService) (w : W)
      → Held true s
      → Keeps (update_locked world outside id r (s, w))
  update_locked-Keeps id r s w h = present (lookup id s.containers)
    where
      present :
          (o : Option ShimContainer)
          → Keeps (update_present world outside (ensured no_resources r) o (s, w))
      present none = done-Keeps tt s w h
      present (some c) =
          if-Keeps (has_sandbox s.sandbox) _ _
            (λ there.
              go_on-Keeps
                (ask_sandbox (update_container world c.id (ensured no_resources r)) (s, w))
                (ignore world outside)
                (ask-Keeps (update_container world c.id (ensured no_resources r)) s w there h)
                (λ _ s' w' h'. done-Keeps tt s' w' h'))
            (λ _. failed-Keeps Unit sandbox_not_found s w h)

  metrics_or_empty-Keeps :
      (r : Result Stats) (s : ShimService) (w : W)
      → Held true s
      → Keeps (metrics_or_empty world outside r (s, w))
  metrics_or_empty-Keeps (ok stats) s w h = done-Keeps (some stats) s w h
  metrics_or_empty-Keeps (error e) s w h = done-Keeps none s w h

  pub stats_locked-Keeps :
      (total_usec : ℕ) (id : Bytes) (s : ShimService) (w : W)
      → Held true s
      → Keeps (stats_locked world outside total_usec id (s, w))
  stats_locked-Keeps total_usec id s w h = present (lookup id s.containers)
    where
      present :
          (o : Option ShimContainer) → Keeps (stats_present world outside total_usec id o (s, w))
      present none = done-Keeps none s w h
      present (some c) =
          if-Keeps (has_sandbox s.sandbox) _ _
            (λ there.
              go_on-Keeps (ask_sandbox (stats_container world total_usec id) (s, w))
                (metrics_or_empty world outside)
                (ask-Keeps (stats_container world total_usec id) s w there h)
                (λ r s' w' h'. metrics_or_empty-Keeps r s' w' h'))
            (λ _. done-Keeps none s w h)
