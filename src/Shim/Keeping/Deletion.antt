-- ===== src/Shim/Keeping/Deletion.antt =====
-- pkg/shim: Delete, under the lock.
use micrun.Prelude.{Bool, true, false, ◌&&◌, not, Option, none, some, Bytes, ◌≡◌, refl, arith}
use micrun.Keyed.{lookup}
use micrun.Container.Core.{Result, ok, error}
use micrun.Container.Presence.{is_nil}
use micrun.Sandbox.Core.{World}
use micrun.Sandbox.Members.{delete_container}
use micrun.Sandbox.Calls.{stop_container}
use micrun.Shim.Core.{
  ShimContainer, ShimService, Fault, not_implemented, other, go_on, has_sandbox, ask_sandbox, when,
  stopped, can_be_sandbox, pid_or,
}
use micrun.Shim.Ending.{Ground, end_and_drop, same_status}
use micrun.Shim.Deletion.{
  delete_pod_container, delete_shim_container, unmount, forget, delete_found, delete_looked,
  delete_locked, inner_rootfs, Deleted, idempotent_delete, delete_in_sandbox, unless_not_found,
  stop_first, is_not_found, unmounted,
}
use micrun.Shim.Rules.{Ends, go_on-Ends, if-Ends, done-Ends, failed-Ends, ask_sandbox-Ends}
use micrun.Shim.Keeping.Ending.{end_and_drop-Keeps}
use micrun.Shim.Tidy.{Sound, Held, put-Held, same_containers-Tidy, remove-Tidy}
use micrun.Shim.Keeping.{Never, Keeps, go_on-Keeps, if-Keeps, done-Keeps, failed-Keeps, ask-Keeps}

module _ {W : Type 0} (world : World W) (outside : Ground W) where
  -- A sandbox that is there, beside the rest.
  abbrev There : ShimService → Type 0
  There s = Held true s × (has_sandbox s.sandbox ≡ true)

  unless_not_found-Ends :
      {A : Type 0} (Q : ShimService → Type 0) (r : Result A) (s : ShimService) (w : W)
      → Held true s
      → Q s
      → Ends (Held true) Never (Held true) (λ _. Q) (unless_not_found world outside r (s, w))
  unless_not_found-Ends Q (ok a) s w h q = done-Ends (Held true) Never (Held true) (λ _. Q) tt s w q
  unless_not_found-Ends Q (error e) s w h q =
      if-Ends (Held true) Never (Held true) (λ _. Q) (is_not_found world outside e) _ _
        (λ _. done-Ends (Held true) Never (Held true) (λ _. Q) tt s w q)
        (λ _. failed-Ends (Held true) Never (Held true) (λ _. Q) (Fault.from_sandbox e) s w h)

  stop_first-Ends :
      (c : ShimContainer) (s : ShimService) (w : W)
      → has_sandbox s.sandbox ≡ true
      → Held true s
      → Ends (Held true) Never (Held true) (λ _. There) (stop_first world outside c (s, w))
  stop_first-Ends c s w there h =
      go_on-Ends (Held true) Never (Held true) (λ _. There) (λ _. There)
        (ask_sandbox (stop_container world c.id false) (s, w)) (unless_not_found world outside)
        (ask_sandbox-Ends (Held true) Never (Held true) (λ _. There)
          (stop_container world c.id false) s w there
          (λ sandbox r. ((h.0, same_containers-Tidy s _ refl h.1), refl)))
        (λ r s' w' k. unless_not_found-Ends There r s' w' k.0 k)

  delete_in_sandbox-Keeps :
      (c : ShimContainer) (s : ShimService) (w : W)
      → has_sandbox s.sandbox ≡ true
      → Held true s
      → Keeps (delete_in_sandbox world outside c (s, w))
  delete_in_sandbox-Keeps c s w there h =
      go_on-Ends (Held true) Never (Held true) (λ _. There) (λ _. Held true)
        (when (not (same_status c.status stopped)) (stop_first world outside c) (s, w))
        (λ _ at.
          go_on (ask_sandbox (delete_container world c.id) at) (unless_not_found world outside))
        (if-Ends (Held true) Never (Held true) (λ _. There) (not (same_status c.status stopped)) _ _
          (λ _. stop_first-Ends c s w there h)
          (λ _. done-Ends (Held true) Never (Held true) (λ _. There) tt s w (h, there)))
        (λ _ s' w' k.
          go_on-Keeps (ask_sandbox (delete_container world c.id) (s', w'))
            (unless_not_found world outside) (ask-Keeps (delete_container world c.id) s' w' k.1 k.0)
            (λ r s'' w'' h''. unless_not_found-Ends (Held true) r s'' w'' h'' h''))

  unmounted-Keeps :
      (c : ShimContainer) (s : ShimService) (r : W × Bool)
      → Sound c
      → Held true s
      → Keeps (unmounted world outside c s r)
  unmounted-Keeps c s (w, true) fit h =
      done-Keeps tt _ w (put-Held true (record c { mounted = false }) s fit h)
  unmounted-Keeps c s (w, false) fit h = failed-Keeps Unit other s w h

  forget-Keeps :
      (id : Bytes) (s : ShimService) (w : W) → Held true s → Keeps (forget world outside id (s, w))
  forget-Keeps id s w h = done-Keeps tt _ w (h.0, remove-Tidy id s h.1)

  delete_shim_container-Keeps :
      (c : ShimContainer) (s : ShimService) (w : W)
      → Sound c
      → Held true s
      → Keeps (delete_shim_container world outside c (s, w))
  unfolding delete_shim_container
  delete_shim_container-Keeps c s w fit h =
      go_on-Keeps (delete_pod_container world outside c (s, w))
        (λ _ at. go_on (unmount world outside c at) (λ _. forget world outside c.id))
        (if-Keeps (not (can_be_sandbox c.c_type) && has_sandbox s.sandbox) _ _
          (λ both. delete_in_sandbox-Keeps c s w (ground arith) h) (λ _. done-Keeps tt s w h))
        (λ _ s' w' h'.
          go_on-Keeps (unmount world outside c (s', w')) (λ _. forget world outside c.id)
            (if-Keeps c.mounted _ _
              (λ _.
                unmounted-Keeps c s' (outside.unmount_all (inner_rootfs world outside c) w') fit h')
              (λ _. done-Keeps tt s' w' h'))
            (λ _ s'' w'' h''. forget-Keeps c.id s'' w'' h''))

  delete_found-Keeps :
      (id : Bytes) (c : ShimContainer) (s : ShimService) (w : W)
      → Sound c
      → Held true s
      → Keeps (delete_found world outside id c (s, w))
  unfolding go_on
  delete_found-Keeps id c s w fit h =
      go_on-Keeps (when (can_be_sandbox c.c_type) (end_and_drop world outside) (s, w)) _
        (if-Keeps (can_be_sandbox c.c_type) _ _ (λ _. end_and_drop-Keeps world outside s w h)
          (λ _. done-Keeps tt s w h))
        (λ _ s' w' h'.
          go_on-Keeps (delete_shim_container world outside c (s', w')) _
            (delete_shim_container-Keeps c s' w' fit h')
            (λ _ s'' w'' h''.
              done-Keeps (pid_or s.shim_pid c, c.exit, c.exit_time) _ w''
                (h''.0, same_containers-Tidy s'' _ refl h''.1)))

  idempotent_delete-Keeps :
      (id : Bytes) (s : ShimService) (w : W)
      → Held true s
      → Keeps (idempotent_delete world outside id (s, w))
  unfolding go_on
  idempotent_delete-Keeps id s w h =
      done-Keeps (s.shim_pid, 0, outside.now w) _ w
        (h.0, remove-Tidy id _ (same_containers-Tidy s _ refl h.1))

  pub delete_locked-Keeps :
      (id exec_id : Bytes) (s : ShimService) (w : W)
      → Held true s
      → Keeps (delete_locked world outside id exec_id (s, w))
  delete_locked-Keeps id exec_id s w h =
      looked (lookup id s.containers) (λ c there. h.1.sound id c there)
    where
      looked :
          (o : Option ShimContainer)
          → ((c : ShimContainer) → o ≡ some c → Sound c)
          → Keeps (delete_looked world outside id exec_id o (s, w))
      looked none fit = idempotent_delete-Keeps id s w h
      looked (some c) fit =
          if-Keeps (is_nil exec_id) _ _ (λ _. delete_found-Keeps id c s w (fit c refl) h)
            (λ _. failed-Keeps (Deleted world outside) not_implemented s w h)
