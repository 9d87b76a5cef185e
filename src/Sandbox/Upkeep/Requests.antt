-- ===== src/Sandbox/Upkeep/Requests.antt =====
-- pkg/micantainer/sandbox.go: the operations on one container, for the validity of a sandbox.
use micrun.Container.Making.{winresize}
use micrun.Mica.Control.{client_not_exist}
use micrun.Sandbox.Upkeep.Accounts.{update_resources-Keeps}
use micrun.Sandbox.Pinning.{check_vcpus_pinning}
use micrun.Sandbox.Accounting.{update_resources}
use micrun.Sandbox.Upkeep.Affinity.{check_vcpus_pinning-Keeps}
use micrun.Container.Lifecycle.{kill, pause, resume, start, stop}
use micrun.Sandbox.Core.{
  ◌>>◌, At, Op, Sandbox, World, call, find, go_on, log_error, logged, store_sandbox, when,
}
use micrun.Container.Fit.{KeepsFit}
use micrun.Container.Fit.Operations.{
  kill-Fit, pause-Fit, resume-Fit, start-Fit, stop-Fit, update-Fit, winresize-Fit,
}
use micrun.Resources.{LinuxResources}
use micrun.Container.State.{running, same}
use micrun.Sandbox.Calls.{
  kill_container, kill_if_there, pause_container, resume_container, start_container, stop_container,
  update_and_recalculate, update_container, update_found, updating, win_resize,
}
use micrun.Keyed.{lookup}
use micrun.Prelude.{some, Bool, Bytes, ◌≡◌}
use micrun.Container.Core.{Container, Outside, Result, Step}
use micrun.Sandbox.Rules.{
  Stable, Keeps, go_on-Keeps, if-Keeps, find-Keeps, call-Keeps, store_sandbox-Keeps,
}

module _ {W : Type 0} (world : World W) {I : Sandbox → Type 0} (st : Stable I) where
  -- A container, an operation on it, and what follows.
  pub found_call-Keeps :
      {A B : Type 0} (op : Outside W → Step W A)
      → KeepsFit op
      → (id : Bytes) (next : A → Op W B) (s : Sandbox) (w : W) → ((a : A) → Keeps I (next a))
      → I s
      → I (go_on (find id (s, w)) (λ c at. go_on (call world op c at) next)).0.0
  found_call-Keeps op keeps id next s w step v =
      find-Keeps I id s w (λ c at. go_on (call world op c at) next) v
        λ c there.
          go_on-Keeps I (call world op c (s, w)) next
            (call-Keeps world st op keeps id c s w there v) step

  store-Keeps : Keeps I (store_sandbox world)
  store-Keeps s w v = store_sandbox-Keeps I world s w v

  pub start_container-Keeps : (id : Bytes) → Keeps I (start_container world id)
  unfolding start_container
  start_container-Keeps id s w v =
      found_call-Keeps (λ outside. start outside) start-Fit id _ s w
        (λ _ s' w' v'.
          go_on-Keeps I (store_sandbox world (s', w')) _ (store-Keeps s' w' v')
            (λ _ s'' w'' v''. check_vcpus_pinning-Keeps world st s'' w'' v''))
        v

  pub stop_container-Keeps : (id : Bytes) (force : Bool) → Keeps I (stop_container world id force)
  unfolding stop_container
  stop_container-Keeps id force s w v =
      found_call-Keeps (λ outside. stop outside force) (stop-Fit force) id _ s w
        (λ _ s' w' v'. store-Keeps s' w' v') v

  pub pause_container-Keeps : (id : Bytes) → Keeps I (pause_container world id)
  unfolding pause_container
  pause_container-Keeps id s w v =
      found_call-Keeps (λ outside. pause outside) pause-Fit id _ s w
        (λ _ s' w' v'. store-Keeps s' w' v') v

  pub resume_container-Keeps : (id : Bytes) → Keeps I (resume_container world id)
  unfolding resume_container go_on
  resume_container-Keeps id s w v =
      found_call-Keeps (λ outside. resume outside s.state) (resume-Fit s.state) id _ s w
        (λ _ s' w' v'. store-Keeps s' w' v') v

  pub kill_container-Keeps : (id : Bytes) → Keeps I (kill_container world id)
  unfolding kill_container
  kill_container-Keeps id s w v = find-Keeps I id s w (kill_if_there world) v λ c there.
      if-Keeps I (client_not_exist world.host c.config.id w) _
        (call world (λ outside. kill outside s.state) c (s, w)) (λ _. v)
        (λ _.
          call-Keeps world st (λ outside. kill outside s.state) (kill-Fit s.state) id c s w there v)

  pub win_resize-Keeps : (id : Bytes) → Keeps I (win_resize world id)
  unfolding win_resize
  win_resize-Keeps id s w v =
      if-Keeps I (same s.state running) _ _
        (λ _. find-Keeps I id s w (call world (λ outside. winresize outside)) v (λ c there.
          call-Keeps world st (λ outside. winresize outside) winresize-Fit id c s w there v))
        (λ _. v)

  logged-Keeps : {A : Type 0} (r : At W × Result A) → I r.0.0 → I (logged r).0.0
  logged-Keeps (at, r) v = v

  when-Keeps : (b : Bool) → Keeps I (when b (log_error (update_resources world)))
  when-Keeps b s w v =
      if-Keeps I b _ _
        (λ _. logged-Keeps (update_resources world (s, w)) (update_resources-Keeps world st s w v))
        (λ _. v)

  abbrev after_update : Op W Unit
  after_update = do log_error (check_vcpus_pinning world); log_error (store_sandbox world)

  after_update-Keeps : Keeps I after_update
  after_update-Keeps s w v =
      go_on-Keeps I (log_error (check_vcpus_pinning world) (s, w))
        (λ _. log_error (store_sandbox world))
        (logged-Keeps (check_vcpus_pinning world (s, w)) (check_vcpus_pinning-Keeps world st s w v))
        (λ _ s' w' v'. logged-Keeps (store_sandbox world (s', w')) (store-Keeps s' w' v'))

  update_found-Keeps :
      (r : LinuxResources) (id : Bytes) (c : Container) (s : Sandbox) (w : W)
      → lookup id s.containers ≡ some c
      → I s
      → I (update_found world r c (s, w)).0.0
  unfolding go_on
  update_found-Keeps r id c s w there v =
      go_on-Keeps I (log_error (update_and_recalculate world r s.state c) (s, w))
        (λ _. after_update)
        (logged-Keeps (update_and_recalculate world r s.state c (s, w)) (
          go_on-Keeps I (call world (updating world r s.state) c (s, w)) _
            (call-Keeps world st (updating world r s.state) (update-Fit world.physical s.state r) id
              c s w there v)
            when-Keeps))
        (λ _. after_update-Keeps)

  pub update_container-Keeps :
      (id : Bytes) (r : LinuxResources) → Keeps I (update_container world id r)
  unfolding update_container
  update_container-Keeps id r s w v =
      if-Keeps I s.config.static_resource_mgmt _ _ (λ _. v)
        (λ _.
          find-Keeps I id s w (update_found world r) v
            (λ c there. update_found-Keeps r id c s w there v))
