-- ===== src/Sandbox/Upkeep/Status.antt =====
-- pkg/micantainer/sandbox.go: StatusContainer and WaitContainerExit, for the validity of a sandbox.
use micrun.Sandbox.Upkeep.Accounts.{look-Keeps}
use micrun.Sandbox.Rules.Loops.{Changed}
use micrun.Container.Fit.{Fit, changed-Fit}
use micrun.Container.Fit.Operations.{ensure_client_presence-Fit}
use micrun.Sandbox.Accounting.{look}
use micrun.Container.Presence.{ensure_client_presence, is_nil}
use micrun.Sandbox.Rules.Results.{go_on-Yields, keeps-Yields, Yields-Keeps}
use micrun.Container.Core.{update_exit_notifier, Container, ok}
use micrun.Keyed.{bytes_eq_self, lookup}
use micrun.Sandbox.Core.{call, find, Op, Sandbox, World, ◌>>=◌, ◌>>◌}
use micrun.Container.State.{down, StateString, same, stopped}
use micrun.Sandbox.Rules.{
  call-Keeps, find-Keeps, settle-Keeps, IsValid, IsValid-Stable, Keeps, go_on-Keeps, if-Keeps,
}
use micrun.Sandbox.Calls.{
  closed, done, notifier_for, status_of_found, wait_unless_stopped, waited, Wait, status_container,
  unless_down, wait_container_exit,
}
use micrun.Sandbox.Outcome.{Looks, look-Yields}
use micrun.Prelude.{Option, none, subst, sym, ◌∙◌, Bytes, false, inl, inr, some, true, ◌≡◌, refl}

module _ {W : Type 0} (world : World W) where
  abbrev state_of : Container → Op W StateString
  state_of c = do state ← look world c; unless_down world state

  abbrev status_after : Bytes → Op W StateString
  status_after id = do c ← find id; state_of c

  status_of_found-Keeps :
      (id : Bytes) (o : Option Container) (s : Sandbox) (w : W)
      → lookup id s.containers ≡ o
      → IsValid s
      → IsValid (status_of_found world o (s, w)).0.0
  status_of_found-Keeps id none s w e v = v
  status_of_found-Keeps id (some c) s w e v =
      go_on-Keeps IsValid (call world (λ outside. ensure_client_presence outside) c (s, w))
        (λ _. status_after c.config.id)
        (call-Keeps world IsValid-Stable (λ outside. ensure_client_presence outside)
          ensure_client_presence-Fit id c s w e v)
        (λ _ s' w' v'. find-Keeps IsValid c.config.id s' w' state_of v' (λ c' there.
          go_on-Keeps IsValid (look world c' (s', w')) (unless_down world)
            (look-Keeps world IsValid-Stable c.config.id c' s' w' there v')
            (λ state s'' w'' v''.
              if-Keeps IsValid (same state down) _ ((s'', w''), ok state) (λ _. v'') (λ _. v''))))

  pub status_container-Keeps : (id : Bytes) → Keeps IsValid (status_container world id)
  unfolding status_container
  status_container-Keeps id s w v =
      if-Keeps IsValid (is_nil id) _ _ (λ _. v)
        (λ _. status_of_found-Keeps id (lookup id s.containers) s w refl v)

  -- A container that is found after a look is in the state that was seen.
  seen :
      (state : StateString) (id : Bytes) (c : Container) (s s' : Sandbox)
      → lookup id s'.containers ≡ some c
      → Changed (Looks world state) id s s'
      → c.state ≡ state
  seen state id c s s' there h = elim (h id c there) [
    | inl (equal, e) ↦ e
    | inr (apart, old) ↦ absurd (let same_id : true ≡ false = sym (bytes_eq_self id) ∙ apart in cc)
  ]

  notifier-Fit :
      (state : StateString) (id : Bytes) (c : Container)
      → c.state ≡ state
      → Fit id c
      → Fit id (update_exit_notifier state c)
  notifier-Fit state id c e h =
      subst (λ z. Fit id (update_exit_notifier z c)) e (changed-Fit c.state id c h h.created)

  waited-Keeps : (ends : Wait) → Keeps IsValid (waited world ends)
  waited-Keeps done s w v = v
  waited-Keeps closed s w v = v

  abbrev notify_and_wait : Wait → StateString → Container → Op W Unit
  notify_and_wait ends state c = do call world (notifier_for world state) c; waited world ends

  abbrev look_and_wait : Wait → Bytes → Container → Op W Unit
  look_and_wait ends id c = do state ← look world c; wait_unless_stopped world ends id state

  wait_seen-Keeps :
      (ends : Wait) (id : Bytes) (state : StateString) (s s' : Sandbox) (w : W)
      → IsValid s'
      → Changed (Looks world state) id s s'
      → IsValid (wait_unless_stopped world ends id state (s', w)).0.0
  unfolding call
  wait_seen-Keeps ends id state s s' w v h =
      if-Keeps IsValid (same state down) _ _ (λ _. v)
        (λ _.
          if-Keeps IsValid (same state stopped) _ _ (λ _. v)
            (λ _. find-Keeps IsValid id s' w (notify_and_wait ends state) v (λ c there.
              go_on-Keeps IsValid (call world (notifier_for world state) c (s', w))
                (λ _. waited world ends)
                (settle-Keeps world IsValid-Stable s' id c (update_exit_notifier state c, w, ok tt)
                  there (notifier-Fit state id c (seen state id c s s' there h) (v.fit id c there))
                  v)
                (λ _. waited-Keeps ends))))

  pub wait_container_exit-Keeps :
      (ends : Wait) (id : Bytes) → Keeps IsValid (wait_container_exit world ends id)
  unfolding wait_container_exit
  wait_container_exit-Keeps ends id s w v =
      find-Keeps IsValid id s w (look_and_wait ends id) v (λ c there.
        Yields-Keeps IsValid (λ _ s'. IsValid s') (look_and_wait ends id c (s, w)) (λ _ _ h. h)
          (go_on-Yields IsValid (λ state s'. IsValid s' × Changed (Looks world state) id s s')
            (λ _ s'. IsValid s') (look world c (s, w)) (wait_unless_stopped world ends id)
            (look-Yields world IsValid-Stable id c s w there v)
            (λ state s' w' h.
              keeps-Yields IsValid (wait_unless_stopped world ends id state (s', w'))
                (wait_seen-Keeps ends id state s s' w' h.0 h.1))))
