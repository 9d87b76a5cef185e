-- ===== src/Container/Lifecycle/Failure.antt =====
-- pkg/micantainer/container.go: a client that is not there, and one that does not start.
use micrun.Prelude.{
  ◌≡◌, ◌≢◌, refl, ◌∙◌, ap, [], ◌&&◌, Bytes, Bool, true, false, arith, not, if◌then◌else◌,
}
use micrun.Mica.Control.{client_not_exist}
use micrun.Container.State.{StateString, ready, running, down, transition, allowed}
use micrun.Container.Core.{
  Container, Outside, Error, ok, error, container_not_found, set_container_state, and_then, ask,
  update_exit_notifier, with_state,
}
use micrun.Container.Presence.{
  should_present, is_nil, ensure_client_presence, check_state, first_look, found,
}
use micrun.Container.Lifecycle.{
  start, stop, start_container_client, start_from, then_running, stop_if_failed,
}

is_nil_named : (s : Bytes) → s ≢ [] → is_nil s ≡ false
is_nil_named s h = ground arith

if-false : {A : Type 0} (b : Bool) (t e : A) → b ≡ false → (if b then t else e) ≡ e
if-false true t e h = cc
if-false false t e h = refl

module _ {W : Type 0} (outside : Outside W) where
  check_state-absent :
      (c : Container) (w : W)
      → c.config.id ≢ []
      → c.config.is_infra ≡ false
      → c.state ≡ down
      → client_not_exist outside.host c.config.id w ≡ true
      → check_state outside c w ≡ (c, w, down)
  unfolding check_state
  check_state-absent c w named client is_down absent =
      rw (is_nil_named c.config.id named, client, absent, is_down) refl

  -- A container with an id that is not an infra container, is down and has no socket is not
  -- registered again: the result is ContainerNotFound, and nothing is sent.
  pub ensure_client_presence-absent :
      (c : Container) (w : W)
      → c.config.id ≢ []
      → c.config.is_infra ≡ false
      → c.state ≡ down
      → client_not_exist outside.host c.config.id w ≡ true
      → ensure_client_presence outside c w ≡ (c, w, error container_not_found)
  unfolding ensure_client_presence check_state and_then
  ensure_client_presence-absent c w named client is_down absent =
      let looked = check_state-absent c w named client is_down absent in
      let closed : (should_present outside c && not (client_not_exist outside.host c.config.id w))
          ≡ false =
        rw (client, absent) refl in
      ap (first_look outside) looked ∙ if-false _ _ _ closed ∙ ap (found outside) looked

  set-saved :
      (s : StateString) (c : Container) (w : W)
      → ((d : Container) (v : W) → (outside.save_state d v).1 ≡ true)
      → ((v : W) → (outside.store_sandbox v).1 ≡ true)
      → ((set_container_state outside s c w).2 ≡ ok tt)
        × ((set_container_state outside s c w).0.state ≡ s)
  unfolding set_container_state update_exit_notifier ask and_then
  set-saved s c w saved stored = (
    rw
        (
          saved (update_exit_notifier s (with_state s c)) w,
          stored (outside.save_state (update_exit_notifier s (with_state s c)) w).0,
        )
        refl,
    ground arith,
  )

  -- A start of a ready container, not an infra container, whose client does not start: if the files
  -- are written, there is no error, and the state is running.
  pub start-failed :
      (c c' : Container) (w w' : W) (e : Error)
      → c.config.is_infra ≡ false
      → ensure_client_presence outside c w ≡ (c, w, ok ready)
      → c.state ≡ ready
      → start_container_client outside c w ≡ (c', w', error e)
      → ((d : Container) (v : W) → (outside.save_state d v).1 ≡ true)
      → ((v : W) → (outside.store_sandbox v).1 ≡ true)
      → ((start outside c w).2 ≡ ok tt) × ((start outside c w).0.state ≡ running)
  unfolding start and_then transition allowed
  start-failed c c' w w' e client here is_ready failed saved stored =
      let r = stop outside true c' w' in
      let into_start = ap (λ r. and_then r (start_from outside)) here in
      let guards : (not (transition c.state ready running)) ≡ false = rw is_ready refl in
      let into_client = if-false c.config.is_infra _ _ client ∙ if-false _ _ _ guards in
      let after = ap (λ r. then_running outside (stop_if_failed outside r)) failed in
      rw (into_start ∙ into_client ∙ after) (set-saved running r.0 r.1 saved stored)
