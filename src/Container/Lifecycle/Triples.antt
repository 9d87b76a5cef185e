-- ===== src/Container/Lifecycle/Triples.antt =====
-- pkg/micantainer/container.go: the rules applied to start and stop.
use micrun.Prelude.{◌≡◌, refl, ◌∙◌, Bool, true, false, not, arith, ◌==◌, ◌||◌, ◌&&◌, leb}
use micrun.Resources.{memory_limit_mb}
use micrun.Pedestal.Essential.{is_xen}
use micrun.Mica.Executor.{Executor, current_max_mem}
use micrun.Mica.Control.{start_client, stop_client}
use micrun.Container.State.{
  StateString, ready, running, stopped, creating, paused, down, same, transition, allowed,
}
use micrun.Container.State.Table.{same_eq}
use micrun.Container.Core.{Container, failed, refused, Result, ok, error, set_container_state}
use micrun.Container.Lifecycle.{
  setup_memory, start_container_client, do_stop, stop, start, from_executor, stop_unless_stopped,
  stop_if_failed, then_running, may_start, start_infra, start_from, raise_memory,
}
use micrun.Container.Lifecycle.Attendance.{Present, ensure_client_presence-Ends}
use micrun.Container.Lifecycle.Rules.{
  Move, along, stay, Kept, Sound, Ends, Any, At, Looked, and_then-Ends, ask-Ends, error-Ends,
  ok-Ends, if-Ends, set-Ends, check_state-Looked,
}

pub to_stopped : (s : StateString) → Move s stopped
unfolding allowed
to_stopped creating = along refl
to_stopped ready = along refl
to_stopped running = along refl
to_stopped paused = along refl
to_stopped stopped = stay
to_stopped down = along refl

pub to_running : (s : StateString) → same s creating ≡ false → Move s running
unfolding allowed
to_running creating h = absurd (ground arith)
to_running ready h = along refl
to_running running h = stay
to_running paused h = along refl
to_running stopped h = along refl
to_running down h = along refl

module _ {W : Type 0} (k : Kept W) where
  from_executor-Ends :
      (s : StateString) (c : Container) (r : W × Executor × Bool)
      → At k s c
      → Ends k (λ _. At k s) (from_executor k.outside c r)
  unfolding Ends
  from_executor-Ends s c (w, me, true) (h, e) =
      (record { holds = k.recorded me c h.holds; named = h.named; created = h.created }, e)
  from_executor-Ends s c (w, me, false) (h, e) = record {
    holds = k.recorded me c h.holds;
    named = h.named;
    created = h.created;
  }

  setup_memory-Ends :
      (s : StateString) (c : Container) (w : W)
      → At k s c
      → Ends k (λ _. At k s) (setup_memory k.outside c w)
  unfolding setup_memory
  setup_memory-Ends s c w h =
      let limit = memory_limit_mb c.config in
      let raised = raise_memory k.outside limit c.me w in
      if-Ends k (λ _. At k s)
        (c.config.is_infra
          || not (is_xen k.outside.host.ped)
          || limit == 0
          || (current_max_mem c.me == limit && leb limit c.me.memory_threshold_mb))
        (c, w, ok tt) (from_executor k.outside c raised) (λ _. ok-Ends k (λ _. At k s) tt c w h)
        (λ _. from_executor-Ends s c raised h)

  weaken :
      (s : StateString) (r : Container × W × Result Unit)
      → Ends k (λ _. At k s) r
      → Ends k (Any k) r
  unfolding Ends
  weaken s (c, w, ok a) h = h.0
  weaken s (c, w, error e) h = h

  start_container_client-Ends :
      (c : Container) (w : W) → Sound k c → Ends k (Any k) (start_container_client k.outside c w)
  unfolding start_container_client
  start_container_client-Ends c w h =
      and_then-Ends k (Present k) (Any k) _ _ (ensure_client_presence-Ends k c w h) (λ s c' w' p.
        and_then-Ends k (λ _. At k s) (Any k) _ _
          (ask-Ends k (λ _. At k s) failed (start_client k.outside.host c'.config.id) c' w' p.0.0
            p.0)
          (λ _ c'' w'' h''. weaken s _ (setup_memory-Ends s c'' w'' h'')))

  stop_unless_stopped-Ends :
      (force : Bool) (r : Container × W × StateString)
      → Looked k r
      → Ends k (Any k) (stop_unless_stopped k.outside force r)
  unfolding Looked
  stop_unless_stopped-Ends force (c, w, s) (h, e) =
      if-Ends k (Any k) (same s stopped) (c, w, ok tt) _ (λ _. ok-Ends k (Any k) tt c w h)
        (λ _.
          if-Ends k (Any k) _ (c, w, error refused) _ (λ _. error-Ends k (Any k) refused c w h)
            (λ _. ask-Ends k (Any k) failed (stop_client k.outside.host c.config.id) c w h h))

  pub do_stop-Ends :
      (force : Bool) (c : Container) (w : W)
      → Sound k c
      → Ends k (Any k) (do_stop k.outside force c w)
  unfolding do_stop
  do_stop-Ends force c w h =
      if-Ends k (Any k) c.config.is_infra _ _
        (λ _.
          if-Ends k (Any k) c.infra_cmd _ (c, w, ok tt)
            (λ _. ask-Ends k (Any k) failed k.outside.terminate c w h h)
            (λ _. ok-Ends k (Any k) tt c w h))
        (λ _. stop_unless_stopped-Ends force _ (check_state-Looked k c w h))

  pub set_stopped-Ends :
      (c : Container) (w : W)
      → Sound k c
      → Ends k (λ _. At k stopped) (set_container_state k.outside stopped c w)
  set_stopped-Ends c w h = set-Ends k stopped c w h (to_stopped c.state) refl

  pub set_running-Ends :
      (c : Container) (w : W)
      → Sound k c
      → Ends k (λ _. At k running) (set_container_state k.outside running c w)
  set_running-Ends c w h = set-Ends k running c w h (to_running c.state h.created) refl

  pub stop-Ends :
      (force : Bool) (c : Container) (w : W)
      → Sound k c
      → Ends k (λ _. At k stopped) (stop k.outside force c w)
  unfolding stop
  stop-Ends force c w h =
      and_then-Ends k (Present k) (λ _. At k stopped) _ _ (ensure_client_presence-Ends k c w h)
        (λ s c' w' p.
          and_then-Ends k (Any k) (λ _. At k stopped) _ _ (do_stop-Ends force c' w' p.0.0)
            (λ _ c'' w'' h''. set_stopped-Ends c'' w'' h''))

  pub Ends-Sound :
      {A : Type 0} (Q : A → Container → Type 0) (r : Container × W × Result A)
      → ((a : A) (c : Container) → Q a c → Sound k c)
      → Ends k Q r
      → Sound k r.0
  unfolding Ends
  Ends-Sound Q (c, w, ok a) weaker h = weaker a c h
  Ends-Sound Q (c, w, error e) weaker h = h

  stop_if_failed-Sound :
      (r : Container × W × Result Unit) → Ends k (Any k) r → Sound k (stop_if_failed k.outside r).0
  unfolding Ends
  stop_if_failed-Sound (c, w, ok a) h = h
  stop_if_failed-Sound (c, w, error e) h =
      Ends-Sound (λ _. At k stopped) (stop k.outside true c w) (λ _ c' h'. h'.0)
        (stop-Ends true c w h)

  then_running-Ends :
      (r : Container × W) → Sound k r.0 → Ends k (λ _. At k running) (then_running k.outside r)
  then_running-Ends (c, w) h = set_running-Ends c w h

  start_infra-Ends :
      (s : StateString) (c : Container) (w : W)
      → At k s c
      → Ends k (λ _. At k running) (start_infra k.outside s c w)
  start_infra-Ends s c w (h, e) =
      if-Ends k (λ _. At k running) (same s running) (c, w, ok tt) _
        (λ is. ok-Ends k (λ _. At k running) tt c w (h, e ∙ same_eq s running is))
        (λ _.
          if-Ends k (λ _. At k running) _ (c, w, error refused) _
            (λ _. error-Ends k (λ _. At k running) refused c w h) (λ _. set_running-Ends c w h))

  start_from-Ends :
      (s : StateString) (c : Container) (w : W)
      → Present k s c
      → Ends k (λ _. At k running) (start_from k.outside s c w)
  start_from-Ends s c w (h, _) =
      let started = stop_if_failed k.outside (start_container_client k.outside c w) in
      if-Ends k (λ _. At k running) c.config.is_infra _ _ (λ _. start_infra-Ends s c w h)
        (λ _.
          if-Ends k (λ _. At k running)
            (same s running || not (may_start k.outside s) || not (transition c.state s running))
            (c, w, error refused) (then_running k.outside started)
            (λ _. error-Ends k (λ _. At k running) refused c w h.0)
            (λ _.
              then_running-Ends started
                (stop_if_failed-Sound _ (start_container_client-Ends c w h.0))))

  pub start-Ends :
      (c : Container) (w : W) → Sound k c → Ends k (λ _. At k running) (start k.outside c w)
  unfolding start
  start-Ends c w h =
      and_then-Ends k (Present k) (λ _. At k running) _ _ (ensure_client_presence-Ends k c w h)
        (λ s c' w' p. start_from-Ends s c' w' p)
