-- ===== src/Container/Lifecycle/Switches.antt =====
-- pkg/micantainer/container.go: the rules applied to kill, pause and resume.
use micrun.Prelude.{◌≡◌, refl, ◌∙◌, true, not, arith, if◌then◌else◌, ◌&&◌}
use micrun.Mica.Control.{start_client}
use micrun.Container.State.{StateString, running, stopped, paused, same, allowed}
use micrun.Container.State.Table.{same_eq}
use micrun.Container.Core.{
  Container, refused, micad_op_failed, error, and_then, ask, set_container_state,
}
use micrun.Container.Lifecycle.{kill, pause, resume, kill_client, pause_from, resume_from}
use micrun.Container.Lifecycle.Attendance.{Present, ensure_client_presence-Ends}
use micrun.Container.Lifecycle.Rules.{
  Move, along, Kept, Sound, Ends, Any, At, and_then-Ends, ask-Ends, error-Ends, if-Ends, set-Ends,
}
use micrun.Container.Lifecycle.Triples.{do_stop-Ends, set_stopped-Ends, set_running-Ends}

from_running : (s : StateString) → s ≡ running → Move s paused
unfolding allowed
from_running s e = along (rw e refl)

module _ {W : Type 0} (k : Kept W) where
  kill_client-Ends :
      (c : Container) (w : W) → Sound k c → Ends k (λ _. At k stopped) (kill_client k.outside c w)
  kill_client-Ends c w h =
      if-Ends k (λ _. At k stopped) _ _ _ (λ _. set_stopped-Ends k c w h)
        (λ _.
          and_then-Ends k (Any k) (λ _. At k stopped) _ _ (do_stop-Ends k true c w h)
            (λ _ c' w' h'. set_stopped-Ends k c' w' h'))

  pub kill-Ends :
      (sandbox : StateString) (c : Container) (w : W)
      → Sound k c
      → Ends k (λ _. At k stopped) (kill k.outside sandbox c w)
  unfolding kill
  kill-Ends sandbox c w h =
      if-Ends k (λ _. At k stopped) _ (c, w, error refused) _
        (λ _. error-Ends k (λ _. At k stopped) refused c w h)
        (λ _.
          and_then-Ends k (Present k) (λ _. At k stopped) _ _ (ensure_client_presence-Ends k c w h)
            (λ s c' w' p. kill_client-Ends c' w' p.0.0))

  pause_from-Ends :
      (s : StateString) (c : Container) (w : W)
      → Present k s c
      → Ends k (λ _. At k paused) (pause_from k.outside s c w)
  unfolding allowed
  pause_from-Ends s c w (h, _) =
      if-Ends k (λ _. At k paused) (not (same s running)) (c, w, error refused) _
        (λ _. error-Ends k (λ _. At k paused) refused c w h.0)
        (λ is.
          let is_running : c.state ≡ running = h.1 ∙ same_eq s running (ground arith) in
          if-Ends k (λ _. At k paused) c.config.is_infra _ _
            (λ _. set-Ends k paused c w h.0 (from_running c.state is_running) refl)
            (λ _.
              and_then-Ends k (λ _. At k running) (λ _. At k paused) _ _
                (ask-Ends k (λ _. At k running) micad_op_failed _ c w h.0 (h.0, is_running))
                (λ _ c' w' h'. set-Ends k paused c' w' h'.0 (from_running c'.state h'.1) refl)))

  pub pause-Ends :
      (c : Container) (w : W) → Sound k c → Ends k (λ _. At k paused) (pause k.outside c w)
  unfolding pause
  pause-Ends c w h =
      and_then-Ends k (Present k) (λ _. At k paused) _ _ (ensure_client_presence-Ends k c w h)
        (λ s c' w' p. pause_from-Ends s c' w' p)

  resume_from-Ends :
      (sandbox s : StateString) (c : Container) (w : W)
      → Present k s c
      → Ends k (λ _. At k running) (resume_from k.outside sandbox s c w)
  resume_from-Ends sandbox s c w (h, _) =
      let restart =
        and_then (ask micad_op_failed (start_client k.outside.host c.config.id) c w)
          (λ _. set_container_state k.outside running) in
      if-Ends k (λ _. At k running) (not (same s paused) && not (same sandbox stopped))
        (c, w, error refused)
        (if c.config.is_infra then set_container_state k.outside running c w else restart)
        (λ _. error-Ends k (λ _. At k running) refused c w h.0)
        (λ _.
          if-Ends k (λ _. At k running) c.config.is_infra _ restart
            (λ _. set_running-Ends k c w h.0)
            (λ _.
              and_then-Ends k (Any k) (λ _. At k running) _ _
                (ask-Ends k (Any k) micad_op_failed (start_client k.outside.host c.config.id) c w
                  h.0 h.0)
                (λ _ c' w' h'. set_running-Ends k c' w' h')))

  pub resume-Ends :
      (sandbox : StateString) (c : Container) (w : W)
      → Sound k c
      → Ends k (λ _. At k running) (resume k.outside sandbox c w)
  unfolding resume
  resume-Ends sandbox c w h =
      and_then-Ends k (Present k) (λ _. At k running) _ _ (ensure_client_presence-Ends k c w h)
        (λ s c' w' p. resume_from-Ends sandbox s c' w' p)
