-- ===== src/Container/Lifecycle/Attendance.antt =====
-- pkg/micantainer/container.go: the rules applied to ensureClientPresence.
use micrun.Prelude.{◌≡◌, ◌∙◌, false, not, arith, ◌&&◌}
use micrun.Container.State.{StateString, ready, down, same}
use micrun.Container.State.Table.{same_eq}
use micrun.Container.Core.{Container, container_not_found, Result, ok, error}
use micrun.Container.Presence.{
  check_state, ensure_client_presence, absent, found, second_look, first_look, should_present,
}
use micrun.Container.Lifecycle.Rules.{
  Kept, Sound, Ends, At, Looked, and_then-Ends, error-Ends, ok-Ends, if-Ends, register_client-Ends,
  check_state-Looked,
}

module _ {W : Type 0} (k : Kept W) where
  -- The client is there, in a state other than down.
  abbrev pub Present : StateString → Container → Type 0
  Present s c = At k s c × (same s down ≡ false)

  found-Ends : (r : Container × W × StateString) → Looked k r → Ends k Present (found k.outside r)
  unfolding Looked
  found-Ends (c, w, s) h =
      if-Ends k Present (same s down) (c, w, error container_not_found) (c, w, ok s)
        (λ _. error-Ends k Present container_not_found c w h.0)
        (λ alive. ok-Ends k Present s c w (h, alive))

  second_look-Ends :
      (s : StateString) (r : Container × W × Result Unit)
      → Ends k (λ _. At k s) r
      → Ends k Present (second_look k.outside r)
  second_look-Ends s r h =
      and_then-Ends k (λ _. At k s) Present r _ h
        (λ _ c w h'. found-Ends (check_state k.outside c w) (check_state-Looked k c w h'.0))

  first_look-Ends :
      (r : Container × W × StateString) → Looked k r → Ends k Present (first_look k.outside r)
  unfolding Looked
  first_look-Ends (c, w, s) h =
      if-Ends k Present (not (same s down)) (c, w, ok s) _
        (λ alive. ok-Ends k Present s c w (h, ground arith))
        (λ dead.
          let is_down : c.state ≡ down = h.1 ∙ same_eq s down (ground arith) in
          if-Ends k Present (should_present k.outside c && not (absent k.outside c w)) _ _
            (λ _. second_look-Ends ready _ (register_client-Ends k c w (h.0, is_down)))
            (λ _. second_look-Ends down _ (ok-Ends k (λ _. At k down) tt c w (h.0, is_down))))

  pub ensure_client_presence-Ends :
      (c : Container) (w : W) → Sound k c → Ends k Present (ensure_client_presence k.outside c w)
  unfolding ensure_client_presence
  ensure_client_presence-Ends c w h = first_look-Ends _ (check_state-Looked k c w h)
