-- ===== src/Container/Lifecycle/Outcome.antt =====
-- pkg/micantainer/container.go: the states that the operations leave.
use micrun.Prelude.{◌≡◌, ◌≢◌, [], Bool, false}
use micrun.Container.State.{StateString, same, creating, running, stopped, paused}
use micrun.Container.Core.{Container, Outside, Result, ok, error}
use micrun.Container.Lifecycle.{start, stop, kill, pause, resume}
use micrun.Container.Lifecycle.Rules.{Kept, Sound, Ends, At}
use micrun.Container.Lifecycle.Triples.{start-Ends, stop-Ends}
use micrun.Container.Lifecycle.Switches.{kill-Ends, pause-Ends, resume-Ends}

-- The state of a container, if there was no error.
abbrev pub Leaves : {W : Type 0} → StateString → Container × W × Result Unit → Type 0
Leaves s (c, w, ok _) = c.state ≡ s
Leaves s (c, w, error _) = Unit

abbrev nothing : {W : Type 0} → Outside W → Kept W
nothing outside = record {
  outside = outside;
  Holds = λ _. Unit;
  moved = λ _ _ _ _. tt;
  recorded = λ _ _ _. tt;
}

module _ {W : Type 0} (outside : Outside W) where
  Ends-Leaves :
      (s : StateString) (r : Container × W × Result Unit)
      → Ends (nothing outside) (λ _. At (nothing outside) s) r
      → Leaves s r
  unfolding Ends
  Ends-Leaves s (c, w, ok a) h = h.1
  Ends-Leaves s (c, w, error e) h = tt

  -- For a container with an id whose state is not `creating`, an operation that gives no error
  -- leaves the state that it stands for.
  pub lifecycle-Leaves :
      (force : Bool) (sandbox : StateString) (c : Container) (w : W)
      → c.config.id ≢ []
      → same c.state creating ≡ false
      → Leaves running (start outside c w)
        × Leaves stopped (stop outside force c w)
        × Leaves stopped (kill outside sandbox c w)
        × Leaves paused (pause outside c w)
        × Leaves running (resume outside sandbox c w)
  lifecycle-Leaves force sandbox c w named created =
      let k = nothing outside in
      let h : Sound k c = record { holds = tt; named = named; created = created } in
      (
        Ends-Leaves running (start outside c w) (start-Ends k c w h),
        Ends-Leaves stopped (stop outside force c w) (stop-Ends k force c w h),
        Ends-Leaves stopped (kill outside sandbox c w) (kill-Ends k sandbox c w h),
        Ends-Leaves paused (pause outside c w) (pause-Ends k c w h),
        Ends-Leaves running (resume outside sandbox c w) (resume-Ends k sandbox c w h),
      )
