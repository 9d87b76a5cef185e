-- ===== src/Container/Lifecycle/Runs.antt =====
-- pkg/micantainer/container.go: sequences of operations on a container, with errors or without.
use micrun.Prelude.{List, [], ◌∷◌, Bool}
use micrun.Container.State.{StateString, running, stopped, paused}
use micrun.Container.Core.{Container, Outside, Result}
use micrun.Container.Lifecycle.{start, stop, kill, pause, resume}
use micrun.Container.Lifecycle.Rules.{Kept, Sound, At}
use micrun.Container.Lifecycle.Triples.{start-Ends, stop-Ends, Ends-Sound}
use micrun.Container.Lifecycle.Switches.{kill-Ends, pause-Ends, resume-Ends}

-- A call; kill and resume find the sandbox in some state.
pub data Call : Type 0 where
  starting : Call
  stopping : (force : Bool) → Call
  killing : (sandbox : StateString) → Call
  pausing : Call
  resuming : (sandbox : StateString) → Call

abbrev without_result : {W A : Type 0} → Container × W × Result A → Container × W
without_result r = (r.0, r.1)

module _ {W : Type 0} (outside : Outside W) where
  abbrev pub perform : Call → Container → W → Container × W
  perform starting c w = without_result (start outside c w)
  perform (stopping force) c w = without_result (stop outside force c w)
  perform (killing sandbox) c w = without_result (kill outside sandbox c w)
  perform pausing c w = without_result (pause outside c w)
  perform (resuming sandbox) c w = without_result (resume outside sandbox c w)

  abbrev pub perform_all : List Call → Container × W → Container × W
  perform_all [] at = at
  perform_all (call ∷ calls) (c, w) = perform_all calls (perform call c w)

module _ {W : Type 0} (k : Kept W) where
  pub perform-Sound :
      (call : Call) (c : Container) (w : W) → Sound k c → Sound k (perform k.outside call c w).0
  perform-Sound starting c w h =
      Ends-Sound k (λ _. At k running) (start k.outside c w) (λ _ c' h'. h'.0) (start-Ends k c w h)
  perform-Sound (stopping force) c w h =
      Ends-Sound k (λ _. At k stopped) (stop k.outside force c w) (λ _ c' h'. h'.0)
        (stop-Ends k force c w h)
  perform-Sound (killing sandbox) c w h =
      Ends-Sound k (λ _. At k stopped) (kill k.outside sandbox c w) (λ _ c' h'. h'.0)
        (kill-Ends k sandbox c w h)
  perform-Sound pausing c w h =
      Ends-Sound k (λ _. At k paused) (pause k.outside c w) (λ _ c' h'. h'.0) (pause-Ends k c w h)
  perform-Sound (resuming sandbox) c w h =
      Ends-Sound k (λ _. At k running) (resume k.outside sandbox c w) (λ _ c' h'. h'.0)
        (resume-Ends k sandbox c w h)

  pub perform_all-Sound :
      (calls : List Call) (c : Container) (w : W)
      → Sound k c
      → Sound k (perform_all k.outside calls (c, w)).0
  perform_all-Sound [] c w h = h
  perform_all-Sound (call ∷ calls) c w h =
      let r = perform k.outside call c w in
      perform_all-Sound calls r.0 r.1 (perform-Sound call c w h)
