-- ===== src/Sandbox/Upkeep/Whole.antt =====
-- pkg/micantainer/sandbox.go: the loops of Start, Stop and Delete of a sandbox.
use micrun.Sandbox.Accounting.{look}
use micrun.Sandbox.Upkeep.Accounts.{look-Keeps}
use micrun.Container.Fit.{KeepsFit}
use micrun.Container.Fit.Operations.{start-Fit, stop-Fit}
use micrun.Container.State.{StateString, running, same}
use micrun.Sandbox.Core.{Op, Sandbox, World, go_on}
use micrun.Sandbox.Rules.{Keeps, Stable, call-Keeps, go_on-Keeps, if-Keeps}
use micrun.Sandbox.Lifecycle.{
  for_all, for_each, if_present, start_looked, start_one, start_refreshed, start_unless_running,
  starting, stop_one, stopping,
}
use micrun.Keyed.{keys, lookup}
use micrun.Container.Core.{Container, ok}
use micrun.Prelude.{Bool, Bytes, List, Option, [], none, some, ◌∷◌, ◌≡◌, refl}

module _ {W : Type 0} (world : World W) where
  -- What an operation on a container keeps, a loop over the containers keeps.
  pub for_each-Keeps :
      (I : Sandbox → Type 0) (op : Container → Op W Unit)
      → ((id : Bytes) (c : Container) (s : Sandbox) (w : W)
          → lookup id s.containers ≡ some c
          → I s
          → I (op c (s, w)).0.0)
      → (ids : List Bytes) → Keeps I (for_each world op ids)
  unfolding for_each go_on
  for_each-Keeps I op step [] s w h = h
  for_each-Keeps I op step (id ∷ ids) s w h =
      go_on-Keeps I (if_present world (lookup id s.containers) op (s, w)) _
        (if_present-Keeps (lookup id s.containers) (λ c there. step id c s w there h))
        (λ _. for_each-Keeps I op step ids)
    where
      if_present-Keeps :
          (o : Option Container)
          → ((c : Container) → o ≡ some c → I (op c (s, w)).0.0)
          → I (if_present world o op (s, w)).0.0
      if_present-Keeps none step' = h
      if_present-Keeps (some c) step' = step' c refl

  pub starting-Fit : KeepsFit (starting world)
  starting-Fit outside id c w h = start-Fit outside id c w h

  pub stopping-Fit : (force : Bool) → KeepsFit (stopping world force)
  stopping-Fit force outside id c w h = stop-Fit force outside id c w h

  module _ {I : Sandbox → Type 0} (st : Stable I) where
    pub start_all-Keeps : Keeps I (for_all world (start_one world))
    start_all-Keeps s w h =
        for_each-Keeps I (start_one world)
          (λ id c s' w' there h'.
            call-Keeps world st (starting world) starting-Fit id c s' w' there h')
          (keys s.containers) s w h

    pub stop_all-Keeps : (force : Bool) → Keeps I (for_all world (stop_one world force))
    stop_all-Keeps force s w h =
        for_each-Keeps I (stop_one world force)
          (λ id c s' w' there h'.
            call-Keeps world st (stopping world force) (stopping-Fit force) id c s' w' there h')
          (keys s.containers) s w h

    refresh-Keeps :
        (state : StateString) (o : Option Container) (id : Bytes) (s : Sandbox) (w : W)
        → lookup id s.containers ≡ o
        → I s
        → I (start_refreshed world state o (s, w)).0.0
    refresh-Keeps state none id s w e h = h
    refresh-Keeps state (some c) id s w e h =
        if-Keeps I (same state running) ((s, w), ok tt) _ (λ _. h)
          (λ _. call-Keeps world st (starting world) starting-Fit id c s w e h)

    pub start_unless_running-Keeps :
        (id : Bytes) (c : Container) (s : Sandbox) (w : W)
        → lookup id s.containers ≡ some c
        → I s
        → I (start_unless_running world c (s, w)).0.0
    start_unless_running-Keeps id c s w there h =
        go_on-Keeps I (look world c (s, w)) (start_looked world c)
          (look-Keeps world st id c s w there h)
          (λ state s' w' h'.
            refresh-Keeps state (lookup c.config.id s'.containers) c.config.id s' w' refl h')
