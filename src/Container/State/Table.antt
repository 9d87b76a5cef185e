-- ===== src/Container/State/Table.antt =====
-- pkg/micantainer/states.go: the moves that are allowed, as a relation.
use micrun.Prelude.{◌↔◌, sym, ◌≡◌, refl, true, arith}
use micrun.Container.State.{
  transition, StateString, ready, running, stopped, creating, paused, down, same, allowed,
}

-- An allowed move.
pub data Edge : StateString → StateString → Type 0 where
  give_up : Edge creating stopped
  run : Edge ready running
  cancel : Edge ready stopped
  hold : Edge running paused
  halt : Edge running stopped
  go_on : Edge paused running
  abort : Edge paused stopped
  again : Edge stopped running
  revive_ready : Edge down ready
  revive_running : Edge down running
  revive_stopped : Edge down stopped
  revive_creating : Edge down creating

pub same_eq : (s t : StateString) → same s t ≡ true → s ≡ t
same_eq s t e = ground arith

pub same_refl : (s : StateString) → same s s ≡ true
same_refl ready = refl
same_refl running = refl
same_refl stopped = refl
same_refl creating = refl
same_refl paused = refl
same_refl down = refl

Edge-allowed : (s t : StateString) → Edge s t → allowed s t ≡ true
unfolding allowed
Edge-allowed s t give_up = refl
Edge-allowed s t run = refl
Edge-allowed s t cancel = refl
Edge-allowed s t hold = refl
Edge-allowed s t halt = refl
Edge-allowed s t go_on = refl
Edge-allowed s t abort = refl
Edge-allowed s t again = refl
Edge-allowed s t revive_ready = refl
Edge-allowed s t revive_running = refl
Edge-allowed s t revive_stopped = refl
Edge-allowed s t revive_creating = refl

allowed-Edge : (s t : StateString) → allowed s t ≡ true → Edge s t
unfolding allowed
allowed-Edge creating stopped h = give_up
allowed-Edge ready running h = run
allowed-Edge ready stopped h = cancel
allowed-Edge running paused h = hold
allowed-Edge running stopped h = halt
allowed-Edge paused running h = go_on
allowed-Edge paused stopped h = abort
allowed-Edge stopped running h = again
allowed-Edge down ready h = revive_ready
allowed-Edge down running h = revive_running
allowed-Edge down stopped h = revive_stopped
allowed-Edge down creating h = revive_creating
allowed-Edge ready ready h = cc
allowed-Edge ready creating h = cc
allowed-Edge ready paused h = cc
allowed-Edge ready down h = cc
allowed-Edge running ready h = cc
allowed-Edge running running h = cc
allowed-Edge running creating h = cc
allowed-Edge running down h = cc
allowed-Edge stopped ready h = cc
allowed-Edge stopped stopped h = cc
allowed-Edge stopped creating h = cc
allowed-Edge stopped paused h = cc
allowed-Edge stopped down h = cc
allowed-Edge creating ready h = cc
allowed-Edge creating running h = cc
allowed-Edge creating creating h = cc
allowed-Edge creating paused h = cc
allowed-Edge creating down h = cc
allowed-Edge paused ready h = cc
allowed-Edge paused creating h = cc
allowed-Edge paused paused h = cc
allowed-Edge paused down h = cc
allowed-Edge down paused h = cc
allowed-Edge down down h = cc

-- The test of a transition answers without error exactly if the state is the expected one and the move
-- is an edge of the table.
pub transition_iff :
    (s old new : StateString) → (transition s old new ≡ true) ↔ ((s ≡ old) × Edge s new)
unfolding transition
transition_iff s old new = (
  λ e. (same_eq s old (ground arith), allowed-Edge s new (ground arith)),
  λ (e, edge). rw (sym e, same_refl s, Edge-allowed s new edge) refl,
)
