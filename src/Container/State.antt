-- ===== src/Container/State.antt =====
-- pkg/micantainer/states.go. The states are the constants of the file.
use micrun.Prelude.{Bool, true, false, ◌&&◌, ◌||◌, not}
pub mod Table

pub data StateString : Type 0 where
  ready running stopped creating paused down : StateString

abbrev pub same : StateString → StateString → Bool
same ready ready = true
same running running = true
same stopped stopped = true
same creating creating = true
same paused paused = true
same down down = true
same _ _ = false

-- valid
abbrev pub valid : StateString → Bool
valid s = not (same s down)

-- The switch of transition.
unfoldable pub allowed : StateString → StateString → Bool
allowed creating new = same new stopped
allowed ready new = same new running || same new stopped
allowed running new = same new paused || same new stopped
allowed paused new = same new running || same new stopped
allowed stopped new = same new running
allowed down new = same new ready || same new running || same new stopped || same new creating

-- transition; `true` is no error.
unfoldable pub transition : StateString → StateString → StateString → Bool
unfolding allowed
transition s old new = same s old && allowed s new

-- SandboxState.Transition
unfoldable pub sandbox_transition : StateString → StateString → StateString → Bool
unfolding transition
sandbox_transition s old new = valid s && transition s old new
