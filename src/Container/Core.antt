-- ===== src/Container/Core.antt =====
-- pkg/micantainer/container.go: the container's record, and its state with the notifier of its exit.
-- The configuration and the sandbox of a container are there, as newContainer gives them.
use micrun.Prelude.{ℕ, ◌+◌, List, ◌∷◌, Bool, true, false, Option, none, some, Bytes}
use micrun.Resources.{ContainerConfig}
use micrun.Mica.Host.{Host}
use micrun.Mica.Executor.{Executor}
use micrun.Container.State.{StateString, stopped, down}

pub record Container : Type 0 where
  pub config : ContainerConfig
  pub me : Executor
  pub state : StateString
  -- whether there is the process of an infra container
  pub infra_cmd : Bool
  -- exitNotifier, with the number of channels made so far and those that were closed
  pub exit_notifier : Option ℕ
  pub channels : ℕ
  pub closed : List ℕ

-- What the container asks of the file system and of its process, besides the client.
pub record Outside (W : Type 0) : Type 0 where
  pub host : Host W
  -- ensureFirmwarePath
  pub firmware : Bytes → W → Bool
  -- SaveState, StoreSandbox
  pub save_state : Container → W → W × Bool
  pub store_sandbox : W → W × Bool
  -- the signal to the process of an infra container; `false` if it failed and the process is there
  pub terminate : W → W × Bool

pub data Error : Type 0 where
  container_not_found micad_op_failed refused failed : Error
  already_exists duplicated_key empty_container_id empty_sandbox_id : Error
  sandbox_not_found sandbox_down container_down canceled : Error

pub data Result (A : Type 0) : Type 0 where
  ok : A → Result A
  error : Error → Result A

-- What an operation does to a container and to the world, and its result.
abbrev pub Step : Type 0 → Type 0 → Type 0
Step W A = Container → W → Container × W × Result A

module _ {W A B : Type 0} where
  -- An operation that goes on if there was no error.
  unfoldable pub and_then : Container × W × Result A → (A → Step W B) → Container × W × Result B
  and_then (c, w, ok a) next = next a c w
  and_then (c, w, error e) next = (c, w, error e)

abbrev pub answered : {W : Type 0} → Error → Container → W × Bool → Container × W × Result Unit
answered e c (w, true) = (c, w, ok tt)
answered e c (w, false) = (c, w, error e)

-- A request to the world for a container.
unfoldable pub ask : {W : Type 0} → Error → (W → W × Bool) → Step W Unit
ask e request c w = answered e c (request w)

-- close(c.exitNotifier), if it is there
abbrev pub close_notifier : Option ℕ → Container → Container
close_notifier none c = c
close_notifier (some n) c = record c { exit_notifier = none; closed = n ∷ c.closed }

-- make(chan struct{}), if there is none
abbrev pub open_notifier : Option ℕ → Container → Container
open_notifier none c = record c { exit_notifier = some c.channels; channels = c.channels + 1 }
open_notifier (some _) c = c

-- updateExitNotifier
unfoldable pub update_exit_notifier : StateString → Container → Container
update_exit_notifier stopped c = close_notifier c.exit_notifier c
update_exit_notifier down c = close_notifier c.exit_notifier c
update_exit_notifier _ c = open_notifier c.exit_notifier c

abbrev pub with_state : StateString → Container → Container
with_state s c = record c { state = s }

module _ {W : Type 0} (outside : Outside W) where
  -- setContainerState
  unfoldable pub set_container_state : StateString → Step W Unit
  unfolding update_exit_notifier
  set_container_state s c w =
      let changed = update_exit_notifier s (with_state s c) in
      and_then (ask failed (outside.save_state changed) changed w)
        (λ _. ask failed outside.store_sandbox)
