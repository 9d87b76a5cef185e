-- ===== src/Sandbox/Lifecycle.antt =====
-- pkg/micantainer/sandbox.go: Start, Stop, Delete, stopClients, removeNetwork and cleanSandboxStorage of a
-- sandbox. A loop over the containers walks the keys that are there at its start, and passes over a
-- container that was removed in the meantime.
use micrun.Prelude.{
  List, [], ◌∷◌, Bool, true, false, ◌||◌, Option, none, some, Bytes, if◌then◌else◌,
}
use micrun.Keyed.{lookup, keys}
use micrun.Container.State.{
  StateString, ready, running, stopped, creating, paused, same, sandbox_transition,
}
use micrun.Container.Core.{
  Outside, Step, Container, empty_sandbox_id, refused, failed, Result, ok, error,
}
use micrun.Container.Presence.{is_nil}
use micrun.Container.Lifecycle.{start, stop}
use micrun.Sandbox.Members.{delete}
use micrun.Sandbox.Core.{
  Sandbox, NetworkConfig, World, At, Op, pure, ◌>>=◌, ◌>>◌, go_on, get, modify, system, call,
  log_error, set_sandbox_state, store_sandbox, sandbox_storage_path,
}
use micrun.Sandbox.Accounting.{look}

module _ {W : Type 0} (world : World W) where
  abbrev pub if_present : Option Container → (Container → Op W Unit) → Op W Unit
  if_present none op = pure tt
  if_present (some c) op = op c

  -- for _, c := range s.containers, where an error ends the loop.
  unfoldable pub for_each : (Container → Op W Unit) → List Bytes → Op W Unit
  unfolding go_on
  for_each op [] = pure tt
  for_each op (id ∷ ids) = do s ← get; if_present (lookup id s.containers) op; for_each op ids

  abbrev pub for_all : (Container → Op W Unit) → Op W Unit
  for_all op (s, w) = for_each op (keys s.containers) (s, w)

  abbrev pub starting : Outside W → Step W Unit
  starting outside = start outside

  abbrev pub stopping : Bool → Outside W → Step W Unit
  stopping force outside = stop outside force

  abbrev pub start_one : Container → Op W Unit
  start_one c = call world starting c

  abbrev pub stop_one : Bool → Container → Op W Unit
  stop_one force c = call world (stopping force) c

  abbrev pub start_refreshed : StateString → Option Container → Op W Unit
  start_refreshed state none at = (at, ok tt)
  start_refreshed state (some c) at = if same state running then (at, ok tt) else start_one c at

  abbrev pub start_looked : Container → StateString → Op W Unit
  start_looked c state (s, w) = start_refreshed state (lookup c.config.id s.containers) (s, w)

  -- A look at a container of a sandbox that runs already, and its start if it does not run.
  abbrev pub start_unless_running : Container → Op W Unit
  start_unless_running c = do state ← look world c; start_looked c state

  -- removeNetwork, over NetworkCleanup
  abbrev pub no_network : NetworkConfig
  no_network = record { network_id = []; network_created = false; holder_pid = 0 }

  abbrev pub clear_network : Sandbox → Sandbox
  clear_network s = record s { config = record s.config { network = no_network } }

  unfoldable pub remove_network : Op W Unit
  unfolding system go_on
  remove_network = do
    s ← get
    system failed (world.netns_cleanup s.id s.config.network.holder_pid)
    modify clear_network

  -- stopClients
  unfoldable pub stop_clients : Op W Unit
  unfolding for_each call stop
  stop_clients = for_all (stop_one true)

  -- cleanSandboxStorage
  unfoldable pub clean_sandbox_storage : Op W Unit
  unfolding system
  clean_sandbox_storage (s, w) =
      if is_nil s.id
      then ((s, w), error empty_sandbox_id)
      else system failed (world.remove_all (sandbox_storage_path s.id)) (s, w)

  -- The deferred function of Start.
  abbrev pub reset_if_failed : StateString → At W × Result Unit → At W × Result Unit
  reset_if_failed old (at, ok a) = (at, ok a)
  reset_if_failed old ((s, w), error e) = ((record s { state = old }, w), error e)

  abbrev pub start_containers : StateString → Op W Unit
  start_containers old at = reset_if_failed old (for_all start_one at)

  abbrev pub start_stored : StateString → Op W Unit
  start_stored old = do set_sandbox_state running; start_containers old; store_sandbox world

  abbrev pub start_ready : StateString → Op W Unit
  start_ready old (s, w) =
      if sandbox_transition s.state old running
      then start_stored old (s, w)
      else ((s, w), error refused)

  abbrev pub start_running : Op W Unit
  start_running = do for_all start_unless_running; store_sandbox world

  abbrev pub start_normalized : Op W Unit
  start_normalized (s, w) =
      if same s.state running then start_running (s, w) else start_ready s.state (s, w)

  -- A sandbox that was restored as `creating` is `ready`.
  abbrev pub normalize : Sandbox → Sandbox
  normalize s = if same s.state creating then record s { state = ready } else s

  -- Start
  unfoldable pub start_sandbox : Op W Unit
  unfolding for_each call look start store_sandbox go_on
  start_sandbox (s, w) = start_normalized (normalize s, w)

  -- An error that counts unless the stop is forced.
  abbrev pub unless_forced : Bool → Op W Unit → Op W Unit
  unless_forced force op = if force then log_error op else op

  abbrev pub stop_all : Bool → Op W Unit
  stop_all force = do
    for_all (stop_one force)
    unless_forced force stop_clients
    set_sandbox_state stopped
    unless_forced force remove_network
    store_sandbox world

  -- Stop
  unfoldable pub stop_sandbox : Bool → Op W Unit
  unfolding for_each call stop stop_clients remove_network store_sandbox go_on
  stop_sandbox force (s, w) =
      if same s.state stopped
      then ((s, w), ok tt)
      else if sandbox_transition s.state s.state stopped
      then stop_all force (s, w)
      else ((s, w), error refused)

  abbrev pub delete_one : Container → Op W Unit
  delete_one c = log_error (delete world c)

  abbrev pub delete_all : Op W Unit
  delete_all = do for_all delete_one; log_error remove_network; clean_sandbox_storage

  -- Delete
  unfoldable pub delete_sandbox : Op W Unit
  unfolding for_each delete remove_network clean_sandbox_storage go_on
  delete_sandbox (s, w) =
      if same s.state ready || same s.state paused || same s.state stopped
      then delete_all (s, w)
      else ((s, w), error refused)
