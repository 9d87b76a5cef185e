-- ===== src/Sandbox/Upkeep/Life.antt =====
-- pkg/micantainer/sandbox.go: Start, Stop and Delete, for the validity of a sandbox.
use micrun.Container.Presence.{is_nil}
use micrun.Sandbox.Members.{delete}
use micrun.Sandbox.Rules.Results.{Yields-Keeps, weaker-Yields}
use micrun.Container.Core.{Container, Result, empty_sandbox_id, error, failed, ok, refused}
use micrun.Sandbox.Upkeep.Whole.{for_each-Keeps, stop_all-Keeps}
use micrun.Keyed.{keys, lookup}
use micrun.Sandbox.Lifecycle.{
  clean_sandbox_storage, clear_network, delete_one, delete_sandbox, for_all, normalize,
  remove_network, start_sandbox, stop_clients, stop_one, stop_sandbox, unless_forced,
}
use micrun.Sandbox.Upkeep.Deletion.{Without, delete-Yields}
use micrun.Sandbox.Core.{
  At, Op, Sandbox, World, go_on, log_error, logged, modify, sandbox_storage_path, set_sandbox_state,
  store_sandbox, system, ◌>>◌,
}
use micrun.Container.State.{StateString, paused, ready, running, same, sandbox_transition, stopped}
use micrun.Sandbox.Rules.{
  IsValid, IsValid-Stable, Keeps, go_on-Keeps, if-Keeps, same_parts-IsValid, store_sandbox-Keeps,
  system-Keeps,
}
use micrun.Sandbox.Outcome.{AllIn, Between, StoreFailed, start_sandbox_lem}
use micrun.Prelude.{Bool, Bytes, false, inl, inr, some, true, ◌||◌, ◌≡◌, refl}

module _ {W : Type 0} (world : World W) where
  Between-IsValid :
      (F : Sandbox → Type 0) (old new : StateString) (s : Sandbox) → Between F old new s → IsValid s
  Between-IsValid F old new s (inl h) = h.0
  Between-IsValid F old new s (inr h) = h.0.0.0

  pub start_sandbox-Keeps : Keeps IsValid (start_sandbox world)
  start_sandbox-Keeps s w v =
      let old = (normalize world s).state in
      Yields-Keeps IsValid (λ _. AllIn running) (start_sandbox world (s, w)) (λ _ _ h. h.0.0)
        (weaker-Yields (Between (StoreFailed world) old running) IsValid
          (Between-IsValid (StoreFailed world) old running) (λ _. AllIn running) _
          (start_sandbox_lem world s w v))

  log-Keeps : {A : Type 0} (r : At W × Result A) → IsValid r.0.0 → IsValid (logged r).0.0
  log-Keeps (at, r) v = v

  remove_network-Keeps : Keeps IsValid (remove_network world)
  unfolding remove_network go_on
  remove_network-Keeps s w v =
      go_on-Keeps IsValid
        (system failed (world.netns_cleanup s.id s.config.network.holder_pid) (s, w))
        (λ _. modify (clear_network world))
        (system-Keeps IsValid failed (world.netns_cleanup s.id s.config.network.holder_pid) s w v)
        (λ _ s' w' v'. same_parts-IsValid s' _ refl refl v')

  unless_forced-Keeps :
      (force : Bool) (op : Op W Unit)
      → Keeps IsValid op
      → Keeps IsValid (unless_forced world force op)
  unless_forced-Keeps true op keeps s w v = log-Keeps (op (s, w)) (keeps s w v)
  unless_forced-Keeps false op keeps s w v = keeps s w v

  abbrev network_and_store : Bool → Op W Unit
  network_and_store force = do
    set_sandbox_state stopped
    unless_forced world force (remove_network world)
    store_sandbox world

  network_and_store-Keeps : (force : Bool) → Keeps IsValid (network_and_store force)
  unfolding go_on
  network_and_store-Keeps force s w v =
      go_on-Keeps IsValid
        (unless_forced world force (remove_network world) (record s { state = stopped }, w))
        (λ _. store_sandbox world)
        (unless_forced-Keeps force (remove_network world) remove_network-Keeps
          (record s { state = stopped }) w (same_parts-IsValid s _ refl refl v))
        (λ _. store_sandbox-Keeps IsValid world)

  abbrev clients_then : Bool → Op W Unit
  clients_then force = do unless_forced world force (stop_clients world); network_and_store force

  stop_clients-Keeps : Keeps IsValid (stop_clients world)
  unfolding stop_clients
  stop_clients-Keeps s w v = stop_all-Keeps world IsValid-Stable true s w v

  pub stop_sandbox-Keeps : (force : Bool) → Keeps IsValid (stop_sandbox world force)
  unfolding stop_sandbox
  stop_sandbox-Keeps force s w v =
      if-Keeps IsValid (same s.state stopped) ((s, w), ok tt) _ (λ _. v)
        (λ _.
          if-Keeps IsValid (sandbox_transition s.state s.state stopped) _ ((s, w), error refused)
            (λ _.
              go_on-Keeps IsValid (for_all world (stop_one world force) (s, w))
                (λ _. clients_then force) (stop_all-Keeps world IsValid-Stable force s w v)
                (λ _ s' w' v'.
                  go_on-Keeps IsValid (unless_forced world force (stop_clients world) (s', w'))
                    (λ _. network_and_store force)
                    (unless_forced-Keeps force (stop_clients world) stop_clients-Keeps s' w' v')
                    (λ _. network_and_store-Keeps force)))
            (λ _. v))

  delete_one-Keeps :
      (id : Bytes) (c : Container) (s : Sandbox) (w : W)
      → lookup id s.containers ≡ some c
      → IsValid s
      → IsValid (delete_one world c (s, w)).0.0
  delete_one-Keeps id c s w there v = log-Keeps (delete world c (s, w)) (
      Yields-Keeps IsValid (λ _. Without id) (delete world c (s, w)) (λ _ _ h. h.0)
        (delete-Yields world id c s w there v))

  abbrev network_and_storage : Op W Unit
  network_and_storage = do log_error (remove_network world); clean_sandbox_storage world

  clean-Keeps : Keeps IsValid (clean_sandbox_storage world)
  unfolding clean_sandbox_storage
  clean-Keeps s w v =
      if-Keeps IsValid (is_nil s.id) ((s, w), error empty_sandbox_id) _ (λ _. v)
        (λ _. system-Keeps IsValid failed (world.remove_all (sandbox_storage_path s.id)) s w v)

  pub delete_sandbox-Keeps : Keeps IsValid (delete_sandbox world)
  unfolding delete_sandbox
  delete_sandbox-Keeps s w v =
      if-Keeps IsValid (same s.state ready || same s.state paused || same s.state stopped) _ _
        (λ _.
          go_on-Keeps IsValid (for_all world (delete_one world) (s, w)) (λ _. network_and_storage)
            (for_each-Keeps world IsValid (delete_one world) delete_one-Keeps (keys s.containers) s
              w v)
            (λ _ s' w' v'.
              go_on-Keeps IsValid (log_error (remove_network world) (s', w'))
                (λ _. clean_sandbox_storage world)
                (log-Keeps (remove_network world (s', w')) (remove_network-Keeps s' w' v'))
                (λ _. clean-Keeps)))
        (λ _. v)
