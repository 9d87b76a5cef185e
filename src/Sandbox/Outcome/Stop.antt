-- ===== src/Sandbox/Outcome/Stop.antt =====
-- pkg/micantainer/sandbox.go: Stop of a sandbox.
use micrun.Sandbox.Rules.{IsValid, same_parts-IsValid}
use micrun.Container.State.{same, sandbox_transition, StateString, stopped}
use micrun.Sandbox.Core.{
  Op, modify, set_sandbox_state, system, ◌>>◌, Sandbox, World, go_on, store_sandbox,
}
use micrun.Sandbox.Rules.Loops.{Every, for_all-Yields}
use micrun.Container.Core.{failed, refused}
use micrun.Sandbox.Lifecycle.{
  clear_network, remove_network, stop_all, stop_clients, stop_sandbox, for_all, stop_one,
}
use micrun.Prelude.{true, Bool, false, inl, inr, ◌⊎◌, ◌≡◌, refl}
use micrun.Sandbox.Rules.Results.{
  error-Yields, ok-Yields, weaker-Yields, tried-Yields, Yields, go_on-Yields, if-Yields,
}
use micrun.Sandbox.Outcome.{
  In, In-Stable, AllIn, Between, StoreFailed, stored-Yields, In-state_of, stop_one-Works,
}

module _ {W : Type 0} (world : World W) where
  -- The stop of every container, with an error that counts.
  stop_counted-Yields :
      (state : StateString) (force : Bool) (s : Sandbox) (w : W)
      → In state s
      → Yields
          (In state)
          (λ _ s'. In state s' × Every (λ c. c.state ≡ stopped) s')
          (for_all world (stop_one world force) (s, w))
  stop_counted-Yields state force s w h =
      for_all-Yields world (In-Stable state) (λ c. c.state ≡ stopped) (stop_one world force)
        (stop_one-Works world (In-Stable state) force) s w h

  -- The clean-up of the sandbox's network failed in some world.
  abbrev pub NetworkFailed : Sandbox → Type 0
  NetworkFailed s = (w : W) × ((world.netns_cleanup s.id s.config.network.holder_pid w).1 ≡ false)

  abbrev pub StopFailed : Sandbox → Type 0
  StopFailed s = NetworkFailed s ⊎ StoreFailed world s

  abbrev pub Stops : StateString → Sandbox → Type 0
  Stops old = Between StopFailed old stopped

  -- A sandbox that stays valid with its containers when the network goes.
  remove_network-Yields :
      (old : StateString) (s : Sandbox) (w : W)
      → AllIn stopped s
      → Yields (Stops old) (λ _. AllIn stopped) (remove_network world (s, w))
  unfolding remove_network go_on
  remove_network-Yields old s w h =
      go_on-Yields (Stops old) (λ _. AllIn stopped) (λ _. AllIn stopped)
        (system failed (world.netns_cleanup s.id s.config.network.holder_pid) (s, w))
        (λ _. modify (clear_network world))
        (tried-Yields (Stops old) (λ _. AllIn stopped) failed
          (world.netns_cleanup s.id s.config.network.holder_pid) s w (λ bad. inr (h, inl (w, bad)))
          h)
        (λ _ s' w' h'.
          ok-Yields (Stops old) (λ _. AllIn stopped) tt _ w'
            ((same_parts-IsValid s' _ refl refl h'.0.0, h'.0.1), h'.1))

  abbrev after_stop : Op W Unit
  after_stop = do set_sandbox_state stopped; remove_network world; store_sandbox world

  after_stop-Yields :
      (state : StateString) (s : Sandbox) (w : W)
      → In state s × Every (λ c. c.state ≡ stopped) s
      → Yields (Stops state) (λ _. AllIn stopped) (after_stop (s, w))
  unfolding go_on
  after_stop-Yields state s w h =
      let s' = record s { state = stopped } in
      go_on-Yields (Stops state) (λ _. AllIn stopped) (λ _. AllIn stopped)
        (remove_network world (s', w)) (λ _. store_sandbox world)
        (remove_network-Yields state s' w (In-state_of s stopped h.0.0, h.1))
        (λ _ s'' w'' h'. stored-Yields StopFailed state stopped world s'' w'' (λ f. inr f) h')

  abbrev stopped_twice : Op W Unit
  stopped_twice = do stop_clients world; after_stop

  stop_all-Yields :
      (s : Sandbox) (w : W)
      → IsValid s
      → Yields (Stops s.state) (λ _. AllIn stopped) (stop_all world false (s, w))
  unfolding stop_clients
  stop_all-Yields s w v =
      let B = Stops s.state in
      let S = λ (s' : Sandbox). In s.state s' × Every (λ c. c.state ≡ stopped) s' in
      go_on-Yields B (λ _. S) (λ _. AllIn stopped) (for_all world (stop_one world false) (s, w))
        (λ _. stopped_twice)
        (weaker-Yields (In s.state) B (λ _ h. inl h) (λ _. S) _
          (stop_counted-Yields s.state false s w (v, refl)))
        (λ _ s' w' h'.
          go_on-Yields B (λ _. S) (λ _. AllIn stopped) (stop_clients world (s', w'))
            (λ _. after_stop)
            (weaker-Yields (In s.state) B (λ _ h. inl h) (λ _. S) _
              (stop_counted-Yields s.state true s' w' h'.0))
            (λ _ s'' w'' h''. after_stop-Yields s.state s'' w'' h''))

  -- For a valid sandbox that is not stopped: Stop without force and without an error leaves it stopped
  -- with every container stopped. An error leaves a valid sandbox in the state that Stop found, or one that is
  -- stopped with every container, and of which the clean-up of the network or the storing failed.
  pub stop_sandbox_lem :
      (s : Sandbox) (w : W)
      → IsValid s
      → same s.state stopped ≡ false
      → Yields (Stops s.state) (λ _. AllIn stopped) (stop_sandbox world false (s, w))
  unfolding stop_sandbox
  stop_sandbox_lem s w v going = rw going (
      if-Yields (Stops s.state) (λ _. AllIn stopped) (sandbox_transition s.state s.state stopped) _
        _ (λ _. stop_all-Yields s w v)
        (λ _. error-Yields (Stops s.state) (λ _. AllIn stopped) refused s w (inl (v, refl))))
