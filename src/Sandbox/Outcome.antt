-- ===== src/Sandbox/Outcome.antt =====
-- pkg/micantainer/sandbox.go: Start of a sandbox.
use micrun.Sandbox.Upkeep.Accounts.{looking-Fit}
use micrun.Container.Presence.{check_state, gone}
use micrun.Container.State.Table.{same_eq}
use micrun.Keyed.{other_key, lookup}
use micrun.Sandbox.Accounting.{with_ok, look, looking}
use micrun.Sandbox.Upkeep.Whole.{starting-Fit, stopping-Fit}
use micrun.Container.Lifecycle.{start, stop}
use micrun.Sandbox.Rules.{IsValid, Stable, put_back-IsValid, same_parts-IsValid}
use micrun.Container.State.{
  creating, ready, same, sandbox_transition, StateString, running, stopped,
}
use micrun.Sandbox.Core.{◌>>◌, At, Sandbox, World, go_on, inside, put_back, store, store_sandbox}
use micrun.Sandbox.Rules.Loops.{Changed, Every, Gives, Works, call-Yields, for_all-Yields}
use micrun.Container.Fit.Operations.{check_state-state}
use micrun.Container.Fit.{Fit}
use micrun.Container.Core.{failed, refused, Container, Result, error, ok}
use micrun.Sandbox.Lifecycle.{
  normalize, start_looked, start_normalized, start_refreshed, start_running, start_sandbox,
  start_unless_running, for_all, reset_if_failed, start_containers, start_one, start_stored,
  starting, stop_one, stopping,
}
use micrun.Container.Lifecycle.Outcome.{Leaves, lifecycle-Leaves}
use micrun.Prelude.{
  [], Option, ap, arith, if◌then◌else◌, none, subst, true, some, Bool, Bytes, false, inl, inr, sym,
  ◌∙◌, ◌≢◌, ◌⊎◌, ◌≡◌, refl,
}
use micrun.Sandbox.Rules.Results.{
  error-Yields, map-Yields, ok-Yields, weaker-Yields, tried-Yields, Yields, go_on-Yields, if-Yields,
}
pub mod Stop

-- A valid sandbox in a state.
abbrev pub In : StateString → Sandbox → Type 0
In state s = IsValid s × (s.state ≡ state)

pub In-Stable : (state : StateString) → Stable (In state)
unfolding put_back
In-Stable state = record {
  valid = λ s h. h.0;
  written = λ s id c c' there fit h. (put_back-IsValid s id c c' there fit h.0, h.1);
  booked = λ s res pinned h. (same_parts-IsValid s _ refl refl h.0, h.1);
}

-- A valid sandbox whose state is that of each of its containers.
abbrev pub AllIn : StateString → Sandbox → Type 0
AllIn state s = In state s × Every (λ c. c.state ≡ state) s

-- A valid sandbox that has kept its state, or that has come to the new one with its containers, of which then
-- something more is known.
abbrev pub Between : (Sandbox → Type 0) → StateString → StateString → Sandbox → Type 0
Between F old new s = In old s ⊎ (AllIn new s × F s)

-- The storing of the sandbox as it is failed in some world.
abbrev pub StoreFailed : {W : Type 0} → World W → Sandbox → Type 0
StoreFailed {W} world s = (w : W) × ((store world s w).1 ≡ false)

-- The storing of a sandbox that has come to its new state.
pub stored-Yields :
    {W : Type 0} (F : Sandbox → Type 0) (old new : StateString) (world : World W) (s : Sandbox)
    (w : W)
    → (StoreFailed world s → F s)
    → AllIn new s
    → Yields (Between F old new) (λ _. AllIn new) (store_sandbox world (s, w))
unfolding store_sandbox
stored-Yields F old new world s w failing h =
    tried-Yields (Between F old new) (λ _. AllIn new) failed (store world s) s w
      (λ bad. inr (h, failing (w, bad))) h

pub In-state_of :
    (s : Sandbox) (state : StateString) → IsValid s → In state (record s { state = state })
In-state_of s state v = (same_parts-IsValid s _ refl refl v, refl)

Leaves-Gives :
    {W : Type 0} (state : StateString) (r : Container × W × Result Unit)
    → Leaves state r
    → Gives (λ _ c. c.state ≡ state) r
unfolding Gives
Leaves-Gives state (c, w, ok a) h = h
Leaves-Gives state (c, w, error e) h = tt

pub Fit-ne_nil : (id : Bytes) (c : Container) → Fit id c → c.config.id ≢ []
Fit-ne_nil id c h = λ e. h.named (sym h.its_id ∙ e)

module _ {W : Type 0} (world : World W) where
  start_Gives :
      (id : Bytes) (c : Container) (s : Sandbox) (w : W)
      → Fit id c
      → Gives (λ _ c'. c'.state ≡ running) (starting world (inside world s) c w)
  start_Gives id c s w h =
      Leaves-Gives running (start (inside world s) c w)
        (lifecycle-Leaves (inside world s) false running c w (Fit-ne_nil id c h) h.created).0

  stop_Gives :
      (force : Bool) (id : Bytes) (c : Container) (s : Sandbox) (w : W)
      → Fit id c
      → Gives (λ _ c'. c'.state ≡ stopped) (stopping world force (inside world s) c w)
  stop_Gives force id c s w h =
      Leaves-Gives stopped (stop (inside world s) force c w)
        (lifecycle-Leaves (inside world s) force running c w (Fit-ne_nil id c h) h.created).1

  module _ {I : Sandbox → Type 0} (st : Stable I) where
    start_one-Works : Works world st (λ c. c.state ≡ running) (start_one world)
    start_one-Works id c s w there h =
        call-Yields world st (λ _ c'. c'.state ≡ running) (starting world) (starting-Fit world) id c
          s w there (start_Gives id c s w ((st.valid s h).fit id c there)) h

    pub stop_one-Works :
        (force : Bool) → Works world st (λ c. c.state ≡ stopped) (stop_one world force)
    stop_one-Works force id c s w there h =
        call-Yields world st (λ _ c'. c'.state ≡ stopped) (stopping world force)
          (stopping-Fit world force) id c s w there
          (stop_Gives force id c s w ((st.valid s h).fit id c there)) h

  -- The start of a sandbox that does not run.
  reset-Yields :
      (old : StateString) (r : At W × Result Unit)
      → Yields (In running) (λ _. AllIn running) r
      → Yields
          (Between (StoreFailed world) old running)
          (λ _. AllIn running)
          (reset_if_failed world old r)
  unfolding Yields
  reset-Yields old ((s, w), ok a) h = h
  reset-Yields old ((s, w), error e) h = inl (In-state_of s old h.0)

  start_stored-Yields :
      (old : StateString) (s : Sandbox) (w : W)
      → IsValid s
      → Yields
          (Between (StoreFailed world) old running)
          (λ _. AllIn running)
          (start_stored world old (s, w))
  unfolding go_on
  start_stored-Yields old s w v =
      let s' = record s { state = running } in
      go_on-Yields (Between (StoreFailed world) old running) (λ _. AllIn running)
        (λ _. AllIn running) (start_containers world old (s', w)) (λ _. store_sandbox world)
        (reset-Yields old (for_all world (start_one world) (s', w)) (
          for_all-Yields world (In-Stable running) (λ c. c.state ≡ running) (start_one world)
            (start_one-Works (In-Stable running)) s' w (In-state_of s running v)))
        (λ _ s'' w'' h. stored-Yields (StoreFailed world) old running world s'' w'' (λ f. f) h)

  with_ok-Gives :
      (r : Container × W × StateString)
      → r.0.state ≡ r.2
      → Gives (λ state c. c.state ≡ state) (with_ok world r)
  unfolding Gives
  with_ok-Gives (c, w, s) h = h

  pub look-Yields :
      {I : Sandbox → Type 0} (st : Stable I) (id : Bytes) (c : Container) (s : Sandbox) (w : W)
      → lookup id s.containers ≡ some c
      → I s
      → Yields I (λ state s'. I s' × Changed (λ c'. c'.state ≡ state) id s s') (look world c (s, w))
  unfolding look
  look-Yields st id c s w there h =
      call-Yields world st (λ state c'. c'.state ≡ state) (looking world) (looking-Fit world st) id
        c s w there
        (with_ok-Gives (check_state (inside world s) c w)
          (check_state-state (inside world s) id c w ((st.valid s h).fit id c there)))
        h

  abbrev Runs : Container → Type 0
  Runs c = c.state ≡ running

  abbrev pub Looks : StateString → Container → Type 0
  Looks state c = c.state ≡ state

  -- Two changes of one container, the second of which is the one that counts.
  Changed-twice :
      (state : StateString) (id : Bytes) (s s' s'' : Sandbox)
      → Changed (Looks state) id s s'
      → Changed Runs id s' s''
      → Changed Runs id s s''
  Changed-twice state id s s' s'' first second j c e = elim (second j c e) [
    | inl now ↦ inl now
    | inr (apart, old) ↦ elim (first j c old) [
      | inl (equal, _) ↦ absurd (ground arith)
      | inr rest ↦ inr rest
    ]
  ]

  Runs-already :
      (state : StateString) (id : Bytes) (s s' : Sandbox)
      → state ≡ running
      → Changed (Looks state) id s s'
      → Changed Runs id s s'
  Runs-already state id s s' is first j c e = elim (first j c e) [
    | inl (equal, p) ↦ inl (equal, p ∙ is)
    | inr rest ↦ inr rest
  ]

  not_there :
      (state : StateString) (id : Bytes) (s s' : Sandbox)
      → lookup id s'.containers ≡ none
      → Changed (Looks state) id s s'
      → Changed Runs id s s'
  not_there state id s s' gone first j c e = elim (first j c e) [
    | inl (equal, p) ↦ absurd (ground (arith, other_key id j c s'.containers gone e))
    | inr rest ↦ inr rest
  ]

  module _ {I : Sandbox → Type 0} (st : Stable I) where
    refreshed-Yields :
        (state : StateString) (id : Bytes) (o : Option Container) (s s' : Sandbox) (w : W)
        → lookup id s'.containers ≡ o
        → I s'
        → Changed (Looks state) id s s'
        → Yields I (λ _ s''. I s'' × Changed Runs id s s'') (start_refreshed world state o (s', w))
    refreshed-Yields state id none s s' w e h first =
        ok-Yields I (λ _ s''. I s'' × Changed Runs id s s'') tt s' w
          (h, not_there state id s s' e first)
    refreshed-Yields state id (some c) s s' w e h first =
        if-Yields I (λ _ s''. I s'' × Changed Runs id s s'') (same state running) _ _
          (λ is.
            ok-Yields I (λ _ s''. I s'' × Changed Runs id s s'') tt s' w
              (h, Runs-already state id s s' (same_eq state running is) first))
          (λ _.
            map-Yields I (λ _ s''. I s'' × Changed Runs id s' s'')
              (λ _ s''. I s'' × Changed Runs id s s'') (start_one world c (s', w))
              (λ _ s'' d. (d.0, Changed-twice state id s s' s'' first d.1))
              (start_one-Works st id c s' w e h))

    start_unless_running-Works : Works world st Runs (start_unless_running world)
    start_unless_running-Works id c s w there h =
        go_on-Yields I (λ state s'. I s' × Changed (Looks state) id s s')
          (λ _ s''. I s'' × Changed Runs id s s'') (look world c (s, w)) (start_looked world c)
          (look-Yields st id c s w there h)
          (λ state s' w' h'.
            refreshed-Yields state id (lookup c.config.id s'.containers) s s' w'
              (ap (λ k. lookup k s'.containers) (sym ((st.valid s h).fit id c there).its_id)) h'.0
              h'.1)

  start_running-Yields :
      (s : Sandbox) (w : W)
      → In running s
      → Yields
          (Between (StoreFailed world) running running)
          (λ _. AllIn running)
          (start_running world (s, w))
  start_running-Yields s w h =
      go_on-Yields (Between (StoreFailed world) running running) (λ _. AllIn running)
        (λ _. AllIn running) (for_all world (start_unless_running world) (s, w))
        (λ _. store_sandbox world)
        (weaker-Yields (In running) (Between (StoreFailed world) running running) (λ _ h'. inl h')
          (λ _. AllIn running) _
          (for_all-Yields world (In-Stable running) Runs (start_unless_running world)
            (start_unless_running-Works (In-Stable running)) s w h))
        (λ _ s' w' h'. stored-Yields (StoreFailed world) running running world s' w' (λ f. f) h')

  start_normalized-Yields :
      (s : Sandbox) (w : W)
      → IsValid s
      → Yields
          (Between (StoreFailed world) s.state running)
          (λ _. AllIn running)
          (start_normalized world (s, w))
  start_normalized-Yields s w v =
      if-Yields (Between (StoreFailed world) s.state running) (λ _. AllIn running)
        (same s.state running) _ _
        (λ is.
          let e : s.state ≡ running = same_eq s.state running is in
          subst
            (λ z.
              Yields (Between (StoreFailed world) z running) (λ _. AllIn running)
                (start_running world (s, w)))
            (sym e) (start_running-Yields s w (v, e)))
        (λ _.
          if-Yields (Between (StoreFailed world) s.state running) (λ _. AllIn running)
            (sandbox_transition s.state s.state running) _ _
            (λ _. start_stored-Yields s.state s w v)
            (λ _.
              error-Yields (Between (StoreFailed world) s.state running) (λ _. AllIn running)
                refused s w (inl (v, refl))))

  normalize-IsValid : (s : Sandbox) → IsValid s → IsValid (normalize world s)
  normalize-IsValid s v = normalized (same s.state creating)
    where
      normalized : (b : Bool) → IsValid (if b then record s { state = ready } else s)
      normalized true = same_parts-IsValid s _ refl refl v
      normalized false = v

  -- For a valid sandbox: Start without an error leaves it running with every container running, also
  -- where it ran before. An error leaves a valid sandbox in the state that Start found, where `creating`
  -- counts as `ready`, or one that runs with every container and whose storing failed.
  pub start_sandbox_lem :
      (s : Sandbox) (w : W)
      → IsValid s
      → Yields
          (Between (StoreFailed world) (normalize world s).state running)
          (λ _. AllIn running)
          (start_sandbox world (s, w))
  unfolding start_sandbox
  start_sandbox_lem s w v = start_normalized-Yields (normalize world s) w (normalize-IsValid s v)
