-- ===== src/Sandbox/Refinement.antt =====
-- pkg/micantainer/sandbox.go: a sandbox as a table of the states of its containers, and the orders to one
-- container (StopContainer, PauseContainer, ResumeContainer, KillContainer) as changes of one entry.
use micrun.Prelude.{
  Bool, Bytes, Option, none, some, true, false, ap, sym, subst, inl, inr, Bool-cases, if◌then◌else◌,
  ◌≡◌, ◌⊎◌, ◌∙◌, refl,
}
use micrun.Mica.Executor.{bytes_eq}
use micrun.Mica.Control.{client_not_exist}
use micrun.Keyed.{replace, bytes_eq→eq, lookup, lookup-replace, instead}
use micrun.Container.State.{StateString, running, stopped, paused}
use micrun.Container.Core.{Container, Outside, Result, Step, ok, error}
use micrun.Container.Fit.{Fit, KeepsFit}
use micrun.Container.Fit.Operations.{kill-Fit, pause-Fit, resume-Fit, stop-Fit}
use micrun.Container.Lifecycle.{stop, kill, pause, resume}
use micrun.Container.Lifecycle.Outcome.{Leaves, lifecycle-Leaves}
use micrun.Sandbox.Core.{
  At, Op, Sandbox, World, call, go_on, find, inside, put_back, settle, store_sandbox, ◌>>◌,
}
use micrun.Sandbox.Calls.{
  stop_container, pause_container, resume_container, kill_container, kill_if_there,
}
use micrun.Sandbox.Outcome.{Fit-ne_nil}
use micrun.Sandbox.Rules.{IsValid}
use micrun.Sandbox.Rules.Results.{
  Yields, go_on-Yields, find-Yields, store-Yields, if-Yields, ok-Yields, map-Yields,
}

-- The state of each container.
abbrev pub Table : Type 0
Table = Bytes → Option StateString

abbrev pub state_in : Option Container → Option StateString
state_in none = none
state_in (some c) = some c.state

abbrev pub view : Sandbox → Table
view s id = state_in (lookup id s.containers)

-- One entry is what is given, and the others are as before.
abbrev pub Sets : Bytes → Option StateString → Table → Table → Type 0
Sets id entry t t' = (j : Bytes) → t' j ≡ (if bytes_eq id j then entry else t j)

abbrev pub Moves : Bytes → StateString → Table → Table → Type 0
Moves id state t t' = Sets id (some state) t t'

-- No other entry changes.
abbrev pub Spares : Bytes → Table → Table → Type 0
Spares id t t' = (entry : Option StateString) × Sets id entry t t'

pub data Order : Type 0 where
  to_stop : (force : Bool) → Order
  to_pause to_resume to_kill : Order

abbrev pub target : Order → StateString
target (to_stop force) = stopped
target to_pause = paused
target to_resume = running
target to_kill = stopped

-- What an order asks of the container.
abbrev ordered : {W : Type 0} → Order → StateString → Outside W → Step W Unit
ordered (to_stop force) sandbox outside = stop outside force
ordered to_pause sandbox outside = pause outside
ordered to_resume sandbox outside = resume outside sandbox
ordered to_kill sandbox outside = kill outside sandbox

unchanged : (id : Bytes) (t : Table) → Spares id t t
unchanged id t = (
  t id,
  λ j. elim (Bool-cases (bytes_eq id j)) [
    | inl equal ↦ rw equal (ap t (sym (bytes_eq→eq id j equal)))
    | inr apart ↦ rw apart refl
  ],
)

view-put_back :
    (id : Bytes) (c c' : Container) (s : Sandbox)
    → lookup id s.containers ≡ some c
    → c'.config.id ≡ id
    → Moves id c'.state (view s) (view (put_back c' s))
unfolding put_back
view-put_back id c c' s there its_id j =
    ap state_in
      (ap (λ k. lookup j (replace k c' s.containers)) its_id ∙ lookup-replace id j c' s.containers)
    ∙ at_key (Bool-cases (bytes_eq id j))
  where
    at_key :
        (bytes_eq id j ≡ true) ⊎ (bytes_eq id j ≡ false)
        → state_in
            (if bytes_eq id j then instead c' (lookup j s.containers) else lookup j s.containers)
          ≡ (if bytes_eq id j then some c'.state else view s j)
    at_key (inl equal) = rw equal (
        ap (λ o. state_in (instead c' o))
          (ap (λ k. lookup k s.containers) (sym (bytes_eq→eq id j equal)) ∙ there))
    at_key (inr apart) = rw apart refl

module _ {W : Type 0} (world : World W) where
  -- What an order to a container has to come to.
  abbrev pub Refines : Bytes → StateString → Sandbox → At W × Result Unit → Type 0
  Refines id state s r =
      Yields (λ s'. Spares id (view s) (view s')) (λ _ s'. Moves id state (view s) (view s')) r

  settle-Refines :
      (id : Bytes) (state : StateString) (c : Container) (s : Sandbox)
      (r : Container × W × Result Unit)
      → lookup id s.containers ≡ some c
      → Fit id r.0
      → Leaves state r
      → Refines id state s (settle world s r)
  unfolding Yields
  settle-Refines id state c s (c', w, ok a) there fit left =
      subst (λ z. Moves id z (view s) (view (put_back c' s))) left
        (view-put_back id c c' s there fit.its_id)
  settle-Refines id state c s (c', w, error e) there fit left =
      (some c'.state, view-put_back id c c' s there fit.its_id)

  -- The promises of lifecycle-Leaves, for a container that is fit.
  order-Leaves :
      (order : Order) (sandbox : StateString) (id : Bytes) (c : Container) (s : Sandbox) (w : W)
      → Fit id c
      → Leaves (target order) (ordered order sandbox (inside world s) c w)
  order-Leaves (to_stop force) sandbox id c s w h =
      (lifecycle-Leaves (inside world s) force sandbox c w (Fit-ne_nil id c h) h.created).1
  order-Leaves to_kill sandbox id c s w h =
      (lifecycle-Leaves (inside world s) false sandbox c w (Fit-ne_nil id c h) h.created).2
  order-Leaves to_pause sandbox id c s w h =
      (lifecycle-Leaves (inside world s) false sandbox c w (Fit-ne_nil id c h) h.created).3
  order-Leaves to_resume sandbox id c s w h =
      (lifecycle-Leaves (inside world s) false sandbox c w (Fit-ne_nil id c h) h.created).4

  order-Fit : (order : Order) (sandbox : StateString) → KeepsFit {W = W} (ordered order sandbox)
  order-Fit (to_stop force) sandbox = stop-Fit force
  order-Fit to_pause sandbox = pause-Fit
  order-Fit to_resume sandbox = resume-Fit sandbox
  order-Fit to_kill sandbox = kill-Fit sandbox

  call-Refines :
      (order : Order) (sandbox : StateString) (id : Bytes) (c : Container) (s : Sandbox) (w : W)
      → lookup id s.containers ≡ some c
      → IsValid s
      → Refines id (target order) s (call world (ordered order sandbox) c (s, w))
  unfolding call
  call-Refines order sandbox id c s w there v =
      let fit = v.fit id c there in
      settle-Refines id (target order) c s (ordered order sandbox (inside world s) c w) there
        (order-Fit order sandbox (inside world s) id c w fit)
        (order-Leaves order sandbox id c s w fit)

  abbrev called_and_stored : Order → StateString → Container → Op W Unit
  called_and_stored order sandbox c = do call world (ordered order sandbox) c; store_sandbox world

  called_and_stored-Refines :
      (order : Order) (sandbox : StateString) (id : Bytes) (s : Sandbox) (w : W)
      → IsValid s
      → Refines id (target order) s (go_on (find id (s, w)) (called_and_stored order sandbox))
  called_and_stored-Refines order sandbox id s w v =
      let I = λ (s' : Sandbox). Spares id (view s) (view s') in
      let Q = λ (a : Unit) (s' : Sandbox). Moves id (target order) (view s) (view s') in
      find-Yields I Q id s w (called_and_stored order sandbox) (unchanged id (view s)) (λ c there.
        go_on-Yields I Q Q (call world (ordered order sandbox) c (s, w)) (λ _. store_sandbox world)
          (call-Refines order sandbox id c s w there v)
          (λ _ s' w' h. store-Yields I Q world s' w' (some (target order), h) h))

  abbrev pub carry_out : Order → Bytes → Op W Unit
  carry_out (to_stop force) id = stop_container world id force
  carry_out to_pause id = pause_container world id
  carry_out to_resume id = resume_container world id
  carry_out to_kill id = kill_container world id

  -- A kill for which there is nothing to do.
  abbrev pub Idle : Order → Bytes → Sandbox → W → Sandbox → Type 0
  Idle to_kill id s w s' = (client_not_exist world.host id w ≡ true) × (s' ≡ s)
  Idle _ id s w s' = ⊥

  abbrev pub Obeys : Order → Bytes → Sandbox → W → At W × Result Unit → Type 0
  Obeys order id s w r =
      Yields (λ s'. Spares id (view s) (view s'))
        (λ _ s'. Moves id (target order) (view s) (view s') ⊎ Idle order id s w s') r

  moved-Obeys :
      (order : Order) (id : Bytes) (s : Sandbox) (w : W) (r : At W × Result Unit)
      → Refines id (target order) s r
      → Obeys order id s w r
  moved-Obeys order id s w r h =
      map-Yields (λ s'. Spares id (view s) (view s'))
        (λ _ s'. Moves id (target order) (view s) (view s'))
        (λ _ s'. Moves id (target order) (view s) (view s') ⊎ Idle order id s w s') r
        (λ _ _ m. inl m) h

  kill-Obeys :
      (id : Bytes) (s : Sandbox) (w : W)
      → IsValid s
      → Obeys to_kill id s w (kill_container world id (s, w))
  unfolding kill_container
  kill-Obeys id s w v =
      let I = λ (s' : Sandbox). Spares id (view s) (view s') in
      let Q =
        λ (a : Unit) (s' : Sandbox). Moves id stopped (view s) (view s') ⊎ Idle to_kill id s w s' in
      find-Yields I Q id s w (kill_if_there world) (unchanged id (view s)) (λ c there.
        if-Yields I Q (client_not_exist world.host c.config.id w) _ _
          (λ absent. ok-Yields I Q tt s w (
            inr (
              ap (λ k. client_not_exist world.host k w) (sym (v.fit id c there).its_id) ∙ absent,
              refl,
            )))
          (λ _.
            moved-Obeys to_kill id s w (call world (ordered to_kill s.state) c (s, w))
              (call-Refines to_kill s.state id c s w there v)))

  -- For a valid sandbox: StopContainer, PauseContainer, ResumeContainer and KillContainer without an error
  -- set the state of the container of the id to stopped, paused, running and stopped, or, for a kill whose
  -- client has no socket, change nothing. With an error they change the state of no other container.
  pub container_orders_lem :
      (order : Order) (id : Bytes) (s : Sandbox) (w : W)
      → IsValid s
      → Obeys order id s w (carry_out order id (s, w))
  unfolding stop_container pause_container resume_container go_on
  container_orders_lem (to_stop force) id s w v =
      moved-Obeys (to_stop force) id s w _
        (called_and_stored-Refines (to_stop force) s.state id s w v)
  container_orders_lem to_pause id s w v =
      moved-Obeys to_pause id s w _ (called_and_stored-Refines to_pause s.state id s w v)
  container_orders_lem to_resume id s w v =
      moved-Obeys to_resume id s w _ (called_and_stored-Refines to_resume s.state id s w v)
  container_orders_lem to_kill id s w v = kill-Obeys id s w v
