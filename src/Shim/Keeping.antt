-- ===== src/Shim/Keeping.antt =====
-- pkg/shim: the operations that run under the lock. They do not wait, and keep the lock and what holds of the
-- containers, however they end.
use micrun.Prelude.{
  ℕ, Bool, true, false, ◌&&◌, ◌||◌, not, Option, none, some, Bytes, ◌≡◌, refl, if◌then◌else◌,
}
use micrun.Container.Core.{Result, ok, error}
use micrun.Container.State.{StateString}
use micrun.Sandbox.Core.{Sandbox, World}
use micrun.Sandbox.Lifecycle.{stop_sandbox, delete_sandbox}
use micrun.Sandbox.Members.{delete_container}
use micrun.Sandbox.Calls.{stop_container, kill_container, pause_container, status_container}
use micrun.Shim.Core.{
  Status, ShimContainer, Event, ShimService, Fault, container_not_found, Outcome, done, failed, At,
  Op, go_on, find, has_sandbox, ask_sandbox, or_fail, put, write, send, io_exit, close_stdin_closer,
  at_status, unknown, stopped,
}
use micrun.Shim.Rules.{
  Ends, go_on-Ends, if-Ends, done-Ends, failed-Ends, ask_sandbox-Ends, or_fail-Ends,
}
use micrun.Shim.Tidy.{
  Sound, Tidy, Held, put-Held, same_containers-Tidy, remove-Tidy, find-Held, io_exit-Held,
  close_stdin_closer-Held,
}
pub mod Ending
pub mod Deletion
pub mod Start
pub mod Requests

abbrev pub Never : ShimService → Type 0
Never s = ⊥

module _ {W : Type 0} where
  -- What an operation that does not wait comes to.
  abbrev pub Keeps : {A : Type 0} → At W × Outcome A → Type 0
  Keeps r = Ends (Held true) Never (Held true) (λ _. Held true) r

  pub go_on-Keeps :
      {A B : Type 0} (r : At W × Outcome A) (next : A → Op W B)
      → Keeps r
      → ((a : A) (s : ShimService) (w : W) → Held true s → Keeps (next a (s, w)))
      → Keeps (go_on r next)
  go_on-Keeps r next h step =
      go_on-Ends (Held true) Never (Held true) (λ _. Held true) (λ _. Held true) r next h step

  pub if-Keeps :
      {A : Type 0} (b : Bool) (r r' : At W × Outcome A)
      → (b ≡ true → Keeps r)
      → (b ≡ false → Keeps r')
      → Keeps (if b then r else r')
  if-Keeps b r r' h h' = if-Ends (Held true) Never (Held true) (λ _. Held true) b r r' h h'

  pub done-Keeps :
      {A : Type 0} (a : A) (s : ShimService) (w : W) → Held true s → Keeps ((s, w), done a)
  done-Keeps a s w h = done-Ends (Held true) Never (Held true) (λ _. Held true) a s w h

  pub failed-Keeps :
      (A : Type 0) (e : Fault) (s : ShimService) (w : W)
      → Held true s
      → Keeps {A = A} ((s, w), failed e)
  failed-Keeps A e s w h = failed-Ends (Held true) Never (Held true) (λ _. Held true) e s w h

  pub find-Keeps :
      {A : Type 0} (e : Fault) (id : Bytes) (s : ShimService) (w : W)
      (next : ShimContainer → Op W A)
      → Held true s
      → ((c : ShimContainer) (s' : ShimService) (w' : W)
          → Sound c
          → Held true s'
          → Keeps (next c (s', w')))
      → Keeps (go_on (find e id (s, w)) next)
  find-Keeps e id s w next h step =
      go_on-Ends (Held true) Never (Held true) (λ c s'. Held true s' × Sound c) (λ _. Held true)
        (find e id (s, w)) next (find-Held true Never (Held true) e id s w h)
        (λ c s' w' k. step c s' w' k.1 k.0)

  pub write-Keeps :
      (c : ShimContainer) (s : ShimService) (w : W) → Sound c → Held true s → Keeps (write c (s, w))
  write-Keeps c s w fit h = done-Keeps tt (put c s) w (put-Held true c s fit h)

  pub send-Keeps : (e : Event) (s : ShimService) (w : W) → Held true s → Keeps (send e (s, w))
  send-Keeps e s w h = done-Keeps tt _ w (h.0, same_containers-Tidy s _ refl h.1)

  -- A call of the sandbox, if it is there.
  pub ask-Keeps :
      {A : Type 0} (op : Sandbox × W → (Sandbox × W) × Result A) (s : ShimService) (w : W)
      → has_sandbox s.sandbox ≡ true
      → Held true s
      → Keeps (ask_sandbox op (s, w))
  ask-Keeps op s w there h =
      ask_sandbox-Ends (Held true) Never (Held true) (λ _. Held true) op s w there
        (λ sandbox r. (h.0, same_containers-Tidy s _ refl h.1))

  -- Two calls of it, one after the other.
  pub ask_twice-Keeps :
      {A B C : Type 0} (op : Sandbox × W → (Sandbox × W) × Result A)
      (op' : Sandbox × W → (Sandbox × W) × Result B) (next : Result A → Result B → Op W C)
      (s : ShimService) (w : W)
      → has_sandbox s.sandbox ≡ true
      → Held true s
      → ((r : Result A) (r' : Result B) (s' : ShimService) (w' : W)
          → Held true s'
          → Keeps (next r r' (s', w')))
      → Keeps (go_on (ask_sandbox op (s, w)) (λ r at. go_on (ask_sandbox op' at) (λ r'. next r r')))
  ask_twice-Keeps {A} op op' next s w there h step =
      let Q = λ (a : Result A) (s' : ShimService). Held true s' × (has_sandbox s'.sandbox ≡ true) in
      go_on-Ends (Held true) Never (Held true) Q (λ _. Held true) (ask_sandbox op (s, w))
        (λ r at. go_on (ask_sandbox op' at) (λ r'. next r r'))
        (ask_sandbox-Ends (Held true) Never (Held true) Q op s w there
          (λ sandbox r. ((h.0, same_containers-Tidy s _ refl h.1), refl)))
        (λ r s' w' k.
          go_on-Keeps (ask_sandbox op' (s', w')) (λ r'. next r r') (ask-Keeps op' s' w' k.1 k.0)
            (λ r' s'' w'' h''. step r r' s'' w'' h''))

  pub or_fail-Keeps :
      {A : Type 0} (r : Result A) (s : ShimService) (w : W) → Held true s → Keeps (or_fail r (s, w))
  or_fail-Keeps r s w h =
      or_fail-Ends (Held true) Never (Held true) (λ _. Held true) r s w h (λ _. h)

  pub io_exit-Keeps :
      (c : ShimContainer) (s : ShimService) (w : W) → Held true s → Keeps (io_exit c (s, w))
  io_exit-Keeps c s w h = io_exit-Held true Never c s w h
