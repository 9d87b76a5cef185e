-- ===== src/Shim/Rules.antt =====
-- pkg/shim: rules for what holds after an operation of the service, by the way it ends.
use micrun.Prelude.{Bool, true, false, Option, none, some, Bytes, ◌≡◌, refl, if◌then◌else◌}
use micrun.Keyed.{lookup}
use micrun.Container.Core.{Result, ok, error}
use micrun.Sandbox.Core.{Sandbox}
use micrun.Shim.Core.{
  ShimContainer, ShimService, Fault, Outcome, done, failed, blocked, panicked, exited, At, Op,
  go_on, find, has_sandbox, ask_sandbox, asked_sandbox, ask_present, present_or, or_fail,
}

module _ {W : Type 0} (I stuck crashed : ShimService → Type 0) where
  -- What the value and the service satisfy, or `I` of the service if there was an error, `stuck` if the
  -- operation waits for ever, `crashed` if it panics or exits.
  unfoldable pub Ends : {A : Type 0} → (A → ShimService → Type 0) → At W × Outcome A → Type 0
  Ends Q ((s, w), done a) = Q a s
  Ends Q ((s, w), failed e) = I s
  Ends Q ((s, w), blocked) = stuck s
  Ends Q ((s, w), panicked) = crashed s
  Ends Q ((s, w), exited) = crashed s

  pub go_on-Ends :
      {A B : Type 0} (Q : A → ShimService → Type 0) (R : B → ShimService → Type 0)
      (r : At W × Outcome A) (next : A → Op W B)
      → Ends Q r
      → ((a : A) (s : ShimService) (w : W) → Q a s → Ends R (next a (s, w)))
      → Ends R (go_on r next)
  unfolding Ends go_on
  go_on-Ends Q R ((s, w), done a) next h step = step a s w h
  go_on-Ends Q R ((s, w), failed e) next h step = h
  go_on-Ends Q R ((s, w), blocked) next h step = h
  go_on-Ends Q R ((s, w), panicked) next h step = h
  go_on-Ends Q R ((s, w), exited) next h step = h

  pub if-Ends :
      {A : Type 0} (Q : A → ShimService → Type 0) (b : Bool) (r r' : At W × Outcome A)
      → (b ≡ true → Ends Q r)
      → (b ≡ false → Ends Q r')
      → Ends Q (if b then r else r')
  if-Ends Q true r r' h h' = h refl
  if-Ends Q false r r' h h' = h' refl

  pub done-Ends :
      {A : Type 0} (Q : A → ShimService → Type 0) (a : A) (s : ShimService) (w : W)
      → Q a s
      → Ends Q ((s, w), done a)
  unfolding Ends
  done-Ends Q a s w h = h

  pub failed-Ends :
      {A : Type 0} (Q : A → ShimService → Type 0) (e : Fault) (s : ShimService) (w : W)
      → I s
      → Ends Q ((s, w), failed e)
  unfolding Ends
  failed-Ends Q e s w h = h

  pub blocked-Ends :
      {A : Type 0} (Q : A → ShimService → Type 0) (s : ShimService) (w : W)
      → stuck s
      → Ends Q ((s, w), blocked)
  unfolding Ends
  blocked-Ends Q s w h = h

  pub panicked-Ends :
      {A : Type 0} (Q : A → ShimService → Type 0) (s : ShimService) (w : W)
      → crashed s
      → Ends Q ((s, w), panicked)
  unfolding Ends
  panicked-Ends Q s w h = h

  pub find-Ends :
      (Q : ShimContainer → ShimService → Type 0) (e : Fault) (id : Bytes) (s : ShimService) (w : W)
      → I s
      → ((c : ShimContainer) → lookup id s.containers ≡ some c → Q c s)
      → Ends Q (find e id (s, w))
  unfolding find
  find-Ends Q e id s w h there = present (lookup id s.containers) there
    where
      present :
          (o : Option ShimContainer)
          → ((c : ShimContainer) → o ≡ some c → Q c s)
          → Ends Q (present_or e o (s, w))
      present none q = failed-Ends Q e s w h
      present (some c) q = done-Ends Q c s w (q c refl)

  -- A call of a sandbox that is there, where what holds does not depend on the sandbox.
  pub ask_sandbox-Ends :
      {A : Type 0} (Q : Result A → ShimService → Type 0)
      (op : Sandbox × W → (Sandbox × W) × Result A) (s : ShimService) (w : W)
      → has_sandbox s.sandbox ≡ true
      → ((sandbox : Sandbox) (r : Result A) → Q r (record s { sandbox = some sandbox }))
      → Ends Q (ask_sandbox op (s, w))
  unfolding ask_sandbox
  ask_sandbox-Ends {A} Q op s w there keep = present s.sandbox there
    where
      answered : (r : (Sandbox × W) × Result A) → Ends Q (asked_sandbox s r)
      answered ((sandbox, w'), r) =
          done-Ends Q r (record s { sandbox = some sandbox }) w' (keep sandbox r)

      present : (o : Option Sandbox) → has_sandbox o ≡ true → Ends Q (ask_present o op (s, w))
      present none h = cc
      present (some sandbox) h = answered (op (sandbox, w))

  pub or_fail-Ends :
      {A : Type 0} (Q : A → ShimService → Type 0) (r : Result A) (s : ShimService) (w : W)
      → I s
      → ((a : A) → Q a s)
      → Ends Q (or_fail r (s, w))
  or_fail-Ends Q (ok a) s w h q = done-Ends Q a s w (q a)
  or_fail-Ends Q (error e) s w h q = failed-Ends Q (Fault.from_sandbox e) s w h
