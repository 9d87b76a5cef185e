-- ===== src/Sandbox/Rules/Results.antt =====
-- pkg/micantainer/sandbox.go: rules for what holds after an operation on a sandbox, by its result.
use micrun.Keyed.{lookup}
use micrun.Container.Core.{Container, Error, Result, container_not_found, error, failed, ok}
use micrun.Prelude.{Option, some, Bool, Bytes, false, if◌then◌else◌, none, true, ◌≡◌, refl, ap}
use micrun.Sandbox.Core.{
  World, asked, find, go_on, logged, present_or, store, store_sandbox, system, Sandbox, At, Op,
}

module _ {W : Type 0} (I : Sandbox → Type 0) where
  -- What the value and the sandbox satisfy, or `I` of the sandbox if there was an error.
  unfoldable pub Yields : {A : Type 0} → (A → Sandbox → Type 0) → At W × Result A → Type 0
  Yields Q ((s, w), ok a) = Q a s
  Yields Q ((s, w), error e) = I s

  pub go_on-Yields :
      {A B : Type 0} (Q : A → Sandbox → Type 0) (R : B → Sandbox → Type 0) (r : At W × Result A)
      (next : A → Op W B)
      → Yields Q r
      → ((a : A) (s : Sandbox) (w : W) → Q a s → Yields R (next a (s, w)))
      → Yields R (go_on r next)
  unfolding Yields go_on
  go_on-Yields Q R ((s, w), ok a) next h step = step a s w h
  go_on-Yields Q R ((s, w), error e) next h step = h

  pub if-Yields :
      {A : Type 0} (Q : A → Sandbox → Type 0) (b : Bool) (r r' : At W × Result A)
      → (b ≡ true → Yields Q r)
      → (b ≡ false → Yields Q r')
      → Yields Q (if b then r else r')
  if-Yields Q true r r' h h' = h refl
  if-Yields Q false r r' h h' = h' refl

  pub ok-Yields :
      {A : Type 0} (Q : A → Sandbox → Type 0) (a : A) (s : Sandbox) (w : W)
      → Q a s
      → Yields Q ((s, w), ok a)
  unfolding Yields
  ok-Yields Q a s w h = h

  pub error-Yields :
      {A : Type 0} (Q : A → Sandbox → Type 0) (e : Error) (s : Sandbox) (w : W)
      → I s
      → Yields Q ((s, w), error e)
  unfolding Yields
  error-Yields Q e s w h = h

  -- What an operation keeps whatever its result.
  pub keeps-Yields : {A : Type 0} (r : At W × Result A) → I r.0.0 → Yields (λ _. I) r
  unfolding Yields
  keeps-Yields ((s, w), ok a) h = h
  keeps-Yields ((s, w), error e) h = h

  pub Yields-Keeps :
      {A : Type 0} (Q : A → Sandbox → Type 0) (r : At W × Result A)
      → ((a : A) (s : Sandbox) → Q a s → I s)
      → Yields Q r
      → I r.0.0
  unfolding Yields
  Yields-Keeps Q ((s, w), ok a) weaker h = weaker a s h
  Yields-Keeps Q ((s, w), error e) weaker h = h

  pub log-Yields : {A : Type 0} (r : At W × Result A) → I r.0.0 → Yields (λ _. I) (logged r)
  unfolding Yields
  log-Yields ((s, w), r) h = h

  pub system-Yields :
      (Q : Unit → Sandbox → Type 0) (e : Error) (request : W → W × Bool) (s : Sandbox) (w : W)
      → I s
      → Q tt s
      → Yields Q (system e request (s, w))
  unfolding system
  system-Yields Q e request s w h q = asked-Yields (request w)
    where
      asked-Yields : (r : W × Bool) → Yields Q (asked e s r)
      asked-Yields (w', true) = ok-Yields Q tt s w' q
      asked-Yields (w', false) = error-Yields Q e s w' h

  -- The same, where the error is that of the request.
  pub tried-Yields :
      (Q : Unit → Sandbox → Type 0) (e : Error) (request : W → W × Bool) (s : Sandbox) (w : W)
      → ((request w).1 ≡ false → I s)
      → Q tt s
      → Yields Q (system e request (s, w))
  unfolding system
  tried-Yields Q e request s w h q = asked-Yields (request w) refl
    where
      asked-Yields : (r : W × Bool) → request w ≡ r → Yields Q (asked e s r)
      asked-Yields (w', true) same = ok-Yields Q tt s w' q
      asked-Yields (w', false) same = error-Yields Q e s w' (h (ap (λ (r : W × Bool). r.1) same))

  pub store-Yields :
      (Q : Unit → Sandbox → Type 0) (world : World W) (s : Sandbox) (w : W)
      → I s
      → Q tt s
      → Yields Q (store_sandbox world (s, w))
  unfolding store_sandbox
  store-Yields Q world s w h q = system-Yields Q failed (store world s) s w h q

  pub find-Yields :
      {A : Type 0} (Q : A → Sandbox → Type 0) (id : Bytes) (s : Sandbox) (w : W)
      (next : Container → Op W A)
      → I s
      → ((c : Container) → lookup id s.containers ≡ some c → Yields Q (next c (s, w)))
      → Yields Q (go_on (find id (s, w)) next)
  unfolding find Yields go_on
  find-Yields {A} Q id s w next h step = present-Yields (lookup id s.containers) step
    where
      present-Yields :
          (o : Option Container)
          → ((c : Container) → o ≡ some c → Yields Q (next c (s, w)))
          → Yields Q (go_on (present_or container_not_found o (s, w)) next)
      present-Yields none step' = h
      present-Yields (some c) step' = step' c refl

-- A weaker property for the errors.
pub weaker-Yields :
    {W A : Type 0} (I J : Sandbox → Type 0)
    → ((s : Sandbox) → I s → J s)
    → (Q : A → Sandbox → Type 0) (r : At W × Result A) → Yields I Q r
    → Yields J Q r
unfolding Yields
weaker-Yields I J weaker Q ((s, w), ok a) h = h
weaker-Yields I J weaker Q ((s, w), error e) h = weaker s h

pub map-Yields :
    {W A : Type 0} (I : Sandbox → Type 0) (Q R : A → Sandbox → Type 0) (r : At W × Result A)
    → ((a : A) (s : Sandbox) → Q a s → R a s)
    → Yields I Q r
    → Yields I R r
unfolding Yields
map-Yields I Q R ((s, w), ok a) f h = f a s h
map-Yields I Q R ((s, w), error e) f h = h
