-- ===== src/Shim/Outcome.antt =====
-- pkg/shim: what a kill and the watcher of a container come to.
use micrun.Prelude.{
  ℕ, Bool, true, false, ◌&&◌, ◌||◌, not, Option, none, some, Bytes, [], ◌≡◌, refl, sym, ap, ◌∙◌,
  if◌then◌else◌, arith, subst, inl, inr, Bool-cases, ◌==◌,
}
use micrun.Keyed.{lookup, replace, lookup-replace_self}
use micrun.Container.Core.{Error, Result, ok, error}
use micrun.Container.State.{StateString}
use micrun.Sandbox.Core.{Sandbox, World}
use micrun.Sandbox.Lifecycle.{stop_sandbox, delete_sandbox}
use micrun.Sandbox.Calls.{kill_container, container_status, status_container, stop_container}
use micrun.Shim.Core.{
  Status, ShimContainer, ShimService, Fault, sandbox_not_found, Outcome, done, At, Op, fail, go_on,
  has_sandbox, ask_sandbox, put, write, at_status, unknown, stopped, can_be_sandbox, io_exit,
}
use micrun.Shim.Ending.{
  Ground, get_container_status, answered_status, refresh_status, end_sandbox, end_and_drop,
  drop_sandbox, kill_sandbox, killed, exit_unknown, log_status, ignore, kill_in_sandbox, kill_task,
  same_status,
}
use micrun.Shim.Rules.{
  Ends, go_on-Ends, if-Ends, done-Ends, failed-Ends, panicked-Ends, ask_sandbox-Ends,
}
use micrun.Shim.Tidy.{Sound}
use micrun.Shim.Keeping.{Never}
pub mod Kill
pub mod Watch

-- The service holds this container under the id, and its lock is held or not.
abbrev pub Has : Bytes → Bool → ShimContainer → ShimService → Type 0
Has id b c s = (s.locked ≡ b) × (lookup id s.containers ≡ some c)

-- The service holds a container of which something is known under the id.
abbrev pub HasSome : Bytes → Bool → (ShimContainer → Type 0) → ShimService → Type 0
HasSome id b P s = (c : ShimContainer) × Has id b c s × (c.id ≡ id) × Sound c × P c

abbrev pub Any : ShimContainer → Type 0
Any c = Unit

abbrev pub Closed : ShimContainer → Type 0
Closed c = c.exit_closed ≡ true

abbrev pub Anyhow : ShimService → Type 0
Anyhow s = Unit

pub put-Has :
    (id : Bytes) (b : Bool) (c c' : ShimContainer) (s : ShimService)
    → c'.id ≡ id
    → Has id b c s
    → Has id b c' (put c' s)
unfolding put
put-Has id b c c' s named (held, there) = (
  held,
  ap (λ k. lookup id (replace k c' s.containers)) named
      ∙ lookup-replace_self id c' c s.containers there,
)

module _ {W : Type 0} (id : Bytes) (I : ShimService → Type 0) where
  -- After ioExit the channel is closed.
  pub io_exit-Closed :
      (c : ShimContainer) (s : ShimService) (w : W) (b : Bool)
      → c.id ≡ id
      → Sound c
      → Has id b c s
      → Ends I Never Anyhow (λ _. HasSome id b Closed) (io_exit c (s, w))
  unfolding io_exit
  io_exit-Closed c s w b named fit h =
      let Q = λ (_ : Unit). HasSome id b Closed in
      let shut = record c { exit_once = true; exit_closed = true } in
      if-Ends I Never Anyhow Q c.exit_once _ _
        (λ once. done-Ends I Never Anyhow Q tt s w (c, h, named, fit, fit once))
        (λ fresh.
          if-Ends I Never Anyhow Q c.exit_closed _ _
            (λ closed. panicked-Ends I Never Anyhow Q _ w tt)
            (λ open_.
              done-Ends I Never Anyhow Q tt (put shut s) w
                (shut, put-Has id b c shut s named h, named, λ _. refl, refl)))

  pub ask-Has :
      {A : Type 0} (c : ShimContainer) (op : Sandbox × W → (Sandbox × W) × Result A)
      (s : ShimService) (w : W) (b : Bool)
      → has_sandbox s.sandbox ≡ true
      → Has id b c s
      → Ends I Never Anyhow
          (λ _ s'. Has id b c s' × (has_sandbox s'.sandbox ≡ true))
          (ask_sandbox op (s, w))
  ask-Has c op s w b there h =
      ask_sandbox-Ends I Never Anyhow (λ _ s'. Has id b c s' × (has_sandbox s'.sandbox ≡ true)) op s
        w there (λ sandbox r. (h, refl))

module _ {W : Type 0} (world : World W) (outside : Ground W) (id : Bytes)
    (I : ShimService → Type 0) where
  pub end_sandbox-Has :
      (c : ShimContainer) (s : ShimService) (w : W) (b : Bool)
      → has_sandbox s.sandbox ≡ true
      → Has id b c s
      → Ends I Never Anyhow (λ _. Has id b c) (end_sandbox world outside (s, w))
  end_sandbox-Has c s w b there h =
      let Q =
        λ (_ : Result Unit) (s' : ShimService). Has id b c s' × (has_sandbox s'.sandbox ≡ true) in
      go_on-Ends I Never Anyhow Q (λ _. Has id b c) (ask_sandbox (stop_sandbox world true) (s, w)) _
        (ask-Has id I c (stop_sandbox world true) s w b there h)
        (λ r s' w' k.
          go_on-Ends I Never Anyhow Q (λ _. Has id b c)
            (ask_sandbox (delete_sandbox world) (s', w')) (λ _ at. (at, done tt))
            (ask-Has id I c (delete_sandbox world) s' w' b k.1 k.0)
            (λ r' s'' w'' k'. done-Ends I Never Anyhow (λ _. Has id b c) tt s'' w'' k'.0))

module _ {W : Type 0} (world : World W) (outside : Ground W) (id : Bytes) where
  abbrev pub Failing : ShimService → Type 0
  Failing s = HasSome id true Any s

  refresh_status-Ends :
      (c : ShimContainer) (s : ShimService) (w : W)
      → c.id ≡ id
      → Sound c
      → Has id true c s
      → Ends Failing Never Anyhow (λ _. Failing) (refresh_status world outside c (s, w))
  unfolding get_container_status
  refresh_status-Ends c s w named fit h =
      go_on-Ends Failing Never Anyhow (λ _. Has id true c) (λ _. Failing)
        (get_container_status world outside c.id (s, w)) (λ status. write (at_status status c))
        (if-Ends Failing Never Anyhow (λ _. Has id true c) (has_sandbox s.sandbox) _ _
          (λ there.
            go_on-Ends Failing Never Anyhow
              (λ _ s'. Has id true c s' × (has_sandbox s'.sandbox ≡ true)) (λ _. Has id true c)
              (ask_sandbox (status_container world c.id) (s, w)) (answered_status world outside)
              (ask-Has id Failing c (status_container world c.id) s w true there h)
              (λ r s' w' k. done-Ends Failing Never Anyhow (λ _. Has id true c) _ s' w' k.0))
          (λ _. done-Ends Failing Never Anyhow (λ _. Has id true c) unknown s w h))
        (λ status s' w' k.
          done-Ends Failing Never Anyhow (λ _. Failing) tt (put (at_status status c) s') w'
            (at_status status c, put-Has id true c (at_status status c) s' named k, named, fit, tt))

  write_and_exit-Ends :
      (status : Status) (c : ShimContainer) (s : ShimService) (w : W)
      → c.id ≡ id
      → Sound c
      → Has id true c s
      → Ends Failing Never Anyhow
          (λ _. HasSome id true Closed)
          (go_on (write (at_status status c) (s, w)) (λ _. io_exit (at_status status c)))
  unfolding go_on
  write_and_exit-Ends status c s w named fit h =
      io_exit-Closed id Failing (at_status status c) (put (at_status status c) s) w true named fit
        (put-Has id true c (at_status status c) s named h)

  log_status-Ends :
      (name : Bytes) (s : ShimService) (w : W)
      → HasSome id true Closed s
      → Ends Failing Never Anyhow
          (λ _. HasSome id true Closed)
          (log_status world outside name (s, w))
  unfolding log_status
  log_status-Ends name s w h =
      let Q = λ (_ : Unit). HasSome id true Closed in
      if-Ends Failing Never Anyhow Q (has_sandbox s.sandbox) _ _
        (λ there.
          go_on-Ends Failing Never Anyhow (λ _. HasSome id true Closed) Q
            (ask_sandbox (container_status world name) (s, w)) (ignore world outside)
            (ask_sandbox-Ends Failing Never Anyhow (λ _. HasSome id true Closed)
              (container_status world name) s w there (λ sandbox r. h))
            (λ r s' w' k. done-Ends Failing Never Anyhow Q tt s' w' k))
        (λ _. done-Ends Failing Never Anyhow Q tt s w h)

  killed-Ends :
      (c : ShimContainer) (r : Result Unit) (s : ShimService) (w : W)
      → c.id ≡ id
      → Sound c
      → Has id true c s
      → Ends Failing Never Anyhow (λ _. HasSome id true Closed) (killed world outside c r (s, w))
  killed-Ends c (ok _) s w named fit h =
      let Q = λ (_ : Unit). HasSome id true Closed in
      go_on-Ends Failing Never Anyhow Q Q (exit_unknown world outside c (s, w))
        (λ _. log_status world outside c.id) (write_and_exit-Ends unknown c s w named fit h)
        (λ _ s' w' k. log_status-Ends c.id s' w' k)
  killed-Ends c (error e) s w named fit h =
      go_on-Ends Failing Never Anyhow (λ _. Failing) (λ _. HasSome id true Closed)
        (refresh_status world outside c (s, w)) (λ _. fail (Fault.from_sandbox e))
        (refresh_status-Ends c s w named fit h)
        (λ _ s' w' k.
          failed-Ends Failing Never Anyhow (λ _. HasSome id true Closed) (Fault.from_sandbox e) s'
            w' k)

  end_and_drop-Ends :
      (c : ShimContainer) (s : ShimService) (w : W)
      → Has id true c s
      → Ends Failing Never Anyhow (λ _. Has id true c) (end_and_drop world outside (s, w))
  end_and_drop-Ends c s w h =
      if-Ends Failing Never Anyhow (λ _. Has id true c) (has_sandbox s.sandbox) _ _
        (λ there.
          go_on-Ends Failing Never Anyhow (λ _. Has id true c) (λ _. Has id true c)
            (end_sandbox world outside (s, w)) (λ _. drop_sandbox world outside)
            (end_sandbox-Has world outside id Failing c s w true there h)
            (λ _ s' w' k. done-Ends Failing Never Anyhow (λ _. Has id true c) tt _ w' k))
        (λ _. done-Ends Failing Never Anyhow (λ _. Has id true c) tt s w h)

  pub kill_task-Ends :
      (c : ShimContainer) (s : ShimService) (w : W)
      → c.id ≡ id
      → Sound c
      → same_status c.status stopped ≡ false
      → Has id true c s
      → Ends Failing Never Anyhow (λ _. HasSome id true Closed) (kill_task world outside c (s, w))
  kill_task-Ends c s w named fit alive h =
      let Q = λ (_ : Unit). HasSome id true Closed in
      rw alive (
        if-Ends Failing Never Anyhow Q (can_be_sandbox c.c_type) _ _
          (λ _.
            go_on-Ends Failing Never Anyhow (λ _. Has id true c) Q
              (end_and_drop world outside (s, w))
              (λ _ at. go_on (write (at_status stopped c) at) (λ _. io_exit (at_status stopped c)))
              (end_and_drop-Ends c s w h)
              (λ _ s' w' k. write_and_exit-Ends stopped c s' w' named fit k))
          (λ _.
            if-Ends Failing Never Anyhow Q (has_sandbox s.sandbox) _ _
              (λ there.
                go_on-Ends Failing Never Anyhow
                  (λ _ s'. Has id true c s' × (has_sandbox s'.sandbox ≡ true)) Q
                  (ask_sandbox (kill_container world c.id) (s, w)) (killed world outside c)
                  (ask-Has id Failing c (kill_container world c.id) s w true there h)
                  (λ r s' w' k. killed-Ends c r s' w' named fit k.0))
              (λ _.
                failed-Ends Failing Never Anyhow Q sandbox_not_found s w (c, h, named, fit, tt))))
