-- ===== src/Shim/Core.antt =====
-- pkg/shim: the records of shim_services.go, shimContainer.go and events.go, and the requests to the sandbox.
-- The lock `mu` of the service is a flag: who takes it while it is held waits for ever, also its holder. The
-- context, the ids of the namespace and of micad and the monitor, which are only carried along, are left out.
use micrun.Prelude.{
  ℕ, List, [], ◌∷◌, ◌++◌, ◌==◌, Bool, true, false, Option, none, some, Bytes, if◌then◌else◌,
}
use micrun.Keyed.{lookup, replace}
use micrun.Config.Runtime.{RuntimeConfig}
use micrun.Container.Core.{Error, Result, ok, error}
use micrun.Sandbox.Core.{Sandbox}

-- task.Status of containerd
pub data Status : Type 0 where
  unknown created running stopped paused pausing : Status

pub data ContainerType : Type 0 where
  no_type pod_container pod_sandbox side_car single_container unknown_container_type : ContainerType

-- CanBeSandbox
unfoldable pub can_be_sandbox : ContainerType → Bool
can_be_sandbox pod_sandbox = true
can_be_sandbox single_container = true
can_be_sandbox _ = false

-- IsCriSandbox
unfoldable pub is_cri_sandbox : ContainerType → Bool
is_cri_sandbox pod_sandbox = true
is_cri_sandbox _ = false

pub record ShimContainer : Type 0 where
  pub id : Bytes
  pub annotations : List (Bytes × Bytes)
  pub stdin : Bytes
  pub stdout : Bytes
  pub stderr : Bytes
  pub terminal : Bool
  pub bundle : Bytes
  pub c_type : ContainerType
  pub status : Status
  pub exit : ℕ
  pub pid : ℕ
  pub exit_time : ℕ
  pub mounted : Bool
  -- whether there is a ttyio
  pub tty : Bool
  -- stdinCloser and exitIOch, whether they are closed, and exitIoOnce
  pub stdin_closed : Bool
  pub exit_closed : Bool
  pub exit_once : Bool
  -- the goroutines of waitContainerExit
  pub watchers : ℕ

pub record ExitEvent : Type 0 where
  pub ts : ℕ
  pub cid : Bytes
  pub execid : Bytes
  pub pid : ℕ
  pub status : ℕ

-- What goes to containerd.
pub data Event : Type 0 where
  task_create task_start : (id : Bytes) (pid : ℕ) → Event
  task_exec_started : (id exec_id : Bytes) (pid : ℕ) → Event
  task_delete : (id : Bytes) (pid exit_status exited_at : ℕ) → Event
  task_exit : (container_id id : Bytes) (pid exit_status exited_at : ℕ) → Event
  task_paused task_resumed task_oom task_exec_added task_checkpointed : (id : Bytes) → Event
  other : Event

pub record ShimService : Type 0 where
  pub id : Bytes
  pub shim_pid : ℕ
  pub config : Option RuntimeConfig
  pub containers : List (Bytes × ShimContainer)
  -- whether the map and the channel `ec` were made; if not, they are nil
  pub containers_made : Bool
  pub ec_made : Bool
  pub sandbox : Option Sandbox
  -- what was put into the channel `events`, the newest last
  pub events : List Event
  -- the goroutines that put an event into `ec`
  pub exits : List ExitEvent
  pub locked : Bool
  -- whether ss was called
  pub shut_down : Bool

-- The errors of the service; that of the sandbox is passed on.
pub data Fault : Type 0 where
  container_not_found sandbox_not_found invalid_cid not_implemented canceled other : Fault
  from_sandbox : Error → Fault

-- How a request or a goroutine ends: `blocked` if it waits for ever, `exited` by os.Exit.
pub data Outcome (A : Type 0) : Type 0 where
  done : A → Outcome A
  failed : Fault → Outcome A
  blocked panicked exited : Outcome A

-- A service in its world, and an operation on it.
abbrev pub At : Type 0 → Type 0
At W = ShimService × W

abbrev pub Op : Type 0 → Type 0 → Type 0
Op W A = At W → At W × Outcome A

-- s.sandbox != nil
abbrev pub has_sandbox : Option Sandbox → Bool
has_sandbox none = false
has_sandbox (some sandbox) = true

module _ {W : Type 0} where
  abbrev pub pure : {A : Type 0} → A → Op W A
  pure a at = (at, done a)

  abbrev pub fail : {A : Type 0} → Fault → Op W A
  fail e at = (at, failed e)

  abbrev pub block : {A : Type 0} → Op W A
  block at = (at, blocked)

  abbrev pub panic : {A : Type 0} → Op W A
  panic at = (at, panicked)

  -- An operation that goes on if the one before it was done.
  unfoldable pub go_on : {A B : Type 0} → At W × Outcome A → (A → Op W B) → At W × Outcome B
  go_on (at, done a) next = next a at
  go_on (at, failed e) next = (at, failed e)
  go_on (at, blocked) next = (at, blocked)
  go_on (at, panicked) next = (at, panicked)
  go_on (at, exited) next = (at, exited)

  infixl 5 ◌>>=◌ ◌>>◌
  abbrev pub ◌>>=◌ : {A B : Type 0} → Op W A → (A → Op W B) → Op W B
  ◌>>=◌ m next at = go_on (m at) next

  abbrev pub ◌>>◌ : {A B : Type 0} → Op W A → Op W B → Op W B
  ◌>>◌ m next at = go_on (m at) (λ _. next)

  abbrev pub get : Op W ShimService
  get (s, w) = ((s, w), done s)

  abbrev pub modify : (ShimService → ShimService) → Op W Unit
  modify f (s, w) = ((f s, w), done tt)

  abbrev pub when : Bool → Op W Unit → Op W Unit
  when b m at = if b then m at else (at, done tt)

  -- s.mu.Lock()
  unfoldable pub lock : Op W Unit
  lock (s, w) = if s.locked then ((s, w), blocked) else ((record s { locked = true }, w), done tt)

  -- s.mu.Unlock(), which is deferred, so that it runs whenever the operation ends.
  unfoldable pub unlock_after : {A : Type 0} → At W × Outcome A → At W × Outcome A
  unlock_after (at, blocked) = (at, blocked)
  unlock_after ((s, w), done a) = ((record s { locked = false }, w), done a)
  unlock_after ((s, w), failed e) = ((record s { locked = false }, w), failed e)
  unlock_after ((s, w), panicked) = ((record s { locked = false }, w), panicked)
  unlock_after (at, exited) = (at, exited)

  abbrev pub unlocking : {A : Type 0} → Op W A → Unit {0} → Op W A
  unlocking m _ at = unlock_after (m at)

  -- s.mu.Lock(); defer s.mu.Unlock()
  unfoldable pub with_lock : {A : Type 0} → Op W A → Op W A
  unfolding lock go_on unlock_after
  with_lock m at = go_on (lock at) (unlocking m)

  abbrev pub present_or : Fault → Option ShimContainer → Op W ShimContainer
  present_or e none at = (at, failed e)
  present_or e (some c) at = (at, done c)

  -- s.containers[r.ID]
  unfoldable pub find : Fault → Bytes → Op W ShimContainer
  find e id (s, w) = present_or e (lookup id s.containers) (s, w)

  abbrev pub asked_sandbox :
      {A : Type 0} → ShimService → (Sandbox × W) × Result A → At W × Outcome (Result A)
  asked_sandbox s ((sandbox, w), r) = ((record s { sandbox = some sandbox }, w), done r)

  abbrev pub ask_present :
      {A : Type 0} → Option Sandbox → (Sandbox × W → (Sandbox × W) × Result A) → Op W (Result A)
  ask_present none op at = (at, panicked)
  ask_present (some sandbox) op (s, w) = asked_sandbox s (op (sandbox, w))

  -- A call of s.sandbox, which panics if there is none.
  unfoldable pub ask_sandbox :
      {A : Type 0} → (Sandbox × W → (Sandbox × W) × Result A) → Op W (Result A)
  ask_sandbox op (s, w) = ask_present s.sandbox op (s, w)

  abbrev pub or_fail : {A : Type 0} → Result A → Op W A
  or_fail (ok a) at = (at, done a)
  or_fail (error e) at = (at, failed (from_sandbox e))

-- A change of what the pointer to a container points to.
unfoldable pub put : ShimContainer → ShimService → ShimService
unfolding replace
put c s = record s { containers = replace c.id c s.containers }

abbrev pub at_status : Status → ShimContainer → ShimContainer
at_status status c = record c { status = status }

-- send; `events` is there, and its reader makes room.
abbrev pub with_event : Event → ShimService → ShimService
with_event e s = record s { events = s.events ++ e ∷ [] }

abbrev pub send : {W : Type 0} → Event → Op W Unit
send e = modify (with_event e)

abbrev pub write : {W : Type 0} → ShimContainer → Op W Unit
write c = modify (put c)

-- The pid of the container, or that of the shim.
abbrev pub pid_or : ℕ → ShimContainer → ℕ
pid_or shim c = if c.pid == 0 then shim else c.pid

-- c.exitIoOnce.Do, which closes exitIOch. A channel that is closed already panics.
unfoldable pub io_exit : {W : Type 0} → ShimContainer → Op W Unit
io_exit c (s, w) =
    if c.exit_once
    then ((s, w), done tt)
    else if c.exit_closed
    then ((put (record c { exit_once = true }) s, w), panicked)
    else ((put (record c { exit_once = true; exit_closed = true }) s, w), done tt)

-- close(c.stdinCloser)
unfoldable pub close_stdin_closer : {W : Type 0} → ShimContainer → Op W Unit
close_stdin_closer c (s, w) =
    if c.stdin_closed
    then ((s, w), panicked)
    else ((put (record c { stdin_closed = true }) s, w), done tt)
