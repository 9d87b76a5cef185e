-- ===== src/Shim/Outcome/Kill.antt =====
-- pkg/shim/kill.go: requestContainerKill closes the exit channel of its container.
use micrun.Prelude.{Bool, true, false, Bytes, [], ◌≡◌, refl}
use micrun.Sandbox.Core.{World}
use micrun.Shim.Core.{
  ShimContainer, ShimService, container_not_found, Fault, Outcome, done, failed, blocked, panicked,
  exited, At, Op, go_on, lock, unlock_after, with_lock, find, stopped,
}
use micrun.Shim.Ending.{
  Ground, kill, kill_locked, deliver, request_container_kill, exit_if_failed, same_status, sigkill,
}
use micrun.Shim.Rules.{Ends}
use micrun.Shim.Tidy.{Sound}
use micrun.Shim.Keeping.{Never}
use micrun.Shim.Outcome.{Has, HasSome, Any, Closed, Anyhow, io_exit-Closed, kill_task-Ends}

abbrev pub Alive : ShimContainer → Type 0
Alive c = same_status c.status stopped ≡ false

module _ {W : Type 0} (id : Bytes) where
  -- The lock is given back.
  unlock_after-HasSome :
      {A : Type 0} (P Q : ShimContainer → Type 0) (r : At W × Outcome A)
      → Ends (HasSome id true Q) Never Anyhow (λ _. HasSome id true P) r
      → Ends (HasSome id false Q) Never Anyhow (λ _. HasSome id false P) (unlock_after r)
  unfolding Ends unlock_after
  unlock_after-HasSome P Q ((s, w), done a) (c, (held, there), named, fit, p) =
      (c, (refl, there), named, fit, p)
  unlock_after-HasSome P Q ((s, w), failed e) (c, (held, there), named, fit, p) =
      (c, (refl, there), named, fit, p)
  unlock_after-HasSome P Q ((s, w), blocked) h = h
  unlock_after-HasSome P Q ((s, w), panicked) h = tt
  unlock_after-HasSome P Q ((s, w), exited) h = tt

  pub with_lock-HasSome :
      {A : Type 0} (P Q : ShimContainer → Type 0) (m : Op W A) (s : ShimService) (w : W)
      → s.locked ≡ false
      → Ends
          (HasSome id true Q)
          Never
          Anyhow
          (λ _. HasSome id true P)
          (m (record s { locked = true }, w))
      → Ends (HasSome id false Q) Never Anyhow (λ _. HasSome id false P) (with_lock m (s, w))
  unfolding with_lock lock go_on
  with_lock-HasSome P Q m s w free h = rw free (unlock_after-HasSome P Q _ h)

  pub find-Has :
      {A : Type 0} (I : ShimService → Type 0) (Q : A → ShimService → Type 0) (b : Bool) (e : Fault)
      (P : ShimContainer → Type 0) (s : ShimService) (w : W) (next : ShimContainer → Op W A)
      → HasSome id b P s
      → ((c : ShimContainer)
          → Has id b c s
          → c.id ≡ id
          → Sound c
          → P c
          → Ends I Never Anyhow Q (next c (s, w)))
      → Ends I Never Anyhow Q (go_on (find e id (s, w)) next)
  unfolding find go_on
  find-Has I Q b e P s w next (c, (held, there), named, fit, p) step =
      rw there (step c (held, there) named fit p)

module _ {W : Type 0} (world : World W) (outside : Ground W) (id : Bytes) where
  kill-Ends :
      (s : ShimService) (w : W)
      → HasSome id false Alive s
      → Ends
          (HasSome id false Any)
          Never
          Anyhow
          (λ _. HasSome id false Closed)
          (kill world outside id [] sigkill (s, w))
  unfolding kill
  kill-Ends s w (c, (free, there), named, fit, p) =
      with_lock-HasSome id Closed Any (kill_locked world outside id [] sigkill) s w free (
        find-Has id (HasSome id true Any) (λ _. HasSome id true Closed) true container_not_found
          Alive (record s { locked = true }) w (deliver world outside sigkill [])
          (c, (refl, there), named, fit, p)
          (λ c' has named' fit' alive.
            kill_task-Ends world outside id c' (record s { locked = true }) w named' fit' alive
              has))

  exit_if_failed-Ends :
      (r : At W × Outcome Unit)
      → Ends (HasSome id false Any) Never Anyhow (λ _. HasSome id false Closed) r
      → Ends Never Never Anyhow (λ _. HasSome id false Closed) (exit_if_failed world outside id r)
  unfolding Ends
  exit_if_failed-Ends ((s, w), done a) h = h
  exit_if_failed-Ends ((s, w), failed e) (c, (free, there), named, fit, p) =
      rw there (io_exit-Closed id Never c s w false named fit (free, there))
  exit_if_failed-Ends ((s, w), blocked) h = h
  exit_if_failed-Ends ((s, w), panicked) h = h
  exit_if_failed-Ends ((s, w), exited) h = h

  -- For a service whose lock is free and a container of it that is not stopped: requestContainerKill
  -- with SIGKILL neither fails nor hangs, and leaves the exit channel of the container closed and
  -- the lock free, also where the kill is refused, unless the process panics.
  pub request_container_kill_lem :
      (s : ShimService) (w : W)
      → HasSome id false Alive s
      → Ends Never Never Anyhow
          (λ _. HasSome id false Closed)
          (request_container_kill world outside id sigkill (s, w))
  unfolding request_container_kill
  request_container_kill_lem s w h =
      exit_if_failed-Ends (kill world outside id [] sigkill (s, w)) (kill-Ends s w h)
