-- ===== src/Shim/Outcome/Watch.antt =====
-- pkg/shim/shimContainer.go: how waitContainerExit, the watcher of a container, ends.
use micrun.Prelude.{arith, ℕ, true, false, not, Bytes, ◌≡◌, refl}
use micrun.Sandbox.Core.{World}
use micrun.Sandbox.Calls.{stop_container}
use micrun.Shim.Core.{
  ShimContainer, ShimService, container_not_found, Outcome, done, failed, blocked, panicked, exited,
  At, Op, go_on, with_lock, has_sandbox, ask_sandbox, put, write, stopped, can_be_sandbox,
  is_cri_sandbox,
}
use micrun.Shim.Ending.{Ground, request_container_kill, sigkill, ignore}
use micrun.Shim.Watching.{
  io_closed, canceled, timed_out, Wake, wait_container_exit, woken, kill_and_await, await_closed,
  refind, end_in_sandbox, exited_at, finish, put_exit, finish_at,
}
use micrun.Shim.Rules.{Ends, go_on-Ends, if-Ends, done-Ends}
use micrun.Shim.Tidy.{Sound}
use micrun.Shim.Keeping.{Never}
use micrun.Shim.Outcome.{Has, HasSome, Closed, Anyhow, put-Has, ask-Has, end_sandbox-Has}
use micrun.Shim.Outcome.Kill.{Alive, with_lock-HasSome, find-Has, request_container_kill_lem}

-- The container has come to its end.
abbrev pub Ended : ShimContainer → Type 0
Ended c = (c.status ≡ stopped) × (c.exit_closed ≡ true)

-- No container.
abbrev pub NoContainer : ShimContainer → Type 0
NoContainer c = ⊥

-- A wake that can come: the channel is closed, or the container is not stopped and has a timer if that fires.
abbrev pub Comes : Wake → ShimContainer → Type 0
Comes io_closed c = c.exit_closed ≡ true
Comes canceled c = Alive c
Comes timed_out c = Alive c × (is_cri_sandbox c.c_type ≡ false)

module _ {W : Type 0} (world : World W) (outside : Ground W) (id : Bytes) where
  kill_and_await-Ends :
      (c : ShimContainer) (s : ShimService) (w : W)
      → c.id ≡ id
      → HasSome id false Alive s
      → Ends Never Never Anyhow
          (λ _. HasSome id false Closed)
          (kill_and_await world outside c (s, w))
  kill_and_await-Ends c s w named h =
      let Q = λ (_ : Unit). HasSome id false Closed in
      rw named (
        go_on-Ends Never Never Anyhow Q Q (request_container_kill world outside id sigkill (s, w))
          (λ _ at. go_on (refind world outside id at) (await_closed world outside))
          (request_container_kill_lem world outside id s w h)
          (λ _ s' w' k.
            find-Has id Never Q false container_not_found Closed s' w' (await_closed world outside)
              k
              (λ c' has named' fit closed.
                rw closed
                  (done-Ends Never Never Anyhow Q tt s' w' (c', has, named', fit, closed)))))

  woken-Ends :
      (wake : Wake) (c : ShimContainer) (s : ShimService) (w : W)
      → c.id ≡ id
      → Sound c
      → Has id false c s
      → Comes wake c
      → Ends Never Never Anyhow (λ _. HasSome id false Closed) (woken world outside wake c (s, w))
  woken-Ends io_closed c s w named fit has closed = rw closed (
      done-Ends Never Never Anyhow (λ _. HasSome id false Closed) tt s w
        (c, has, named, fit, closed))
  woken-Ends canceled c s w named fit has alive =
      kill_and_await-Ends c s w named (c, has, named, fit, alive)
  woken-Ends timed_out c s w named fit has (alive, timed) =
      rw timed (kill_and_await-Ends c s w named (c, has, named, fit, alive))

  end_in_sandbox-Ends :
      (c : ShimContainer) (s : ShimService) (w : W)
      → Has id true c s
      → Ends Never Never Anyhow (λ _. Has id true c) (end_in_sandbox world outside c (s, w))
  end_in_sandbox-Ends c s w h =
      let Q = λ (_ : Unit). Has id true c in
      if-Ends Never Never Anyhow Q (not (has_sandbox s.sandbox)) _ _
        (λ _. done-Ends Never Never Anyhow Q tt s w h)
        (λ there.
          let is_there : has_sandbox s.sandbox ≡ true = ground arith in
          if-Ends Never Never Anyhow Q (can_be_sandbox c.c_type) _ _
            (λ _. end_sandbox-Has world outside id Never c s w true is_there h)
            (λ _.
              go_on-Ends Never Never Anyhow
                (λ _ s'. Has id true c s' × (has_sandbox s'.sandbox ≡ true)) Q
                (ask_sandbox (stop_container world c.id true) (s, w)) (ignore world outside)
                (ask-Has id Never c (stop_container world c.id true) s w true is_there h)
                (λ r s' w' k. done-Ends Never Never Anyhow Q tt s' w' k.0)))

  finish-Ends :
      (now : ℕ) (c : ShimContainer) (s : ShimService) (w : W)
      → Has id true c s
      → c.id ≡ id
      → Sound c
      → c.exit_closed ≡ true
      → Ends Never Never Anyhow (λ _. HasSome id true Ended) (finish world outside now c (s, w))
  finish-Ends now c s w has named fit closed =
      go_on-Ends Never Never Anyhow (λ _. Has id true c) (λ _. HasSome id true Ended)
        (end_in_sandbox world outside c (s, w)) (λ _. write (exited_at world outside now c))
        (end_in_sandbox-Ends c s w has)
        (λ _ s' w' k.
          done-Ends Never Never Anyhow (λ _. HasSome id true Ended) tt
            (put (exited_at world outside now c) s') w'
            (
              exited_at world outside now c,
              put-Has id true c (exited_at world outside now c) s' named k,
              named,
              fit,
              (refl, closed),
            ))

  abbrev finish_locked : ℕ → Op W Unit
  finish_locked now at = go_on (refind world outside id at) (finish world outside now)

  -- What does not fail.
  forget_failing :
      (I : ShimService → Type 0) (Q : Unit {0} → ShimService → Type 0) (r : At W × Outcome Unit)
      → Ends Never Never Anyhow Q r
      → Ends I Never Anyhow Q r
  unfolding Ends
  forget_failing I Q ((s, w), done a) h = h
  forget_failing I Q ((s, w), failed e) h = absurd h
  forget_failing I Q ((s, w), blocked) h = h
  forget_failing I Q ((s, w), panicked) h = tt
  forget_failing I Q ((s, w), exited) h = tt

  unfailing :
      (Q : Unit {0} → ShimService → Type 0) (r : At W × Outcome Unit)
      → Ends (HasSome id false NoContainer) Never Anyhow Q r
      → Ends Never Never Anyhow Q r
  unfolding Ends
  unfailing Q ((s, w), done a) h = h
  unfailing Q ((s, w), failed e) (c, has, named, fit, p) = p
  unfailing Q ((s, w), blocked) h = h
  unfailing Q ((s, w), panicked) h = tt
  unfailing Q ((s, w), exited) h = tt

  finish_at-Ends :
      (s : ShimService) (w : W)
      → HasSome id false Closed s
      → Ends Never Never Anyhow (λ _. HasSome id false Ended) (finish_at world outside id (s, w))
  finish_at-Ends s w (c, (free, there), named, fit, closed) =
      let Q = λ (_ : Unit). HasSome id false Ended in
      let now = outside.now w in
      go_on-Ends Never Never Anyhow Q Q (with_lock (finish_locked now) (s, w))
        (λ _. put_exit world outside now id)
        (unfailing Q (with_lock (finish_locked now) (s, w)) (
          with_lock-HasSome id Ended NoContainer (finish_locked now) s w free (
            forget_failing (HasSome id true NoContainer) (λ _. HasSome id true Ended)
              (finish_locked now (record s { locked = true }, w))
              (find-Has id Never (λ _. HasSome id true Ended) true container_not_found Closed
                (record s { locked = true }) w (finish world outside now)
                (c, (refl, there), named, fit, closed)
                (λ c' has named' fit' closed'.
                  finish-Ends now c' (record s { locked = true }) w has named' fit' closed')))))
        (λ _ s' w' k.
          find-Has id Never Q false container_not_found Ended s' w' _ k (λ c' has named' fit' ended.
            done-Ends Never Never Anyhow Q tt _ w' (c', has, named', fit', ended)))

  -- For a service whose lock is free and a container of it with a wake that can come: waitContainerExit neither
  -- fails nor hangs. It leaves the container stopped, its exit channel closed and the lock free, whatever the
  -- sandbox says, unless the process panics.
  pub wait_container_exit_lem :
      (wake : Wake) (s : ShimService) (w : W)
      → HasSome id false (Comes wake) s
      → Ends Never Never Anyhow
          (λ _. HasSome id false Ended)
          (wait_container_exit world outside wake id (s, w))
  unfolding wait_container_exit
  wait_container_exit_lem wake s w h =
      let Q = λ (_ : Unit). HasSome id false Ended in
      find-Has id Never Q false container_not_found (Comes wake) s w
        (λ c at. go_on (woken world outside wake c at) (λ _. finish_at world outside id)) h
        (λ c has named fit comes.
          go_on-Ends Never Never Anyhow (λ _. HasSome id false Closed) Q
            (woken world outside wake c (s, w)) (λ _. finish_at world outside id)
            (woken-Ends wake c s w named fit has comes) (λ _ s' w' k. finish_at-Ends s' w' k))
