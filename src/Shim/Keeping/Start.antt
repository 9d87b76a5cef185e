-- ===== src/Shim/Keeping/Start.antt =====
-- pkg/shim: Start, under the lock.
use micrun.Prelude.{◌+◌, ◌||◌, codes, Bool, true, false, not, Option, none, some, Bytes, ◌≡◌, refl}
use micrun.Container.Core.{Result}
use micrun.Container.Presence.{is_nil}
use micrun.Mica.Executor.{bytes_eq}
use micrun.Sandbox.Core.{Sandbox, World}
use micrun.Sandbox.Lifecycle.{start_sandbox}
use micrun.Sandbox.Calls.{start_container, io_stream}
use micrun.Shim.Core.{
  ShimContainer, ShimService, container_not_found, not_implemented, other, go_on, when, has_sandbox,
  ask_sandbox, or_fail, put, write, at_status, running, pid_or, can_be_sandbox, is_cri_sandbox,
  io_exit, close_stdin_closer,
}
use micrun.Shim.Start.{
  Streams, opened, open_unless_nil, new_pipe_io, with_scheme, new_tty_io, io_copy, attach, detached,
  attach_or_detach, has_streams, start_in_sandbox, watch, start_with_sandbox, start_shim_container,
  start_task, is_no_type,
}
use micrun.Shim.Rules.{Ends, go_on-Ends, if-Ends, or_fail-Ends, ask_sandbox-Ends}
use micrun.Shim.Tidy.{Sound, Held, put-Held, same_containers-Tidy, close_stdin_closer-Held}
use micrun.Shim.Keeping.{
  Never, Keeps, go_on-Keeps, if-Keeps, done-Keeps, failed-Keeps, find-Keeps, write-Keeps, ask-Keeps,
  io_exit-Keeps, or_fail-Keeps,
}

module _ {W : Type 0} (world : World W) (streams : Streams W) where
  open_unless_nil-Keeps :
      (path : Bytes) (s : ShimService) (w : W)
      → Held true s
      → Keeps (open_unless_nil world streams path (s, w))
  open_unless_nil-Keeps path s w h =
      if-Keeps (is_nil path) _ _ (λ _. done-Keeps tt s w h) (λ _. answer (streams.open_fifo path w))
    where
      answer : (r : W × Bool) → Keeps (opened world streams s r)
      answer (w', true) = done-Keeps tt s w' h
      answer (w', false) = failed-Keeps Unit other s w' h

  new_tty_io-Keeps :
      (c : ShimContainer) (s : ShimService) (w : W)
      → Held true s
      → Keeps (new_tty_io world streams c (s, w))
  unfolding new_tty_io new_pipe_io
  new_tty_io-Keeps c s w h = schemed (streams.scheme c.stdout)
    where
      schemed : (o : Option Bytes) → Keeps (with_scheme world streams c o (s, w))
      schemed none = failed-Keeps Unit other s w h
      schemed (some scheme) =
          if-Keeps (is_nil scheme || bytes_eq scheme (codes "fifo")) _ _
            (λ _.
              go_on-Keeps (open_unless_nil world streams c.stdin (s, w))
                (λ _. open_unless_nil world streams c.stdout) (open_unless_nil-Keeps c.stdin s w h)
                (λ _ s' w' h'. open_unless_nil-Keeps c.stdout s' w' h'))
            (λ _.
              if-Keeps (bytes_eq scheme (codes "binary") || bytes_eq scheme (codes "file")) _ _
                (λ _. failed-Keeps Unit not_implemented s w h) (λ _. failed-Keeps Unit other s w h))

  close_stdin_closer-Keeps :
      (c : ShimContainer) (s : ShimService) (w : W)
      → Sound c
      → Held true s
      → Keeps (close_stdin_closer c (s, w))
  close_stdin_closer-Keeps c s w fit h = close_stdin_closer-Held true Never c s w fit h

  attach-Keeps :
      (c : ShimContainer) (s : ShimService) (w : W)
      → Sound c
      → Held true s
      → Keeps (attach world streams c (s, w))
  unfolding io_copy
  attach-Keeps c s w fit h =
      let c' = record c { tty = true } in
      go_on-Keeps (new_tty_io world streams c (s, w)) _ (new_tty_io-Keeps c s w h) (λ _ s' w' h'.
        go_on-Keeps (write c' (s', w')) (λ _. io_copy world streams c')
          (write-Keeps c' s' w' fit h')
          (λ _ s'' w'' h''.
            if-Keeps (is_nil c.stdin) _ _ (λ _. close_stdin_closer-Keeps c' s'' w'' fit h'')
              (λ _. done-Keeps tt s'' w'' h'')))

  detached-Keeps :
      (c : ShimContainer) (s : ShimService) (w : W)
      → Sound c
      → Held true s
      → Keeps (detached world streams c (s, w))
  detached-Keeps c s w fit h =
      go_on-Keeps (close_stdin_closer c (s, w))
        (λ _. when (not (is_cri_sandbox c.c_type)) (io_exit (record c { stdin_closed = true })))
        (close_stdin_closer-Keeps c s w fit h)
        (λ _ s' w' h'.
          if-Keeps (not (is_cri_sandbox c.c_type)) _ _
            (λ _. io_exit-Keeps (record c { stdin_closed = true }) s' w' h')
            (λ _. done-Keeps tt s' w' h'))

  watch-Keeps :
      (id : Bytes) (s : ShimService) (w : W) → Held true s → Keeps (watch world streams id (s, w))
  watch-Keeps id s w h =
      find-Keeps container_not_found id s w _ h
        (λ c s' w' fit h'. write-Keeps (record c { watchers = c.watchers + 1 }) s' w' fit h')

  -- A sandbox that is there, beside the rest.
  abbrev There : ShimService → Type 0
  There s = Held true s × (has_sandbox s.sandbox ≡ true)

  start_in_sandbox-Ends :
      (c : ShimContainer) (s : ShimService) (w : W)
      → has_sandbox s.sandbox ≡ true
      → Held true s
      → Ends (Held true) Never (Held true) (λ _. There) (start_in_sandbox world streams c (s, w))
  start_in_sandbox-Ends c s w there h =
      if-Ends (Held true) Never (Held true) (λ _. There) (can_be_sandbox c.c_type) _ _
        (λ _. asks (start_sandbox world)) (λ _. asks (start_container world c.id))
    where
      asks :
          (op : Sandbox × W → (Sandbox × W) × Result Unit)
          → Ends (Held true) Never (Held true) (λ _. There) (ask_sandbox op (s, w))
      asks op =
          ask_sandbox-Ends (Held true) Never (Held true) (λ _. There) op s w there
            (λ sandbox r. ((h.0, same_containers-Tidy s _ refl h.1), refl))

  start_with_sandbox-Keeps :
      (c : ShimContainer) (s : ShimService) (w : W)
      → Sound c
      → has_sandbox s.sandbox ≡ true
      → Held true s
      → Keeps (start_with_sandbox world streams c (s, w))
  unfolding put go_on
  start_with_sandbox-Keeps c s w fit there h =
      go_on-Ends (Held true) Never (Held true) (λ _. There) (λ _. Held true)
        (start_in_sandbox world streams c (s, w)) _ (start_in_sandbox-Ends c s w there h)
        (λ r s1 w1 k1.
          go_on-Ends (Held true) Never (Held true) (λ _. There) (λ _. Held true)
            (or_fail r (s1, w1)) _
            (or_fail-Ends (Held true) Never (Held true) (λ _. There) r s1 w1 k1.0 (λ _. k1))
            (λ _ s2 w2 k2.
              let kept = put-Held true (at_status running c) s2 fit k2.0 in
              go_on-Keeps (ask_sandbox (io_stream world c.id) (put (at_status running c) s2, w2)) _
                (ask-Keeps (io_stream world c.id) (put (at_status running c) s2) w2 k2.1 kept)
                (λ r' s3 w3 k3.
                  go_on-Keeps (or_fail r' (s3, w3)) _ (or_fail-Keeps r' s3 w3 k3) (λ _ s4 w4 k4.
                    go_on-Keeps (attach_or_detach world streams (at_status running c) (s4, w4)) _
                      (if-Keeps (has_streams c) _ _
                        (λ _. attach-Keeps (at_status running c) s4 w4 fit k4)
                        (λ _. detached-Keeps (at_status running c) s4 w4 fit k4))
                      (λ _ s5 w5 k5. watch-Keeps c.id s5 w5 k5)))))

  start_shim_container-Keeps :
      (c : ShimContainer) (s : ShimService) (w : W)
      → Sound c
      → Held true s
      → Keeps (start_shim_container world streams c (s, w))
  unfolding start_shim_container
  start_shim_container-Keeps c s w fit h =
      if-Keeps (is_no_type c.c_type) _ _ (λ _. failed-Keeps Unit other s w h)
        (λ _.
          if-Keeps (has_sandbox s.sandbox) _ _ (λ there. start_with_sandbox-Keeps c s w fit there h)
            (λ _. failed-Keeps Unit other s w h))

  pub start_task-Keeps :
      (exec_id : Bytes) (c : ShimContainer) (s : ShimService) (w : W)
      → Sound c
      → Held true s
      → Keeps (start_task world streams exec_id c (s, w))
  unfolding go_on
  start_task-Keeps exec_id c s w fit h =
      if-Keeps (is_nil exec_id) _ _
        (λ _.
          go_on-Keeps (start_shim_container world streams c (s, w)) _
            (start_shim_container-Keeps c s w fit h)
            (λ _ s' w' h'.
              done-Keeps (pid_or s.shim_pid c) _ w' (h'.0, same_containers-Tidy s' _ refl h'.1)))
        (λ _. done-Keeps s.shim_pid _ w (h.0, same_containers-Tidy s _ refl h.1))
