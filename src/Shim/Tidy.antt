-- ===== src/Shim/Tidy.antt =====
-- pkg/shim: what holds of the containers of the service, and the operations that keep it.
use micrun.Prelude.{Bool, true, some, Bytes, ◌≡◌, refl, inl, inr, sym, ◌∙◌, ap}
use micrun.Keyed.{lookup, remove, replace_cases, remove_cases}
use micrun.Shim.Core.{ShimContainer, ShimService, put, io_exit, close_stdin_closer, find, Fault}
use micrun.Shim.Rules.{Ends, if-Ends, done-Ends, panicked-Ends, find-Ends}

-- What the Once says of the channel.
abbrev pub Sound : ShimContainer → Type 0
Sound c = c.exit_once ≡ true → c.exit_closed ≡ true

pub record Tidy (s : ShimService) : Type 0 where
  pub its_id : (id : Bytes) (c : ShimContainer) → lookup id s.containers ≡ some c → c.id ≡ id
  pub sound : (id : Bytes) (c : ShimContainer) → lookup id s.containers ≡ some c → Sound c

-- A service whose lock is held or not, and whose containers are as they should be.
abbrev pub Held : Bool → ShimService → Type 0
Held b s = (s.locked ≡ b) × Tidy s

pub put-Tidy : (c : ShimContainer) (s : ShimService) → Sound c → Tidy s → Tidy (put c s)
unfolding put
put-Tidy c s fit t = record {
  its_id = λ id d e. elim (replace_cases c.id id c d s.containers e) [
    | inl (same, now) ↦ ap (λ (x : ShimContainer). x.id) now ∙ same
    | inr (apart, old) ↦ t.its_id id d old
  ];
  sound = λ id d e. elim (replace_cases c.id id c d s.containers e) [
    | inl (same, now) ↦ λ h.
        ap (λ (x : ShimContainer). x.exit_closed) now
        ∙ fit (sym (ap (λ (x : ShimContainer). x.exit_once) now) ∙ h)
    | inr (apart, old) ↦ t.sound id d old
  ];
}

pub put-Held :
    (b : Bool) (c : ShimContainer) (s : ShimService) → Sound c → Held b s → Held b (put c s)
unfolding put
put-Held b c s fit h = (h.0, put-Tidy c s fit h.1)

pub remove-Tidy :
    (id : Bytes) (s : ShimService)
    → Tidy s
    → Tidy (record s { containers = remove id s.containers })
remove-Tidy id s t = record {
  its_id = λ j c e. t.its_id j c (remove_cases id j c s.containers e).1;
  sound = λ j c e. t.sound j c (remove_cases id j c s.containers e).1;
}

-- What keeps the containers keeps what holds of them.
pub same_containers-Tidy : (s s' : ShimService) → s'.containers ≡ s.containers → Tidy s → Tidy s'
same_containers-Tidy s s' same t = record {
  its_id = λ id c e. t.its_id id c (sym (ap (lookup id) same) ∙ e);
  sound = λ id c e. t.sound id c (sym (ap (lookup id) same) ∙ e);
}

module _ {W : Type 0} (b : Bool) (stuck crashed : ShimService → Type 0) where
  pub find-Held :
      (e : Fault) (id : Bytes) (s : ShimService) (w : W)
      → Held b s
      → Ends (Held b) stuck crashed (λ c s'. Held b s' × Sound c) (find e id (s, w))
  find-Held e id s w h =
      find-Ends (Held b) stuck crashed (λ c s'. Held b s' × Sound c) e id s w h
        (λ c there. (h, h.1.sound id c there))

module _ {W : Type 0} (b : Bool) (stuck : ShimService → Type 0) where
  pub io_exit-Held :
      (c : ShimContainer) (s : ShimService) (w : W)
      → Held b s
      → Ends (Held b) stuck (Held b) (λ _. Held b) (io_exit c (s, w))
  unfolding io_exit
  io_exit-Held c s w h =
      if-Ends (Held b) stuck (Held b) (λ _. Held b) c.exit_once _ _
        (λ _. done-Ends (Held b) stuck (Held b) (λ _. Held b) tt s w h)
        (λ fresh.
          if-Ends (Held b) stuck (Held b) (λ _. Held b) c.exit_closed _ _
            (λ closed.
              panicked-Ends (Held b) stuck (Held b) (λ _. Held b) _ w
                (kept (record c { exit_once = true }) (λ _. closed)))
            (λ _.
              done-Ends (Held b) stuck (Held b) (λ _. Held b) tt _ w
                (kept (record c { exit_once = true; exit_closed = true }) (λ _. refl))))
    where
      kept : (c' : ShimContainer) → Sound c' → Held b (put c' s)
      kept c' fit = put-Held b c' s fit h

  pub close_stdin_closer-Held :
      (c : ShimContainer) (s : ShimService) (w : W)
      → Sound c
      → Held b s
      → Ends (Held b) stuck (Held b) (λ _. Held b) (close_stdin_closer c (s, w))
  unfolding close_stdin_closer
  close_stdin_closer-Held c s w fit h =
      if-Ends (Held b) stuck (Held b) (λ _. Held b) c.stdin_closed _ _
        (λ _. panicked-Ends (Held b) stuck (Held b) (λ _. Held b) s w h)
        (λ _.
          done-Ends (Held b) stuck (Held b) (λ _. Held b) tt _ w
            (put-Held b (record c { stdin_closed = true }) s fit h))
