-- ===== src/Container/Lifecycle/Rules.antt =====
-- pkg/micantainer/container.go: rules for what holds after an operation, over a property of containers
-- that every permitted change of state keeps, and every change of the client's record.
use micrun.Prelude.{
  ◌≡◌, ◌≢◌, refl, sym, subst, ap, ◌∙◌, [], Bool, true, false, Bytes, arith, if◌then◌else◌,
}
use micrun.Mica.Executor.{Executor}
use micrun.Container.State.{StateString, ready, creating, down, same, allowed}
use micrun.Container.State.Table.{same_eq}
use micrun.Container.Core.{
  Container, Outside, Error, failed, Result, ok, error, Step, and_then, ask, answered,
  update_exit_notifier, set_container_state, with_state,
}
use micrun.Container.Presence.{
  with_executor, check_state, register_client, gone, mark_down, is_nil, absent, record_memory,
}

-- A change of state: a move of the table, the loss of the client, or none.
pub data Move (s : StateString) : StateString → Type 0 where
  along : {t : StateString} → allowed s t ≡ true → Move s t
  lost : Move s down
  stay : Move s s

pub from_down : (s t : StateString) → s ≡ down → allowed down t ≡ true → Move s t
from_down s t e h = along (rw e h)

-- A property of containers that these changes keep.
pub record Kept (W : Type 0) : Type 1 where
  pub outside : Outside W
  pub Holds : Container → Type 0
  pub moved :
      (s : StateString) (c : Container)
      → Move c.state s
      → Holds c
      → Holds (update_exit_notifier s (with_state s c))
  pub recorded : (me : Executor) (c : Container) → Holds c → Holds (with_executor me c)

module _ {W : Type 0} (k : Kept W) where
  -- What holds between the steps: the property, an id, and a state that is not `creating`.
  pub record Sound (c : Container) : Type 0 where
    pub holds : k.Holds c
    pub named : c.config.id ≢ []
    pub created : same c.state creating ≡ false

  -- A result: what the value and the container satisfy, or at least `Sound` if there was an error.
  unfoldable pub Ends : {A : Type 0} → (A → Container → Type 0) → Container × W × Result A → Type 0
  Ends Q (c, w, ok a) = Q a c
  Ends Q (c, w, error e) = Sound c

  abbrev pub Any : {A : Type 0} → A → Container → Type 0
  Any a c = Sound c

  pub and_then-Ends :
      {A B : Type 0} (Q : A → Container → Type 0) (R : B → Container → Type 0)
      (r : Container × W × Result A) (next : A → Step W B)
      → Ends Q r
      → ((a : A) (c : Container) (w : W) → Q a c → Ends R (next a c w))
      → Ends R (and_then r next)
  unfolding Ends and_then
  and_then-Ends Q R (c, w, ok a) next h step = step a c w h
  and_then-Ends Q R (c, w, error e) next h step = h

  -- `Sound`, and the state.
  abbrev pub At : StateString → Container → Type 0
  At s c = Sound c × (c.state ≡ s)

  pub answered-Ends :
      (Q : Unit → Container → Type 0) (e : Error) (c : Container) (r : W × Bool)
      → Sound c
      → Q tt c
      → Ends Q (answered e c r)
  unfolding Ends
  answered-Ends Q e c (w, true) h q = q
  answered-Ends Q e c (w, false) h q = h

  pub ask-Ends :
      (Q : Unit → Container → Type 0) (e : Error) (request : W → W × Bool) (c : Container) (w : W)
      → Sound c
      → Q tt c
      → Ends Q (ask e request c w)
  unfolding ask
  ask-Ends Q e request c w h q = answered-Ends Q e c (request w) h q

  pub error-Ends :
      {A : Type 0} (Q : A → Container → Type 0) (e : Error) (c : Container) (w : W)
      → Sound c
      → Ends Q (c, w, error e)
  unfolding Ends
  error-Ends Q e c w h = h

  pub ok-Ends :
      {A : Type 0} (Q : A → Container → Type 0) (a : A) (c : Container) (w : W)
      → Q a c
      → Ends Q (c, w, ok a)
  unfolding Ends
  ok-Ends Q a c w h = h

  pub if-Ends :
      {A : Type 0} (Q : A → Container → Type 0) (b : Bool) (r r' : Container × W × Result A)
      → (b ≡ true → Ends Q r)
      → (b ≡ false → Ends Q r')
      → Ends Q (if b then r else r')
  if-Ends Q true r r' h h' = h refl
  if-Ends Q false r r' h h' = h' refl

  -- What a change of state leaves of the container.
  unfoldable pub changed : StateString → Container → Container
  changed s c = update_exit_notifier s (with_state s c)

  changed-At :
      (s : StateString) (c : Container)
      → Sound c
      → Move c.state s
      → same s creating ≡ false
      → At s (changed s c)
  unfolding changed update_exit_notifier
  changed-At s c h m n =
      let kept : ((changed s c).config ≡ c.config) × ((changed s c).state ≡ s) = ground arith in
      let created : same (changed s c).state creating ≡ false = rw kept.1 n in
      (
        record {
          holds = k.moved s c m h.holds;
          named = λ e. h.named (ap (λ f. f.id) (sym kept.0) ∙ e);
          created = created;
        },
        kept.1,
      )

  pub set-changed :
      (s : StateString) (c : Container) (w : W)
      → (set_container_state k.outside s c w).0 ≡ changed s c
  unfolding set_container_state changed ask and_then
  set-changed s c w = ground arith

  At-Ends : (s : StateString) (r : Container × W × Result Unit) → At s r.0 → Ends (λ _. At s) r
  unfolding Ends
  At-Ends s (c, w, ok a) h = h
  At-Ends s (c, w, error e) h = h.0

  pub set-Ends :
      (s : StateString) (c : Container) (w : W)
      → Sound c
      → Move c.state s
      → same s creating ≡ false
      → Ends (λ _. At s) (set_container_state k.outside s c w)
  set-Ends s c w h m n =
      At-Ends s (set_container_state k.outside s c w)
        (subst (λ d. At s d) (sym (set-changed s c w)) (changed-At s c h m n))

  unfoldable pub Looked : Container × W × StateString → Type 0
  Looked (c, w, s) = At s c

  if-Looked :
      (b : Bool) (r r' : Container × W × StateString)
      → (b ≡ true → Looked r)
      → (b ≡ false → Looked r')
      → Looked (if b then r else r')
  if-Looked true r r' h h' = h refl
  if-Looked false r r' h h' = h' refl

  gone-Looked : (r : Container × W × Result Unit) → At down r.0 → Looked (gone k.outside r)
  unfolding Looked
  gone-Looked r h = h

  mark_down-Looked : (c : Container) (w : W) → Sound c → Looked (mark_down k.outside c w)
  unfolding Looked
  mark_down-Looked c w h =
      if-Looked (same c.state down) (c, w, down)
        (gone k.outside (set_container_state k.outside down c w)) (λ e. (h, same_eq c.state down e))
        (λ _.
          gone-Looked (set_container_state k.outside down c w)
            (subst (λ d. At down d) (sym (set-changed down c w)) (changed-At down c h lost refl)))

  is_nil_named : (s : Bytes) → s ≢ [] → is_nil s ≡ false
  is_nil_named s h = ground arith

  pub check_state-Looked : (c : Container) (w : W) → Sound c → Looked (check_state k.outside c w)
  unfolding check_state Looked
  check_state-Looked c w h = rw (is_nil_named c.config.id h.named) (
      if-Looked c.config.is_infra (c, w, c.state) _ (λ _. (h, refl))
        (λ _.
          if-Looked (absent k.outside c w) (mark_down k.outside c w) (c, w, c.state)
            (λ _. mark_down-Looked c w h) (λ _. (h, refl))))

  record_memory-Ends :
      (s : StateString) (c : Container) (w : W)
      → At s c
      → Ends (λ _. At s) (record_memory k.outside c w)
  unfolding Ends
  record_memory-Ends s c w (h, e) =
      (record { holds = k.recorded _ c h.holds; named = h.named; created = h.created }, e)

  -- A registration is for a client that is down, and makes it ready.
  pub register_client-Ends :
      (c : Container) (w : W) → At down c → Ends (λ _. At ready) (register_client k.outside c w)
  unfolding register_client allowed
  register_client-Ends c w (h, e) =
      if-Ends (λ _. At ready) (k.outside.firmware c.config.image_abs_path w) _ (c, w, error failed)
        (λ _.
          and_then-Ends (λ _. At down) (λ _. At ready) _ _
            (ask-Ends (λ _. At down) failed _ c w h (h, e))
            (λ _ c' w' h'.
              and_then-Ends (λ _. At down) (λ _. At ready) _ _ (record_memory-Ends down c' w' h')
                (λ _ c'' w'' h''.
                  set-Ends ready c'' w'' h''.0 (from_down c''.state ready h''.1 refl) refl)))
        (λ _. error-Ends (λ _. At ready) failed c w h)
