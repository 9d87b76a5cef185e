-- ===== src/Container/Fit/Fresh.antt =====
-- pkg/micantainer/container.go: a container that newContainer and create make.
use micrun.Resources.{ContainerConfig}
use micrun.Container.Presence.{check_state}
use micrun.Container.Making.{blank, create, new_container, noticed, restore_state}
use micrun.Container.State.{StateString, creating, ready, same}
use micrun.Container.Core.{
  error, ok, Step, Result, and_then, Container, Outside, set_container_state, update_exit_notifier,
}
use micrun.Container.Fit.{[], Fit, changed-Fit, config_same}
use micrun.Container.Lifecycle.Attendance.{Present, ensure_client_presence-Ends}
use micrun.Container.Lifecycle.Triples.{Ends-Sound}
use micrun.Container.Presence.{ensure_client_presence}
use micrun.Prelude.{Bool, subst}
use micrun.Container.Fit.Operations.{check_state-Fit, create-Fit}
use micrun.Container.Lifecycle.Rules.{Kept, Looked, Sound, changed, check_state-Looked, set-changed}
use micrun.Prelude.{if◌then◌else◌, some, true, ◌≢◌, Option, ap, false, none, sym, ◌∙◌, ◌≡◌, refl}

-- A state that the files can hold: SaveState never writes `creating`.
abbrev pub Saved : Option StateString → Type 0
Saved none = Unit
Saved (some s) = same s creating ≡ false

blank-Fit : (cfg : ContainerConfig) → cfg.id ≢ [] → Fit cfg.id (blank cfg)
blank-Fit cfg h = record {
  notified = record { channels = record { once = tt; made = tt; opened = tt }; while_alive = refl };
  its_id = refl;
  named = h;
  created = refl;
}

-- Fit, and with a config.
abbrev pub Made : ContainerConfig → Container → Type 0
Made cfg c = Fit cfg.id c × (c.config ≡ cfg)

restore_state-Made :
    (saved : Option StateString) (cfg : ContainerConfig)
    → Saved saved
    → cfg.id ≢ []
    → Made cfg (restore_state saved (blank cfg))
unfolding restore_state
restore_state-Made none cfg n h = (blank-Fit cfg h, refl)
restore_state-Made (some s) cfg n h =
    (changed-Fit s cfg.id (blank cfg) (blank-Fit cfg h) n, config_same s (blank cfg))

-- A container with a config, for the rules.
abbrev pub with_config : {W : Type 0} → ContainerConfig → Outside W → Kept W
with_config cfg outside = record {
  outside = outside;
  Holds = λ c. c.config ≡ cfg;
  moved = λ s c _ h. config_same s c ∙ h;
  recorded = λ me c h. h;
}

module _ {W : Type 0} (outside : Outside W) where
  Made-Sound :
      (cfg : ContainerConfig) (c : Container) → Made cfg c → Sound (with_config cfg outside) c
  Made-Sound cfg c (h, e) = record {
    holds = e;
    named = λ nil. h.named (sym h.its_id ∙ nil);
    created = h.created;
  }

  check_state-Made :
      (cfg : ContainerConfig) (c : Container) (w : W)
      → Made cfg c
      → Made cfg (check_state outside c w).0
        × ((check_state outside c w).2 ≡ (check_state outside c w).0.state)
  unfolding Looked
  check_state-Made cfg c w h =
      let looked = check_state-Looked (with_config cfg outside) c w (Made-Sound cfg c h) in
      ((check_state-Fit outside cfg.id c w h.0, looked.0.holds), sym looked.1)

  noticed-Made :
      (cfg : ContainerConfig) (r : Container × W × StateString)
      → Made cfg r.0
      → r.2 ≡ r.0.state
      → Made cfg (noticed outside r).0
  noticed-Made cfg (c, w, s) h e =
      subst (λ z. Made cfg (update_exit_notifier z c)) (sym e)
        (changed-Fit c.state cfg.id c h.0 h.0.created, config_same c.state c ∙ h.1)

  pub new_container-Made :
      (saved : Option StateString) (cfg : ContainerConfig) (w : W)
      → Saved saved
      → cfg.id ≢ []
      → Made cfg (new_container outside saved cfg w).0
  unfolding new_container
  new_container-Made saved cfg w n h =
      let c = restore_state saved (blank cfg) in
      let looked = check_state-Made cfg c w (restore_state-Made saved cfg n h) in
      noticed-Made cfg (check_state outside c w) looked.0 looked.1

  set_ready-config :
      (cfg : ContainerConfig) (c : Container) (w : W)
      → c.config ≡ cfg
      → (set_container_state outside ready c w).0.config ≡ cfg
  unfolding changed
  set_ready-config cfg c w h =
      ap (λ d. d.config) (set-changed (with_config cfg outside) ready c w) ∙ config_same ready c ∙ h

  and_then-config :
      {A B : Type 0} (cfg : ContainerConfig) (r : Container × W × Result A) (next : A → Step W B)
      → r.0.config ≡ cfg
      → ((a : A) (c : Container) (w : W) → c.config ≡ cfg → (next a c w).0.config ≡ cfg)
      → (and_then r next).0.config ≡ cfg
  unfolding and_then
  and_then-config cfg (c, w, ok a) next h step = step a c w h
  and_then-config cfg (c, w, error e) next h step = h

  if-config :
      {A : Type 0} (cfg : ContainerConfig) (b : Bool) (r r' : Container × W × Result A)
      → r.0.config ≡ cfg
      → r'.0.config ≡ cfg
      → (if b then r else r').0.config ≡ cfg
  if-config cfg true r r' h h' = h
  if-config cfg false r r' h h' = h'

  create-config :
      (cfg : ContainerConfig) (c : Container) (w : W)
      → Made cfg c
      → (create outside c w).0.config ≡ cfg
  unfolding create
  create-config cfg c w h =
      let k = with_config cfg outside in
      if-config cfg c.config.is_infra _ _ (set_ready-config cfg c w h.1) (
        and_then-config cfg (ensure_client_presence outside c w)
          (λ _. set_container_state outside ready)
          (Ends-Sound k (Present k) (ensure_client_presence outside c w) (λ _ _ p. p.0.0)
            (ensure_client_presence-Ends k c w (Made-Sound cfg c h))).holds
          (λ _ c' w' h'. set_ready-config cfg c' w' h'))

  pub create-Made :
      (cfg : ContainerConfig) (c : Container) (w : W) → Made cfg c → Made cfg (create outside c w).0
  unfolding create
  create-Made cfg c w h = (create-Fit outside cfg.id c w h.0, create-config cfg c w h)
