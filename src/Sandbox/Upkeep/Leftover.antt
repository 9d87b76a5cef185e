-- ===== src/Sandbox/Upkeep/Leftover.antt =====
-- pkg/micantainer/sandbox.go: CreateContainer of a container that is not valid.
use micrun.Sandbox.Upkeep.Awaiting.{New, Awaiting, add_config-Awaiting, is_nil_named}
use micrun.Sandbox.Rules.Results.{Yields}
use micrun.Sandbox.Rules.{IsValid}
use micrun.Container.Presence.{absent}
use micrun.Resources.{ContainerConfig}
use micrun.Keyed.{has, lookup-has}
use micrun.Sandbox.Core.{At, Sandbox, World, go_on}
use micrun.Sandbox.Upkeep.Addition.{make_container-Yields}
use micrun.Sandbox.Upkeep.Creation.{valid_at}
use micrun.Container.Fit.Fresh.{Saved}
use micrun.Container.Core.{Container, Result, error, ok, refused}
use micrun.Sandbox.Members.{add_config, add_valid, create_container, make_container, undo_config}
use micrun.Prelude.{[], Bytes, ap, false, ◌∙◌, ◌≢◌, ◌≡◌, refl}

module _ {W : Type 0} (world : World W)
    (saved : (id : Bytes) (w : W) → Saved (world.saved_state id w)) where
  abbrev Done : {A : Type 0} → At W × Result A → Type 0
  Done (at, ok a) = Unit
  Done (at, error e) = ⊥

  -- The creation is refused, and the config stays.
  abbrev pub Leftover : ContainerConfig → At W × Result Container → Type 0
  Leftover cfg r = (r.1 ≡ error refused) × Awaiting cfg r.0.0

  made_Done :
      (cfg : ContainerConfig) (s : Sandbox) (w : W)
      → cfg.id ≢ []
      → Done (make_container world cfg (s, w))
  unfolding make_container
  made_Done cfg s w n = rw (is_nil_named cfg.id n) tt

  refused_Leftover :
      (cfg : ContainerConfig) (r : At W × Result Container)
      → ((v : W) → valid_at world saved cfg v ≡ false)
      → Done r
      → Yields (Awaiting cfg) (New cfg) r
      → Leftover cfg (go_on (undo_config world cfg.id r) (add_valid world cfg.id))
  unfolding Yields go_on
  refused_Leftover cfg ((s, w), ok c) bad d (h, (fit, e)) =
      let bad_c : valid_at world saved c.config w ≡ false =
        ap (λ z. valid_at world saved z w) e ∙ bad w in
      rw bad_c (refl, h)
  refused_Leftover cfg ((s, w), error e) bad d h = elim d [ ]

  -- For a valid sandbox that has no container of the id, which is not empty, and a config that
  -- validMicaContainer refuses in every world: CreateContainer is refused, and the config stays in
  -- ContainerConfigs without a container.
  pub create_container-Leftover :
      (cfg : ContainerConfig) (s : Sandbox) (w : W)
      → IsValid s
      → has cfg.id s.containers ≡ false
      → cfg.id ≢ []
      → ((v : W) → valid_at world saved cfg v ≡ false)
      → Leftover cfg (create_container world cfg (s, w))
  unfolding create_container
  create_container-Leftover cfg s w v absent n bad =
      let start = add_config cfg s in
      let waiting = add_config-Awaiting cfg s v (lookup-has cfg.id s.containers absent) in
      rw absent (
        refused_Leftover cfg (make_container world cfg (start, w)) bad (made_Done cfg start w n)
          (make_container-Yields world saved cfg start w waiting))
