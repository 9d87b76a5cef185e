-- ===== src/Sandbox/Upkeep/Creation.antt =====
-- pkg/micantainer/sandbox.go: CreateContainer.
use micrun.Sandbox.Upkeep.Awaiting.{New, With, Awaiting, add_config-Awaiting}
use micrun.Sandbox.Upkeep.Addition.{
  make_container-Yields, create_new-Yields, add_container-Yields, added_and_settled, settled-Yields,
}
use micrun.Sandbox.Upkeep.Deletion.{Gone, drop_config-Without, Without}
use micrun.Container.Making.{valid_mica_container}
use micrun.Sandbox.Rules.{Keeps, IsValid}
use micrun.Container.Presence.{absent}
use micrun.Keyed.{lookup-has, lookup-remove, has, bytes_eq_self}
use micrun.Sandbox.Members.{
  add_valid, create_container, create_from, create_and_add, drop_config, settled, undo_config,
  add_container, add_config, create_new, make_container,
}
use micrun.Resources.{ContainerConfig}
use micrun.Sandbox.Core.{valid, At, Sandbox, World}
use micrun.Container.Fit.Fresh.{Saved}
use micrun.Container.Core.{refused, Container, Result, error, ok}
use micrun.Prelude.{Bool, true, Bool-cases, Bytes, ap, false, inl, inr, subst, sym, ◌∙◌, ◌≡◌, refl}
use micrun.Sandbox.Rules.Results.{
  Yields-Keeps, weaker-Yields, error-Yields, Yields, go_on-Yields, if-Yields,
}

module _ {W : Type 0} (world : World W)
    (saved : (id : Bytes) (w : W) → Saved (world.saved_state id w)) where
  create_and_add-Yields :
      (cfg : ContainerConfig) (c : Container) (s : Sandbox) (w : W)
      → New cfg c s
      → Yields (Without cfg.id) (With cfg.id) (create_and_add world c (s, w))
  create_and_add-Yields cfg c s w h =
      go_on-Yields (Without cfg.id) (New cfg) (With cfg.id) (create_new world c (s, w))
        (λ c'. added_and_settled world saved c c')
        (weaker-Yields (Awaiting cfg) (Without cfg.id) (λ _ a. (a.0, a.1)) (New cfg) _
          (create_new-Yields world saved cfg c s w h))
        (λ c' s' w' h'.
          go_on-Yields (Without cfg.id) (λ _. IsValid) (With cfg.id)
            (add_container world c' (s', w')) (λ _. settled world c.config.id)
            (weaker-Yields (Awaiting cfg) (Without cfg.id) (λ _ a. (a.0, a.1)) (λ _. IsValid) _
              (add_container-Yields world saved cfg c' s' w' h'))
            (λ _ s'' w'' v.
              subst (λ k. Yields (Without cfg.id) (With cfg.id) (settled world k (s'', w'')))
                (sym h.1.0.its_id) (settled-Yields world saved cfg.id s'' w'' h.1.0.named v)))

  undo_config-Yields :
      (id : Bytes) (r : At W × Result Container)
      → Yields (Without id) (With id) r
      → Yields (Gone id) (With id) (undo_config world id r)
  unfolding Yields drop_config
  undo_config-Yields id ((s, w), ok c) h = h
  undo_config-Yields id ((s, w), error e) h = (
    (drop_config-Without id s h).0,
    h.1,
    lookup-remove id id s.config.container_configs ∙ rw (bytes_eq_self id) refl,
  )

  -- Whether the files of a container are there, with a system it knows.
  abbrev pub valid_at : ContainerConfig → W → Bool
  valid_at cfg w = valid_mica_container (λ path. world.regular path w) world.host.ped cfg

  module _ (I : Sandbox → Type 0) (cfg : ContainerConfig)
      (undone : (s : Sandbox) → Gone cfg.id s → I s)
      (invalid : (s : Sandbox) (w : W) → Awaiting cfg s → valid_at cfg w ≡ false → I s) where
    add_valid-Yields :
        (c : Container) (s : Sandbox) (w : W)
        → New cfg c s
        → Yields I (With cfg.id) (add_valid world cfg.id c (s, w))
    add_valid-Yields c s w h =
        if-Yields I (With cfg.id) (valid_at c.config w) _ _
          (λ _. weaker-Yields (Gone cfg.id) I undone (With cfg.id) _ (
            undo_config-Yields cfg.id (create_and_add world c (s, w))
              (create_and_add-Yields cfg c s w h)))
          (λ bad.
            error-Yields I (With cfg.id) refused s w
              (invalid s w h.0 (ap (λ z. valid_at z w) (sym h.1.1) ∙ bad)))

    undo_made-Yields :
        (r : At W × Result Container)
        → Yields (Awaiting cfg) (New cfg) r
        → Yields I (New cfg) (undo_config world cfg.id r)
    unfolding Yields drop_config
    undo_made-Yields ((s, w), ok c) h = h
    undo_made-Yields ((s, w), error e) h = undone _ (
      (drop_config-Without cfg.id s (h.0, h.1)).0,
      h.1,
      lookup-remove cfg.id cfg.id s.config.container_configs ∙ rw (bytes_eq_self cfg.id) refl,
    )

    create_from-Yields :
        (s : Sandbox) (w : W)
        → Awaiting cfg s
        → Yields I (With cfg.id) (create_from world cfg (s, w))
    create_from-Yields s w h =
        go_on-Yields I (New cfg) (With cfg.id)
          (undo_config world cfg.id (make_container world cfg (s, w))) (add_valid world cfg.id)
          (undo_made-Yields (make_container world cfg (s, w))
            (make_container-Yields world saved cfg s w h))
          add_valid-Yields

    create_container-Yields :
        (s : Sandbox) (w : W)
        → IsValid s
        → has cfg.id s.containers ≡ false
        → Yields I (With cfg.id) (create_container world cfg (s, w))
    unfolding create_container
    create_container-Yields s w v absent = rw absent (
        create_from-Yields (add_config cfg s) w
          (add_config-Awaiting cfg s v (lookup-has cfg.id s.containers absent)))

  pub create_container-Keeps : (cfg : ContainerConfig) → Keeps IsValid (create_container world cfg)
  unfolding create_container
  create_container-Keeps cfg s w v = elim (Bool-cases (has cfg.id s.containers)) [
    | inl there ↦ rw there v
    | inr absent ↦
        Yields-Keeps IsValid (With cfg.id) _ (λ _ _ h. h.0)
          (create_container-Yields IsValid cfg (λ _ h. h.0) (λ _ _ h _. h.0) s w v absent)
  ]

  -- For a valid sandbox that has no container of the id, and a config that validMicaContainer
  -- accepts in every world, by its files and its system: CreateContainer without an error leaves a
  -- valid sandbox with the container, and with an error a valid one that has neither the container
  -- nor its config.
  pub create_container_lem :
      (cfg : ContainerConfig) (s : Sandbox) (w : W)
      → IsValid s
      → has cfg.id s.containers ≡ false
      → ((v : W) → valid_at cfg v ≡ true)
      → Yields (Gone cfg.id) (With cfg.id) (create_container world cfg (s, w))
  create_container_lem cfg s w v absent valid =
      create_container-Yields (Gone cfg.id) cfg (λ _ h. h)
        (λ s' w' h bad. absurd (let no : true ≡ false = sym (valid w') ∙ bad in cc)) s w v absent
