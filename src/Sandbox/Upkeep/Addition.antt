-- ===== src/Sandbox/Upkeep/Addition.antt =====
-- pkg/micantainer/sandbox.go: a container is made, added and stored, or stopped and removed again.
use micrun.Sandbox.Pinning.{check_vcpus_pinning}
use micrun.Sandbox.Upkeep.Affinity.{check_vcpus_pinning-Keeps}
use micrun.Sandbox.Upkeep.Deletion.{remove-Without, Without}
use micrun.Container.Making.{create}
use micrun.Sandbox.Rules.{IsValid-Stable, Keeps, call-Keeps, find-Keeps, IsValid}
use micrun.Container.Fit.{KeepsFit}
use micrun.Container.Fit.Operations.{stop-Fit}
use micrun.Container.Presence.{absent, is_nil}
use micrun.Keyed.{lookup-has, has, insert, lookup}
use micrun.Sandbox.Members.{
  settle_new, settled, undo_container, add_container, created, force_stop, stop_and_remove,
  create_new, make_container,
}
use micrun.Resources.{ContainerConfig}
use micrun.Sandbox.Core.{
  At, present_or, removed, store_sandbox, ◌>>=◌, ◌>>◌, Op, call, find, go_on, log_error,
  remove_container, Sandbox, World, inside,
}
use micrun.Container.Fit.Fresh.{Made, Saved, create-Made, new_container-Made}
use micrun.Container.Core.{
  container_not_found, duplicated_key, Container, Result, empty_container_id, error, ok,
}
use micrun.Prelude.{
  [], Option, ◌⊎◌, true, Bool-cases, Bytes, false, inl, inr, none, some, subst, sym, ◌≢◌, ◌≡◌, refl,
}
use micrun.Sandbox.Rules.Results.{
  store-Yields, error-Yields, ok-Yields, Yields, go_on-Yields, if-Yields, keeps-Yields,
}
use micrun.Sandbox.Upkeep.Awaiting.{New, With, Awaiting, is_nil_ne, is_nil_named, add-IsValid}

module _ {W : Type 0} (world : World W)
    (saved : (id : Bytes) (w : W) → Saved (world.saved_state id w)) where
  pub make_container-Yields :
      (cfg : ContainerConfig) (s : Sandbox) (w : W)
      → Awaiting cfg s
      → Yields (Awaiting cfg) (New cfg) (make_container world cfg (s, w))
  unfolding make_container
  make_container-Yields cfg s w h = elim (Bool-cases (is_nil cfg.id)) [
    | inl empty ↦ rw empty (error-Yields (Awaiting cfg) (New cfg) empty_container_id s w h)
    | inr named ↦
        let n : cfg.id ≢ [] = is_nil_ne cfg.id named in
        let made =
          new_container-Made (inside world s) (world.saved_state cfg.id w) cfg w (saved cfg.id w)
            n in
        rw named (ok-Yields (Awaiting cfg) (New cfg) _ s _ (h, made))
  ]

  pub create_new-Yields :
      (cfg : ContainerConfig) (c : Container) (s : Sandbox) (w : W)
      → New cfg c s
      → Yields (Awaiting cfg) (New cfg) (create_new world c (s, w))
  unfolding create_new
  create_new-Yields cfg c s w (h, made) =
      created-Yields cfg s (create (inside world s) c w) (create-Made (inside world s) cfg c w made)
        h
    where
      created-Yields :
          (cfg : ContainerConfig) (s : Sandbox) (r : Container × W × Result Unit)
          → Made cfg r.0
          → Awaiting cfg s
          → Yields (Awaiting cfg) (New cfg) (created world s r)
      created-Yields cfg s (c', w', ok a) made' h' =
          ok-Yields (Awaiting cfg) (New cfg) c' s w' (h', made')
      created-Yields cfg s (c', w', error e) made' h' =
          error-Yields (Awaiting cfg) (New cfg) e s w' h'

  pub add_container-Yields :
      (cfg : ContainerConfig) (c : Container) (s : Sandbox) (w : W)
      → New cfg c s
      → Yields (Awaiting cfg) (λ _. IsValid) (add_container world c (s, w))
  unfolding add_container
  add_container-Yields cfg c s w (h, made) =
      if-Yields (Awaiting cfg) (λ _. IsValid) (has c.config.id s.containers) _ _
        (λ _. error-Yields (Awaiting cfg) (λ _. IsValid) duplicated_key s w h)
        (λ _.
          ok-Yields (Awaiting cfg) (λ _. IsValid) tt _ w
            (subst (λ k. IsValid (record s { containers = insert k c s.containers }))
              (sym made.0.its_id) (add-IsValid cfg c s h made)))

  force_stop-Fit : KeepsFit (force_stop world)
  force_stop-Fit outside id c w h = stop-Fit true outside id c w h

  abbrev stop_logged : Bytes → Op W Unit
  stop_logged id = log_error (do c ← find id; call world (force_stop world) c)

  stop_logged-Keeps : (id : Bytes) → Keeps IsValid (stop_logged id)
  stop_logged-Keeps id s w v =
      find-Keeps IsValid id s w (λ c. call world (force_stop world) c) v
        (λ c there.
          call-Keeps world IsValid-Stable (force_stop world) force_stop-Fit id c s w there v)

  remove_logged-Without :
      (id : Bytes) (s : Sandbox) (w : W)
      → id ≢ []
      → IsValid s
      → Without id (log_error (remove_container id) (s, w)).0.0
  unfolding remove_container
  remove_logged-Without id s w n v =
      rw (is_nil_named id n) (removed_lem (Bool-cases (has id s.containers)))
    where
      removed_lem :
          (has id s.containers ≡ true) ⊎ (has id s.containers ≡ false)
          → Without id (log_error (removed (has id s.containers) id) (s, w)).0.0
      removed_lem (inl there) = rw there (remove-Without id s v)
      removed_lem (inr absent) = rw absent (v, lookup-has id s.containers absent)

  stop_and_remove-Without :
      (id : Bytes) (s : Sandbox) (w : W)
      → id ≢ []
      → IsValid s
      → Without id (stop_and_remove world id (s, w)).0.0
  unfolding go_on
  stop_and_remove-Without id s w n v =
      let at = stop_logged id (s, w) in
      remove_logged-Without id at.0.0 at.0.1 n (stop_logged-Keeps id s w v)

  abbrev stored_and_found : Bytes → Op W Container
  stored_and_found id = do store_sandbox world; find id

  abbrev pub added_and_settled : Container → Container → Op W Container
  added_and_settled c c' = do add_container world c'; settled world c.config.id

  found-With :
      (id : Bytes) (s : Sandbox) (w : W) → IsValid s → Yields IsValid (With id) (find id (s, w))
  unfolding find
  found-With id s w v = present-With (lookup id s.containers) refl
    where
      present-With :
          (o : Option Container)
          → lookup id s.containers ≡ o
          → Yields IsValid (With id) (present_or container_not_found o (s, w))
      present-With none e = error-Yields IsValid (With id) container_not_found s w v
      present-With (some c) e = ok-Yields IsValid (With id) c s w (v, e)

  settle_new-Yields :
      (id : Bytes) (s : Sandbox) (w : W)
      → IsValid s
      → Yields IsValid (With id) (settle_new world id (s, w))
  settle_new-Yields id s w v =
      go_on-Yields IsValid (λ _. IsValid) (With id) (check_vcpus_pinning world (s, w))
        (λ _. stored_and_found id)
        (keeps-Yields IsValid (check_vcpus_pinning world (s, w))
          (check_vcpus_pinning-Keeps world IsValid-Stable s w v))
        (λ _ s' w' v'.
          go_on-Yields IsValid (λ _. IsValid) (With id) (store_sandbox world (s', w'))
            (λ _. find id) (store-Yields IsValid (λ _. IsValid) world s' w' v' v')
            (λ _ s'' w'' v''. found-With id s'' w'' v''))

  undo_container-Yields :
      (id : Bytes) (r : At W × Result Container)
      → id ≢ []
      → Yields IsValid (With id) r
      → Yields (Without id) (With id) (undo_container world id r)
  unfolding Yields
  undo_container-Yields id ((s, w), ok c) n h = h
  undo_container-Yields id ((s, w), error e) n h = stop_and_remove-Without id s w n h

  pub settled-Yields :
      (id : Bytes) (s : Sandbox) (w : W)
      → id ≢ []
      → IsValid s
      → Yields (Without id) (With id) (settled world id (s, w))
  settled-Yields id s w n v =
      undo_container-Yields id (settle_new world id (s, w)) n (settle_new-Yields id s w v)
