-- ===== src/Sandbox/Upkeep/Deletion.antt =====
-- pkg/micantainer/sandbox.go: DeleteContainer.
use micrun.Sandbox.Upkeep.Affinity.{check_vcpus_pinning-Keeps}
use micrun.Sandbox.Accounting.{update_resources}
use micrun.Sandbox.Upkeep.Accounts.{update_resources-Keeps}
use micrun.Sandbox.Pinning.{check_vcpus_pinning}
use micrun.Container.Fit.{KeepsFit}
use micrun.Container.Fit.Operations.{ensure_client_presence-Fit, remove-Fit}
use micrun.Container.Making.{may_delete}
use micrun.Container.Core.{Error, Container, empty_container_id, failed, refused}
use micrun.Sandbox.Rules.{
  IsValid-Stable, Keeps, Stable, call-Keeps, put_back-IsValid, same_parts-IsValid, IsValid,
}
use micrun.Mica.Executor.{bytes_eq}
use micrun.Container.State.{StateString}
use micrun.Keyed.{
  replace-none, remove, bytes_eq_self, bytes_eq→eq, has, lookup, lookup-remove, remove_cases,
}
use micrun.Sandbox.Members.{
  delete_container, forget_container, update_logged, client_removal, delete, drop_config, guard,
  presence, without_cache,
}
use micrun.Container.Presence.{is_nil}
use micrun.Sandbox.Core.{
  go_on, put_back, modify, Op, Sandbox, World, call, find, remove_container, store_sandbox, ◌>>=◌,
  ◌>>◌,
}
use micrun.Prelude.{
  Bool, true, inl, inr, some, Bool-cases, Bytes, ap, false, inl, none, sym, ◌∙◌, ◌≡◌, refl,
}
use micrun.Sandbox.Rules.Results.{
  weaker-Yields, find-Yields, error-Yields, ok-Yields, store-Yields, Yields, go_on-Yields,
  if-Yields, keeps-Yields,
}

-- A valid sandbox without a container.
abbrev pub Without : Bytes → Sandbox → Type 0
Without id s = IsValid s × (lookup id s.containers ≡ none)

pub remove-IsValid :
    (id : Bytes) (s : Sandbox)
    → IsValid s
    → IsValid (record s { containers = remove id s.containers })
remove-IsValid id s v = record {
  fit = λ j c e. v.fit j c (remove_cases id j c s.containers e).1;
  shared = λ j c e. v.shared j c (remove_cases id j c s.containers e).1;
}

pub remove-Without :
    (id : Bytes) (s : Sandbox)
    → IsValid s
    → Without id (record s { containers = remove id s.containers })
remove-Without id s v =
    (remove-IsValid id s v, lookup-remove id id s.containers ∙ rw (bytes_eq_self id) refl)

-- The config of a container that is not there can go.
pub drop_config-Without : (id : Bytes) (s : Sandbox) → Without id s → Without id (drop_config id s)
unfolding drop_config
drop_config-Without id s (v, none_there) = (
  record {
    fit = v.fit;
    shared = λ j c e.
        let other : bytes_eq id j ≡ false = elim (Bool-cases (bytes_eq id j)) [
          | inl equal ↦ absurd (
              let twice : none ≡ some c =
                sym none_there ∙ ap (λ k. lookup k s.containers) (bytes_eq→eq id j equal) ∙ e in
              cc)
          | inr apart ↦ apart
        ] in
        lookup-remove id j s.config.container_configs ∙ rw other (v.shared j c e);
  },
  none_there,
)

-- A valid sandbox without a container and its config.
abbrev pub Gone : Bytes → Sandbox → Type 0
Gone id s =
    IsValid s × (lookup id s.containers ≡ none) × (lookup id s.config.container_configs ≡ none)

pub Gone-Stable : (id : Bytes) → Stable (Gone id)
unfolding put_back
Gone-Stable id = record {
  valid = λ s h. h.0;
  written = λ s j c c' there fit h. (
    put_back-IsValid s j c c' there fit h.0,
    replace-none c'.config.id id c' s.containers h.1,
    replace-none c'.config.id id c'.config s.config.container_configs h.2,
  );
  booked = λ s res pinned h. (same_parts-IsValid s _ refl refl h.0, h.1, h.2);
}

module _ {W : Type 0} (world : World W) where
  remove_container-Yields :
      (id : Bytes) (s : Sandbox) (w : W)
      → IsValid s
      → Yields IsValid (λ _. Without id) (remove_container {W = W} id (s, w))
  unfolding remove_container
  remove_container-Yields id s w v =
      if-Yields IsValid (λ _. Without id) (is_nil id) _ _
        (λ _. error-Yields IsValid (λ _. Without id) empty_container_id s w v)
        (λ _.
          if-Yields IsValid (λ _. Without id) (has id s.containers) _ _
            (λ _. ok-Yields IsValid (λ _. Without id) tt _ w (remove-Without id s v))
            (λ _. error-Yields IsValid (λ _. Without id) failed s w v))

  abbrev rest_of_delete : Bytes → StateString → Op W Unit
  rest_of_delete id state = do
    guard world (may_delete state) refused
    c' ← find id
    call world (client_removal world) c'
    remove_container id
    store_sandbox world
    without_cache world id

  removal-Fit : KeepsFit (client_removal world)
  removal-Fit outside id c w h = remove-Fit outside id c w h

  presence-Fit : KeepsFit (presence world)
  presence-Fit outside id c w h = ensure_client_presence-Fit outside id c w h

  abbrev removal_on : Bytes → Op W Unit
  removal_on id = do remove_container id; store_sandbox world; without_cache world id

  removal_on-Yields :
      (id : Bytes) (s : Sandbox) (w : W)
      → IsValid s
      → Yields IsValid (λ _. Without id) (removal_on id (s, w))
  removal_on-Yields id s w v =
      go_on-Yields IsValid (λ _. Without id) (λ _. Without id) (remove_container id (s, w))
        (λ _. store_sandbox world >> without_cache world id) (remove_container-Yields id s w v)
        (λ _ s' w' h.
          go_on-Yields IsValid (λ _. Without id) (λ _. Without id) (store_sandbox world (s', w'))
            (λ _. without_cache world id) (store-Yields IsValid (λ _. Without id) world s' w' h.0 h)
            (λ _ s'' w'' h'. ok-Yields IsValid (λ _. Without id) tt s'' _ h'))

  guard-Yields :
      (b : Bool) (e : Error) (s : Sandbox) (w : W)
      → IsValid s
      → Yields IsValid (λ _. IsValid) (guard world b e (s, w))
  guard-Yields true e s w v = ok-Yields IsValid (λ _. IsValid) tt s w v
  guard-Yields false e s w v = error-Yields IsValid (λ _. IsValid) e s w v

  rest_of_delete-Yields :
      (id : Bytes) (state : StateString) (s : Sandbox) (w : W)
      → IsValid s
      → Yields IsValid (λ _. Without id) (rest_of_delete id state (s, w))
  rest_of_delete-Yields id state s w v =
      go_on-Yields IsValid (λ _. IsValid) (λ _. Without id)
        (guard world (may_delete state) refused (s, w))
        (λ _. find id >>= λ c'. call world (client_removal world) c' >> removal_on id)
        (guard-Yields (may_delete state) refused s w v)
        (λ _ s' w' v'.
          find-Yields IsValid (λ _. Without id) id s' w'
            (λ c'. call world (client_removal world) c' >> removal_on id) v'
            (λ c' there.
              go_on-Yields IsValid (λ _. IsValid) (λ _. Without id)
                (call world (client_removal world) c' (s', w')) (λ _. removal_on id)
                (keeps-Yields IsValid (call world (client_removal world) c' (s', w')) (
                  call-Keeps world IsValid-Stable (client_removal world) removal-Fit id c' s' w'
                    there v'))
                (λ _. removal_on-Yields id)))

  pub delete-Yields :
      (id : Bytes) (c : Container) (s : Sandbox) (w : W)
      → lookup id s.containers ≡ some c
      → IsValid s
      → Yields IsValid (λ _. Without id) (delete world c (s, w))
  unfolding delete
  delete-Yields id c s w there v = rw (← (v.fit id c there).its_id) (
      go_on-Yields IsValid (λ _. IsValid) (λ _. Without c.config.id)
        (call world (presence world) c (s, w)) (rest_of_delete c.config.id)
        (keeps-Yields IsValid (call world (presence world) c (s, w))
          (call-Keeps world IsValid-Stable (presence world) presence-Fit id c s w there v))
        (λ state s' w' v'. rest_of_delete-Yields c.config.id state s' w' v'))

  abbrev after_delete : Bytes → Op W Unit
  after_delete id = do
    modify (forget_container id)
    update_logged world
    check_vcpus_pinning world
    store_sandbox world

  forget_container-Gone :
      (id : Bytes) (s : Sandbox) → Without id s → Gone id (forget_container id s)
  unfolding forget_container drop_config
  forget_container-Gone id s h =
      let dropped = drop_config-Without id s h in
      (
        same_parts-IsValid (drop_config id s) _ refl refl dropped.0,
        h.1,
        lookup-remove id id s.config.container_configs ∙ rw (bytes_eq_self id) refl,
      )

  update_logged-Keeps : {I : Sandbox → Type 0} → Stable I → Keeps I (update_logged world)
  update_logged-Keeps st s w h = update_resources-Keeps world st s w h

  abbrev checked_and_stored : Op W Unit
  checked_and_stored = do check_vcpus_pinning world; store_sandbox world

  checked_and_stored-Yields :
      (id : Bytes) (s : Sandbox) (w : W)
      → Gone id s
      → Yields IsValid (λ _. Gone id) (checked_and_stored (s, w))
  checked_and_stored-Yields id s w h =
      go_on-Yields IsValid (λ _. Gone id) (λ _. Gone id) (check_vcpus_pinning world (s, w))
        (λ _. store_sandbox world)
        (weaker-Yields (Gone id) IsValid (λ s' h'. h'.0) (λ _. Gone id) _
          (keeps-Yields (Gone id) (check_vcpus_pinning world (s, w))
            (check_vcpus_pinning-Keeps world (Gone-Stable id) s w h)))
        (λ _ s' w' h'. store-Yields IsValid (λ _. Gone id) world s' w' h'.0 h')

  after_delete-Yields :
      (id : Bytes) (s : Sandbox) (w : W)
      → Without id s
      → Yields IsValid (λ _. Gone id) (after_delete id (s, w))
  unfolding go_on
  after_delete-Yields id s w h =
      let gone = forget_container-Gone id s h in
      let at = update_resources world (forget_container id s, w) in
      let gone' = update_resources-Keeps world (Gone-Stable id) (forget_container id s) w gone in
      checked_and_stored-Yields id at.0.0 at.0.1 gone'

  -- For a valid sandbox: DeleteContainer without an error leaves a valid sandbox that has neither the
  -- container nor its config, and with an error a valid sandbox.
  pub delete_container-Yields :
      (id : Bytes) (s : Sandbox) (w : W)
      → IsValid s
      → Yields IsValid (λ _. Gone id) (delete_container world id (s, w))
  unfolding delete_container
  delete_container-Yields id s w v =
      if-Yields IsValid (λ _. Gone id) (is_nil id) _ _
        (λ _. error-Yields IsValid (λ _. Gone id) empty_container_id s w v)
        (λ _.
          find-Yields IsValid (λ _. Gone id) id s w (λ c. delete world c >> after_delete id) v
            (λ c there.
              go_on-Yields IsValid (λ _. Without id) (λ _. Gone id) (delete world c (s, w))
                (λ _. after_delete id) (delete-Yields id c s w there v)
                (λ _. after_delete-Yields id)))
