-- ===== src/Shim/Creation/Blocked.antt =====
-- pkg/shim/shim_services.go: how Create ends.
use micrun.Prelude.{
  Bool, true, false, ◌&&◌, Option, none, some, ◌≡◌, refl, inl, inr, Bool-cases, Option-cases,
  if◌then◌else◌,
}
use micrun.Config.Runtime.{RuntimeConfig}
use micrun.Oci.Types.{get_container_type}
use micrun.Shim.Core.{
  ContainerType, ShimService, Fault, failed, blocked, panicked, Op, go_on, lock, unlock_after,
  with_lock, invalid_cid, other,
}
use micrun.Shim.Configuration.{ShimSpec, Nursery, load_runtime_config}
use micrun.Shim.Creation.{
  CreateRequest, valid_container_id, load_spec, create_container, create_with, create,
  is_no_process,
}

-- What becomes of a request to Create.
pub data Fate : Type 0 where
  refused waiting crashing : Fate

module _ {W : Type 0} (nursery : Nursery W) where
  abbrev pub fate_typed : CreateRequest → ShimSpec → Option ContainerType → Fate
  fate_typed r spec none = refused
  fate_typed r spec (some c_type) =
      if r.terminal && is_no_process spec.process then crashing else waiting

  abbrev pub fate_specified : CreateRequest → Option ShimSpec → Fate
  fate_specified r none = refused
  fate_specified r (some spec) =
      fate_typed r spec (get_container_type nursery.names spec.annotations)

  -- A request is refused unless its id is valid, its specification can be read and its type is known.
  abbrev pub fate : CreateRequest → W → Fate
  fate r w =
      if valid_container_id r.id
      then fate_specified r (load_spec nursery r.id r.bundle w)
      else refused

  module _
      (setup : CreateRequest → ContainerType → ShimSpec → Option RuntimeConfig → Op W Bool) where
    -- What create comes to with the lock held.
    abbrev Made : CreateRequest → Option ShimSpec → ShimService → W → Fate → Type 0
    Made r o s w refused = create_with nursery setup r o (s, w) ≡ ((s, w), failed other)
    Made r o s w waiting = create_with nursery setup r o (s, w) ≡ ((s, w), blocked)
    Made r o s w crashing = create_with nursery setup r o (s, w) ≡ ((s, w), panicked)

    -- With the lock held loadRuntimeConfig waits for its own caller.
    create_with-Made :
        (r : CreateRequest) (o : Option ShimSpec) (s : ShimService) (w : W)
        → s.locked ≡ true
        → Made r o s w (fate_specified r o)
    unfolding load_runtime_config with_lock lock go_on
    create_with-Made r none s w held = refl
    create_with-Made r (some spec) s w held =
        elim (Option-cases (get_container_type nursery.names spec.annotations)) [
          | inl unknown ↦ rw unknown (rw unknown refl)
          | inr (c_type, known) ↦ elim (Bool-cases (r.terminal && is_no_process spec.process)) [
            | inl none_there ↦ rw (known, none_there) (rw (known, none_there) refl)
            | inr there ↦ rw (known, there) (rw (known, there, held) refl)
          ]
        ]

    -- What Create comes to for a service whose lock is free.
    abbrev pub Comes : CreateRequest → ShimService → W → Fate → Type 0
    Comes r s w refused =
        (e : Fault) × (create nursery setup r (s, w) ≡ ((record s { locked = false }, w), failed e))
    Comes r s w waiting = create nursery setup r (s, w) ≡ ((record s { locked = true }, w), blocked)
    Comes r s w crashing =
        create nursery setup r (s, w) ≡ ((record s { locked = false }, w), panicked)

    Made-Comes :
        (r : CreateRequest) (s : ShimService) (w : W) (f : Fate)
        → s.locked ≡ false
        → valid_container_id r.id ≡ true
        → Made r (load_spec nursery r.id r.bundle w) (record s { locked = true }) w f
        → Comes r s w f
    unfolding create create_container with_lock lock unlock_after go_on
    Made-Comes r s w refused free valid h = (other, rw (free, valid, h) refl)
    Made-Comes r s w waiting free valid h = rw (free, valid, h) refl
    Made-Comes r s w crashing free valid h = rw (free, valid, h) refl

    -- For a service whose lock is free, and a request to Create whose id is valid, whose specification can be
    -- read and whose type is known: if it asks for a terminal and the specification has no process, Create
    -- panics. Otherwise it waits for ever with the lock held, since loadRuntimeConfig takes the lock that
    -- Create holds. Any other request is an error, which gives the lock back and changes nothing.
    pub create-blocked :
        (r : CreateRequest) (s : ShimService) (w : W) → s.locked ≡ false → Comes r s w (fate r w)
    unfolding create with_lock lock unlock_after go_on
    create-blocked r s w free = elim (Bool-cases (valid_container_id r.id)) [
      | inl valid ↦
          let o = load_spec nursery r.id r.bundle w in
          rw valid (
            Made-Comes r s w (fate_specified r o) free valid
              (create_with-Made r o (record s { locked = true }) w refl))
      | inr invalid ↦ rw invalid (invalid_cid, rw (free, invalid) refl)
    ]
