-- ===== src/Oci/Types.antt =====
-- pkg/oci/oci_configs.go: the type of a container and the id of its sandbox, by the annotations of CRI. The
-- keys and values of those are constants of containerd and podman, here parameters.
use micrun.Prelude.{
  List, [], ◌∷◌, Bool, true, false, ◌&&◌, ◌||◌, Option, none, some, Bytes, if◌then◌else◌, ◌≡◌, refl,
  ◌≢◌, arith, Bool-cases, inl, inr,
}
use micrun.Keyed.{lookup, bytes_eq_self}
use micrun.Mica.Executor.{bytes_eq}
use micrun.Container.Making.{in_list}
use micrun.Shim.Core.{ContainerType, pod_sandbox, pod_container, single_container}
pub mod Infra

pub record CriNames : Type 0 where
  -- keys
  pub container_type : Bytes
  pub podman_container_type : Bytes
  pub sandbox_id : Bytes
  pub podman_sandbox_id : Bytes
  -- values
  pub sandbox : Bytes
  pub container : Bytes
  pub podman_sandbox : Bytes
  pub podman_container : Bytes

module _ (names : CriNames) where
  -- CRIContainerTypeKeyList
  abbrev pub type_keys : List Bytes
  type_keys = names.container_type ∷ names.podman_container_type ∷ []

  -- CRISandboxNameKeyList
  abbrev pub sandbox_keys : List Bytes
  sandbox_keys = names.sandbox_id ∷ names.podman_sandbox_id ∷ []

  -- CRIContainerTypeList
  abbrev pub type_list : List (Bytes × ContainerType)
  type_list =
      (names.sandbox, pod_sandbox)
      ∷ (names.container, pod_container)
      ∷ (names.podman_sandbox, pod_sandbox)
      ∷ (names.podman_container, pod_container)
      ∷ []

abbrev pub or_first : Option Bytes → Option Bytes → Option Bytes
or_first none rest = rest
or_first (some value) rest = some value

-- The value of the first of the keys that is there.
unfoldable pub first_of : List Bytes → List (Bytes × Bytes) → Option Bytes
unfolding lookup
first_of [] annotations = none
first_of (key ∷ keys) annotations = or_first (lookup key annotations) (first_of keys annotations)

abbrev pub type_of : List (Bytes × ContainerType) → Option Bytes → Option ContainerType
type_of types none = some single_container
type_of types (some value) = lookup value types

module _ (names : CriNames) where
  -- GetContainerType; an unknown type is an error.
  unfoldable pub get_container_type : List (Bytes × Bytes) → Option ContainerType
  unfolding first_of lookup
  get_container_type annotations =
      type_of (type_list names) (first_of (type_keys names) annotations)

  -- GetSandboxID
  unfoldable pub get_sandbox_id : List (Bytes × Bytes) → Option Bytes
  unfolding first_of
  get_sandbox_id annotations = first_of (sandbox_keys names) annotations

  abbrev pub says_sandbox : Bytes → Bytes → Bool
  says_sandbox key value =
      in_list (type_keys names) key
      && (bytes_eq value names.sandbox || bytes_eq value names.podman_sandbox)

  -- checkInfra, over MapCheck
  unfoldable pub check_infra : List (Bytes × Bytes) → Bool
  unfolding in_list
  check_infra [] = false
  check_infra ((key, value) ∷ annotations) = says_sandbox key value || check_infra annotations
