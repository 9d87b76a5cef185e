-- ===== src/Oci/Types/Infra.antt =====
-- pkg/oci/oci_configs.go: the two readings of the annotations for the type of a container.
use micrun.Prelude.{
  List, [], ◌∷◌, true, false, ◌||◌, none, some, Bytes, ◌≡◌, refl, arith, Bool-cases, Option-cases,
  inl, inr, ◌≢◌, ◌∙◌,
}
use micrun.Keyed.{lookup, has, bytes_eq→eq, bytes_eq_self}
use micrun.Mica.Executor.{bytes_eq}
use micrun.Container.Making.{in_list}
use micrun.Shim.Core.{pod_sandbox, single_container}
use micrun.Oci.Types.{
  CriNames, type_keys, type_list, first_of, get_container_type, says_sandbox, check_infra,
}

bytes_eq_comm : (a b : Bytes) → bytes_eq a b ≡ bytes_eq b a
bytes_eq_comm [] [] = refl
bytes_eq_comm [] (y ∷ b) = refl
bytes_eq_comm (x ∷ a) [] = refl
bytes_eq_comm (x ∷ a) (y ∷ b) = ground (arith, bytes_eq_comm a b)

lookup-none-has : (key : Bytes) (m : List (Bytes × Bytes)) → lookup key m ≡ none → has key m ≡ false
unfolding lookup has
lookup-none-has key [] e = refl
lookup-none-has key ((j, v) ∷ m) e = ground (arith, lookup-none-has key m)

module _ (names : CriNames) where
  -- An annotation that says sandbox is found.
  check_infra-lookup :
      (key value : Bytes) (annotations : List (Bytes × Bytes))
      → lookup key annotations ≡ some value
      → says_sandbox names key value ≡ true
      → check_infra names annotations ≡ true
  unfolding check_infra lookup
  check_infra-lookup key value [] there says = cc
  check_infra-lookup key value ((k, v) ∷ annotations) there says =
      elim (Bool-cases (bytes_eq k key)) [
        | inl same ↦
            let e : v ≡ value = (let h : some v ≡ some value = rw same at there in cc) in
            rw (bytes_eq→eq k key same, e, says) refl
        | inr other ↦
            let ih = check_infra-lookup key value annotations (rw other at there) says in
            ground arith
      ]

  -- Without the keys no annotation says sandbox.
  check_infra-missing :
      (annotations : List (Bytes × Bytes))
      → has names.container_type annotations ≡ false
      → has names.podman_container_type annotations ≡ false
      → check_infra names annotations ≡ false
  unfolding check_infra has in_list
  check_infra-missing [] h h' = refl
  check_infra-missing ((k, v) ∷ annotations) h h' =
      rw (bytes_eq_comm names.container_type k, bytes_eq_comm names.podman_container_type k)
        (ground (arith, check_infra-missing annotations))

  -- The key whose value is the first.
  first_of-there :
      (keys : List Bytes) (annotations : List (Bytes × Bytes)) (value : Bytes)
      → first_of keys annotations ≡ some value
      → (key : Bytes) × (in_list keys key ≡ true) × (lookup key annotations ≡ some value)
  unfolding first_of in_list
  first_of-there [] annotations value found = cc
  first_of-there (key ∷ keys) annotations value found =
      elim (Option-cases (lookup key annotations)) [
        | inr (v, there) ↦
            let e : some v ≡ some value = rw there at found in
            (key, rw (bytes_eq_self key) refl, there ∙ e)
        | inl missing ↦
            let (key', listed, there) =
              first_of-there keys annotations value (rw missing at found) in
            (key', ground arith, there)
      ]

  -- Neither of the two keys is there.
  first_of-missing :
      (annotations : List (Bytes × Bytes))
      → first_of (type_keys names) annotations ≡ none
      → check_infra names annotations ≡ false
  unfolding first_of
  first_of-missing annotations missing =
      check_infra-missing annotations (absent names.container_type (ground arith))
        (absent names.podman_container_type (ground arith))
    where
      absent : (key : Bytes) → lookup key annotations ≡ none → has key annotations ≡ false
      absent key e = lookup-none-has key annotations e

  says_of :
      (value : Bytes)
      → lookup value (type_list names) ≡ some pod_sandbox
      → (bytes_eq value names.sandbox || bytes_eq value names.podman_sandbox) ≡ true
  unfolding lookup
  says_of value e =
      rw (bytes_eq_comm value names.sandbox, bytes_eq_comm value names.podman_sandbox)
        (ground arith)

  never_single : (value : Bytes) → lookup value (type_list names) ≢ some single_container
  unfolding lookup
  never_single value e = ground arith

  -- A container that GetContainerType takes for a sandbox of a pod is an infra container by checkInfra. One
  -- that it takes for a single container, since neither key is there, is none.
  pub get_container_type-check_infra :
      (annotations : List (Bytes × Bytes))
      → (get_container_type names annotations ≡ some pod_sandbox
          → check_infra names annotations ≡ true)
        × (get_container_type names annotations ≡ some single_container
            → check_infra names annotations ≡ false)
  unfolding get_container_type
  get_container_type-check_infra annotations =
      elim (Option-cases (first_of (type_keys names) annotations)) [
        | inl missing ↦ rw missing (λ h. cc, λ _. first_of-missing annotations missing)
        | inr (value, found) ↦
            let (key, listed, there) = first_of-there (type_keys names) annotations value found in
            rw found (
              λ h.
                  check_infra-lookup key value annotations there
                    (rw (listed, says_of value h) refl),
              λ h. absurd (never_single value h),
            )
      ]
