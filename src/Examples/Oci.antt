-- ===== src/Examples/Oci.antt =====
-- The type, the limits and the toggles of a container: pkg/oci/oci_configs.go.
use micrun.Prelude.{[], ◌∷◌, List, true, false, some, none, Bytes, codes, ◌≡◌, refl, arith, pos}
use micrun.Keyed.{lookup, has}
use micrun.Resources.{ContainerConfig, memory_limit_mb, no_memory, no_resources}
use micrun.Pedestal.Essential.{xen}
use micrun.Config.Runtime.{new_runtime_config}
use micrun.Oci.Types.{CriNames, get_container_type, check_infra}
use micrun.Oci.Types.Infra.{get_container_type-check_infra}
use micrun.Oci.Defaults.{apply_container_runtime_defaults}
use micrun.Oci.Defaults.Bounds.{Limits, apply_container_runtime_defaults-Limits}
use micrun.Oci.Toggles.{apply_sandbox_annotations, pinning_key, static_key}
use micrun.Oci.Toggles.Values.{pinning, read, asked, key_of, apply_sandbox_annotations_lem}
use micrun.Shim.Core.{pod_sandbox, single_container}
use micrun.Examples.Limits.{config}
use micrun.Examples.Sandbox.{sandbox_config}

abbrev pub names : CriNames
names = record {
  container_type = codes "io.kubernetes.cri.container-type";
  podman_container_type = codes "io.kubernetes.cri-o.ContainerType";
  sandbox_id = codes "io.kubernetes.cri.sandbox-id";
  podman_sandbox_id = codes "io.kubernetes.cri-o.SandboxID";
  sandbox = codes "sandbox";
  container = codes "container";
  podman_sandbox = codes "sandbox";
  podman_container = codes "container";
}

abbrev of_pod : List (Bytes × Bytes)
of_pod = (codes "io.kubernetes.cri.container-type", codes "sandbox") ∷ []

get_container_type_run : get_container_type names of_pod ≡ some pod_sandbox
unfolding get_container_type
get_container_type_run = refl

get_container_type-check_infra_example :
    (get_container_type names of_pod ≡ some pod_sandbox → check_infra names of_pod ≡ true)
    × (get_container_type names of_pod ≡ some single_container → check_infra names of_pod ≡ false)
get_container_type-check_infra_example = get_container_type-check_infra names of_pod

abbrev limited : ContainerConfig
limited = record config {
  resources =
      some
        (record no_resources { memory = some (record no_memory { limit = some (pos 134217728) }) });
}

-- The first test of oci_configs_test.go, but for its reservation.
apply_container_runtime_defaults_run :
    (apply_container_runtime_defaults xen [] none limited).memory_threshold_mb ≡ 256
unfolding apply_container_runtime_defaults
apply_container_runtime_defaults_run = refl

apply_container_runtime_defaults-Limits_example :
    Limits (memory_limit_mb limited) (apply_container_runtime_defaults xen [] none limited)
unfolding new_runtime_config
apply_container_runtime_defaults-Limits_example =
    apply_container_runtime_defaults-Limits xen [] none limited (omega arith)

abbrev toggles : List (Bytes × Bytes)
toggles = (static_key, codes "1") ∷ (pinning_key, codes "false") ∷ []

apply_sandbox_annotations_lem_example :
    read pinning (apply_sandbox_annotations toggles sandbox_config)
    ≡ asked (lookup (key_of pinning) toggles) (read pinning sandbox_config)
unfolding has
apply_sandbox_annotations_lem_example =
    apply_sandbox_annotations_lem pinning toggles sandbox_config (refl, (refl, tt))
