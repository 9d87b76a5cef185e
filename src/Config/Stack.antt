-- ===== src/Config/Stack.antt =====
-- pkg/oci/runtime_stack.go and runtime_setup.go: the layers of the runtime's configuration, which are the
-- defaults, the files and the annotations.
use micrun.Prelude.{
  ℕ, List, [], ◌∷◌, ◌++◌, Bool, true, false, ◌||◌, not, Option, none, some, Bytes, codes,
  if◌then◌else◌,
}
use micrun.Text.{trim_space}
use micrun.Keyed.{lookup}
use micrun.Mica.Executor.{bytes_eq}
use micrun.Mica.Socket.{has_prefix}
use micrun.Pedestal.Essential.{PedType, HostCpus}
use micrun.Container.Presence.{is_nil}
use micrun.Config.Ini.{Scanned, parse_ini}
use micrun.Config.Discovery.{ConfigFormat, unknown, ini, toml, MicrunConfigFile}
use micrun.Config.Layer.{field}
use micrun.Config.Runtime.{
  RuntimeConfig, Setup, new_runtime_config, parse_bool, parse_uint32, configure, set_debug,
  set_pause_image, set_max_container_vcpus, set_max_container_mem_mb, set_min_container_mem_mb,
  set_mini_vcpu_num, set_huge_page_support, set_static_resource_management, set_exclusive_dom0_cpu,
  set_shared_cpu_pool, set_default_firmware_path,
}
pub mod Bounds
pub mod Ignored

-- runtimeConfigKeys
abbrev pub runtime_config_keys : List Bytes
runtime_config_keys =
    codes "static_resource"
    ∷ codes "max_client_number"
    ∷ codes "debug"
    ∷ codes "enable_host_container"
    ∷ codes "state_dir"
    ∷ codes "pause_image"
    ∷ codes "max_container_vcpu"
    ∷ codes "sandbox_minimum_vcpu"
    ∷ codes "hugepage_enable"
    ∷ codes "exclusive_dom0_cpu"
    ∷ codes "container_maxmem"
    ∷ codes "container_minmem"
    ∷ codes "firmware_path"
    ∷ codes "shared_cpu_pool"
    ∷ []

-- convertRawConfig: a key that is missing has the empty value.
unfoldable pub convert_raw_config : ℕ → List (Bytes × Bytes) → Setup → Setup
unfolding parse_bool parse_uint32 lookup trim_space
convert_raw_config high raw u =
    let u1 =
      configure
        (λ r. set_mini_vcpu_num (field (codes "sandbox_minimum_vcpu") raw) (
          set_min_container_mem_mb high (field (codes "container_minmem") raw) (
            set_max_container_mem_mb high (field (codes "container_maxmem") raw) (
              set_max_container_vcpus (field (codes "max_container_vcpu") raw) (
                set_pause_image (field (codes "pause_image") raw) (
                  set_debug (field (codes "debug") raw)
                    (set_static_resource_management (field (codes "static_resource") raw) r)))))))
        u in
    let u2 = configure (set_huge_page_support (field (codes "hugepage_enable") raw)) u1 in
    let u3 = set_exclusive_dom0_cpu (field (codes "exclusive_dom0_cpu") raw) u2 in
    configure
      (λ r.
        set_default_firmware_path (field (codes "firmware_path") raw)
          (set_shared_cpu_pool (field (codes "shared_cpu_pool") raw) r))
      u3

abbrev pub converted : ℕ → Option (List (Bytes × Bytes)) → Setup → Setup
converted high none u = u
converted high (some raw) u = convert_raw_config high raw u

-- ParseRuntimeFromINI, whose error is only logged
unfoldable pub parse_runtime_from_ini : ℕ → Scanned → Setup → Setup
unfolding convert_raw_config parse_ini
parse_runtime_from_ini high file u = converted high (parse_ini (some runtime_config_keys) file) u

-- The switch over the format: TOML is not supported yet.
abbrev pub apply_format : ℕ → Scanned → ConfigFormat → Setup → Setup
apply_format high file unknown u = u
apply_format high file toml u = u
apply_format high file ini u = parse_runtime_from_ini high file u

module _ (high : ℕ) (scan : Bytes → Scanned) where
  -- applyMicrunConfigFile, of what the scanner gives of the file
  abbrev pub apply_micrun_config_file : MicrunConfigFile → Setup → Setup
  apply_micrun_config_file file u = apply_format high (scan file.path) file.format u

  -- ApplyMicrunFiles
  unfoldable pub apply_micrun_files : List MicrunConfigFile → Setup → Setup
  unfolding parse_runtime_from_ini
  apply_micrun_files [] u = u
  apply_micrun_files (file ∷ files) u = apply_micrun_files files (apply_micrun_config_file file u)

abbrev pub micrun_annotation_prefix : Bytes
micrun_annotation_prefix = codes "org.openeuler.micrun."

abbrev pub runtime_key : Bytes → Bytes
runtime_key name = micrun_annotation_prefix ++ (codes "runtime." ++ name)

-- The switch over the key of an annotation.
abbrev pub switch_annotation : ℕ → Bytes → Bytes → Setup → Setup
switch_annotation high key value u =
    if bytes_eq key (runtime_key (codes "debug"))
    then configure (set_debug value) u
    else if bytes_eq key (runtime_key (codes "max_container_cpus"))
    then configure (set_max_container_vcpus value) u
    else if bytes_eq key (runtime_key (codes "max_container_memory"))
    then configure (set_max_container_mem_mb high value) u
    else if bytes_eq key (runtime_key (codes "pause"))
    then configure (set_pause_image value) u
    else if bytes_eq key (runtime_key (codes "exclusive_dom0_cpu"))
    then set_exclusive_dom0_cpu value u
    else u

-- ParseRuntimeConfigFromAnno, and so ApplyAnnotations
unfoldable pub parse_runtime_config_from_anno : ℕ → List (Bytes × Bytes) → Setup → Setup
unfolding parse_bool parse_uint32 trim_space
parse_runtime_config_from_anno high [] u = u
parse_runtime_config_from_anno high ((key, value) ∷ annotations) u =
    let next =
      if not (has_prefix micrun_annotation_prefix key) || is_nil value
      then u
      else switch_annotation high key value u in
    parse_runtime_config_from_anno high annotations next

-- NewRuntimeStack, ApplyMicrunFiles, ApplyAnnotations and Config
unfoldable pub runtime_stack :
    PedType
    → ℕ
    → (Bytes → Scanned)
    → List MicrunConfigFile
    → List (Bytes × Bytes)
    → HostCpus
    → Setup
unfolding new_runtime_config apply_micrun_files parse_runtime_config_from_anno
runtime_stack ped high scan files annotations host =
    parse_runtime_config_from_anno high annotations
      (apply_micrun_files high scan files (record { config = new_runtime_config ped; host = host }))
