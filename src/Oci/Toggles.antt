-- ===== src/Oci/Toggles.antt =====
-- pkg/oci/oci_configs.go: the toggles of a sandbox that annotations set. A map of annotations is walked in the
-- order of the list, and has each key once.
use micrun.Prelude.{
  List, [], ◌∷◌, Bool, true, false, ◌||◌, not, Option, none, some, Bytes, codes, if◌then◌else◌,
}
use micrun.Keyed.{lookup, insert}
use micrun.Mica.Executor.{bytes_eq}
use micrun.Mica.Socket.{has_prefix}
use micrun.Container.Presence.{is_nil}
use micrun.Config.Runtime.{parse_bool}
use micrun.Config.Stack.{micrun_annotation_prefix, runtime_key}
use micrun.Sandbox.Core.{SandboxConfig}
pub mod Values

abbrev pub pinning_key : Bytes
pinning_key = runtime_key (codes "enable_vcpus_pinning")

abbrev pub static_key : Bytes
static_key = runtime_key (codes "static_resource")

abbrev pub hugepage_key : Bytes
hugepage_key = runtime_key (codes "hugepage_enable")

-- What is parsed, or what was there.
abbrev pub parsed_or : Bool → Option Bool → Bool
parsed_or b none = b
parsed_or b (some b') = b'

-- cfg.Annotations[key] = value
abbrev pub note : Bytes → Bytes → SandboxConfig → SandboxConfig
note key value cfg = record cfg { annotations = insert key value cfg.annotations }

abbrev pub toggle : Bytes → Bytes → SandboxConfig → SandboxConfig
toggle key value cfg =
    if bytes_eq key pinning_key
    then note key value (record cfg {
      enable_vcpus_pinning = parsed_or cfg.enable_vcpus_pinning (parse_bool value);
    })
    else if bytes_eq key static_key
    then note key value (record cfg {
      static_resource_mgmt = parsed_or cfg.static_resource_mgmt (parse_bool value);
    })
    else if bytes_eq key hugepage_key
    then note key value
        (record cfg { huge_page_support = parsed_or cfg.huge_page_support (parse_bool value) })
    else cfg

abbrev pub apply_annotation : Bytes → Bytes → SandboxConfig → SandboxConfig
apply_annotation key value cfg =
    if not (has_prefix micrun_annotation_prefix key) || is_nil value
    then cfg
    else toggle key value cfg

-- applySandboxAnnotations
unfoldable pub apply_sandbox_annotations : List (Bytes × Bytes) → SandboxConfig → SandboxConfig
unfolding parse_bool insert
apply_sandbox_annotations [] cfg = cfg
apply_sandbox_annotations ((key, value) ∷ annotations) cfg =
    apply_sandbox_annotations annotations (apply_annotation key value cfg)
