-- ===== src/Oci/Toggles/Values.antt =====
-- pkg/oci/oci_configs.go: what the annotations make of the toggles of a sandbox.
use micrun.Prelude.{
  List, [], ◌∷◌, Bool, true, false, ◌||◌, not, Option, none, some, Bytes, ◌≡◌, refl, if◌then◌else◌,
  arith, Bool-cases, inl, inr, ap, sym, ◌∙◌,
}
use micrun.Keyed.{lookup, has, bytes_eq→eq, lookup-has}
use micrun.Mica.Executor.{bytes_eq}
use micrun.Mica.Socket.{has_prefix}
use micrun.Container.Presence.{is_nil}
use micrun.Config.Runtime.{parse_bool}
use micrun.Config.Stack.{micrun_annotation_prefix}
use micrun.Sandbox.Core.{SandboxConfig}
use micrun.Oci.Toggles.{
  pinning_key, static_key, hugepage_key, parsed_or, apply_annotation, apply_sandbox_annotations,
  toggle,
}

pub data Toggle : Type 0 where
  pinning static hugepage : Toggle

abbrev pub key_of : Toggle → Bytes
key_of pinning = pinning_key
key_of static = static_key
key_of hugepage = hugepage_key

abbrev pub read : Toggle → SandboxConfig → Bool
read pinning cfg = cfg.enable_vcpus_pinning
read static cfg = cfg.static_resource_mgmt
read hugepage cfg = cfg.huge_page_support

-- What the annotation of a key makes of a value.
abbrev pub asked : Option Bytes → Bool → Bool
asked none b = b
asked (some value) b = parsed_or b (parse_bool value)

-- A map has each key once.
abbrev pub Distinct : List (Bytes × Bytes) → Type 0
Distinct [] = Unit
Distinct ((key, value) ∷ annotations) = (has key annotations ≡ false) × Distinct annotations

-- A switch that goes by the key alone.
apart : (key j k : Bytes) → bytes_eq k j ≡ false → bytes_eq key k ≡ true → bytes_eq key j ≡ false
apart key j k h e = ap (λ z. bytes_eq z j) (bytes_eq→eq key k e) ∙ h

toggle-read :
    (t : Toggle) (key value : Bytes) (cfg : SandboxConfig)
    → read t (toggle key value cfg)
      ≡ (if bytes_eq key (key_of t) then parsed_or (read t cfg) (parse_bool value) else read t cfg)
toggle-read pinning key value cfg =
    ground (arith, apart key pinning_key static_key refl, apart key pinning_key hugepage_key refl)
toggle-read static key value cfg =
    ground (arith, apart key static_key pinning_key refl, apart key static_key hugepage_key refl)
toggle-read hugepage key value cfg =
    ground (arith, apart key hugepage_key pinning_key refl, apart key hugepage_key static_key refl)

-- Each of the keys has the prefix, and an empty value is no Boolean.
prefixed : (t : Toggle) → has_prefix micrun_annotation_prefix (key_of t) ≡ true
prefixed pinning = refl
prefixed static = refl
prefixed hugepage = refl

empty_value : (value : Bytes) → is_nil value ≡ true → parse_bool value ≡ none
unfolding parse_bool
empty_value [] e = refl
empty_value (c ∷ value) e = cc

apply_annotation-read :
    (t : Toggle) (key value : Bytes) (cfg : SandboxConfig)
    → read t (apply_annotation key value cfg)
      ≡ (if bytes_eq key (key_of t) then parsed_or (read t cfg) (parse_bool value) else read t cfg)
apply_annotation-read t key value cfg = elim (Bool-cases (bytes_eq key (key_of t))) [
  | inl same ↦ rw same (
      let known : has_prefix micrun_annotation_prefix key ≡ true =
        ap (has_prefix micrun_annotation_prefix) (bytes_eq→eq key (key_of t) same) ∙ prefixed t in
      elim (Bool-cases (is_nil value)) [
        | inl empty ↦ rw (known, empty, empty_value value empty) refl
        | inr full ↦ rw (known, full) (toggle-read t key value cfg ∙ rw same refl)
      ])
  | inr other ↦
      rw other (elim (Bool-cases (not (has_prefix micrun_annotation_prefix key) || is_nil value)) [
        | inl skipped ↦ rw skipped refl
        | inr taken ↦ rw taken (toggle-read t key value cfg ∙ rw other refl)
      ])
]

-- If the annotations have each key once: the toggles for pinning, static resources and huge pages are what
-- strconv.ParseBool makes of the annotation of their key, and as they were if it is missing or no Boolean,
-- in whatever order the annotations come.
pub apply_sandbox_annotations_lem :
    (t : Toggle) (annotations : List (Bytes × Bytes)) (cfg : SandboxConfig)
    → Distinct annotations
    → read t (apply_sandbox_annotations annotations cfg)
      ≡ asked (lookup (key_of t) annotations) (read t cfg)
unfolding apply_sandbox_annotations lookup
apply_sandbox_annotations_lem t [] cfg d = refl
apply_sandbox_annotations_lem t ((key, value) ∷ annotations) cfg (fresh, d) =
    apply_sandbox_annotations_lem t annotations (apply_annotation key value cfg) d
    ∙ elim (Bool-cases (bytes_eq key (key_of t))) [
      | inl same ↦
          let gone : lookup (key_of t) annotations ≡ none =
            ap (λ k. lookup k annotations) (sym (bytes_eq→eq key (key_of t) same))
            ∙ lookup-has key annotations fresh in
          rw (gone, same) (apply_annotation-read t key value cfg ∙ rw same refl)
      | inr other ↦ rw other (
          ap (asked (lookup (key_of t) annotations))
            (apply_annotation-read t key value cfg ∙ rw other refl))
    ]
