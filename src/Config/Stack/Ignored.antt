-- ===== src/Config/Stack/Ignored.antt =====
-- pkg/oci/runtime_setup.go: a configuration file whose sections are not named like keys.
use micrun.Prelude.{ℕ, List, [], true, false, some, Bytes, ◌≡◌, refl, ap, ◌∙◌, All}
use micrun.Container.Making.{in_list}
use micrun.Config.Ini.Sections.{sections, parse_ini-outside}
use micrun.Config.Runtime.{Setup, default_max_container_vcpus, mem_low_threshold}
use micrun.Config.Stack.{runtime_config_keys, convert_raw_config, converted, parse_runtime_from_ini}

-- The values that a file without any key sets.
abbrev pub reset : ℕ → Setup → Setup
reset high u = record u {
  config = record (u.config) {
    static_resource_management = false;
    debug = false;
    pause_image = [];
    max_container_vcpus = default_max_container_vcpus;
    max_container_mem_mb = high;
    min_container_mem_mb = mem_low_threshold;
    mini_vcpu_num = 0;
    huge_page_support = false;
  };
}

convert_nothing : (high : ℕ) (u : Setup) → convert_raw_config high [] u ≡ reset high u
unfolding convert_raw_config
convert_nothing high u = refl

-- A file none of whose sections has the name of a configuration key is not read: whatever it sets, eight
-- fields get fixed values, the pause image the empty one, and the others stay.
pub parse_runtime_from_ini-ignored :
    (high : ℕ) (lines : List Bytes) (u : Setup)
    → All (λ name. in_list runtime_config_keys name ≡ false) (sections lines)
    → parse_runtime_from_ini high (some (lines, true)) u ≡ reset high u
unfolding parse_runtime_from_ini
parse_runtime_from_ini-ignored high lines u h =
    ap (λ raw. converted high raw u) (parse_ini-outside runtime_config_keys lines h)
    ∙ convert_nothing high u
