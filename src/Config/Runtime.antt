-- ===== src/Config/Runtime.antt =====
-- pkg/oci/runtime_setup.go and runtime_stack.go: RuntimeConfig, its setters and the layers that are applied
-- to it. `high` is pedestal.MemHighThreshold(), and the CPUs of the host are those of pkg/pedestal, of which
-- the configuration sets whether Dom0 has its own. SetStateDir does nothing.
use micrun.Prelude.{
  ℕ, ◌+◌, ◌*◌, ◌-◌, [], ◌∷◌, Bool, true, false, ◌||◌, not, Option, none, some, Bytes, codes, ltb,
  ◌==◌, if◌then◌else◌,
}
use micrun.Text.{trim_space, is_digit}
use micrun.Pedestal.Essential.{PedType, open_amp, HostCpus, enable_dom0_cpu_exclusive}
use micrun.Container.Making.{in_list}
use micrun.Container.Presence.{is_nil}

pub record RuntimeConfig : Type 0 where
  pub debug : Bool
  pub host_linux_container : Bool
  pub max_client_num : ℕ
  pub max_container_vcpus : ℕ
  pub max_container_mem_mb : ℕ
  pub min_container_mem_mb : ℕ
  pub huge_page_support : Bool
  pub static_resource_management : Bool
  pub shared_cpu_pool : Bool
  pub image_path : Bytes
  pub aux_file_path : Bytes
  pub pause_image : Bytes
  pub mini_vcpu_num : ℕ
  pub default_firmware_path : Bytes
  pub exclusive_dom0_cpu : Bool

-- The configuration and the CPUs of the host.
pub record Setup : Type 0 where
  pub config : RuntimeConfig
  pub host : HostCpus

abbrev pub default_max_container_vcpus : ℕ
default_max_container_vcpus = 8

abbrev pub is_open_amp : PedType → Bool
is_open_amp open_amp = true
is_open_amp _ = false

-- NewRuntimeConfig
unfoldable pub new_runtime_config : PedType → RuntimeConfig
new_runtime_config ped = record {
  debug = false;
  host_linux_container = false;
  max_client_num = 0;
  max_container_vcpus = default_max_container_vcpus;
  max_container_mem_mb = 0;
  min_container_mem_mb = 32;
  huge_page_support = false;
  static_resource_management = is_open_amp ped;
  shared_cpu_pool = false;
  image_path = [];
  aux_file_path = [];
  pause_image = codes "registry.k8s.io/pause";
  mini_vcpu_num = 0;
  default_firmware_path = [];
  exclusive_dom0_cpu = false;
}

-- strconv.ParseBool
unfoldable pub parse_bool : Bytes → Option Bool
unfolding in_list
parse_bool s =
    if in_list (codes "1" ∷ codes "t" ∷ codes "T" ∷ codes "true" ∷ codes "TRUE" ∷ codes "True" ∷ [])
      s
    then some true
    else if in_list
        (codes "0" ∷ codes "f" ∷ codes "F" ∷ codes "false" ∷ codes "FALSE" ∷ codes "False" ∷ []) s
    then some false
    else none

abbrev pub max_uint32 : ℕ
max_uint32 = 4294967295

-- The digits behind those read so far, whose value is `n`. A number that is too large ends the reading.
unfoldable pub scan_uint32 : Bytes → ℕ → ℕ × Bool
scan_uint32 [] n = (n, true)
scan_uint32 (c ∷ s) n =
    let n' = n * 10 + (c - 48) in
    let rest = scan_uint32 s n' in
    if not (is_digit c) then (0, false) else if ltb max_uint32 n' then (max_uint32, false) else rest

-- strconv.ParseUint(s, 10, 32): the value, and whether there was no error
unfoldable pub parse_uint32 : Bytes → ℕ × Bool
unfolding scan_uint32
parse_uint32 [] = (0, false)
parse_uint32 (c ∷ s) = scan_uint32 (c ∷ s) 0

abbrev pub or_false : Option Bool → Bool
or_false none = false
or_false (some b) = b

abbrev pub set_debug : Bytes → RuntimeConfig → RuntimeConfig
set_debug s r = record r { debug = or_false (parse_bool s) }

abbrev pub set_huge_page_support : Bytes → RuntimeConfig → RuntimeConfig
set_huge_page_support s r = record r { huge_page_support = or_false (parse_bool s) }

abbrev pub set_static_resource_management : Bytes → RuntimeConfig → RuntimeConfig
set_static_resource_management s r = record r {
  static_resource_management = or_false (parse_bool s);
}

abbrev pub set_linux_container : Bytes → RuntimeConfig → RuntimeConfig
set_linux_container s r = record r { host_linux_container = or_false (parse_bool s) }

abbrev pub vcpus_or_default : ℕ × Bool → ℕ
vcpus_or_default (n, fine) = if not fine || n == 0 then default_max_container_vcpus else n

abbrev pub set_max_container_vcpus : Bytes → RuntimeConfig → RuntimeConfig
set_max_container_vcpus s r = record r { max_container_vcpus = vcpus_or_default (parse_uint32 s) }

-- pedestal.MemLowThreshold
abbrev pub mem_low_threshold : ℕ
mem_low_threshold = 2

-- pedestal.MemHighThreshold, of the memory that xl reports
unfoldable pub mem_high_threshold : Option ℕ → ℕ
mem_high_threshold none = 0
mem_high_threshold (some mb) = if ltb mb mem_low_threshold then mem_low_threshold + 1 else mb

-- memoryOutOfRange
abbrev pub memory_out_of_range : ℕ → ℕ → Bool
memory_out_of_range high mb = ltb high mb || ltb mb mem_low_threshold

abbrev pub memory_or : ℕ → ℕ → ℕ × Bool → ℕ
memory_or high threshold (mb, fine) =
    if not fine || memory_out_of_range high mb then threshold else mb

abbrev pub set_max_container_mem_mb : ℕ → Bytes → RuntimeConfig → RuntimeConfig
set_max_container_mem_mb high s r = record r {
  max_container_mem_mb = memory_or high high (parse_uint32 s);
}

abbrev pub set_min_container_mem_mb : ℕ → Bytes → RuntimeConfig → RuntimeConfig
set_min_container_mem_mb high s r = record r {
  min_container_mem_mb = memory_or high mem_low_threshold (parse_uint32 s);
}

-- The error of the number is only logged.
abbrev pub set_mini_vcpu_num : Bytes → RuntimeConfig → RuntimeConfig
set_mini_vcpu_num s r = record r { mini_vcpu_num = (parse_uint32 s).0 }

abbrev pub set_client_limit : Bytes → RuntimeConfig → RuntimeConfig
set_client_limit s r = record r { max_client_num = (parse_uint32 s).0 }

abbrev pub set_pause_image : Bytes → RuntimeConfig → RuntimeConfig
set_pause_image s r = record r { pause_image = s }

abbrev pub set_default_firmware_path : Bytes → RuntimeConfig → RuntimeConfig
set_default_firmware_path s r =
    if is_nil (trim_space s) then r else record r { default_firmware_path = trim_space s }

abbrev pub pool_set : Option Bool → RuntimeConfig → RuntimeConfig
pool_set none r = r
pool_set (some b) r = record r { shared_cpu_pool = b }

abbrev pub set_shared_cpu_pool : Bytes → RuntimeConfig → RuntimeConfig
set_shared_cpu_pool s r = if is_nil (trim_space s) then r else pool_set (parse_bool s) r

abbrev pub dom0_set : Option Bool → Setup → Setup
dom0_set none u = u
dom0_set (some b) u = record {
  config = record (u.config) { exclusive_dom0_cpu = b };
  host = enable_dom0_cpu_exclusive b u.host;
}

abbrev pub set_exclusive_dom0_cpu : Bytes → Setup → Setup
set_exclusive_dom0_cpu s u = if is_nil (trim_space s) then u else dom0_set (parse_bool s) u

abbrev pub configure : (RuntimeConfig → RuntimeConfig) → Setup → Setup
configure f u = record u { config = f u.config }
