-- ===== src/Shim/Configuration.antt =====
-- pkg/shim/utils.go: loadRuntimeConfig and loadConfigFromFile. What the file system, the environment and the
-- decoded options hold is asked of the outside.
use micrun.Prelude.{ℕ, List, [], ◌++◌, Bool, Option, none, some, Bytes, codes, if◌then◌else◌}
use micrun.Text.{trim_space}
use micrun.Keyed.{lookup}
use micrun.Container.Presence.{is_nil}
use micrun.Pedestal.Essential.{PedType, HostCpus, enable_dom0_cpu_exclusive}
use micrun.Config.Ini.{Scanned, parse_ini}
use micrun.Config.Discovery.{
  Found, found, MicrunConfigFile, Surroundings, discover_micrun_config_files,
}
use micrun.Config.Runtime.{RuntimeConfig, Setup, new_runtime_config}
use micrun.Config.Stack.{
  runtime_config_keys, convert_raw_config, apply_micrun_files, parse_runtime_config_from_anno,
  micrun_annotation_prefix,
}
use micrun.Oci.Types.{CriNames}
use micrun.Shim.Core.{other, done, failed, Op, with_lock}

-- What is read of the specification of a container.
pub record ShimSpec : Type 0 where
  pub annotations : List (Bytes × Bytes)
  -- the process, if there is one, of which only Terminal is read
  pub process : Option Bool

-- What creation asks of the system.
pub record Nursery (W : Type 0) : Type 0 where
  pub names : CriNames
  pub ped : PedType
  pub high : ℕ
  pub resolve_path : Bytes → W → Option Bytes
  -- os.Stat with IsDir
  pub is_dir : Bytes → W → Bool
  pub read_spec : Bytes → W → Option ShimSpec
  pub config_env : W → Bytes
  pub surroundings : W → Surroundings
  pub scan : W → Bytes → Scanned
  -- getConfigPathFromOptions, where an error is `none`
  pub path_from_options : Bytes → Option Bytes
  pub host_cpus : W → HostCpus
  pub set_host_cpus : HostCpus → W → W

abbrev pub sandbox_config_path_key : Bytes
sandbox_config_path_key = micrun_annotation_prefix ++ codes "config_path"

-- Where the path of the configuration comes from.
pub data Origin : Type 0 where
  nowhere : Origin
  trusted environment : (path : Bytes) → Origin

module _ {W : Type 0} (nursery : Nursery W) where
  abbrev from_environment : Bytes → Origin
  from_environment value = if is_nil value then nowhere else environment value

  abbrev from_options : Bytes → Option Bytes → Option Origin
  from_options env none = none
  from_options env (some path) = some (if is_nil path then from_environment env else trusted path)

  abbrev without_annotation : Bytes → Option Bytes → Option Origin
  without_annotation env none = some (from_environment env)
  without_annotation env (some options) = from_options env (nursery.path_from_options options)

  abbrev path_of : Option Bytes → Bytes
  path_of none = []
  path_of (some path) = path

  -- annotations > CRI options > env
  abbrev pub origin : List (Bytes × Bytes) → Option Bytes → W → Option Origin
  origin annotations options w =
      let path = path_of (lookup sandbox_config_path_key annotations) in
      if is_nil path
      then without_annotation (trim_space (nursery.config_env w)) options
      else some (trusted path)

  abbrev pub fresh_setup : W → Setup
  fresh_setup w = record { config = new_runtime_config nursery.ped; host = nursery.host_cpus w }

  abbrev converted_or : W → Option (List (Bytes × Bytes)) → Option Setup
  converted_or w none = none
  converted_or w (some raw) = some (convert_raw_config nursery.high raw (fresh_setup w))

  -- loadConfigFromFile
  unfoldable pub load_config_from_file : Bytes → W → Option Setup
  unfolding parse_ini convert_raw_config
  load_config_from_file path w =
      converted_or w (parse_ini (some runtime_config_keys) (nursery.scan w path))

  abbrev or_fresh : W → Option Setup → Setup
  or_fresh w none = fresh_setup w
  or_fresh w (some u) = u

  abbrev found_files : Found → List MicrunConfigFile
  found_files (found files) = files
  found_files _ = []

  abbrev pub base_of : Option Origin → W → Option Setup
  base_of none w = none
  base_of (some nowhere) w = some (
      apply_micrun_files nursery.high (nursery.scan w)
        (found_files (discover_micrun_config_files (nursery.surroundings w))) (fresh_setup w))
  base_of (some (trusted path)) w = load_config_from_file path w
  base_of (some (environment path)) w = some (or_fresh w (load_config_from_file path w))

  abbrev pub configured : List (Bytes × Bytes) → Option Setup → Op W RuntimeConfig
  configured annotations none at = (at, failed other)
  configured annotations (some base) (s, w) =
      let u = parse_runtime_config_from_anno nursery.high annotations base in
      let host = enable_dom0_cpu_exclusive u.config.exclusive_dom0_cpu u.host in
      ((record s { config = some u.config }, nursery.set_host_cpus host w), done u.config)

  abbrev pub config_or_load :
      List (Bytes × Bytes) → Option Bytes → Option RuntimeConfig → Op W RuntimeConfig
  config_or_load annotations options (some config) at = (at, done config)
  config_or_load annotations options none (s, w) =
      configured annotations (base_of (origin annotations options w) w) (s, w)

  abbrev pub load_locked : List (Bytes × Bytes) → Option Bytes → Op W RuntimeConfig
  load_locked annotations options (s, w) = config_or_load annotations options s.config (s, w)

  -- loadRuntimeConfig, which takes the lock
  unfoldable pub load_runtime_config : List (Bytes × Bytes) → Option Bytes → Op W RuntimeConfig
  unfolding with_lock load_config_from_file apply_micrun_files discover_micrun_config_files
      parse_runtime_config_from_anno enable_dom0_cpu_exclusive new_runtime_config trim_space lookup
  load_runtime_config annotations options = with_lock (load_locked annotations options)
