-- ===== src/Examples/Config.antt =====
-- The configuration of the runtime: pkg/oci/runtime_setup.go and runtime_stack.go.
use micrun.Prelude.{false, ◌++◌, Bytes, List, [], ◌∷◌, some, true, codes, ◌≡◌, refl}
use micrun.Text.{trim_space}
use micrun.Pedestal.Essential.{xen, host_cpu_counts}
use micrun.Config.Ini.Sections.{sections}
use micrun.Container.Making.{in_list}
use micrun.Config.Ini.{Scanned, parse_ini}
use micrun.Config.Runtime.{Setup, new_runtime_config}
use micrun.Config.Stack.{parse_runtime_from_ini, runtime_key}
use micrun.Config.Discovery.Order.{IsOrderly, discover_micrun_config_files-IsOrderly}
use micrun.Config.Discovery.{
  MicrunConfigFile, ini, toml, Surroundings, listing, found, discover_micrun_config_files,
}
use micrun.Config.Stack.Ignored.{reset, parse_runtime_from_ini-ignored}

abbrev lines : List Bytes
lines =
    codes "# micrun"
    ∷ codes "[runtime]"
    ∷ codes "debug = true"
    ∷ codes "pause_image: 'pause:3'"
    ∷ []

-- A section that is allowed is read, with its quotes stripped.
parse_ini_run :
    parse_ini (some (codes "runtime" ∷ [])) (some (lines, true))
    ≡ some ((codes "debug", codes "true") ∷ (codes "pause_image", codes "pause:3") ∷ [])
unfolding parse_ini
parse_ini_run = refl

abbrev setup : Setup
setup = record { config = new_runtime_config xen; host = host_cpu_counts xen 4 2 }

parse_runtime_from_ini-ignored_example :
    parse_runtime_from_ini 1024 (some (lines, true)) setup ≡ reset 1024 setup
unfolding sections trim_space in_list
parse_runtime_from_ini-ignored_example = parse_runtime_from_ini-ignored 1024 lines setup (refl, tt)

abbrev annotations : List (Bytes × Bytes)
annotations =
    (runtime_key (codes "max_container_memory"), codes "4096")
    ∷ (runtime_key (codes "max_container_cpus"), codes "99999999999")
    ∷ []

-- One file, and one that is not supported.
abbrev files : List MicrunConfigFile
files =
    record { path = codes "a.conf"; format = ini }
    ∷ record { path = codes "b.toml"; format = toml }
    ∷ []

abbrev scan : Bytes → Scanned
scan path = some (lines, true)

abbrev around : Surroundings
around = record {
  conf_file = [];
  conf_dir = codes "/conf";
  is_regular = λ path. true;
  exists = λ path. true;
  read_dir = λ path.
      listing ((codes "b.conf", false) ∷ (codes "a.ini", false) ∷ (codes "c.txt", false) ∷ []);
  inside = λ dir name. dir ++ (codes "/" ++ name);
}

-- The files of the directory that the environment names, sorted, without the one of another kind.
discover_micrun_config_files_run :
    discover_micrun_config_files around
    ≡ found (
        record { path = codes "/conf/a.ini"; format = ini }
        ∷ record { path = codes "/conf/b.conf"; format = ini }
        ∷ [])
unfolding discover_micrun_config_files
discover_micrun_config_files_run = refl

discover_micrun_config_files-IsOrderly_example : IsOrderly (discover_micrun_config_files around)
discover_micrun_config_files-IsOrderly_example = discover_micrun_config_files-IsOrderly around
