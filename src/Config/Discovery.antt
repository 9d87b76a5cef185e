-- ===== src/Config/Discovery.antt =====
-- pkg/configstack/micrun_configs.go: the search for configuration files, over what the environment and the
-- file system hold.
use micrun.Prelude.{
  ℕ, List, [], ◌∷◌, ◌++◌, Bool, true, false, not, ◌||◌, ◌&&◌, ◌==◌, ltb, Option, none, some, Bytes,
  codes, if◌then◌else◌,
}
use micrun.Mica.Executor.{bytes_eq}
use micrun.Mica.Update.{lower}
use micrun.Container.Presence.{is_nil}
pub mod Order

pub data ConfigFormat : Type 0 where
  unknown ini toml : ConfigFormat

pub record MicrunConfigFile : Type 0 where
  pub path : Bytes
  pub format : ConfigFormat

-- What os.ReadDir gives: no directory, another error, or the names with whether each is a directory.
pub data Directory : Type 0 where
  missing unreadable : Directory
  listing : List (Bytes × Bool) → Directory

-- The environment and the file system. The paths of `inside` are those of filepath.Join.
pub record Surroundings : Type 0 where
  pub conf_file : Bytes
  pub conf_dir : Bytes
  pub is_regular : Bytes → Bool
  pub exists : Bytes → Bool
  pub read_dir : Bytes → Directory
  pub inside : Bytes → Bytes → Bytes

-- filepath.Ext: from the last dot behind the last slash, where `so_far` is what starts at the last dot yet.
unfoldable pub ext_from : Bytes → Bytes → Bytes
ext_from so_far [] = so_far
ext_from so_far (c ∷ s) =
    let at_slash = ext_from [] s in
    let at_dot = ext_from (c ∷ s) s in
    let further = ext_from so_far s in
    if c == b'/' then at_slash else if c == b'.' then at_dot else further

-- The switch over the extension in lower case.
abbrev pub format_of : Bytes → ConfigFormat
format_of ext =
    if bytes_eq ext (codes ".ini") || bytes_eq ext (codes ".conf")
    then ini
    else if bytes_eq ext (codes ".toml")
    then toml
    else unknown

-- detectConfigFormat
unfoldable pub detect_config_format : Bytes → ConfigFormat
unfolding ext_from
detect_config_format path = format_of (lower (ext_from [] path))

abbrev pub is_unknown : ConfigFormat → Bool
is_unknown unknown = true
is_unknown _ = false

-- makeConfigFile
unfoldable pub make_config_file : Surroundings → Bytes → Option MicrunConfigFile
unfolding detect_config_format
make_config_file around path =
    if not (around.is_regular path) || is_unknown (detect_config_format path)
    then none
    else some (record { path = path; format = detect_config_format path })

-- files[i].Path < files[j].Path
unfoldable pub path_less : Bytes → Bytes → Bool
path_less [] [] = false
path_less [] (b ∷ t) = true
path_less (a ∷ s) [] = false
path_less (a ∷ s) (b ∷ t) = ltb a b || (a == b && path_less s t)

abbrev pub insert_file : MicrunConfigFile → List MicrunConfigFile → List MicrunConfigFile
insert_file f [] = f ∷ []
insert_file f (g ∷ gs) =
    let rest = insert_file f gs in if path_less f.path g.path then f ∷ g ∷ gs else g ∷ rest

-- sort.Slice, of files with different paths
unfoldable pub sort_files : List MicrunConfigFile → List MicrunConfigFile
unfolding path_less
sort_files [] = []
sort_files (f ∷ fs) = insert_file f (sort_files fs)

-- The loop over the entries of a directory.
unfoldable pub config_files : Surroundings → Bytes → List (Bytes × Bool) → List MicrunConfigFile
unfolding detect_config_format
config_files around dir [] = []
config_files around dir ((name, is_dir) ∷ entries) =
    let rest = config_files around dir entries in
    let full = around.inside dir name in
    if is_dir || is_unknown (detect_config_format full)
    then rest
    else record { path = full; format = detect_config_format full } ∷ rest

-- What is found, or that the directory is missing, or another error.
pub data Found : Type 0 where
  not_exist failed : Found
  found : List MicrunConfigFile → Found

abbrev pub listed : Surroundings → Bytes → Directory → Found
listed around dir missing = not_exist
listed around dir unreadable = failed
listed around dir (listing entries) = found (sort_files (config_files around dir entries))

-- listMicrunConfigDir
unfoldable pub list_micrun_config_dir : Surroundings → Bytes → Found
unfolding sort_files config_files
list_micrun_config_dir around dir =
    if is_nil dir then found [] else listed around dir (around.read_dir dir)

abbrev pub single : Option MicrunConfigFile → Found
single none = failed
single (some f) = found (f ∷ [])

abbrev pub default_config_file : Bytes
default_config_file = codes "/etc/mica/micrun/micrun.conf"

abbrev pub default_or_none : Surroundings → Found
default_or_none around =
    if around.exists default_config_file
    then single (make_config_file around default_config_file)
    else found []

-- The drop-in directory, and without any file there the default one.
abbrev pub or_default : Surroundings → Found → Found
or_default around not_exist = default_or_none around
or_default around failed = failed
or_default around (found []) = default_or_none around
or_default around (found (f ∷ fs)) = found (f ∷ fs)

abbrev pub search_default : Surroundings → Found
search_default around =
    or_default around (list_micrun_config_dir around (codes "/etc/mica/micrun/conf.d"))

-- The directory of the environment, where a missing one is an error.
abbrev pub or_search : Surroundings → Found → Found
or_search around not_exist = failed
or_search around failed = failed
or_search around (found []) = search_default around
or_search around (found (f ∷ fs)) = found (f ∷ fs)

-- DiscoverMicrunConfigFiles
unfoldable pub discover_micrun_config_files : Surroundings → Found
unfolding make_config_file list_micrun_config_dir
discover_micrun_config_files around =
    if not (is_nil around.conf_file)
    then single (make_config_file around around.conf_file)
    else if not (is_nil around.conf_dir)
    then or_search around (list_micrun_config_dir around around.conf_dir)
    else search_default around
