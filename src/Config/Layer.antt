-- ===== src/Config/Layer.antt =====
-- pkg/configstack/container_stack.go: FallbackConfLayer, over whether client.conf is there and what the
-- scanner gives of it.
use micrun.Prelude.{List, [], ◌∷◌, Bool, ◌||◌, not, Option, none, some, Bytes, codes, if◌then◌else◌}
use micrun.Text.{trim_space}
use micrun.Keyed.{lookup}
use micrun.Container.Presence.{is_nil}
use micrun.Config.Ini.{Scanned, parse_ini}

pub record ContainerLayer : Type 0 where
  pub image_abs_path : Bytes
  pub pedestal_type : Bytes
  pub pedestal_conf : Bytes
  pub os : Bytes

abbrev pub no_overrides : ContainerLayer
no_overrides = record { image_abs_path = []; pedestal_type = []; pedestal_conf = []; os = [] }

-- fields[key]
abbrev pub value_or_nil : Option Bytes → Bytes
value_or_nil none = []
value_or_nil (some value) = value

abbrev pub field : Bytes → List (Bytes × Bytes) → Bytes
field key fields = value_or_nil (lookup key fields)

-- An empty value leaves the empty field as it is.
unfoldable pub overrides : List (Bytes × Bytes) → ContainerLayer
unfolding lookup
overrides fields = record {
  image_abs_path = trim_space (field (codes "clientpath") fields);
  pedestal_type = trim_space (field (codes "pedestal") fields);
  pedestal_conf = trim_space (field (codes "pedestalconf") fields);
  os = trim_space (field (codes "os") fields);
}

-- A file that cannot be parsed is no error; `none` is er.Missing.
abbrev pub layer_of : Option (List (Bytes × Bytes)) → Option ContainerLayer
layer_of none = some no_overrides
layer_of (some []) = none
layer_of (some (field ∷ fields)) = some (overrides (field ∷ fields))

-- FallbackConfLayer
unfoldable pub fallback_conf_layer : Bytes → Bool → Scanned → Option ContainerLayer
unfolding parse_ini overrides trim_space
fallback_conf_layer dir there file =
    if is_nil (trim_space dir) || not there
    then none
    else layer_of (parse_ini (some (codes "mica" ∷ [])) file)
