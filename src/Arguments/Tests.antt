-- ===== src/Arguments/Tests.antt =====
-- The theorems on arguments, at concrete arguments.
use podbay_camera_firmware.Prelude.{[], ◌∷◌, List, false}
use Prim.Native.String.{String}
use podbay_camera_firmware.Config.{Config, default_config}
use podbay_camera_firmware.Arguments.Parsed.{Parsed}

-- The gain is given twice.
abbrev args : List String
args = "--gain" ∷ "300" ∷ "--tile" ∷ "64x32" ∷ "--gain" ∷ "+900" ∷ "--native-mode" ∷ []

abbrev configured : Config
configured = record default_config {
  tile_width = 64;
  tile_height = 32;
  gain = 900;
  direct_full_raw = false;
}
