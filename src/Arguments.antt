-- ===== src/Arguments.antt =====
-- `parse_args` of camera-service/src/main.rs. For `--help` the source prints the usage and exits, which is
-- an error here.
pub mod Fields
pub mod Parsed
mod Tests
use podbay_camera_firmware.Prelude.{
  ℕ, ◌==◌, ◌&&◌, ◌||◌, Bool, true, false, List, [], ◌∷◌, if◌then◌else◌, u8_max, u16_max, u32_max,
  Result, ok, err, ◌>>=◌, ◌>>◌, fail_if, invalid_size, missing_value, unknown_argument,
  help_requested,
}
use Prim.Native.String.{String}
use podbay_camera_firmware.Text.{Text, codes, parse_unsigned}
use podbay_camera_firmware.Config.{Config}

-- The options that take a value.
pub data Setting : Type 0 where
  listen vcm_control tile origin settle timeout frame_length coarse gain : Setting
  sensor_resolution sensor_fps sensor_binning : Setting

pub data Argument : Type 0 where
  setting : Setting → Argument
  native_mode help unknown : Argument

abbrev pub u64_max : ℕ
u64_max = 18_446_744_073_709_551_615

abbrev pub same_text : Text → Text → Bool
same_text [] [] = true
same_text [] (b ∷ bs) = false
same_text (a ∷ rest) [] = false
same_text (a ∷ rest) (b ∷ bs) = a == b && same_text rest bs

unfoldable pub is_argument : String → String → Bool
is_argument text name = same_text (codes text) (codes name)

unfoldable pub argument_of : String → Argument
argument_of text =
    if is_argument text "--listen"
    then setting listen
    else if is_argument text "--vcm-control"
    then setting vcm_control
    else if is_argument text "--tile"
    then setting tile
    else if is_argument text "--origin"
    then setting origin
    else if is_argument text "--settle"
    then setting settle
    else if is_argument text "--timeout-ms"
    then setting timeout
    else if is_argument text "--frame-length"
    then setting frame_length
    else if is_argument text "--coarse"
    then setting coarse
    else if is_argument text "--gain"
    then setting gain
    else if is_argument text "--sensor-res"
    then setting sensor_resolution
    else if is_argument text "--sensor-fps"
    then setting sensor_fps
    else if is_argument text "--sensor-binning"
    then setting sensor_binning
    else if is_argument text "--native-mode"
    then native_mode
    else if is_argument text "-h" || is_argument text "--help"
    then help
    else unknown

abbrev append : Text → ℕ → Text
append [] c = c ∷ []
append (d ∷ ds) c = d ∷ append ds c

-- `split`: the pieces between separators, one more than there are separators.
unfoldable pub pieces : (ℕ → Bool) → Text → Text → List Text
pieces separates word [] = word ∷ []
pieces separates word (c ∷ cs) =
    let next = pieces separates [] cs in
    let more = pieces separates (append word c) cs in if separates c then word ∷ next else more

abbrev first_piece : List Text → Text
first_piece [] = []
first_piece (piece ∷ rest) = piece

abbrev pub other_pieces : List Text → List Text
other_pieces [] = []
other_pieces (piece ∷ rest) = rest

abbrev pub is_more : List Text → Bool
is_more [] = false
is_more (piece ∷ rest) = true

-- Exactly two numbers; a missing piece is an empty text.
unfoldable pub pair_of : List Text → Result (ℕ × ℕ)
pair_of fields = do
  a ← parse_unsigned u32_max (first_piece fields)
  b ← parse_unsigned u32_max (first_piece (other_pieces fields))
  fail_if (is_more (other_pieces (other_pieces fields))) invalid_size
  ok (a, b)

unfoldable pub parse_size : String → Result (ℕ × ℕ)
parse_size text = pair_of (pieces (λ c. c == 120 || c == 88) [] (codes text))

unfoldable pub parse_pair : String → Result (ℕ × ℕ)
parse_pair text = pair_of (pieces (λ c. c == 44) [] (codes text))

unfoldable pub parse : ℕ → String → Result ℕ
parse maximum text = parse_unsigned maximum (codes text)

unfoldable pub set_option : Setting → String → Config → Result Config
set_option listen text c = ok (record c { listen = text })
set_option vcm_control text c = ok (record c { vcm_control = text })
set_option tile text c = do
  size ← parse_size text
  ok (record c { tile_width = size.0; tile_height = size.1 })
set_option origin text c = do
  pair ← parse_pair text
  ok (record c { initial_x = pair.0; initial_y = pair.1 })
set_option settle text c = do n ← parse u32_max text; ok (record c { settle_frames = n })
set_option timeout text c = do n ← parse u64_max text; ok (record c { frame_timeout = n })
set_option frame_length text c = do n ← parse u16_max text; ok (record c { frame_length = n })
set_option coarse text c = do n ← parse u16_max text; ok (record c { coarse = n })
set_option gain text c = do n ← parse u16_max text; ok (record c { gain = n })
set_option sensor_resolution text c = do
  n ← parse u8_max text
  ok (record c { sensor_resolution = n })
set_option sensor_fps text c = do n ← parse u32_max text; ok (record c { sensor_fps = n })
set_option sensor_binning text c = do n ← parse u32_max text; ok (record c { sensor_binning = n })

-- What an argument without a value does before the ones after it.
abbrev pub plain : Argument → Config → Result Config
plain (setting s) c = err missing_value
plain native_mode c = ok (record c { direct_full_raw = false })
plain help c = err help_requested
plain unknown c = err unknown_argument

-- The loop over the arguments.
unfoldable pub parse_args : List String → Config → Result Config
parse_args [] c = ok c
parse_args (name ∷ []) c = plain (argument_of name) c
parse_args (name ∷ text ∷ rest) c = elim (argument_of name) [
  | setting s ↦ elim (set_option s text c) [ err e ↦ err e | ok c' ↦ parse_args rest c' ]
  | native_mode ↦ parse_args (text ∷ rest) (record c { direct_full_raw = false })
  | help ↦ err help_requested
  | unknown ↦ err unknown_argument
]
