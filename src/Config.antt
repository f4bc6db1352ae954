-- ===== src/Config.antt =====
-- The configuration of camera-service/src/main.rs: Config, its validation, and the crops that the
-- host asks for. The transitions between configurations and the requests on a stream are child modules.
pub mod Valid
pub mod Crops
pub mod Transition
pub mod Requests
mod Tests
use Prim.Native.String.{String}
use podbay_camera_firmware.Prelude.{
  ℕ, ◌+◌, ◌-◌, ◌*◌, ◌/◌, ◌%◌, Bool, true, false, not, ◌&&◌, ◌||◌, ltb, ◌==◌, if◌then◌else◌, u16_max,
  as_u32, Result, Error, ok, err, fail_if, Option, none, some, u32_max, eye_binning, eye_alignment,
  eye_outside, context_geometry, context_disabled_geometry, ◌>>=◌, ◌>>◌, null_unavailable,
  crop_binning, crop_alignment, tile_geometry, frame_length_short, binning_unsupported,
  scale_unsupported, origin_alignment, origin_outside,
}

-- SENSOR_WIDTH, SENSOR_HEIGHT and the preview window.
abbrev pub sensor_width : ℕ
sensor_width = 8000

abbrev pub sensor_height : ℕ
sensor_height = 6000

abbrev pub preview_sensor_x : ℕ
preview_sensor_x = 160

abbrev pub preview_sensor_y : ℕ
preview_sensor_y = 840

abbrev pub preview_width : ℕ
preview_width = 1920

abbrev pub preview_height : ℕ
preview_height = 1080

abbrev pub raw10_rg : ℕ
raw10_rg = 32

abbrev pub fine_frame_length : ℕ
fine_frame_length = 700

abbrev pub fine_exposure : ℕ
fine_exposure = 650

abbrev pub fine_gain : ℕ
fine_gain = 994

abbrev pub fine_line_length : ℕ
fine_line_length = 0x3970

abbrev pub coarse_line_length : ℕ
coarse_line_length = 0x0b60

abbrev pub coarse_frame_length : ℕ
coarse_frame_length = 1616

abbrev pub coarse_exposure : ℕ
coarse_exposure = 1566

abbrev pub coarse_gain : ℕ
coarse_gain = 930

pub record Config : Type 0 where
  pub listen : String
  pub vcm_control : String
  pub tile_width : ℕ  -- u32
  pub tile_height : ℕ  -- u32
  pub initial_x : ℕ  -- u32
  pub initial_y : ℕ  -- u32
  pub settle_frames : ℕ  -- u32
  pub frame_timeout : ℕ  -- milliseconds
  pub frame_length : ℕ  -- u16
  pub coarse : ℕ  -- u16
  pub gain : ℕ  -- u16
  pub sensor_resolution : ℕ  -- u8
  pub sensor_fps : ℕ  -- u32
  pub sensor_binning : ℕ  -- u32
  pub sensor_scale : ℕ  -- u32
  pub direct_full_raw : Bool
  pub pixel_format : ℕ  -- u32

-- `Default for Config`
abbrev pub default_config : Config
default_config = record {
  listen = "0.0.0.0:5001";
  vcm_control = "0.0.0.0:5002";
  tile_width = 1000;
  tile_height = 1000;
  initial_x = 3500;
  initial_y = 2500;
  settle_frames = 1;
  frame_timeout = 1500;
  frame_length = fine_frame_length;
  coarse = fine_exposure;
  gain = fine_gain;
  sensor_resolution = 0;
  sensor_fps = 15;
  sensor_binning = 1;
  sensor_scale = 1;
  direct_full_raw = true;
  pixel_format = raw10_rg;
}

-- `matches!(value, 1 | other)`
abbrev pub one_or : ℕ → ℕ → Bool
one_or other value = value == 1 || value == other

-- The geometry that a `Sensor` holds beside its open file.
pub record Geometry : Type 0 where
  pub width : ℕ  -- u32
  pub height : ℕ  -- u32
  pub binning : ℕ  -- u32
  pub scale : ℕ  -- u32

unfoldable pub physical_width : Geometry → ℕ
physical_width g = as_u32 (as_u32 (g.width * g.binning) * g.scale)

unfoldable pub physical_height : Geometry → ℕ
physical_height g = as_u32 (as_u32 (g.height * g.binning) * g.scale)

-- The tests of `validate_origin`. `x & 3` is the remainder by 4 and `y & 1` that by 2; the
-- subtractions stand behind the tests that make them safe.
unfoldable pub is_misaligned : ℕ → ℕ → Bool
is_misaligned x y = not (x % 4 == 0) || not (y % 2 == 0)

unfoldable pub is_outside : Geometry → ℕ → ℕ → Bool
is_outside g x y =
    ltb sensor_width x
    || ltb sensor_height y
    || ltb (sensor_width - x) (physical_width g)
    || ltb (sensor_height - y) (physical_height g)

unfoldable pub validate_origin : Geometry → ℕ → ℕ → Result (Unit {0})
validate_origin g x y = do
  fail_if (is_misaligned x y) origin_alignment
  fail_if (is_outside g x y) origin_outside

-- The tests of `validate_config` on the tile and on the readout.
unfoldable pub is_bad_tile : ℕ → ℕ → Bool
is_bad_tile width height =
    width == 0
    || height == 0
    || not (width % 4 == 0)
    || not (height % 2 == 0)
    || ltb u16_max width
    || ltb u16_max height

unfoldable pub is_bad_scale : ℕ → ℕ → Bool
is_bad_scale binning scale = not (one_or 2 scale) || (binning == 1 && not (scale == 1))

-- The geometry of the configuration's `Sensor`.
abbrev pub geometry_of : Config → Geometry
geometry_of c = record {
  width = c.tile_width;
  height = c.tile_height;
  binning = c.sensor_binning;
  scale = c.sensor_scale;
}

-- `null_opens` says whether the operating system opens /dev/null, which the source asks for to
-- build a probe `Sensor`.
unfoldable pub validate_config : Bool → Config → Result (Unit {0})
validate_config null_opens c = do
  fail_if (is_bad_tile c.tile_width c.tile_height) tile_geometry
  fail_if (ltb c.frame_length 16) frame_length_short
  fail_if (not (one_or 4 c.sensor_binning)) binning_unsupported
  fail_if (is_bad_scale c.sensor_binning c.sensor_scale) scale_unsupported
  fail_if (not null_opens) null_unavailable
  validate_origin (geometry_of c) c.initial_x c.initial_y

-- The part of `sensor_crop_config` that sets the readout mode of a binning of 1 or 4.
unfoldable pub crop_mode : ℕ → Config → Config
crop_mode binning c =
    if binning == 1
    then record c {
      sensor_resolution = 0;
      sensor_fps = 10;
      frame_length = fine_frame_length;
      coarse = fine_exposure;
      gain = fine_gain;
    }
    else record c {
      sensor_resolution = 2;
      sensor_fps = 15;
      frame_length = coarse_frame_length;
      coarse = coarse_exposure;
      gain = coarse_gain;
    }

unfoldable pub crop_config : Config → ℕ → ℕ → ℕ → ℕ → ℕ → Config
unfolding crop_mode
crop_config base x y width height binning = crop_mode binning (record base {
  initial_x = x;
  initial_y = y;
  tile_width = width / binning;
  tile_height = height / binning;
  sensor_binning = binning;
  sensor_scale = 1;
})

unfoldable pub is_bad_crop : ℕ → ℕ → ℕ → ℕ → ℕ → Bool
is_bad_crop x y width height binning =
    width == 0
    || height == 0
    || not (x % binning == 0)
    || not (y % binning == 0)
    || not (width % binning == 0)
    || not (height % binning == 0)

unfoldable pub sensor_crop_config : Bool → Config → ℕ → ℕ → ℕ → ℕ → ℕ → Result Config
sensor_crop_config null_opens base x y width height binning = do
  fail_if (not (one_or 4 binning)) crop_binning
  fail_if (is_bad_crop x y width height binning) crop_alignment
  let next = crop_config base x y width height binning
  validate_config null_opens next
  ok next

unfoldable pub full_sensor_scaled_config : Bool → Config → Result Config
full_sensor_scaled_config null_opens base = do
  crop ← sensor_crop_config null_opens base 0 0 sensor_width sensor_height 4
  let next = record crop { tile_width = 1000; tile_height = 750; sensor_scale = 2 }
  validate_config null_opens next
  ok next

unfoldable pub scaled_acquisition_config : Bool → Config → Result Config
scaled_acquisition_config null_opens base = do
  let next = record base {
    initial_x = preview_sensor_x;
    initial_y = preview_sensor_y;
    tile_width = preview_width;
    tile_height = preview_height;
    sensor_binning = 4;
    sensor_scale = 1;
    sensor_resolution = 1;
    sensor_fps = 60;
    direct_full_raw = true;
  }
  validate_config null_opens next
  ok next

pub record SensorMode : Type 0 where
  pub sensor_x : ℕ
  pub sensor_y : ℕ
  pub mode_width : ℕ  -- physical_width
  pub mode_height : ℕ  -- physical_height
  pub mode_binning : ℕ  -- binning
  pub output_width : ℕ
  pub output_height : ℕ

-- `SensorMode::from_config`
unfoldable pub mode_from_config : Config → SensorMode
mode_from_config c = record {
  sensor_x = c.initial_x;
  sensor_y = c.initial_y;
  mode_width = as_u32 (as_u32 (c.tile_width * c.sensor_binning) * c.sensor_scale);
  mode_height = as_u32 (as_u32 (c.tile_height * c.sensor_binning) * c.sensor_scale);
  mode_binning = as_u32 (c.sensor_binning * c.sensor_scale);
  output_width = c.tile_width;
  output_height = c.tile_height;
}
