-- ===== src/Graph.antt =====
-- The pipeline of camera-service/src/main.rs: `Graph`, which owns the sensor, the video input (VIF) and
-- its output port. The MI SDK and the sensor's bus are parameters; messages are left out,
-- and pauses but for the ones of the waiting loops.
pub mod Pipeline
pub mod Effects
pub mod Frames
pub mod Eyes
pub mod EyeSet
pub mod Pixels
pub mod Waiting
pub mod Copies
pub mod Taken
pub mod Ledger
pub mod Balance
pub mod Lifecycle
pub mod Apply
pub mod Applied
pub mod Leads
pub mod Transitions
pub mod Fallback
mod Tests
mod Witnesses
use podbay_camera_firmware.Prelude.{
  ℕ, ◌+◌, ◌*◌, ◌≡◌, Bool, true, false, not, ◌&&◌, ◌||◌, Option, none, some, List, [], ◌∷◌, ◌==◌,
  if◌then◌else◌, as_u32, Result, ok, err, Error, fail_if, mi_failed, bad_descriptor, graph_not_live,
  sensor_closed, mode_unsupported, binning_unsupported,
}
use podbay_camera_firmware.Device.{M, ◌>>=◌, ◌>>◌, pure, lift, continue, I2c}
use podbay_camera_firmware.Config.{
  Config, Geometry, geometry_of, preview_sensor_x, preview_sensor_y, preview_width, preview_height,
}
use podbay_camera_firmware.Sensor.Driver.{
  start_configured_module_mode, apply_full_raw_mode, apply_binned_raw_mode, set_exposure,
  verify_full_raw_mode, prepare_geometry_live, restart_geometry_live,
}

-- The calls of the MI SDK that the pipeline makes, on the one pad, device and port it uses.
pub data MiCall : Type 0 where
  set_plane_mode set_orien get_res snr_enable snr_disable get_plane_info : MiCall
  set_res set_fps : ℕ → MiCall
  create_dev_group : List ℕ → MiCall
  destroy_dev_group enable_dev disable_dev enable_output_port disable_output_port : MiCall
  set_dev_attr set_output_port_attr : List ℕ → MiCall
  set_output_port_depth : ℕ → ℕ → MiCall
  close_fd : ℕ → MiCall

-- What MI_SYS_ChnOutputPortGetBuf fills in: the bytes of its information, and a handle.
pub record Buffer : Type 0 where
  pub info : List ℕ
  pub handle : ℕ

-- A call returns an i32, here as its word. `get_fd` is given the descriptor stored before and also
-- returns the one stored after; a descriptor is `none` where it is negative. The state holds what is
-- outside the program, so also the memory that the hardware writes, and the clocks: `now` of an
-- Instant and `wall_clock` of the system time, in nanoseconds.
pub record Mi : Type 1 where
  pub State : Type 0
  pub call : MiCall → State → ℕ × State
  pub get_fd : Option ℕ → State → (ℕ × Option ℕ) × State
  pub get_buf : State → (ℕ × Buffer) × State
  pub put_buf : ℕ → State → ℕ × State
  pub flush_cache : ℕ → ℕ → State → ℕ × State
  pub memory : State → ℕ → ℕ
  pub now : State → ℕ
  pub wall_clock : State → ℕ
  pub pause : ℕ → State → State

-- The sensor is its geometry, once it is open.
pub record Graph : Type 0 where
  pub sensor : Option Geometry
  pub output_fd : Option ℕ
  pub sensor_enabled : Bool
  pub group_created : Bool
  pub device_enabled : Bool
  pub port_enabled : Bool
  pub depth_enabled : Bool
  pub graph_width : ℕ
  pub graph_height : ℕ
  pub graph_timeout : ℕ
  pub live_origin : Bool
  pub graph_format : ℕ
  pub metadata_logged : Bool
  pub origin_x : ℕ
  pub origin_y : ℕ

-- The fields that a configuration sets before any call.
unfoldable pub adopt : Config → Graph → Graph
adopt c g = record g {
  graph_width = c.tile_width;
  graph_height = c.tile_height;
  graph_timeout = c.frame_timeout;
  live_origin = c.direct_full_raw && not (c.sensor_resolution == 1);
  graph_format = c.pixel_format;
  metadata_logged = false;
  origin_x = c.initial_x;
  origin_y = c.initial_y;
}

-- `(tile_height << 16) | tile_width`: the width is at most u16::MAX.
unfoldable pub packed_geometry : Config → ℕ
packed_geometry c = as_u32 (c.tile_height * 65536) + c.tile_width

unfoldable pub device_words : Config → List ℕ
device_words c =
    let geometry = packed_geometry c in
    c.pixel_format ∷ 0 ∷ geometry ∷ 0 ∷ 0 ∷ 0 ∷ geometry ∷ geometry ∷ c.pixel_format ∷ 0 ∷ 0 ∷ 4
    ∷ []

unfoldable pub output_words : Config → List ℕ
output_words c =
    let geometry = packed_geometry c in
    0 ∷ geometry ∷ geometry ∷ c.pixel_format ∷ 0 ∷ 0 ∷ 4 ∷ 0 ∷ 0 ∷ 2 ∷ 0 ∷ 0 ∷ []

-- What the stock scaler mode requires.
unfoldable pub is_bad_preview : Config → Bool
is_bad_preview c =
    not (c.initial_x == preview_sensor_x)
    || not (c.initial_y == preview_sensor_y)
    || not (c.tile_width == preview_width)
    || not (c.tile_height == preview_height)
    || not (c.sensor_binning == 4)

-- `if result == 0 { Ok(()) } else { Err(...) }`
unfoldable pub mi : ℕ → Result (Unit {0})
mi result = fail_if (not (result == 0)) (mi_failed result)

-- The sensor's part of `configure_pipeline`.
unfoldable pub program_sensor : (bus : I2c) → Config → M bus.State (Unit {0})
program_sensor bus c =
    let g = geometry_of c in
    let x = c.initial_x in
    let y = c.initial_y in
    if not c.direct_full_raw
    then pure tt
    else if c.sensor_resolution == 1
    then (lift (fail_if (is_bad_preview c) mode_unsupported) >> start_configured_module_mode bus)
    else ((if c.sensor_binning == 1
          then apply_full_raw_mode bus g x y
          else if c.sensor_binning == 4
          then apply_binned_raw_mode bus g x y
          else lift (err binning_unsupported))
        >> set_exposure bus c.frame_length c.coarse c.gain
        >> (if c.sensor_binning == 1 then verify_full_raw_mode bus g x y else pure tt))
