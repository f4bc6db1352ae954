-- ===== src/Control.antt =====
-- The control connection of camera-service/src/main.rs, `serve_vcm_control`: focus, exposure and the
-- rectangles of the eyes. A connection serves one line; a response is its kind and its numbers, and the
-- transport is left out. The locks are taken for one access each, so that a command is one step on the
-- state that the threads share.
pub mod Commands
pub mod Server
pub mod Handlers
mod Steps
pub mod Exposures
pub mod Regions
pub mod Replaced
mod Tests
use podbay_camera_firmware.Prelude.{ℕ, Option, Error}
use podbay_camera_firmware.Config.{SensorMode}
use podbay_camera_firmware.Telemetry.Window.{CameraTelemetry}
use podbay_camera_firmware.Vcm.{Vcm, FocusStatus}

pub record LiveEyeRoi : Type 0 where
  pub left_eye : ℕ × ℕ
  pub right_eye : ℕ × ℕ
  pub eye_width : ℕ  -- u32
  pub eye_height : ℕ  -- u32
  pub roi_generation : ℕ  -- u64

-- The variables of `serve_vcm_control`, and what it shares with the other threads: the word of the
-- exposure, the rectangles of the eyes, and the telemetry.
pub record Control : Type 0 where
  pub last_mode : SensorMode
  pub frame_length : ℕ  -- u16
  pub exposure : ℕ  -- u16
  pub exposure_timing : ℕ  -- u32
  pub live_eye_roi : Option LiveEyeRoi
  pub telemetry : CameraTelemetry
  pub vcm : Vcm

pub data Response : Type 0 where
  pong disabled roi_outside usage : Response
  focus_at : ℕ → Response
  focus_report : FocusStatus → Response
  focus_moved : ℕ → ℕ → Response  -- the position and what is read back
  exposure_at exposure_set : ℕ → ℕ → Response  -- lines and frame length
  roi_set : ℕ → Response  -- the generation
  refused : Error → Response
