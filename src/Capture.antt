-- ===== src/Capture.antt =====
-- Captures of the whole sensor in camera-service/src/main.rs: one exposure of the coarse readout, and a
-- scan by bands of the fine one. How long the phases take is left out, and the pause before the output
-- port is armed again.
pub mod Coarse
pub mod OneShot
pub mod Restored
pub mod Bands
pub mod Scan
pub mod Origins
mod Rows
pub mod Filled
mod Held
pub mod Rescanned
mod Tests
mod Witness
use podbay_camera_firmware.Prelude.{ℕ, ◌*◌, ◌/◌, ◌%◌, Bool, true, false, Result, ok, err, Error}
use podbay_camera_firmware.Device.{M}

pub data CaptureFormat : Type 0 where
  gray16 raw10 : CaptureFormat

-- COARSE_FRAME_WAIT, in milliseconds.
abbrev pub coarse_frame_wait : ℕ
coarse_frame_wait = 450

-- LIVE_ORIGIN_DISCARD_FRAMES, which is SCAN_ORIGIN_SETTLE_FRAMES.
abbrev pub scan_origin_settle_frames : ℕ
scan_origin_settle_frames = 2

abbrev pub scan_min_blanking_lines : ℕ
scan_min_blanking_lines = 116

abbrev pub scan_exposure_margin_lines : ℕ
scan_exposure_margin_lines = 50

abbrev pub scan_gain : ℕ
scan_gain = 930

-- `match call { ... }`: the result is a value, and what follows runs in either case.
abbrev pub ended : {S A : Type 0} → Result A × S → Result (Result A) × S
ended (r, s) = (ok r, s)

abbrev pub outcome : {S A : Type 0} → M S A → M S (Result A)
outcome m s = ended (m s)
