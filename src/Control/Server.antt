-- ===== src/Control/Server.antt =====
-- What `serve_vcm_control` of camera-service/src/main.rs computes between its calls.
use podbay_camera_firmware.Prelude.{
  ℕ, ◌+◌, ◌-◌, ◌==◌, min, Bool, true, false, ◌&&◌, Option, none, some, List, [], ◌∷◌, if◌then◌else◌,
  sat_mul, clamp, u32_max, as_u64, Result, ok, err,
}
use podbay_camera_firmware.Text.{Text, Signed, parse_unsigned}
use podbay_camera_firmware.Config.{
  SensorMode, fine_frame_length, fine_exposure, fine_gain, coarse_frame_length,
}
use podbay_camera_firmware.Exposure.{pack}
use podbay_camera_firmware.Telemetry.Window.{
  CameraTelemetry, record_stage, record_stage_us, stage_vcm_command, stage_vcm_remaining,
}
use podbay_camera_firmware.Vcm.{Vcm}
use podbay_camera_firmware.Control.{LiveEyeRoi, Control, Response, focus_report, refused}
use podbay_camera_firmware.Control.Commands.{is_focus, is_status}

unfoldable pub same_mode : SensorMode → SensorMode → Bool
same_mode a b =
    a.sensor_x == b.sensor_x
    && a.sensor_y == b.sensor_y
    && a.mode_width == b.mode_width
    && a.mode_height == b.mode_height
    && a.mode_binning == b.mode_binning
    && a.output_width == b.output_width
    && a.output_height == b.output_height

abbrev pub minimum_frame_length : SensorMode → ℕ
minimum_frame_length mode = if mode.mode_binning == 1 then fine_frame_length else 2800

abbrev pub default_exposure : SensorMode → ℕ
default_exposure mode = if mode.mode_binning == 1 then fine_exposure else 1200

abbrev pub mode_gain : SensorMode → ℕ
mode_gain mode = if mode.mode_binning == 1 then fine_gain else 256

-- What the variables are before the first connection; the shared ones are given.
abbrev pub initial_frame_length : SensorMode → ℕ
initial_frame_length mode =
    if mode.mode_binning == 1 then fine_frame_length else coarse_frame_length

unfoldable pub start_control : SensorMode → ℕ → CameraTelemetry → Vcm → Control
start_control mode timing telemetry vcm = record {
  last_mode = mode;
  frame_length = initial_frame_length mode;
  exposure = default_exposure mode;
  exposure_timing = timing;
  live_eye_roi = none;
  telemetry = telemetry;
  vcm = vcm;
}

-- An exposure and its frame, in the variables and in the shared word.
unfoldable pub with_exposure : ℕ → ℕ → Control → Control
with_exposure length lines k = record k {
  frame_length = length;
  exposure = lines;
  exposure_timing = pack (record { frame_length = length; coarse_lines = lines });
}

unfoldable pub follow_mode : SensorMode → Control → Control
follow_mode mode k =
    if same_mode mode k.last_mode
    then k
    else with_exposure (minimum_frame_length mode) (default_exposure mode)
        (record k { last_mode = mode })

-- `(current + delta).clamp(low, high)`; `-` stops at 0, which is not above any bound used.
abbrev pub stepped : ℕ → ℕ → ℕ → Signed → ℕ
stepped low high current (true, n) = clamp low high (current - n)
stepped low high current (false, n) = clamp low high (current + n)

-- `collect::<Result<Vec<_>, _>>()`
unfoldable pub parse_all : List Text → Result (List ℕ)
parse_all [] = ok []
parse_all (text ∷ texts) = elim (parse_unsigned u32_max text) [
  | err e ↦ err e
  | ok n ↦ elim (parse_all texts) [ err e ↦ err e | ok ns ↦ ok (n ∷ ns) ]
]

abbrev pub next_generation : Option LiveEyeRoi → ℕ
next_generation none = 1
next_generation (some current) = as_u64 (current.roi_generation + 1)

-- A response out of a call.
abbrev pub answered : {S A : Type 0} → (A → Response) → Result A × S → Result Response × S
answered f (ok a, s) = (ok (f a), s)
answered f (err e, s) = (ok (refused e), s)

abbrev pub remaining_of : Response → Option ℕ
remaining_of (focus_report status) = some status.remaining_ms
remaining_of _ = none

abbrev pub sample_remaining : Option ℕ → CameraTelemetry → CameraTelemetry
sample_remaining none t = t
sample_remaining (some ms) t =
    record_stage_us t stage_vcm_remaining (min (sat_mul 18_446_744_073_709_551_615 ms 1000) u32_max)

-- What a command of the focus leaves in the telemetry.
unfoldable pub note_command : ℕ → List Text → Response → CameraTelemetry → CameraTelemetry
note_command elapsed (first ∷ second ∷ rest) response t =
    if is_focus first
    then (let timed = record_stage t stage_vcm_command elapsed in
        if is_status second then sample_remaining (remaining_of response) timed else timed)
    else t
note_command elapsed (first ∷ []) response t =
    if is_focus first then record_stage t stage_vcm_command elapsed else t
note_command elapsed [] response t = t
