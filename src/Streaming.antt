-- ===== src/Streaming.antt =====
-- `stream_eye_rois` of camera-service/src/main.rs: sets of two eyes, with a context thumbnail now and then
-- and telemetry between them. The transport is left out: a set is the list of its packets. What the
-- other threads have written, and the clocks, are read once a set and given.
pub mod Cadence
pub mod Sets
pub mod Packets
pub mod Rounds
mod Tests
use podbay_camera_firmware.Prelude.{
  ℕ, ◌+◌, ◌%◌, ◌==◌, Option, none, some, List, if◌then◌else◌, as_u32, as_u64,
}
use podbay_camera_firmware.Config.Requests.{ContextStream}
use podbay_camera_firmware.Telemetry.Window.{CameraTelemetry}
use podbay_camera_firmware.Control.{LiveEyeRoi}

-- The variables of the loop, with the telemetry that it shares.
pub record Stream : Type 0 where
  pub sent : ℕ  -- u32
  pub sequence : ℕ  -- u64
  pub active : LiveEyeRoi
  pub last_frame_ready : Option ℕ
  pub completed_sets : List ℕ  -- instants, the oldest first
  pub stream_telemetry : CameraTelemetry

-- What a round reads of the other threads and of the clocks, in nanoseconds.
pub record Round : Type 0 where
  pub requested : Option LiveEyeRoi
  pub timing_word : ℕ
  pub frame_ready : ℕ
  pub roi_slice : ℕ
  pub context_build : ℕ
  pub context_write : ℕ
  pub left_write : ℕ
  pub right_write : ℕ
  pub completed : ℕ
  pub telemetry_now : ℕ
  pub telemetry_write : ℕ

-- A header and its payload.
abbrev pub Packet : Type 0
Packet = List ℕ × List ℕ

-- `context.filter(|context| sent % context.every == 0)`
unfoldable pub active_context : Option ContextStream → ℕ → Option ContextStream
active_context none sent = none
active_context (some context) sent = if sent % context.every == 0 then some context else none

-- TELEMETRY_EVERY_RAW_SETS
abbrev pub telemetry_every_raw_sets : ℕ
telemetry_every_raw_sets = 2
