-- ===== src/Telemetry/Window.antt =====
-- CameraTelemetry of camera-service/src/main.rs: one histogram for each stage, and the window that
-- `payload` publishes. An Instant is a number of nanoseconds.
use podbay_camera_firmware.Prelude.{
  ℕ, suc, ◌+◌, ◌-◌, ◌/◌, min, Bool, Option, none, some, List, [], ◌∷◌, ◌++◌, map, get_or, set, leb,
  ◌==◌, if◌then◌else◌, u32_max, as_u32, as_u16,
}
use podbay_camera_firmware.Telemetry.Histogram.{
  TimingHistogram, telemetry_buckets, empty_histogram, position, record_us, record_duration,
  percentile, clear,
}
use podbay_camera_firmware.Bytes.{le_bytes}

abbrev pub telemetry_version : ℕ
telemetry_version = 1

-- TELEMETRY_WINDOW, in nanoseconds.
abbrev pub telemetry_window : ℕ
telemetry_window = 1_000_000_000

abbrev pub stage_sensor_interval : ℕ
stage_sensor_interval = 1

abbrev pub stage_sensor_acquire : ℕ
stage_sensor_acquire = 2

abbrev pub stage_context_build : ℕ
stage_context_build = 3

abbrev pub stage_roi_slice : ℕ
stage_roi_slice = 4

abbrev pub stage_stream_write : ℕ
stage_stream_write = 5

abbrev pub stage_vcm_command : ℕ
stage_vcm_command = 6

abbrev pub stage_vcm_remaining : ℕ
stage_vcm_remaining = 7

-- CAMERA_STAGE_IDS
abbrev pub stage_ids : List ℕ
stage_ids =
    stage_sensor_interval ∷ stage_sensor_acquire ∷ stage_context_build ∷ stage_roi_slice
    ∷ stage_stream_write ∷ stage_vcm_command ∷ stage_vcm_remaining ∷ []

pub record CameraTelemetry : Type 0 where
  pub window_started : ℕ
  pub window_sequence : ℕ  -- u32
  pub stages : List TimingHistogram  -- one for each of stage_ids

unfoldable pub new : ℕ → CameraTelemetry
new now = record {
  window_started = now;
  window_sequence = 0;
  stages = map (λ _. empty_histogram) stage_ids;
}

unfoldable pub reset : CameraTelemetry → ℕ → CameraTelemetry
unfolding clear
reset t now = record {
  window_started = now;
  window_sequence = as_u32 (t.window_sequence + 1);
  stages = map clear t.stages;
}

-- `if let Some(index) = CAMERA_STAGE_IDS.iter().position(|id| *id == stage_id)`
unfoldable pub update_stage :
    (TimingHistogram → TimingHistogram) → Option ℕ → CameraTelemetry → CameraTelemetry
update_stage f none t = t
update_stage f (some index) t = record t {
  stages = set t.stages index (f (get_or t.stages index empty_histogram));
}

unfoldable pub stage_index : ℕ → Option ℕ
unfolding position
stage_index stage_id = position (λ id. id == stage_id) stage_ids

unfoldable pub record_stage : CameraTelemetry → ℕ → ℕ → CameraTelemetry
unfolding update_stage
record_stage t stage_id nanoseconds =
    update_stage (λ h. record_duration h nanoseconds) (stage_index stage_id) t

unfoldable pub record_stage_us : CameraTelemetry → ℕ → ℕ → CameraTelemetry
unfolding update_stage
record_stage_us t stage_id sample = update_stage (λ h. record_us h sample) (stage_index stage_id) t

-- `self.stages.iter().filter(|histogram| histogram.count != 0).count()`
unfoldable pub populated : List TimingHistogram → ℕ
populated [] = 0
populated (h ∷ hs) = let rest = populated hs in if h.count == 0 then rest else suc rest

unfoldable pub bucket_bytes : List ℕ → List ℕ
bucket_bytes [] = []
bucket_bytes (n ∷ ns) = le_bytes 2 n ++ bucket_bytes ns

-- What the loop of `payload` appends for a stage that has samples.
unfoldable pub stage_record : ℕ → TimingHistogram → List ℕ
stage_record stage_id h =
    stage_id
    ∷ telemetry_buckets
    ∷ (le_bytes 2 1
        ++ (le_bytes 4 h.count
            ++ (le_bytes 4 (percentile h 1 4)
                ++ (le_bytes 4 (percentile h 1 2)
                    ++ (le_bytes 4 (percentile h 3 4)
                        ++ (le_bytes 4 (percentile h 95 100)
                            ++ (le_bytes 4 h.max_us
                                ++ (le_bytes 4 h.max_jitter_us ++ bucket_bytes h.buckets))))))))

-- `for (&stage_id, histogram) in CAMERA_STAGE_IDS.iter().zip(&self.stages)`
unfoldable pub stage_records : List ℕ → List TimingHistogram → List ℕ
stage_records [] hs = []
stage_records (id ∷ ids) [] = []
stage_records (id ∷ ids) (h ∷ hs) =
    let rest = stage_records ids hs in if h.count == 0 then rest else stage_record id h ++ rest

-- `duration_since` is zero if `now` lies before the start.
unfoldable pub elapsed_us : CameraTelemetry → ℕ → ℕ
elapsed_us t now = min ((now - t.window_started) / 1000) u32_max

unfoldable pub window_expired : CameraTelemetry → ℕ → Bool
window_expired t now = leb telemetry_window (now - t.window_started)

unfoldable pub payload_bytes : CameraTelemetry → ℕ → List ℕ
payload_bytes t now =
    le_bytes 2 telemetry_version
    ++ (le_bytes 2 (as_u16 (populated t.stages))
        ++ (le_bytes 4 t.window_sequence
            ++ (le_bytes 4 (elapsed_us t now)
                ++ (le_bytes 4 0 ++ stage_records stage_ids t.stages))))

-- The bytes come from the window as it stands; an expired window is reset behind them.
unfoldable pub payload : CameraTelemetry → ℕ → List ℕ × CameraTelemetry
unfolding payload_bytes
payload t now = (payload_bytes t now, if window_expired t now then reset t now else t)
