-- ===== src/Telemetry/Tests.antt =====
-- Short recordings, and the theorems on them.
use podbay_camera_firmware.Prelude.{
  ℕ, ◌+◌, ◌*◌, ◌≤◌, ◌^◌, ◌%◌, ◌≡◌, refl, List, [], ◌∷◌, length, arith,
}
use podbay_camera_firmware.Bytes.{read_u32}
use podbay_camera_firmware.Telemetry.Histogram.{
  percentile, record_us, position, bucket_index, percentile_loop, percentile_target,
}
use podbay_camera_firmware.Telemetry.Summary.{recorded, count_le}
use podbay_camera_firmware.Telemetry.Percentile.{percentile_covers}
use podbay_camera_firmware.Telemetry.Window.{new, payload}
use podbay_camera_firmware.Telemetry.Payload.{IsWindow, payload_then_reset}

-- The samples of a test of the source, newest first.
abbrev samples : List ℕ
samples = 1000 ∷ 500 ∷ 10 ∷ 50_000 ∷ 20 ∷ []

median : percentile (recorded samples) 1 2 ≡ 512
unfolding percentile percentile_loop percentile_target record_us bucket_index position
median = refl

percentile_covers_example :
    length samples * 1 ≤ 2 * count_le (percentile (recorded samples) 1 2) samples
percentile_covers_example =
    percentile_covers samples 1 2 (omega arith) (omega arith) (omega arith) (omega arith)
      (omega arith) (omega arith)

new-IsWindow : IsWindow (new 5)
unfolding new
new-IsWindow = omega arith

payload_then_reset_example :
    (read_u32 (payload (new 5) 2_000_000_000).0 4 ≡ (new 5).window_sequence)
    × (length (payload (payload (new 5) 2_000_000_000).1 2_000_000_000).0 ≡ 16)
    × (read_u32 (payload (payload (new 5) 2_000_000_000).1 2_000_000_000).0 4
        ≡ ((new 5).window_sequence + 1) % 2 ^ 32)
unfolding new
payload_then_reset_example =
    payload_then_reset (new 5) 2_000_000_000 new-IsWindow (omega arith) (omega arith)
