-- ===== src/Capture/Scan.antt =====
-- `capture_full_sensor_scan_thumbnail` of camera-service/src/main.rs: the frames of the bands, and the
-- way back to the origin and the exposure before.
use podbay_camera_firmware.Prelude.{ℕ, ◌/◌, List, [], ◌∷◌, length, Result, ok, err}
use podbay_camera_firmware.Device.{M, ◌>>=◌, ◌>>◌, lift, pure, I2c}
use podbay_camera_firmware.Config.{Config, sensor_width, sensor_height}
use podbay_camera_firmware.Sensor.Driver.{set_exposure, set_origin_live, verify_full_raw_mode}
use podbay_camera_firmware.Graph.{Mi, Graph}
use podbay_camera_firmware.Graph.Pipeline.{World, assign, on_bus, open_sensor_only}
use podbay_camera_firmware.Graph.Frames.{
  with_graph, discard_queued_frames, discard_next_frames, capture_tile,
}
use podbay_camera_firmware.Capture.{scan_gain, scan_origin_settle_frames, outcome}
use podbay_camera_firmware.Capture.Coarse.{with_restore}
use podbay_camera_firmware.Capture.Bands.{
  ScanRow, check_scan, scan_origins, with_ends, fill_rows, blank_rows, finish_scan,
  scan_frame_length, scan_exposure,
}

-- The payload, the time of the last frame, and the number of bands.
pub record ScanThumbnail : Type 0 where
  pub scan_payload : List ℕ
  pub scan_timestamp : ℕ
  pub bands : ℕ

module _ (sdk : Mi) (bus : I2c) where
  unfoldable pub scan_bands :
      ℕ → ℕ → ℕ → List (ℕ × ℕ) → List ScanRow → ℕ → M (World sdk bus) (List ScanRow × ℕ)
  scan_bands output_width scale_x scale_y [] rows timestamp = pure (rows, timestamp)
  scan_bands output_width scale_x scale_y ((origin, unique_end) ∷ rest) rows timestamp = do
    frame ← capture_tile sdk bus 0 origin scan_origin_settle_frames
    filled ← lift (fill_rows frame output_width scale_x scale_y origin unique_end 0 rows)
    scan_bands output_width scale_x scale_y rest filled frame.timestamp_ns

  -- The closure whose result is `scan_result`.
  unfoldable pub scan_all : ℕ → ℕ → List ℕ → M (World sdk bus) (List ℕ × ℕ)
  scan_all width height origins = do
    scanned ←
        scan_bands width (sensor_width / width) (sensor_height / height) (with_ends origins)
          (blank_rows height) 0
    payload ← lift (finish_scan 0 scanned.0)
    pure (payload, scanned.1)

  unfoldable pub restore_registers : Config → ℕ → ℕ → M (World sdk bus) (Unit {0})
  restore_registers c x y = do
    sensor ← open_sensor_only sdk bus
    on_bus sdk bus (set_origin_live bus sensor x y)
    _ ← open_sensor_only sdk bus
    on_bus sdk bus (set_exposure bus c.frame_length c.coarse c.gain)

  -- What follows the registers, where they could be restored.
  unfoldable pub after_restore : Result (Unit {0}) → ℕ → ℕ → M (World sdk bus) (Unit {0})
  after_restore registers x y = do
    lift registers
    _ ← discard_queued_frames sdk bus 2 0
    discard_next_frames sdk bus scan_origin_settle_frames
    sensor ← open_sensor_only sdk bus
    on_bus sdk bus (verify_full_raw_mode bus sensor x y)

  -- The origin is stored whether the registers could be restored or not.
  unfoldable pub restore_scan : Config → ℕ → ℕ → M (World sdk bus) (Unit {0})
  restore_scan c x y = do
    registers ← outcome (restore_registers c x y)
    assign sdk bus (λ g. record g { origin_x = x; origin_y = y })
    after_restore registers x y

  abbrev pub thumbnail_of : ℕ → Result (List ℕ × ℕ) → Result ScanThumbnail
  thumbnail_of bands (ok (payload, timestamp)) =
      ok (record { scan_payload = payload; scan_timestamp = timestamp; bands = bands })
  thumbnail_of bands (err e) = err e

  unfoldable pub scan_and_restore :
      Config → Graph → ℕ → ℕ → List ℕ → M (World sdk bus) ScanThumbnail
  scan_and_restore c g width height origins = do
    scanned ← outcome (scan_all width height origins)
    restored ← outcome (restore_scan c g.origin_x g.origin_y)
    lift (with_restore (thumbnail_of (length origins) scanned) restored)

  unfoldable pub capture_full_sensor_scan_thumbnail :
      Config → ℕ → ℕ → M (World sdk bus) ScanThumbnail
  capture_full_sensor_scan_thumbnail c width height = with_graph sdk bus λ g. do
    lift (check_scan c g width height)
    _ ← open_sensor_only sdk bus
    on_bus sdk bus (
        set_exposure bus (scan_frame_length g.graph_height) (scan_exposure g.graph_height)
          scan_gain)
    scan_and_restore c g width height (scan_origins g.graph_height)
