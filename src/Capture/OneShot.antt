-- ===== src/Capture/OneShot.antt =====
-- `capture_full_sensor_coarse_thumbnail` of camera-service/src/main.rs: the switch to the coarse readout,
-- its frame, and the way back to the fine one.
use podbay_camera_firmware.Prelude.{
  ℕ, Bool, if◌then◌else◌, Result, ok, err, Error, fail_if, coarse_band,
}
use podbay_camera_firmware.Device.{M, ◌>>=◌, ◌>>◌, lift, pure, I2c}
use podbay_camera_firmware.Config.{Config}
use podbay_camera_firmware.Sensor.Driver.{verify_full_raw_mode, verify_scaled_global_mode}
use podbay_camera_firmware.Raw10.{RawFrame}
use podbay_camera_firmware.Graph.{Mi}
use podbay_camera_firmware.Graph.Pipeline.{
  World, on_bus, open_sensor_only, reconfigure_geometry_live, rearm_vif_output_live,
}
use podbay_camera_firmware.Graph.Frames.{acquire_frame_with_timeout}
use podbay_camera_firmware.Graph.Apply.{apply_sensor_config, or_else}
use podbay_camera_firmware.Capture.{CaptureFormat, coarse_frame_wait, outcome}
use podbay_camera_firmware.Capture.Coarse.{
  Thumbnail, is_not_full_band, coarse_config, check_output, reduced, with_restore, rolled_back,
}

module _ (sdk : Mi) (bus : I2c) where
  unfoldable pub verify_scaled : M (World sdk bus) (Unit {0})
  verify_scaled = do
    sensor ← open_sensor_only sdk bus
    on_bus sdk bus (verify_scaled_global_mode bus sensor)

  unfoldable pub coarse_switch : Bool → Config → M (World sdk bus) (Unit {0})
  coarse_switch sensor_scaled coarse = do
    reconfigure_geometry_live sdk bus coarse
    (if sensor_scaled then verify_scaled else pure tt)
    rearm_vif_output_live sdk bus

  -- The output port is armed again once where no frame comes.
  unfoldable pub capture_frame : M (World sdk bus) RawFrame
  capture_frame w =
      or_else
        (rearm_vif_output_live sdk bus >> acquire_frame_with_timeout sdk bus coarse_frame_wait)
        (acquire_frame_with_timeout sdk bus coarse_frame_wait w)

  unfoldable pub resident_restore : Config → M (World sdk bus) (Unit {0})
  resident_restore fine = do
    reconfigure_geometry_live sdk bus fine
    sensor ← open_sensor_only sdk bus
    on_bus sdk bus (verify_full_raw_mode bus sensor fine.initial_x fine.initial_y)

  module _ (open_sensor : M bus.State (Unit {0})) where
    unfoldable pub restore_fine : Config → M (World sdk bus) (Unit {0})
    restore_fine fine w =
        or_else (apply_sensor_config sdk bus open_sensor fine) (resident_restore fine w)

    unfoldable pub roll_back : {A : Type 0} → Config → Error → M (World sdk bus) A
    roll_back fine e = do
      restored ← outcome (apply_sensor_config sdk bus open_sensor fine)
      lift (err (rolled_back e restored))

    -- From the frame on. Whether one came or not, the fine readout is restored.
    unfoldable pub capture_and_restore :
        CaptureFormat → Bool → Config → Config → ℕ → ℕ → M (World sdk bus) Thumbnail
    capture_and_restore format scaled fine coarse width height = do
      frame ← outcome capture_frame
      restored ← outcome (restore_fine fine)
      lift (with_restore (reduced format scaled coarse width height frame) restored)

    -- By how the switch ends.
    unfoldable pub after_switch :
        CaptureFormat
        → Bool
        → Config
        → Config
        → ℕ
        → ℕ
        → Result (Unit {0})
        → M (World sdk bus) Thumbnail
    after_switch format scaled fine coarse width height (ok _) =
        capture_and_restore format scaled fine coarse width height
    after_switch format scaled fine coarse width height (err e) = roll_back fine e

    unfoldable pub switch_and_capture :
        CaptureFormat → Bool → Config → Config → ℕ → ℕ → M (World sdk bus) Thumbnail
    switch_and_capture format scaled fine coarse width height = do
      switched ← outcome (coarse_switch scaled coarse)
      after_switch format scaled fine coarse width height switched

    unfoldable pub capture_full_sensor_coarse_thumbnail :
        Bool → Config → ℕ → ℕ → Bool → CaptureFormat → M (World sdk bus) Thumbnail
    capture_full_sensor_coarse_thumbnail null_opens fine width height scaled format = do
      lift (fail_if (is_not_full_band fine) coarse_band)
      coarse ← lift (coarse_config null_opens fine scaled)
      lift (check_output format scaled coarse width height)
      switch_and_capture format scaled fine coarse width height
