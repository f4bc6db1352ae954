-- ===== src/Capture/Coarse.antt =====
-- `capture_full_sensor_coarse_thumbnail` of camera-service/src/main.rs: its checks, its configuration, and
-- what it makes of a frame.
use podbay_camera_firmware.Prelude.{
  ℕ, ◌*◌, ◌/◌, ◌%◌, ◌==◌, Bool, true, false, not, ◌||◌, List, ltb, if◌then◌else◌, Result, ok, err,
  Error, ◌>>=◌, ◌>>◌, fail_if, thumbnail_geometry, resize_geometry, retune_failed, restore_failed,
  rollback_failed, capture_and_restore_failed,
}
use podbay_camera_firmware.Config.{
  Config, sensor_width, sensor_height, sensor_crop_config, full_sensor_scaled_config,
  validate_config,
}
use podbay_camera_firmware.Exposure.{ExposureTiming, timing_from_config, matching_coarse_exposure}
use podbay_camera_firmware.Raw10.{
  RawFrame, resample_raw10_bayer, downsample_raw10_gray, downsample_raw10_gray_strobe,
}
use podbay_camera_firmware.Capture.{CaptureFormat, gray16, raw10}

unfoldable pub is_not_full_band : Config → Bool
is_not_full_band fine =
    not (fine.sensor_binning == 1)
    || not fine.direct_full_raw
    || not (fine.initial_x == 0)
    || not (fine.tile_width == sensor_width)

-- The coarse configuration at the exposure that matches the fine one.
abbrev pub exposed : Config → ExposureTiming → Config → Config
exposed fine timing coarse = record coarse {
  frame_length = timing.frame_length;
  coarse = timing.coarse_lines;
  gain = fine.gain;
  sensor_fps = fine.sensor_fps;
}

unfoldable pub coarse_config : Bool → Config → Bool → Result Config
coarse_config null_opens fine sensor_scaled = do
  coarse ←
      (if sensor_scaled
        then full_sensor_scaled_config null_opens fine
        else sensor_crop_config null_opens fine 0 0 sensor_width sensor_height 4)
  let next = exposed fine (matching_coarse_exposure (timing_from_config fine)) coarse
  validate_config null_opens next
  ok next

abbrev pub maximum_output : CaptureFormat → Bool → Config → ℕ × ℕ
maximum_output raw10 scaled coarse = (coarse.tile_width, coarse.tile_height)
maximum_output gray16 true coarse = (coarse.tile_width, coarse.tile_height)
maximum_output gray16 false coarse = (coarse.tile_width / 2, coarse.tile_height / 2)

abbrev pub is_unpackable : CaptureFormat → ℕ → ℕ → Bool
is_unpackable raw10 width height = not (width % 4 == 0) || not (height % 2 == 0)
is_unpackable gray16 width height = false

unfoldable pub check_output : CaptureFormat → Bool → Config → ℕ → ℕ → Result (Unit {0})
check_output format scaled coarse width height =
    let (maximum_width, maximum_height) = maximum_output format scaled coarse in
    fail_if (width == 0 || height == 0 || ltb maximum_width width || ltb maximum_height height)
      thumbnail_geometry
    >> fail_if (is_unpackable format width height) resize_geometry

abbrev pub output_stride : CaptureFormat → ℕ → ℕ
output_stride gray16 width = width * 2
output_stride raw10 width = width / 4 * 5

-- The thumbnail out of a frame.
abbrev pub reduction : CaptureFormat → Bool → RawFrame → Config → ℕ → ℕ → Result (List ℕ)
reduction raw10 scaled frame coarse width height =
    resample_raw10_bayer frame coarse.tile_width coarse.tile_height width height
reduction gray16 true frame coarse width height =
    downsample_raw10_gray_strobe frame coarse.tile_width coarse.tile_height width height
reduction gray16 false frame coarse width height =
    downsample_raw10_gray frame coarse.tile_width coarse.tile_height width height

-- A payload, the time of its frame, and its stride.
pub record Thumbnail : Type 0 where
  pub payload : List ℕ
  pub thumbnail_timestamp : ℕ
  pub thumbnail_stride : ℕ

unfoldable pub reduced : CaptureFormat → Bool → Config → ℕ → ℕ → Result RawFrame → Result Thumbnail
reduced format scaled coarse width height captured = do
  frame ← captured
  payload ← reduction format scaled frame coarse width height
  ok (record {
    payload = payload;
    thumbnail_timestamp = frame.timestamp_ns;
    thumbnail_stride = output_stride format width;
  })

-- The last `match` of both captures.
abbrev pub with_restore : {A : Type 0} → Result A → Result (Unit {0}) → Result A
with_restore (ok a) (ok _) = ok a
with_restore (err e) (ok _) = err e
with_restore (ok a) (err f) = err (restore_failed f)
with_restore (err e) (err f) = err (capture_and_restore_failed e f)

-- What a failed retune ends with, by how the rollback ends.
abbrev pub rolled_back : Error → Result (Unit {0}) → Error
rolled_back e (ok _) = retune_failed e
rolled_back e (err f) = rollback_failed e f
