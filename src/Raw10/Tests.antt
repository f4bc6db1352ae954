-- ===== src/Raw10/Tests.antt =====
-- Small frames, and the theorems on them.
use podbay_camera_firmware.Prelude.{
  ℕ, ◌+◌, ◌*◌, ◌/◌, ◌<◌, ◌≡◌, List, ◌∷◌, length, replicate, arith, ok,
}
use podbay_camera_firmware.Raw10.{
  RawFrame, packed_raw10_pixel, packed_raw10_pixel_bytes, crop_raw10_bytes, tracking_coordinate,
  resample_coordinate, downsample_raw10_tracking_context_bytes, resample_raw10_bayer,
}
use podbay_camera_firmware.Raw10.Crop.{crop_raw10_bytes-pixels}
use podbay_camera_firmware.Raw10.Resample.{resample_raw10_bayer-pixels}
use podbay_camera_firmware.Raw10.Cells.{Samples}
use podbay_camera_firmware.Raw10.Tracking.{downsample_tracking-Samples}

-- Four rows of eight pixels.
abbrev tile : List ℕ
tile =
    1
    ∷ 2
    ∷ 3
    ∷ 4
    ∷ 5
    ∷ 6
    ∷ 7
    ∷ 8
    ∷ 9
    ∷ 10
    ∷ 11
    ∷ 12
    ∷ 13
    ∷ 14
    ∷ 15
    ∷ 16
    ∷ 17
    ∷ 18
    ∷ 19
    ∷ 20
    ∷ replicate 20 200

abbrev frame : RawFrame
frame = record { bytes = tile; stride = 10; timestamp_ns = 0 }

crop_raw10_bytes-pixels_example :
    (output : List ℕ) × (crop_raw10_bytes tile 10 4 1 4 2 ≡ ok output)
    × (length output ≡ 2 * (4 / 4 * 5))
    × ((i j : ℕ)
        → i < 4
        → j < 2
        → packed_raw10_pixel_bytes output (4 / 4 * 5) i j
          ≡ packed_raw10_pixel_bytes tile 10 (4 + i) (1 + j))
crop_raw10_bytes-pixels_example = crop_raw10_bytes-pixels tile 10 4 1 4 2 (omega arith)

resample_raw10_bayer-pixels_example :
    (output : List ℕ) × ((resample_raw10_bayer frame 8 4 4 2 ≡ ok output)
      × (length output ≡ 2 * (4 / 4 * 5))
      × ((i j : ℕ)
          → i < 4
          → j < 2
          → packed_raw10_pixel_bytes output (4 / 4 * 5) i j
            ≡ packed_raw10_pixel frame (resample_coordinate 8 4 i) (resample_coordinate 4 2 j)))
resample_raw10_bayer-pixels_example =
    resample_raw10_bayer-pixels frame 8 4 4 2 (omega arith) (omega arith) (omega arith)

downsample_tracking-Samples_example :
    (output : List ℕ) × Samples tile 10
      (tracking_coordinate (8 / 4))
      (tracking_coordinate (4 / 2))
      4
      2
      (downsample_raw10_tracking_context_bytes tile 10 8 4 4 2)
      output
downsample_tracking-Samples_example =
    downsample_tracking-Samples tile 10 8 4 4 2 (omega arith) (omega arith)
