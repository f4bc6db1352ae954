-- ===== src/Exposure/Tests.antt =====
-- Timings, and the theorems on them.
use podbay_camera_firmware.Prelude.{◌+◌, ◌*◌, ◌≤◌, arith}
use podbay_camera_firmware.Config.{coarse_line_length}
use podbay_camera_firmware.Exposure.{ExposureTiming, integration_clocks, matching_coarse_exposure}
use podbay_camera_firmware.Exposure.Timing.{matching_coarse_exposure-integrates}

abbrev fine : ExposureTiming
fine = record { frame_length = 700; coarse_lines = 650 }

matching_coarse_exposure-integrates_example :
    let coarse = matching_coarse_exposure fine in
    (2 * integration_clocks fine
      ≤ 2 * (coarse.coarse_lines * coarse_line_length) + coarse_line_length)
    × (2 * (coarse.coarse_lines * coarse_line_length)
        ≤ 2 * integration_clocks fine + coarse_line_length)
matching_coarse_exposure-integrates_example = matching_coarse_exposure-integrates fine (omega arith)

abbrev slow : ExposureTiming
slow = record { frame_length = 20000; coarse_lines = 19950 }
