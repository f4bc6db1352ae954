-- ===== src/Exposure/Timing.antt =====
-- The shared word loses nothing, and the coarse exposure integrates as long as the fine one.
use podbay_camera_firmware.Prelude.{ℕ, ◌+◌, ◌-◌, ◌*◌, ◌^◌, ◌≤◌, ◌<◌, ◌≡◌, u16_max, arith}
use podbay_camera_firmware.Config.{coarse_line_length, coarse_frame_length}
use podbay_camera_firmware.Exposure.{
  ExposureTiming, exposure_margin, pack, unpack, integration_clocks, matching_coarse_exposure,
}

pub record IsTiming (t : ExposureTiming) : Type 0 where
  pub frame_fits : t.frame_length ≤ u16_max
  pub lines_fit : t.coarse_lines ≤ u16_max

-- A timing of two u16 packs into a u32 and comes back from it unchanged, and every u32 is the word
-- of what it unpacks to.
pub pack-unpack :
    (t : ExposureTiming) (word : ℕ)
    → IsTiming t
    → word < 2 ^ 32
    → (pack t < 2 ^ 32) × (unpack (pack t) ≡ t) × (pack (unpack word) ≡ word)
unfolding pack unpack
pack-unpack t word h w = ground arith

-- The coarse exposure is a u16 timing of at least one line, it leaves the margin before the end of
-- the frame, and the frame is never shorter than the stock one.
pub matching_coarse_exposure-fits :
    (fine : ExposureTiming)
    → let coarse = matching_coarse_exposure fine in
      IsTiming coarse
      × (1 ≤ coarse.coarse_lines)
      × (coarse.coarse_lines + exposure_margin ≤ coarse.frame_length)
      × (coarse_frame_length ≤ coarse.frame_length)
unfolding matching_coarse_exposure
matching_coarse_exposure-fits fine = ground arith

-- While the fine exposure has at most 12968 lines, the coarse one integrates over the same number of
-- pixel clocks, to within half a coarse line.
pub matching_coarse_exposure-integrates :
    (fine : ExposureTiming)
    → fine.coarse_lines ≤ 12968
    → let coarse = matching_coarse_exposure fine in
      (2 * integration_clocks fine
        ≤ 2 * (coarse.coarse_lines * coarse_line_length) + coarse_line_length)
      × (2 * (coarse.coarse_lines * coarse_line_length)
          ≤ 2 * integration_clocks fine + coarse_line_length)
unfolding matching_coarse_exposure
matching_coarse_exposure-integrates fine h = omega arith

-- From 12969 fine lines on, the coarse exposure stays at the longest that leaves its margin.
pub matching_coarse_exposure-saturates :
    (fine : ExposureTiming)
    → 12969 ≤ fine.coarse_lines
    → (matching_coarse_exposure fine).coarse_lines ≡ u16_max - exposure_margin
unfolding matching_coarse_exposure
matching_coarse_exposure-saturates fine h = omega arith
