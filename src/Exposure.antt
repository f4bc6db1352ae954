-- ===== src/Exposure.antt =====
-- ExposureTiming of camera-service/src/main.rs: the word that the threads share, and the exposure of
-- the coarse readout that matches the fine one.
pub mod Timing
mod Tests
use podbay_camera_firmware.Prelude.{
  ℕ, ◌+◌, ◌-◌, ◌*◌, ◌/◌, max, ◌^◌, u16_max, as_u16, sat_add, clamp,
}
use podbay_camera_firmware.Config.{
  Config, fine_line_length, coarse_line_length, coarse_frame_length,
}

-- COARSE_EXPOSURE_MARGIN_LINES
abbrev pub exposure_margin : ℕ
exposure_margin = 50

pub record ExposureTiming : Type 0 where
  pub frame_length : ℕ  -- u16
  pub coarse_lines : ℕ  -- u16

unfoldable pub timing_from_config : Config → ExposureTiming
timing_from_config c = record { frame_length = c.frame_length; coarse_lines = c.coarse }

-- The two halves are u16 and share no bit, so `|` is a sum.
unfoldable pub pack : ExposureTiming → ℕ
pack t = t.frame_length * 2 ^ 16 + t.coarse_lines

unfoldable pub unpack : ℕ → ExposureTiming
unpack word = record { frame_length = as_u16 (word / 2 ^ 16); coarse_lines = as_u16 word }

-- `integration_clocks`, an u64.
unfoldable pub integration_clocks : ExposureTiming → ℕ
integration_clocks fine = max fine.coarse_lines 1 * fine_line_length

unfoldable pub matching_coarse_exposure : ExposureTiming → ExposureTiming
unfolding integration_clocks
matching_coarse_exposure fine =
    let rounded_lines = (integration_clocks fine + coarse_line_length / 2) / coarse_line_length in
    let maximum_exposure = u16_max - exposure_margin in
    let lines = as_u16 (clamp 1 maximum_exposure rounded_lines) in
    record {
      frame_length = max coarse_frame_length (sat_add u16_max lines exposure_margin);
      coarse_lines = lines;
    }
