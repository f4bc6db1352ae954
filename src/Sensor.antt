-- ===== src/Sensor.antt =====
-- The IMX582 register tables of camera-service/src/main.rs. The fields of `Sensor` beside its open
-- file are the Geometry.
pub mod Driver
pub mod Registers
pub mod Attest
pub mod Live
pub mod Retune
pub mod Hold
mod Tests
use podbay_camera_firmware.Prelude.{
  ℕ, ◌+◌, ◌-◌, ◌*◌, ◌/◌, Bool, true, false, not, ◌&&◌, ◌||◌, List, [], ◌∷◌, ◌++◌, ltb, ◌==◌,
  if◌then◌else◌, as_u8, as_u16, as_u32, u32_max, clamp, Option, none, some, Result, Error, ok, err,
  fail_if, and_result, panic, attestation, mode_unsupported, live_geometry,
}
use podbay_camera_firmware.Device.{M, ◌>>=◌, ◌>>◌, pure, lift, continue, I2c}
use podbay_camera_firmware.Config.{
  Config, Geometry, sensor_width, sensor_height, physical_width, physical_height, validate_origin,
  one_or, fine_line_length, coarse_line_length, geometry_of,
}

-- `(value >> 8) as u8` and `value as u8`
abbrev pub high : ℕ → ℕ
high value = as_u8 (value / 256)

abbrev pub low : ℕ → ℕ
low value = as_u8 value

-- `start + size - 1` of u32, which wraps.
abbrev pub last : ℕ → ℕ → ℕ
last start size = as_u32 (start + size + u32_max)

-- `coarse.clamp(1, frame_length.saturating_sub(1))`, which panics on an empty range.
unfoldable pub clamp_coarse : ℕ → ℕ → Result ℕ
clamp_coarse frame_length coarse =
    if ltb (frame_length - 1) 1 then err panic else ok (clamp 1 (frame_length - 1) coarse)

-- A window and an output size, in the registers that hold them.
abbrev pub window_start : ℕ → ℕ → List (ℕ × ℕ) → List (ℕ × ℕ)
window_start x y rest =
    (0x0344, high x) ∷ (0x0345, low x) ∷ (0x0346, high y) ∷ (0x0347, low y) ∷ rest

abbrev pub window_end : ℕ → ℕ → List (ℕ × ℕ) → List (ℕ × ℕ)
window_end x1 y1 rest =
    (0x0348, high x1) ∷ (0x0349, low x1) ∷ (0x034a, high y1) ∷ (0x034b, low y1) ∷ rest

abbrev pub output_size : ℕ → ℕ → List (ℕ × ℕ) → List (ℕ × ℕ)
output_size w h rest =
    (0x034c, high w) ∷ (0x034d, low w) ∷ (0x034e, high h) ∷ (0x034f, low h) ∷ rest

abbrev pub scaler_window : ℕ → ℕ → List (ℕ × ℕ) → List (ℕ × ℕ)
scaler_window w h rest =
    (0x0408, 0x00)
    ∷ (0x0409, 0x00)
    ∷ (0x040a, 0x00)
    ∷ (0x040b, 0x00)
    ∷ (0x040c, high w)
    ∷ (0x040d, low w)
    ∷ (0x040e, high h)
    ∷ (0x040f, low h)
    ∷ rest

abbrev pub no_subsampling : List (ℕ × ℕ) → List (ℕ × ℕ)
no_subsampling rest = (0x0381, 0x01) ∷ (0x0383, 0x01) ∷ (0x0385, 0x01) ∷ (0x0387, 0x01) ∷ rest

-- `expected` of `verify_full_raw_mode`
unfoldable pub full_raw_expected : Geometry → ℕ → ℕ → List (ℕ × ℕ)
full_raw_expected g x y =
    (0x0100, 0x01)
    ∷ (0x0112, 0x0a)
    ∷ (0x0113, 0x0a)
    ∷ window_start x y (
        window_end (last x g.width) (last y g.height) (
          output_size g.width g.height (
            no_subsampling (
              (0x0401, 0x00)
              ∷ scaler_window g.width g.height (
                  (0x0900, 0x00)
                  ∷ (0x0901, 0x11)
                  ∷ (0x0902, 0x0a)
                  ∷ (0x3246, 0x01)
                  ∷ (0x3247, 0x01)
                  ∷ [])))))

-- `expected` of `verify_scaled_global_mode`
unfoldable pub scaled_global_expected : List (ℕ × ℕ)
scaled_global_expected =
    (0x0100, 0x01)
    ∷ (0x0112, 0x0a)
    ∷ (0x0113, 0x0a)
    ∷ (0x0344, 0x00)
    ∷ (0x0345, 0x00)
    ∷ (0x0346, 0x00)
    ∷ (0x0347, 0x00)
    ∷ (0x0348, 0x1f)
    ∷ (0x0349, 0x3f)
    ∷ (0x034a, 0x17)
    ∷ (0x034b, 0x6f)
    ∷ (0x034c, 0x03)
    ∷ (0x034d, 0xe8)
    ∷ (0x034e, 0x02)
    ∷ (0x034f, 0xee)
    ∷ (0x0401, 0x02)
    ∷ (0x0404, 0x00)
    ∷ (0x0405, 0x20)
    ∷ (0x0408, 0x00)
    ∷ (0x0409, 0x00)
    ∷ (0x040a, 0x00)
    ∷ (0x040b, 0x00)
    ∷ (0x040c, 0x07)
    ∷ (0x040d, 0xd0)
    ∷ (0x040e, 0x05)
    ∷ (0x040f, 0xdc)
    ∷ (0x0900, 0x01)
    ∷ (0x0901, 0x44)
    ∷ (0x0902, 0x08)
    ∷ []

-- `registers` of `apply_full_raw_mode`
unfoldable pub full_raw_registers : Geometry → ℕ → ℕ → List (ℕ × ℕ)
full_raw_registers g x y =
    (0x0100, 0x00)
    ∷ (0x0112, 0x0a)
    ∷ (0x0113, 0x0a)
    ∷ (0x0303, 0x04)
    ∷ (0x0306, 0x01)
    ∷ (0x0307, 0x68)
    ∷ (0x030d, 0x06)
    ∷ (0x030e, 0x02)
    ∷ (0x030f, 0x71)
    ∷ (0x0340, 0x17)
    ∷ (0x0341, 0xac)
    ∷ (0x0342, 0x39)
    ∷ (0x0343, 0x70)
    ∷ (0x0900, 0x00)
    ∷ (0x0901, 0x11)
    ∷ (0x0902, 0x0a)
    ∷ (0x3246, 0x01)
    ∷ (0x3247, 0x01)
    ∷ (0x3620, 0x00)
    ∷ (0x3c13, 0x2a)
    ∷ (0x3f0c, 0x00)
    ∷ (0x3f14, 0x01)
    ∷ (0x3f80, 0x02)
    ∷ (0x3f81, 0x00)
    ∷ (0x3f8c, 0x01)
    ∷ (0x3f8d, 0x00)
    ∷ window_start x y (
        window_end (last x g.width) (last y g.height) (
          output_size g.width g.height (
            no_subsampling
              ((0x0401, 0x00) ∷ scaler_window g.width g.height ((0x0100, 0x01) ∷ [])))))

-- `registers` of `apply_binned_raw_mode`
unfoldable pub binned_raw_registers : Geometry → ℕ → ℕ → List (ℕ × ℕ)
binned_raw_registers g x y =
    (0x0100, 0x00)
    ∷ (0x0112, 0x0a)
    ∷ (0x0113, 0x0a)
    ∷ (0x0114, 0x03)
    ∷ window_start x y (
        window_end (last x (physical_width g)) (last y (physical_height g)) (
          (0x0900, 0x01)
          ∷ (0x0901, 0x44)
          ∷ (0x0902, 0x08)
          ∷ (0x3246, 0x89)
          ∷ (0x3247, 0x89)
          ∷ scaler_window g.width g.height (output_size g.width g.height ((0x0100, 0x01) ∷ []))))

-- The registers that `set_origin_live` writes.
unfoldable pub origin_registers : Geometry → ℕ → ℕ → List (ℕ × ℕ)
origin_registers g x y =
    window_start x y (window_end (last x (physical_width g)) (last y (physical_height g)) [])

-- The registers that `prepare_geometry_live` writes, for a coarse exposure already clamped and a
-- physical size already computed.
unfoldable pub geometry_registers : Config → ℕ → ℕ → ℕ → List (ℕ × ℕ)
geometry_registers c coarse width height =
    let fine = c.sensor_binning == 1 in
    let line_length = if fine then fine_line_length else coarse_line_length in
    let scale_m = as_u16 (as_u32 (c.sensor_scale * 16)) in
    (0x0112, 0x0a)
    ∷ (0x0113, 0x0a)
    ∷ (0x0114, 0x03)
    ∷ (0x0340, high c.frame_length)
    ∷ (0x0341, low c.frame_length)
    ∷ (0x0342, high line_length)
    ∷ (0x0343, low line_length)
    ∷ (0x0202, high coarse)
    ∷ (0x0203, low coarse)
    ∷ (0x0204, high c.gain)
    ∷ (0x0205, low c.gain)
    ∷ window_start c.initial_x c.initial_y (
        window_end (last c.initial_x width) (last c.initial_y height) (
          output_size c.tile_width c.tile_height (
            (0x0401, if c.sensor_scale == 1 then 0x00 else 0x02)
            ∷ (0x0404, high scale_m)
            ∷ (0x0405, low scale_m)
            ∷ scaler_window (as_u32 (c.tile_width * c.sensor_scale))
                (as_u32 (c.tile_height * c.sensor_scale))
                ((0x0900, if fine then 0x00 else 0x01)
                  ∷ (0x0901, if fine then 0x11 else 0x44)
                  ∷ (0x0902, if fine then 0x0a else 0x08)
                  ∷ (0x3246, if fine then 0x01 else 0x89)
                  ∷ (0x3247, if fine then 0x01 else 0x89)
                  ∷ (0x38a8, if fine then 0x01 else 0x00)
                  ∷ (0x38a9, if fine then 0xe0 else 0xf0)
                  ∷ (0x38aa, if fine then 0x01 else 0x00)
                  ∷ (0x38ab, if fine then 0x68 else 0xb4)
                  ∷ (0x3c13, if fine then 0x2a else 0x00)
                  ∷ (0x3f14, if fine then 0x01 else 0x00)
                  ∷ (0x3f80, if fine then 0x02 else 0x00)
                  ∷ (0x3f8c, if fine then 0x01 else 0x00)
                  ∷ (0x3ff5, if fine then 0x00 else 0x4c)
                  ∷ (0x3ffc, if fine then 0x04 else 0x00)
                  ∷ (0x3ffd, if fine then 0xb0 else 0x00)
                  ∷ []))))
