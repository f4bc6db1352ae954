-- ===== src/Config/Crops.antt =====
-- The configurations that the service derives: a physical crop, the scaled full field and the stock
-- acquisition mode.
use podbay_camera_firmware.Prelude.{
  ℕ, ◌+◌, ◌*◌, ◌/◌, ◌%◌, ◌≤◌, ◌<◌, ◌≡◌, ◌⊎◌, refl, Bool, true, false, arith, ok, inl, inr, not, max,
}
use podbay_camera_firmware.Config.{
  Config, validate_config, sensor_width, sensor_height, SensorMode, mode_from_config,
  sensor_crop_config, crop_config, full_sensor_scaled_config, scaled_acquisition_config,
  is_bad_crop, one_or, preview_sensor_x, preview_sensor_y, preview_width, preview_height,
  validate_origin, is_misaligned, is_outside, is_bad_tile, is_bad_scale, physical_width,
  physical_height,
}
use podbay_camera_firmware.Config.Valid.{IsValid, validate_config_sound, validate_config_complete}

-- A physical crop that the sensor can read out: aligned to the binning and to the RAW10 output, and
-- on the sensor.
pub record IsCrop (x y width height binning : ℕ) : Type 0 where
  pub readout : (binning ≡ 1) ⊎ (binning ≡ 4)
  pub wide : 0 < width
  pub tall : 0 < height
  pub groups : width % (4 * binning) ≡ 0
  pub rows : height % (2 * binning) ≡ 0
  pub x_aligned : x % 4 ≡ 0
  pub y_aligned : y % (max 2 binning) ≡ 0
  pub right : x + width ≤ sensor_width
  pub bottom : y + height ≤ sensor_height

crop_config-IsValid :
    (base : Config) (x y width height binning : ℕ)
    → IsCrop x y width height binning
    → IsValid (crop_config base x y width height binning)
unfolding crop_config
crop_config-IsValid base x y width height binning c = elim c.readout [
  | inl b ↦ ground arith
  | inr b ↦ ground arith
]

crop_tests :
    (x y width height binning : ℕ)
    → IsCrop x y width height binning
    → (not (one_or 4 binning) ≡ false) × (is_bad_crop x y width height binning ≡ false)
unfolding is_bad_crop
crop_tests x y width height binning c = elim c.readout [
  | inl b ↦ rw b (ground arith)
  | inr b ↦ rw b (ground arith)
]

-- A crop that the sensor can read out is configured, if /dev/null can be opened.
pub sensor_crop_config_complete :
    (base : Config) (x y width height binning : ℕ)
    → IsCrop x y width height binning
    → sensor_crop_config true base x y width height binning
      ≡ ok (crop_config base x y width height binning)
unfolding sensor_crop_config
sensor_crop_config_complete base x y width height binning c =
    let (t, u) = crop_tests x y width height binning c in
    let v = validate_config_complete _ (crop_config-IsValid base x y width height binning c) in
    rw (t, u, v)

-- What a successful crop configuration has passed.
pub record Cropped (base : Config) (x y width height binning : ℕ) (next : Config) : Type 0 where
  pub is_crop : next ≡ crop_config base x y width height binning
  pub readout_ok : not (one_or 4 binning) ≡ false
  pub aligned : is_bad_crop x y width height binning ≡ false
  pub valid : IsValid next

pub sensor_crop_config-Cropped :
    (null_opens : Bool) (base : Config) (x y width height binning : ℕ) {next : Config}
    → sensor_crop_config null_opens base x y width height binning ≡ ok next
    → Cropped base x y width height binning next
unfolding sensor_crop_config
sensor_crop_config-Cropped n base x y width height binning {next} h =
    let c = crop_config base x y width height binning in
    let e : next ≡ c = ground arith in
    let v : validate_config n c ≡ ok tt = ground arith in
    record {
      is_crop = e;
      readout_ok = ground arith;
      aligned = ground arith;
      valid = rw e (validate_config_sound n c v);
    }

-- The mode that the service reports for a configuration that was cropped.
abbrev pub crop_sensor_mode : ℕ → ℕ → ℕ → ℕ → ℕ → SensorMode
crop_sensor_mode x y width height binning = record {
  sensor_x = x;
  sensor_y = y;
  mode_width = width;
  mode_height = height;
  mode_binning = binning;
  output_width = width / binning;
  output_height = height / binning;
}

IsCrop-one :
    (base : Config) (x y width height : ℕ) {next : Config}
    → Cropped base x y width height 1 next
    → IsCrop x y width height 1 × (mode_from_config next ≡ crop_sensor_mode x y width height 1)
unfolding crop_config is_bad_crop mode_from_config
IsCrop-one base x y width height c = ground arith

IsCrop-four :
    (base : Config) (x y width height : ℕ) {next : Config}
    → Cropped base x y width height 4 next
    → IsCrop x y width height 4 × (mode_from_config next ≡ crop_sensor_mode x y width height 4)
unfolding crop_config is_bad_crop mode_from_config
IsCrop-four base x y width height c = ground arith

-- A successful crop configuration is valid, was asked for a crop that the sensor can read out, and
-- reads out exactly the physical rectangle that was asked for, with the output divided by the
-- binning.
pub sensor_crop_config_sound :
    (null_opens : Bool) (base : Config) (x y width height binning : ℕ) {next : Config}
    → sensor_crop_config null_opens base x y width height binning ≡ ok next
    → IsValid next
      × IsCrop x y width height binning
      × (mode_from_config next ≡ crop_sensor_mode x y width height binning)
sensor_crop_config_sound n base x y width height binning {next} h =
    let c = sensor_crop_config-Cropped n base x y width height binning h in
    let (is_crop, mode) = crop_cases binning c (one_or_four c.readout_ok) in
    (c.valid, is_crop, mode)
  where
    one_or_four : not (one_or 4 binning) ≡ false → (binning ≡ 1) ⊎ (binning ≡ 4)
    one_or_four p = ground arith

    crop_cases :
        (b : ℕ)
        → Cropped base x y width height b next
        → (b ≡ 1) ⊎ (b ≡ 4)
        → IsCrop x y width height b × (mode_from_config next ≡ crop_sensor_mode x y width height b)
    crop_cases b c (inl e) = rw e (IsCrop-one base x y width height (rw e at c))
    crop_cases b c (inr e) = rw e (IsCrop-four base x y width height (rw e at c))

abbrev acquisition : Config → Config
acquisition base = record base {
  initial_x = preview_sensor_x;
  initial_y = preview_sensor_y;
  tile_width = preview_width;
  tile_height = preview_height;
  sensor_binning = 4;
  sensor_scale = 1;
  sensor_resolution = 1;
  sensor_fps = 60;
  direct_full_raw = true;
}

-- Whatever the base, the scaled full field is configured, if /dev/null can be opened: it is valid and
-- reads the whole 8000 by 6000 array into 1000 by 750.
pub full_sensor_scaled_config_covers :
    (base : Config)
    → (next : Config) × (full_sensor_scaled_config true base ≡ ok next)
      × IsValid next
      × (mode_from_config next ≡ record {
        sensor_x = 0;
        sensor_y = 0;
        mode_width = sensor_width;
        mode_height = sensor_height;
        mode_binning = 8;
        output_width = 1000;
        output_height = 750;
      })
unfolding full_sensor_scaled_config sensor_crop_config crop_config is_bad_crop validate_config
    validate_origin is_misaligned is_outside is_bad_tile is_bad_scale physical_width physical_height
full_sensor_scaled_config_covers base =
    let full = crop_config base 0 0 sensor_width sensor_height 4 in
    let next : Config = record full { tile_width = 1000; tile_height = 750; sensor_scale = 2 } in
    (next, refl, unfold crop_config in omega arith, unfold crop_config mode_from_config in refl)

-- With a frame length of at least 16, and if /dev/null can be opened, the stock acquisition mode is
-- configured: it is valid and reads the preview window, 7680 by 4320 at 160, 840, into 1920 by 1080.
pub scaled_acquisition_config_covers :
    (base : Config)
    → 16 ≤ base.frame_length
    → (next : Config) × (scaled_acquisition_config true base ≡ ok next)
      × IsValid next
      × (mode_from_config next ≡ record {
        sensor_x = 160;
        sensor_y = 840;
        mode_width = 7680;
        mode_height = 4320;
        mode_binning = 4;
        output_width = 1920;
        output_height = 1080;
      })
unfolding scaled_acquisition_config
scaled_acquisition_config_covers base h =
    let valid : IsValid (acquisition base) = omega arith in
    (
      acquisition base,
      rw (validate_config_complete (acquisition base) valid),
      valid,
      unfold mode_from_config in refl,
    )
