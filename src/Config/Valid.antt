-- ===== src/Config/Valid.antt =====
-- What the validation of a configuration accepts.
use podbay_camera_firmware.Prelude.{
  ℕ, ◌+◌, ◌*◌, ◌%◌, ◌≤◌, ◌<◌, ◌≡◌, ◌⊎◌, ◌↔◌, Bool, true, false, u16_max, arith, ok, ltb, as_u32,
  not, inl, inr,
}
use podbay_camera_firmware.Config.{
  Config, validate_config, sensor_width, sensor_height, one_or, Geometry, physical_width,
  physical_height, validate_origin, geometry_of, is_misaligned, is_outside, is_bad_tile,
  is_bad_scale,
}

-- A readout that the sensor supports: the binning and the digital scale.
abbrev pub IsReadout : ℕ → ℕ → Type 0
IsReadout binning scale =
    ((binning ≡ 1) × (scale ≡ 1)) ⊎ ((binning ≡ 4) × ((scale ≡ 1) ⊎ (scale ≡ 2)))

-- The output is a whole number of RAW10 groups and Bayer rows, and the window that it reads, in
-- plain arithmetic, starts on the sensor's grid and lies on the sensor.
pub record IsValid (c : Config) : Type 0 where
  pub wide : 0 < c.tile_width
  pub tall : 0 < c.tile_height
  pub groups : c.tile_width % 4 ≡ 0
  pub rows : c.tile_height % 2 ≡ 0
  pub width_fits : c.tile_width ≤ u16_max
  pub height_fits : c.tile_height ≤ u16_max
  pub frame : 16 ≤ c.frame_length
  pub readout : IsReadout c.sensor_binning c.sensor_scale
  pub x_aligned : c.initial_x % 4 ≡ 0
  pub y_aligned : c.initial_y % 2 ≡ 0
  pub right : c.initial_x + c.tile_width * c.sensor_binning * c.sensor_scale ≤ sensor_width
  pub bottom : c.initial_y + c.tile_height * c.sensor_binning * c.sensor_scale ≤ sensor_height

-- The physical extent does not wrap: at most 65535 columns, read four to one and halved.
pub extent_fits :
    (size binning scale : ℕ)
    → size ≤ u16_max
    → IsReadout binning scale
    → as_u32 (as_u32 (size * binning) * scale) ≡ size * binning * scale
extent_fits size binning scale h (inl (b, s)) = rw (b, s) (omega arith)
extent_fits size binning scale h (inr (b, inl s)) = rw (b, s) (omega arith)
extent_fits size binning scale h (inr (b, inr s)) = rw (b, s) (omega arith)

IsReadout-of_tests :
    (binning scale : ℕ)
    → not (one_or 4 binning) ≡ false
    → is_bad_scale binning scale ≡ false
    → IsReadout binning scale
unfolding is_bad_scale
IsReadout-of_tests binning scale p q = ground arith

tests_of_IsReadout :
    (binning scale : ℕ)
    → IsReadout binning scale
    → (not (one_or 4 binning) ≡ false) × (is_bad_scale binning scale ≡ false)
unfolding is_bad_scale
tests_of_IsReadout binning scale r = ground arith

-- The geometry fits the sensor at an origin on the grid.
pub record Fits (g : Geometry) (x y : ℕ) : Type 0 where
  pub x_aligned : x % 4 ≡ 0
  pub y_aligned : y % 2 ≡ 0
  pub right : x + physical_width g ≤ sensor_width
  pub bottom : y + physical_height g ≤ sensor_height

pub validate_origin_cases :
    (g : Geometry) (x y : ℕ) → (is_misaligned x y ≡ false) × (is_outside g x y ≡ false) ↔ Fits g x y
unfolding is_misaligned is_outside
validate_origin_cases g x y = (λ h. ground arith, λ h. ground arith)

-- `validate_origin` accepts exactly the origins at which the geometry fits.
pub validate_origin_iff : (g : Geometry) (x y : ℕ) → (validate_origin g x y ≡ ok tt) ↔ Fits g x y
unfolding validate_origin
validate_origin_iff g x y = (
  λ h. (validate_origin_cases g x y).0 (ground arith),
  λ h. let (aligned, inside) = (validate_origin_cases g x y).1 h in ground arith,
)

record PassesTests (c : Config) : Type 0 where
  tile : is_bad_tile c.tile_width c.tile_height ≡ false
  frame : ltb c.frame_length 16 ≡ false
  binning : not (one_or 4 c.sensor_binning) ≡ false
  scale : is_bad_scale c.sensor_binning c.sensor_scale ≡ false
  origin : validate_origin (geometry_of c) c.initial_x c.initial_y ≡ ok tt

PassesTests-of_ok : (n : Bool) (c : Config) → validate_config n c ≡ ok tt → PassesTests c
unfolding validate_config
PassesTests-of_ok n c h = ground arith

validate_config_of_PassesTests : (c : Config) → PassesTests c → validate_config true c ≡ ok tt
unfolding validate_config
validate_config_of_PassesTests c p = ground arith

tile_sound :
    (w h : ℕ)
    → is_bad_tile w h ≡ false
    → (0 < w) × (0 < h) × (w % 4 ≡ 0) × (h % 2 ≡ 0) × (w ≤ u16_max) × (h ≤ u16_max)
unfolding is_bad_tile
tile_sound w h p =
    (ground arith, ground arith, ground arith, ground arith, ground arith, ground arith)

-- Whatever the file system answers, an accepted configuration is valid.
pub validate_config_sound :
    (null_opens : Bool) (c : Config) → validate_config null_opens c ≡ ok tt → IsValid c
unfolding physical_width physical_height
validate_config_sound n c h =
    let p = PassesTests-of_ok n c h in
    let (wide, tall, groups, rows, width_fits, height_fits) = tile_sound _ _ p.tile in
    let readout = IsReadout-of_tests _ _ p.binning p.scale in
    let fits = (validate_origin_iff (geometry_of c) c.initial_x c.initial_y).0 p.origin in
    let w = extent_fits c.tile_width c.sensor_binning c.sensor_scale width_fits readout in
    let h' = extent_fits c.tile_height c.sensor_binning c.sensor_scale height_fits readout in
    record {
      wide = wide;
      tall = tall;
      groups = groups;
      rows = rows;
      width_fits = width_fits;
      height_fits = height_fits;
      frame = let t = p.frame in ground arith;
      readout = readout;
      x_aligned = fits.x_aligned;
      y_aligned = fits.y_aligned;
      right = omega (arith, fits.right, w);
      bottom = omega (arith, fits.bottom, h');
    }

-- A valid configuration is accepted, if /dev/null can be opened.
pub validate_config_complete : (c : Config) → IsValid c → validate_config true c ≡ ok tt
unfolding physical_width physical_height is_bad_tile
validate_config_complete c v =
    let (binning, scale) = tests_of_IsReadout c.sensor_binning c.sensor_scale v.readout in
    let w = extent_fits c.tile_width c.sensor_binning c.sensor_scale v.width_fits v.readout in
    let h = extent_fits c.tile_height c.sensor_binning c.sensor_scale v.height_fits v.readout in
    validate_config_of_PassesTests c (record {
      tile = ground arith;
      frame = let f = v.frame in ground arith;
      binning = binning;
      scale = scale;
      origin = (validate_origin_iff (geometry_of c) c.initial_x c.initial_y).1 (record {
        x_aligned = v.x_aligned;
        y_aligned = v.y_aligned;
        right = omega (arith, v.right, w);
        bottom = omega (arith, v.bottom, h);
      });
    })
