-- ===== src/Sensor/Driver.antt =====
-- The operations of `Sensor` in camera-service/src/main.rs over the bus that its open file stands for.
-- Delays are left out.
use podbay_camera_firmware.Prelude.{
  ℕ, ◌-◌, ◌*◌, ◌%◌, Bool, not, ◌&&◌, ◌||◌, List, [], ◌∷◌, ltb, ◌==◌, if◌then◌else◌, u32_max, Result,
  ok, err, fail_if, and_result, attestation, mode_unsupported, live_geometry,
}
use podbay_camera_firmware.Device.{M, ◌>>=◌, ◌>>◌, pure, lift, I2c}
use podbay_camera_firmware.Config.{
  Config, Geometry, sensor_width, sensor_height, validate_origin, one_or, geometry_of,
}
use podbay_camera_firmware.Sensor.{
  high, low, clamp_coarse, full_raw_expected, scaled_global_expected, full_raw_registers,
  binned_raw_registers, origin_registers, geometry_registers,
}

-- `checked_mul` by the binning and then by the scale.
unfoldable pub checked_physical : ℕ → ℕ → ℕ → Result ℕ
checked_physical size binning scale =
    if ltb u32_max (size * binning) || ltb u32_max (size * binning * scale)
    then err live_geometry
    else ok (size * binning * scale)

-- The two tests of `prepare_geometry_live`; `-` stops at 0 as `saturating_sub` does.
unfoldable pub is_not_live : Config → Bool
is_not_live c =
    not c.direct_full_raw
    || not (one_or 4 c.sensor_binning)
    || not (one_or 2 c.sensor_scale)
    || (c.sensor_binning == 1 && not (c.sensor_scale == 1))

unfoldable pub exceeds_array : ℕ → ℕ → ℕ → ℕ → Bool
exceeds_array x y width height =
    not (x % 4 == 0)
    || not (y % 2 == 0)
    || ltb (sensor_width - width) x
    || ltb (sensor_height - height) y

-- The registers that `set_exposure` writes under the hold.
unfoldable pub exposure_registers : ℕ → ℕ → ℕ → List (ℕ × ℕ)
exposure_registers frame_length coarse gain =
    (0x0340, high frame_length)
    ∷ (0x0341, low frame_length)
    ∷ (0x0202, high coarse)
    ∷ (0x0203, low coarse)
    ∷ (0x0204, high gain)
    ∷ (0x0205, low gain)
    ∷ []

module _ (bus : I2c) where
  open bus use {State, send, receive}

  unfoldable pub write_register : ℕ → ℕ → M State (Unit {0})
  write_register register value = send (high register ∷ low register ∷ value ∷ [])

  unfoldable pub read_register : ℕ → M State ℕ
  read_register register = do send (high register ∷ low register ∷ []); receive

  -- A loop of `write_register(...)?` over a table.
  unfoldable pub write_all : List (ℕ × ℕ) → M State (Unit {0})
  write_all [] = pure tt
  write_all ((register, value) ∷ rest) = do write_register register value; write_all rest

  -- The loop over `expected`.
  unfoldable pub attest : List (ℕ × ℕ) → M State (Unit {0})
  attest [] = pure tt
  attest ((register, wanted) ∷ rest) = do
    actual ← read_register register
    lift (fail_if (not (actual == wanted)) (attestation register actual wanted))
    attest rest

  unfoldable pub verify_full_raw_mode : Geometry → ℕ → ℕ → M State (Unit {0})
  verify_full_raw_mode g x y = do
    lift (fail_if (not (g.binning == 1)) mode_unsupported)
    lift (validate_origin g x y)
    attest (full_raw_expected g x y)

  unfoldable pub verify_scaled_global_mode : Geometry → M State (Unit {0})
  verify_scaled_global_mode g = do
    lift (
        fail_if
          (not (g.binning == 4)
            || not (g.scale == 2)
            || not (g.width == 1000)
            || not (g.height == 750))
          mode_unsupported)
    attest scaled_global_expected

  unfoldable pub apply_full_raw_mode : Geometry → ℕ → ℕ → M State (Unit {0})
  apply_full_raw_mode g x y = do
    lift (fail_if (not (g.binning == 1)) mode_unsupported)
    lift (validate_origin g x y)
    write_all (full_raw_registers g x y)

  unfoldable pub start_configured_module_mode : M State (Unit {0})
  start_configured_module_mode = write_register 0x0100 0x01

  unfoldable pub apply_binned_raw_mode : Geometry → ℕ → ℕ → M State (Unit {0})
  apply_binned_raw_mode g x y = do
    lift (fail_if (not (g.binning == 4)) mode_unsupported)
    lift (validate_origin g x y)
    write_all (binned_raw_registers g x y)

  -- `let result = body(); let release = write(0x0104, 0); result.and(release)`
  unfoldable pub and_release : Result (Unit {0}) × State → Result (Unit {0}) × State
  and_release (result, s) =
      let (release, s') = write_register 0x0104 0x00 s in (and_result result release, s')

  -- The group hold around a table.
  unfoldable pub under_hold : List (ℕ × ℕ) → M State (Unit {0})
  unfolding and_release
  under_hold table = do write_register 0x0104 0x01; λ s. and_release (write_all table s)

  unfoldable pub set_exposure : ℕ → ℕ → ℕ → M State (Unit {0})
  set_exposure frame_length coarse gain = do
    clamped ← lift (clamp_coarse frame_length coarse)
    under_hold (exposure_registers frame_length clamped gain)

  unfoldable pub set_origin_live : Geometry → ℕ → ℕ → M State (Unit {0})
  set_origin_live g x y = do lift (validate_origin g x y); under_hold (origin_registers g x y)

  -- `if let Err(error) = result { let _ = write(0x0100, 1); return Err(error) }`, and the new geometry.
  unfoldable pub restart_on_error : Geometry → Result (Unit {0}) × State → Result Geometry × State
  restart_on_error g (ok _, s) = (ok g, s)
  restart_on_error g (err e, s) = let (_, s') = write_register 0x0100 0x01 s in (err e, s')

  -- The result carries the sensor's geometry from here on; after an error it is the old one.
  unfoldable pub prepare_geometry_live : Config → M State Geometry
  unfolding restart_on_error
  prepare_geometry_live c = do
    lift (fail_if (is_not_live c) live_geometry)
    width ← lift (checked_physical c.tile_width c.sensor_binning c.sensor_scale)
    height ← lift (checked_physical c.tile_height c.sensor_binning c.sensor_scale)
    lift (fail_if (exceeds_array c.initial_x c.initial_y width height) live_geometry)
    coarse ← lift (clamp_coarse c.frame_length c.coarse)
    write_register 0x0100 0x00
    λ s. restart_on_error (geometry_of c) (write_all (geometry_registers c coarse width height) s)

  unfoldable pub restart_geometry_live : M State (Unit {0})
  restart_geometry_live = write_register 0x0100 0x01
