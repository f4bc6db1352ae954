-- ===== src/Sensor/Retune.antt =====
-- A new geometry for a running sensor: what it programs is what is attested.
use podbay_camera_firmware.Prelude.{
  ℕ, ◌-◌, ◌*◌, ◌≤◌, ◌≡◌, ap, ◌∙◌, true, false, not, [], ◌==◌, arith, ok, u16_max, clamp, ◌||◌, inl,
  inr,
}
use podbay_camera_firmware.Device.{I2c}
use podbay_camera_firmware.Config.{
  Config, Geometry, validate_origin, physical_width, physical_height, geometry_of,
}
use podbay_camera_firmware.Config.Valid.{validate_origin_iff, IsValid, IsReadout, extent_fits}
use podbay_camera_firmware.Sensor.{
  full_raw_expected, scaled_global_expected, geometry_registers, no_subsampling, clamp_coarse,
}
use podbay_camera_firmware.Sensor.Driver.{
  verify_full_raw_mode, verify_scaled_global_mode, prepare_geometry_live, restart_geometry_live,
  checked_physical, is_not_live, exceeds_array,
}
use podbay_camera_firmware.Sensor.Registers.{
  RegisterFile, Holds, AllWords, assign, update, write_register_lem, write_all_lem, attest_lem,
}

checked_physical_lem :
    (size binning scale : ℕ)
    → size ≤ u16_max
    → IsReadout binning scale
    → checked_physical size binning scale ≡ ok (size * binning * scale)
unfolding checked_physical
checked_physical_lem size binning scale h (inl (b, s)) = rw (b, s) (ground arith)
checked_physical_lem size binning scale h (inr (b, inl s)) = rw (b, s) (ground arith)
checked_physical_lem size binning scale h (inr (b, inr s)) = rw (b, s) (ground arith)

is_live : (c : Config) → c.direct_full_raw ≡ true → IsValid c → is_not_live c ≡ false
unfolding is_not_live
is_live c d v = let r = v.readout in ground arith

inside_array :
    (c : Config)
    → IsValid c
    → exceeds_array c.initial_x c.initial_y
        (c.tile_width * c.sensor_binning * c.sensor_scale)
        (c.tile_height * c.sensor_binning * c.sensor_scale)
      ≡ false
unfolding exceeds_array
inside_array c v =
    let a = v.x_aligned in
    let b = v.y_aligned in let r = v.right in let d = v.bottom in ground arith

geometry_AllWords :
    (c : Config) (coarse width height : ℕ) → AllWords (geometry_registers c coarse width height)
unfolding geometry_registers
geometry_AllWords c coarse width height = omega arith

module _ (bus : I2c) (file : RegisterFile bus) where
  open bus use {State}
  open file use {content}

  -- The table of a valid direct configuration is written, and the sensor is running again behind it.
  geometry_written :
      (c : Config) (coarse : ℕ) (s : State)
      → c.direct_full_raw ≡ true
      → IsValid c
      → clamp_coarse c.frame_length c.coarse ≡ ok coarse
      → let width = c.tile_width * c.sensor_binning * c.sensor_scale in
        let height = c.tile_height * c.sensor_binning * c.sensor_scale in
        (s' s'' : State) × (prepare_geometry_live bus c s ≡ (ok (geometry_of c), s'))
        × (restart_geometry_live bus s' ≡ (ok tt, s''))
        × (content s''
            ≡ update
                (assign (geometry_registers c coarse width height) (update (content s) 0x0100 0x00))
                0x0100
                0x01)
  unfolding prepare_geometry_live restart_geometry_live
  geometry_written c coarse s direct v clamped =
      let width = c.tile_width * c.sensor_binning * c.sensor_scale in
      let height = c.tile_height * c.sensor_binning * c.sensor_scale in
      let (t, standby, stopped) = write_register_lem bus file 0x0100 0x00 s (omega arith) in
      let (u, written, table_set) =
        write_all_lem bus file (geometry_registers c coarse width height) t
          (geometry_AllWords c coarse width height) in
      let (w, started, running) = write_register_lem bus file 0x0100 0x01 u (omega arith) in
      (
        u,
        w,
        rw (
          is_live c direct v,
          checked_physical_lem c.tile_width c.sensor_binning c.sensor_scale v.width_fits v.readout,
          checked_physical_lem c.tile_height c.sensor_binning c.sensor_scale v.height_fits
              v.readout,
          inside_array c v,
          clamped,
          standby,
          written,
        ),
        started,
        running
            ∙ ap (λ f. update f 0x0100 0x01)
                (table_set ∙ ap (assign (geometry_registers c coarse width height)) stopped),
      )

clamp_coarse_ok :
    (frame_length coarse : ℕ)
    → 16 ≤ frame_length
    → clamp_coarse frame_length coarse ≡ ok (clamp 1 (frame_length - 1) coarse)
unfolding clamp_coarse
clamp_coarse_ok frame_length coarse h = ground arith

fine_Holds :
    (c : Config) (coarse : ℕ) (registers : ℕ → ℕ)
    → c.sensor_binning ≡ 1
    → c.sensor_scale ≡ 1
    → Holds (no_subsampling []) registers
    → let width = c.tile_width * c.sensor_binning * c.sensor_scale in
      let height = c.tile_height * c.sensor_binning * c.sensor_scale in
      Holds (full_raw_expected (geometry_of c) c.initial_x c.initial_y) (
        update
          (assign (geometry_registers c coarse width height) (update registers 0x0100 0x00))
          0x0100
          0x01)
unfolding full_raw_expected geometry_registers
fine_Holds c coarse registers b s h = rw (b, s) (omega arith)

origin_ok :
    (c : Config) → IsValid c → validate_origin (geometry_of c) c.initial_x c.initial_y ≡ ok tt
unfolding physical_width physical_height
origin_ok c v =
    let w = extent_fits c.tile_width c.sensor_binning c.sensor_scale v.width_fits v.readout in
    let h = extent_fits c.tile_height c.sensor_binning c.sensor_scale v.height_fits v.readout in
    (validate_origin_iff (geometry_of c) c.initial_x c.initial_y).1 (record {
      x_aligned = v.x_aligned;
      y_aligned = v.y_aligned;
      right = omega (arith, v.right, w);
      bottom = omega (arith, v.bottom, h);
    })

scaled_Holds :
    (c : Config) (coarse : ℕ) (registers : ℕ → ℕ)
    → c.tile_width ≡ 1000
    → c.tile_height ≡ 750
    → c.initial_x ≡ 0
    → c.initial_y ≡ 0
    → c.sensor_binning ≡ 4
    → c.sensor_scale ≡ 2
    → let width = c.tile_width * c.sensor_binning * c.sensor_scale in
      let height = c.tile_height * c.sensor_binning * c.sensor_scale in
      Holds scaled_global_expected (
        update
          (assign (geometry_registers c coarse width height) (update registers 0x0100 0x00))
          0x0100
          0x01)
unfolding scaled_global_expected geometry_registers
scaled_Holds c coarse registers w h x y b s = rw (w, h, x, y, b, s) (omega arith)

expected_AllWords :
    (g : Geometry) (x y : ℕ) → AllWords (full_raw_expected g x y) × AllWords scaled_global_expected
unfolding full_raw_expected scaled_global_expected
expected_AllWords g x y = omega arith

module _ (bus : I2c) (file : RegisterFile bus) where
  open bus use {State}
  open file use {content}

  -- On a sensor that keeps its registers and does not subsample, retuning a running sensor to a valid
  -- direct 1x1 configuration and restarting it succeeds, and the attestation of the physical 1x1 mode
  -- then succeeds.
  pub retune_fine-attested :
      (c : Config) (s : State)
      → c.direct_full_raw ≡ true
      → IsValid c
      → c.sensor_binning ≡ 1
      → Holds (no_subsampling []) (content s)
      → (s₁ s₂ s₃ : State) × (prepare_geometry_live bus c s ≡ (ok (geometry_of c), s₁))
        × (restart_geometry_live bus s₁ ≡ (ok tt, s₂))
        × (verify_full_raw_mode bus (geometry_of c) c.initial_x c.initial_y s₂ ≡ (ok tt, s₃))
  unfolding verify_full_raw_mode
  retune_fine-attested c s direct v one plain =
      let single : c.sensor_scale ≡ 1 = let r = v.readout in omega arith in
      let (t, u, prepared, started, set) =
        geometry_written bus file c _ s direct v
          (clamp_coarse_ok c.frame_length c.coarse v.frame) in
      let holds : Holds (full_raw_expected (geometry_of c) c.initial_x c.initial_y) (content u) =
        rw set
          (fine_Holds c (clamp 1 (c.frame_length - 1) c.coarse) (content s) one single plain) in
      let (w, attested, _) =
        attest_lem bus file (full_raw_expected (geometry_of c) c.initial_x c.initial_y) u
          (expected_AllWords (geometry_of c) c.initial_x c.initial_y).0 holds in
      let unbinned : not (c.sensor_binning == 1) ≡ false = ground arith in
      (t, u, w, prepared, started, rw (unbinned, origin_ok c v) attested)

  -- On a sensor that keeps its registers, retuning a running sensor to the valid direct configuration
  -- of the scaled full field and restarting it succeeds, and the attestation of the scaled mode then
  -- succeeds.
  pub retune_scaled-attested :
      (c : Config) (s : State)
      → c.direct_full_raw ≡ true
      → IsValid c
      → c.tile_width ≡ 1000
      → c.tile_height ≡ 750
      → c.initial_x ≡ 0
      → c.initial_y ≡ 0
      → c.sensor_binning ≡ 4
      → c.sensor_scale ≡ 2
      → (s₁ s₂ s₃ : State) × (prepare_geometry_live bus c s ≡ (ok (geometry_of c), s₁))
        × (restart_geometry_live bus s₁ ≡ (ok tt, s₂))
        × (verify_scaled_global_mode bus (geometry_of c) s₂ ≡ (ok tt, s₃))
  unfolding verify_scaled_global_mode
  retune_scaled-attested c s direct v wide tall left top binned scaled =
      let (t, u, prepared, started, set) =
        geometry_written bus file c _ s direct v
          (clamp_coarse_ok c.frame_length c.coarse v.frame) in
      let holds : Holds scaled_global_expected (content u) = rw set (
        scaled_Holds c (clamp 1 (c.frame_length - 1) c.coarse) (content s) wide tall left top binned
          scaled) in
      let (w, attested, _) =
        attest_lem bus file scaled_global_expected u (expected_AllWords (geometry_of c) 0 0).1
          holds in
      let fits : (not (c.sensor_binning == 4)
            || not (c.sensor_scale == 2)
            || not (c.tile_width == 1000)
            || not (c.tile_height == 750))
          ≡ false =
        rw (wide, tall, binned, scaled) in
      (t, u, w, prepared, started, rw fits attested)
