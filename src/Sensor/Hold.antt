-- ===== src/Sensor/Hold.antt =====
-- Whatever a bus does, a change is brought to its end: the group hold is released, and a sensor put in
-- standby is started again when its table fails.
use podbay_camera_firmware.Prelude.{ℕ, ◌≡◌, refl, List, Result, Error, ok, err, false}
use podbay_camera_firmware.Device.{I2c}
use podbay_camera_firmware.Config.{Config, Geometry, geometry_of}
use podbay_camera_firmware.Config.Valid.{Fits, validate_origin_iff}
use podbay_camera_firmware.Sensor.{clamp_coarse, origin_registers, geometry_registers}
use podbay_camera_firmware.Sensor.Driver.{
  write_register, write_all, under_hold, and_release, set_exposure, set_origin_live,
  exposure_registers, restart_on_error, prepare_geometry_live, checked_physical, is_not_live,
  exceeds_array,
}

module _ (bus : I2c) where
  open bus use {State}

  -- The state in which a change that has taken the hold leaves the bus: a release was the last call,
  -- and a success means that the release succeeded.
  abbrev pub Released : Result (Unit {0}) × State → Type 0
  Released (result, s) =
      (before : State) × (s ≡ (write_register bus 0x0104 0x00 before).1)
      × (result ≡ ok tt → (write_register bus 0x0104 0x00 before).0 ≡ ok tt)

  and_release-Released : (r : Result (Unit {0})) (s : State) → Released (and_release bus (r, s))
  unfolding and_release
  and_release-Released (ok _) s = (s, refl, λ e. e)
  and_release-Released (err e) s = (s, refl, λ f. cc)

  under_hold-Released :
      (table : List (ℕ × ℕ)) (s held : State)
      → write_register bus 0x0104 0x01 s ≡ (ok tt, held)
      → Released (under_hold bus table s)
  unfolding under_hold
  under_hold-Released table s held h =
      rw h (and_release-Released (write_all bus table held).0 (write_all bus table held).1)

  -- On any bus, once the hold is taken, a change of the exposure or of the origin ends with the release
  -- of the hold, whichever write fails, and succeeds only if the release does.
  pub changes-Released :
      (g : Geometry) (x y frame_length coarse gain clamped : ℕ) (s held : State)
      → write_register bus 0x0104 0x01 s ≡ (ok tt, held)
      → clamp_coarse frame_length coarse ≡ ok clamped
      → Fits g x y
      → Released (set_exposure bus frame_length coarse gain s)
        × Released (set_origin_live bus g x y s)
  unfolding set_exposure set_origin_live
  changes-Released g x y frame_length coarse gain clamped s held h c fits = (
    rw c (under_hold-Released (exposure_registers frame_length clamped gain) s held h),
    rw ((validate_origin_iff g x y).1 fits) (under_hold-Released (origin_registers g x y) s held h),
  )

  restart_after :
      (g : Geometry) (e : Error) (p : Result (Unit {0}) × State)
      → (restart_on_error bus g p).0 ≡ err e
      → (before : State) × ((restart_on_error bus g p).1
          ≡ (write_register bus 0x0100 0x01 before).1)
  unfolding restart_on_error
  restart_after g e (ok _, s) h = cc
  restart_after g e (err f, s) h = (s, refl)

  -- On any bus, a retuning that fails after the sensor was put in standby ends with the call that
  -- starts it again.
  pub prepare_geometry_live_restarts :
      (c : Config) (width height coarse : ℕ) (e : Error) (s standby : State)
      → is_not_live c ≡ false
      → checked_physical c.tile_width c.sensor_binning c.sensor_scale ≡ ok width
      → checked_physical c.tile_height c.sensor_binning c.sensor_scale ≡ ok height
      → exceeds_array c.initial_x c.initial_y width height ≡ false
      → clamp_coarse c.frame_length c.coarse ≡ ok coarse
      → write_register bus 0x0100 0x00 s ≡ (ok tt, standby)
      → (prepare_geometry_live bus c s).0 ≡ err e
      → (before : State) × ((prepare_geometry_live bus c s).1
          ≡ (write_register bus 0x0100 0x01 before).1)
  unfolding prepare_geometry_live
  prepare_geometry_live_restarts c width height coarse e s standby live w h inside clamped stopped
        failed =
      rw (live, w, h, inside, clamped, stopped)
        (restart_after (geometry_of c) e
          (write_all bus (geometry_registers c coarse width height) standby)
          (rw (live, w, h, inside, clamped, stopped) at failed))
