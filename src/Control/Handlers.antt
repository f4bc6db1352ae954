-- ===== src/Control/Handlers.antt =====
-- `serve_vcm_control` of camera-service/src/main.rs, one command at a time, on the lens actuator's bus and
-- on the sensor's.
use podbay_camera_firmware.Prelude.{
  ℕ, ◌==◌, max, not, ◌&&◌, Option, none, some, List, [], ◌∷◌, if◌then◌else◌, sat_add, clamp,
  u16_max, Result, ok, err,
}
use podbay_camera_firmware.Device.{M, ◌>>=◌, ◌>>◌, pure, I2c}
use podbay_camera_firmware.Text.{Text, Signed, split_whitespace, parse_unsigned, parse_signed}
use podbay_camera_firmware.Config.{SensorMode}
use podbay_camera_firmware.Config.Requests.{validate_absolute_eye_rois}
use podbay_camera_firmware.Sensor.Driver.{set_exposure}
use podbay_camera_firmware.Vcm.{I2cRdwr, Vcm, or_last, read_position, set_position, focus_status}
use podbay_camera_firmware.Control.{
  LiveEyeRoi, Control, Response, pong, disabled, roi_outside, usage, focus_at, focus_report,
  focus_moved, exposure_at, refused,
}
use podbay_camera_firmware.Control
use podbay_camera_firmware.Control.Commands.{
  Command, ping, focus_get, exposure_get, unknown, focus_set, focus_step, exposure_set,
  exposure_step, roi_set, is_mutation, parse_command,
}
use podbay_camera_firmware.Control.Commands
use podbay_camera_firmware.Control.Server.{
  minimum_frame_length, mode_gain, with_exposure, follow_mode, stepped, parse_all, next_generation,
  answered, note_command,
}

-- The six numbers of a `ROI SET`, as the request for the next generation.
unfoldable pub regions_of : List ℕ → Option LiveEyeRoi
regions_of (lx ∷ ly ∷ rx ∷ ry ∷ width ∷ height ∷ []) = some (record {
  left_eye = (lx, ly);
  right_eye = (rx, ry);
  eye_width = width;
  eye_height = height;
  roi_generation = 0;
})
regions_of _ = none

unfoldable pub placed : Result (Unit {0}) → LiveEyeRoi → Control → Response × Control
placed (err e) regions k = (roi_outside, k)
placed (ok _) regions k =
    let generation = next_generation k.live_eye_roi in
    (
      Control.roi_set generation,
      record k { live_eye_roi = some (record regions { roi_generation = generation }) },
    )

unfoldable pub validate_regions : SensorMode → LiveEyeRoi → Result (Unit {0})
validate_regions mode regions =
    validate_absolute_eye_rois mode regions.left_eye regions.right_eye regions.eye_width
      regions.eye_height

-- The rectangles are replaced as a whole, with the next generation.
unfoldable pub place_regions : SensorMode → Option LiveEyeRoi → Control → Response × Control
place_regions mode none k = (usage, k)
place_regions mode (some regions) k = placed (validate_regions mode regions) regions k

module _ (lens : I2cRdwr) (bus : I2c) where
  abbrev pub Shared : Type 0
  Shared = Control × (lens.State × bus.State)

  unfoldable pub on_vcm : {A : Type 0} → M (Vcm × lens.State) A → M Shared A
  on_vcm m (k, (l, b)) = let (r, (vcm, l')) = m (k.vcm, l) in (r, (record k { vcm = vcm }, (l', b)))

  unfoldable pub on_sensor : {A : Type 0} → M bus.State A → M Shared A
  on_sensor m (k, (l, b)) = let (r, b') = m b in (r, (k, (l, b')))

  unfoldable pub update : (Control → Control) → M Shared (Unit {0})
  update f (k, d) = (ok tt, (f k, d))

  unfoldable pub with_control : {A : Type 0} → (Control → M Shared A) → M Shared A
  with_control f w = f w.0 w

  unfoldable pub answer : {A : Type 0} → (A → Response) → M Shared A → M Shared Response
  answer f m w = answered f (m w)

  -- `vcm.read_position().or_else(|error| vcm.last_position.ok_or(error))`
  unfoldable pub current_position : M (Vcm × lens.State) ℕ
  current_position (vcm, l) =
      let (r, l') = or_last vcm.last_position (read_position lens l) in (r, (vcm, l'))

  unfoldable pub move_focus : ℕ → ℕ → M Shared Response
  move_focus now position = answer (focus_moved position) (on_vcm (set_position lens position now))

  unfoldable pub step_focus : ℕ → Signed → M Shared Response
  step_focus now delta =
      answer (λ (moved : ℕ × ℕ). focus_moved moved.0 moved.1)
        (do
          current ← on_vcm current_position
          let position = stepped 0 1023 current delta
          readback ← on_vcm (set_position lens position now)
          pure (position, readback))

  -- An exposure that is already clamped. The variables change once the sensor has taken it.
  unfoldable pub expose : SensorMode → ℕ → M Shared Response
  expose mode next =
      answer (λ (length : ℕ). Control.exposure_set next length)
        (do
          let next_frame_length = max (minimum_frame_length mode) (sat_add u16_max next 1)
          on_sensor (set_exposure bus next_frame_length next (mode_gain mode))
          update (with_exposure next_frame_length next)
          pure next_frame_length)

  unfoldable pub set_regions : SensorMode → List ℕ → M Shared Response
  set_regions mode values (k, d) =
      let (response, k') = place_regions mode (regions_of values) k in (ok response, (k', d))

  -- A command whose value is not a number is refused before it does anything.
  unfoldable pub parsed : {A : Type 0} → Result A → (A → M Shared Response) → M Shared Response
  parsed (ok a) f = f a
  parsed (err e) f = pure (refused e)

  unfoldable pub run : ℕ → SensorMode → Command → M Shared Response
  run now mode ping = pure pong
  run now mode focus_get = answer focus_at (on_vcm current_position)
  run now mode Commands.focus_status = answer focus_report (on_vcm (focus_status lens now))
  run now mode (focus_set value) = parsed (parse_unsigned u16_max value) (move_focus now)
  run now mode (focus_step value) = parsed (parse_signed 32_768 32_767 value) (step_focus now)
  run now mode exposure_get = with_control (λ k. pure (exposure_at k.exposure k.frame_length))
  run now mode (exposure_set value) =
      parsed (parse_unsigned u16_max value) (λ requested. expose mode (clamp 1 65_534 requested))
  run now mode (exposure_step value) =
      parsed (parse_signed 2_147_483_648 2_147_483_647 value)
        (λ delta. with_control (λ k. expose mode (stepped 1 65_534 k.exposure delta)))
  run now mode (roi_set values) = parsed (parse_all values) (set_regions mode)
  run now mode unknown = pure usage

  -- A binned mode refuses what moves the focus or the rectangles.
  unfoldable pub respond : ℕ → SensorMode → List Text → M Shared Response
  respond now mode fields =
      if not (mode.mode_binning == 1) && is_mutation fields
      then pure disabled
      else run now mode (parse_command fields)

  -- One line, at an instant of the clock, with the sensor's mode at that time and the time that the
  -- command takes.
  unfoldable pub serve_line : ℕ → ℕ → SensorMode → Text → M Shared Response
  serve_line now elapsed mode line = do
    update (follow_mode mode)
    let fields = split_whitespace line
    response ← respond now mode fields
    update (λ k. record k { telemetry = note_command elapsed fields response k.telemetry })
    pure response
