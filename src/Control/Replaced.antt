-- ===== src/Control/Replaced.antt =====
-- How a line of the control connection replaces the rectangles of the eyes.
use podbay_camera_firmware.Prelude.{
  ℕ, ◌==◌, ◌≡◌, refl, sym, ◌∙◌, Bool-cases, inl, inr, false, not, ◌&&◌, List, Option, Result, ok,
  err,
}
use podbay_camera_firmware.Device.{M, I2c}
use podbay_camera_firmware.Device.Runs.{ends, Runs, Keeps, Runs->>=, Runs-pure}
use podbay_camera_firmware.Text.{Text, split_whitespace, parse_unsigned, parse_signed}
use podbay_camera_firmware.Config.{SensorMode}
use podbay_camera_firmware.Telemetry.Window.{CameraTelemetry}
use podbay_camera_firmware.Vcm.{I2cRdwr, Vcm}
use podbay_camera_firmware.Control.{LiveEyeRoi, Control, Response, refused, disabled}
use podbay_camera_firmware.Control.Commands.{
  Command, ping, focus_get, exposure_get, unknown, focus_set, focus_step, exposure_set,
  exposure_step, roi_set, is_mutation, parse_command,
}
use podbay_camera_firmware.Control.Commands
use podbay_camera_firmware.Control.Server.{with_exposure}
use podbay_camera_firmware.Control.Handlers.{
  Shared, on_vcm, update, move_focus, step_focus, set_regions, regions_of, parsed, run, respond,
  serve_line,
}
use podbay_camera_firmware.Control.Steps.{answer-Keeps}
use podbay_camera_firmware.Control.Regions.{
  RegionsAfter, stay, place_regions-RegionsAfter, follow_mode_keeps, moves, quiet-Keeps,
}

module _ (lens : I2cRdwr) (bus : I2c) (mode : SensorMode) (before : Option LiveEyeRoi) where
  abbrev Same : Shared lens bus → Type 0
  Same w = w.0.live_eye_roi ≡ before

  abbrev After : Shared lens bus → Type 0
  After w = RegionsAfter mode before w.0.live_eye_roi

  -- What leaves the rectangles alone leaves them valid.
  Same-After : {A : Type 0} {m : M (Shared lens bus) A} → Keeps Same m → Runs Same After After m
  Same-After keeps = record {
    done = λ w a p r. stay (keeps.done w a p r);
    failed = λ w e p r. stay (keeps.failed w e p r);
  }

  on_vcm-Same : {A : Type 0} (m : M (Vcm × lens.State) A) → Keeps Same (on_vcm lens bus m)
  unfolding on_vcm
  on_vcm-Same m = record { done = λ w a p r. p; failed = λ w e p r. p }

  moved :
      {b after : Option LiveEyeRoi}
      → b ≡ before
      → RegionsAfter mode b after
      → RegionsAfter mode before after
  moved e change = rw (sym e) change

  set_regions-After : (values : List ℕ) → Runs Same After After (set_regions lens bus mode values)
  unfolding set_regions
  set_regions-After values = record {
    done = λ w a p r. moved p (place_regions-RegionsAfter mode (regions_of values) w.0);
    failed = λ w e p r. cc;
  }

  parsed-After :
      {A : Type 0} (r : Result A) {f : A → M (Shared lens bus) Response}
      → ((a : A) → Runs Same After After (f a))
      → Runs Same After After (parsed lens bus r f)
  unfolding parsed
  parsed-After (ok a) each = each a
  parsed-After (err e) each = Same-After (Runs-pure (refused e))

  quiet-After :
      (now : ℕ) (command : Command)
      → moves command ≡ false
      → Runs Same After After (run lens bus now mode command)
  unfolding with_exposure
  quiet-After now command h = Same-After (
      quiet-Keeps lens bus (λ k. k.live_eye_roi ≡ before) now mode command (λ k length lines p. p)
        h)

  run-After : (now : ℕ) (command : Command) → Runs Same After After (run lens bus now mode command)
  unfolding run move_focus step_focus
  run-After now (focus_set value) =
      parsed-After (parse_unsigned _ value)
        (λ position. Same-After (answer-Keeps lens bus _ (on_vcm-Same _)))
  run-After now (focus_step value) = parsed-After (parse_signed _ _ value) (λ delta. Same-After (
      answer-Keeps lens bus _
        (Runs->>= (on_vcm-Same _) (λ current. Runs->>= (on_vcm-Same _) (λ readback. Runs-pure _)))))
  run-After now (roi_set values) = parsed-After _ set_regions-After
  run-After now ping = quiet-After now ping refl
  run-After now focus_get = quiet-After now focus_get refl
  run-After now Commands.focus_status = quiet-After now Commands.focus_status refl
  run-After now exposure_get = quiet-After now exposure_get refl
  run-After now (exposure_set value) = quiet-After now (exposure_set value) refl
  run-After now (exposure_step value) = quiet-After now (exposure_step value) refl
  run-After now unknown = quiet-After now unknown refl

  respond-After :
      (now : ℕ) (fields : List Text) → Runs Same After After (respond lens bus now mode fields)
  unfolding respond
  respond-After now fields =
      elim (Bool-cases (not (mode.mode_binning == 1) && is_mutation fields)) [
        | inl disabled_ ↦ rw disabled_ (Same-After (Runs-pure disabled))
        | inr enabled ↦ rw enabled (run-After now (parse_command fields))
      ]

  update-Same :
      (f : Control → Control)
      → ((k : Control) → (f k).live_eye_roi ≡ k.live_eye_roi)
      → Runs Same Same After (update lens bus f)
  unfolding update
  update-Same f same = record { done = λ w a p r. same w.0 ∙ p; failed = λ w e p r. cc }

  noted-After :
      (t : Control → CameraTelemetry)
      → Keeps After (update lens bus (λ k. record k { telemetry = t k }))
  unfolding update
  noted-After t = record { done = λ w a p r. p; failed = λ w e p r. p }

  serve_line-After :
      (now elapsed : ℕ) (line : Text)
      → Runs Same After After (serve_line lens bus now elapsed mode line)
  unfolding serve_line
  serve_line-After now elapsed line =
      Runs->>= (update-Same _ (λ k. (follow_mode_keeps mode k).0)) (λ _.
        Runs->>= (respond-After now (split_whitespace line))
          (λ response. Runs->>= (noted-After _) (λ _. Runs-pure response)))

module _ (lens : I2cRdwr) (bus : I2c) where
  -- Whatever line comes in, and however it is answered, the rectangles of the eyes either stay as they
  -- are, or they are replaced as a whole by a pair that is valid for the sensor's mode, under the
  -- generation that follows the one before.
  pub serve_line-RegionsAfter :
      (now elapsed : ℕ) (mode : SensorMode) (line : Text) (w : Shared lens bus)
      → RegionsAfter mode w.0.live_eye_roi
          (serve_line lens bus now elapsed mode line w).1.0.live_eye_roi
  serve_line-RegionsAfter now elapsed mode line w =
      let runs = serve_line-After lens bus mode w.0.live_eye_roi now elapsed line in
      elim (ends (serve_line lens bus now elapsed mode line w)) [
        | inl (a, s, e) ↦ runs.done w a refl (rw e refl)
        | inr (x, s, e) ↦ runs.failed w x refl (rw e refl)
      ]
