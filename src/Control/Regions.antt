-- ===== src/Control/Regions.antt =====
-- What the control connection does to the rectangles of the eyes and to the lens.
use podbay_camera_firmware.Prelude.{
  ℕ, ◌==◌, ◌≡◌, ◌≢◌, refl, ◌∙◌, Bool, Bool-cases, inl, inr, true, false, arith, Option, none, some,
  List, [], ◌∷◌, Result, ok, err,
}
use podbay_camera_firmware.Device.{M, I2c}
use podbay_camera_firmware.Device.Runs.{Keeps, Runs->>=, Runs-pure, Keeps-after}
use podbay_camera_firmware.Text.{Text, Signed, split_whitespace, parse_signed}
use podbay_camera_firmware.Config.{SensorMode}
use podbay_camera_firmware.Telemetry.Window.{CameraTelemetry}
use podbay_camera_firmware.Vcm.{I2cRdwr, Vcm, or_last, report, read_position, focus_status}
use podbay_camera_firmware.Control.{LiveEyeRoi, Control, disabled}
use podbay_camera_firmware.Control.Commands.{
  Command, ping, focus_get, exposure_get, unknown, focus_set, focus_step, exposure_set,
  exposure_step, roi_set, is_mutation, parse_command, is_focus, is_set, is_step, is_roi,
}
use podbay_camera_firmware.Control.Commands
use podbay_camera_firmware.Control.Server.{
  with_exposure, follow_mode, same_mode, stepped, next_generation,
}
use podbay_camera_firmware.Control.Handlers.{
  Shared, on_vcm, with_control, current_position, expose, placed, validate_regions, place_regions,
  run, respond, serve_line,
}
use podbay_camera_firmware.Control.Steps.{answer-Keeps, on_sensor-Keeps, update-Runs, parsed-Keeps}

-- The rectangles stay, or they are replaced by valid ones of the next generation.
pub data RegionsAfter (mode : SensorMode) (before after : Option LiveEyeRoi) : Type 0 where
  stay : after ≡ before → RegionsAfter mode before after
  replace :
      (regions : LiveEyeRoi)
      → after ≡ some regions
      → validate_regions mode regions ≡ ok tt
      → regions.roi_generation ≡ next_generation before
      → RegionsAfter mode before after

placed-RegionsAfter :
    (mode : SensorMode) (valid : Result (Unit {0})) (regions : LiveEyeRoi) (k : Control)
    → validate_regions mode regions ≡ valid
    → RegionsAfter mode k.live_eye_roi (placed valid regions k).1.live_eye_roi
unfolding placed validate_regions
placed-RegionsAfter mode (err e) regions k h = stay refl
placed-RegionsAfter mode (ok _) regions k h =
    replace (record regions { roi_generation = next_generation k.live_eye_roi }) refl h refl

pub place_regions-RegionsAfter :
    (mode : SensorMode) (regions : Option LiveEyeRoi) (k : Control)
    → RegionsAfter mode k.live_eye_roi (place_regions mode regions k).1.live_eye_roi
unfolding place_regions
place_regions-RegionsAfter mode none k = stay refl
place_regions-RegionsAfter mode (some regions) k =
    placed-RegionsAfter mode (validate_regions mode regions) regions k refl

pub follow_mode_keeps :
    (mode : SensorMode) (k : Control)
    → ((follow_mode mode k).live_eye_roi ≡ k.live_eye_roi) × ((follow_mode mode k).vcm ≡ k.vcm)
unfolding follow_mode with_exposure
follow_mode_keeps mode k = elim (Bool-cases (same_mode mode k.last_mode)) [
  | inl same ↦ rw same (refl, refl)
  | inr changed ↦ rw changed (refl, refl)
]

-- The commands that move the lens or the rectangles.
abbrev pub moves : Command → Bool
moves (focus_set value) = true
moves (focus_step value) = true
moves (roi_set values) = true
moves _ = false

parse_command_quiet :
    (fields : List Text) → is_mutation fields ≡ false → moves (parse_command fields) ≡ false
unfolding is_mutation parse_command
parse_command_quiet [] h = refl
parse_command_quiet (a ∷ []) h = ground arith
parse_command_quiet (a ∷ b ∷ []) h = ground arith
parse_command_quiet (a ∷ b ∷ c ∷ []) h = ground arith
parse_command_quiet (a ∷ b ∷ c ∷ d ∷ []) h = refl
parse_command_quiet (a ∷ b ∷ c ∷ d ∷ e ∷ []) h = refl
parse_command_quiet (a ∷ b ∷ c ∷ d ∷ e ∷ f ∷ []) h = refl
parse_command_quiet (a ∷ b ∷ c ∷ d ∷ e ∷ f ∷ g ∷ []) h = refl
parse_command_quiet (a ∷ b ∷ c ∷ d ∷ e ∷ f ∷ g ∷ i ∷ []) h = ground arith
parse_command_quiet (a ∷ b ∷ c ∷ d ∷ e ∷ f ∷ g ∷ i ∷ j ∷ rest) h = refl

module _ (lens : I2cRdwr) (bus : I2c) where
  -- A property that only some fields matter for.
  abbrev pub On : (Control → Type 0) → Shared lens bus → Type 0
  On P w = P w.0

  reads-Keeps :
      {A : Type 0} (P : Control → Type 0) (m : M (Vcm × lens.State) A)
      → ((vcm : Vcm) (l : lens.State) → (m (vcm, l)).1.0 ≡ vcm)
      → Keeps (On P) (on_vcm lens bus m)
  unfolding on_vcm
  reads-Keeps P m same = record {
    done = λ w a p r. rw (same w.0.vcm w.1.0) p;
    failed = λ w e p r. rw (same w.0.vcm w.1.0) p;
  }

  current_position_reads :
      (vcm : Vcm) (l : lens.State) → (current_position lens bus (vcm, l)).1.0 ≡ vcm
  unfolding current_position
  current_position_reads vcm l = refl

  report_reads :
      (now : ℕ) (vcm : Vcm) (p : Result ℕ × lens.State) → (report lens now vcm p).1.0 ≡ vcm
  unfolding report
  report_reads now vcm (ok readback, l) = refl
  report_reads now vcm (err e, l) = refl

  focus_status_reads :
      (now : ℕ) (vcm : Vcm) (l : lens.State) → (focus_status lens now (vcm, l)).1.0 ≡ vcm
  unfolding focus_status
  focus_status_reads now vcm l =
      report_reads now vcm (or_last vcm.last_position (read_position lens l))

  expose-Keeps :
      (P : Control → Type 0) (mode : SensorMode) (next : ℕ)
      → ((k : Control) (length lines : ℕ) → P k → P (with_exposure length lines k))
      → Keeps (On P) (expose lens bus mode next)
  unfolding expose
  expose-Keeps P mode next closed = answer-Keeps lens bus _ (
      Runs->>= (on_sensor-Keeps lens bus P _)
        (λ _. Runs->>= (update-Runs lens bus P P _ (λ k p. closed k _ _ p)) (λ _. Runs-pure _)))

  stepped-Keeps :
      (P : Control → Type 0) (mode : SensorMode) (delta : Signed)
      → ((k : Control) (length lines : ℕ) → P k → P (with_exposure length lines k))
      → Keeps
          (On P)
          (with_control lens bus (λ k. expose lens bus mode (stepped 1 65_534 k.exposure delta)))
  unfolding with_control
  stepped-Keeps P mode delta closed = record {
    done =
        λ w a p r. (expose-Keeps P mode (stepped 1 65_534 w.0.exposure delta) closed).done w a p r;
    failed = λ w e p r.
        (expose-Keeps P mode (stepped 1 65_534 w.0.exposure delta) closed).failed w e p r;
  }

  -- The commands that do not move anything change the exposure at most.
  pub quiet-Keeps :
      (P : Control → Type 0) (now : ℕ) (mode : SensorMode) (command : Command)
      → ((k : Control) (length lines : ℕ) → P k → P (with_exposure length lines k))
      → moves command ≡ false
      → Keeps (On P) (run lens bus now mode command)
  unfolding run with_control
  quiet-Keeps P now mode ping closed h = Runs-pure _
  quiet-Keeps P now mode focus_get closed h =
      answer-Keeps lens bus _ (reads-Keeps P _ current_position_reads)
  quiet-Keeps P now mode Commands.focus_status closed h =
      answer-Keeps lens bus _ (reads-Keeps P _ (focus_status_reads now))
  quiet-Keeps P now mode (focus_set value) closed h = cc
  quiet-Keeps P now mode (focus_step value) closed h = cc
  quiet-Keeps P now mode exposure_get closed h = record {
    done = λ w a p r. p;
    failed = λ w e p r. p;
  }
  quiet-Keeps P now mode (exposure_set value) closed h =
      parsed-Keeps lens bus _ (λ requested. expose-Keeps P mode _ closed)
  quiet-Keeps P now mode (exposure_step value) closed h =
      parsed-Keeps lens bus (parse_signed 2_147_483_648 2_147_483_647 value)
        (λ delta. stepped-Keeps P mode delta closed)
  quiet-Keeps P now mode (roi_set values) closed h = cc
  quiet-Keeps P now mode unknown closed h = Runs-pure _

  -- What a line does, from what the response to it does.
  serve_line-Keeps :
      (P : Control → Type 0) (now elapsed : ℕ) (mode : SensorMode) (line : Text)
      → ((k : Control) → P k → P (follow_mode mode k))
      → ((k : Control) (t : CameraTelemetry) → P k → P (record k { telemetry = t }))
      → Keeps (On P) (respond lens bus now mode (split_whitespace line))
      → Keeps (On P) (serve_line lens bus now elapsed mode line)
  unfolding serve_line
  serve_line-Keeps P now elapsed mode line follows notes responds =
      Runs->>= (update-Runs lens bus P P _ follows) (λ _. Runs->>= responds (λ response.
        Runs->>= (update-Runs lens bus P P _ (λ k p. notes k _ p)) (λ _. Runs-pure response)))

  respond_binned :
      (P : Control → Type 0) (now : ℕ) (mode : SensorMode) (fields : List Text)
      → mode.mode_binning ≢ 1
      → ((k : Control) (length lines : ℕ) → P k → P (with_exposure length lines k))
      → Keeps (On P) (respond lens bus now mode fields)
  unfolding respond
  respond_binned P now mode fields binned closed =
      let other : (mode.mode_binning == 1) ≡ false = ground arith in
      elim (Bool-cases (is_mutation fields)) [
        | inl moving ↦ rw (other, moving) (Runs-pure disabled)
        | inr still ↦
            rw (other, still)
              (quiet-Keeps P now mode (parse_command fields) closed
                (parse_command_quiet fields still))
      ]

  -- In a binned mode no line moves the lens or the rectangles of the eyes, whatever it says and however it
  -- is answered: the actuator's target, its deadline and its generation stay, and so do the rectangles
  -- with their generation.
  pub serve_line_binned :
      (now elapsed : ℕ) (mode : SensorMode) (line : Text) (w : Shared lens bus)
      → mode.mode_binning ≢ 1
      → ((serve_line lens bus now elapsed mode line w).1.0.vcm ≡ w.0.vcm)
        × ((serve_line lens bus now elapsed mode line w).1.0.live_eye_roi ≡ w.0.live_eye_roi)
  unfolding with_exposure
  serve_line_binned now elapsed mode line w binned = (
    Keeps-after
        (serve_line-Keeps (λ k. k.vcm ≡ w.0.vcm) now elapsed mode line
          (λ k p. (follow_mode_keeps mode k).1 ∙ p) (λ k t p. p)
          (respond_binned (λ k. k.vcm ≡ w.0.vcm) now mode _ binned (λ k length lines p. p)))
        w refl,
    Keeps-after
        (serve_line-Keeps (λ k. k.live_eye_roi ≡ w.0.live_eye_roi) now elapsed mode line
          (λ k p. (follow_mode_keeps mode k).0 ∙ p) (λ k t p. p)
          (respond_binned (λ k. k.live_eye_roi ≡ w.0.live_eye_roi) now mode _ binned
            (λ k length lines p. p)))
        w refl,
  )
