-- ===== src/Control/Exposures.antt =====
-- The exposure that the control connection keeps.
use podbay_camera_firmware.Prelude.{
  ℕ, ◌+◌, ◌-◌, ◌==◌, max, ◌≤◌, ◌<◌, ◌≡◌, refl, inl, inr, Bool-cases, true, false, not, ◌&&◌, ltb,
  Option, none, some, List, sat_add, clamp, u16_max, arith, Result, ok, err,
}
use podbay_camera_firmware.Device.{M, I2c}
use podbay_camera_firmware.Device.Runs.{Keeps, Runs->>=, Runs-pure, Keeps-if}
use podbay_camera_firmware.Text.{Text, Signed, split_whitespace, parse_signed}
use podbay_camera_firmware.Config.{SensorMode}
use podbay_camera_firmware.Exposure.{pack}
use podbay_camera_firmware.Sensor.{clamp_coarse}
use podbay_camera_firmware.Sensor.Driver.{set_exposure, under_hold, exposure_registers}
use podbay_camera_firmware.Vcm.{I2cRdwr, Vcm}
use podbay_camera_firmware.Control.{LiveEyeRoi, Control, Response, disabled}
use podbay_camera_firmware.Control.Commands.{
  Command, ping, focus_get, exposure_get, unknown, focus_set, focus_step, exposure_set,
  exposure_step, roi_set, is_mutation, parse_command,
}
use podbay_camera_firmware.Control.Commands
use podbay_camera_firmware.Control.Server.{
  minimum_frame_length, mode_gain, with_exposure, follow_mode, same_mode, stepped, note_command,
}
use podbay_camera_firmware.Control.Handlers.{
  Shared, on_vcm, with_control, move_focus, step_focus, expose, set_regions, regions_of, placed,
  validate_regions, place_regions, run, respond, serve_line,
}
use podbay_camera_firmware.Control.Steps.{answer-Keeps, on_sensor-Keeps, update-Runs, parsed-Keeps}

-- An exposure that the sensor takes as it is, in a frame of 16 bits, and in the word that the other
-- threads read.
pub record IsExposing (k : Control) : Type 0 where
  pub positive : 1 ≤ k.exposure
  pub in_frame : k.exposure < k.frame_length
  pub in_word : k.frame_length ≤ 65_535
  pub shared :
      k.exposure_timing ≡ pack (record { frame_length = k.frame_length; coarse_lines = k.exposure })

-- A length for the mode that holds an exposure.
abbrev pub frame_for : SensorMode → ℕ → ℕ
frame_for mode next = max (minimum_frame_length mode) (sat_add u16_max next 1)

frame_for_bounds :
    (mode : SensorMode) (next : ℕ)
    → next ≤ 65_534
    → (next < frame_for mode next) × (frame_for mode next ≤ 65_535)
frame_for_bounds mode next small = elim (Bool-cases (mode.mode_binning == 1)) [
  | inl one ↦ rw one (omega arith, omega arith)
  | inr other ↦ rw other (omega arith, omega arith)
]

with_exposure-IsExposing :
    (mode : SensorMode) (next : ℕ) (k : Control)
    → 1 ≤ next
    → next ≤ 65_534
    → IsExposing (with_exposure (frame_for mode next) next k)
unfolding with_exposure
with_exposure-IsExposing mode next k positive small =
    let (in_frame, in_word) = frame_for_bounds mode next small in
    record { positive = positive; in_frame = in_frame; in_word = in_word; shared = refl }

follow_mode-IsExposing :
    (mode : SensorMode) (k : Control) → IsExposing k → IsExposing (follow_mode mode k)
unfolding follow_mode with_exposure
follow_mode-IsExposing mode k is = elim (Bool-cases (same_mode mode k.last_mode)) [
  | inl same ↦ rw same is
  | inr changed ↦ elim (Bool-cases (mode.mode_binning == 1)) [
    | inl one ↦
        rw (changed, one)
          (record {
            positive = omega arith;
            in_frame = omega arith;
            in_word = omega arith;
            shared = refl;
          })
    | inr other ↦
        rw (changed, other)
          (record {
            positive = omega arith;
            in_frame = omega arith;
            in_word = omega arith;
            shared = refl;
          })
  ]
]

-- The exposures of the two commands.
clamp_bounds : (v : ℕ) → (1 ≤ clamp 1 65_534 v) × (clamp 1 65_534 v ≤ 65_534)
clamp_bounds v = (omega arith, omega arith)

stepped_bounds :
    (current : ℕ) (delta : Signed)
    → (1 ≤ stepped 1 65_534 current delta) × (stepped 1 65_534 current delta ≤ 65_534)
stepped_bounds current (true, n) = clamp_bounds (current - n)
stepped_bounds current (false, n) = clamp_bounds (current + n)

placed-IsExposing :
    (valid : Result (Unit {0})) (regions : LiveEyeRoi) (k : Control)
    → IsExposing k
    → IsExposing (placed valid regions k).1
unfolding placed
placed-IsExposing (err e) regions k p = p
placed-IsExposing (ok _) regions k p = record {
  positive = p.positive;
  in_frame = p.in_frame;
  in_word = p.in_word;
  shared = p.shared;
}

place_regions-IsExposing :
    (mode : SensorMode) (regions : Option LiveEyeRoi) (k : Control)
    → IsExposing k
    → IsExposing (place_regions mode regions k).1
unfolding place_regions
place_regions-IsExposing mode none k p = p
place_regions-IsExposing mode (some regions) k p =
    placed-IsExposing (validate_regions mode regions) regions k p

module _ (lens : I2cRdwr) (bus : I2c) where
  abbrev pub Exposing : Shared lens bus → Type 0
  Exposing w = IsExposing w.0

  on_vcm-Exposing : {A : Type 0} (m : M (Vcm × lens.State) A) → Keeps Exposing (on_vcm lens bus m)
  unfolding on_vcm
  on_vcm-Exposing m = record {
    done = λ w a p r. record {
      positive = p.positive;
      in_frame = p.in_frame;
      in_word = p.in_word;
      shared = p.shared;
    };
    failed = λ w e p r. record {
      positive = p.positive;
      in_frame = p.in_frame;
      in_word = p.in_word;
      shared = p.shared;
    };
  }

  expose-Exposing :
      (mode : SensorMode) (next : ℕ)
      → 1 ≤ next
      → next ≤ 65_534
      → Keeps Exposing (expose lens bus mode next)
  unfolding expose
  expose-Exposing mode next positive small = answer-Keeps lens bus _ (
      Runs->>= (on_sensor-Keeps lens bus IsExposing _) (λ _.
        Runs->>=
          (update-Runs lens bus IsExposing IsExposing _
            (λ k p. with_exposure-IsExposing mode next k positive small))
          (λ _. Runs-pure _)))

  set_regions-Exposing :
      (mode : SensorMode) (values : List ℕ) → Keeps Exposing (set_regions lens bus mode values)
  unfolding set_regions
  set_regions-Exposing mode values = record {
    done = λ w a p r. place_regions-IsExposing mode (regions_of values) w.0 p;
    failed = λ w e p r. cc;
  }

  run-Exposing :
      (now : ℕ) (mode : SensorMode) (command : Command)
      → Keeps Exposing (run lens bus now mode command)
  unfolding run move_focus step_focus with_control
  run-Exposing now mode ping = Runs-pure _
  run-Exposing now mode focus_get = answer-Keeps lens bus _ (on_vcm-Exposing _)
  run-Exposing now mode Commands.focus_status = answer-Keeps lens bus _ (on_vcm-Exposing _)
  run-Exposing now mode (focus_set value) =
      parsed-Keeps lens bus _ (λ position. answer-Keeps lens bus _ (on_vcm-Exposing _))
  run-Exposing now mode (focus_step value) = parsed-Keeps lens bus _ (λ delta.
      answer-Keeps lens bus _ (
        Runs->>= (on_vcm-Exposing _)
          (λ current. Runs->>= (on_vcm-Exposing _) (λ readback. Runs-pure _))))
  run-Exposing now mode exposure_get = record { done = λ w a p r. p; failed = λ w e p r. p }
  run-Exposing now mode (exposure_set value) =
      parsed-Keeps lens bus _
        (λ requested. let (low, high) = clamp_bounds requested in expose-Exposing mode _ low high)
  run-Exposing now mode (exposure_step value) =
      parsed-Keeps lens bus (parse_signed 2_147_483_648 2_147_483_647 value) (λ delta. record {
        done = λ w a p r.
            let (low, high) = stepped_bounds w.0.exposure delta in
            (expose-Exposing mode (stepped 1 65_534 w.0.exposure delta) low high).done w a p r;
        failed = λ w e p r.
            let (low, high) = stepped_bounds w.0.exposure delta in
            (expose-Exposing mode (stepped 1 65_534 w.0.exposure delta) low high).failed w e p r;
      })
  run-Exposing now mode (roi_set values) =
      parsed-Keeps lens bus _ (λ numbers. set_regions-Exposing mode numbers)
  run-Exposing now mode unknown = Runs-pure _

  noted-IsExposing :
      (elapsed : ℕ) (fields : List Text) (response : Response) (k : Control)
      → IsExposing k
      → IsExposing (record k { telemetry = note_command elapsed fields response k.telemetry })
  noted-IsExposing elapsed fields response k p = record {
    positive = p.positive;
    in_frame = p.in_frame;
    in_word = p.in_word;
    shared = p.shared;
  }

  -- Whatever line comes in, in whatever mode and on whatever buses, the exposure stays one that the sensor
  -- takes as it is: at least a line and shorter than its frame, which fits its register, and the other
  -- threads read the same exposure and frame.
  pub serve_line-IsExposing :
      (now elapsed : ℕ) (mode : SensorMode) (line : Text)
      → Keeps Exposing (serve_line lens bus now elapsed mode line)
  unfolding serve_line respond
  serve_line-IsExposing now elapsed mode line =
      Runs->>=
        (update-Runs lens bus IsExposing IsExposing _ (λ k p. follow_mode-IsExposing mode k p))
        (λ _.
          Runs->>=
            (Keeps-if (not (mode.mode_binning == 1) && is_mutation (split_whitespace line))
              (Runs-pure disabled) (run-Exposing now mode (parse_command (split_whitespace line))))
            (λ response.
              Runs->>=
                (update-Runs lens bus IsExposing IsExposing _
                  (λ k p. noted-IsExposing elapsed (split_whitespace line) response k p))
                (λ _. Runs-pure response)))

  -- An exposure that a command sets reaches the sensor as it is: the driver does not clip it.
  pub exposure_unclipped :
      (mode : SensorMode) (next : ℕ) (b : bus.State)
      → 1 ≤ next
      → next ≤ 65_534
      → set_exposure bus (frame_for mode next) next (mode_gain mode) b
        ≡ under_hold bus (exposure_registers (frame_for mode next) next (mode_gain mode)) b
  unfolding set_exposure clamp_coarse
  exposure_unclipped mode next b positive small =
      let (in_frame, in_word) = frame_for_bounds mode next small in
      let enough : ltb (frame_for mode next - 1) 1 ≡ false = ground arith in
      let kept : clamp 1 (frame_for mode next - 1) next ≡ next = omega arith in
      rw (enough, kept) refl
