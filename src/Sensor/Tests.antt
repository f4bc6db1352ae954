-- ===== src/Sensor/Tests.antt =====
-- A bus with a sensor that keeps its registers, one whose transfers fail, and the theorems on them.
use podbay_camera_firmware.Prelude.{
  ℕ, ◌+◌, ◌*◌, ◌≡◌, refl, List, [], ◌∷◌, ◌==◌, if◌then◌else◌, arith, ok, err, transfer,
}
use podbay_camera_firmware.Device.{M, I2c}
use podbay_camera_firmware.Config.{
  Config, default_config, Geometry, geometry_of, physical_width, physical_height,
}
use podbay_camera_firmware.Sensor.{
  full_raw_registers, geometry_registers, full_raw_expected, clamp_coarse,
}
use podbay_camera_firmware.Sensor.Driver.{
  write_register, verify_full_raw_mode, verify_scaled_global_mode, apply_full_raw_mode,
  set_origin_live, set_exposure, prepare_geometry_live, restart_geometry_live, checked_physical,
  is_not_live, exceeds_array, write_all,
}
use podbay_camera_firmware.Sensor.Registers.{RegisterFile, update, assign}
use podbay_camera_firmware.Sensor.Attest.{apply-verify_full_raw_mode}
use podbay_camera_firmware.Sensor.Live.{set_origin_live-attested}
use podbay_camera_firmware.Sensor.Retune.{retune_fine-attested, retune_scaled-attested}
use podbay_camera_firmware.Sensor.Hold.{Released, changes-Released, prepare_geometry_live_restarts}

-- The registers and the one selected.
abbrev Chip : Type 0
Chip = (ℕ → ℕ) × ℕ

abbrev chip_send : List ℕ → M Chip (Unit {0})
chip_send (h ∷ l ∷ v ∷ []) (registers, selected) =
    (ok tt, (update registers (h * 256 + l) v, selected))
chip_send (h ∷ l ∷ []) (registers, selected) = (ok tt, (registers, h * 256 + l))
chip_send _ s = (err (transfer 5), s)

abbrev chip_receive : M Chip ℕ
chip_receive (registers, selected) = (ok (registers selected), (registers, selected))

abbrev chip_bus : I2c
chip_bus = record { State = Chip; send = chip_send; receive = chip_receive }

abbrev chip_file : RegisterFile chip_bus
chip_file = record {
  content = λ s. s.0;
  after_write = λ h l v s. (update s.0 (h * 256 + l) v, s.1);
  after_read = λ h l s. (s.0, h * 256 + l);
  write_ok = λ h l v s. refl;
  write_sets = λ h l v s r. refl;
  read_ok = λ h l s. refl;
  read_keeps = λ h l s r. refl;
}

abbrev blank : Chip
blank = ((λ r. 0), 0)

abbrev eye_band : Geometry
eye_band = record { width = 7680; height = 576; binning = 1; scale = 1 }

apply-verify_full_raw_mode_example :
    (s' s'' : Chip) × (apply_full_raw_mode chip_bus eye_band 160 2712 blank ≡ (ok tt, s'))
    × (verify_full_raw_mode chip_bus eye_band 160 2712 s' ≡ (ok tt, s''))
unfolding physical_width physical_height
apply-verify_full_raw_mode_example =
    apply-verify_full_raw_mode chip_bus chip_file eye_band 160 2712 blank refl (omega arith)

-- The sensor as `apply_full_raw_mode` leaves it.
abbrev running : Chip
running = (assign (full_raw_registers eye_band 160 2712) (λ r. 0), 0)

set_origin_live-attested_example :
    (s' s'' : Chip) × (set_origin_live chip_bus eye_band 160 2000 running ≡ (ok tt, s'))
    × (verify_full_raw_mode chip_bus eye_band 160 2000 s' ≡ (ok tt, s''))
unfolding full_raw_registers full_raw_expected physical_width physical_height
set_origin_live-attested_example =
    set_origin_live-attested chip_bus chip_file eye_band 160 2712 160 2000 running refl refl
      (omega arith) (omega arith)

retune_fine-attested_example :
    (s₁ s₂ s₃ : Chip) × (prepare_geometry_live chip_bus default_config running
      ≡ (ok (geometry_of default_config), s₁))
    × (restart_geometry_live chip_bus s₁ ≡ (ok tt, s₂))
    × (verify_full_raw_mode chip_bus (geometry_of default_config) 3500 2500 s₂ ≡ (ok tt, s₃))
unfolding full_raw_registers
retune_fine-attested_example =
    retune_fine-attested chip_bus chip_file default_config running refl (omega arith) refl
      (omega arith)

abbrev scaled : Config
scaled = record default_config {
  tile_width = 1000;
  tile_height = 750;
  initial_x = 0;
  initial_y = 0;
  sensor_binning = 4;
  sensor_scale = 2;
}

retune_scaled-attested_example :
    (s₁ s₂ s₃ : Chip) × (prepare_geometry_live chip_bus scaled running
      ≡ (ok (geometry_of scaled), s₁))
    × (restart_geometry_live chip_bus s₁ ≡ (ok tt, s₂))
    × (verify_scaled_global_mode chip_bus (geometry_of scaled) s₂ ≡ (ok tt, s₃))
retune_scaled-attested_example =
    retune_scaled-attested chip_bus chip_file scaled running refl (omega arith) refl refl refl refl
      refl refl

-- A bus on which only the first transfer succeeds.
abbrev failing_bus : I2c
failing_bus = record {
  State = ℕ;
  send = λ message n. if n == 0 then (ok tt, 1) else (err (transfer 5), n + 1);
  receive = λ n. (err (transfer 5), n + 1);
}

changes-Released_example :
    Released failing_bus (set_exposure failing_bus 700 650 994 0)
    × Released failing_bus (set_origin_live failing_bus eye_band 160 2000 0)
unfolding write_register clamp_coarse physical_width physical_height
changes-Released_example =
    changes-Released failing_bus eye_band 160 2000 700 650 994 650 0 1 refl refl (omega arith)

prepare_geometry_live_restarts_example :
    (before : ℕ) × ((prepare_geometry_live failing_bus default_config 0).1
      ≡ (write_register failing_bus 0x0100 0x01 before).1)
unfolding write_register clamp_coarse is_not_live checked_physical exceeds_array
    prepare_geometry_live write_all geometry_registers
prepare_geometry_live_restarts_example =
    prepare_geometry_live_restarts failing_bus default_config 1000 1000 650 (transfer 5) 0 1 refl
      refl refl refl refl refl refl
