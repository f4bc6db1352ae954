-- ===== src/Sensor/Attest.antt =====
-- The modes that the driver programs are the modes that it attests.
use podbay_camera_firmware.Prelude.{ℕ, ◌≡◌, false, not, ◌==◌, arith, ok}
use podbay_camera_firmware.Device.{I2c}
use podbay_camera_firmware.Config.{Geometry, validate_origin}
use podbay_camera_firmware.Config.Valid.{Fits, validate_origin_iff}
use podbay_camera_firmware.Sensor.{full_raw_registers, full_raw_expected}
use podbay_camera_firmware.Sensor.Driver.{apply_full_raw_mode, verify_full_raw_mode, attest}
use podbay_camera_firmware.Sensor.Registers.{
  RegisterFile, Holds, AllWords, assign, write_all_lem, attest_lem, attest-Holds,
}

full_raw_Holds :
    (g : Geometry) (x y : ℕ) (registers : ℕ → ℕ)
    → Holds (full_raw_expected g x y) (assign (full_raw_registers g x y) registers)
unfolding full_raw_expected full_raw_registers
full_raw_Holds g x y registers = omega arith

full_raw_AllWords :
    (g : Geometry) (x y : ℕ)
    → AllWords (full_raw_expected g x y) × AllWords (full_raw_registers g x y)
unfolding full_raw_expected full_raw_registers
full_raw_AllWords g x y = omega arith

module _ (bus : I2c) (file : RegisterFile bus) where
  open bus use {State}
  open file use {content}

  -- On a sensor that keeps its registers, programming the physical 1x1 mode of a geometry that fits
  -- succeeds from every state, and its attestation then succeeds.
  pub apply-verify_full_raw_mode :
      (g : Geometry) (x y : ℕ) (s : State)
      → g.binning ≡ 1
      → Fits g x y
      → (s' s'' : State) × (apply_full_raw_mode bus g x y s ≡ (ok tt, s'))
        × (verify_full_raw_mode bus g x y s' ≡ (ok tt, s''))
  unfolding apply_full_raw_mode verify_full_raw_mode
  apply-verify_full_raw_mode g x y s one fits =
      let (words, words') = full_raw_AllWords g x y in
      let (t, programmed, set) = write_all_lem bus file (full_raw_registers g x y) s words' in
      let (u, attested, _) =
        attest_lem bus file (full_raw_expected g x y) t words
          (rw set (full_raw_Holds g x y (content s))) in
      let valid = (validate_origin_iff g x y).1 fits in
      let single : not (g.binning == 1) ≡ false = ground arith in
      (t, u, rw (single, valid) programmed, rw (single, valid) attested)

  -- On a sensor that keeps its registers, the attestation of the physical 1x1 mode succeeds only if
  -- the geometry is unbinned and fits, and every register of the table holds the value wanted.
  pub verify_full_raw_mode_sound :
      (g : Geometry) (x y : ℕ) (s : State)
      → (verify_full_raw_mode bus g x y s).0 ≡ ok tt
      → (g.binning ≡ 1) × Fits g x y × Holds (full_raw_expected g x y) (content s)
  unfolding verify_full_raw_mode
  verify_full_raw_mode_sound g x y s e =
      let (single, origin, found) = verified e in
      (
        single,
        (validate_origin_iff g x y).0 origin,
        attest-Holds bus file (full_raw_expected g x y) s (full_raw_AllWords g x y).0 found,
      )
    where
      verified :
          (verify_full_raw_mode bus g x y s).0 ≡ ok tt
          → (g.binning ≡ 1)
            × (validate_origin g x y ≡ ok tt)
            × ((attest bus (full_raw_expected g x y) s).0 ≡ ok tt)
      verified e = ground arith
