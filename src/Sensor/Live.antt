-- ===== src/Sensor/Live.antt =====
-- Changes of a running sensor: a moved origin, and a new geometry.
use podbay_camera_firmware.Prelude.{ℕ, ◌%◌, ◌^◌, ◌≡◌, ap, ◌∙◌, false, not, List, ◌==◌, arith, ok}
use podbay_camera_firmware.Device.{I2c}
use podbay_camera_firmware.Config.{Geometry, physical_width, physical_height}
use podbay_camera_firmware.Config.Valid.{Fits, validate_origin_iff}
use podbay_camera_firmware.Sensor.{full_raw_expected, origin_registers}
use podbay_camera_firmware.Sensor.Driver.{verify_full_raw_mode, set_origin_live, under_hold}
use podbay_camera_firmware.Sensor.Registers.{
  RegisterFile, Holds, AllWords, assign, update, write_register_lem, write_all_lem, attest_lem,
}

physical_plain :
    (g : Geometry)
    → g.binning ≡ 1
    → g.scale ≡ 1
    → (physical_width g ≡ g.width % 2 ^ 32) × (physical_height g ≡ g.height % 2 ^ 32)
unfolding physical_width physical_height
physical_plain g b s = rw (b, s) (omega arith)

origin_Holds :
    (g : Geometry) (x y x' y' : ℕ) (registers : ℕ → ℕ)
    → g.binning ≡ 1
    → g.scale ≡ 1
    → Holds (full_raw_expected g x y) registers
    → Holds
        (full_raw_expected g x' y')
        (update (assign (origin_registers g x' y') (update registers 0x0104 0x01)) 0x0104 0x00)
unfolding full_raw_expected origin_registers
origin_Holds g x y x' y' registers b s h = omega (arith, physical_plain g b s)

origin_AllWords :
    (g : Geometry) (x y : ℕ)
    → AllWords (origin_registers g x y) × AllWords (full_raw_expected g x y)
unfolding full_raw_expected origin_registers
origin_AllWords g x y = omega arith

module _ (bus : I2c) (file : RegisterFile bus) where
  open bus use {State}
  open file use {content}

  under_hold_lem :
      (table : List (ℕ × ℕ)) (s : State)
      → AllWords table
      → (s' : State) × (under_hold bus table s ≡ (ok tt, s'))
        × (content s' ≡ update (assign table (update (content s) 0x0104 0x01)) 0x0104 0x00)
  unfolding under_hold
  under_hold_lem table s words =
      let (t, held, set) = write_register_lem bus file 0x0104 0x01 s (omega arith) in
      let (u, written, table_set) = write_all_lem bus file table t words in
      let (v, released, cleared) = write_register_lem bus file 0x0104 0x00 u (omega arith) in
      (
        v,
        rw (held, written, released),
        cleared ∙ ap (λ f. update f 0x0104 0x00) (table_set ∙ ap (assign table) set),
      )

  -- On a sensor that keeps its registers and runs in the attested physical 1x1 mode, moving the origin
  -- to one that fits succeeds, and the attestation at the new origin then succeeds.
  pub set_origin_live-attested :
      (g : Geometry) (x y x' y' : ℕ) (s : State)
      → g.binning ≡ 1
      → g.scale ≡ 1
      → Holds (full_raw_expected g x y) (content s)
      → Fits g x' y'
      → (s' s'' : State) × (set_origin_live bus g x' y' s ≡ (ok tt, s'))
        × (verify_full_raw_mode bus g x' y' s' ≡ (ok tt, s''))
  unfolding set_origin_live verify_full_raw_mode
  set_origin_live-attested g x y x' y' s one single held fits =
      let (words, words') = origin_AllWords g x' y' in
      let (t, moved, set) = under_hold_lem (origin_registers g x' y') s words in
      let (u, attested, _) =
        attest_lem bus file (full_raw_expected g x' y') t words'
          (rw set (origin_Holds g x y x' y' (content s) one single held)) in
      let valid = (validate_origin_iff g x' y').1 fits in
      let unbinned : not (g.binning == 1) ≡ false = ground arith in
      (t, u, rw valid moved, rw (unbinned, valid) attested)
