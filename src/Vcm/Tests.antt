-- ===== src/Vcm/Tests.antt =====
-- An actuator that keeps its registers, one that nothing answers for, and the theorems on them.
use podbay_camera_firmware.Prelude.{
  ℕ, suc, ◌+◌, ◌*◌, ◌/◌, ◌≤◌, ◌≡◌, ◌↔◌, refl, true, List, [], ◌∷◌, ◌==◌, if◌then◌else◌, arith,
  abs_diff, ok, err, transfer,
}
use podbay_camera_firmware.Device.{M}
use podbay_camera_firmware.Vcm.{
  new_vcm, FocusStatus, I2cMessage, written, wanted, I2cRdwr, moved, set_position, focus_status,
}
use podbay_camera_firmware.Vcm.Registers.{PositionFile, position_of}
use podbay_camera_firmware.Vcm.Focus.{
  Commits, set_position-Commits, set_position-reads_back, focus_status_after_move,
}

abbrev sets : ℕ → ℕ → ℕ → (ℕ → ℕ) → ℕ → ℕ
sets r h l registers q = if q == suc r then l else if q == r then h else registers q

abbrev chip_transact : List I2cMessage → M (ℕ → ℕ) (List ℕ)
chip_transact (written (r ∷ h ∷ l ∷ []) ∷ []) registers = (ok [], sets r h l registers)
chip_transact (written (r ∷ []) ∷ wanted _ ∷ []) registers = (ok (registers r ∷ []), registers)
chip_transact _ registers = (err (transfer 22), registers)

abbrev chip_bus : I2cRdwr
chip_bus = record { State = ℕ → ℕ; transact = chip_transact }

abbrev chip_file : PositionFile chip_bus
chip_file = record {
  content = λ s. s;
  after_write = λ r h l s. sets r h l s;
  after_read = λ r s. s;
  write_ok = λ r h l s. refl;
  write_sets = λ r h l s q. refl;
  read_ok = λ r s. refl;
  read_keeps = λ r s q. refl;
}

-- No transfer succeeds.
abbrev dead_bus : I2cRdwr
dead_bus = record { State = Unit {0}; transact = λ messages s. (err (transfer 6), s) }

-- The lens stands at 512.
abbrev halfway : ℕ → ℕ
halfway = sets 3 2 0 (λ r. 0)

set_position-Commits_example : Commits new_vcm 700 5 (set_position dead_bus 700 5 (new_vcm, tt))
set_position-Commits_example = set_position-Commits dead_bus new_vcm 700 5 tt

set_position-reads_back_example :
    (s' : ℕ → ℕ) × (set_position chip_bus 700 5 (new_vcm, halfway)
      ≡ (ok 700, (moved 512 700 5 new_vcm, s')))
    × (position_of s' ≡ 700)
set_position-reads_back_example =
    set_position-reads_back chip_bus chip_file new_vcm 700 5 halfway (omega arith)

focus_status_after_move_example :
    (status : FocusStatus) × (s' : ℕ → ℕ) × ((focus_status chip_bus 300_000_005
        (set_position chip_bus 700 5 (new_vcm, halfway)).1).0
      ≡ ok status)
    × (status.target ≡ 700)
    × (status.readback ≡ 700)
    × ((status.settled ≡ true) ↔ (5 + (250 + abs_diff 512 700 / 4) * 1_000_000 ≤ 300_000_005))
focus_status_after_move_example =
    focus_status_after_move chip_bus chip_file new_vcm 700 5 300_000_005 halfway (omega arith)
