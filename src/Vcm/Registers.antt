-- ===== src/Vcm/Registers.antt =====
-- The actuator as a file of registers, and the position that its two registers hold.
use podbay_camera_firmware.Prelude.{
  ℕ, suc, ◌+◌, ◌*◌, ◌/◌, ◌%◌, ◌≤◌, ◌≡◌, refl, [], ◌∷◌, ◌==◌, if◌then◌else◌, arith, ok,
}
use mathlib.Core.Path.{fun_ext}
use podbay_camera_firmware.Vcm.{
  written, wanted, I2cRdwr, read_register, read_position, write_position,
}

-- The documented behaviour of the actuator on the bus, while no transfer fails: a message of three
-- bytes sets the register that the first names and the one after it, a message of one byte before a
-- wanted byte reads that register, and a read changes none.
pub record PositionFile (bus : I2cRdwr) : Type 0 where
  pub content : bus.State → ℕ → ℕ
  pub after_write : ℕ → ℕ → ℕ → bus.State → bus.State
  pub after_read : ℕ → bus.State → bus.State
  pub write_ok :
      (r h l : ℕ) (s : bus.State)
      → bus.transact (written (r ∷ h ∷ l ∷ []) ∷ []) s ≡ (ok [], after_write r h l s)
  pub write_sets :
      (r h l : ℕ) (s : bus.State) (q : ℕ)
      → content (after_write r h l s) q
        ≡ (if q == suc r then l else if q == r then h else content s q)
  pub read_ok :
      (r : ℕ) (s : bus.State)
      → bus.transact (written (r ∷ []) ∷ wanted 1 ∷ []) s ≡ (ok (content s r ∷ []), after_read r s)
  pub read_keeps : (r : ℕ) (s : bus.State) (q : ℕ) → content (after_read r s) q ≡ content s q

-- The position in registers three and four.
abbrev pub position_of : (ℕ → ℕ) → ℕ
position_of registers = registers 3 % 4 * 256 + registers 4

module _ (bus : I2cRdwr) (file : PositionFile bus) where
  open bus use {State}
  open file use {content, after_write, after_read, write_ok, write_sets, read_ok, read_keeps}

  pub read_position_lem :
      (s : State)
      → (s' : State) × (read_position bus s ≡ (ok (position_of (content s)), s'))
        × (content s' ≡ content s)
  unfolding read_position read_register
  read_position_lem s = (
    after_read 4 (after_read 3 s),
    rw (read_ok 3 s, read_ok 4 (after_read 3 s), read_keeps 3 s 4) refl,
    fun_ext (λ q. rw (read_keeps 4 (after_read 3 s) q, read_keeps 3 s q) refl),
  )

  halves : (p : ℕ) → p ≤ 1023 → p / 256 % 4 % 4 * 256 + p % 256 ≡ p
  halves p h = omega arith

  pub write_position_lem :
      (p : ℕ) (s : State)
      → p ≤ 1023
      → (s' : State) × (write_position bus p s ≡ (ok tt, s')) × (position_of (content s') ≡ p)
  unfolding write_position
  write_position_lem p s h = (
    after_write 3 (p / 256 % 4) (p % 256) s,
    rw (write_ok 3 (p / 256 % 4) (p % 256) s) refl,
    rw (write_sets 3 (p / 256 % 4) (p % 256) s 3, write_sets 3 (p / 256 % 4) (p % 256) s 4)
        (halves p h),
  )
