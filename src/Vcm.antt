-- ===== src/Vcm.antt =====
-- The lens actuator of camera-service/src/main.rs: `Vcm`, a GT97xx behind the I2C_RDWR transfers of the
-- kernel. An `Instant` and a `Duration` are numbers of nanoseconds, and the clock's reading is an
-- argument. The pauses of `open` are left out.
mod Registers
pub mod Focus
mod Tests
use podbay_camera_firmware.Prelude.{
  ℕ, ◌+◌, ◌-◌, ◌*◌, ◌/◌, ◌%◌, Bool, Option, none, some, List, [], ◌∷◌, ltb, leb, ◌==◌, ◌&&◌, as_u64,
  abs_diff, min, get_or, Result, ok, err, Error, fail_if, position_outside,
}
use mathlib.Core.Option
use podbay_camera_firmware.Device.{M, ◌>>=◌, ◌>>◌, pure, lift, continue}

-- One message to the actuator: bytes to write, or a number of bytes to read.
pub data I2cMessage : Type 0 where
  written : List ℕ → I2cMessage
  wanted : ℕ → I2cMessage

-- The open bus: one transfer of messages, and the bytes that it read.
pub record I2cRdwr : Type 1 where
  pub State : Type 0
  pub transact : List I2cMessage → M State (List ℕ)

pub record Vcm : Type 0 where
  pub last_position : Option ℕ
  pub target_position : Option ℕ
  pub settle_deadline : Option ℕ
  pub generation : ℕ  -- u64

pub record FocusStatus : Type 0 where
  pub target : ℕ
  pub readback : ℕ
  pub settled : Bool
  pub remaining_ms : ℕ
  pub status_generation : ℕ

abbrev pub nanoseconds_per_ms : ℕ
nanoseconds_per_ms = 1_000_000

-- VCM_SETTLE_BASE_MS
abbrev pub vcm_settle_base_ms : ℕ
vcm_settle_base_ms = 250

unfoldable pub vcm_settle_duration : ℕ → ℕ → ℕ
vcm_settle_duration from to = (vcm_settle_base_ms + abs_diff from to / 4) * nanoseconds_per_ms

abbrev pub new_vcm : Vcm
new_vcm = record {
  last_position = none;
  target_position = none;
  settle_deadline = none;
  generation = 0;
}

-- The fields that `set_position` assigns once the write is done.
unfoldable pub moved : ℕ → ℕ → ℕ → Vcm → Vcm
moved from position now vcm = record vcm {
  last_position = some position;
  target_position = some position;
  generation = as_u64 (vcm.generation + 1);
  settle_deadline = some (now + vcm_settle_duration from position);
}

-- `deadline.saturating_duration_since(now)`, zero without a deadline; `-` stops at 0.
unfoldable pub remaining : Vcm → ℕ → ℕ
remaining vcm now = Option.get_or (Option.map (λ deadline. deadline - now) vcm.settle_deadline) 0

unfoldable pub status_of : Vcm → ℕ → ℕ → FocusStatus
status_of vcm readback now =
    let target = Option.get_or vcm.target_position readback in
    record {
      target = target;
      readback = readback;
      settled = (remaining vcm now == 0) && (readback == target);
      remaining_ms = min (remaining vcm now / nanoseconds_per_ms) 18_446_744_073_709_551_615;  -- u64
      status_generation = vcm.generation;
    }

-- `result.ok()`
unfoldable pub attempted : {S A : Type 0} → Result A × S → Result (Option A) × S
attempted (ok a, s) = (ok (some a), s)
attempted (err e, s) = (ok none, s)

-- `or_else(|error| last.ok_or(error))`
unfoldable pub or_last : {S : Type 0} → Option ℕ → Result ℕ × S → Result ℕ × S
or_last last (ok a, s) = (ok a, s)
or_last (some a) (err e, s) = (ok a, s)
or_last none (err e, s) = (err e, s)

-- `first.or(second).unwrap_or(default)`
unfoldable pub first_of : Option ℕ → Option ℕ → ℕ → ℕ
first_of (some a) second default = a
first_of none second default = Option.get_or second default

module _ (bus : I2cRdwr) where
  open bus use {State, transact}

  unfoldable pub write_register : ℕ → ℕ → M State (Unit {0})
  write_register register value = do _ ← transact (written (register ∷ value ∷ []) ∷ []); pure tt

  unfoldable pub read_register : ℕ → M State ℕ
  read_register register = do
    bytes ← transact (written (register ∷ []) ∷ wanted 1 ∷ [])
    pure (get_or bytes 0 0)

  -- The ten bits of the position; `|` of two disjoint parts is a sum.
  unfoldable pub read_position : M State ℕ
  read_position = do
    high ← read_register 0x03
    low ← read_register 0x04
    pure (high % 4 * 256 + low)

  unfoldable pub write_position : ℕ → M State (Unit {0})
  write_position position = do
    _ ← transact (written (0x03 ∷ position / 256 % 4 ∷ position % 256 ∷ []) ∷ [])
    pure tt

  -- The fields of the actuator stand beside the state of the bus.
  unfoldable pub on_bus : {A : Type 0} → M State A → M (Vcm × State) A
  on_bus m (vcm, s) = let (r, s') = m s in (r, (vcm, s'))

  unfoldable pub try : {A : Type 0} → M (Vcm × State) A → M (Vcm × State) (Option A)
  unfolding attempted
  try m s = attempted (m s)

  unfoldable pub update_vcm : (Vcm → Vcm) → M (Vcm × State) (Unit {0})
  update_vcm f (vcm, s) = (ok tt, (f vcm, s))

  unfoldable pub last_or : Option ℕ → ℕ → M (Vcm × State) ℕ
  last_or read default (vcm, s) = (ok (first_of read vcm.last_position default), (vcm, s))

  -- `open`, once the file is open and the fields are blank.
  unfoldable pub start : M (Vcm × State) (Unit {0})
  start = do
    _ ← on_bus (read_register 0x00)
    on_bus (write_register 0x02 0x00)
    on_bus (write_register 0x02 0x02)
    found ← try (on_bus read_position)
    update_vcm (λ vcm. record vcm { last_position = found; target_position = found })

  unfoldable pub open_vcm : M State Vcm
  open_vcm s = let (r, (vcm, s')) = start (new_vcm, s) in continue (λ _. pure vcm) (r, s')

  unfoldable pub set_position : ℕ → ℕ → M (Vcm × State) ℕ
  set_position position now = do
    lift (fail_if (ltb 1023 position) position_outside)
    read ← try (on_bus read_position)
    from ← last_or read position
    on_bus (write_position position)
    update_vcm (moved from position now)
    after ← try (on_bus read_position)
    pure (Option.get_or after position)

  unfoldable pub report : ℕ → Vcm → Result ℕ × State → Result FocusStatus × (Vcm × State)
  report now vcm (ok readback, s) = (ok (status_of vcm readback now), (vcm, s))
  report now vcm (err e, s) = (err e, (vcm, s))

  unfoldable pub focus_status : ℕ → M (Vcm × State) FocusStatus
  unfolding report
  focus_status now (vcm, s) = report now vcm (or_last vcm.last_position (read_position s))
