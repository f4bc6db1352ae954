-- ===== src/Prelude/Results.antt =====
-- Fallible results. An error keeps the kind of the message that the source formats, and of its
-- parameters those that the theorems speak of.
use mathlib.Core.Bool.{Bool, true, false}
use Prim.Native.Nat.{ℕ}

pub data Error : Type 0 where
  -- configuration
  null_unavailable crop_binning crop_alignment tile_geometry frame_length_short : Error
  binning_unsupported scale_unsupported origin_alignment origin_outside : Error
  -- requests
  context_disabled_geometry context_geometry capture_format : Error
  eye_binning eye_alignment eye_outside : Error
  -- images
  crop_outside thumbnail_geometry strobe_geometry resize_geometry raw10_short : Error
  tracking_geometry tracking_scale : Error
  -- devices: the error code of a transfer, or the result of an MI call
  transfer : ℕ → Error
  mi_failed : ℕ → Error
  attestation : ℕ → ℕ → ℕ → Error  -- register, value read, value wanted
  mode_unsupported live_geometry sensor_closed graph_not_live bad_descriptor : Error
  position_outside : Error
  -- frames: the last result of the MI call, and what is refused of a buffer
  frame_timeout : ℕ → Error
  pixel_format_changed compressed_frame frame_geometry_changed bad_buffer fixed_origin : Error
  eye_precedes_band eye_exceeds_band : Error
  -- captures of the whole sensor; an error that keeps another is a message that quotes it
  coarse_band scan_band scan_geometry : Error
  scan_row_missing : ℕ → Error
  retune_failed restore_failed : Error → Error
  rollback_failed capture_and_restore_failed : Error → Error → Error
  -- texts that are not the number that is asked for, and arguments
  invalid_number missing_value unknown_argument invalid_size help_requested : Error
  -- the cadence of a stream of eyes: the intervals wanted in a second, and the nanoseconds that they took
  cadence_missed : ℕ → ℕ → Error
  -- the fuel of a waiting loop has run out, which the source does not know
  out_of_fuel : Error
  -- the source panics: an index or a range that lies outside a slice
  panic : Error

-- `Result<A, String>`
pub data Result {ℓ} (A : Type ℓ) : Type ℓ where
  err : Error → Result A
  ok : A → Result A

-- `?` and what follows it.
abbrev pub ◌>>=◌ {ℓ κ} : {A : Type ℓ} {C : Type κ} → Result A → (A → Result C) → Result C
err failure >>= next = err failure
ok value >>= next = next value

abbrev pub ◌>>◌ {ℓ} : {C : Type ℓ} → Result (Unit {0}) → Result C → Result C
first >> second = first >>= λ _. second

infixl 5 ◌>>=◌ ◌>>◌
-- `if test { return Err(e) }`
abbrev pub fail_if : Bool → Error → Result (Unit {0})
fail_if true e = err e
fail_if false e = ok tt

-- `first.and(second)`: the second result, unless the first is an error.
abbrev pub and_result : Result (Unit {0}) → Result (Unit {0}) → Result (Unit {0})
and_result (ok _) second = second
and_result (err e) second = err e
