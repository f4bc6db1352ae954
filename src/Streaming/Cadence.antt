-- ===== src/Streaming/Cadence.antt =====
-- How many sets a second a stream must keep up with.
use podbay_camera_firmware.Prelude.{
  ℕ, ◌+◌, ◌-◌, ◌*◌, ◌/◌, max, ◌==◌, ◌≤◌, ◌<◌, ◌≡◌, Bool-cases, inl, inr, List, [], ◌∷◌, length, ltb,
  leb, clamp, arith, if◌then◌else◌, Result, ok, err, cadence_missed,
}
use native.Mathlib.Nat.{div-add-mod, mod-lt}
use podbay_camera_firmware.Config.{fine_frame_length}
use podbay_camera_firmware.Exposure.{unpack}

-- MIN_RAW_ROI_SETS_PER_SECOND
abbrev pub min_sets_per_second : ℕ
min_sets_per_second = 10

-- MIN_LONG_EXPOSURE_RAW_ROI_SETS_PER_SECOND
abbrev pub min_long_exposure_sets_per_second : ℕ
min_long_exposure_sets_per_second = 2

unfoldable pub cadence_frame_length : ℕ → ℕ
cadence_frame_length word = max (unpack word).frame_length fine_frame_length

-- `(10 * 700).div_ceil(frame_length).clamp(2, 10)`
unfoldable pub required_sets : ℕ → ℕ
required_sets frame_length =
    clamp min_long_exposure_sets_per_second min_sets_per_second
      ((min_sets_per_second * fine_frame_length + (frame_length - 1)) / frame_length)

-- `while completed_sets.len() > window { pop_front }`
unfoldable pub trim : ℕ → List ℕ → List ℕ
trim window [] = []
trim window (x ∷ xs) =
    let rest = trim window xs in if leb (length (x ∷ xs)) window then x ∷ xs else rest

abbrev pub nanoseconds_per_second : ℕ
nanoseconds_per_second = 1_000_000_000

abbrev pub span_of : List ℕ → ℕ → ℕ
span_of [] completed = 0
span_of (first ∷ rest) completed = completed - first

-- The test of the last intervals, once there are enough of them.
unfoldable pub check_cadence : ℕ → List ℕ → ℕ → Result (Unit {0})
check_cadence required sets completed =
    let span = span_of sets completed in
    if length sets == required + 1
    then (if ltb nanoseconds_per_second span then err (cadence_missed required span) else ok tt)
    else ok tt

ceiling : (n d : ℕ) → 0 < d → (n ≤ (n + (d - 1)) / d * d) × ((n + (d - 1)) / d * d < n + d)
ceiling n d positive =
    let whole = div-add-mod (n + (d - 1)) d in
    let rest = mod-lt (n + (d - 1)) positive in
    (omega (arith, whole, rest), omega (arith, whole, rest))

scaled : (a b d : ℕ) → a ≤ b → a * d ≤ b * d
scaled a b d h = grind arith

few_sets : (q d : ℕ) → 700 ≤ d → q * d < 7000 + d → q ≤ 10
few_sets q d long below = elim (Bool-cases (leb q 10)) [
  | inl few ↦ ground arith
  | inr many ↦ let product = scaled 11 q d (ground arith) in absurd (omega arith)
]

some_sets : (q d : ℕ) → d ≤ 3500 → 7000 ≤ q * d → 2 ≤ q
some_sets q d short above = elim (Bool-cases (leb 2 q)) [
  | inl some_ ↦ ground arith
  | inr few ↦ let product = scaled q 1 d (ground arith) in absurd (omega arith)
]

required_exact :
    (d : ℕ) → 700 ≤ d → d ≤ 3500 → (7000 ≤ required_sets d * d) × (required_sets d * d < 7000 + d)
unfolding required_sets
required_exact d long short =
    let (above, below) = ceiling 7000 d (omega arith) in
    let few = few_sets ((7000 + (d - 1)) / d) d long below in
    let some_ = some_sets ((7000 + (d - 1)) / d) d short above in
    let same : clamp 2 10 ((7000 + (d - 1)) / d) ≡ (7000 + (d - 1)) / d =
      omega (arith, few, some_) in
    rw same (above, below)

-- The requirement is between two and ten sets a second. Where the frames are neither shorter than the
-- fine one nor longer than five of them, it is the number of exposures of that length that take
-- as many lines as ten fine frames, rounded up.
pub required_sets_bounds :
    (word : ℕ)
    → (2 ≤ required_sets (cadence_frame_length word))
      × (required_sets (cadence_frame_length word) ≤ 10)
      × (cadence_frame_length word ≤ 3500
          → (7000 ≤ required_sets (cadence_frame_length word) * cadence_frame_length word)
            × (required_sets (cadence_frame_length word) * cadence_frame_length word
                < 7000 + cadence_frame_length word))
unfolding required_sets cadence_frame_length
required_sets_bounds word =
    let d = max (unpack word).frame_length fine_frame_length in
    let long : 700 ≤ d = omega arith in
    (omega arith, omega arith, λ short. required_exact d long short)
