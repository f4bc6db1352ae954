-- ===== src/Telemetry/Summary.antt =====
-- What a histogram holds after a sequence of samples, newest first.
use podbay_camera_firmware.Prelude.{
  ℕ, suc, ◌≤◌, max, ◌≡◌, refl, Option, none, some, List, [], ◌∷◌, leb, if◌then◌else◌, u32_max,
  abs_diff, arith, length,
}
use podbay_camera_firmware.Telemetry.Histogram.{TimingHistogram, empty_histogram, record_us}

-- The histogram after the samples.
abbrev pub recorded : List ℕ → TimingHistogram
recorded [] = empty_histogram
recorded (x ∷ xs) = record_us (recorded xs) x

abbrev pub AllLe : ℕ → List ℕ → Type 0
AllLe top [] = Unit {0}
AllLe top (x ∷ xs) = (x ≤ top) × AllLe top xs

-- How many samples are at most a bound.
abbrev pub count_le : ℕ → List ℕ → ℕ
count_le v [] = 0
count_le v (x ∷ xs) = if leb x v then suc (count_le v xs) else count_le v xs

abbrev pub maximum : List ℕ → ℕ
maximum [] = 0
maximum (x ∷ xs) = max (maximum xs) x

-- The largest step between two samples that follow one another.
abbrev pub jitter : List ℕ → ℕ
jitter [] = 0
jitter (x ∷ []) = 0
jitter (x ∷ y ∷ xs) = max (jitter (y ∷ xs)) (abs_diff y x)

abbrev pub head? : List ℕ → Option ℕ
head? [] = none
head? (x ∷ xs) = some x

abbrev pub Summarises : TimingHistogram → List ℕ → Type 0
Summarises h xs =
    (h.count ≡ length xs)
    × (h.max_us ≡ maximum xs)
    × (h.last_us ≡ head? xs)
    × (h.max_jitter_us ≡ jitter xs)

-- After at most u32::MAX samples the summary fields are the number of samples, the largest, the newest, and the largest step between neighbours.
pub record_us-Summarises : (xs : List ℕ) → length xs ≤ u32_max → Summarises (recorded xs) xs
unfolding record_us
record_us-Summarises [] h = (refl, refl, refl, refl)
record_us-Summarises (x ∷ []) h = (refl, refl, refl, refl)
record_us-Summarises (x ∷ y ∷ xs) h = ground (arith, record_us-Summarises (y ∷ xs))
