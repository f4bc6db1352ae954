-- ===== src/Capture/Origins.antt =====
-- The bands of a scan cover the sensor.
use podbay_camera_firmware.Prelude.{
  ℕ, zero, suc, ◌+◌, ◌-◌, ◌≤◌, ◌<◌, ◌≡◌, ◌⊎◌, inl, inr, Bool-cases, ==_iff, ◌==◌, List, [], ◌∷◌,
  min, sat_add, u32_max, arith,
}
use podbay_camera_firmware.Capture.Bands.{collect_origins, scan_origins}

-- Origins from y to the maximum: each further band starts below the one before it, and at its end or
-- above it, so that no row between them is left out.
pub data Origins (height maximum_y : ℕ) : ℕ → List ℕ → Type 0 where
  last : Origins height maximum_y maximum_y (maximum_y ∷ [])
  next :
      (y z : ℕ) (rest : List ℕ)
      → y < z
      → z ≤ y + height
      → z ≤ maximum_y
      → (z ≡ y + height) ⊎ (z ≡ maximum_y)
      → Origins height maximum_y z rest
      → Origins height maximum_y y (y ∷ rest)

collect_origins-Origins :
    (fuel height maximum_y y : ℕ)
    → 0 < height
    → maximum_y < 6000
    → y ≤ maximum_y
    → maximum_y < y + fuel
    → height ≤ 6000
    → Origins height maximum_y y (collect_origins fuel height maximum_y y)
unfolding collect_origins
collect_origins-Origins zero height maximum_y y positive small inside enough low =
    absurd (omega arith)
collect_origins-Origins (suc fuel) height maximum_y y positive small inside enough low =
    elim (Bool-cases (y == maximum_y)) [
      | inl there ↦ let e = (==_iff y maximum_y).0 there in rw there (rw e last)
      | inr before ↦ rw before (
          next y (min (sat_add u32_max y height) maximum_y) _ (ground arith) (omega arith)
            (omega arith) (ground arith)
            (collect_origins-Origins fuel height maximum_y _ positive small (omega arith)
              (ground arith) low))
    ]

-- A scan by bands of any height up to the sensor's ends within its fuel. Its bands start at the first row
-- and end at the last, each begins below the one before it, and none leaves out a row.
pub scan_origins-Origins :
    (height : ℕ)
    → 0 < height
    → height ≤ 6000
    → Origins height (6000 - height) 0 (scan_origins height)
unfolding scan_origins
scan_origins-Origins height positive low =
    collect_origins-Origins (suc (6000 - height)) height (6000 - height) 0 positive (omega arith)
      (omega arith) (omega arith) low
