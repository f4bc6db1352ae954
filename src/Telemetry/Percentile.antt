-- ===== src/Telemetry/Percentile.antt =====
-- `percentile` of the timing histogram, against the samples that were recorded.
use podbay_camera_firmware.Prelude.{
  ℕ, zero, suc, ◌+◌, ◌-◌, ◌*◌, ◌/◌, ◌≤◌, ◌<◌, min, ◌≡◌, refl, some, List, [], ◌∷◌, leb, u16_max,
  u32_max, arith, length, Bool-cases, inl, inr, get_elem?, dec_le,
}
use podbay_camera_firmware.Telemetry.Histogram.{
  bucket_limits_us, percentile_loop, percentile_target, percentile,
}
use podbay_camera_firmware.Telemetry.Summary.{
  recorded, AllLe, count_le, maximum, record_us-Summarises,
}
use podbay_camera_firmware.Telemetry.Buckets.{Ascending, Counts, count_le-length, record_us-Counts}
use native.Mathlib.Nat.{div-add-mod, mod-lt}

-- The quotient that rounds up, between whole multiples.
ceil_upper : (a d k : ℕ) → 0 < d → (a + (d - 1)) / d ≤ k → a ≤ d * k
ceil_upper a d k h p = grind (arith, div-add-mod (a + (d - 1)) d, mod-lt)

ceil_lower : (a d k : ℕ) → 0 < d → k < (a + (d - 1)) / d → d * k < a
ceil_lower a d k h p = grind (arith, div-add-mod (a + (d - 1)) d, mod-lt)

count_le_all : (v : ℕ) (xs : List ℕ) → AllLe v xs → count_le v xs ≡ length xs
count_le_all v [] a = refl
count_le_all v (x ∷ xs) a = ground (arith, count_le_all v xs)

count_le-min : (v top : ℕ) (xs : List ℕ) → AllLe top xs → count_le (min v top) xs ≡ count_le v xs
count_le-min v top [] a = refl
count_le-min v top (x ∷ xs) a = ground (arith, count_le-min v top xs)

AllLe-mono : (v w : ℕ) (xs : List ℕ) → v ≤ w → AllLe v xs → AllLe w xs
AllLe-mono v w [] h a = tt
AllLe-mono v w (x ∷ xs) h a = (omega arith, AllLe-mono v w xs h a.1)

AllLe-maximum : (xs : List ℕ) → AllLe (maximum xs) xs
AllLe-maximum [] = tt
AllLe-maximum (x ∷ xs) =
    (omega arith, AllLe-mono (maximum xs) _ xs (omega arith) (AllLe-maximum xs))

Ascending-get_elem? :
    (ls : List ℕ) (low i : ℕ) {l : ℕ} → Ascending low ls → get_elem? ls i ≡ some l → low ≤ l
Ascending-get_elem? [] low i a e = cc
Ascending-get_elem? (m ∷ ls) low zero a e = ground arith
Ascending-get_elem? (m ∷ ls) low (suc i) {l} a e =
    omega (arith, Ascending-get_elem? ls m i {l = l} a.1 e)

percentile_loop_covers :
    (ls ns : List ℕ) (before target top : ℕ) (xs : List ℕ)
    → length xs ≤ u16_max
    → target ≤ length xs
    → AllLe top xs
    → Counts ls ns before xs
    → target ≤ count_le (percentile_loop ns ls before target top) xs
unfolding percentile_loop
percentile_loop_covers [] [] before target top xs h t a c = omega (arith, count_le_all top xs a)
percentile_loop_covers [] (n ∷ ns) before target top xs h t a c = absurd c
percentile_loop_covers (l ∷ ls) [] before target top xs h t a c = absurd c
percentile_loop_covers (l ∷ ls) (n ∷ ns) before target top xs h t a c =
    let whole : min (before + n) u32_max ≡ before + n = omega (arith, count_le-length l xs) in
    rw whole (elim (Bool-cases (leb target (before + n))) [
      | inl p ↦ rw (p, count_le-min l top xs a) (ground arith)
      | inr p ↦ rw p (percentile_loop_covers ls ns (before + n) target top xs h t a c.1)
    ])

percentile_loop_least :
    (ls ns : List ℕ) (before target top low i l : ℕ) (xs : List ℕ)
    → length xs ≤ u16_max
    → Ascending low ls
    → Counts ls ns before xs
    → get_elem? ls i ≡ some l
    → l < percentile_loop ns ls before target top
    → count_le l xs < target
unfolding percentile_loop
percentile_loop_least [] ns before target top low i l xs h a c e p = cc
percentile_loop_least (m ∷ ls) [] before target top low i l xs h a c e p = absurd c
percentile_loop_least (m ∷ ls) (n ∷ ns) before target top low zero l xs h a c e p =
    ground (arith, count_le-length m xs)
percentile_loop_least (m ∷ ls) (n ∷ ns) before target top low (suc i) l xs h a c e p =
    let whole : min (before + n) u32_max ≡ before + n = omega (arith, count_le-length m xs) in
    ground (
      arith,
      whole,
      Ascending-get_elem? ls m i {l = l} a.1 e,
      percentile_loop_least ls ns (before + n) target top m i l xs,
    )

-- The target is the count times the fraction, rounded up: nothing saturates.
target_bounds :
    (n numerator denominator k : ℕ)
    → n ≤ u16_max
    → 0 < denominator
    → numerator ≤ denominator
    → denominator ≤ 100
    → (percentile_target n numerator denominator ≤ k → n * numerator ≤ denominator * k)
      × (k < percentile_target n numerator denominator → denominator * k < n * numerator)
unfolding percentile_target
target_bounds n numerator denominator k h d q u =
    let small : n * numerator ≤ 6553500 = grind arith in
    let e : min (min (n * numerator) u32_max + (denominator - 1)) u32_max
        ≡ n * numerator + (denominator - 1) =
      omega arith in
    rw e (ceil_upper (n * numerator) denominator k d, ceil_lower (n * numerator) denominator k d)

target_le_count :
    (n numerator denominator : ℕ)
    → n ≤ u16_max
    → 0 < denominator
    → numerator ≤ denominator
    → denominator ≤ 100
    → percentile_target n numerator denominator ≤ n
target_le_count n numerator denominator h d q u =
    elim (dec_le (percentile_target n numerator denominator) n) [
      | yes p ↦ p
      | no p ↦
          let over = (target_bounds n numerator denominator n h d q u).1 (omega arith) in
          absurd (grind arith)
    ]

percentile_of_recorded :
    (xs : List ℕ) (numerator denominator : ℕ)
    → 0 < length xs
    → length xs ≤ u16_max
    → percentile_loop
        (recorded xs).buckets
        bucket_limits_us
        0
        (percentile_target (length xs) numerator denominator)
        (maximum xs)
      ≡ percentile (recorded xs) numerator denominator
unfolding percentile
percentile_of_recorded xs numerator denominator some_sample h =
    let (count, top, _, _) = record_us-Summarises xs (omega arith) in rw (count, top) (ground arith)

-- Of at least one and at most u16::MAX samples that fit a u32, at least the asked fraction lies at
-- or below the reported percentile, for a fraction of at most one over at most a hundred parts.
pub percentile_covers :
    (xs : List ℕ) (numerator denominator : ℕ)
    → 0 < length xs
    → length xs ≤ u16_max
    → AllLe u32_max xs
    → 0 < denominator
    → numerator ≤ denominator
    → denominator ≤ 100
    → length xs * numerator
      ≤ denominator * count_le (percentile (recorded xs) numerator denominator) xs
percentile_covers xs numerator denominator o h a d q u =
    let target = percentile_target (length xs) numerator denominator in
    let covered =
      percentile_loop_covers bucket_limits_us (recorded xs).buckets 0 target (maximum xs) xs h
        (target_le_count (length xs) numerator denominator h d q u) (AllLe-maximum xs)
        (record_us-Counts xs h a) in
    rw (← percentile_of_recorded xs numerator denominator o h)
      ((target_bounds (length xs) numerator denominator _ h d q u).0 covered)

-- Of at least one and at most u16::MAX samples that fit a u32, less than the asked fraction lies at
-- or below any bucket limit that is smaller than the reported percentile, for a fraction of at most
-- one over at most a hundred parts.
pub percentile_least :
    (xs : List ℕ) (numerator denominator i l : ℕ)
    → 0 < length xs
    → length xs ≤ u16_max
    → AllLe u32_max xs
    → 0 < denominator
    → numerator ≤ denominator
    → denominator ≤ 100
    → get_elem? bucket_limits_us i ≡ some l
    → l < percentile (recorded xs) numerator denominator
    → denominator * count_le l xs < length xs * numerator
percentile_least xs numerator denominator i l o h a d q u e p =
    let target = percentile_target (length xs) numerator denominator in
    let below = rw (← percentile_of_recorded xs numerator denominator o h) at p in
    let missed =
      percentile_loop_least bucket_limits_us (recorded xs).buckets 0 target (maximum xs) 0 i l xs h
        (omega arith) (record_us-Counts xs h a) e below in
    (target_bounds (length xs) numerator denominator _ h d q u).1 missed
