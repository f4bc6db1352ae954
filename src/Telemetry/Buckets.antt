-- ===== src/Telemetry/Buckets.antt =====
-- The buckets of a histogram count the samples below each limit.
use podbay_camera_firmware.Prelude.{
  ℕ, zero, suc, ◌+◌, ◌≤◌, ◌<◌, ◌≡◌, some, List, [], ◌∷◌, get_or, set, leb, u16_max, u32_max, arith,
  length, sat_add,
}
use podbay_camera_firmware.Telemetry.Histogram.{bucket_limits_us, position, bucket_index, record_us}
use podbay_camera_firmware.Telemetry.Summary.{recorded, AllLe, count_le}
use mathlib.Core.Option

-- The limits never fall, from a first one on.
abbrev pub Ascending : ℕ → List ℕ → Type 0
Ascending low [] = Unit {0}
Ascending low (l ∷ ls) = (low ≤ l) × Ascending l ls

-- Up to each limit, the buckets so far hold as many samples as lie at or below the limit.
abbrev pub Counts : List ℕ → List ℕ → ℕ → List ℕ → Type 0
Counts [] [] before xs = Unit {0}
Counts [] (n ∷ ns) before xs = ⊥
Counts (l ∷ ls) [] before xs = ⊥
Counts (l ∷ ls) (n ∷ ns) before xs = (before + n ≡ count_le l xs) × Counts ls ns (before + n) xs

pub count_le-length : (v : ℕ) (xs : List ℕ) → count_le v xs ≤ length xs
count_le-length v [] = omega arith
count_le-length v (x ∷ xs) = ground (arith, count_le-length v xs)

-- A sample below all the limits is counted at each.
Counts-below :
    (ls ns : List ℕ) (before low x : ℕ) (xs : List ℕ)
    → x ≤ low
    → Ascending low ls
    → Counts ls ns before xs
    → Counts ls ns (suc before) (x ∷ xs)
Counts-below [] [] before low x xs h a c = tt
Counts-below [] (n ∷ ns) before low x xs h a c = c
Counts-below (l ∷ ls) [] before low x xs h a c = c
Counts-below (l ∷ ls) (n ∷ ns) before low x xs h a c = (
  ground arith,
  let e : suc before + n ≡ suc (before + n) = omega arith in
      rw e (Counts-below ls ns (before + n) l x xs (omega arith) a.1 c.1),
)

position_zero : (x l : ℕ) (ls : List ℕ) → position (λ limit. leb x limit) (l ∷ ls) ≡ some 0 → x ≤ l
unfolding position
position_zero x l ls e = ground arith

position-suc :
    (x l i : ℕ) (ls : List ℕ)
    → position (λ limit. leb x limit) (l ∷ ls) ≡ some (suc i)
    → (l < x) × (position (λ limit. leb x limit) ls ≡ some i)
unfolding position
position-suc x l i ls e = ground arith

-- Adding one to the first bucket whose limit admits the sample keeps the counts.
pub Counts-set :
    (ls ns : List ℕ) (before low x i : ℕ) (xs : List ℕ)
    → Ascending low ls
    → Counts ls ns before xs
    → position (λ limit. leb x limit) ls ≡ some i
    → Counts ls (set ns i (get_or ns i 0 + 1)) before (x ∷ xs)
Counts-set [] ns before low x i xs a c e = unfold position in cc
Counts-set (l ∷ ls) [] before low x i xs a c e = absurd c
Counts-set (l ∷ ls) (n ∷ ns) before low x zero xs a c e =
    let h = position_zero x l ls e in
    let sum : before + (n + 1) ≡ suc (before + n) = omega arith in
    (ground arith, rw sum (Counts-below ls ns (before + n) l x xs h a.1 c.1))
Counts-set (l ∷ ls) (n ∷ ns) before low x (suc i) xs a c e =
    let (above, rest) = position-suc x l i ls e in
    (ground arith, Counts-set ls ns (before + n) l x i xs a.1 c.1 rest)

-- No bucket holds more than there are samples.
pub Counts-le :
    (ls ns : List ℕ) (before i : ℕ) (xs : List ℕ)
    → Counts ls ns before xs
    → get_or ns i 0 ≤ length xs
Counts-le [] [] before i xs c = omega arith
Counts-le [] (n ∷ ns) before i xs c = absurd c
Counts-le (l ∷ ls) [] before i xs c = absurd c
Counts-le (l ∷ ls) (n ∷ ns) before zero xs c = omega (arith, count_le-length l xs)
Counts-le (l ∷ ls) (n ∷ ns) before (suc i) xs c = Counts-le ls ns (before + n) i xs c.1

-- The last limit admits the sample.
abbrev LastAdmits : ℕ → List ℕ → Type 0
LastAdmits x [] = ⊥
LastAdmits x (l ∷ []) = x ≤ l
LastAdmits x (l ∷ m ∷ ls) = LastAdmits x (m ∷ ls)

position-LastAdmits :
    (x d : ℕ) (ls : List ℕ)
    → LastAdmits x ls
    → position (λ limit. leb x limit) ls
      ≡ some (Option.get_or (position (λ limit. leb x limit) ls) d)
unfolding position
position-LastAdmits x d [] h = absurd h
position-LastAdmits x d (l ∷ []) h = ground arith
position-LastAdmits x d (l ∷ m ∷ ls) h = ground (arith, position-LastAdmits x d (m ∷ ls))

-- A sample that fits a u32 has a bucket.
position_found :
    (x : ℕ) → x ≤ u32_max → position (λ limit. leb x limit) bucket_limits_us ≡ some (bucket_index x)
unfolding bucket_index
position_found x h = position-LastAdmits x 15 bucket_limits_us h

-- After at most u16::MAX samples that fit a u32, the buckets up to each limit hold exactly as many
-- samples as lie at or below that limit.
pub record_us-Counts :
    (xs : List ℕ)
    → length xs ≤ u16_max
    → AllLe u32_max xs
    → Counts bucket_limits_us (recorded xs).buckets 0 xs
unfolding record_us
record_us-Counts [] h a = ground arith
record_us-Counts (x ∷ xs) h a =
    let ih = record_us-Counts xs (omega arith) a.1 in
    let i = bucket_index x in
    let fits : sat_add u16_max (get_or (recorded xs).buckets i 0) 1
        ≡ get_or (recorded xs).buckets i 0 + 1 =
      omega (arith, Counts-le bucket_limits_us (recorded xs).buckets 0 i xs ih) in
    rw fits (Counts-set bucket_limits_us _ 0 0 x i xs (omega arith) ih (position_found x a.0))
