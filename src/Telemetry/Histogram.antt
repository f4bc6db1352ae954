-- ===== src/Telemetry/Histogram.antt =====
-- TimingHistogram of camera-service/src/main.rs: sixteen saturating buckets and a running summary.
use podbay_camera_firmware.Prelude.{
  ℕ, suc, ◌-◌, ◌/◌, min, max, Bool, Option, none, some, List, [], ◌∷◌, get_or, set, leb, ◌==◌,
  if◌then◌else◌, u16_max, u32_max, abs_diff, sat_add, sat_mul,
}
use mathlib.Core.Option

-- TELEMETRY_BUCKETS
abbrev pub telemetry_buckets : ℕ
telemetry_buckets = 16

-- TELEMETRY_BUCKET_LIMITS_US
abbrev pub bucket_limits_us : List ℕ
bucket_limits_us =
    8 ∷ 16 ∷ 32 ∷ 64 ∷ 128 ∷ 256 ∷ 512 ∷ 1_000 ∷ 2_000 ∷ 4_000 ∷ 8_000 ∷ 16_000 ∷ 32_000 ∷ 64_000
    ∷ 128_000 ∷ u32_max ∷ []

pub record TimingHistogram : Type 0 where
  pub buckets : List ℕ  -- [u16; TELEMETRY_BUCKETS]
  pub count : ℕ  -- u32
  pub max_us : ℕ  -- u32
  pub last_us : Option ℕ
  pub max_jitter_us : ℕ  -- u32

-- The derived `Default`.
abbrev pub empty_histogram : TimingHistogram
empty_histogram = record {
  buckets = 0 ∷ 0 ∷ 0 ∷ 0 ∷ 0 ∷ 0 ∷ 0 ∷ 0 ∷ 0 ∷ 0 ∷ 0 ∷ 0 ∷ 0 ∷ 0 ∷ 0 ∷ 0 ∷ [];
  count = 0;
  max_us = 0;
  last_us = none;
  max_jitter_us = 0;
}

-- `iter().position(test)`
unfoldable pub position {ℓ} : {A : Type ℓ} → (A → Bool) → List A → Option ℕ
position test [] = none
position test (x ∷ xs) = if test x then some 0 else Option.map suc (position test xs)

-- The index that `record_us` computes first.
unfoldable pub bucket_index : ℕ → ℕ
bucket_index sample =
    Option.get_or (position (λ limit. leb sample limit) bucket_limits_us) (telemetry_buckets - 1)

-- `self.max_jitter_us.max(previous.abs_diff(sample_us))`, if there is a previous sample.
unfoldable pub next_jitter : Option ℕ → ℕ → ℕ → ℕ
next_jitter none sample jitter = jitter
next_jitter (some previous) sample jitter = max jitter (abs_diff previous sample)

unfoldable pub record_us : TimingHistogram → ℕ → TimingHistogram
unfolding next_jitter
record_us h sample =
    let bucket = bucket_index sample in
    record h {
      buckets = set h.buckets bucket (sat_add u16_max (get_or h.buckets bucket 0) 1);
      count = sat_add u32_max h.count 1;
      max_us = max h.max_us sample;
      last_us = some sample;
      max_jitter_us = next_jitter h.last_us sample h.max_jitter_us;
    }

-- `record` on a duration in nanoseconds.
unfoldable pub record_duration : TimingHistogram → ℕ → TimingHistogram
unfolding record_us
record_duration h nanoseconds = record_us h (min (nanoseconds / 1000) u32_max)

-- The loop of `percentile`, over the buckets with their limits.
unfoldable pub percentile_loop : List ℕ → List ℕ → ℕ → ℕ → ℕ → ℕ
percentile_loop [] limits cumulative target top = top
percentile_loop (n ∷ ns) [] cumulative target top = top
percentile_loop (n ∷ ns) (limit ∷ limits) cumulative target top =
    let reached = sat_add u32_max cumulative n in
    if leb target reached then min limit top else percentile_loop ns limits reached target top

unfoldable pub percentile_target : ℕ → ℕ → ℕ → ℕ
percentile_target count numerator denominator =
    sat_add u32_max (sat_mul u32_max count numerator) (denominator - 1) / denominator

-- The callers pass the denominators 2, 4 and 100; a denominator of 0 panics in the source.
unfoldable pub percentile : TimingHistogram → ℕ → ℕ → ℕ
unfolding percentile_loop percentile_target
percentile h numerator denominator =
    if h.count == 0
    then 0
    else percentile_loop h.buckets bucket_limits_us 0
        (percentile_target h.count numerator denominator) h.max_us

unfoldable pub clear : TimingHistogram → TimingHistogram
clear h = empty_histogram
