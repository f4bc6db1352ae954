-- ===== src/Telemetry/Payload.antt =====
-- The telemetry packet and the life of its window.
use podbay_camera_firmware.Prelude.{
  ℕ, zero, suc, ◌+◌, ◌-◌, ◌*◌, ◌/◌, ◌%◌, ◌≤◌, ◌<◌, ◌≡◌, refl, min, true, Option, none, some, List,
  [], ◌∷◌, map, length, ap, get_or, set, leb, u32_max, arith, length-append, length-set, Bool-cases,
  inl, inr, ◌^◌,
}
use podbay_camera_firmware.Telemetry.Histogram.{
  TimingHistogram, empty_histogram, record_us, record_duration, clear, bucket_index,
}
use podbay_camera_firmware.Telemetry.Window.{
  CameraTelemetry, telemetry_window, stage_ids, reset, new, update_stage, stage_index, record_stage,
  record_stage_us, populated, bucket_bytes, stage_record, stage_records, payload_bytes, payload,
  window_expired,
}
use podbay_camera_firmware.Bytes.{read_u32}

-- Every histogram has its sixteen buckets.
abbrev pub HasBuckets : List TimingHistogram → Type 0
HasBuckets [] = Unit {0}
HasBuckets (h ∷ hs) = (length h.buckets ≡ 16) × HasBuckets hs

pub record IsWindow (t : CameraTelemetry) : Type 0 where
  pub seven : length t.stages ≡ 7
  pub buckets : HasBuckets t.stages

length-bucket_bytes : (ns : List ℕ) → length (bucket_bytes ns) ≡ 2 * length ns
unfolding bucket_bytes
length-bucket_bytes [] = omega arith
length-bucket_bytes (n ∷ ns) = omega (arith, length-bucket_bytes ns)

length-stage_record :
    (id : ℕ) (h : TimingHistogram) → length (stage_record id h) ≡ 32 + 2 * length h.buckets
unfolding stage_record
length-stage_record id h = omega (arith, length-bucket_bytes h.buckets)

length-stage_records :
    (ids : List ℕ) (hs : List TimingHistogram)
    → length hs ≤ length ids
    → HasBuckets hs
    → length (stage_records ids hs) ≡ 64 * populated hs
unfolding stage_records populated
length-stage_records [] [] h b = omega arith
length-stage_records [] (g ∷ gs) h b = absurd (omega arith)
length-stage_records (id ∷ ids) [] h b = omega arith
length-stage_records (id ∷ ids) (g ∷ gs) h b = ground (
  arith,
  length-append (stage_record id g) (stage_records ids gs),
  length-stage_record id g,
  length-stage_records ids gs,
)

populated-le : (hs : List TimingHistogram) → populated hs ≤ length hs
unfolding populated
populated-le [] = omega arith
populated-le (h ∷ hs) = ground (arith, populated-le hs)

-- The packet of a well-formed window has a prefix of 16 bytes and 64 for each stage with samples,
-- hence at most 464.
pub length-payload :
    (t : CameraTelemetry) (now : ℕ)
    → IsWindow t
    → (length (payload t now).0 ≡ 16 + 64 * populated t.stages) × (length (payload t now).0 ≤ 464)
unfolding payload
length-payload t now w =
    omega (
      arith,
      length-stage_records stage_ids t.stages (omega arith) w.buckets,
      populated-le t.stages,
    )

length-record_us :
    (h : TimingHistogram) (sample : ℕ) → length (record_us h sample).buckets ≡ length h.buckets
unfolding record_us
length-record_us h sample = length-set h.buckets (bucket_index sample) _

HasBuckets-set :
    (f : TimingHistogram → TimingHistogram)
    → ((h : TimingHistogram) → length (f h).buckets ≡ length h.buckets)
    → (hs : List TimingHistogram) (i : ℕ) → HasBuckets hs
    → HasBuckets (set hs i (f (get_or hs i empty_histogram)))
HasBuckets-set f keep [] i b = b
HasBuckets-set f keep (h ∷ hs) zero b = (omega (arith, keep h), b.1)
HasBuckets-set f keep (h ∷ hs) (suc i) b = (b.0, HasBuckets-set f keep hs i b.1)

update_stage-IsWindow :
    (f : TimingHistogram → TimingHistogram)
    → ((h : TimingHistogram) → length (f h).buckets ≡ length h.buckets)
    → (index : Option ℕ) (t : CameraTelemetry) → IsWindow t
    → IsWindow (update_stage f index t)
unfolding update_stage
update_stage-IsWindow f keep none t w = w
update_stage-IsWindow f keep (some i) t w = record {
  seven = omega (arith, length-set t.stages i (f (get_or t.stages i empty_histogram)));
  buckets = HasBuckets-set f keep t.stages i w.buckets;
}

reset-HasBuckets :
    (hs : List TimingHistogram)
    → HasBuckets (map clear hs)
      × (length (map clear hs) ≡ length hs)
      × (populated (map clear hs) ≡ 0)
unfolding clear populated
reset-HasBuckets [] = (tt, refl, refl)
reset-HasBuckets (h ∷ hs) = let (b, l, p) = reset-HasBuckets hs in ((refl, b), ap suc l, p)

reset-IsWindow : (t : CameraTelemetry) (now : ℕ) → IsWindow t → IsWindow (reset t now)
unfolding reset
reset-IsWindow t now w =
    let (b, l, _) = reset-HasBuckets t.stages in record { seven = omega arith; buckets = b }

-- A new window is well formed; recording into a well-formed window, with a count of microseconds or
-- a duration, and publishing it keep it so.
pub operations-IsWindow :
    (t : CameraTelemetry) (stage sample nanoseconds now : ℕ)
    → IsWindow t
    → IsWindow (new now)
      × IsWindow (record_stage_us t stage sample)
      × IsWindow (record_stage t stage nanoseconds)
      × IsWindow (payload t now).1
unfolding new record_stage record_stage_us payload record_duration
operations-IsWindow t stage sample nanoseconds now w = (
  omega arith,
  update_stage-IsWindow (λ h. record_us h sample) (λ h. length-record_us h sample)
      (stage_index stage) t w,
  update_stage-IsWindow (λ h. record_duration h nanoseconds)
      (λ h. length-record_us h (min (nanoseconds / 1000) u32_max)) (stage_index stage) t w,
  elim (Bool-cases (window_expired t now)) [
    | inl p ↦ rw p (reset-IsWindow t now w)
    | inr p ↦ rw p w
  ],
)

window_sequence_field :
    (t : CameraTelemetry) (now : ℕ) → read_u32 (payload_bytes t now) 4 ≡ t.window_sequence % 2 ^ 32
unfolding payload_bytes read_u32
window_sequence_field t now = omega arith

-- A well-formed window that is at least one second old is published under its own sequence number
-- and then reset: a second packet at the same instant is the bare prefix of 16 bytes, under the next
-- sequence number.
pub payload_then_reset :
    (t : CameraTelemetry) (now : ℕ)
    → IsWindow t
    → t.window_sequence < 2 ^ 32
    → t.window_started + telemetry_window ≤ now
    → (read_u32 (payload t now).0 4 ≡ t.window_sequence)
      × (length (payload (payload t now).1 now).0 ≡ 16)
      × (read_u32 (payload (payload t now).1 now).0 4 ≡ (t.window_sequence + 1) % 2 ^ 32)
unfolding payload window_expired reset
payload_then_reset t now w s h =
    let expired : leb telemetry_window (now - t.window_started) ≡ true = ground arith in
    let u = reset t now in
    let (_, _, cleared) = reset-HasBuckets t.stages in
    rw expired (
      omega (arith, window_sequence_field t now),
      omega (arith, length-payload u now (reset-IsWindow t now w), cleared),
      omega (arith, window_sequence_field u now),
    )
