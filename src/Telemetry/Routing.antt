-- ===== src/Telemetry/Routing.antt =====
-- Which histogram a sample goes to.
use podbay_camera_firmware.Prelude.{
  ℕ, zero, suc, ◌-◌, ◌≤◌, ◌≡◌, refl, none, some, List, [], ◌∷◌, length, get_or, get_elem?, set, leb,
  ◌==◌, if◌then◌else◌, arith, Bool-cases, inl, inr, ◌&&◌,
}
use podbay_camera_firmware.Telemetry.Histogram.{TimingHistogram, empty_histogram, record_us}
use podbay_camera_firmware.Telemetry.Window.{CameraTelemetry, stage_index, record_stage_us}
use mathlib.Core.Option
use podbay_camera_firmware.Telemetry.Payload.{IsWindow}

module _ (f : TimingHistogram → TimingHistogram) where
  get_elem?-set :
      (hs : List TimingHistogram) (i j : ℕ)
      → get_elem? (set hs i (f (get_or hs i empty_histogram))) j
        ≡ (if i == j then Option.map f (get_elem? hs j) else get_elem? hs j)
  get_elem?-set [] i j = ground arith
  get_elem?-set (h ∷ hs) zero zero = refl
  get_elem?-set (h ∷ hs) zero (suc j) = ground arith
  get_elem?-set (h ∷ hs) (suc i) zero = ground arith
  get_elem?-set (h ∷ hs) (suc i) (suc j) = ground (arith, get_elem?-set hs i j)

  get_elem?-none : (hs : List TimingHistogram) (j : ℕ) → length hs ≤ j → get_elem? hs j ≡ none
  get_elem?-none [] j h = refl
  get_elem?-none (x ∷ hs) zero h = absurd (omega arith)
  get_elem?-none (x ∷ hs) (suc j) h = get_elem?-none hs j (omega arith)

stage_index_lem : (id : ℕ) → stage_index id ≡ (if leb 1 id && leb id 7 then some (id - 1) else none)
unfolding stage_index
stage_index_lem id = ground arith

-- Recording into a well-formed window under a stage identifier changes the histogram of that stage,
-- the one at the identifier less one, by one sample, and no other; an unknown identifier changes
-- none.
pub record_stage_us-routes :
    (t : CameraTelemetry) (id sample j : ℕ)
    → IsWindow t
    → get_elem? (record_stage_us t id sample).stages j ≡ (
        if suc j == id
        then Option.map (λ h. record_us h sample) (get_elem? t.stages j)
        else get_elem? t.stages j)
unfolding record_stage_us
record_stage_us-routes t id sample j w =
    let f = λ (h : TimingHistogram). record_us h sample in
    elim (Bool-cases (leb 1 id && leb id 7)) [
      | inl p ↦ rw (stage_index_lem id) (rw p (ground (arith, get_elem?-set f t.stages (id - 1) j)))
      | inr p ↦ rw (stage_index_lem id) (rw p (ground (arith, get_elem?-none f t.stages j)))
    ]
