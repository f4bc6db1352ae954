-- ===== src/Capture/Rows.antt =====
-- The rows of a thumbnail that the bands of a scan have filled.
use podbay_camera_firmware.Prelude.{
  ℕ, zero, suc, ◌+◌, ◌-◌, ◌*◌, ◌/◌, ◌%◌, ◌≤◌, ◌<◌, ◌≡◌, refl, sym, ap, ◌||◌, inl, inr, Bool-cases,
  none, some, List, [], ◌∷◌, ◌++◌, ltb, leb, length, arith, Result, ok, err, ◌>>=◌,
}
use podbay_camera_firmware.Raw10.{RawFrame}
use native.Mathlib.Nat.{div-add-mod}
use podbay_camera_firmware.Capture.Bands.{
  ScanRow, scan_sample, scan_row, fill_row, fill_rows, blank_rows, finish_scan,
}

-- What holds of the pixels of a row, by its number.
abbrev pub RowProperty : Type 1
RowProperty = ℕ → List ℕ → Type 0

unfoldable pub IsFilled : RowProperty → ℕ → ScanRow → Type 0
IsFilled P i none = ⊥
IsFilled P i (some pixels) = P i pixels

-- The rows from i on whose samples lie above the row y are filled, with pixels that P holds of.
unfoldable pub FilledTo : RowProperty → ℕ → ℕ → ℕ → List ScanRow → Type 0
FilledTo P scale y i [] = Unit {0}
FilledTo P scale y i (row ∷ rows) =
    (scan_sample scale i < y → IsFilled P i row) × FilledTo P scale y (suc i) rows

-- P holds of every row that a band from y to an end fills from a frame.
abbrev pub Fills : RowProperty → RawFrame → ℕ → ℕ → ℕ → ℕ → ℕ → Type 0
Fills P frame width scale_x scale y end =
    (i : ℕ) (pixels : List ℕ)
    → y ≤ scan_sample scale i
    → scan_sample scale i + 1 < end
    → scan_row frame width scale_x (scan_sample scale i - y) ≡ ok pixels
    → P i pixels

-- A payload of so many rows from i on, each with pixels that P holds of.
pub data Rows (P : RowProperty) : ℕ → ℕ → List ℕ → Type 0 where
  no_rows : (i : ℕ) → Rows P i 0 []
  next_row :
      (i n : ℕ) (pixels rest : List ℕ)
      → P i pixels
      → Rows P (suc i) n rest
      → Rows P i (suc n) (pixels ++ rest)

even_product : (i q : ℕ) → i * (q * 2) ≡ i * q * 2
even_product i q = omega arith

even_sample : (scale i : ℕ) → scale % 2 ≡ 0 → scan_sample scale i % 2 ≡ 0
unfolding scan_sample
even_sample scale i even =
    let double : scale ≡ scale / 2 * 2 = omega arith in
    let product = ap (λ s. i * s) double in omega (arith, even_product i (scale / 2))

bind_ok :
    {A B : Type 0} (r : Result A) (k : A → Result B) (b : B)
    → (r >>= k) ≡ ok b
    → (a : A) × (r ≡ ok a) × (k a ≡ ok b)
bind_ok (ok a) k b h = (a, refl, h)
bind_ok (err e) k b h = cc

some-IsFilled :
    (P : RowProperty) (i : ℕ) (r : Result (List ℕ)) (row : ScanRow)
    → ((pixels : List ℕ) → r ≡ ok pixels → P i pixels)
    → (r >>= λ pixels. ok (some pixels)) ≡ ok row
    → IsFilled P i row
unfolding IsFilled
some-IsFilled P i (ok pixels) (some pixels') fills h =
    let same : pixels ≡ pixels' = cc in rw (sym same) (fills pixels refl)
some-IsFilled P i (ok pixels) none fills h = cc
some-IsFilled P i (err e) row fills h = cc

-- A row below an end that is even has both its samples below it.
fill_row-IsFilled :
    (P : RowProperty) (frame : RawFrame) (width scale_x scale y end i : ℕ) (row row' : ScanRow)
    → Fills P frame width scale_x scale y end
    → scale % 2 ≡ 0
    → end % 2 ≡ 0
    → fill_row frame width scale_x scale y end i row ≡ ok row'
    → (scan_sample scale i < y → IsFilled P i row)
    → scan_sample scale i < end
    → IsFilled P i row'
unfolding fill_row
fill_row-IsFilled P frame width scale_x scale y end i row row' fills even end_even h before below =
    let sample_even = even_sample scale i even in
    elim (Bool-cases (ltb (scan_sample scale i) y || leb end (scan_sample scale i + 1))) [
      | inl outside ↦
          let kept : ok row ≡ ok row' = rw outside at h in
          let same : row ≡ row' = cc in rw (sym same) (before (ground arith))
      | inr inside ↦
          some-IsFilled P i _ row'
            (λ pixels taken. fills i pixels (ground arith) (ground arith) taken) (rw inside at h)
    ]

pub fill_rows-FilledTo :
    (P : RowProperty) (frame : RawFrame) (width scale_x scale y end i : ℕ)
    (rows rows' : List ScanRow)
    → Fills P frame width scale_x scale y end
    → scale % 2 ≡ 0
    → end % 2 ≡ 0
    → fill_rows frame width scale_x scale y end i rows ≡ ok rows'
    → FilledTo P scale y i rows
    → FilledTo P scale end i rows'
unfolding fill_rows FilledTo
fill_rows-FilledTo P frame width scale_x scale y end i [] rows' fills even end_even h before =
    let same : [] ≡ rows' = cc in rw (sym same) tt
fill_rows-FilledTo P frame width scale_x scale y end i (row ∷ rows) rows' fills even end_even h
      before =
    let (first, is_first, h') =
      bind_ok (fill_row frame width scale_x scale y end i row) _ rows' h in
    let (rest, is_rest, h'') =
      bind_ok (fill_rows frame width scale_x scale y end (suc i) rows) _ rows' h' in
    let same : (first ∷ rest) ≡ rows' = cc in
    rw (sym same) (
      fill_row-IsFilled P frame width scale_x scale y end i row first fills even end_even is_first
          before.0,
      fill_rows-FilledTo P frame width scale_x scale y end (suc i) rows rest fills even end_even
          is_rest before.1,
    )

product_below : (i n scale : ℕ) → i < n → i * scale + scale ≤ n * scale
product_below i n scale h = grind arith

-- The samples of a thumbnail that divides the sensor lie on it.
pub sample_below :
    (height i : ℕ)
    → (6000 % height ≡ 0)
    → 2 ≤ 6000 / height
    → i < height
    → scan_sample (6000 / height) i < 6000
unfolding scan_sample
sample_below height i divides two below =
    let whole = div-add-mod 6000 height in
    let inside = product_below i height (6000 / height) below in omega (arith, whole, inside)

filled_some :
    (P : RowProperty) (i : ℕ) (row : ScanRow)
    → IsFilled P i row
    → (pixels : List ℕ) × (row ≡ some pixels) × P i pixels
unfolding IsFilled
filled_some P i (some pixels) filled = (pixels, refl, filled)
filled_some P i none filled = absurd filled

finish_row :
    (i : ℕ) (rows : List ScanRow) (first : ScanRow) (pixels rest : List ℕ)
    → first ≡ some pixels
    → finish_scan (suc i) rows ≡ ok rest
    → finish_scan i (first ∷ rows) ≡ ok (pixels ++ rest)
finish_row i rows first pixels rest e f = rw (e, f) refl

pub finish_scan_ok :
    (P : RowProperty) (scale i : ℕ) (rows : List ScanRow)
    → FilledTo P scale 6000 i rows
    → ((j : ℕ) → j < i + length rows → scan_sample scale j < 6000)
    → (payload : List ℕ) × (finish_scan i rows ≡ ok payload) × Rows P i (length rows) payload
unfolding FilledTo
finish_scan_ok P scale i [] filled below = ([], refl, no_rows i)
finish_scan_ok P scale i (first ∷ rows) filled below =
    let (pixels, e, p) = filled_some P i first (filled.0 (below i (omega arith))) in
    let (rest, f, more) =
      finish_scan_ok P scale (suc i) rows filled.1 (λ j h. below j (omega arith)) in
    (
      pixels ++ rest,
      finish_row i rows first pixels rest e f,
      next_row i (length rows) pixels rest p more,
    )

pub same_count :
    (P : RowProperty) (i m n : ℕ) (payload : List ℕ)
    → m ≡ n
    → Rows P i m payload
    → Rows P i n payload
same_count P i m n payload e rows = rw e at rows

pub length-fill_rows :
    (frame : RawFrame) (width scale_x scale y end i : ℕ) (rows rows' : List ScanRow)
    → fill_rows frame width scale_x scale y end i rows ≡ ok rows'
    → length rows' ≡ length rows
unfolding fill_rows
length-fill_rows frame width scale_x scale y end i [] rows' h =
    let same : [] ≡ rows' = cc in rw (sym same) refl
length-fill_rows frame width scale_x scale y end i (row ∷ rows) rows' h =
    let (first, is_first, h') =
      bind_ok (fill_row frame width scale_x scale y end i row) _ rows' h in
    let (rest, is_rest, h'') =
      bind_ok (fill_rows frame width scale_x scale y end (suc i) rows) _ rows' h' in
    let same : (first ∷ rest) ≡ rows' = cc in
    rw (sym same)
      (ap suc (length-fill_rows frame width scale_x scale y end (suc i) rows rest is_rest))

pub length-blank_rows : (n : ℕ) → length (blank_rows n) ≡ n
length-blank_rows zero = refl
length-blank_rows (suc n) = ap suc (length-blank_rows n)

pub blank_FilledTo : (P : RowProperty) (scale i n : ℕ) → FilledTo P scale 0 i (blank_rows n)
unfolding FilledTo
blank_FilledTo P scale i zero = tt
blank_FilledTo P scale i (suc n) = (λ below. absurd (omega arith), blank_FilledTo P scale (suc i) n)
