-- ===== src/Raw10/Cells.antt =====
-- The sampling loops of the downsampling functions: one 2x2 cell for each output pixel.
use podbay_camera_firmware.Prelude.{
  ℕ, ◌+◌, ◌*◌, ◌/◌, ◌≤◌, ◌<◌, ◌≡◌, refl, List, length, arith, Result, ok,
}
use podbay_camera_firmware.Bytes.{le_bytes}
use podbay_camera_firmware.Raw10.{slice, collect, cell_average}
use podbay_camera_firmware.Raw10.Slices.{slice_ok}
use podbay_camera_firmware.Raw10.Chunks.{chunks, collect-chunks, length-chunks, slice-chunks}
use podbay_camera_firmware.Raw10.Pixels.{HasPixel, pixel_read, pixel_value}

-- The byte string holds every pixel of a width and a height.
pub record HasFrame (bytes : List ℕ) (stride width height : ℕ) : Type 0 where
  pub rows : height * stride ≤ length bytes
  pub columns : (width + 3) / 4 * 5 ≤ stride

pub HasPixel-of_HasFrame :
    (bytes : List ℕ) (stride width height x y : ℕ)
    → HasFrame bytes stride width height
    → x < width
    → y < height
    → HasPixel bytes stride x y
HasPixel-of_HasFrame bytes stride width height x y h p q =
    let r = h.rows in let c = h.columns in record { row = grind arith; group = omega arith }

-- Coordinates whose cells lie on a side.
abbrev pub StaysInside : (ℕ → ℕ) → ℕ → ℕ → Type 0
StaysInside coordinate outputs size = (k : ℕ) → k < outputs → coordinate k + 1 < size

-- What a sampling function promises of its bytes: two for each output pixel, the average of the cell
-- at the coordinates.
abbrev pub Samples : List ℕ → ℕ → (ℕ → ℕ) → (ℕ → ℕ) → ℕ → ℕ → Result (List ℕ) → List ℕ → Type 0
Samples bytes stride fx fy output_width output_height result output =
    (result ≡ ok output)
    × (length output ≡ output_height * (output_width * 2))
    × ((x y : ℕ)
        → x < output_width
        → y < output_height
        → slice output (y * (output_width * 2) + x * 2) 2 ≡ cell_average bytes stride (fx x) (fy y))

module _ (bytes : List ℕ) (stride width height : ℕ)
    (frame : HasFrame bytes stride width height) where
  abbrev pub average_at : ℕ → ℕ → ℕ
  average_at x y =
      (pixel_value bytes stride x y
        + pixel_value bytes stride (x + 1) y
        + pixel_value bytes stride x (y + 1)
        + pixel_value bytes stride (x + 1) (y + 1))
      / 4

  pub cell_read :
      (x y : ℕ)
      → x + 1 < width
      → y + 1 < height
      → cell_average bytes stride x y ≡ ok (le_bytes 2 (average_at x y))
  unfolding cell_average
  cell_read x y p q =
      let pixel = λ (a b : ℕ) (u : a < width) (v : b < height).
        pixel_read bytes stride a b
          (HasPixel-of_HasFrame bytes stride width height a b frame u v) in
      rw (
        pixel x y (omega arith) (omega arith),
        pixel (x + 1) y p (omega arith),
        pixel x (y + 1) (omega arith) q,
        pixel (x + 1) (y + 1) p q,
      )

  module _ (fx fy : ℕ → ℕ) (output_width output_height : ℕ)
      (in_x : StaysInside fx output_width width) (in_y : StaysInside fy output_height height) where
    abbrev cell_bytes : ℕ → ℕ → List ℕ
    cell_bytes y x = le_bytes 2 (average_at (fx x) (fy y))

    abbrev cell_row : ℕ → List ℕ
    cell_row y = chunks output_width 0 (cell_bytes y)

    length-cell_row :
        (y : ℕ) → 0 ≤ y → y < 0 + output_height → length (cell_row y) ≡ output_width * 2
    length-cell_row y p q = length-chunks 2 (cell_bytes y) output_width 0 (λ k r s. refl)

    abbrev grid : List ℕ
    grid = chunks output_height 0 cell_row

    grid_ok :
        collect output_height 0
          (λ y. collect output_width 0 (λ x. cell_average bytes stride (fx x) (fy y)))
        ≡ ok grid
    grid_ok = collect-chunks output_height 0 _ cell_row (λ y p q.
        collect-chunks output_width 0 _ (cell_bytes y)
          (λ x r s. cell_read (fx x) (fy y) (in_x x (omega arith)) (in_y y (omega arith))))

    -- The two bytes of an output pixel.
    grid_cell :
        (x y : ℕ)
        → x < output_width
        → y < output_height
        → slice grid (y * (output_width * 2) + x * 2) 2 ≡ cell_average bytes stride (fx x) (fy y)
    grid_cell x y p q =
        let row =
          slice-chunks (output_width * 2) cell_row output_height 0 y (x * 2) 2 length-cell_row q
            (omega arith) in
        let cell =
          slice-chunks 2 (cell_bytes y) output_width 0 x 0 2 (λ k r s. refl) p (omega arith) in
        let zx : 0 + x ≡ x = omega arith in
        let zy : 0 + y ≡ y = omega arith in
        let e : x * 2 + 0 ≡ x * 2 = omega arith in
        let read = cell_read (fx x) (fy y) (in_x x p) (in_y y q) in
        let in_row = rw zy at row in
        let in_cell = rw (e, zx) at cell in
        rw (in_row, in_cell, read) (slice_ok (cell_bytes y x) 0 2 (omega arith))

    length-grid : length grid ≡ output_height * (output_width * 2)
    length-grid = length-chunks (output_width * 2) cell_row output_height 0 length-cell_row

    pub grid-Samples :
        Samples bytes stride fx fy output_width output_height
          (collect output_height 0
            (λ y. collect output_width 0 (λ x. cell_average bytes stride (fx x) (fy y))))
          grid
    grid-Samples = (grid_ok, length-grid, grid_cell)
