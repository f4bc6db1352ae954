-- ===== src/Raw10/Crop.antt =====
-- A crop holds the pixels of the rectangle.
use podbay_camera_firmware.Prelude.{
  ℕ, ◌+◌, ◌*◌, ◌/◌, ◌%◌, ◌≤◌, ◌<◌, ◌≡◌, List, length, take, drop, length-take, length-drop, arith,
  ok,
}
use podbay_camera_firmware.Raw10.{crop_row, crop_raw10_bytes, packed_raw10_pixel_bytes}
use podbay_camera_firmware.Raw10.Slices.{slice-take-drop}
use podbay_camera_firmware.Raw10.Chunks.{chunks, collect-chunks, length-chunks, slice-chunks}
use podbay_camera_firmware.Raw10.Pixels.{HasPixel, pixel_at, pixel_of_row}

-- The rectangle starts at a group, is a whole number of groups wide, and lies in the rows that the
-- byte string holds.
pub record HasCrop (bytes : List ℕ) (stride x y width height : ℕ) : Type 0 where
  pub x_aligned : x % 4 ≡ 0
  pub width_aligned : width % 4 ≡ 0
  pub inside_row : x / 4 * 5 + width / 4 * 5 ≤ stride
  pub rows : (y + height) * stride ≤ length bytes

module _ (bytes : List ℕ) (stride x y width height : ℕ)
    (h : HasCrop bytes stride x y width height) where
  abbrev cropped_row : ℕ → List ℕ
  cropped_row row = take (width / 4 * 5) (drop ((y + row) * stride + x / 4 * 5) bytes)

  row_inside : (row : ℕ) → row < height → (y + row) * stride + stride ≤ length bytes
  row_inside row p = let r = h.rows in grind arith

  length-cropped_row :
      (row : ℕ) → 0 ≤ row → row < 0 + height → length (cropped_row row) ≡ width / 4 * 5
  length-cropped_row row p q =
      let r = row_inside row (omega arith) in
      let g = h.inside_row in
      omega (
        arith,
        length-take (width / 4 * 5) (drop ((y + row) * stride + x / 4 * 5) bytes),
        length-drop ((y + row) * stride + x / 4 * 5) bytes,
      )

  crop_row_ok :
      (row : ℕ)
      → 0 ≤ row
      → row < 0 + height
      → crop_row bytes stride (x / 4 * 5) (width / 4 * 5) (y + row) ≡ ok (cropped_row row)
  unfolding crop_row
  crop_row_ok row p q = let r = row_inside row (omega arith) in let g = h.inside_row in ground arith

  crop_chunks : crop_raw10_bytes bytes stride x y width height ≡ ok (chunks height 0 cropped_row)
  unfolding crop_raw10_bytes
  crop_chunks = collect-chunks height 0 _ cropped_row crop_row_ok

  output_HasPixel :
      (i j : ℕ)
      → i < width
      → j < height
      → HasPixel (chunks height 0 cropped_row) (width / 4 * 5) i j
  output_HasPixel i j p q =
      let w = h.width_aligned in
      let total = length-chunks (width / 4 * 5) cropped_row height 0 length-cropped_row in
      record { row = grind arith; group = omega arith }

  source_HasPixel : (i j : ℕ) → i < width → j < height → HasPixel bytes stride (x + i) (y + j)
  source_HasPixel i j p q =
      let r = row_inside j q in
      let w = h.width_aligned in
      let a = h.x_aligned in let g = h.inside_row in record { row = r; group = omega arith }

  crop_pixel :
      (i j : ℕ)
      → i < width
      → j < height
      → packed_raw10_pixel_bytes (chunks height 0 cropped_row) (width / 4 * 5) i j
        ≡ packed_raw10_pixel_bytes bytes stride (x + i) (y + j)
  unfolding pixel_at
  crop_pixel i j p q =
      let w = h.width_aligned in
      let a = h.x_aligned in
      let g = h.inside_row in
      let in_chunk =
        slice-chunks (width / 4 * 5) cropped_row height 0 j (i / 4 * 5) 5 length-cropped_row q
          (omega arith) in
      let zero_add : 0 + j ≡ j = omega arith in
      let r = row_inside j q in
      let in_source =
        slice-take-drop bytes ((y + j) * stride + x / 4 * 5) (width / 4 * 5) (i / 4 * 5) 5
          (omega arith) (omega arith) in
      let place : (y + j) * stride + x / 4 * 5 + i / 4 * 5 ≡ (y + j) * stride + (x + i) / 4 * 5 =
        omega arith in
      let phase : (x + i) % 4 ≡ i % 4 = omega arith in
      rw (
        pixel_of_row _ _ i j (output_HasPixel i j p q),
        pixel_of_row bytes stride (x + i) (y + j) (source_HasPixel i j p q),
        in_chunk,
        zero_add,
        in_source,
        place,
        phase,
      )

  -- The crop of a rectangle that lies in the rows, and whose left edge and width are multiples of four
  -- pixels, succeeds, has five bytes for each four pixels, and holds at every position the pixel that
  -- the frame holds at the position behind the rectangle's origin.
  pub crop_raw10_bytes-pixels :
      (output : List ℕ) × (crop_raw10_bytes bytes stride x y width height ≡ ok output)
      × (length output ≡ height * (width / 4 * 5))
      × ((i j : ℕ)
          → i < width
          → j < height
          → packed_raw10_pixel_bytes output (width / 4 * 5) i j
            ≡ packed_raw10_pixel_bytes bytes stride (x + i) (y + j))
  crop_raw10_bytes-pixels = (
    chunks height 0 cropped_row,
    crop_chunks,
    length-chunks (width / 4 * 5) cropped_row height 0 length-cropped_row,
    crop_pixel,
  )
