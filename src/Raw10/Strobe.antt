-- ===== src/Raw10/Strobe.antt =====
-- `downsample_raw10_gray` where it strobes, and `downsample_raw10_gray_strobe`.
use podbay_camera_firmware.Prelude.{
  ℕ, ◌+◌, ◌*◌, ◌%◌, ◌≤◌, ◌<◌, ◌≡◌, true, false, ◌||◌, List, arith, Result, u32_max, ltb, ◌==◌,
}
use podbay_camera_firmware.Raw10.{
  RawFrame, collect, cell_average, downsample_raw10_gray_strobe, corner_coordinate,
  is_bad_thumbnail, strobe_coordinate, gray_pixel, has_bayer_strobe, downsample_raw10_gray,
}
use podbay_camera_firmware.Raw10.Cells.{HasFrame, StaysInside, Samples, grid-Samples}

-- The corner coordinates are even and leave room for a cell.
pub corner_coordinate_bounds :
    (size outputs k : ℕ)
    → 2 ≤ size
    → (corner_coordinate size outputs k % 2 ≡ 0) × (corner_coordinate size outputs k + 1 < size)
unfolding corner_coordinate
corner_coordinate_bounds size outputs k h = omega arith

-- A strobed thumbnail of a frame that holds all its pixels, of at least two in each direction, and no
-- larger than the frame, succeeds, and each of its pixels is the average of the 2x2 cell at the
-- corner coordinates.
pub downsample_strobe-Samples :
    (frame : RawFrame) (width height output_width output_height : ℕ)
    → HasFrame frame.bytes frame.stride width height
    → 2 ≤ width
    → 2 ≤ height
    → 0 < output_width
    → 0 < output_height
    → output_width ≤ width
    → output_height ≤ height
    → (output : List ℕ) × Samples frame.bytes frame.stride
        (corner_coordinate width output_width)
        (corner_coordinate height output_height)
        output_width
        output_height
        (downsample_raw10_gray_strobe frame width height output_width output_height)
        output
unfolding downsample_raw10_gray_strobe is_bad_thumbnail
downsample_strobe-Samples frame width height ow oh whole w h sw sh nw nh =
    let fx = corner_coordinate width ow in
    let fy = corner_coordinate height oh in
    let in_x : StaysInside fx ow width = λ k p. (corner_coordinate_bounds width ow k w).1 in
    let in_y : StaysInside fy oh height = λ k p. (corner_coordinate_bounds height oh k h).1 in
    let accepted : (ltb width 2
          || ltb height 2
          || (ow == 0 || oh == 0 || ltb width ow || ltb height oh))
        ≡ false =
      ground arith in
    rw accepted (_, grid-Samples frame.bytes frame.stride width height whole fx fy ow oh in_x in_y)

-- The strobe coordinates are even and leave room for a cell.
pub strobe_coordinate_bounds :
    (size outputs k : ℕ)
    → 2 ≤ size
    → (strobe_coordinate size outputs k % 2 ≡ 0) × (strobe_coordinate size outputs k + 1 < size)
unfolding strobe_coordinate
strobe_coordinate_bounds size outputs k h = omega arith

-- Where the thumbnail strobes, a round of its loop averages a cell.
gray_round :
    (frame : RawFrame) (width height output_width output_height : ℕ)
    → has_bayer_strobe width height output_width output_height ≡ true
    → ◌≡◌ {A = ℕ → Result (List ℕ)}
        (λ y. collect output_width 0 (gray_pixel frame width height output_width output_height y))
        (λ y. collect output_width 0 (λ x.
          cell_average frame.bytes frame.stride
            (strobe_coordinate width output_width x)
            (strobe_coordinate height output_height y)))
gray_round frame width height ow oh strobes i y = collect ow 0 (λ x. strobed y x i)
  where
    strobed :
        (y x : ℕ)
        → gray_pixel frame width height ow oh y x
          ≡ cell_average frame.bytes frame.stride
              (strobe_coordinate width ow x)
              (strobe_coordinate height oh y)
    strobed y x = unfold gray_pixel in rw strobes

-- A thumbnail of a frame that holds all its pixels, of a size that fits a u32, and at least twice as
-- large in each direction, succeeds, and each of its pixels is the average of the 2x2 cell at the
-- strobe coordinates.
pub downsample_gray-Samples :
    (frame : RawFrame) (width height output_width output_height : ℕ)
    → HasFrame frame.bytes frame.stride width height
    → width ≤ u32_max
    → height ≤ u32_max
    → 0 < output_width
    → 0 < output_height
    → 2 * output_width ≤ width
    → 2 * output_height ≤ height
    → (output : List ℕ) × Samples frame.bytes frame.stride
        (strobe_coordinate width output_width)
        (strobe_coordinate height output_height)
        output_width
        output_height
        (downsample_raw10_gray frame width height output_width output_height)
        output
unfolding downsample_raw10_gray is_bad_thumbnail
downsample_gray-Samples frame width height ow oh whole w h sw sh nw nh =
    let fx = strobe_coordinate width ow in
    let fy = strobe_coordinate height oh in
    let in_x : StaysInside fx ow width =
      λ k p. (strobe_coordinate_bounds width ow k (omega arith)).1 in
    let in_y : StaysInside fy oh height =
      λ k p. (strobe_coordinate_bounds height oh k (omega arith)).1 in
    let accepted : (ow == 0 || oh == 0 || ltb width ow || ltb height oh) ≡ false = ground arith in
    let strobes : has_bayer_strobe width height ow oh ≡ true =
      unfold has_bayer_strobe in ground arith in
    let same = gray_round frame width height ow oh strobes in
    rw (accepted, same)
      (_, grid-Samples frame.bytes frame.stride width height whole fx fy ow oh in_x in_y)
