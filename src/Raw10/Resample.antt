-- ===== src/Raw10/Resample.antt =====
-- `resample_raw10_bayer` gathers source pixels of the same Bayer phase.
use podbay_camera_firmware.Prelude.{
  ℕ, zero, suc, ◌+◌, ◌*◌, ◌/◌, ◌%◌, ◌≤◌, ◌<◌, ◌≡◌, inl, inr, refl, true, false, ◌&&◌, List, length,
  arith, ok, ltb, ◌==◌, Bool-cases,
}
use podbay_camera_firmware.Raw10.{
  RawFrame, collect, packed_raw10_pixel, packed_raw10_pixel_bytes, raw10_group, resample_coordinate,
  resample_group, is_bad_resize, resample_raw10_bayer, crop_raw10_bytes,
}
use podbay_camera_firmware.Raw10.Chunks.{chunks, collect-chunks, length-chunks, slice-chunks}
use podbay_camera_firmware.Raw10.Pixels.{
  HasPixel, pixel_at, pixel_of_row, pixel_read, pixel_value, pixel_value-lt, raw10_group-pixel,
}
use native.Mathlib.Nat.{div-add-mod, mod-lt}
use podbay_camera_firmware.Raw10.Crop.{crop_raw10_bytes-pixels, HasCrop}

-- A resize that the function accepts: even source sides, whole RAW10 groups and Bayer rows, and no
-- enlargement.
pub record IsResize (width height output_width output_height : ℕ) : Type 0 where
  pub even_width : width % 2 ≡ 0
  pub even_height : height % 2 ≡ 0
  pub some_width : 0 < output_width
  pub some_height : 0 < output_height
  pub groups : output_width % 4 ≡ 0
  pub rows : output_height % 2 ≡ 0
  pub no_wider : output_width ≤ width
  pub no_taller : output_height ≤ height

is_bad_resize_complete :
    (width height output_width output_height : ℕ)
    → IsResize width height output_width output_height
    → is_bad_resize width height output_width output_height ≡ false
unfolding is_bad_resize
is_bad_resize_complete w h ow oh r = ground arith

half_cell : (c s : ℕ) → 0 < s → (2 * c + 1) * s / (2 * s) ≡ c
half_cell c s h = grind (arith, div-add-mod ((2 * c + 1) * s) (2 * s), mod-lt)

-- Along an even side that is not enlarged, every output coordinate takes a source coordinate inside
-- the side and of its own parity, and at the native size it takes itself.
pub resample_coordinate_bounds :
    (size output_size output : ℕ)
    → size % 2 ≡ 0
    → output_size % 2 ≡ 0
    → output_size ≤ size
    → output < output_size
    → (resample_coordinate size output_size output < size)
      × (resample_coordinate size output_size output % 2 ≡ output % 2)
      × (resample_coordinate size size output ≡ output)
unfolding resample_coordinate
resample_coordinate_bounds size output_size output e f l p =
    (omega arith, omega arith, omega (arith, half_cell (output / 2) (size / 2) (omega arith)))

module _ (v : ℕ → ℕ) (small : (k : ℕ) → v k < 1024) where
  group_of : ℕ → List ℕ
  group_of group =
      raw10_group (v (group * 4)) (v (group * 4 + 1)) (v (group * 4 + 2)) (v (group * 4 + 3))

  group_phase : (g r : ℕ) → r < 4 → pixel_at (group_of g) 0 r ≡ ok (v (g * 4 + r))
  unfolding group_of
  group_phase g zero h =
      let e : g * 4 + 0 ≡ g * 4 = omega arith in
      rw e (raw10_group-pixel _ _ _ _ (small _) (small _) (small _) (small _)).0
  group_phase g (suc zero) h = (raw10_group-pixel _ _ _ _ (small _) (small _) (small _) (small _)).1
  group_phase g (suc (suc zero)) h =
      (raw10_group-pixel _ _ _ _ (small _) (small _) (small _) (small _)).2
  group_phase g (suc (suc (suc zero))) h =
      (raw10_group-pixel _ _ _ _ (small _) (small _) (small _) (small _)).3
  group_phase g (suc (suc (suc (suc r)))) h = absurd (omega arith)

  length-group_of : (g : ℕ) → length (group_of g) ≡ 5
  unfolding group_of raw10_group
  length-group_of g = refl

  -- The pixel i of a row of groups.
  row_of_groups :
      (groups i : ℕ)
      → i / 4 < groups
      → pixel_at (chunks groups 0 group_of) (i / 4 * 5) (i % 4) ≡ ok (v i)
  unfolding pixel_at
  row_of_groups groups i h =
      let found =
        slice-chunks 5 group_of groups 0 (i / 4) 0 5 (λ k p q. length-group_of k) h (omega arith) in
      let e : i / 4 * 5 + 0 ≡ i / 4 * 5 = omega arith in
      let z : 0 + i / 4 ≡ i / 4 = omega arith in
      let whole : i / 4 * 4 + i % 4 ≡ i = omega arith in
      let pixel = group_phase (i / 4) (i % 4) (omega arith) in
      let there = rw (e, z) at found in rw there (rw whole at pixel)

module _ (frame : RawFrame) (width height output_width output_height : ℕ)
    (resize : IsResize width height output_width output_height)
    (whole_frame : frame.stride * height ≤ length frame.bytes)
    (whole_rows : (width + 3) / 4 * 5 ≤ frame.stride) where
  abbrev source_x : ℕ → ℕ
  source_x = resample_coordinate width output_width

  abbrev source_y : ℕ → ℕ
  source_y = resample_coordinate height output_height

  source_HasPixel : (x y : ℕ) → x < width → y < height → HasPixel frame.bytes frame.stride x y
  source_HasPixel x y p q = record { row = grind arith; group = omega arith }

  abbrev row_values : ℕ → ℕ → ℕ
  row_values y k = pixel_value frame.bytes frame.stride (source_x k) (source_y y)

  source_read :
      (k y : ℕ)
      → k < output_width
      → y < output_height
      → packed_raw10_pixel frame (source_x k) (source_y y) ≡ ok (row_values y k)
  unfolding packed_raw10_pixel
  source_read k y p q =
      let (inside_x, _, _) =
        resample_coordinate_bounds width output_width k resize.even_width
          (let g = resize.groups in omega arith) resize.no_wider p in
      let (inside_y, _, _) =
        resample_coordinate_bounds height output_height y resize.even_height resize.rows
          resize.no_taller q in
      pixel_read frame.bytes frame.stride (source_x k) (source_y y)
        (source_HasPixel (source_x k) (source_y y) inside_x inside_y)

  abbrev row_groups : ℕ → ℕ → List ℕ
  row_groups y =
      group_of (row_values y)
        (λ k. pixel_value-lt frame.bytes frame.stride (source_x k) (source_y y))

  resample_group_ok :
      (y g : ℕ)
      → y < output_height
      → 0 ≤ g
      → g < 0 + output_width / 4
      → resample_group frame width output_width (source_y y) g ≡ ok (row_groups y g)
  unfolding resample_group group_of
  resample_group_ok y g q o p =
      let w = resize.groups in
      rw (
        source_read (g * 4) y (omega arith) q,
        source_read (g * 4 + 1) y (omega arith) q,
        source_read (g * 4 + 2) y (omega arith) q,
        source_read (g * 4 + 3) y (omega arith) q,
      )

  abbrev output_row : ℕ → List ℕ
  output_row y = chunks (output_width / 4) 0 (row_groups y)

  length-output_row :
      (y : ℕ) → 0 ≤ y → y < 0 + output_height → length (output_row y) ≡ output_width / 4 * 5
  length-output_row y p q =
      length-chunks 5 (row_groups y) (output_width / 4) 0
        (λ k r s. length-group_of (row_values y) _ k)

  abbrev resampled : List ℕ
  resampled = chunks output_height 0 output_row

  rows_ok :
      collect output_height 0 (λ y.
        collect (output_width / 4) 0 (λ g. resample_group frame width output_width (source_y y) g))
      ≡ ok resampled
  rows_ok = collect-chunks output_height 0 _ output_row (λ y p q.
      collect-chunks (output_width / 4) 0 _ (row_groups y)
        (λ g o r. resample_group_ok y g (omega arith) o r))

  resampled_pixel :
      (i j : ℕ)
      → i < output_width
      → j < output_height
      → packed_raw10_pixel_bytes resampled (output_width / 4 * 5) i j
        ≡ packed_raw10_pixel frame (source_x i) (source_y j)
  unfolding pixel_at
  resampled_pixel i j p q =
      let w = resize.groups in
      let total =
        length-chunks (output_width / 4 * 5) output_row output_height 0 length-output_row in
      let has : HasPixel resampled (output_width / 4 * 5) i j = record {
        row = grind arith;
        group = omega arith;
      } in
      let found =
        slice-chunks (output_width / 4 * 5) output_row output_height 0 j (i / 4 * 5) 5
          length-output_row q (omega arith) in
      let z : 0 + j ≡ j = omega arith in
      let in_row =
        row_of_groups (row_values j)
          (λ k. pixel_value-lt frame.bytes frame.stride (source_x k) (source_y j))
          (output_width / 4) i (omega arith) in
      rw (pixel_of_row resampled (output_width / 4 * 5) i j has, source_read i j p q, found, z)
        in_row

  -- What a resize promises of its bytes.
  abbrev Resized : List ℕ → Type 0
  Resized output =
      (resample_raw10_bayer frame width height output_width output_height ≡ ok output)
      × (length output ≡ output_height * (output_width / 4 * 5))
      × ((i j : ℕ)
          → i < output_width
          → j < output_height
          → packed_raw10_pixel_bytes output (output_width / 4 * 5) i j
            ≡ packed_raw10_pixel frame (source_x i) (source_y j))

  native_crop : output_width ≡ width → HasCrop frame.bytes frame.stride 0 0 width height
  native_crop ew =
      let w = resize.groups in
      record {
        x_aligned = omega arith;
        width_aligned = omega arith;
        inside_row = omega arith;
        rows = grind arith;
      }

  native_resize :
      (output : List ℕ)
      → output_width ≡ width
      → output_height ≡ height
      → crop_raw10_bytes frame.bytes frame.stride 0 0 width height ≡ ok output
      → length output ≡ height * (width / 4 * 5)
      → ((i j : ℕ)
          → i < width
          → j < height
          → packed_raw10_pixel_bytes output (width / 4 * 5) i j
            ≡ packed_raw10_pixel_bytes frame.bytes frame.stride (0 + i) (0 + j))
      → Resized output
  unfolding resample_raw10_bayer packed_raw10_pixel
  native_resize output ew eh cropped total pixels =
      let accepted = is_bad_resize_complete width height output_width output_height resize in
      let long : ltb (length frame.bytes) (frame.stride * height) ≡ false = ground arith in
      let same : (output_width == width && output_height == height) ≡ true = ground arith in
      (
        rw (accepted, long, same) cropped,
        rw (ew, eh) total,
        λ i j p q.
            let (_, _, x) =
              resample_coordinate_bounds width width i resize.even_width resize.even_width
                (omega arith) (omega arith) in
            let (_, _, y) =
              resample_coordinate_bounds height height j resize.even_height resize.even_height
                (omega arith) (omega arith) in
            let zx : 0 + i ≡ i = omega arith in
            let zy : 0 + j ≡ j = omega arith in
            let moved = rw (zx, zy) at (pixels i j (omega arith) (omega arith)) in
            rw (ew, eh) (rw (x, y) moved),
      )

  -- A resize that is accepted, of a frame whose rows are there, succeeds, has five bytes for each
  -- four pixels, and holds at every position the source pixel that `resample_coordinate` names in
  -- each direction, at the native size and below it.
  pub resample_raw10_bayer-pixels : (output : List ℕ) × Resized output
  unfolding resample_raw10_bayer
  resample_raw10_bayer-pixels =
      elim (Bool-cases (output_width == width && output_height == height)) [
        | inl same ↦
            let ew : output_width ≡ width = ground arith in
            let eh : output_height ≡ height = ground arith in
            let (output, cropped, total, pixels) =
              crop_raw10_bytes-pixels frame.bytes frame.stride 0 0 width height (native_crop ew) in
            (output, native_resize output ew eh cropped total pixels)
        | inr other ↦
            let accepted = is_bad_resize_complete width height output_width output_height resize in
            let long : ltb (length frame.bytes) (frame.stride * height) ≡ false = ground arith in
            (
              resampled,
              (
                rw (accepted, long, other) rows_ok,
                length-chunks (output_width / 4 * 5) output_row output_height 0 length-output_row,
                resampled_pixel,
              ),
            )
      ]
