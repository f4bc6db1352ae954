-- ===== src/Raw10.antt =====
-- The image functions of camera-service/src/main.rs over packed RAW10: five bytes hold four pixels of
-- ten bits. A frame is its bytes and its stride. A function that would panic returns `err panic`.
pub mod Slices
pub mod Chunks
pub mod Pixels
pub mod Crop
pub mod Resample
pub mod Cells
pub mod Tracking
pub mod Strobe
mod Tests
use podbay_camera_firmware.Prelude.{
  ℕ, zero, suc, ◌+◌, ◌-◌, ◌*◌, ◌/◌, ◌%◌, ◌^◌, min, Bool, not, ◌&&◌, ◌||◌, List, [], ◌∷◌, ◌++◌,
  length, take, drop, ltb, leb, ◌==◌, if◌then◌else◌, as_u32, sat_mul, u32_max, Result, ok, err,
  ◌>>=◌, ◌>>◌, fail_if, panic, crop_outside, thumbnail_geometry, strobe_geometry, resize_geometry,
  raw10_short, tracking_geometry, tracking_scale,
}
use podbay_camera_firmware.Bytes.{le_bytes, from_le_bytes}

-- `&bytes[start..start + count]`
unfoldable pub slice : List ℕ → ℕ → ℕ → Result (List ℕ)
slice bytes start count =
    if ltb (length bytes) (start + count) then err panic else ok (take count (drop start bytes))

-- A loop over `start..start + n` that appends what each round makes, and stops at an error.
unfoldable pub collect : ℕ → ℕ → (ℕ → Result (List ℕ)) → Result (List ℕ)
collect zero start round = ok []
collect (suc n) start round = do
  first ← round start
  rest ← collect n (suc start) round
  ok (first ++ rest)

-- The rows of the crop are copied one behind the other into a buffer of their total size, which the
-- model appends.
unfoldable pub crop_row : List ℕ → ℕ → ℕ → ℕ → ℕ → Result (List ℕ)
crop_row source source_stride byte_x output_stride row =
    let start = row * source_stride + byte_x in
    if ltb (length source) (start + output_stride)
    then err crop_outside
    else ok (take output_stride (drop start source))

unfoldable pub crop_raw10_bytes : List ℕ → ℕ → ℕ → ℕ → ℕ → ℕ → Result (List ℕ)
unfolding crop_row collect
crop_raw10_bytes source source_stride x y width height =
    let byte_x = x / 4 * 5 in
    let output_stride = width / 4 * 5 in
    collect height 0 (λ row. crop_row source source_stride byte_x output_stride (y + row))

-- The five bytes of the pixel's group share no bit once shifted, so `|` is a sum: the word is the
-- little-endian number of the bytes. `& 0x3ff` is the remainder by 1024.
unfoldable pub packed_raw10_pixel_bytes : List ℕ → ℕ → ℕ → ℕ → Result ℕ
packed_raw10_pixel_bytes bytes stride x y = do
  row ← slice bytes (y * stride) stride
  group ← slice row (x / 4 * 5) 5
  ok (from_le_bytes group / 2 ^ (x % 4 * 10) % 1024)

pub record RawFrame : Type 0 where
  pub bytes : List ℕ
  pub stride : ℕ  -- u32
  pub timestamp_ns : ℕ  -- u64

unfoldable pub crop_raw10 : RawFrame → ℕ → ℕ → ℕ → ℕ → Result (List ℕ)
unfolding crop_raw10_bytes
crop_raw10 frame x y width height = crop_raw10_bytes frame.bytes frame.stride x y width height

unfoldable pub packed_raw10_pixel : RawFrame → ℕ → ℕ → Result ℕ
packed_raw10_pixel frame x y = packed_raw10_pixel_bytes frame.bytes frame.stride x y

-- The four reads of a 2x2 cell and the two bytes of their average, as the sampling loops have them.
unfoldable pub cell_average : List ℕ → ℕ → ℕ → ℕ → Result (List ℕ)
cell_average bytes stride x y = do
  a ← packed_raw10_pixel_bytes bytes stride x y
  b ← packed_raw10_pixel_bytes bytes stride (x + 1) y
  c ← packed_raw10_pixel_bytes bytes stride x (y + 1)
  d ← packed_raw10_pixel_bytes bytes stride (x + 1) (y + 1)
  ok (le_bytes 2 ((a + b + c + d) / 4))

-- `value & !1`
abbrev pub even_below : ℕ → ℕ
even_below value = value / 2 * 2

-- The source coordinate of a column or row in `downsample_raw10_tracking_context_bytes`.
unfoldable pub tracking_coordinate : ℕ → ℕ → ℕ
tracking_coordinate scale output = even_below (output * scale + (scale - 2) / 2)

unfoldable pub is_bad_context : ℕ → ℕ → ℕ → ℕ → Bool
is_bad_context width height output_width output_height =
    output_width == 0
    || output_height == 0
    || not (width % output_width == 0)
    || not (height % output_height == 0)

unfoldable pub downsample_raw10_tracking_context_bytes :
    List ℕ → ℕ → ℕ → ℕ → ℕ → ℕ → Result (List ℕ)
downsample_raw10_tracking_context_bytes source stride width height output_width output_height = do
  fail_if (is_bad_context width height output_width output_height) tracking_geometry
  let scale_x = width / output_width
  let scale_y = height / output_height
  fail_if (ltb scale_x 2 || ltb scale_y 2) tracking_scale
  collect output_height 0 (λ output_y. collect output_width 0 (λ output_x.
      cell_average source stride (tracking_coordinate scale_x output_x)
        (tracking_coordinate scale_y output_y)))

unfoldable pub downsample_raw10_tracking_context : RawFrame → ℕ → ℕ → ℕ → ℕ → Result (List ℕ)
downsample_raw10_tracking_context frame width height output_width output_height =
    downsample_raw10_tracking_context_bytes frame.bytes frame.stride width height output_width
      output_height

-- A loop over `start..start + n` that adds up what each round reads, in a u32.
unfoldable pub sum_over : ℕ → ℕ → (ℕ → Result ℕ) → Result ℕ
sum_over zero start read = ok 0
sum_over (suc n) start read = do
  first ← read start
  rest ← sum_over n (suc start) read
  ok (as_u32 (first + rest))

-- The proportional box of an output pixel along one side: `output * size / output_size`.
unfoldable pub box_start : ℕ → ℕ → ℕ → ℕ
box_start size output_size output = output * size / output_size

-- `((start + end) / 2).saturating_sub(1).min(size - 2) & !1`
unfoldable pub strobe_coordinate : ℕ → ℕ → ℕ → ℕ
strobe_coordinate size output_size output = even_below (
    min ((box_start size output_size output + box_start size output_size (output + 1)) / 2 - 1)
      (size - 2))

-- The average of every pixel of the box.
unfoldable pub box_average : RawFrame → ℕ → ℕ → ℕ → ℕ → Result (List ℕ)
unfolding sum_over
box_average frame x0 x1 y0 y1 = do
  sum ← sum_over (y1 - y0) y0 (λ y. sum_over (x1 - x0) x0 (λ x. packed_raw10_pixel frame x y))
  ok (le_bytes 2 (sum / ((x1 - x0) * (y1 - y0))))

unfoldable pub is_bad_thumbnail : ℕ → ℕ → ℕ → ℕ → Bool
is_bad_thumbnail width height output_width output_height =
    output_width == 0 || output_height == 0 || ltb width output_width || ltb height output_height

-- `bayer_strobe`
unfoldable pub has_bayer_strobe : ℕ → ℕ → ℕ → ℕ → Bool
has_bayer_strobe width height output_width output_height =
    leb (sat_mul u32_max output_width 2) width && leb (sat_mul u32_max output_height 2) height

unfoldable pub gray_pixel : RawFrame → ℕ → ℕ → ℕ → ℕ → ℕ → ℕ → Result (List ℕ)
gray_pixel frame width height output_width output_height output_y output_x =
    if has_bayer_strobe width height output_width output_height
    then cell_average frame.bytes frame.stride (strobe_coordinate width output_width output_x)
        (strobe_coordinate height output_height output_y)
    else box_average frame (box_start width output_width output_x)
        (box_start width output_width (output_x + 1)) (box_start height output_height output_y)
        (box_start height output_height (output_y + 1))

unfoldable pub downsample_raw10_gray : RawFrame → ℕ → ℕ → ℕ → ℕ → Result (List ℕ)
downsample_raw10_gray frame width height output_width output_height = do
  fail_if (is_bad_thumbnail width height output_width output_height) thumbnail_geometry
  collect output_height 0 (λ output_y.
      collect output_width 0
        (λ output_x. gray_pixel frame width height output_width output_height output_y output_x))

-- The coordinate of `downsample_raw10_gray_strobe`.
unfoldable pub corner_coordinate : ℕ → ℕ → ℕ → ℕ
corner_coordinate size output_size output =
    even_below (min (box_start size output_size output) (size - 2))

unfoldable pub downsample_raw10_gray_strobe : RawFrame → ℕ → ℕ → ℕ → ℕ → Result (List ℕ)
downsample_raw10_gray_strobe frame width height output_width output_height = do
  fail_if (ltb width 2 || ltb height 2 || is_bad_thumbnail width height output_width output_height)
      strobe_geometry
  collect output_height 0 (λ output_y. collect output_width 0 (λ output_x.
      cell_average frame.bytes frame.stride (corner_coordinate width output_width output_x)
        (corner_coordinate height output_height output_y)))

-- `push_raw10_group`: the ten-bit fields share no bit, so `|` is a sum.
unfoldable pub raw10_group : ℕ → ℕ → ℕ → ℕ → List ℕ
raw10_group p0 p1 p2 p3 =
    le_bytes 5 (p0 % 1024 + p1 % 1024 * 2 ^ 10 + p2 % 1024 * 2 ^ 20 + p3 % 1024 * 2 ^ 30)

-- The source coordinate of a column or row in `resample_raw10_bayer`.
unfoldable pub resample_coordinate : ℕ → ℕ → ℕ → ℕ
resample_coordinate size output_size output =
    let source_cells = size / 2 in
    let output_cells = output_size / 2 in
    let output_cell = output / 2 in
    let source_cell =
      min ((2 * output_cell + 1) * source_cells / (2 * output_cells)) (source_cells - 1) in
    source_cell * 2 + output % 2

unfoldable pub resample_group : RawFrame → ℕ → ℕ → ℕ → ℕ → Result (List ℕ)
resample_group frame width output_width source_y group = do
  let output_x = group * 4
  p0 ← packed_raw10_pixel frame (resample_coordinate width output_width output_x) source_y
  p1 ← packed_raw10_pixel frame (resample_coordinate width output_width (output_x + 1)) source_y
  p2 ← packed_raw10_pixel frame (resample_coordinate width output_width (output_x + 2)) source_y
  p3 ← packed_raw10_pixel frame (resample_coordinate width output_width (output_x + 3)) source_y
  ok (raw10_group p0 p1 p2 p3)

unfoldable pub is_bad_resize : ℕ → ℕ → ℕ → ℕ → Bool
is_bad_resize width height output_width output_height =
    width == 0
    || height == 0
    || not (width % 2 == 0)
    || not (height % 2 == 0)
    || output_width == 0
    || output_height == 0
    || not (output_width % 4 == 0)
    || not (output_height % 2 == 0)
    || ltb width output_width
    || ltb height output_height

unfoldable pub resample_raw10_bayer : RawFrame → ℕ → ℕ → ℕ → ℕ → Result (List ℕ)
resample_raw10_bayer frame width height output_width output_height = do
  fail_if (is_bad_resize width height output_width output_height) resize_geometry
  fail_if (ltb (length frame.bytes) (frame.stride * height)) raw10_short
  if output_width == width && output_height == height
      then crop_raw10_bytes frame.bytes frame.stride 0 0 width height
      else collect output_height 0 (λ output_y. collect (output_width / 4) 0 (λ group.
        resample_group frame width output_width (resample_coordinate height output_height output_y)
          group))
