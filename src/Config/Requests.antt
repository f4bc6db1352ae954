-- ===== src/Config/Requests.antt =====
-- What the host may ask for: a context stream beside the eyes, and the two eye rectangles.
use podbay_camera_firmware.Prelude.{
  ℕ, ◌+◌, ◌%◌, ◌^◌, ◌≤◌, ◌<◌, ◌≡◌, ◌↔◌, Bool, false, not, ◌||◌, ltb, ◌==◌, if◌then◌else◌, u32_max,
  as_u32, arith, Result, ok, err, fail_if, Option, none, some, eye_binning, eye_alignment,
  eye_outside, context_geometry, context_disabled_geometry, ◌>>◌,
}
use podbay_camera_firmware.Config.{SensorMode}

pub record ContextStream : Type 0 where
  pub every : ℕ
  pub context_width : ℕ
  pub context_height : ℕ

-- `source_width % width` stands behind the tests that make it safe.
unfoldable pub parse_context_stream : ℕ → ℕ → ℕ → ℕ → ℕ → Result (Option ContextStream)
parse_context_stream every width height source_width source_height =
    if every == 0
    then (if not (width == 0) || not (height == 0) then err context_disabled_geometry else ok none)
    else if width == 0
        || height == 0
        || not (source_width % width == 0)
        || not (source_height % height == 0)
    then err context_geometry
    else ok (some (record { every = every; context_width = width; context_height = height }))

-- `checked_add` of u32 and `is_none_or` with the test `> limit`.
unfoldable pub sum_exceeds : ℕ → ℕ → ℕ → Bool
sum_exceeds a b limit = ltb u32_max (a + b) || ltb limit (a + b)

-- The test of one eye in `validate_absolute_eye_rois`.
unfoldable pub is_bad_eye : SensorMode → ℕ → ℕ → ℕ × ℕ → Bool
is_bad_eye mode width height (x, y) =
    not (x % 4 == 0)
    || not (y % 2 == 0)
    || ltb x mode.sensor_x
    || ltb y mode.sensor_y
    || sum_exceeds x width (as_u32 (mode.sensor_x + mode.mode_width))
    || sum_exceeds y height (as_u32 (mode.sensor_y + mode.mode_height))

unfoldable pub is_bad_eye_size : ℕ → ℕ → Bool
is_bad_eye_size width height =
    width == 0 || not (width % 4 == 0) || height == 0 || not (height % 2 == 0)

unfoldable pub validate_absolute_eye_rois : SensorMode → ℕ × ℕ → ℕ × ℕ → ℕ → ℕ → Result (Unit {0})
validate_absolute_eye_rois mode left right width height = do
  fail_if (not (mode.mode_binning == 1)) eye_binning
  fail_if (is_bad_eye_size width height) eye_alignment
  fail_if (is_bad_eye mode width height left) eye_outside
  fail_if (is_bad_eye mode width height right) eye_outside

-- A context stream is accepted as disabled exactly with all three numbers zero, and as enabled
-- exactly with a positive period and a thumbnail that divides the source evenly, which it then
-- keeps.
pub parse_context_stream_iff :
    (every width height source_width source_height : ℕ)
    → ((parse_context_stream every width height source_width source_height ≡ ok none)
        ↔ ((every ≡ 0) × (width ≡ 0) × (height ≡ 0)))
      × ((parse_context_stream every width height source_width source_height
            ≡ ok (some (record { every = every; context_width = width; context_height = height })))
          ↔ ((0 < every)
              × (0 < width)
              × (0 < height)
              × (source_width % width ≡ 0)
              × (source_height % height ≡ 0)))
unfolding parse_context_stream
parse_context_stream_iff every width height sw sh =
    ((λ h. ground arith, λ h. ground arith), (λ h. ground arith, λ h. ground arith))

-- An eye rectangle on the grid of RAW10 groups and Bayer rows, inside the mode's window.
pub record IsEye (mode : SensorMode) (width height : ℕ) (eye : ℕ × ℕ) : Type 0 where
  pub x_aligned : eye.0 % 4 ≡ 0
  pub y_aligned : eye.1 % 2 ≡ 0
  pub left : mode.sensor_x ≤ eye.0
  pub top : mode.sensor_y ≤ eye.1
  pub right : eye.0 + width ≤ mode.sensor_x + mode.mode_width
  pub bottom : eye.1 + height ≤ mode.sensor_y + mode.mode_height

-- The mode's window ends within a u32.
abbrev pub EndsInWord : SensorMode → Type 0
EndsInWord mode =
    (mode.sensor_x + mode.mode_width < 2 ^ 32) × (mode.sensor_y + mode.mode_height < 2 ^ 32)

is_bad_eye_iff :
    (mode : SensorMode) (width height : ℕ) (eye : ℕ × ℕ)
    → EndsInWord mode
    → (is_bad_eye mode width height eye ≡ false) ↔ IsEye mode width height eye
unfolding is_bad_eye sum_exceeds
is_bad_eye_iff mode width height (x, y) e = (
  λ h. record {
    x_aligned = ground arith;
    y_aligned = ground arith;
    left = ground arith;
    top = ground arith;
    right = ground arith;
    bottom = ground arith;
  },
  λ h. ground arith,
)

pub record IsEyePair (mode : SensorMode) (left right : ℕ × ℕ) (width height : ℕ) : Type 0 where
  pub full_scale : mode.mode_binning ≡ 1
  pub wide : 0 < width
  pub tall : 0 < height
  pub groups : width % 4 ≡ 0
  pub rows : height % 2 ≡ 0
  pub left_eye : IsEye mode width height left
  pub right_eye : IsEye mode width height right

size_iff :
    (width height : ℕ)
    → (is_bad_eye_size width height ≡ false)
      ↔ ((0 < width) × (0 < height) × (width % 4 ≡ 0) × (height % 2 ≡ 0))
unfolding is_bad_eye_size
size_iff width height = (λ h. ground arith, λ h. ground arith)

-- In a window that ends within a u32, exactly the pairs of eye rectangles are accepted that are read
-- 1x1, hold whole RAW10 groups and Bayer rows, lie on the grid and lie inside the window.
pub validate_absolute_eye_rois_iff :
    (mode : SensorMode) (left right : ℕ × ℕ) (width height : ℕ)
    → EndsInWord mode
    → (validate_absolute_eye_rois mode left right width height ≡ ok tt)
      ↔ IsEyePair mode left right width height
unfolding validate_absolute_eye_rois
validate_absolute_eye_rois_iff mode left right width height e = (
  λ h.
      let (wide, tall, groups, rows) = (size_iff width height).0 (ground arith) in
      record {
        full_scale = ground arith;
        wide = wide;
        tall = tall;
        groups = groups;
        rows = rows;
        left_eye = (is_bad_eye_iff mode width height left e).0 (ground arith);
        right_eye = (is_bad_eye_iff mode width height right e).0 (ground arith);
      },
  λ h.
      let size = (size_iff width height).1 (h.wide, h.tall, h.groups, h.rows) in
      let l = (is_bad_eye_iff mode width height left e).1 h.left_eye in
      let r = (is_bad_eye_iff mode width height right e).1 h.right_eye in
      let one = h.full_scale in rw (size, l, r) (ground arith),
)
