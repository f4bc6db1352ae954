-- ===== src/Graph/Pixels.antt =====
-- What an acquired set of eyes holds.
use podbay_camera_firmware.Prelude.{
  Bool, fail_if, ℕ, ◌+◌, ◌*◌, ◌/◌, ◌%◌, ◌≤◌, ◌<◌, ◌≡◌, refl, sym, ap, ◌∙◌, u32_max, true, false,
  Option, List, length, arith, Result, ok, err, Error, ◌>>=◌,
}
use podbay_camera_firmware.Device.Runs.{continue_ok}
use podbay_camera_firmware.Config.Requests.{ContextStream}
use podbay_camera_firmware.Raw10.{crop_raw10_bytes, packed_raw10_pixel_bytes}
use podbay_camera_firmware.Raw10.Crop.{HasCrop, crop_raw10_bytes-pixels}
use podbay_camera_firmware.Graph.{Mi, Graph}
use podbay_camera_firmware.Graph.Frames.{Metadata, validate_metadata, read_memory}
use podbay_camera_firmware.Graph.Eyes.{
  is_bad_eye_frame, relative_eye, eye_exceeds, relative_eyes, cut_eyes, context_of,
}
use podbay_camera_firmware.Graph.EyeSet.{flush_eyes, cut_from_memory, extract}
use podbay_camera_firmware.Graph.Copies.{length-read_memory}

bind_ok :
    {A B : Type 0} (r : Result A) (k : A → Result B) (b : B)
    → (r >>= k) ≡ ok b
    → (a : A) × (r ≡ ok a) × (k a ≡ ok b)
bind_ok (ok a) k b h = (a, refl, h)
bind_ok (err e) k b h = cc

-- An eye in coordinates of the band that the buffer holds.
pub record Inside (g : Graph) (width height : ℕ) (eye relative : ℕ × ℕ) : Type 0 where
  pub x_inside : relative.0 + g.origin_x ≡ eye.0
  pub y_inside : relative.1 + g.origin_y ≡ eye.1
  pub right : relative.0 + width ≤ g.graph_width
  pub bottom : relative.1 + height ≤ g.graph_height

-- The pixels of a rectangle of a byte string.
unfoldable pub IsCut : List ℕ → List ℕ → ℕ → ℕ × ℕ → ℕ → ℕ → Type 0
IsCut output source stride corner width height =
    (i j : ℕ)
    → i < width
    → j < height
    → packed_raw10_pixel_bytes output (width / 4 * 5) i j
      ≡ packed_raw10_pixel_bytes source stride (corner.0 + i) (corner.1 + j)

relative_eye_ok :
    (g : Graph) (x y : ℕ) (relative : ℕ × ℕ)
    → relative_eye g (x, y) ≡ ok relative
    → (relative.0 + g.origin_x ≡ x) × (relative.1 + g.origin_y ≡ y)
unfolding relative_eye
relative_eye_ok g x y relative h = ground arith

crop-IsCut :
    (source output : List ℕ) (stride x y width height : ℕ)
    → HasCrop source stride x y width height
    → crop_raw10_bytes source stride x y width height ≡ ok output
    → IsCut output source stride (x, y) width height
unfolding IsCut
crop-IsCut source output stride x y width height h done =
    let (cut, is_cut, _, pixels) = crop_raw10_bytes-pixels source stride x y width height h in
    let same : cut ≡ output = cc in rw (sym same) pixels

checked :
    {A : Type 0} (test : Bool) (e : Error) (a b : A)
    → (fail_if test e >>= λ _. ok a) ≡ ok b
    → (test ≡ false) × (a ≡ b)
checked true e a b h = cc
checked false e a b h = (refl, cc)

relative_eyes-Inside :
    (g : Graph) (lx ly rx ry width height : ℕ) (eyes : (ℕ × ℕ) × (ℕ × ℕ))
    → g.graph_width < u32_max
    → g.graph_height < u32_max
    → relative_eyes g (lx, ly) (rx, ry) width height ≡ ok eyes
    → Inside g width height (lx, ly) eyes.0 × Inside g width height (rx, ry) eyes.1
unfolding relative_eyes eye_exceeds
relative_eyes-Inside g lx ly rx ry width height eyes wide tall h =
    let (l, is_l, h') = bind_ok (relative_eye g (lx, ly)) _ eyes h in
    let (r, is_r, h'') = bind_ok (relative_eye g (rx, ry)) _ eyes h' in
    let (within, same) = checked _ _ (l, r) eyes h'' in
    let (l_x, l_y) = relative_eye_ok g lx ly l is_l in
    let (r_x, r_y) = relative_eye_ok g rx ry r is_r in
    rw (sym same) (
      record { x_inside = l_x; y_inside = l_y; right = ground arith; bottom = ground arith },
      record { x_inside = r_x; y_inside = r_y; right = ground arith; bottom = ground arith },
    )

-- What the checks of the buffer say of its rows.
bad_eye_frame_rows :
    (g : Graph) (m : Metadata)
    → validate_metadata g m (is_bad_eye_frame g m) ≡ ok tt
    → m.source_stride * g.graph_height ≤ u32_max
    → ((g.graph_width + 3) / 4 * 5 ≤ m.source_stride)
      × (m.source_stride * g.graph_height ≤ m.buffer_size)
unfolding validate_metadata is_bad_eye_frame
bad_eye_frame_rows g m h small = (ground arith, ground arith)

rows_below : (a b stride : ℕ) → a ≤ b → a * stride ≤ stride * b
rows_below a b stride h = grind arith

Inside-HasCrop :
    (g : Graph) (m : Metadata) (source : List ℕ) (width height : ℕ) (eye relative : ℕ × ℕ)
    → Inside g width height eye relative
    → relative.0 % 4 ≡ 0
    → width % 4 ≡ 0
    → (g.graph_width + 3) / 4 * 5 ≤ m.source_stride
    → m.source_stride * g.graph_height ≤ length source
    → HasCrop source m.source_stride relative.0 relative.1 width height
Inside-HasCrop g m source width height eye relative inside x_aligned w_aligned columns rows =
    let right = inside.right in
    let below = rows_below (relative.1 + height) g.graph_height m.source_stride inside.bottom in
    record {
      x_aligned = x_aligned;
      width_aligned = w_aligned;
      inside_row = omega arith;
      rows = omega arith;
    }

cut_eyes_ok :
    (g : Graph) (m : Metadata) (source : List ℕ) (context : Option ContextStream)
    (width height lx ly rx ry : ℕ) (cut : List ℕ × List ℕ × Option (List ℕ))
    → cut_eyes g m source context width height (lx, ly) (rx, ry) ≡ ok cut
    → (crop_raw10_bytes source m.source_stride lx ly width height ≡ ok cut.0)
      × (crop_raw10_bytes source m.source_stride rx ry width height ≡ ok cut.1)
unfolding cut_eyes
cut_eyes_ok g m source context width height lx ly rx ry cut h =
    let (thumbnail, is_thumbnail, h') = bind_ok (context_of g m source context) _ cut h in
    let (left, is_left, h'') =
      bind_ok (crop_raw10_bytes source m.source_stride lx ly width height) _ cut h' in
    let (right, is_right, h''') =
      bind_ok (crop_raw10_bytes source m.source_stride rx ry width height) _ cut h'' in
    let same : (left, right, thumbnail) ≡ cut = cc in rw (sym same) (is_left, is_right)

module _ (sdk : Mi) where
  -- The buffer's bytes once its part of the cache is dropped.
  abbrev pub source_of : Metadata → sdk.State → List ℕ
  source_of m s = read_memory (sdk.memory s) m.address m.buffer_size

  -- From a band whose sides are words and whose buffer ends within 32 bits, for eyes on the band's grid of
  -- RAW10 groups and of a width on it: if the cutting of a buffer succeeds, both rectangles lie in the
  -- band where they were asked for in coordinates of the sensor, and each pixel of a payload is the pixel
  -- of the flushed buffer at that place.
  pub extract-IsCut :
      (g : Graph) (m : Metadata) (lx ly rx ry width height : ℕ) (context : Option ContextStream)
      (s : sdk.State) (cut : List ℕ × List ℕ × Option (List ℕ))
      → g.graph_width < u32_max
      → g.graph_height < u32_max
      → m.source_stride * g.graph_height ≤ u32_max
      → width % 4 ≡ 0
      → lx % 4 ≡ g.origin_x % 4
      → rx % 4 ≡ g.origin_x % 4
      → (extract sdk g m (lx, ly) (rx, ry) width height context s).0 ≡ ok cut
      → (eyes : (ℕ × ℕ) × (ℕ × ℕ)) × Inside g width height (lx, ly) eyes.0
        × Inside g width height (rx, ry) eyes.1
        × IsCut cut.0
            (source_of m (flush_eyes sdk m context height eyes s).1)
            m.source_stride
            eyes.0
            width
            height
        × IsCut cut.1
            (source_of m (flush_eyes sdk m context height eyes s).1)
            m.source_stride
            eyes.1
            width
            height
  unfolding extract cut_from_memory
  extract-IsCut g m lx ly rx ry width height context s cut wide tall small w_aligned l_aligned
        r_aligned done =
      let (_, s1, valid, done') =
        continue_ok (validate_metadata g m (is_bad_eye_frame g m), s) _ cut done in
      let (eyes, s2, found, done'') =
        continue_ok (relative_eyes g (lx, ly) (rx, ry) width height, s1) _ cut done' in
      let (_, s3, flushed, done''') =
        continue_ok (flush_eyes sdk m context height eyes s2) _ cut done'' in
      let (columns, rows) = bad_eye_frame_rows g m (ap (λ p. p.0) valid) small in
      let (in_left, in_right) =
        relative_eyes-Inside g lx ly rx ry width height eyes wide tall (ap (λ p. p.0) found) in
      let same : s2 ≡ s = ap (λ p. p.1) (sym found) ∙ ap (λ p. p.1) (sym valid) in
      let after : s3 ≡ (flush_eyes sdk m context height eyes s).1 =
        ap (λ p. p.1) (sym flushed) ∙ ap (λ t. (flush_eyes sdk m context height eyes t).1) same in
      let (is_left, is_right) =
        cut_eyes_ok g m (source_of m s3) context width height eyes.0.0 eyes.0.1 eyes.1.0 eyes.1.1
          cut done''' in
      let whole = length-read_memory (sdk.memory s3) m.address m.buffer_size in
      let enough : m.source_stride * g.graph_height ≤ length (source_of m s3) =
        omega (arith, whole) in
      let l =
        Inside-HasCrop g m (source_of m s3) width height (lx, ly) eyes.0 in_left
          (on_grid eyes.0.0 g.origin_x lx in_left.x_inside l_aligned) w_aligned columns enough in
      let r =
        Inside-HasCrop g m (source_of m s3) width height (rx, ry) eyes.1 in_right
          (on_grid eyes.1.0 g.origin_x rx in_right.x_inside r_aligned) w_aligned columns enough in
      (
        eyes,
        in_left,
        in_right,
        rw (sym after) (
            crop-IsCut (source_of m s3) cut.0 m.source_stride eyes.0.0 eyes.0.1 width height l
              is_left),
        rw (sym after) (
            crop-IsCut (source_of m s3) cut.1 m.source_stride eyes.1.0 eyes.1.1 width height r
              is_right),
      )
    where
      on_grid : (r o x : ℕ) → r + o ≡ x → x % 4 ≡ o % 4 → r % 4 ≡ 0
      on_grid r o x e h = omega arith
