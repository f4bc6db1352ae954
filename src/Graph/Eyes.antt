-- ===== src/Graph/Eyes.antt =====
-- The checks and cuts of `acquire_eye_set` in camera-service/src/main.rs: two eyes and a context
-- thumbnail, out of the bytes of one buffer.
use podbay_camera_firmware.Prelude.{
  ℕ, ◌+◌, ◌-◌, ◌*◌, ◌/◌, Bool, ◌||◌, Option, none, some, List, ltb, ◌==◌, if◌then◌else◌, min, max,
  Result, ok, err, ◌>>=◌, ◌>>◌, fail_if, eye_precedes_band, eye_exceeds_band, u32_max, sat_add,
}
use podbay_camera_firmware.Config.Requests.{ContextStream}
use podbay_camera_firmware.Raw10.{crop_raw10_bytes, downsample_raw10_tracking_context_bytes}
use podbay_camera_firmware.Graph.{Graph}
use podbay_camera_firmware.Graph.Frames.{Metadata, packed_stride}

-- On the target a `usize` has 32 bits.
abbrev pub required_buffer : Graph → Metadata → ℕ
required_buffer g m = min (m.source_stride * g.graph_height) u32_max

unfoldable pub is_bad_eye_frame : Graph → Metadata → Bool
is_bad_eye_frame g m =
    m.address == 0
    || ltb m.source_stride (packed_stride g)
    || ltb m.buffer_size (required_buffer g m)

-- The two `checked_sub` of an eye.
unfoldable pub relative_eye : Graph → ℕ × ℕ → Result (ℕ × ℕ)
relative_eye g (x, y) =
    if ltb x g.origin_x || ltb y g.origin_y
    then err eye_precedes_band
    else ok (x - g.origin_x, y - g.origin_y)

unfoldable pub eye_exceeds : Graph → ℕ → ℕ → ℕ × ℕ → Bool
eye_exceeds g width height (x, y) =
    ltb g.graph_width (sat_add u32_max x width) || ltb g.graph_height (sat_add u32_max y height)

-- What is flushed: the whole buffer for a context thumbnail, otherwise the rows of the two eyes, to
-- whole cache lines of 64 bytes.
unfoldable pub flush_range : Metadata → Option ContextStream → ℕ → ℕ × ℕ → ℕ × ℕ → ℕ × ℕ
flush_range m (some context) height left right = (m.address, m.buffer_size)
flush_range m none height (lx, ly) (rx, ry) =
    let first = (m.address + min ly ry * m.source_stride) / 64 * 64 in
    let last = (m.address + (max ly ry + height) * m.source_stride + 63) / 64 * 64 in
    (first, last - first)

unfoldable pub context_of :
    Graph → Metadata → List ℕ → Option ContextStream → Result (Option (List ℕ))
context_of g m source none = ok none
context_of g m source (some context) = do
  payload ←
      downsample_raw10_tracking_context_bytes source m.source_stride g.graph_width g.graph_height
        context.context_width context.context_height
  ok (some payload)

-- What the source cuts out of the flushed buffer.
unfoldable pub cut_eyes :
    Graph
    → Metadata
    → List ℕ
    → Option ContextStream
    → ℕ
    → ℕ
    → ℕ × ℕ
    → ℕ × ℕ
    → Result (List ℕ × List ℕ × Option (List ℕ))
unfolding context_of
cut_eyes g m source context width height (lx, ly) (rx, ry) = do
  thumbnail ← context_of g m source context
  left ← crop_raw10_bytes source m.source_stride lx ly width height
  right ← crop_raw10_bytes source m.source_stride rx ry width height
  ok (left, right, thumbnail)

-- The two eyes in coordinates of the buffer.
unfoldable pub relative_eyes : Graph → ℕ × ℕ → ℕ × ℕ → ℕ → ℕ → Result ((ℕ × ℕ) × (ℕ × ℕ))
unfolding relative_eye eye_exceeds
relative_eyes g left right width height = do
  l ← relative_eye g left
  r ← relative_eye g right
  fail_if (eye_exceeds g width height l || eye_exceeds g width height r) eye_exceeds_band
  ok (l, r)
