-- ===== src/Raw10/Pixels.antt =====
-- One packed pixel: where it is read, and what a group of four gives back.
use podbay_camera_firmware.Prelude.{
  ℕ, ◌+◌, ◌*◌, ◌/◌, ◌%◌, ◌^◌, ◌≤◌, ◌<◌, ◌≡◌, ap, ◌∙◌, List, length, take, drop, arith, Result, ok,
  ◌>>=◌,
}
use podbay_camera_firmware.Bytes.{le_bytes, from_le_bytes}
use podbay_camera_firmware.Bytes.Words.{from_le_bytes-le_bytes}
use podbay_camera_firmware.Raw10.{slice, packed_raw10_pixel_bytes, raw10_group}
use podbay_camera_firmware.Raw10.Slices.{slice_ok, slice-take-drop}

-- The pixel of a group that starts at a byte.
unfoldable pub pixel_at : List ℕ → ℕ → ℕ → Result ℕ
pixel_at bytes offset phase = do
  group ← slice bytes offset 5
  ok (from_le_bytes group / 2 ^ (phase * 10) % 1024)

-- The byte string holds the pixel: its row is there, and its group lies in the row.
pub record HasPixel (bytes : List ℕ) (stride x y : ℕ) : Type 0 where
  pub row : y * stride + stride ≤ length bytes
  pub group : x / 4 * 5 + 5 ≤ stride

pub pixel_of_row :
    (bytes : List ℕ) (stride x y : ℕ)
    → HasPixel bytes stride x y
    → packed_raw10_pixel_bytes bytes stride x y ≡ pixel_at bytes (y * stride + x / 4 * 5) (x % 4)
unfolding packed_raw10_pixel_bytes pixel_at
pixel_of_row bytes stride x y h =
    let row = slice_ok bytes (y * stride) stride h.row in
    let group = slice-take-drop bytes (y * stride) stride (x / 4 * 5) 5 h.row h.group in
    rw (row, group)

abbrev group_value : List ℕ → ℕ → ℕ → ℕ
group_value bytes offset phase =
    from_le_bytes (take 5 (drop offset bytes)) / 2 ^ (phase * 10) % 1024

-- The value of a pixel, where it is there.
unfoldable pub pixel_value : List ℕ → ℕ → ℕ → ℕ → ℕ
pixel_value bytes stride x y = group_value bytes (y * stride + x / 4 * 5) (x % 4)

pub pixel_value-lt : (bytes : List ℕ) (stride x y : ℕ) → pixel_value bytes stride x y < 1024
unfolding pixel_value
pixel_value-lt bytes stride x y = omega arith

-- A pixel that is there is read.
pub pixel_read :
    (bytes : List ℕ) (stride x y : ℕ)
    → HasPixel bytes stride x y
    → packed_raw10_pixel_bytes bytes stride x y ≡ ok (pixel_value bytes stride x y)
unfolding pixel_at pixel_value
pixel_read bytes stride x y h =
    let inside =
      slice_ok bytes (y * stride + x / 4 * 5) 5 (let r = h.row in let g = h.group in omega arith) in
    rw (pixel_of_row bytes stride x y h, inside)

pixel_at-le_bytes :
    (w phase : ℕ) → w < 2 ^ 40 → pixel_at (le_bytes 5 w) 0 phase ≡ ok (w / 2 ^ (phase * 10) % 1024)
unfolding pixel_at slice
pixel_at-le_bytes w phase h = rw (from_le_bytes-le_bytes 5 w h)

-- The four ten-bit pixels of a group are read back from it.
pub raw10_group-pixel :
    (p0 p1 p2 p3 : ℕ)
    → p0 < 1024
    → p1 < 1024
    → p2 < 1024
    → p3 < 1024
    → (pixel_at (raw10_group p0 p1 p2 p3) 0 0 ≡ ok p0)
      × (pixel_at (raw10_group p0 p1 p2 p3) 0 1 ≡ ok p1)
      × (pixel_at (raw10_group p0 p1 p2 p3) 0 2 ≡ ok p2)
      × (pixel_at (raw10_group p0 p1 p2 p3) 0 3 ≡ ok p3)
unfolding raw10_group
raw10_group-pixel p0 p1 p2 p3 h0 h1 h2 h3 =
    let w : ℕ = p0 % 1024 + p1 % 1024 * 2 ^ 10 + p2 % 1024 * 2 ^ 20 + p3 % 1024 * 2 ^ 30 in
    let fits : w < 2 ^ 40 = omega arith in
    (
      pixel_at-le_bytes w 0 fits ∙ ap ok (omega arith),
      pixel_at-le_bytes w 1 fits ∙ ap ok (omega arith),
      pixel_at-le_bytes w 2 fits ∙ ap ok (omega arith),
      pixel_at-le_bytes w 3 fits ∙ ap ok (omega arith),
    )
