-- ===== src/Capture/Bands.antt =====
-- `capture_full_sensor_scan_thumbnail` of camera-service/src/main.rs: the bands of a scan, and the rows of
-- the thumbnail that each of them fills.
use podbay_camera_firmware.Prelude.{
  ℕ, zero, suc, ◌+◌, ◌-◌, ◌*◌, ◌/◌, ◌%◌, ◌==◌, Bool, not, ◌||◌, Option, none, some, List, [], ◌∷◌,
  ◌++◌, ltb, leb, if◌then◌else◌, min, sat_add, u32_max, u16_max, Result, ok, err, ◌>>=◌, ◌>>◌,
  fail_if, scan_geometry, scan_band, scan_row_missing,
}
use podbay_camera_firmware.Config.{Config, sensor_width, sensor_height}
use podbay_camera_firmware.Raw10.{RawFrame, collect, cell_average}
use podbay_camera_firmware.Graph.{Graph}
use podbay_camera_firmware.Capture.{scan_min_blanking_lines, scan_exposure_margin_lines}

unfoldable pub is_bad_band : Config → Graph → Bool
is_bad_band c g =
    not (c.sensor_binning == 1)
    || not (g.graph_width == sensor_width)
    || g.graph_height == 0
    || ltb sensor_height g.graph_height
    || not (g.origin_x == 0)

-- `||` stops at a zero, so that the remainders behind it are safe.
unfoldable pub is_uneven_output : ℕ → ℕ → Bool
is_uneven_output width height =
    width == 0
    || height == 0
    || not (sensor_width % width == 0)
    || not (sensor_height % height == 0)

unfoldable pub is_bad_scan_scale : ℕ → ℕ → Bool
is_bad_scan_scale scale_x scale_y =
    ltb scale_x 2 || ltb scale_y 2 || not (scale_x % 2 == 0) || not (scale_y % 2 == 0)

-- The loop that collects the origins of the bands.
unfoldable pub collect_origins : ℕ → ℕ → ℕ → ℕ → List ℕ
collect_origins zero height maximum_y y = []
collect_origins (suc fuel) height maximum_y y =
    let rest = collect_origins fuel height maximum_y (min (sat_add u32_max y height) maximum_y) in
    y ∷ (if y == maximum_y then [] else rest)

-- Each round but the last moves on by a row at least.
unfoldable pub scan_origins : ℕ → List ℕ
scan_origins height =
    let maximum_y = sensor_height - height in collect_origins (suc maximum_y) height maximum_y 0

-- `origins.get(index + 1).copied().unwrap_or(SENSOR_HEIGHT)` beside each origin.
abbrev pub with_ends : List ℕ → List (ℕ × ℕ)
with_ends [] = []
with_ends (y ∷ []) = (y, sensor_height) ∷ []
with_ends (y ∷ next ∷ rest) = (y, next) ∷ with_ends (next ∷ rest)

-- The first of the two pixels that an output coordinate samples.
unfoldable pub scan_sample : ℕ → ℕ → ℕ
scan_sample scale output = output * scale + (scale - 2) / 2 / 2 * 2

-- A row of the payload and its mark in `filled_rows`: none as long as it is not filled.
abbrev pub ScanRow : Type 0
ScanRow = Option (List ℕ)

unfoldable pub scan_row : RawFrame → ℕ → ℕ → ℕ → Result (List ℕ)
scan_row frame output_width scale_x sample_y =
    collect output_width 0
      (λ output_x. cell_average frame.bytes frame.stride (scan_sample scale_x output_x) sample_y)

unfoldable pub fill_row : RawFrame → ℕ → ℕ → ℕ → ℕ → ℕ → ℕ → ScanRow → Result ScanRow
fill_row frame output_width scale_x scale_y origin unique_end output_y row =
    let sample = scan_sample scale_y output_y in
    if ltb sample origin || leb unique_end (sample + 1)
    then ok row
    else (scan_row frame output_width scale_x (sample - origin) >>= λ pixels. ok (some pixels))

-- The loop over the rows of the output, from one of them on.
unfoldable pub fill_rows : RawFrame → ℕ → ℕ → ℕ → ℕ → ℕ → ℕ → List ScanRow → Result (List ScanRow)
fill_rows frame output_width scale_x scale_y origin unique_end output_y [] = ok []
fill_rows frame output_width scale_x scale_y origin unique_end output_y (row ∷ rows) = do
  first ← fill_row frame output_width scale_x scale_y origin unique_end output_y row
  rest ← fill_rows frame output_width scale_x scale_y origin unique_end (suc output_y) rows
  ok (first ∷ rest)

abbrev pub blank_rows : ℕ → List ScanRow
blank_rows zero = []
blank_rows (suc n) = none ∷ blank_rows n

-- The payload, unless a row is missing.
abbrev pub finish_scan : ℕ → List ScanRow → Result (List ℕ)
finish_scan output_y [] = ok []
finish_scan output_y (none ∷ rows) = err (scan_row_missing output_y)
finish_scan output_y (some pixels ∷ rows) = do
  rest ← finish_scan (suc output_y) rows
  ok (pixels ++ rest)

abbrev pub scan_frame_length : ℕ → ℕ
scan_frame_length height = min (sat_add u32_max height scan_min_blanking_lines) u16_max

abbrev pub scan_exposure : ℕ → ℕ
scan_exposure height = scan_frame_length height - scan_exposure_margin_lines

unfoldable pub check_scan : Config → Graph → ℕ → ℕ → Result (Unit {0})
check_scan c g width height = do
  fail_if (is_bad_band c g) scan_band
  fail_if (is_uneven_output width height) scan_geometry
  fail_if (is_bad_scan_scale (sensor_width / width) (sensor_height / height)) scan_geometry
