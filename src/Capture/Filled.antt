-- ===== src/Capture/Filled.antt =====
-- A scan that gets all its frames fills the whole thumbnail.
use podbay_camera_firmware.Prelude.{
  ℕ, ◌+◌, ◌-◌, ◌/◌, ◌%◌, ◌≤◌, ◌<◌, ◌≡◌, refl, sym, ap, ◌∙◌, ◌⊎◌, inl, inr, List, [], ◌∷◌, length,
  arith, ok,
}
use podbay_camera_firmware.Device.{I2c}
use podbay_camera_firmware.Config.{Config, sensor_width, sensor_height}
use podbay_camera_firmware.Graph.{Mi}
use podbay_camera_firmware.Raw10.{RawFrame}
use podbay_camera_firmware.Graph.Pipeline.{World}
use podbay_camera_firmware.Graph.Frames.{capture_tile}
use podbay_camera_firmware.Capture.{scan_origin_settle_frames}
use podbay_camera_firmware.Capture.Bands.{
  ScanRow, scan_sample, scan_row, fill_rows, blank_rows, finish_scan, with_ends, scan_origins,
  check_scan, is_bad_band, is_uneven_output, is_bad_scan_scale,
}
use podbay_camera_firmware.Capture.Origins.{Origins, last, next, scan_origins-Origins}
use podbay_camera_firmware.Capture.Scan.{scan_bands}
use podbay_camera_firmware.Device.Runs.{continue_ok}
use podbay_camera_firmware.Capture.Rows.{
  FilledTo, Fills, Rows, same_count, fill_rows-FilledTo, sample_below, finish_scan_ok,
  length-fill_rows, length-blank_rows, blank_FilledTo,
}

with_ends_next :
    (height maximum_y y z : ℕ) (rest : List ℕ)
    → Origins height maximum_y z rest
    → with_ends (y ∷ rest) ≡ (y, z) ∷ with_ends rest
with_ends_next height maximum_y y z rest last = refl
with_ends_next height maximum_y y z rest (next _ z' rest' p q r t more) = refl

even_next :
    (height maximum_y y z : ℕ)
    → height % 2 ≡ 0
    → maximum_y % 2 ≡ 0
    → y % 2 ≡ 0
    → (z ≡ y + height) ⊎ (z ≡ maximum_y)
    → z % 2 ≡ 0
even_next height maximum_y y z h m y_even (inl e) = omega arith
even_next height maximum_y y z h m y_even (inr e) = omega arith

module _ (sdk : Mi) (bus : I2c) where
  -- A row of the thumbnail: its pixels are those of the frame of a band, captured at the origin of the
  -- band, whose rows hold both of the rows that are sampled.
  pub record BandRow (width scale_x scale height i : ℕ) (pixels : List ℕ) : Type 0 where
    pub band_origin : ℕ
    pub band_frame : RawFrame
    pub before_band : World sdk bus
    pub after_band : World sdk bus
    pub captured :
        capture_tile sdk bus 0 band_origin scan_origin_settle_frames before_band
        ≡ (ok band_frame, after_band)
    pub first_inside : band_origin ≤ scan_sample scale i
    pub second_inside : scan_sample scale i + 1 < band_origin + height
    pub sampled : scan_row band_frame width scale_x (scan_sample scale i - band_origin) ≡ ok pixels

  band-Fills :
      (width scale_x scale height y end : ℕ) (frame : RawFrame) (w w' : World sdk bus)
      → capture_tile sdk bus 0 y scan_origin_settle_frames w ≡ (ok frame, w')
      → end ≤ y + height
      → Fills (BandRow width scale_x scale height) frame width scale_x scale y end
  band-Fills width scale_x scale height y end frame w w' got low i pixels first second taken =
      record {
        band_origin = y;
        band_frame = frame;
        before_band = w;
        after_band = w';
        captured = got;
        first_inside = first;
        second_inside = omega arith;
        sampled = taken;
      }

  scan_bands-FilledTo :
      (width scale_x scale height maximum_y y timestamp : ℕ) (origins : List ℕ)
      (rows : List ScanRow) (w : World sdk bus) (scanned : List ScanRow × ℕ)
      → scale % 2 ≡ 0
      → height % 2 ≡ 0
      → maximum_y % 2 ≡ 0
      → 6000 ≤ maximum_y + height
      → y % 2 ≡ 0
      → Origins height maximum_y y origins
      → FilledTo (BandRow width scale_x scale height) scale y 0 rows
      → (scan_bands sdk bus width scale_x scale (with_ends origins) rows timestamp w).0 ≡ ok scanned
      → FilledTo (BandRow width scale_x scale height) scale 6000 0 scanned.0
  unfolding scan_bands
  scan_bands-FilledTo width scale_x scale height maximum_y y timestamp origins rows w scanned even
        h_even m_even whole y_even last before done =
      let (frame, w', e, done') =
        continue_ok (capture_tile sdk bus 0 y scan_origin_settle_frames w) _ scanned done in
      let (filled, w'', f, done'') =
        continue_ok (fill_rows frame width scale_x scale y 6000 0 rows, w') _ scanned done' in
      let same : (filled, frame.timestamp_ns) ≡ scanned = cc in
      let fills = band-Fills width scale_x scale height y 6000 frame w w' e whole in
      rw (sym same) (
        fill_rows-FilledTo (BandRow width scale_x scale height) frame width scale_x scale y 6000 0
          rows filled fills even refl (ap (λ p. p.0) f) before)
  scan_bands-FilledTo width scale_x scale height maximum_y y timestamp origins rows w scanned even
        h_even m_even whole y_even (next _ z rest p q r t more) before done =
      let done0 = rw (with_ends_next height maximum_y y z rest more) at done in
      let z_even = even_next height maximum_y y z h_even m_even y_even t in
      let (frame, w', e, done') =
        continue_ok (capture_tile sdk bus 0 y scan_origin_settle_frames w) _ scanned done0 in
      let (filled, w'', f, done'') =
        continue_ok (fill_rows frame width scale_x scale y z 0 rows, w') _ scanned done' in
      let fills = band-Fills width scale_x scale height y z frame w w' e q in
      scan_bands-FilledTo width scale_x scale height maximum_y z _ rest filled w'' scanned even
        h_even m_even whole z_even more
        (fill_rows-FilledTo (BandRow width scale_x scale height) frame width scale_x scale y z 0
          rows filled fills even z_even (ap (λ p. p.0) f) before)
        done''

  length-scan_bands :
      (width scale_x scale timestamp : ℕ) (bands : List (ℕ × ℕ)) (rows : List ScanRow)
      (w : World sdk bus) (scanned : List ScanRow × ℕ)
      → (scan_bands sdk bus width scale_x scale bands rows timestamp w).0 ≡ ok scanned
      → length scanned.0 ≡ length rows
  unfolding scan_bands
  length-scan_bands width scale_x scale timestamp [] rows w scanned done =
      let same : (rows, timestamp) ≡ scanned = cc in rw (sym same) refl
  length-scan_bands width scale_x scale timestamp ((y, end) ∷ bands) rows w scanned done =
      let (frame, w', e, done') =
        continue_ok (capture_tile sdk bus 0 y scan_origin_settle_frames w) _ scanned done in
      let (filled, w'', f, done'') =
        continue_ok (fill_rows frame width scale_x scale y end 0 rows, w') _ scanned done' in
      length-scan_bands width scale_x scale frame.timestamp_ns bands filled w'' scanned done''
      ∙ length-fill_rows frame width scale_x scale y end 0 rows filled (ap (λ p. p.0) f)

  -- For a scan that passes the checks, by bands of an even height: if every band gets its frame and
  -- every pixel could be read, the scan has a payload, whose rows are as many as were asked for. Each of
  -- them is sampled from the frame captured at the origin of a band that holds both of its sample
  -- rows, at their distance from that origin.
  pub scan_bands_fills :
      (c : Config) (width height : ℕ) (w : World sdk bus) (scanned : List ScanRow × ℕ)
      → check_scan c w.0 width height ≡ ok tt
      → w.0.graph_height % 2 ≡ 0
      → (scan_bands sdk bus width
          (sensor_width / width)
          (sensor_height / height)
          (with_ends (scan_origins w.0.graph_height))
          (blank_rows height)
          0
          w).0
        ≡ ok scanned
      → (payload : List ℕ) × (finish_scan 0 scanned.0 ≡ ok payload)
        × Rows
            (BandRow width (sensor_width / width) (sensor_height / height) w.0.graph_height)
            0
            height
            payload
  unfolding check_scan is_bad_band is_uneven_output is_bad_scan_scale
  scan_bands_fills c width height w scanned passes even done =
      let tall : 0 < w.0.graph_height = ground arith in
      let low : w.0.graph_height ≤ 6000 = ground arith in
      let divides : 6000 % height ≡ 0 = ground arith in
      let two : 2 ≤ 6000 / height = ground arith in
      let scale_even : 6000 / height % 2 ≡ 0 = ground arith in
      let P = BandRow width (sensor_width / width) (6000 / height) w.0.graph_height in
      let filled =
        scan_bands-FilledTo width (sensor_width / width) (6000 / height) w.0.graph_height
          (6000 - w.0.graph_height) 0 0 _ _ w scanned scale_even even (omega arith) (omega arith)
          refl (scan_origins-Origins w.0.graph_height tall low)
          (blank_FilledTo P (6000 / height) 0 height) done in
      let same = length-scan_bands width _ (6000 / height) 0 _ _ w scanned done in
      let n = length-blank_rows height in
      let (payload, finished, rows) =
        finish_scan_ok P (6000 / height) 0 scanned.0 filled
          (λ j h. sample_below height j divides two (omega arith)) in
      (payload, finished, same_count P 0 _ height payload (same ∙ n) rows)
