-- ===== src/Capture/Witness.antt =====
-- A scan by bands of 2998 rows, whose frames are too large to be written out.
use podbay_camera_firmware.Prelude.{
  none, ℕ, suc, ◌+◌, ◌-◌, ◌*◌, ◌<◌, ◌≡◌, refl, [], ◌∷◌, List, some, arith, ok, replicate,
}
use podbay_camera_firmware.Bytes.{put_u16, put_u32, read_u16, read_u32, le_bytes}
use podbay_camera_firmware.Config.{
  validate_origin, is_misaligned, is_outside, physical_width, physical_height,
}
use podbay_camera_firmware.Sensor.{origin_registers}
use podbay_camera_firmware.Sensor.Driver.{
  set_origin_live, under_hold, write_all, write_register, and_release,
}
use podbay_camera_firmware.Raw10.{RawFrame, collect}
use podbay_camera_firmware.Raw10.Chunks.{chunks, collect-chunks, length-chunks}
use podbay_camera_firmware.Raw10.Cells.{HasFrame, average_at, cell_read}
use podbay_camera_firmware.Graph.{Mi, Graph, mi}
use podbay_camera_firmware.Graph.Pipeline.{World, assign, on_bus, open_sensor_only}
use podbay_camera_firmware.Graph.Frames.{
  metadata_of, validate_metadata, is_bad_frame, read_memory, poll, wait_buffer, flush, copy_frame,
  on_sdk, with_graph, put_back, give_back, returning, stamped, acquire_frame_with_timeout,
  acquire_frame, acquire_last, move_origin, capture_tile, discard_queued_frames,
}
use podbay_camera_firmware.Graph.Copies.{length-read_memory}
use podbay_camera_firmware.Capture.Bands.{
  scan_origins, collect_origins, scan_sample, scan_row, fill_row, fill_rows, finish_scan,
  check_scan, is_bad_band, is_uneven_output, is_bad_scan_scale,
}
use podbay_camera_firmware.Capture.Scan.{scan_bands}
use podbay_camera_firmware.Capture.Rows.{Rows}
use podbay_camera_firmware.Capture.Filled.{BandRow, scan_bands_fills}
use podbay_camera_firmware.Capture.Tests.{bus, fine, live}

abbrev info : List ℕ
unfolding put_u16 put_u32
info =
    put_u32
      (put_u32
        (put_u32 (put_u16 (put_u16 (put_u32 (replicate 112 0) 0x24 32) 0x38 8000) 0x3a 2998) 0x3c
          64)
        0x60 10_000)
      0x6c 29_980_000

abbrev tall_sdk : Mi
tall_sdk = record {
  State = ℕ × ℕ;
  call = λ c s. (0, s);
  get_fd = λ fd s. ((0, some 7), s);
  get_buf = λ s. ((0, record { info = info; handle = s.0 }), (suc s.0, s.1));
  put_buf = λ handle s. (0, (s.0 - 1, s.1));
  flush_cache = λ address size s. (0, s);
  memory = λ s address. 0;
  now = λ s. s.1;
  wall_clock = λ s. s.1;
  pause = λ d s. (s.0, s.1 + d);
}

abbrev tall : ℕ → Graph
tall y = record live {
  sensor = some (record { width = 8000; height = 2998; binning = 1; scale = 1 });
  graph_height = 2998;
  origin_y = y;
}

abbrev world : ℕ → World tall_sdk bus
world y = (tall y, ((0, 0), tt))

abbrev memory_row : ℕ → List ℕ
memory_row row = read_memory (λ address. 0) (64 + row * 10_000) 10_000

abbrev frame : RawFrame
frame = record { bytes = chunks 2998 0 memory_row; stride = 10_000; timestamp_ns = 0 }

collected : collect 2998 0 (λ row. ok (memory_row row)) ≡ ok (chunks 2998 0 memory_row)
collected = collect-chunks 2998 0 _ memory_row (λ k p q. refl)

acquired : (y : ℕ) → acquire_frame tall_sdk bus (world y) ≡ (ok frame, world y)
unfolding acquire_frame acquire_frame_with_timeout on_sdk wait_buffer poll assign with_graph
    returning give_back put_back copy_frame metadata_of validate_metadata is_bad_frame read_u16
    read_u32 flush mi stamped info
acquired y = rw collected refl

captured_first : capture_tile tall_sdk bus 0 0 2 (world 0) ≡ (ok frame, world 0)
unfolding capture_tile move_origin acquire_last assign with_graph
captured_first = rw (acquired 0, acquired 0, acquired 0) refl

captured_second : capture_tile tall_sdk bus 0 2998 2 (world 0) ≡ (ok frame, world 2998)
unfolding capture_tile move_origin acquire_last assign with_graph open_sensor_only on_bus
    set_origin_live under_hold write_all write_register and_release validate_origin is_misaligned
    is_outside origin_registers discard_queued_frames put_back mi physical_width physical_height
    read_u32 info
captured_second = rw (acquired 0, acquired 0, acquired 0) refl

captured_third : capture_tile tall_sdk bus 0 3002 2 (world 2998) ≡ (ok frame, world 3002)
unfolding capture_tile move_origin acquire_last assign with_graph open_sensor_only on_bus
    set_origin_live under_hold write_all write_register and_release validate_origin is_misaligned
    is_outside origin_registers discard_queued_frames put_back mi physical_width physical_height
    read_u32 info
captured_third = rw (acquired 2998, acquired 2998, acquired 2998) refl

frame-HasFrame : HasFrame frame.bytes frame.stride 8000 2998
frame-HasFrame =
    let total =
      length-chunks 10_000 memory_row 2998 0
        (λ k p q. length-read_memory (λ address. 0) (64 + k * 10_000) 10_000) in
    record { rows = omega (arith, total); columns = omega arith }

-- The pixels that the band at 2998 is sampled for.
abbrev sampled_pixels : List ℕ
sampled_pixels = chunks 2 0 (λ x.
    le_bytes 2
      (average_at frame.bytes frame.stride 8000 2998 frame-HasFrame (scan_sample 4000 x) 0))

sampled_ok : scan_row frame 2 4000 0 ≡ ok sampled_pixels
unfolding scan_row scan_sample
sampled_ok = collect-chunks 2 0 _ _ (λ x p q.
    cell_read frame.bytes frame.stride 8000 2998 frame-HasFrame (scan_sample 4000 x) 0 (inside x q)
      (omega arith))
  where
    inside : (x : ℕ) → x < 2 → scan_sample 4000 x + 1 < 8000
    inside x below = omega arith

-- The three bands; the thumbnail has one row, which is sampled at the rows 2998 and 2999.
scanned :
    (scan_bands tall_sdk bus 2 4000 6000
      ((0, 2998) ∷ (2998, 3002) ∷ (3002, 6000) ∷ [])
      (none ∷ [])
      0
      (world 0)).0
    ≡ ok (some sampled_pixels ∷ [], 0)
unfolding scan_bands fill_rows fill_row scan_sample
scanned = rw (captured_first, captured_second, sampled_ok, captured_third) refl

scan_bands_fills_example :
    (payload : List ℕ) × (finish_scan 0 (some sampled_pixels ∷ []) ≡ ok payload)
    × Rows (BandRow tall_sdk bus 2 4000 6000 2998) 0 1 payload
unfolding check_scan is_bad_band is_uneven_output is_bad_scan_scale scan_origins collect_origins
scan_bands_fills_example =
    scan_bands_fills tall_sdk bus fine 2 1 (world 0) (some sampled_pixels ∷ [], 0) refl refl scanned
