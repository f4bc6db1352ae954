-- ===== src/Streaming/Tests.antt =====
-- The theorems on streams, at concrete streams.
use podbay_camera_firmware.Prelude.{
  ℕ, suc, ◌+◌, ◌-◌, ◌%◌, ◌*◌, ◌≤◌, ◌<◌, [], ◌∷◌, List, true, none, some, Result, ok, err, replicate,
}
use podbay_camera_firmware.Device.{I2c}
use podbay_camera_firmware.Bytes.{put_u16, put_u32}
use podbay_camera_firmware.Config.{SensorMode}
use podbay_camera_firmware.Telemetry.Window.{new}
use podbay_camera_firmware.Graph.{Mi, Graph}
use podbay_camera_firmware.Streaming.{Stream, Round, Packet}
use podbay_camera_firmware.Streaming.Cadence.{
  cadence_frame_length, required_sets, required_sets_bounds,
}
use podbay_camera_firmware.Streaming.Sets.{stream_sets}

abbrev bus : I2c
bus = record { State = Unit {0}; send = λ bytes s. (ok tt, s); receive = λ s. (ok 0, s) }

-- A frame of 8x2 pixels in rows of 64 bytes.
abbrev info : List ℕ
unfolding put_u16 put_u32
info =
    put_u32
      (put_u32
        (put_u32 (put_u16 (put_u16 (put_u32 (replicate 112 0) 0x24 32) 0x38 8) 0x3a 2) 0x3c 64) 0x60
        64)
      0x6c 128

abbrev sdk : Mi
sdk = record {
  State = ℕ × ℕ;
  call = λ c s. (0, s);
  get_fd = λ fd s. ((0, some 7), s);
  get_buf = λ s. ((0, record { info = info; handle = s.0 }), (suc s.0, s.1));
  put_buf = λ handle s. (0, (s.0 - 1, s.1));
  flush_cache = λ address size s. (0, s);
  memory = λ s address. address % 256;
  now = λ s. s.1;
  wall_clock = λ s. s.1;
  pause = λ d s. (s.0, s.1 + d);
}

abbrev live : Graph
live = record {
  sensor = none;
  output_fd = none;
  sensor_enabled = true;
  group_created = true;
  device_enabled = true;
  port_enabled = true;
  depth_enabled = true;
  graph_width = 8;
  graph_height = 2;
  graph_timeout = 20;
  live_origin = true;
  graph_format = 32;
  metadata_logged = true;
  origin_x = 16;
  origin_y = 20;
}

abbrev mode : SensorMode
mode = record {
  sensor_x = 16;
  sensor_y = 20;
  mode_width = 8;
  mode_height = 2;
  mode_binning = 1;
  output_width = 8;
  output_height = 2;
}

abbrev round : Round
round = record {
  requested = none;
  timing_word = 0;
  frame_ready = 1;
  roi_slice = 1;
  context_build = 1;
  context_write = 1;
  left_write = 1;
  right_write = 1;
  completed = 2;
  telemetry_now = 3;
  telemetry_write = 1;
}

abbrev stream : Stream
stream = record {
  sent = 0;
  sequence = 7;
  active = record {
    left_eye = (16, 20);
    right_eye = (20, 20);
    eye_width = 4;
    eye_height = 2;
    roi_generation = 0;
  };
  last_frame_ready = none;
  completed_sets = [];
  stream_telemetry = new 0;
}

abbrev unwrap : Result (List Packet × Stream) → List Packet × Stream
unwrap (ok sent) = sent
unwrap (err e) = ([], stream)

-- Two sets that are sent, and telemetry.
abbrev sent : List Packet × Stream
unfolding stream_sets
sent = unwrap (stream_sets sdk bus mode none 2 (round ∷ round ∷ []) stream (live, ((0, 0), tt))).0

required_sets_bounds_example :
    (2 ≤ required_sets (cadence_frame_length 91_750_400))
    × (required_sets (cadence_frame_length 91_750_400) ≤ 10)
    × (cadence_frame_length 91_750_400 ≤ 3500
        → (7000 ≤ required_sets (cadence_frame_length 91_750_400) * cadence_frame_length 91_750_400)
          × (required_sets (cadence_frame_length 91_750_400) * cadence_frame_length 91_750_400
              < 7000 + cadence_frame_length 91_750_400))
required_sets_bounds_example = required_sets_bounds 91_750_400
