-- ===== src/Capture/Tests.antt =====
-- The theorems on captures, at concrete requests.
use podbay_camera_firmware.Prelude.{
  ℕ, suc, ◌+◌, ◌-◌, refl, List, true, false, some, arith, ok, replicate,
}
use podbay_camera_firmware.Device.{I2c}
use podbay_camera_firmware.Bytes.{put_u16, put_u32}
use podbay_camera_firmware.Config.{Config, default_config, geometry_of}
use podbay_camera_firmware.Graph.{Mi, Graph}
use podbay_camera_firmware.Graph.Lifecycle.{IsLive}
use podbay_camera_firmware.Capture.{raw10}
use podbay_camera_firmware.Capture.OneShot.{capture_full_sensor_coarse_thumbnail}
use podbay_camera_firmware.Capture.Restored.{Ends, capture_full_sensor_coarse_thumbnail-Ends}
use podbay_camera_firmware.Capture.Bands.{scan_origins}
use podbay_camera_firmware.Capture.Scan.{capture_full_sensor_scan_thumbnail}
use podbay_camera_firmware.Capture.Origins.{Origins, scan_origins-Origins}
use podbay_camera_firmware.Capture.Rescanned.{capture_full_sensor_scan_thumbnail-IsLive}

abbrev pub bus : I2c
bus = record { State = Unit {0}; send = λ bytes s. (ok tt, s); receive = λ s. (ok 0, s) }

-- A frame of 4004x4 pixels, all of them dark.
abbrev info : List ℕ
unfolding put_u16 put_u32
info =
    put_u32
      (put_u32
        (put_u32 (put_u16 (put_u16 (put_u32 (replicate 112 0) 0x24 32) 0x38 4004) 0x3a 4) 0x3c 64)
        0x60 5005)
      0x6c 20_020

abbrev sdk : Mi
sdk = record {
  State = ℕ × ℕ;
  call = λ c s. (0, s);
  get_fd = λ fd s. ((0, some 7), s);
  get_buf = λ s. ((0, record { info = info; handle = s.0 }), (suc s.0, s.1));
  put_buf = λ handle s. (0, (s.0 - 1, s.1));
  flush_cache = λ address size s. (0, s);
  memory = λ s address. 0;
  now = λ s. s.1;
  wall_clock = λ s. s.1;
  pause = λ d s. (s.0, s.1 + d);
}

-- A band of the whole width of the sensor.
abbrev pub fine : Config
fine = record default_config {
  tile_width = 8000;
  tile_height = 576;
  initial_x = 0;
  initial_y = 1200;
}

abbrev pub live : Graph
live = record {
  sensor = some (geometry_of fine);
  output_fd = some 5;
  sensor_enabled = true;
  group_created = true;
  device_enabled = true;
  port_enabled = true;
  depth_enabled = true;
  graph_width = 8000;
  graph_height = 576;
  graph_timeout = 20;
  live_origin = true;
  graph_format = 32;
  metadata_logged = true;
  origin_x = 0;
  origin_y = 1200;
}

live-IsLive : IsLive fine live
live-IsLive = record {
  open_sensor = refl;
  has_descriptor = (5, refl);
  enabled_sensor = refl;
  created_group = refl;
  enabled_device = refl;
  enabled_port = refl;
  enabled_depth = refl;
  at_width = refl;
  at_height = refl;
  at_x = refl;
  at_y = refl;
  at_format = refl;
}

capture_full_sensor_coarse_thumbnail-Ends_example : Ends fine (
    capture_full_sensor_coarse_thumbnail sdk bus
      (λ s. (ok tt, s))
      true
      fine
      400
      300
      false
      raw10
      (live, ((0, 0), tt)))
capture_full_sensor_coarse_thumbnail-Ends_example =
    capture_full_sensor_coarse_thumbnail-Ends sdk bus (λ s. (ok tt, s)) true fine 400 300 false
      raw10 (live, ((0, 0), tt)) live-IsLive

capture_full_sensor_scan_thumbnail-IsLive_example :
    IsLive fine (capture_full_sensor_scan_thumbnail sdk bus fine 400 300 (live, ((0, 0), tt))).1.0
capture_full_sensor_scan_thumbnail-IsLive_example =
    capture_full_sensor_scan_thumbnail-IsLive sdk bus fine 400 300 (live, ((0, 0), tt)) live-IsLive

scan_origins-Origins_example : Origins 576 5424 0 (scan_origins 576)
scan_origins-Origins_example = scan_origins-Origins 576 (omega arith) (omega arith)
