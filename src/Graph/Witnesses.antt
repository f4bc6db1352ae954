-- ===== src/Graph/Witnesses.antt =====
-- An SDK with buffers and a clock, and the theorems on frames and transitions.
use podbay_camera_firmware.Prelude.{
  ℕ, zero, suc, leb, if◌then◌else◌, ◌≢◌, ◌<◌, ◌+◌, ◌-◌, ◌%◌, ◌≡◌, refl, [], ◌∷◌, List, true, false,
  none, some, arith, ok, frame_timeout, replicate,
}
use podbay_camera_firmware.Device.Runs.{Keeps}
use podbay_camera_firmware.Bytes.{put_u16, put_u32, read_u16, read_u32}
use podbay_camera_firmware.Config.{Config, default_config, geometry_of}
use podbay_camera_firmware.Config.Transition.{
  sensor_transition, same_pipeline, same_origin, moves_live, retunes_live, rebuild,
}
use podbay_camera_firmware.Raw10.{RawFrame, collect, crop_row, crop_raw10_bytes}
use podbay_camera_firmware.Graph.{Mi, Graph, Buffer, adopt, mi, program_sensor}
use podbay_camera_firmware.Graph.Pipeline.{
  World, configure_pipeline, reconfigure, stop_pipeline, mi_call, ignored, assign, when, on_bus,
  enable_vif, arm_output, take_descriptor, close_descriptor, close_output,
}
use podbay_camera_firmware.Graph.Frames.{
  metadata_of, validate_metadata, is_bad_frame, poll, wait_buffer, nanoseconds, flush, copy_frame,
  on_sdk, with_graph, put_back, give_back, returning, stamped, acquire_frame_with_timeout,
  acquire_frame, acquire_last, move_origin, capture_tile, discard_queued_frames,
  discard_next_frames,
}
use podbay_camera_firmware.Graph.EyeSet.{acquire_eye_set, extract, flush_eyes, cut_from_memory}
use podbay_camera_firmware.Graph.Eyes.{
  is_bad_eye_frame, relative_eyes, relative_eye, eye_exceeds, flush_range, cut_eyes, context_of,
}
use podbay_camera_firmware.Graph.Pixels.{Inside, IsCut, source_of, extract-IsCut}
use podbay_camera_firmware.Graph.Waiting.{
  Clock, Waited, wait_buffer-Waited, wait_buffer_delivers, polled,
}
use podbay_camera_firmware.Graph.Ledger.{Ledger, HasOut}
use podbay_camera_firmware.Graph.Balance.{frames-HasOut}
use podbay_camera_firmware.Graph.Copies.{Fits, IsCopy, flushed}
use podbay_camera_firmware.Graph.Taken.{acquire_frame_with_timeout-IsCopy}
use podbay_camera_firmware.Graph.Lifecycle.{IsLive}
use podbay_camera_firmware.Graph.Apply.{
  apply_once, apply_sensor_config, apply_transition, apply_sensor_transition,
}
use podbay_camera_firmware.Graph.Transitions.{apply_sensor_transition-IsLive}
use podbay_camera_firmware.Graph.Fallback.{GivenUp, apply_sensor_transition_fails_iff}
use podbay_camera_firmware.Graph.Tests.{bus, blank}

-- A frame of 4x2 pixels in rows of 64 bytes.
abbrev info : List ℕ
unfolding put_u16 put_u32
info =
    put_u32
      (put_u32
        (put_u32 (put_u16 (put_u16 (put_u32 (replicate 112 0) 0x24 32) 0x38 4) 0x3a 2) 0x3c 64) 0x60
        64)
      0x6c 128

-- So many buffers are out, and so late it is.
abbrev sdk : Mi
sdk = record {
  State = ℕ × ℕ;
  call = λ c s. (0, s);
  get_fd = λ fd s. ((0, some 7), s);
  get_buf = λ s. ((0, record { info = info; handle = s.0 }), (suc s.0, s.1));
  put_buf = λ handle s. (0, (s.0 - 1, s.1));
  flush_cache = λ address size s. (0, s);
  memory = λ s address. address % 256;
  now = λ s. s.1;
  wall_clock = λ s. s.1;
  pause = λ d s. (s.0, s.1 + d);
}

clock : Clock sdk
clock = record { call_takes = λ s. omega arith; pause_takes = λ d s. omega arith }

ledger : Ledger sdk
ledger = record {
  out = λ s. s.0;
  taken = λ s got. refl;
  missed = λ s refused. absurd (refused refl);
  put_succeeds = λ handle s. refl;
  put_frees = λ handle n s e. omega arith;
  flush_keeps = λ address size s. refl;
  pause_keeps = λ d s. refl;
}

-- An SDK without a sensor behind it.
abbrev starved : Mi
starved = record sdk { get_buf = λ s. ((5, record { info = []; handle = 0 }), s) }

-- A small frame of the sensor's own mode, and the same at another origin.
abbrev small : Config
small = record default_config {
  direct_full_raw = false;
  tile_width = 4;
  tile_height = 2;
  frame_timeout = 0;
}

abbrev small_moved : Config
small_moved = record small { initial_x = 8 }

abbrev live : Graph
live = record blank {
  sensor = some (geometry_of small);
  output_fd = some 5;
  sensor_enabled = true;
  group_created = true;
  device_enabled = true;
  port_enabled = true;
  depth_enabled = true;
  graph_width = 4;
  graph_height = 2;
  graph_format = 32;
  origin_x = 3500;
  origin_y = 2500;
}

live-IsLive : IsLive small live
live-IsLive = record {
  open_sensor = refl;
  has_descriptor = (5, refl);
  enabled_sensor = refl;
  created_group = refl;
  enabled_device = refl;
  enabled_port = refl;
  enabled_depth = refl;
  at_width = refl;
  at_height = refl;
  at_x = refl;
  at_y = refl;
  at_format = refl;
}

wait_buffer-Waited_example : Waited sdk 0 (nanoseconds 20) (wait_buffer sdk 20 (0, 0))
wait_buffer-Waited_example = wait_buffer-Waited sdk clock 20 (0, 0)

-- Two calls for a buffer are refused, by the time that has passed.
abbrev reluctant : Mi
reluctant = record sdk {
  get_buf = λ s. (
    (if leb 4_000_000 s.1 then 0 else 5, record { info = info; handle = s.0 }),
    (if leb 4_000_000 s.1 then suc s.0 else s.0, s.1),
  );
}

reluctant_clock : Clock reluctant
reluctant_clock = record { call_takes = λ s. omega arith; pause_takes = λ d s. omega arith }

wait_buffer_delivers_example :
    wait_buffer reluctant 20 (0, 0) ≡ (ok (record { info = info; handle = 0 }), (1, 4_000_000))
wait_buffer_delivers_example =
    wait_buffer_delivers reluctant reluctant_clock 2 20 (0, 0) (record { info = info; handle = 0 })
      refused early refl
  where
    refused : (i : ℕ) → i < 2 → (reluctant.get_buf (polled reluctant i (0, 0))).0.0 ≢ 0
    refused zero below = λ same. absurd (omega arith)
    refused (suc zero) below = λ same. absurd (omega arith)
    refused (suc (suc i)) below = absurd (omega arith)

    early :
        (i : ℕ)
        → i < 2
        → reluctant.now (reluctant.get_buf (polled reluctant i (0, 0))).1 - 0 < nanoseconds 20
    early zero below = omega arith
    early (suc zero) below = omega arith
    early (suc (suc i)) below = absurd (omega arith)

frames-HasOut_example :
    Keeps (HasOut sdk bus ledger 1) (acquire_frame_with_timeout sdk bus 20)
    × Keeps (HasOut sdk bus ledger 1) (capture_tile sdk bus 8 0 2)
    × Keeps (HasOut sdk bus ledger 1) (acquire_eye_set sdk bus (0, 0) (4, 0) 4 2 none)
    × Keeps (HasOut sdk bus ledger 1) (discard_queued_frames sdk bus 3 0)
    × Keeps (HasOut sdk bus ledger 1) (discard_next_frames sdk bus 3)
frames-HasOut_example = frames-HasOut sdk bus ledger 1 20 8 0 2 3 (0, 0) (4, 0) 4 2 none

abbrev frame : RawFrame
frame = record {
  bytes = 64 ∷ 65 ∷ 66 ∷ 67 ∷ 68 ∷ 128 ∷ 129 ∷ 130 ∷ 131 ∷ 132 ∷ [];
  stride = 5;
  timestamp_ns = 0;
}

acquire_frame_with_timeout-IsCopy_example :
    (s : ℕ × ℕ) × (buffer : Buffer) × ((sdk.get_buf s).0 ≡ (0, buffer))
    × Fits live (metadata_of buffer.info)
    × IsCopy live
        (metadata_of buffer.info)
        (flushed sdk (metadata_of buffer.info) (sdk.get_buf s).1)
        frame
unfolding acquire_frame_with_timeout on_sdk wait_buffer poll assign with_graph returning give_back
    put_back copy_frame metadata_of validate_metadata is_bad_frame read_u16 read_u32 flush mi
    collect stamped info
acquire_frame_with_timeout-IsCopy_example =
    acquire_frame_with_timeout-IsCopy sdk bus 20 (live, ((0, 0), tt)) frame (omega arith) refl

apply_sensor_transition-IsLive_example :
    IsLive small_moved
      (apply_sensor_transition sdk bus (λ s. (ok tt, s)) small small_moved (live, ((0, 0), tt))).1.0
unfolding apply_sensor_transition apply_transition sensor_transition same_pipeline same_origin
    moves_live retunes_live apply_sensor_config apply_once reconfigure stop_pipeline
    configure_pipeline mi_call mi when assign ignored on_bus program_sensor enable_vif arm_output
    take_descriptor close_descriptor close_output adopt capture_tile move_origin acquire_last
    acquire_frame acquire_frame_with_timeout on_sdk wait_buffer poll with_graph returning give_back
    put_back copy_frame metadata_of validate_metadata is_bad_frame read_u16 read_u32 flush collect
    stamped info
apply_sensor_transition-IsLive_example =
    apply_sensor_transition-IsLive sdk bus (λ s. (ok tt, s)) small small_moved (live, ((0, 0), tt))
      rebuild live-IsLive refl

-- What two starved attempts leave.
abbrev given_up : World starved bus
given_up =
    (apply_sensor_transition starved bus (λ s. (ok tt, s)) small small_moved (live, ((0, 0), tt))).1

apply_sensor_transition_fails_iff_example :
    GivenUp starved bus
      (λ s. (ok tt, s))
      small
      small_moved
      (live, ((0, 0), tt))
      (frame_timeout 5)
      given_up
unfolding apply_sensor_transition apply_transition sensor_transition same_pipeline same_origin
    moves_live retunes_live apply_sensor_config apply_once reconfigure stop_pipeline
    configure_pipeline mi_call mi when assign ignored on_bus program_sensor enable_vif arm_output
    take_descriptor close_descriptor close_output adopt capture_tile move_origin acquire_last
    acquire_frame acquire_frame_with_timeout on_sdk wait_buffer poll with_graph
apply_sensor_transition_fails_iff_example =
    (apply_sensor_transition_fails_iff starved bus (λ s. (ok tt, s)) small small_moved
        (live, ((0, 0), tt)) (frame_timeout 5) given_up).0
      refl

abbrev eye : List ℕ
eye = 64 ∷ 65 ∷ 66 ∷ 67 ∷ 68 ∷ 128 ∷ 129 ∷ 130 ∷ 131 ∷ 132 ∷ []

extract-IsCut_example :
    (eyes : (ℕ × ℕ) × (ℕ × ℕ)) × Inside live 4 2 (3500, 2500) eyes.0
    × Inside live 4 2 (3500, 2500) eyes.1
    × IsCut eye
        (source_of sdk (metadata_of info) (flush_eyes sdk (metadata_of info) none 2 eyes (0, 0)).1)
        (metadata_of info).source_stride
        eyes.0
        4
        2
    × IsCut eye
        (source_of sdk (metadata_of info) (flush_eyes sdk (metadata_of info) none 2 eyes (0, 0)).1)
        (metadata_of info).source_stride
        eyes.1
        4
        2
unfolding extract metadata_of validate_metadata is_bad_eye_frame relative_eyes relative_eye
    eye_exceeds flush_eyes flush_range flush mi cut_from_memory cut_eyes context_of crop_raw10_bytes
    crop_row collect read_u16 read_u32 info
extract-IsCut_example =
    extract-IsCut sdk live (metadata_of info) 3500 2500 3500 2500 4 2 none (0, 0) (eye, eye, none)
      (omega arith) (omega arith) (ground arith) refl refl refl refl
