-- ===== src/Streaming/Sets.antt =====
-- `stream_eye_rois` of camera-service/src/main.rs, one set at a time.
use podbay_camera_firmware.Prelude.{
  ℕ, ◌+◌, ◌-◌, ◌*◌, ◌/◌, ◌%◌, ◌==◌, ◌++◌, not, Option, none, some, List, [], ◌∷◌, length,
  if◌then◌else◌, leb, ◌&&◌, as_u32, as_u64, Result, ok, err,
}
use podbay_camera_firmware.Device.{M, ◌>>=◌, ◌>>◌, lift, pure, I2c}
use podbay_camera_firmware.Config.{SensorMode}
use podbay_camera_firmware.Config.Requests.{ContextStream, validate_absolute_eye_rois}
use podbay_camera_firmware.Telemetry.Window.{
  CameraTelemetry, reset, record_stage, payload, stage_sensor_acquire, stage_roi_slice,
  stage_context_build, stage_sensor_interval, stage_stream_write,
}
use podbay_camera_firmware.Packet.{
  thumbnail_packet_header, eye_packet_header, telemetry_packet_header,
}
use podbay_camera_firmware.Graph.{Mi, Graph}
use podbay_camera_firmware.Sensor.Driver.{verify_full_raw_mode}
use podbay_camera_firmware.Graph.Pipeline.{World, on_bus, open_sensor_only}
use podbay_camera_firmware.Graph.Frames.{with_graph}
use podbay_camera_firmware.Graph.EyeSet.{RawEyeSet, acquire_eye_set}
use podbay_camera_firmware.Control.{LiveEyeRoi}
use podbay_camera_firmware.Streaming.{
  Stream, Round, Packet, active_context, telemetry_every_raw_sets,
}
use podbay_camera_firmware.Streaming.Cadence.{
  required_sets, cadence_frame_length, trim, check_cadence,
}

-- The rectangles that were requested last, once they are valid, where their generation is a new one.
unfoldable pub retarget_eyes : SensorMode → Option LiveEyeRoi → LiveEyeRoi → Result LiveEyeRoi
retarget_eyes mode none active = ok active
retarget_eyes mode (some requested) active =
    if requested.roi_generation == active.roi_generation
    then ok active
    else (elim (validate_absolute_eye_rois mode requested.left_eye requested.right_eye
        requested.eye_width requested.eye_height) [ err e ↦ err e | ok _ ↦ ok requested ])

-- What an acquired set leaves in the telemetry.
abbrev pub note_interval : Option ℕ → ℕ → CameraTelemetry → CameraTelemetry
note_interval none ready t = t
note_interval (some previous) ready t = record_stage t stage_sensor_interval (ready - previous)

abbrev pub note_context : Option ContextStream → ℕ → CameraTelemetry → CameraTelemetry
note_context none build t = t
note_context (some context) build t = record_stage t stage_context_build build

unfoldable pub note_set :
    Round → Option ContextStream → Option ℕ → RawEyeSet → CameraTelemetry → CameraTelemetry
note_set round context previous set t = note_interval previous round.frame_ready (
    note_context context round.context_build (
      record_stage (record_stage t stage_sensor_acquire set.sensor_wait) stage_roi_slice
        round.roi_slice))

abbrev pub note_write : ℕ → CameraTelemetry → CameraTelemetry
note_write elapsed t = record_stage t stage_stream_write elapsed

-- The packet of a context thumbnail, where there is one.
unfoldable pub context_packets :
    Graph → ℕ → ℕ → Option ContextStream → Option (List ℕ) → List Packet
context_packets g sequence timestamp (some context) (some pixels) =
    (
      thumbnail_packet_header 0 sequence timestamp g.origin_x g.origin_y context.context_width
          context.context_height (as_u32 (length pixels)) 0,
      pixels,
    )
    ∷ []
context_packets g sequence timestamp none pixels = []
context_packets g sequence timestamp (some context) none = []

abbrev pub note_packets : ℕ → List Packet → CameraTelemetry → CameraTelemetry
note_packets elapsed [] t = t
note_packets elapsed (packet ∷ packets) t = note_write elapsed t

unfoldable pub eye_packet : LiveEyeRoi → ℕ → ℕ → ℕ → ℕ × ℕ → List ℕ → Packet
eye_packet active eye_id sequence timestamp (x, y) pixels = (
  eye_packet_header eye_id sequence timestamp x y active.eye_width active.eye_height
      (active.eye_width / 4 * 5) (as_u32 (length pixels)),
  pixels,
)

unfoldable pub eye_packets : LiveEyeRoi → ℕ → RawEyeSet → List Packet
eye_packets active sequence set =
    eye_packet active 1 sequence set.set_timestamp_ns active.left_eye set.left_payload
    ∷ eye_packet active 2 sequence set.set_timestamp_ns active.right_eye set.right_payload
    ∷ []

-- The telemetry that follows every second set, under the sequence of that set.
unfoldable pub telemetry_packets :
    Round → ℕ → ℕ → ℕ → CameraTelemetry → List Packet × CameraTelemetry
telemetry_packets round sent sequence timestamp t =
    let (bytes, t') = payload t round.telemetry_now in
    let header = telemetry_packet_header sequence timestamp (as_u32 (length bytes)) in
    if sent % telemetry_every_raw_sets == 0
    then ((header, bytes) ∷ [], note_write round.telemetry_write t')
    else ([], t)

-- The variables after a set, up to the cadence.
unfoldable pub advance : Round → ℕ → LiveEyeRoi → CameraTelemetry → Stream → Stream
advance round required active t stream = record {
  sent = as_u32 (stream.sent + 1);
  sequence = as_u64 (stream.sequence + 1);
  active = active;
  last_frame_ready = some round.frame_ready;
  completed_sets = trim (required + 1) (stream.completed_sets ++ round.completed ∷ []);
  stream_telemetry = t;
}

abbrev pub generation_of : Option LiveEyeRoi → ℕ
generation_of none = 0
generation_of (some live) = live.roi_generation

module _ (sdk : Mi) (bus : I2c) where
  -- What is sent once a set has been acquired, and the variables after it. Where the cadence is missed the
  -- stream ends with that error; the packets before it have been sent, which the error does not say.
  unfoldable pub send_set :
      Graph
      → Round
      → Option ContextStream
      → LiveEyeRoi
      → RawEyeSet
      → Stream
      → Result (List Packet × Stream)
  send_set g round context active set stream =
      let noted = note_set round context stream.last_frame_ready set stream.stream_telemetry in
      let thumbnail =
        context_packets g stream.sequence set.set_timestamp_ns context set.context_payload in
      let written =
        note_write round.right_write
          (note_write round.left_write (note_packets round.context_write thumbnail noted)) in
      let required = required_sets (cadence_frame_length round.timing_word) in
      let next = advance round required active written stream in
      let (report, t) =
        telemetry_packets round next.sent stream.sequence set.set_timestamp_ns written in
      elim (check_cadence required next.completed_sets round.completed) [
        | err e ↦ err e
        | ok _ ↦ ok (
          thumbnail ++ eye_packets active stream.sequence set ++ report,
          record next { stream_telemetry = t },
        )
      ]

  unfoldable pub stream_set :
      SensorMode → Option ContextStream → Round → Stream → M (World sdk bus) (List Packet × Stream)
  stream_set mode context round stream = do
    active ← lift (retarget_eyes mode round.requested stream.active)
    let wanted = active_context context stream.sent
    set ←
        acquire_eye_set sdk bus active.left_eye active.right_eye active.eye_width active.eye_height
          wanted
    λ w. (send_set w.0 round wanted active set stream, w)

  -- The loop, over what its rounds read: all of it where there is no number of frames.
  unfoldable pub stream_sets :
      SensorMode
      → Option ContextStream
      → ℕ
      → List Round
      → Stream
      → M (World sdk bus) (List Packet × Stream)
  stream_sets mode context frames [] stream = pure ([], stream)
  stream_sets mode context frames (round ∷ rounds) stream =
      let further = (do
        first ← stream_set mode context round stream
        rest ← stream_sets mode context frames rounds first.1
        pure (first.0 ++ rest.0, rest.1)) in
      if not (frames == 0) && leb frames stream.sent then pure ([], stream) else further

  -- `telemetry` is what the threads share before the stream.
  unfoldable pub stream_eye_rois :
      SensorMode
      → ℕ
      → LiveEyeRoi
      → ℕ
      → Option ContextStream
      → Option LiveEyeRoi
      → CameraTelemetry
      → ℕ
      → List Round
      → M (World sdk bus) (List Packet × Stream)
  stream_eye_rois mode sequence eyes frames context live telemetry started rounds = do
    lift (
        validate_absolute_eye_rois mode eyes.left_eye eyes.right_eye eyes.eye_width eyes.eye_height)
    with_graph sdk bus λ g. do
      sensor ← open_sensor_only sdk bus
      on_bus sdk bus (verify_full_raw_mode bus sensor g.origin_x g.origin_y)
      stream_sets mode context frames rounds (record {
        sent = 0;
        sequence = sequence;
        active = record eyes { roi_generation = generation_of live };
        last_frame_ready = none;
        completed_sets = [];
        stream_telemetry = reset telemetry started;
      })
