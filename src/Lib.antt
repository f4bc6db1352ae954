-- ===== src/Lib.antt =====
-- Verification of the camera service of the podbay firmware.
--
-- The program. camera-service/src/main.rs is one process that owns an IMX582 image sensor, a VCM lens
-- actuator, and the video input of a SigmaStar chip. It programs the sensor over I2C, takes RAW10
-- frames from the video input, and serves them over TCP as crops around the two eyes, with reduced
-- context thumbnails and with a telemetry packet about its own timing. A control connection moves the
-- lens and asks for another sensor window; the service then chooses the cheapest transition from one
-- configuration to the next.
--
-- The parts, the modules, and the code of camera-service/src/main.rs that they model:
--   Telemetry   TimingHistogram, CameraTelemetry, the CAMERA_STAGE_* and TELEMETRY_* constants.
--               Telemetry.Histogram has the histogram, Telemetry.Window the window and its packet; the
--               other children hold proofs.
--   Config      Config, validate_config, Sensor::validate_origin, sensor_crop_config,
--               full_sensor_scaled_config, scaled_acquisition_config, SensorMode, SensorTransition and
--               sensor_transition (in Config.Transition), ContextStream, parse_context_stream and
--               validate_absolute_eye_rois (in Config.Requests).
--   Exposure    ExposureTiming and matching_coarse_exposure.
--   Packet      packet_header, eye_packet_header, thumbnail_packet_header, telemetry_packet_header, over
--               Bytes, the put_* and read_* helpers.
--   Raw10       RawFrame, crop_raw10, packed_raw10_pixel, downsample_raw10_gray, gray_strobe and
--               tracking_context, push_raw10_group, resample_raw10_bayer.
--   Device      calls that fail and leave a device in some state, and the I2C bus of the sensor.
--   Sensor      the register tables of Sensor, and in Sensor.Driver all its operations.
--   Vcm         Vcm, its registers, moves and status.
--   Graph       Graph and its configure_pipeline, reconfigure, reconfigure_geometry_live,
--               rearm_vif_output_live and stop_pipeline in Graph.Pipeline; acquire_frame,
--               acquire_frame_with_timeout, discard_queued_frames, discard_next_frames and capture_tile in
--               Graph.Frames; acquire_eye_set in Graph.Eyes and Graph.EyeSet; apply_sensor_config and
--               apply_sensor_transition in Graph.Apply. The other children hold proofs.
--   Capture     capture_full_sensor_coarse_thumbnail in Capture.Coarse and Capture.OneShot,
--               capture_full_sensor_scan_thumbnail in Capture.Bands and Capture.Scan.
--   Control     serve_vcm_control and LiveEyeRoi: the lines in Control.Commands, what is computed between the
--               calls in Control.Server, the commands in Control.Handlers.
--   Streaming   stream_eye_rois: the cadence in Streaming.Cadence, the sets in Streaming.Sets.
--   Arguments   parse_args, parse_size, parse_pair and parse; Arguments.Fields has a table of the options that
--               is independent of it.
--   Text        strings as lists of codes: words, numbers, and comparison without case.
--   Prelude     shared names, Boolean tests, lists, machine words and results.
--
-- How the model corresponds to the code. A struct is a record and an enum a data type. A `&mut self`
-- method returns the new record; a method that also talks to a device is a function of the device's
-- state, which the model does not define: the bus and the MI SDK are records of operations, and a
-- theorem about what the sensor or the actuator does afterwards assumes that the device keeps its
-- registers, as Sensor.Registers and Vcm.Registers state it. A theorem that assumes nothing of the bus says so. An
-- error keeps its kind and drops its text. A panic of the source is the error `panic`. Numbers are
-- natural numbers, with the wrap-around or the saturation of a machine word written out where the source
-- relies on it. A duration and an instant are numbers of nanoseconds, a frame timeout of
-- milliseconds; an instant is an argument.
--
-- The parts meet in the graph: a transition, a capture and a stream all work on one Graph and one
-- SDK, and the control connection shares the rectangles of the eyes, the word of the exposure and the
-- telemetry with a stream. Each command and each set of a stream is one step on that state.
--
-- Bounds. Loops are recursions on their counters or lists, but for two on fuel. The loop that waits for a
-- buffer has one round more than the pauses of two milliseconds that fit into its timeout, which is
-- enough by a clock on which a pause takes its time; without it the error is out_of_fuel. The loop that
-- collects the origins of a scan has a round for each row that an origin can have. The lemmas on images
-- hold for every size; where the source multiplies u32 values it is assumed that they fit, as they do
-- for sides of at most 8000.
--
-- Not modelled: the MI SDK itself, the opening and dropping of a Graph, the data connection's line
-- protocol (serve_client) and the loop of run around it, sockets and threads, messages, the pauses that
-- let the hardware settle, the durations that are only reported, and error texts; the Python programs
-- under tools and the C code under sensor-provider.
pub mod Prelude
pub mod Bytes
pub mod Text
pub mod Telemetry
pub mod Config
pub mod Capture
pub mod Exposure
pub mod Packet
pub mod Raw10
pub mod Device
pub mod Sensor
pub mod Vcm
pub mod Graph
pub mod Control
pub mod Streaming
pub mod Arguments
