-- ===== src/Graph/Frames.antt =====
-- Frames of `Graph` in camera-service/src/main.rs: waiting for a buffer of the output port, checking
-- what it holds, copying it, and giving it back.
use podbay_camera_firmware.Prelude.{
  ℕ, zero, suc, ◌+◌, ◌-◌, ◌*◌, ◌/◌, Bool, true, not, ◌||◌, List, [], ◌∷◌, ltb, leb, ◌==◌,
  if◌then◌else◌, as_u32, as_u64, Result, ok, err, frame_timeout, out_of_fuel, pixel_format_changed,
  compressed_frame, frame_geometry_changed, bad_buffer, fixed_origin,
}
use podbay_camera_firmware.Device.{M, ◌>>=◌, ◌>>◌, pure, lift, I2c}
use podbay_camera_firmware.Bytes.{read_u16, read_u32}
use podbay_camera_firmware.Sensor.Driver.{set_origin_live}
use podbay_camera_firmware.Raw10.{RawFrame, collect}
use podbay_camera_firmware.Graph.{Mi, Graph, Buffer, mi}
use podbay_camera_firmware.Graph.Pipeline.{World, assign, on_bus, open_sensor_only}

-- What the information of a buffer says, as far as the service reads it.
pub record Metadata : Type 0 where
  pub pixel : ℕ
  pub compression : ℕ
  pub frame_width : ℕ
  pub frame_height : ℕ
  pub address : ℕ
  pub source_stride : ℕ
  pub buffer_size : ℕ

unfoldable pub metadata_of : List ℕ → Metadata
metadata_of info = record {
  pixel = read_u32 info 0x24;
  compression = read_u32 info 0x28;
  frame_width = read_u16 info 0x38;
  frame_height = read_u16 info 0x3a;
  address = read_u32 info 0x3c;
  source_stride = read_u32 info 0x60;
  buffer_size = read_u32 info 0x6c;
}

-- `self.width.div_ceil(4) as usize * 5`
abbrev pub packed_stride : Graph → ℕ
packed_stride g = (g.graph_width + 3) / 4 * 5

-- The tests that both kinds of acquisition make, and the one of the buffer that each makes last.
unfoldable pub validate_metadata : Graph → Metadata → Bool → Result (Unit {0})
validate_metadata g m is_bad =
    if not (m.pixel == g.graph_format)
    then err pixel_format_changed
    else if not (m.compression == 0)
    then err compressed_frame
    else if not (m.frame_width == g.graph_width) || not (m.frame_height == g.graph_height)
    then err frame_geometry_changed
    else if is_bad
    then err bad_buffer
    else ok tt

unfoldable pub is_bad_frame : Graph → Metadata → Bool
is_bad_frame g m = m.address == 0 || ltb m.source_stride (packed_stride g)

-- The bytes of the memory from an address on.
abbrev pub read_memory : (ℕ → ℕ) → ℕ → ℕ → List ℕ
read_memory memory address zero = []
read_memory memory address (suc n) = memory address ∷ read_memory memory (suc address) n

-- `thread::sleep(Duration::from_millis(2))`
abbrev pub poll_pause : ℕ
poll_pause = 2_000_000

abbrev pub nanoseconds : ℕ → ℕ
nanoseconds milliseconds = milliseconds * 1_000_000

-- A result that counts only if the buffer could be given back.
abbrev pub after_put {ℓ} : {A : Type ℓ} → Result (Unit {0}) → Result A → Result A
after_put (ok _) r = r
after_put (err e) r = err e

module _ (sdk : Mi) where
  -- The loop that waits for a buffer, from the instant `start` on.
  unfoldable pub poll : ℕ → ℕ → ℕ → M sdk.State Buffer
  poll zero start timeout s = (err out_of_fuel, s)
  poll (suc fuel) start timeout s =
      let ((result, buffer), t) = sdk.get_buf s in
      let again = poll fuel start timeout (sdk.pause poll_pause t) in
      if result == 0
      then (ok buffer, t)
      else if leb timeout (sdk.now t - start)
      then (err (frame_timeout result), t)
      else again

  -- One round more than the pauses that fit into the timeout.
  unfoldable pub wait_buffer : ℕ → M sdk.State Buffer
  wait_buffer milliseconds s = poll (milliseconds / 2 + 2) (sdk.now s) (nanoseconds milliseconds) s

  unfoldable pub flush : ℕ → ℕ → M sdk.State (Unit {0})
  flush address size s = let (result, t) = sdk.flush_cache address size s in (mi result, t)

  unfoldable pub copy_frame : Graph → Metadata → M sdk.State (List ℕ)
  copy_frame g m = do
    lift (validate_metadata g m (is_bad_frame g m))
    flush m.address m.buffer_size
    λ s. (
      collect g.graph_height 0 (λ row.
          ok (read_memory (sdk.memory s) (m.address + row * m.source_stride) (packed_stride g))),
      s,
    )

module _ (sdk : Mi) (bus : I2c) where
  unfoldable pub on_sdk : {A : Type 0} → M sdk.State A → M (World sdk bus) A
  on_sdk m (g, (s, b)) = let (r, s') = m s in (r, (g, (s', b)))

  -- The fields of the graph, read where the source reads them.
  unfoldable pub with_graph : {A : Type 0} → (Graph → M (World sdk bus) A) → M (World sdk bus) A
  with_graph f w = f w.0 w

  unfoldable pub put_back : ℕ → M (World sdk bus) (Unit {0})
  put_back handle (g, (s, b)) = let (result, s') = sdk.put_buf handle s in (mi result, (g, (s', b)))

  -- What is done with a buffer before it is given back, whether that fails or not.
  unfoldable pub give_back : {A : Type 0} → ℕ → Result A × World sdk bus → Result A × World sdk bus
  give_back handle (r, w) = let (put, w') = put_back handle w in (after_put put r, w')

  unfoldable pub returning : {A : Type 0} → ℕ → M (World sdk bus) A → M (World sdk bus) A
  returning handle m w = give_back handle (m w)

  unfoldable pub stamped : Graph → List ℕ → M (World sdk bus) RawFrame
  stamped g bytes (g', (s, b)) = (
    ok (record {
      bytes = bytes;
      stride = as_u32 (packed_stride g);
      timestamp_ns = as_u64 (sdk.wall_clock s);
    }),
    (g', (s, b)),
  )

  unfoldable pub acquire_frame_with_timeout : ℕ → M (World sdk bus) RawFrame
  acquire_frame_with_timeout milliseconds = do
    buffer ← on_sdk (wait_buffer sdk milliseconds)
    assign sdk bus (λ g. record g { metadata_logged = true })
    with_graph λ g. do
      bytes ← returning buffer.handle (on_sdk (copy_frame sdk g (metadata_of buffer.info)))
      stamped g bytes

  unfoldable pub acquire_frame : M (World sdk bus) RawFrame
  acquire_frame = with_graph λ g. acquire_frame_with_timeout g.graph_timeout

  unfoldable pub discard_queued_frames : ℕ → ℕ → M (World sdk bus) ℕ
  discard_queued_frames zero discarded w = (ok discarded, w)
  discard_queued_frames (suc maximum) discarded (g, (s, b)) =
      let ((result, buffer), t) = sdk.get_buf s in
      let more =
        (put_back buffer.handle >> discard_queued_frames maximum (suc discarded)) (g, (t, b)) in
      if result == 0 then more else (ok discarded, (g, (t, b)))

  unfoldable pub discard_next_frames : ℕ → M (World sdk bus) (Unit {0})
  discard_next_frames zero = pure tt
  discard_next_frames (suc count) = do
    buffer ← with_graph (λ g. on_sdk (wait_buffer sdk g.graph_timeout))
    put_back buffer.handle
    discard_next_frames count

  -- `for _ in 0..=settle_frames`, which keeps the last frame.
  unfoldable pub acquire_last : ℕ → M (World sdk bus) RawFrame
  acquire_last zero = acquire_frame
  acquire_last (suc settle) = do _ ← acquire_frame; acquire_last settle

  -- The origin is moved first where it changes.
  unfoldable pub move_origin : ℕ → ℕ → Graph → M (World sdk bus) (Unit {0})
  move_origin x y g =
      if not (x == g.origin_x) || not (y == g.origin_y)
      then (if g.live_origin
          then (do
            sensor ← open_sensor_only sdk bus
            on_bus sdk bus (set_origin_live bus sensor x y)
            _ ← discard_queued_frames 2 0
            pure tt)
          else lift (err fixed_origin))
      else pure tt

  unfoldable pub capture_tile : ℕ → ℕ → ℕ → M (World sdk bus) RawFrame
  capture_tile x y settle_frames = do
    with_graph (move_origin x y)
    frame ← acquire_last settle_frames
    assign sdk bus (λ g. record g { origin_x = x; origin_y = y })
    pure frame
