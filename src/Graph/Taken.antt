-- ===== src/Graph/Taken.antt =====
-- What an acquired frame holds: the buffer that was waited for.
use podbay_camera_firmware.Prelude.{
  ℕ, zero, suc, ◌-◌, ◌≤◌, ◌≡◌, refl, sym, ◌∙◌, ap, List, leb, ◌==◌, ==_iff, Bool-cases, inl, inr,
  true, arith, Result, ok, as_u32,
}
use podbay_camera_firmware.Device.{M, I2c, ◌>>=◌}
use podbay_camera_firmware.Device.Runs.{ends}
use podbay_camera_firmware.Raw10.{RawFrame}
use podbay_camera_firmware.Raw10.Chunks.{chunks}
use podbay_camera_firmware.Graph.Effects.{after_put_ok}
use podbay_camera_firmware.Graph.{Mi, Graph, Buffer}
use podbay_camera_firmware.Graph.Pipeline.{World, assign}
use podbay_camera_firmware.Graph.Frames.{
  Metadata, metadata_of, packed_stride, poll, poll_pause, wait_buffer, copy_frame, on_sdk,
  with_graph, put_back, give_back, returning, stamped, acquire_frame_with_timeout,
}
use podbay_camera_firmware.Graph.Copies.{
  Fits, IsCopy, row_at, chunks-IsCopy, flushed, copy_frame_lem,
}

module _ (sdk : Mi) where
  -- A buffer that a wait ends with has been handed out.
  poll_takes :
      (fuel start timeout : ℕ) (s : sdk.State) (buffer : Buffer)
      → (poll sdk fuel start timeout s).0 ≡ ok buffer
      → (t : sdk.State) × ((sdk.get_buf t).0 ≡ (0, buffer))
        × ((poll sdk fuel start timeout s).1 ≡ (sdk.get_buf t).1)
  unfolding poll
  poll_takes zero start timeout s buffer done = cc
  poll_takes (suc fuel) start timeout s buffer done =
      let ((result, taken), t) = sdk.get_buf s in
      elim (Bool-cases (result == 0)) [
        | inl got ↦
            let same : ok taken ≡ ok buffer = rw got at done in
            let zero_ = (==_iff result 0).0 got in rw got (s, cc, refl)
        | inr missed ↦ elim (Bool-cases (leb timeout (sdk.now t - start))) [
          | inl over ↦ let never = rw (missed, over) at done in cc
          | inr early ↦
              rw (missed, early)
                (poll_takes fuel start timeout (sdk.pause poll_pause t) buffer
                  (rw (missed, early) at done))
        ]
      ]

stride_fits : (g : Graph) → g.graph_width ≤ 65_535 → as_u32 (packed_stride g) ≡ packed_stride g
stride_fits g h = omega arith

copied_frame :
    (g : Graph) (m : Metadata) (memory : ℕ → ℕ) (timestamp : ℕ) (bytes : List ℕ) (frame : RawFrame)
    → g.graph_width ≤ 65_535
    → bytes ≡ chunks g.graph_height 0 (row_at g m memory)
    → Path
        (Result RawFrame)
        (ok (record { bytes = bytes; stride = as_u32 (packed_stride g); timestamp_ns = timestamp }))
        (ok frame)
    → IsCopy g m memory frame
copied_frame g m memory timestamp bytes frame small same is_frame =
    let is_frame' = rw (same, stride_fits g small) at is_frame in
    let copied = chunks-IsCopy g m memory timestamp in
    let e : Path RawFrame
        (record {
          bytes = chunks g.graph_height 0 (row_at g m memory);
          stride = packed_stride g;
          timestamp_ns = timestamp;
        })
        frame =
      cc in
    rw e at copied

module _ (sdk : Mi) (bus : I2c) where
  abbrev logged : World sdk bus → sdk.State → World sdk bus
  logged w t = (record w.0 { metadata_logged = true }, (t, w.1.1))

  -- The part of an acquisition that comes after the wait.
  abbrev after_wait : Buffer → M (World sdk bus) RawFrame
  after_wait buffer = with_graph sdk bus (λ g.
      (returning sdk bus buffer.handle (on_sdk sdk bus (copy_frame sdk g (metadata_of buffer.info)))
        >>= stamped sdk bus g))

  after_wait-IsCopy :
      (w : World sdk bus) (buffer : Buffer) (frame : RawFrame)
      → w.0.graph_width ≤ 65_535
      → (after_wait buffer w).0 ≡ ok frame
      → Fits w.0 (metadata_of buffer.info)
        × IsCopy w.0 (metadata_of buffer.info) (flushed sdk (metadata_of buffer.info) w.1.0) frame
  unfolding with_graph returning give_back put_back on_sdk stamped
  after_wait-IsCopy w buffer frame small done =
      elim (ends (
        returning sdk bus buffer.handle
          (on_sdk sdk bus (copy_frame sdk w.0 (metadata_of buffer.info))) w)) [
            | inl (bytes, w', e) ↦
                let copied = after_put_ok _ _ bytes (ap (λ p. p.0) e) in
                let (fits, same) =
                  copy_frame_lem sdk w.0 (metadata_of buffer.info) w.1.0 bytes copied in
                let is_frame = rw e at done in
                (
                  fits,
                  copied_frame w.0 (metadata_of buffer.info) _ _ bytes frame small same is_frame,
                )
            | inr (x, w', e) ↦ let never = rw e at done in cc
          ]

  wait_takes :
      (milliseconds : ℕ) (s t : sdk.State) (buffer : Buffer)
      → wait_buffer sdk milliseconds s ≡ (ok buffer, t)
      → (u : sdk.State) × ((sdk.get_buf u).0 ≡ (0, buffer)) × (t ≡ (sdk.get_buf u).1)
  unfolding wait_buffer
  wait_takes milliseconds s t buffer e =
      let (u, got, after) = poll_takes sdk _ _ _ s buffer (ap (λ p. p.0) e) in
      (u, got, sym (ap (λ p. p.1) e) ∙ after)

  -- On a graph of a width of 16 bits, an acquisition that succeeds has taken a buffer from the SDK that
  -- holds a frame of the graph's format and size, uncompressed and with rows that are long enough, and
  -- the frame is that buffer: each row is the row in memory after the cache was flushed, less what pads it.
  pub acquire_frame_with_timeout-IsCopy :
      (milliseconds : ℕ) (w : World sdk bus) (frame : RawFrame)
      → w.0.graph_width ≤ 65_535
      → (acquire_frame_with_timeout sdk bus milliseconds w).0 ≡ ok frame
      → (s : sdk.State) × (buffer : Buffer) × ((sdk.get_buf s).0 ≡ (0, buffer))
        × Fits w.0 (metadata_of buffer.info)
        × IsCopy w.0
            (metadata_of buffer.info)
            (flushed sdk (metadata_of buffer.info) (sdk.get_buf s).1)
            frame
  unfolding acquire_frame_with_timeout on_sdk assign
  acquire_frame_with_timeout-IsCopy milliseconds w frame small done =
      elim (ends (wait_buffer sdk milliseconds w.1.0)) [
        | inl (buffer, t, e) ↦
            let (s, got, after) = wait_takes milliseconds w.1.0 t buffer e in
            let (fits, copy) = after_wait-IsCopy (logged w t) buffer frame small (rw e at done) in
            (
              s,
              buffer,
              got,
              record {
                same_format = fits.same_format;
                uncompressed = fits.uncompressed;
                same_width = fits.same_width;
                same_height = fits.same_height;
                long_rows = fits.long_rows;
              },
              rw (sym after) (record {
                has_frame = copy.has_frame;
                is_packed = copy.is_packed;
                rows = copy.rows;
              }),
            )
        | inr (x, t, e) ↦ let never = rw e at done in cc
      ]
