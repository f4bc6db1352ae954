-- ===== src/Graph/Balance.antt =====
-- Every buffer that is taken is given back, whatever becomes of the frame.
use podbay_camera_firmware.Prelude.{
  ℕ, zero, suc, ◌≡◌, refl, ◌∙◌, ap, Bool-cases, ==_iff, ◌==◌, inl, inr, not, ◌||◌, Option, List,
  arith, err, fixed_origin,
}
use podbay_camera_firmware.Device.{M, I2c}
use podbay_camera_firmware.Device.Runs.{
  Runs, Keeps, Runs->>=, Runs-pure, Keeps-lift, Keeps-if, ends,
}
use podbay_camera_firmware.Config.Requests.{ContextStream}
use podbay_camera_firmware.Graph.{Mi, Graph}
use podbay_camera_firmware.Graph.Pipeline.{World, on_bus, open_sensor_only}
use podbay_camera_firmware.Graph.Frames.{
  Metadata, validate_metadata, wait_buffer, acquire_frame_with_timeout, acquire_frame,
  discard_queued_frames, discard_next_frames, acquire_last, move_origin, capture_tile,
}
use podbay_camera_firmware.Graph.Eyes.{is_bad_eye_frame, relative_eyes, flush_range}
use podbay_camera_firmware.Graph.EyeSet.{
  timed, extract, flush_eyes, cut_from_memory, eye_set, acquire_eye_set,
}
use podbay_camera_firmware.Graph.Ledger.{
  Ledger, HasOut, IsOut, wait_Runs, flush-Keeps, copy_frame-Keeps, on_sdk-Runs, with_graph-Runs,
  assign-HasOut, returning-Runs, put_back-Runs, stamped-HasOut,
}

module _ (sdk : Mi) (bus : I2c) (ledger : Ledger sdk) where
  open ledger use {taken, missed}

  pub acquire_frame_with_timeout-HasOut :
      (n milliseconds : ℕ)
      → Keeps (HasOut sdk bus ledger n) (acquire_frame_with_timeout sdk bus milliseconds)
  unfolding acquire_frame_with_timeout
  acquire_frame_with_timeout-HasOut n milliseconds =
      Runs->>= ((on_sdk-Runs sdk bus) (wait_Runs sdk ledger n milliseconds)) (λ buffer.
        Runs->>= ((assign-HasOut sdk bus ledger) (suc n) _) (λ _. (with_graph-Runs sdk bus) (λ g.
          Runs->>=
            ((returning-Runs sdk bus ledger) n _
              ((on_sdk-Runs sdk bus) (copy_frame-Keeps sdk ledger (suc n) g _)))
            (λ bytes. (stamped-HasOut sdk bus ledger) n g bytes))))

  acquire_frame-HasOut : (n : ℕ) → Keeps (HasOut sdk bus ledger n) (acquire_frame sdk bus)
  unfolding acquire_frame
  acquire_frame-HasOut n = (with_graph-Runs sdk bus) (λ g. acquire_frame_with_timeout-HasOut n _)

  discard_queued-HasOut :
      (n maximum discarded : ℕ)
      → Keeps (HasOut sdk bus ledger n) (discard_queued_frames sdk bus maximum discarded)
  unfolding discard_queued_frames
  discard_queued-HasOut n zero discarded = record { done = λ w a p r. p; failed = λ w e p r. p }
  discard_queued-HasOut n (suc maximum) discarded =
      let more = λ (handle : ℕ).
        Runs->>= ((put_back-Runs sdk bus ledger) n handle)
          (λ _. discard_queued-HasOut n maximum (suc discarded)) in
      record {
        done = λ w a p r. elim (Bool-cases ((sdk.get_buf w.1.0).0.0 == 0)) [
          | inl got ↦
              let one = taken w.1.0 ((==_iff _ _).0 got) in
              rw got
                ((more _).done (w.0, ((sdk.get_buf w.1.0).1, w.1.1)) a (rw (one, p)) (rw got at r))
          | inr none ↦ rw none (missed w.1.0 (ground arith) ∙ p)
        ];
        failed = λ w e p r. elim (Bool-cases ((sdk.get_buf w.1.0).0.0 == 0)) [
          | inl got ↦
              let one = taken w.1.0 ((==_iff _ _).0 got) in
              rw got (
                (more _).failed (w.0, ((sdk.get_buf w.1.0).1, w.1.1)) e (rw (one, p)) (rw got at r))
          | inr none ↦ rw none (missed w.1.0 (ground arith) ∙ p)
        ];
      }

  discard_next-HasOut :
      (n count : ℕ) → Keeps (HasOut sdk bus ledger n) (discard_next_frames sdk bus count)
  unfolding discard_next_frames
  discard_next-HasOut n zero = Runs-pure tt
  discard_next-HasOut n (suc count) =
      Runs->>= ((with_graph-Runs sdk bus) (λ g. (on_sdk-Runs sdk bus) (wait_Runs sdk ledger n _)))
        (λ buffer. Runs->>= ((put_back-Runs sdk bus ledger) n _) (λ _. discard_next-HasOut n count))

  acquire_last-HasOut :
      (n settle : ℕ) → Keeps (HasOut sdk bus ledger n) (acquire_last sdk bus settle)
  unfolding acquire_last
  acquire_last-HasOut n zero = acquire_frame-HasOut n
  acquire_last-HasOut n (suc settle) =
      Runs->>= (acquire_frame-HasOut n) (λ _. acquire_last-HasOut n settle)

  -- Steps on the graph and on the bus leave the SDK alone.
  still-HasOut :
      {A : Type 0} (n : ℕ) {m : M (World sdk bus) A}
      → ((w : World sdk bus) → (m w).1.1.0 ≡ w.1.0)
      → Keeps (HasOut sdk bus ledger n) m
  still-HasOut n same = record {
    done = λ w a p r. ap ledger.out (same w) ∙ p;
    failed = λ w e p r. ap ledger.out (same w) ∙ p;
  }

  open_sensor_only-HasOut : (n : ℕ) → Keeps (HasOut sdk bus ledger n) (open_sensor_only sdk bus)
  unfolding open_sensor_only
  open_sensor_only-HasOut n = still-HasOut n (λ w. refl)

  on_bus-HasOut :
      {A : Type 0} (n : ℕ) (m : M bus.State A) → Keeps (HasOut sdk bus ledger n) (on_bus sdk bus m)
  unfolding on_bus
  on_bus-HasOut n m = still-HasOut n (λ w. refl)

  move_origin-HasOut :
      (n x y : ℕ) (g : Graph) → Keeps (HasOut sdk bus ledger n) (move_origin sdk bus x y g)
  unfolding move_origin
  move_origin-HasOut n x y g =
      Keeps-if (not (x == g.origin_x) || not (y == g.origin_y))
        (Keeps-if g.live_origin
          (Runs->>= (open_sensor_only-HasOut n) (λ sensor.
            Runs->>= (on_bus-HasOut n _)
              (λ _. Runs->>= (discard_queued-HasOut n 2 0) (λ _. Runs-pure tt))))
          (Keeps-lift (err fixed_origin)))
        (Runs-pure tt)

  capture_tile-HasOut :
      (n x y settle : ℕ) → Keeps (HasOut sdk bus ledger n) (capture_tile sdk bus x y settle)
  unfolding capture_tile
  capture_tile-HasOut n x y settle =
      Runs->>= ((with_graph-Runs sdk bus) (λ g. move_origin-HasOut n x y g)) (λ _.
        Runs->>= (acquire_last-HasOut n settle)
          (λ frame. Runs->>= ((assign-HasOut sdk bus ledger) n _) (λ _. Runs-pure frame)))

  timed_ends :
      (n milliseconds : ℕ)
      → Runs
          (IsOut sdk ledger n)
          (IsOut sdk ledger (suc n))
          (IsOut sdk ledger n)
          (timed sdk (wait_buffer sdk milliseconds))
  unfolding timed
  timed_ends n milliseconds = record {
    done = λ s a p r. elim (ends (wait_buffer sdk milliseconds s)) [
      | inl (b, t, e) ↦
          rw e (rw e at ((wait_Runs sdk ledger n milliseconds).done s b p (rw e refl)))
      | inr (x, t, e) ↦ let never = rw e at r in cc
    ];
    failed = λ s f p r. elim (ends (wait_buffer sdk milliseconds s)) [
      | inl (b, t, e) ↦ let never = rw e at r in cc
      | inr (x, t, e) ↦
          rw e (rw e at ((wait_Runs sdk ledger n milliseconds).failed s x p (rw e refl)))
    ];
  }

  flush_eyes-IsOut :
      (n : ℕ) (m : Metadata) (context : Option ContextStream) (height : ℕ)
      (eyes : (ℕ × ℕ) × (ℕ × ℕ))
      → Keeps (IsOut sdk ledger n) (flush_eyes sdk m context height eyes)
  unfolding flush_eyes
  flush_eyes-IsOut n m context height (left, right) =
      let (address, size) = flush_range m context height left right in
      flush-Keeps sdk ledger n address size

  cut-IsOut :
      (n : ℕ) (g : Graph) (m : Metadata) (context : Option ContextStream) (width height : ℕ)
      (eyes : (ℕ × ℕ) × (ℕ × ℕ))
      → Keeps (IsOut sdk ledger n) (cut_from_memory sdk g m context width height eyes)
  unfolding cut_from_memory
  cut-IsOut n g m context width height eyes = record { done = λ s a p r. p; failed = λ s e p r. p }

  extract-IsOut :
      (n : ℕ) (g : Graph) (m : Metadata) (left right : ℕ × ℕ) (width height : ℕ)
      (context : Option ContextStream)
      → Keeps (IsOut sdk ledger n) (extract sdk g m left right width height context)
  unfolding extract
  extract-IsOut n g m left right width height context =
      Runs->>= (Keeps-lift (validate_metadata g m (is_bad_eye_frame g m))) (λ _.
        Runs->>= (Keeps-lift (relative_eyes g left right width height)) (λ eyes.
          Runs->>= (flush_eyes-IsOut n m context height eyes)
            (λ _. cut-IsOut n g m context width height eyes)))

  eye_set-HasOut :
      (n wait : ℕ) (cut : List ℕ × List ℕ × Option (List ℕ))
      → Keeps (HasOut sdk bus ledger n) (eye_set sdk bus wait cut)
  unfolding eye_set
  eye_set-HasOut n wait cut = still-HasOut n (λ w. refl)

  acquire_eye_set-HasOut :
      (n : ℕ) (left right : ℕ × ℕ) (width height : ℕ) (context : Option ContextStream)
      → Keeps (HasOut sdk bus ledger n) (acquire_eye_set sdk bus left right width height context)
  unfolding acquire_eye_set
  acquire_eye_set-HasOut n left right width height context = (with_graph-Runs sdk bus) (λ g.
      Runs->>= ((on_sdk-Runs sdk bus) (timed_ends n _)) (λ waited.
        Runs->>=
          ((returning-Runs sdk bus ledger) n _
            ((on_sdk-Runs sdk bus) (extract-IsOut (suc n) g _ left right width height context)))
          (λ cut. eye_set-HasOut n waited.1 cut)))

  -- On an SDK that counts its buffers, whatever the metadata, the cache, the sensor, the requested
  -- rectangles and the timeouts do, every operation on frames ends with as many buffers out as before,
  -- when it succeeds and when it fails.
  pub frames-HasOut :
      (n milliseconds x y settle count : ℕ) (left right : ℕ × ℕ) (width height : ℕ)
      (context : Option ContextStream)
      → Keeps (HasOut sdk bus ledger n) (acquire_frame_with_timeout sdk bus milliseconds)
        × Keeps (HasOut sdk bus ledger n) (capture_tile sdk bus x y settle)
        × Keeps (HasOut sdk bus ledger n) (acquire_eye_set sdk bus left right width height context)
        × Keeps (HasOut sdk bus ledger n) (discard_queued_frames sdk bus count 0)
        × Keeps (HasOut sdk bus ledger n) (discard_next_frames sdk bus count)
  frames-HasOut n milliseconds x y settle count left right width height context = (
    acquire_frame_with_timeout-HasOut n milliseconds,
    capture_tile-HasOut n x y settle,
    acquire_eye_set-HasOut n left right width height context,
    discard_queued-HasOut n count 0,
    discard_next-HasOut n count,
  )
