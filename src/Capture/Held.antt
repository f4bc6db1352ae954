-- ===== src/Capture/Held.antt =====
-- A scan moves the origin alone.
use podbay_camera_firmware.Prelude.{
  ℕ, zero, suc, ◌==◌, ◌≡◌, ◌||◌, not, refl, inl, inr, Bool-cases, List, [], ◌∷◌, err, fixed_origin,
}
use podbay_camera_firmware.Device.{M, I2c}
use podbay_camera_firmware.Device.Runs.{Keeps, Runs->>=, Runs-pure, Keeps-lift, Keeps-if}
use podbay_camera_firmware.Config.{Config}
use podbay_camera_firmware.Graph.{Mi, Graph}
use podbay_camera_firmware.Graph.Pipeline.{World, assign, on_bus, open_sensor_only}
use podbay_camera_firmware.Graph.Frames.{
  on_sdk, put_back, give_back, returning, stamped, acquire_frame_with_timeout, acquire_frame,
  discard_queued_frames, discard_next_frames, acquire_last, move_origin, capture_tile,
}
use podbay_camera_firmware.Graph.Ledger.{with_graph-Runs}
use podbay_camera_firmware.Graph.Applied.{logged, at_origin}
use podbay_camera_firmware.Graph.Lifecycle.{IsLive}
use podbay_camera_firmware.Capture.{scan_origin_settle_frames}
use podbay_camera_firmware.Capture.Bands.{ScanRow}
use podbay_camera_firmware.Capture.Scan.{scan_bands, scan_all}

-- What holds of the graph.
abbrev pub On : {W : Type 0} → (Graph → Type 0) → Graph × W → Type 0
On P w = P w.0

-- Set up for a configuration, but for the origin and the note that the metadata is logged.
abbrev pub IsHeld : Config → Graph → Type 0
IsHeld c g = IsLive c (at_origin c.initial_x c.initial_y (logged g))

-- The steps that leave the graph alone keep whatever holds of it.
module _ (sdk : Mi) (bus : I2c) (P : Graph → Type 0) where
  still-On :
      {A : Type 0} {m : M (World sdk bus) A}
      → ((w : World sdk bus) → (m w).1.0 ≡ w.0)
      → Keeps (On P) m
  still-On same = record { done = λ w a p r. rw (same w) p; failed = λ w e p r. rw (same w) p }

  on_sdk-On : {A : Type 0} (m : M sdk.State A) → Keeps (On P) (on_sdk sdk bus m)
  unfolding on_sdk
  on_sdk-On m = still-On (λ w. refl)

  pub on_bus-On : {A : Type 0} (m : M bus.State A) → Keeps (On P) (on_bus sdk bus m)
  unfolding on_bus
  on_bus-On m = still-On (λ w. refl)

  put_back-On : (handle : ℕ) → Keeps (On P) (put_back sdk bus handle)
  unfolding put_back
  put_back-On handle = still-On (λ w. refl)

  returning-On :
      {A : Type 0} (handle : ℕ) (m : M sdk.State A)
      → Keeps (On P) (returning sdk bus handle (on_sdk sdk bus m))
  unfolding returning give_back put_back on_sdk
  returning-On handle m = still-On (λ w. refl)

  stamped-On : (g : Graph) (bytes : List ℕ) → Keeps (On P) (stamped sdk bus g bytes)
  unfolding stamped
  stamped-On g bytes = still-On (λ w. refl)

  pub open_sensor_only-On : Keeps (On P) (open_sensor_only sdk bus)
  unfolding open_sensor_only
  open_sensor_only-On = still-On (λ w. refl)

  pub discard_queued-On :
      (maximum discarded : ℕ) → Keeps (On P) (discard_queued_frames sdk bus maximum discarded)
  unfolding discard_queued_frames
  discard_queued-On zero discarded = record { done = λ w a p r. p; failed = λ w e p r. p }
  discard_queued-On (suc maximum) discarded =
      let more = λ (handle : ℕ).
        Runs->>= (put_back-On handle) (λ _. discard_queued-On maximum (suc discarded)) in
      record {
        done = λ w a p r. elim (Bool-cases ((sdk.get_buf w.1.0).0.0 == 0)) [
          | inl got ↦ rw got ((more _).done (w.0, ((sdk.get_buf w.1.0).1, w.1.1)) a p (rw got at r))
          | inr missed ↦ rw missed p
        ];
        failed = λ w e p r. elim (Bool-cases ((sdk.get_buf w.1.0).0.0 == 0)) [
          | inl got ↦
              rw got ((more _).failed (w.0, ((sdk.get_buf w.1.0).1, w.1.1)) e p (rw got at r))
          | inr missed ↦ rw missed p
        ];
      }

  pub discard_next-On : (count : ℕ) → Keeps (On P) (discard_next_frames sdk bus count)
  unfolding discard_next_frames
  discard_next-On zero = Runs-pure tt
  discard_next-On (suc count) =
      Runs->>= (with_graph-Runs sdk bus (λ g. on_sdk-On _))
        (λ buffer. Runs->>= (put_back-On _) (λ _. discard_next-On count))

module _ (sdk : Mi) (bus : I2c) (c : Config) where
  logged-Held : Keeps (On (IsHeld c)) (assign sdk bus logged)
  unfolding assign
  logged-Held = record { done = λ w a p r. p; failed = λ w e p r. p }

  moved-Held : (x y : ℕ) → Keeps (On (IsHeld c)) (assign sdk bus (at_origin x y))
  unfolding assign
  moved-Held x y = record { done = λ w a p r. p; failed = λ w e p r. p }

  acquire_frame-Held : Keeps (On (IsHeld c)) (acquire_frame sdk bus)
  unfolding acquire_frame acquire_frame_with_timeout
  acquire_frame-Held = with_graph-Runs sdk bus (λ _.
      Runs->>= (on_sdk-On sdk bus (IsHeld c) _) (λ buffer. Runs->>= logged-Held (λ _.
        with_graph-Runs sdk bus (λ g.
          Runs->>= (returning-On sdk bus (IsHeld c) _ _)
            (λ bytes. stamped-On sdk bus (IsHeld c) g bytes)))))

  acquire_last-Held : (settle : ℕ) → Keeps (On (IsHeld c)) (acquire_last sdk bus settle)
  unfolding acquire_last
  acquire_last-Held zero = acquire_frame-Held
  acquire_last-Held (suc settle) = Runs->>= acquire_frame-Held (λ _. acquire_last-Held settle)

  capture_tile-Held : (x y settle : ℕ) → Keeps (On (IsHeld c)) (capture_tile sdk bus x y settle)
  unfolding capture_tile move_origin
  capture_tile-Held x y settle =
      Runs->>=
        (with_graph-Runs sdk bus (λ g.
          Keeps-if (not (x == g.origin_x) || not (y == g.origin_y))
            (Keeps-if g.live_origin
              (Runs->>= (open_sensor_only-On sdk bus (IsHeld c)) (λ _.
                Runs->>= (on_bus-On sdk bus (IsHeld c) _)
                  (λ _. Runs->>= (discard_queued-On sdk bus (IsHeld c) 2 0) (λ _. Runs-pure tt))))
              (Keeps-lift (err fixed_origin)))
            (Runs-pure tt)))
        (λ _.
          Runs->>= (acquire_last-Held settle)
            (λ frame. Runs->>= (moved-Held x y) (λ _. Runs-pure frame)))

  scan_bands-Held :
      (width scale_x scale_y timestamp : ℕ) (bands : List (ℕ × ℕ)) (rows : List ScanRow)
      → Keeps (On (IsHeld c)) (scan_bands sdk bus width scale_x scale_y bands rows timestamp)
  unfolding scan_bands
  scan_bands-Held width scale_x scale_y timestamp [] rows = Runs-pure (rows, timestamp)
  scan_bands-Held width scale_x scale_y timestamp ((y, end) ∷ bands) rows =
      Runs->>= (capture_tile-Held 0 y scan_origin_settle_frames) (λ frame.
        Runs->>= (Keeps-lift _)
          (λ filled. scan_bands-Held width scale_x scale_y frame.timestamp_ns bands filled))

  pub scan_all-Held :
      (width height : ℕ) (origins : List ℕ)
      → Keeps (On (IsHeld c)) (scan_all sdk bus width height origins)
  unfolding scan_all
  scan_all-Held width height origins =
      Runs->>= (scan_bands-Held width _ _ 0 _ _)
        (λ scanned. Runs->>= (Keeps-lift _) (λ payload. Runs-pure (payload, scanned.1)))
