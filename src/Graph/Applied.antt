-- ===== src/Graph/Applied.antt =====
-- What the operations on frames change of the graph when they succeed.
use podbay_camera_firmware.Prelude.{
  ℕ, zero, suc, ◌==◌, inl, inr, refl, Bool, Bool-cases, true, false, not, ◌||◌, if◌then◌else◌, err,
  Error, List,
}
use podbay_camera_firmware.Device.{M, pure, lift, I2c}
use podbay_camera_firmware.Config.{Config}
use podbay_camera_firmware.Graph.{Mi, Graph}
use podbay_camera_firmware.Graph.Pipeline.{World}
use podbay_camera_firmware.Graph.Effects.{
  Takes, Takes->>=, after_put_ok, assign-Takes, on_bus-Takes, open_sensor_only-Takes,
}
use podbay_camera_firmware.Graph.Frames.{
  on_sdk, with_graph, put_back, give_back, returning, stamped, acquire_frame_with_timeout,
  acquire_frame, discard_queued_frames, discard_next_frames, acquire_last, move_origin,
  capture_tile,
}
use podbay_camera_firmware.Graph.Apply.{move_live}

-- The fields that a frame changes.
abbrev pub logged : Graph → Graph
logged g = record g { metadata_logged = true }

abbrev pub at_origin : ℕ → ℕ → Graph → Graph
at_origin x y g = record g { origin_x = x; origin_y = y }

pure-Takes : {W A : Type 0} (a : A) → Takes {W = W} (pure a) (λ g. g)
pure-Takes a = record { takes = λ w b done. refl }

fails-Takes :
    {W A : Type 0} (e : Error) (f : Graph → Graph) → Takes {W = W} {A = A} (lift (err e)) f
fails-Takes e f = record { takes = λ w b done. cc }

if-Takes :
    {W A : Type 0} (test : Bool) {m k : M (Graph × W) A} {f : Graph → Graph}
    → Takes m f
    → Takes k f
    → Takes (if test then m else k) f
if-Takes true yes_ no_ = yes_
if-Takes false yes_ no_ = no_

module _ (sdk : Mi) (bus : I2c) where
  with_graph-Takes :
      {A : Type 0} {m : Graph → M (World sdk bus) A} {f : Graph → Graph}
      → ((g : Graph) → Takes (m g) f)
      → Takes (with_graph sdk bus m) f
  unfolding with_graph
  with_graph-Takes each = record { takes = λ w a done. (each w.0).takes w a done }

  on_sdk-Takes : {A : Type 0} (m : M sdk.State A) → Takes (on_sdk sdk bus m) (λ g. g)
  unfolding on_sdk
  on_sdk-Takes m = record { takes = λ w a done. refl }

  put_back-Takes : (handle : ℕ) → Takes (put_back sdk bus handle) (λ g. g)
  unfolding put_back
  put_back-Takes handle = record { takes = λ w a done. refl }

  returning-Takes :
      {A : Type 0} (handle : ℕ) {m : M (World sdk bus) A} {f : Graph → Graph}
      → Takes m f
      → Takes (returning sdk bus handle m) f
  unfolding returning give_back put_back
  returning-Takes handle {m} inner = record {
    takes = λ w a done. inner.takes w a (after_put_ok _ _ a done);
  }

  stamped-Takes : (g : Graph) (bytes : List ℕ) → Takes (stamped sdk bus g bytes) (λ g. g)
  unfolding stamped
  stamped-Takes g bytes = record { takes = λ w a done. refl }

  acquire_frame_with_timeout-Takes :
      (milliseconds : ℕ) → Takes (acquire_frame_with_timeout sdk bus milliseconds) logged
  unfolding acquire_frame_with_timeout
  acquire_frame_with_timeout-Takes milliseconds = Takes->>= (on_sdk-Takes _) (λ buffer.
      Takes->>= (assign-Takes sdk bus logged) (λ _.
        with_graph-Takes
          (λ g. Takes->>= (returning-Takes _ (on_sdk-Takes _)) (λ bytes. stamped-Takes g bytes))))

  pub acquire_frame-Takes : Takes (acquire_frame sdk bus) logged
  unfolding acquire_frame
  acquire_frame-Takes = with_graph-Takes (λ g. acquire_frame_with_timeout-Takes _)

  acquire_last-Takes : (settle : ℕ) → Takes (acquire_last sdk bus settle) logged
  unfolding acquire_last
  acquire_last-Takes zero = acquire_frame-Takes
  acquire_last-Takes (suc settle) = Takes->>= acquire_frame-Takes (λ _. acquire_last-Takes settle)

  discard_queued-Takes :
      (maximum discarded : ℕ) → Takes (discard_queued_frames sdk bus maximum discarded) (λ g. g)
  unfolding discard_queued_frames
  discard_queued-Takes zero discarded = record { takes = λ w a done. refl }
  discard_queued-Takes (suc maximum) discarded = record {
    takes = λ w a done. elim (Bool-cases ((sdk.get_buf w.1.0).0.0 == 0)) [
      | inl got ↦ rw got (
          (Takes->>= (put_back-Takes _) (λ _. discard_queued-Takes maximum (suc discarded))).takes
            (w.0, ((sdk.get_buf w.1.0).1, w.1.1)) a (rw got at done))
      | inr missed ↦ rw missed refl
    ];
  }

  discard_next-Takes : (count : ℕ) → Takes (discard_next_frames sdk bus count) (λ g. g)
  unfolding discard_next_frames
  discard_next-Takes zero = pure-Takes tt
  discard_next-Takes (suc count) =
      Takes->>= (with_graph-Takes (λ g. on_sdk-Takes _))
        (λ buffer. Takes->>= (put_back-Takes _) (λ _. discard_next-Takes count))

  move_origin-Takes : (x y : ℕ) (g : Graph) → Takes (move_origin sdk bus x y g) (λ g. g)
  unfolding move_origin
  move_origin-Takes x y g =
      if-Takes (not (x == g.origin_x) || not (y == g.origin_y))
        (if-Takes g.live_origin
          (Takes->>= (open_sensor_only-Takes sdk bus) (λ sensor.
            Takes->>= (on_bus-Takes sdk bus _)
              (λ _. Takes->>= (discard_queued-Takes 2 0) (λ _. pure-Takes tt))))
          (fails-Takes _ _))
        (pure-Takes tt)

  pub capture_tile-Takes :
      (x y settle : ℕ) → Takes (capture_tile sdk bus x y settle) (λ g. at_origin x y (logged g))
  unfolding capture_tile
  capture_tile-Takes x y settle = Takes->>= (with_graph-Takes (λ g. move_origin-Takes x y g)) (λ _.
      Takes->>= (acquire_last-Takes settle)
        (λ frame. Takes->>= (assign-Takes sdk bus (at_origin x y)) (λ _. pure-Takes frame)))

  module _ (open_sensor : M bus.State (Unit {0})) where
    pub move_live-Takes :
        (c : Config) → Takes (move_live sdk bus open_sensor c) (at_origin c.initial_x c.initial_y)
    unfolding move_live
    move_live-Takes c = Takes->>= (open_sensor_only-Takes sdk bus) (λ _.
        Takes->>= (on_bus-Takes sdk bus _) (λ _. Takes->>= (open_sensor_only-Takes sdk bus) (λ _.
          Takes->>= (on_bus-Takes sdk bus _) (λ _.
            Takes->>= (assign-Takes sdk bus (at_origin c.initial_x c.initial_y))
              (λ _. Takes->>= (discard_queued-Takes 2 0) (λ _. discard_next-Takes 2))))))
