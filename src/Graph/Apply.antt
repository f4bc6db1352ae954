-- ===== src/Graph/Apply.antt =====
-- `apply_sensor_config` and `apply_sensor_transition` of camera-service/src/main.rs: how the service
-- brings the pipeline to a new configuration, with a rebuild to fall back on.
use podbay_camera_firmware.Prelude.{ℕ, Result, ok, err}
use podbay_camera_firmware.Device.{M, ◌>>=◌, ◌>>◌, pure, I2c}
use podbay_camera_firmware.Config.{Config}
use podbay_camera_firmware.Config.Transition.{
  SensorTransition, unchanged, live_origin, live_geometry, rebuild, sensor_transition,
}
use podbay_camera_firmware.Sensor.Driver.{set_origin_live, verify_full_raw_mode}
use podbay_camera_firmware.Graph.{Mi}
use podbay_camera_firmware.Graph.Pipeline.{
  World, assign, on_bus, open_sensor_only, reconfigure, reconfigure_geometry_live,
}
use podbay_camera_firmware.Graph.Frames.{
  acquire_frame, discard_queued_frames, discard_next_frames, capture_tile,
}

-- LIVE_ORIGIN_DISCARD_FRAMES
abbrev pub live_origin_discard_frames : ℕ
live_origin_discard_frames = 2

-- What is done instead of a step that has failed, on the state that it left.
abbrev pub or_else : {S A : Type 0} → M S A → Result A × S → Result A × S
or_else recover (ok a, s) = (ok a, s)
or_else recover (err e, s) = recover s

module _ (sdk : Mi) (bus : I2c) (open_sensor : M bus.State (Unit {0})) where
  -- One attempt: the frame is dropped.
  unfoldable pub apply_once : Config → M (World sdk bus) (Unit {0})
  apply_once c = do
    reconfigure sdk bus open_sensor c
    _ ← capture_tile sdk bus c.initial_x c.initial_y 0
    pure tt

  -- `for attempt in 1..=2`
  unfoldable pub apply_sensor_config : Config → M (World sdk bus) (Unit {0})
  apply_sensor_config c w = or_else (apply_once c) (apply_once c w)

  -- The origin is stored once the sensor attests it, also where a discard fails after that.
  unfoldable pub move_live : Config → M (World sdk bus) (Unit {0})
  move_live next = do
    sensor ← open_sensor_only sdk bus
    on_bus sdk bus (set_origin_live bus sensor next.initial_x next.initial_y)
    held ← open_sensor_only sdk bus
    on_bus sdk bus (verify_full_raw_mode bus held next.initial_x next.initial_y)
    assign sdk bus (λ g. record g { origin_x = next.initial_x; origin_y = next.initial_y })
    _ ← discard_queued_frames sdk bus 2 0
    discard_next_frames sdk bus live_origin_discard_frames

  unfoldable pub retune_live : Config → M (World sdk bus) (Unit {0})
  retune_live next = do reconfigure_geometry_live sdk bus next; _ ← acquire_frame sdk bus; pure tt

  -- What was done, which is a rebuild where the live step fails.
  unfoldable pub live_or_rebuild :
      SensorTransition → M (World sdk bus) (Unit {0}) → Config → M (World sdk bus) SensorTransition
  live_or_rebuild transition live next w =
      or_else (apply_sensor_config next >> pure rebuild) ((live >> pure transition) w)

  unfoldable pub apply_transition : SensorTransition → Config → M (World sdk bus) SensorTransition
  apply_transition unchanged next = pure unchanged
  apply_transition live_origin next = live_or_rebuild live_origin (move_live next) next
  apply_transition live_geometry next = live_or_rebuild live_geometry (retune_live next) next
  apply_transition rebuild next = apply_sensor_config next >> pure rebuild

  unfoldable pub apply_sensor_transition : Config → Config → M (World sdk bus) SensorTransition
  apply_sensor_transition current next = apply_transition (sensor_transition current next) next
