-- ===== src/Graph/Fallback.antt =====
-- When the service gives up on a configuration.
use podbay_camera_firmware.Prelude.{◌≡◌, refl, ◌⊎◌, ◌↔◌, inl, inr, Result, ok, err, Error}
use podbay_camera_firmware.Device.{M, ◌>>◌, pure, continue, I2c}
use podbay_camera_firmware.Config.{Config}
use podbay_camera_firmware.Config.Transition.{
  SensorTransition, unchanged, live_origin, live_geometry, rebuild, sensor_transition,
}
use podbay_camera_firmware.Graph.{Mi}
use podbay_camera_firmware.Graph.Pipeline.{World, reconfigure}
use podbay_camera_firmware.Graph.Frames.{capture_tile}
use podbay_camera_firmware.Graph.Apply.{
  apply_once, apply_sensor_config, move_live, retune_live, live_or_rebuild, apply_transition,
  apply_sensor_transition, or_else,
}

or_else_fails :
    {S A : Type 0} (k : M S A) (p : Result A × S) (e : Error) (t : S)
    → or_else k p ≡ (err e, t)
    → (x : Error) × (s : S) × (p ≡ (err x, s)) × (k s ≡ (err e, t))
or_else_fails k (ok a, s) e t h = cc
or_else_fails k (err x, s) e t h = (x, s, refl, h)

-- A chain that fails has failed in its first call or in what follows it.
continue_fails :
    {S A B : Type 0} (k : A → M S B) (p : Result A × S) (e : Error) (t : S)
    → continue k p ≡ (err e, t)
    → (p ≡ (err e, t)) ⊎ ((a : A) × (s : S) × (p ≡ (ok a, s)) × (k a s ≡ (err e, t)))
continue_fails k (ok a, s) e t h = inr (a, s, refl, h)
continue_fails k (err x, s) e t h = inl cc

then_pure_fails :
    {S A B : Type 0} (b : B) (p : Result A × S) (e : Error) (t : S)
    → continue (λ _. pure b) p ≡ (err e, t)
    → p ≡ (err e, t)
then_pure_fails b (ok a, s) e t h = cc
then_pure_fails b (err x, s) e t h = cc

module _ (sdk : Mi) (bus : I2c) (open_sensor : M bus.State (Unit {0})) where
  -- An attempt at a rebuild that fails: the pipeline cannot be reconfigured, or no frame comes from
  -- where the configuration starts.
  pub data FailedAttempt (c : Config) (w : World sdk bus) (e : Error) (w' : World sdk bus)
      : Type 0 where
    no_pipeline : reconfigure sdk bus open_sensor c w ≡ (err e, w') → FailedAttempt c w e w'
    no_frame :
        (v : World sdk bus)
        → reconfigure sdk bus open_sensor c w ≡ (ok tt, v)
        → capture_tile sdk bus c.initial_x c.initial_y 0 v ≡ (err e, w')
        → FailedAttempt c w e w'

  -- Two attempts that fail, the second on what the first has left.
  pub data TwiceFailed (c : Config) (w : World sdk bus) (e : Error) (w' : World sdk bus)
      : Type 0 where
    twice :
        (first : Error) (v : World sdk bus)
        → FailedAttempt c w first v
        → FailedAttempt c v e w'
        → TwiceFailed c w e w'

  -- The ways to give up: on a rebuild that was chosen, and on one after a live step that failed.
  pub data GivenUp (current next : Config) (w : World sdk bus) (e : Error) (w' : World sdk bus)
      : Type 0 where
    at_once :
        sensor_transition current next ≡ rebuild
        → TwiceFailed next w e w'
        → GivenUp current next w e w'
    after_origin :
        (x : Error) (v : World sdk bus)
        → sensor_transition current next ≡ live_origin
        → move_live sdk bus open_sensor next w ≡ (err x, v)
        → TwiceFailed next v e w'
        → GivenUp current next w e w'
    after_geometry :
        (x : Error) (v : World sdk bus)
        → sensor_transition current next ≡ live_geometry
        → retune_live sdk bus open_sensor next w ≡ (err x, v)
        → TwiceFailed next v e w'
        → GivenUp current next w e w'

  attempt_iff :
      (c : Config) (w : World sdk bus) (e : Error) (w' : World sdk bus)
      → (apply_once sdk bus open_sensor c w ≡ (err e, w')) ↔ FailedAttempt c w e w'
  unfolding apply_once
  attempt_iff c w e w' = (
    λ h. elim (continue_fails _ (reconfigure sdk bus open_sensor c w) e w' h) [
      | inl stopped ↦ no_pipeline stopped
      | inr (a, v, up, h') ↦
          no_frame v up
            (then_pure_fails tt (capture_tile sdk bus c.initial_x c.initial_y 0 v) e w' h')
    ],
    λ failed. elim failed [ no_pipeline h ↦ rw h refl | no_frame v up h ↦ rw (up, h) refl ],
  )

  config_iff :
      (c : Config) (w : World sdk bus) (e : Error) (w' : World sdk bus)
      → (apply_sensor_config sdk bus open_sensor c w ≡ (err e, w')) ↔ TwiceFailed c w e w'
  unfolding apply_sensor_config
  config_iff c w e w' = (
    λ h.
        let (x, v, first, second) =
          or_else_fails (apply_once sdk bus open_sensor c) (apply_once sdk bus open_sensor c w) e w'
            h in
        twice x v ((attempt_iff c w x v).0 first) ((attempt_iff c v e w').0 second),
    λ failed. elim failed [
      | twice x v first second ↦
          rw ((attempt_iff c w x v).1 first) ((attempt_iff c v e w').1 second)
    ],
  )

  rebuild_iff :
      (c : Config) (w : World sdk bus) (e : Error) (w' : World sdk bus)
      → ((apply_sensor_config sdk bus open_sensor c >> pure rebuild) w ≡ (err e, w'))
        ↔ TwiceFailed c w e w'
  rebuild_iff c w e w' = (
    λ h.
        (config_iff c w e w').0
          (then_pure_fails rebuild (apply_sensor_config sdk bus open_sensor c w) e w' h),
    λ failed. rw ((config_iff c w e w').1 failed) refl,
  )

  live_iff :
      (t : SensorTransition) (live : M (World sdk bus) (Unit {0})) (c : Config) (w : World sdk bus)
      (e : Error) (w' : World sdk bus)
      → (live_or_rebuild sdk bus open_sensor t live c w ≡ (err e, w'))
        ↔ ((x : Error) × (v : World sdk bus) × (live w ≡ (err x, v)) × TwiceFailed c v e w')
  unfolding live_or_rebuild
  live_iff t live c w e w' = (
    λ h.
        let (x, v, first, second) =
          or_else_fails (apply_sensor_config sdk bus open_sensor c >> pure rebuild)
            ((live >> pure t) w) e w' h in
        (x, v, then_pure_fails t (live w) x v first, (rebuild_iff c v e w').0 second),
    λ failed. let (x, v, first, second) = failed in rw first ((rebuild_iff c v e w').1 second),
  )

  -- The transition fails with an error and leaves the camera in a state exactly where two attempts at
  -- a rebuild for the next configuration in a row have failed, the second with that error and in that
  -- state: from the start where a rebuild was chosen, and otherwise from what a live step has left
  -- that failed. An attempt fails where the pipeline cannot be reconfigured, or where it can and the
  -- capture of a frame at the configuration's origin then fails.
  pub apply_sensor_transition_fails_iff :
      (current next : Config) (w : World sdk bus) (e : Error) (w' : World sdk bus)
      → (apply_sensor_transition sdk bus open_sensor current next w ≡ (err e, w'))
        ↔ GivenUp current next w e w'
  unfolding apply_sensor_transition apply_transition
  apply_sensor_transition_fails_iff current next w e w' =
      (gives_up (sensor_transition current next) refl, fails)
    where
      gives_up :
          (t : SensorTransition)
          → sensor_transition current next ≡ t
          → apply_transition sdk bus open_sensor t next w ≡ (err e, w')
          → GivenUp current next w e w'
      gives_up unchanged chosen h = cc
      gives_up live_origin chosen h =
          let (x, v, first, second) =
            (live_iff live_origin (move_live sdk bus open_sensor next) next w e w').0 h in
          after_origin x v chosen first second
      gives_up live_geometry chosen h =
          let (x, v, first, second) =
            (live_iff live_geometry (retune_live sdk bus open_sensor next) next w e w').0 h in
          after_geometry x v chosen first second
      gives_up rebuild chosen h = at_once chosen ((rebuild_iff next w e w').0 h)

      fails :
          GivenUp current next w e w'
          → apply_transition sdk bus open_sensor (sensor_transition current next) next w
            ≡ (err e, w')
      fails (at_once chosen failed) = rw chosen ((rebuild_iff next w e w').1 failed)
      fails (after_origin x v chosen first failed) = rw chosen (
          (live_iff live_origin (move_live sdk bus open_sensor next) next w e w').1
            (x, v, first, failed))
      fails (after_geometry x v chosen first failed) = rw chosen (
          (live_iff live_geometry (retune_live sdk bus open_sensor next) next w e w').1
            (x, v, first, failed))
