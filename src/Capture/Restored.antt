-- ===== src/Capture/Restored.antt =====
-- What a capture leaves behind.
use podbay_camera_firmware.Prelude.{
  ℕ, ◌≡◌, refl, Bool, Result, ok, err, Error, fail_if, coarse_band, restore_failed, rollback_failed,
  capture_and_restore_failed,
}
use podbay_camera_firmware.Device.{M, continue, I2c}
use podbay_camera_firmware.Config.{Config}
use podbay_camera_firmware.Graph.{Mi, Graph}
use podbay_camera_firmware.Graph.Pipeline.{World}
use podbay_camera_firmware.Graph.Effects.{on_bus-Takes, open_sensor_only-Takes}
use podbay_camera_firmware.Graph.Apply.{apply_sensor_config}
use podbay_camera_firmware.Graph.Lifecycle.{IsLive, reconfigure_geometry_live-IsLive}
use podbay_camera_firmware.Graph.Leads.{Leads, Any, Leads->>=, Leads-Takes, Leads-or_else}
use podbay_camera_firmware.Graph.Transitions.{apply_sensor_config-IsLive}
use podbay_camera_firmware.Capture.{CaptureFormat}
use podbay_camera_firmware.Capture.Coarse.{
  is_not_full_band, coarse_config, check_output, reduced, with_restore, rolled_back,
}
use podbay_camera_firmware.Capture.OneShot.{
  resident_restore, restore_fine, roll_back, capture_frame, capture_and_restore, after_switch,
  switch_and_capture, capture_full_sensor_coarse_thumbnail, coarse_switch,
}

-- The errors that report that the fine readout could not be restored.
pub data IsLost : Error → Type 0 where
  rollback : (e f : Error) → IsLost (rollback_failed e f)
  restore : (f : Error) → IsLost (restore_failed f)
  neither : (e f : Error) → IsLost (capture_and_restore_failed e f)

-- How an operation may end: with the pipeline set up for the configuration, or with an error that says
-- that it is not.
pub data Ends {W A : Type 0} (c : Config) (p : Result A × (Graph × W)) : Type 0 where
  live : IsLive c p.1.0 → Ends c p
  lost : (e : Error) → p.0 ≡ err e → IsLost e → Ends c p

with_restore_ends :
    {W A : Type 0} (c : Config) (r : Result A) (restored : Result (Unit {0})) (w : Graph × W)
    → (restored ≡ ok tt → IsLive c w.0)
    → Ends c (with_restore r restored, w)
with_restore_ends c (ok a) (ok _) w h = live (h refl)
with_restore_ends c (err e) (ok _) w h = live (h refl)
with_restore_ends c (ok a) (err f) w h = lost (restore_failed f) refl (restore f)
with_restore_ends c (err e) (err f) w h = lost (capture_and_restore_failed e f) refl (neither e f)

rolled_back_ends :
    {W A : Type 0} (c : Config) (e : Error) (restored : Result (Unit {0})) (w : Graph × W)
    → (restored ≡ ok tt → IsLive c w.0)
    → Ends {A = A} c (err (rolled_back e restored), w)
rolled_back_ends c e (ok _) w h = live (h refl)
rolled_back_ends c e (err f) w h = lost (rollback_failed e f) refl (rollback e f)

-- A check in front, which leaves the pipeline alone.
checked :
    {W A B : Type 0} (c : Config) (r : Result A) (k : A → M (Graph × W) B) (w : Graph × W)
    → IsLive c w.0
    → ((a : A) → Ends c (k a w))
    → Ends c (continue k (r, w))
checked c (ok a) k w is_live rest = rest a
checked c (err e) k w is_live rest = live is_live

module _ (sdk : Mi) (bus : I2c) (open_sensor : M bus.State (Unit {0})) where
  restore_fine-IsLive :
      (fine : Config) → Leads Any (IsLive fine) (restore_fine sdk bus open_sensor fine)
  unfolding restore_fine resident_restore
  restore_fine-IsLive fine =
      Leads-or_else
        (Leads->>= (record { leads = λ w a p r. reconfigure_geometry_live-IsLive sdk bus fine w r })
          (λ _.
            Leads->>= (Leads-Takes (open_sensor_only-Takes sdk bus) (λ g p. p))
              (λ sensor. Leads-Takes (on_bus-Takes sdk bus _) (λ g p. p))))
        (apply_sensor_config-IsLive sdk bus open_sensor fine)

  roll_back-Ends :
      {A : Type 0} (fine : Config) (e : Error) (w : World sdk bus)
      → Ends {A = A} fine (roll_back sdk bus open_sensor fine e w)
  unfolding roll_back
  roll_back-Ends fine e w =
      let (restored, w') = apply_sensor_config sdk bus open_sensor fine w in
      rolled_back_ends fine e restored w'
        (λ r. (apply_sensor_config-IsLive sdk bus open_sensor fine).leads w tt tt r)

  capture_and_restore-Ends :
      (format : CaptureFormat) (scaled : Bool) (fine coarse : Config) (width height : ℕ)
      (w : World sdk bus)
      → Ends fine (capture_and_restore sdk bus open_sensor format scaled fine coarse width height w)
  unfolding capture_and_restore
  capture_and_restore-Ends format scaled fine coarse width height w =
      let (frame, w') = capture_frame sdk bus w in
      let (restored, w'') = restore_fine sdk bus open_sensor fine w' in
      with_restore_ends fine (reduced format scaled coarse width height frame) restored w''
        (λ r. (restore_fine-IsLive fine).leads w' tt tt r)

  after_switch-Ends :
      (format : CaptureFormat) (scaled : Bool) (fine coarse : Config) (width height : ℕ)
      (switched : Result (Unit {0})) (w : World sdk bus)
      → Ends fine
          (after_switch sdk bus open_sensor format scaled fine coarse width height switched w)
  unfolding after_switch
  after_switch-Ends format scaled fine coarse width height (ok _) w =
      capture_and_restore-Ends format scaled fine coarse width height w
  after_switch-Ends format scaled fine coarse width height (err e) w = roll_back-Ends fine e w

  -- However a coarse capture from a pipeline that is set up for the fine configuration ends, the pipeline
  -- is set up for it again, unless the error is one that reports that restoring it has failed as well: a
  -- refused request, a failed switch, a missing frame and a failed reduction all leave it so.
  pub capture_full_sensor_coarse_thumbnail-Ends :
      (null_opens : Bool) (fine : Config) (width height : ℕ) (scaled : Bool)
      (format : CaptureFormat) (w : World sdk bus)
      → IsLive fine w.0
      → Ends fine (
          capture_full_sensor_coarse_thumbnail sdk bus open_sensor null_opens fine width height
            scaled format w)
  unfolding capture_full_sensor_coarse_thumbnail switch_and_capture
  capture_full_sensor_coarse_thumbnail-Ends null_opens fine width height scaled format w is_live =
      checked fine (fail_if (is_not_full_band fine) coarse_band) _ w is_live (λ _.
        checked fine (coarse_config null_opens fine scaled) _ w is_live (λ coarse.
          checked fine (check_output format scaled coarse width height) _ w is_live (λ _.
            let (switched, w') = coarse_switch sdk bus scaled coarse w in
            after_switch-Ends format scaled fine coarse width height switched w')))
