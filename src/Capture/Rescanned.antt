-- ===== src/Capture/Rescanned.antt =====
-- A scan puts the origin back.
use podbay_camera_firmware.Prelude.{ℕ, refl, List, Result}
use podbay_camera_firmware.Device.{I2c}
use podbay_camera_firmware.Device.Runs.{Keeps, Runs->>=, Keeps-lift, Keeps-after}
use podbay_camera_firmware.Config.{Config}
use podbay_camera_firmware.Graph.{Mi, Graph}
use podbay_camera_firmware.Graph.Pipeline.{World, assign}
use podbay_camera_firmware.Graph.Frames.{with_graph}
use podbay_camera_firmware.Graph.Applied.{at_origin}
use podbay_camera_firmware.Graph.Lifecycle.{IsLive}
use podbay_camera_firmware.Capture.Bands.{check_scan, scan_origins}
use podbay_camera_firmware.Capture.Scan.{
  scan_all, restore_registers, after_restore, restore_scan, scan_and_restore,
  capture_full_sensor_scan_thumbnail,
}
use podbay_camera_firmware.Capture.Held.{
  On, IsHeld, on_bus-On, open_sensor_only-On, discard_queued-On, discard_next-On, scan_all-Held,
}

IsHeld-IsLive :
    (c : Config) (g : Graph) → IsHeld c g → IsLive c (at_origin c.initial_x c.initial_y g)
IsHeld-IsLive c g held = record {
  open_sensor = held.open_sensor;
  has_descriptor = held.has_descriptor;
  enabled_sensor = held.enabled_sensor;
  created_group = held.created_group;
  enabled_device = held.enabled_device;
  enabled_port = held.enabled_port;
  enabled_depth = held.enabled_depth;
  at_width = held.at_width;
  at_height = held.at_height;
  at_x = refl;
  at_y = refl;
  at_format = held.at_format;
}

IsLive-IsHeld : (c : Config) (g : Graph) → IsLive c g → IsHeld c g
IsLive-IsHeld c g held = record {
  open_sensor = held.open_sensor;
  has_descriptor = held.has_descriptor;
  enabled_sensor = held.enabled_sensor;
  created_group = held.created_group;
  enabled_device = held.enabled_device;
  enabled_port = held.enabled_port;
  enabled_depth = held.enabled_depth;
  at_width = held.at_width;
  at_height = held.at_height;
  at_x = refl;
  at_y = refl;
  at_format = held.at_format;
}

module _ (sdk : Mi) (bus : I2c) (c : Config) where
  restore_registers-On :
      (P : Graph → Type 0) (x y : ℕ) → Keeps (On P) (restore_registers sdk bus c x y)
  unfolding restore_registers
  restore_registers-On P x y = Runs->>= (open_sensor_only-On sdk bus P) (λ _.
      Runs->>= (on_bus-On sdk bus P _)
        (λ _. Runs->>= (open_sensor_only-On sdk bus P) (λ _. on_bus-On sdk bus P _)))

  after_restore-On :
      (P : Graph → Type 0) (registers : Result (Unit {0})) (x y : ℕ)
      → Keeps (On P) (after_restore sdk bus registers x y)
  unfolding after_restore
  after_restore-On P registers x y = Runs->>= (Keeps-lift registers) (λ _.
      Runs->>= (discard_queued-On sdk bus P 2 0) (λ _.
        Runs->>= (discard_next-On sdk bus P 2)
          (λ _. Runs->>= (open_sensor_only-On sdk bus P) (λ _. on_bus-On sdk bus P _))))

  -- A scan puts the origin back, however far it has got and however the restoring ends.
  restore_scan-IsLive :
      (w : World sdk bus)
      → IsHeld c w.0
      → IsLive c (restore_scan sdk bus c c.initial_x c.initial_y w).1.0
  unfolding restore_scan assign
  restore_scan-IsLive w held =
      let (registers, w') = restore_registers sdk bus c c.initial_x c.initial_y w in
      let held' = Keeps-after (restore_registers-On (IsHeld c) _ _) w held in
      Keeps-after (after_restore-On (IsLive c) registers _ _)
        (at_origin c.initial_x c.initial_y w'.0, w'.1) (IsHeld-IsLive c w'.0 held')

  scan_and_restore-IsLive :
      (g : Graph) (width height : ℕ) (origins : List ℕ) (w : World sdk bus)
      → IsLive c g
      → IsHeld c w.0
      → IsLive c (scan_and_restore sdk bus c g width height origins w).1.0
  unfolding scan_and_restore
  scan_and_restore-IsLive g width height origins w is_live held =
      let scanned = Keeps-after (scan_all-Held sdk bus c width height origins) w held in
      rw (is_live.at_x, is_live.at_y)
        (restore_scan-IsLive (scan_all sdk bus width height origins w).1 scanned)

  scan_and_restore-On :
      (g : Graph) (width height : ℕ) (origins : List ℕ)
      → IsLive c g
      → Keeps (On (IsLive c)) (scan_and_restore sdk bus c g width height origins)
  scan_and_restore-On g width height origins is_live = record {
    done =
        λ w a p r. scan_and_restore-IsLive g width height origins w is_live (IsLive-IsHeld c w.0 p);
    failed =
        λ w e p r. scan_and_restore-IsLive g width height origins w is_live (IsLive-IsHeld c w.0 p);
  }

  -- However a scan from a pipeline that is set up for the configuration ends, with a thumbnail, with a
  -- refusal, with a band that gives no frame, or with a sensor that does not take back its registers,
  -- the pipeline is marked as set up for the configuration again, at the origin before the scan.
  pub capture_full_sensor_scan_thumbnail-IsLive :
      (width height : ℕ) (w : World sdk bus)
      → IsLive c w.0
      → IsLive c (capture_full_sensor_scan_thumbnail sdk bus c width height w).1.0
  unfolding capture_full_sensor_scan_thumbnail with_graph
  capture_full_sensor_scan_thumbnail-IsLive width height w is_live =
      Keeps-after
        (Runs->>= (Keeps-lift (check_scan c w.0 width height)) (λ _.
          Runs->>= (open_sensor_only-On sdk bus (IsLive c)) (λ _.
            Runs->>= (on_bus-On sdk bus (IsLive c) _)
              (λ _. scan_and_restore-On w.0 width height (scan_origins w.0.graph_height) is_live))))
        w is_live
