-- ===== src/Graph/Transitions.antt =====
-- What holds of the pipeline once a configuration has been applied.
use podbay_camera_firmware.Prelude.{◌≡◌, refl, ◌∙◌, ap, some, ok}
use podbay_camera_firmware.Device.{M, ◌>>◌, pure, I2c}
use podbay_camera_firmware.Config.{Config, geometry_of}
use podbay_camera_firmware.Config.Transition.{
  SensorTransition, unchanged, live_origin, live_geometry, rebuild, sensor_transition, SamePipeline,
  SameOrigin, transition_unchanged_iff, transition_live_origin,
}
use podbay_camera_firmware.Graph.{Mi, Graph}
use podbay_camera_firmware.Graph.Pipeline.{World, reconfigure, stop_pipeline}
use podbay_camera_firmware.Graph.Leads.{
  Leads, Any, Leads->>=, Leads-pure, Leads-Takes, Leads-Any, Leads-or_else,
}
use podbay_camera_firmware.Graph.Lifecycle.{
  IsLive, configure_pipeline-IsLive, reconfigure_geometry_live-IsLive,
}
use podbay_camera_firmware.Graph.Apply.{
  apply_once, apply_sensor_config, retune_live, live_or_rebuild, apply_transition,
  apply_sensor_transition,
}
use podbay_camera_firmware.Graph.Applied.{
  logged, at_origin, acquire_frame-Takes, capture_tile-Takes, move_live-Takes,
}

-- Neither the note that the metadata is logged nor the origin that the pipeline has changes that.
IsLive-moved :
    (c : Config) (g : Graph) → IsLive c g → IsLive c (at_origin c.initial_x c.initial_y (logged g))
IsLive-moved c g live = record {
  open_sensor = live.open_sensor;
  has_descriptor = live.has_descriptor;
  enabled_sensor = live.enabled_sensor;
  created_group = live.created_group;
  enabled_device = live.enabled_device;
  enabled_port = live.enabled_port;
  enabled_depth = live.enabled_depth;
  at_width = live.at_width;
  at_height = live.at_height;
  at_x = refl;
  at_y = refl;
  at_format = live.at_format;
}

IsLive-logged : (c : Config) (g : Graph) → IsLive c g → IsLive c (logged g)
IsLive-logged c g live = record {
  open_sensor = live.open_sensor;
  has_descriptor = live.has_descriptor;
  enabled_sensor = live.enabled_sensor;
  created_group = live.created_group;
  enabled_device = live.enabled_device;
  enabled_port = live.enabled_port;
  enabled_depth = live.enabled_depth;
  at_width = live.at_width;
  at_height = live.at_height;
  at_x = live.at_x;
  at_y = live.at_y;
  at_format = live.at_format;
}

same_geometry : (c d : Config) → SamePipeline c d → geometry_of c ≡ geometry_of d
same_geometry c d same =
    rw (same.same_width, same.same_height, same.same_binning, same.same_scale) refl

-- A pipeline that is set up for a configuration is so for any other at its origin that sets up the same.
IsLive-same :
    (c d : Config) (g : Graph)
    → SamePipeline c d
    → IsLive c g
    → IsLive d (at_origin d.initial_x d.initial_y g)
IsLive-same c d g same live = record {
  open_sensor = live.open_sensor ∙ ap some (same_geometry c d same);
  has_descriptor = live.has_descriptor;
  enabled_sensor = live.enabled_sensor;
  created_group = live.created_group;
  enabled_device = live.enabled_device;
  enabled_port = live.enabled_port;
  enabled_depth = live.enabled_depth;
  at_width = live.at_width ∙ same.same_width;
  at_height = live.at_height ∙ same.same_height;
  at_x = refl;
  at_y = refl;
  at_format = live.at_format ∙ same.same_format;
}

IsLive-stays :
    (c d : Config) (g : Graph) → SamePipeline c d → SameOrigin c d → IsLive c g → IsLive d g
IsLive-stays c d g same (same_x, same_y) live = record {
  open_sensor = live.open_sensor ∙ ap some (same_geometry c d same);
  has_descriptor = live.has_descriptor;
  enabled_sensor = live.enabled_sensor;
  created_group = live.created_group;
  enabled_device = live.enabled_device;
  enabled_port = live.enabled_port;
  enabled_depth = live.enabled_depth;
  at_width = live.at_width ∙ same.same_width;
  at_height = live.at_height ∙ same.same_height;
  at_x = live.at_x ∙ same_x;
  at_y = live.at_y ∙ same_y;
  at_format = live.at_format ∙ same.same_format;
}

module _ (sdk : Mi) (bus : I2c) (open_sensor : M bus.State (Unit {0})) where
  apply_once-IsLive : (c : Config) → Leads Any (IsLive c) (apply_once sdk bus open_sensor c)
  unfolding apply_once reconfigure
  apply_once-IsLive c =
      Leads->>=
        (Leads->>= (Leads-Any (stop_pipeline sdk bus))
          (λ _. record { leads = λ w a p r. configure_pipeline-IsLive sdk bus open_sensor c w r }))
        (λ _.
          Leads->>= (Leads-Takes (capture_tile-Takes sdk bus _ _ 0) (IsLive-moved c))
            (λ frame. Leads-pure tt))

  pub apply_sensor_config-IsLive :
      (c : Config) → Leads Any (IsLive c) (apply_sensor_config sdk bus open_sensor c)
  unfolding apply_sensor_config
  apply_sensor_config-IsLive c = Leads-or_else (apply_once-IsLive c) (apply_once-IsLive c)

  rebuild-IsLive :
      (c : Config)
      → Leads Any (IsLive c) (apply_sensor_config sdk bus open_sensor c >> pure rebuild)
  rebuild-IsLive c = Leads->>= (apply_sensor_config-IsLive c) (λ _. Leads-pure rebuild)

  live_or_rebuild-IsLive :
      (t : SensorTransition) {live : M (World sdk bus) (Unit {0})} (current next : Config)
      → Leads (IsLive current) (IsLive next) live
      → Leads (IsLive current) (IsLive next) (live_or_rebuild sdk bus open_sensor t live next)
  unfolding live_or_rebuild
  live_or_rebuild-IsLive t current next live =
      Leads-or_else (Leads->>= live (λ _. Leads-pure t)) (rebuild-IsLive next)

  retune_live-IsLive :
      (current next : Config)
      → Leads (IsLive current) (IsLive next) (retune_live sdk bus open_sensor next)
  unfolding retune_live
  retune_live-IsLive current next =
      Leads->>= (record { leads = λ w a p r. reconfigure_geometry_live-IsLive sdk bus next w r })
        (λ _.
          Leads->>= (Leads-Takes (acquire_frame-Takes sdk bus) (IsLive-logged next))
            (λ frame. Leads-pure tt))

  applies :
      (t : SensorTransition) (current next : Config)
      → sensor_transition current next ≡ t
      → Leads (IsLive current) (IsLive next) (apply_transition sdk bus open_sensor t next)
  unfolding apply_transition
  applies unchanged current next e =
      let (same, origin) = (transition_unchanged_iff current next).0 e in
      record { leads = λ w a p r. IsLive-stays current next w.0 same origin p }
  applies live_origin current next e =
      let (same, _, _, _, _) = transition_live_origin current next e in
      live_or_rebuild-IsLive live_origin current next (
        Leads-Takes (move_live-Takes sdk bus open_sensor next)
          (λ g. IsLive-same current next g same))
  applies live_geometry current next e =
      live_or_rebuild-IsLive live_geometry current next (retune_live-IsLive current next)
  applies rebuild current next e = record {
    leads = λ w a p r. (rebuild-IsLive next).leads w a tt r;
  }

  -- A transition that succeeds leads from a pipeline that is set up for the current configuration to one
  -- that is set up for the next, as a rebuild would: whether nothing is done, the origin or the geometry
  -- changes live, or either fails on the way and the service falls back on a rebuild.
  pub apply_sensor_transition-IsLive :
      (current next : Config) (w : World sdk bus) (t : SensorTransition)
      → IsLive current w.0
      → (apply_sensor_transition sdk bus open_sensor current next w).0 ≡ ok t
      → IsLive next (apply_sensor_transition sdk bus open_sensor current next w).1.0
  unfolding apply_sensor_transition
  apply_sensor_transition-IsLive current next w t live done =
      (applies (sensor_transition current next) current next refl).leads w t live done
