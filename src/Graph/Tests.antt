-- ===== src/Graph/Tests.antt =====
-- An SDK and a bus that accept everything, and the theorems on them.
use podbay_camera_firmware.Prelude.{[], refl, true, false, none, some, ok}
use podbay_camera_firmware.Device.{I2c}
use podbay_camera_firmware.Config.{Config, default_config, geometry_of}
use podbay_camera_firmware.Sensor.Driver.{
  prepare_geometry_live, restart_geometry_live, write_register, write_all, checked_physical,
  is_not_live, exceeds_array, restart_on_error,
}
use podbay_camera_firmware.Sensor.{clamp_coarse, geometry_registers}
use podbay_camera_firmware.Graph.{Mi, Graph, adopt, mi, program_sensor}
use podbay_camera_firmware.Graph.Pipeline.{
  configure_pipeline, reconfigure_geometry_live, mi_call, ignored, assign, when, on_bus, enable_vif,
  arm_output, take_descriptor, refuse_if, retune_resident, disable_vif, disarm_output,
  close_descriptor, close_output, open_sensor_only, retarget,
}
use podbay_camera_firmware.Graph.Lifecycle.{
  IsLive, configure_pipeline-IsLive, reconfigure_geometry_live-IsLive,
}

abbrev sdk : Mi
sdk = record {
  State = Unit {0};
  call = λ c s. (0, s);
  get_fd = λ fd s. ((0, some 7), s);
  get_buf = λ s. ((1, record { info = []; handle = 0 }), s);
  put_buf = λ handle s. (0, s);
  flush_cache = λ address size s. (0, s);
  memory = λ s address. 0;
  now = λ s. 0;
  wall_clock = λ s. 0;
  pause = λ d s. s;
}

abbrev pub bus : I2c
bus = record { State = Unit {0}; send = λ bytes s. (ok tt, s); receive = λ s. (ok 0, s) }

abbrev pub blank : Graph
blank = record {
  sensor = none;
  output_fd = none;
  sensor_enabled = false;
  group_created = false;
  device_enabled = false;
  port_enabled = false;
  depth_enabled = false;
  graph_width = 0;
  graph_height = 0;
  graph_timeout = 0;
  live_origin = false;
  graph_format = 0;
  metadata_logged = false;
  origin_x = 0;
  origin_y = 0;
}

-- The sensor is programmed by its own driver, not by the service.
abbrev stock : Config
stock = record default_config { direct_full_raw = false }

abbrev direct : Config
direct = record default_config { direct_full_raw = true }

-- The pipeline runs, with an older descriptor.
abbrev running : Graph
running = record blank {
  sensor = some (geometry_of direct);
  output_fd = some 5;
  sensor_enabled = true;
  group_created = true;
  device_enabled = true;
  port_enabled = true;
  depth_enabled = true;
}

configure_pipeline-IsLive_example :
    IsLive stock (configure_pipeline sdk bus (λ s. (ok tt, s)) stock (blank, (tt, tt))).1.0
unfolding configure_pipeline mi_call mi when assign ignored on_bus program_sensor enable_vif
    arm_output take_descriptor
configure_pipeline-IsLive_example =
    configure_pipeline-IsLive sdk bus (λ s. (ok tt, s)) stock (blank, (tt, tt)) refl

reconfigure_geometry_live-IsLive_example :
    IsLive direct (reconfigure_geometry_live sdk bus direct (running, (tt, tt))).1.0
unfolding reconfigure_geometry_live refuse_if retune_resident disable_vif disarm_output
    close_descriptor close_output open_sensor_only retarget mi_call mi when assign on_bus enable_vif
    arm_output take_descriptor prepare_geometry_live restart_geometry_live write_register write_all
    checked_physical is_not_live exceeds_array restart_on_error clamp_coarse geometry_registers
    adopt
reconfigure_geometry_live-IsLive_example =
    reconfigure_geometry_live-IsLive sdk bus direct (running, (tt, tt)) refl
