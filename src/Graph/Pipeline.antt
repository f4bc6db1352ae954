-- ===== src/Graph/Pipeline.antt =====
-- The operations of `Graph` in camera-service/src/main.rs that start, stop and retarget the pipeline.
use podbay_camera_firmware.Prelude.{
  ℕ, [], ◌∷◌, Bool, true, false, not, ◌||◌, Option, none, some, ◌==◌, if◌then◌else◌, Result, ok,
  err, Error, fail_if, and_result, bad_descriptor, graph_not_live, sensor_closed,
}
use podbay_camera_firmware.Device.{M, ◌>>=◌, ◌>>◌, pure, I2c}
use podbay_camera_firmware.Config.{Config, Geometry, geometry_of}
use podbay_camera_firmware.Sensor.Driver.{prepare_geometry_live, restart_geometry_live}
use podbay_camera_firmware.Graph.{
  MiCall, set_plane_mode, set_orien, get_res, snr_enable, snr_disable, get_plane_info, set_res,
  set_fps, create_dev_group, destroy_dev_group, enable_dev, disable_dev, enable_output_port,
  disable_output_port, set_dev_attr, set_output_port_attr, set_output_port_depth, close_fd, Mi,
  Graph, adopt, device_words, output_words, mi, program_sensor,
}

-- The state of the MI SDK and that of the bus stand beside the graph.
abbrev pub World : Mi → I2c → Type 0
World sdk bus = Graph × (sdk.State × bus.State)

-- `if self.output_fd < 0 { return Err(...) }`
abbrev pub valid_descriptor : Option ℕ → Result (Unit {0})
valid_descriptor none = err bad_descriptor
valid_descriptor (some fd) = ok tt

module _ (sdk : Mi) (bus : I2c) where
  -- `mi(name, unsafe { ... })?`
  unfoldable pub mi_call : MiCall → M (World sdk bus) (Unit {0})
  mi_call c (g, (s, b)) = let (result, s') = sdk.call c s in (mi result, (g, (s', b)))

  -- A call whose result is not looked at.
  unfoldable pub ignored : MiCall → M (World sdk bus) (Unit {0})
  ignored c (g, (s, b)) = let (_, s') = sdk.call c s in (ok tt, (g, (s', b)))

  unfoldable pub assign : (Graph → Graph) → M (World sdk bus) (Unit {0})
  assign f (g, w) = (ok tt, (f g, w))

  -- `if self.flag { ... }`
  unfoldable pub when : (Graph → Bool) → M (World sdk bus) (Unit {0}) → M (World sdk bus) (Unit {0})
  when test body (g, w) = if test g then body (g, w) else (ok tt, (g, w))

  -- `if self.output_fd >= 0 { close(self.output_fd); self.output_fd = -1 }`
  unfoldable pub close_output :
      (MiCall → M (World sdk bus) (Unit {0})) → Option ℕ → M (World sdk bus) (Unit {0})
  close_output run none = pure tt
  close_output run (some fd) = run (close_fd fd) >> assign (λ g. record g { output_fd = none })

  unfoldable pub close_descriptor :
      (MiCall → M (World sdk bus) (Unit {0})) → M (World sdk bus) (Unit {0})
  unfolding close_output
  close_descriptor run (g, w) = close_output run g.output_fd (g, w)

  unfoldable pub stop_pipeline : M (World sdk bus) (Unit {0})
  stop_pipeline = do
    when (λ g. g.depth_enabled)
        (ignored (set_output_port_depth 0 2) >> assign (λ g. record g { depth_enabled = false }))
    close_descriptor ignored
    when (λ g. g.port_enabled)
        (ignored disable_output_port >> assign (λ g. record g { port_enabled = false }))
    when (λ g. g.device_enabled)
        (ignored disable_dev >> assign (λ g. record g { device_enabled = false }))
    when (λ g. g.group_created)
        (ignored destroy_dev_group >> assign (λ g. record g { group_created = false }))
    when (λ g. g.sensor_enabled)
        (ignored snr_disable >> assign (λ g. record g { sensor_enabled = false }))
    assign (λ g. record g { sensor = none })

  -- `MI_SYS_GetFd(&mut self.port, &mut self.output_fd)`, and the test of its descriptor.
  unfoldable pub take_descriptor : M (World sdk bus) (Unit {0})
  take_descriptor (g, (s, b)) =
      let ((result, fd), s') = sdk.get_fd g.output_fd s in
      let stored = record g { output_fd = fd } in
      (and_result (mi result) (valid_descriptor fd), (stored, (s', b)))

  -- Depth and descriptor of an output port that is enabled.
  unfoldable pub arm_output : M (World sdk bus) (Unit {0})
  arm_output = do
    mi_call (set_output_port_depth 1 2)
    assign (λ g. record g { depth_enabled = true })
    take_descriptor

  -- The video input from its attributes to the descriptor.
  unfoldable pub enable_vif : Config → M (World sdk bus) (Unit {0})
  enable_vif c = do
    mi_call (set_dev_attr (device_words c))
    mi_call enable_dev
    assign (λ g. record g { device_enabled = true })
    mi_call (set_output_port_attr (output_words c))
    mi_call enable_output_port
    assign (λ g. record g { port_enabled = true })
    arm_output

  unfoldable pub disarm_output : M (World sdk bus) (Unit {0})
  disarm_output = do
    when (λ g. g.depth_enabled)
        (mi_call (set_output_port_depth 0 2) >> assign (λ g. record g { depth_enabled = false }))
    close_descriptor mi_call

  unfoldable pub disable_vif : M (World sdk bus) (Unit {0})
  disable_vif = do
    disarm_output
    when (λ g. g.port_enabled)
        (mi_call disable_output_port >> assign (λ g. record g { port_enabled = false }))
    when (λ g. g.device_enabled)
        (mi_call disable_dev >> assign (λ g. record g { device_enabled = false }))

  -- `if test { return Err(...) }` on the graph.
  unfoldable pub refuse_if : (Graph → Bool) → Error → M (World sdk bus) (Unit {0})
  refuse_if test e (g, w) = (fail_if (test g) e, (g, w))

  unfoldable pub rearm_vif_output_live : M (World sdk bus) (Unit {0})
  rearm_vif_output_live = do
    refuse_if (λ g. not g.device_enabled || not g.port_enabled) graph_not_live
    disarm_output
    mi_call disable_output_port
    assign (λ g. record g { port_enabled = false })
    mi_call enable_output_port
    assign (λ g. record g { port_enabled = true })
    arm_output

  unfoldable pub on_bus : {A : Type 0} → M bus.State A → M (World sdk bus) A
  on_bus m (g, (s, b)) = let (r, b') = m b in (r, (g, (s, b')))

  -- `self.sensor.as_mut().ok_or_else(...)?`
  unfoldable pub open_sensor_only : M (World sdk bus) Geometry
  open_sensor_only (g, w) =
      (elim g.sensor [ none ↦ err sensor_closed | some geometry ↦ ok geometry ], (g, w))

  -- `prepare_geometry_live(config)?` on the open sensor. The geometry that it returns, and stores in
  -- the sensor, is the one of the configuration.
  unfoldable pub retarget : Config → M (World sdk bus) (Unit {0})
  retarget c = do
    _ ← on_bus (prepare_geometry_live bus c)
    assign (λ g. record g { sensor = some (geometry_of c) })

  -- `reconfigure_geometry_live` behind its guard.
  unfoldable pub retune_resident : Config → M (World sdk bus) (Unit {0})
  retune_resident c = do
    disable_vif
    _ ← open_sensor_only
    retarget c
    assign (adopt c)
    enable_vif c
    _ ← open_sensor_only
    on_bus (restart_geometry_live bus)

  unfoldable pub reconfigure_geometry_live : Config → M (World sdk bus) (Unit {0})
  reconfigure_geometry_live c = do
    refuse_if (λ g. not g.sensor_enabled || not g.group_created) graph_not_live
    retune_resident c

  -- `Sensor::open` opens a file and binds it to the sensor's address.
  unfoldable pub configure_pipeline : M bus.State (Unit {0}) → Config → M (World sdk bus) (Unit {0})
  configure_pipeline open_sensor c = do
    assign (adopt c)
    mi_call set_plane_mode
    mi_call set_orien
    mi_call get_res
    mi_call (set_res c.sensor_resolution)
    when (λ g. not (c.sensor_fps == 0)) (mi_call (set_fps c.sensor_fps))
    mi_call snr_enable
    assign (λ g. record g { sensor_enabled = true })
    ignored get_plane_info
    on_bus open_sensor
    on_bus (program_sensor bus c)
    assign (λ g. record g { sensor = some (geometry_of c) })
    mi_call (create_dev_group (4 ∷ 0 ∷ 0 ∷ 2 ∷ 0 ∷ 0 ∷ 0 ∷ 1 ∷ []))
    assign (λ g. record g { group_created = true })
    enable_vif c

  -- The pause between the two is left out.
  unfoldable pub reconfigure : M bus.State (Unit {0}) → Config → M (World sdk bus) (Unit {0})
  reconfigure open_sensor c = do stop_pipeline; configure_pipeline open_sensor c
