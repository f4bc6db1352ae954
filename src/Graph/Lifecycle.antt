-- ===== src/Graph/Lifecycle.antt =====
-- The pipeline is stopped, started and retargeted as a whole.
use podbay_camera_firmware.Prelude.{
  ℕ, ◌≡◌, refl, ap, Bool, ◌||◌, Error, fail_if, graph_not_live, true, false, not, none, some, ok,
}
use podbay_camera_firmware.Device.{M, I2c, continue, ◌>>◌}
use podbay_camera_firmware.Config.{Config, geometry_of}
use podbay_camera_firmware.Graph.{
  MiCall, Mi, Graph, adopt, set_output_port_depth, disable_output_port, disable_dev,
}
use podbay_camera_firmware.Graph.Effects.{
  Takes, Stores, Takes->>=, Stores->>=, mi_call-Takes, ignored-Takes, assign-Takes, on_bus-Takes,
  open_sensor_only-Takes, when-Takes, close_descriptor-Takes, retarget-Takes, Stores->>,
  take_descriptor-Stores,
}
use podbay_camera_firmware.Graph.Pipeline.{
  mi_call, assign, World, arm_output, enable_vif, configure_pipeline, reconfigure_geometry_live,
  retune_resident, disable_vif, disarm_output, refuse_if,
}

-- Everything is set up, and as a configuration asks.
pub record IsLive (c : Config) (g : Graph) : Type 0 where
  pub open_sensor : g.sensor ≡ some (geometry_of c)
  pub has_descriptor : (fd : ℕ) × (g.output_fd ≡ some fd)
  pub enabled_sensor : g.sensor_enabled ≡ true
  pub created_group : g.group_created ≡ true
  pub enabled_device : g.device_enabled ≡ true
  pub enabled_port : g.port_enabled ≡ true
  pub enabled_depth : g.depth_enabled ≡ true
  pub at_width : g.graph_width ≡ c.tile_width
  pub at_height : g.graph_height ≡ c.tile_height
  pub at_x : g.origin_x ≡ c.initial_x
  pub at_y : g.origin_y ≡ c.initial_y
  pub at_format : g.graph_format ≡ c.pixel_format

-- What `enable_vif` does to the graph.
abbrev pub enabled : ℕ → Graph → Graph
enabled fd g = record g {
  device_enabled = true;
  port_enabled = true;
  depth_enabled = true;
  output_fd = some fd;
}

-- What comes before it in `configure_pipeline`.
abbrev pub configured : Config → Graph → Graph
configured c g = record (adopt c g) {
  sensor_enabled = true;
  sensor = some (geometry_of c);
  group_created = true;
}

IsLive-enabled : (c : Config) (fd : ℕ) (g : Graph) → IsLive c (enabled fd (configured c g))
unfolding adopt
IsLive-enabled c fd g = record {
  open_sensor = refl;
  has_descriptor = (fd, refl);
  enabled_sensor = refl;
  created_group = refl;
  enabled_device = refl;
  enabled_port = refl;
  enabled_depth = refl;
  at_width = refl;
  at_height = refl;
  at_x = refl;
  at_y = refl;
  at_format = refl;
}

-- What `disable_vif` does to the graph.
abbrev pub disabled : Graph → Graph
disabled g = record g {
  depth_enabled = false;
  output_fd = none;
  port_enabled = false;
  device_enabled = false;
}

guard_passed :
    {S : Type 0} (test : Bool) (e : Error) (k : M S (Unit {0})) (s : S)
    → (continue (λ _. k) (fail_if test e, s)).0 ≡ ok tt
    → (test ≡ false) × (continue (λ _. k) (fail_if test e, s) ≡ k s)
guard_passed true e k s done = cc
guard_passed false e k s done = (refl, refl)

both_on : (a b : Bool) → (not a || not b) ≡ false → (a ≡ true) × (b ≡ true)
both_on true true h = (refl, refl)
both_on true false h = cc
both_on false b h = cc

IsLive-retuned :
    (c : Config) (fd : ℕ) (g : Graph)
    → (not g.sensor_enabled || not g.group_created) ≡ false
    → IsLive c (enabled fd (adopt c (record (disabled g) { sensor = some (geometry_of c) })))
unfolding adopt
IsLive-retuned c fd g off = record {
  open_sensor = refl;
  has_descriptor = (fd, refl);
  enabled_sensor = (both_on g.sensor_enabled g.group_created off).0;
  created_group = (both_on g.sensor_enabled g.group_created off).1;
  enabled_device = refl;
  enabled_port = refl;
  enabled_depth = refl;
  at_width = refl;
  at_height = refl;
  at_x = refl;
  at_y = refl;
  at_format = refl;
}

module _ (sdk : Mi) (bus : I2c) where
  disable_vif-Takes : Takes (disable_vif sdk bus) disabled
  unfolding disable_vif disarm_output
  disable_vif-Takes =
      Takes->>=
        (Takes->>=
          (when-Takes sdk bus _
            (Takes->>= (mi_call-Takes sdk bus (set_output_port_depth 0 2))
              (λ _. assign-Takes sdk bus _))
            (λ g off. ap (λ b. record g { depth_enabled = b }) off))
          (λ _. close_descriptor-Takes sdk bus (mi_call-Takes sdk bus)))
        (λ _.
          Takes->>=
            (when-Takes sdk bus _
              (Takes->>= (mi_call-Takes sdk bus disable_output_port) (λ _. assign-Takes sdk bus _))
              (λ g off. ap (λ b. record g { port_enabled = b }) off))
            (λ _.
              when-Takes sdk bus _
                (Takes->>= (mi_call-Takes sdk bus disable_dev) (λ _. assign-Takes sdk bus _))
                (λ g off. ap (λ b. record g { device_enabled = b }) off)))

  -- A call, or an assignment, before steps that are known.
  call :
      (c : MiCall) {k : M (World sdk bus) (Unit {0})} {h : ℕ → Graph → Graph}
      → Stores k h
      → Stores (mi_call sdk bus c >> k) h
  call c next = Stores->>= (mi_call-Takes sdk bus c) (λ _. next)

  set :
      (f : Graph → Graph) {k : M (World sdk bus) (Unit {0})} {h : ℕ → Graph → Graph}
      → Stores k h
      → Stores (assign sdk bus f >> k) (λ fd g. h fd (f g))
  set f next = Stores->>= (assign-Takes sdk bus f) (λ _. next)

  enable_vif-Stores : (c : Config) → Stores (enable_vif sdk bus c) enabled
  unfolding enable_vif arm_output
  enable_vif-Stores c =
      call _
        (call _ (set _ (call _ (call _ (set _ (call _ (set _ (take_descriptor-Stores sdk bus))))))))

  -- What `configure_pipeline` does to the graph.
  configure_pipeline-Stores :
      (open_sensor : M bus.State (Unit {0})) (c : Config)
      → Stores (configure_pipeline sdk bus open_sensor c) (λ fd g. enabled fd (configured c g))
  unfolding configure_pipeline
  configure_pipeline-Stores open_sensor c = set _ (
      call _ (
        call _ (
          call _ (
            call _ (
              Stores->>= (when-Takes sdk bus _ (mi_call-Takes sdk bus _) (λ g off. refl)) (λ _.
                call _ (
                  set _ (
                    Stores->>= (ignored-Takes sdk bus _) (λ _.
                      Stores->>= (on_bus-Takes sdk bus _) (λ _.
                        Stores->>= (on_bus-Takes sdk bus _)
                          (λ _. set _ (call _ (set _ (enable_vif-Stores c))))))))))))))

  -- Whatever the SDK, the bus and the pipeline before, a pipeline that is configured with success is
  -- live: every stage is marked as held, and the sensor, the size, the origin and the format are those
  -- of the configuration.
  pub configure_pipeline-IsLive :
      (open_sensor : M bus.State (Unit {0})) (c : Config) (w : World sdk bus)
      → (configure_pipeline sdk bus open_sensor c w).0 ≡ ok tt
      → IsLive c (configure_pipeline sdk bus open_sensor c w).1.0
  unfolding adopt
  configure_pipeline-IsLive open_sensor c w done =
      let (fd, changed) = (configure_pipeline-Stores open_sensor c).stores w done in
      rw changed (IsLive-enabled c fd w.0)

  -- The part of the live retuning behind its guard.
  retuned-Stores :
      (c : Config)
      → Stores
          (retune_resident sdk bus c)
          (λ fd g. enabled fd (adopt c (record (disabled g) { sensor = some (geometry_of c) })))
  unfolding retune_resident
  retuned-Stores c = Stores->>= (disable_vif-Takes) (λ _.
      Stores->>= (open_sensor_only-Takes sdk bus) (λ _. Stores->>= (retarget-Takes sdk bus c) (λ _.
        Stores->>= (assign-Takes sdk bus (adopt c)) (λ _.
          Stores->> (enable_vif-Stores c)
            (Takes->>= (open_sensor_only-Takes sdk bus) (λ _. on_bus-Takes sdk bus _))))))

  -- A live retuning that succeeds, from whatever state and on whatever SDK and bus, leaves the pipeline
  -- just as live under the new configuration as configuring it anew does.
  pub reconfigure_geometry_live-IsLive :
      (c : Config) (w : World sdk bus)
      → (reconfigure_geometry_live sdk bus c w).0 ≡ ok tt
      → IsLive c (reconfigure_geometry_live sdk bus c w).1.0
  unfolding reconfigure_geometry_live refuse_if adopt
  reconfigure_geometry_live-IsLive c w done =
      let (off, same) =
        guard_passed (not w.0.sensor_enabled || not w.0.group_created) graph_not_live
          (retune_resident sdk bus c) w done in
      let (fd, changed) = (retuned-Stores c).stores w (rw same at done) in
      rw (same, changed) (IsLive-retuned c fd w.0 off)
