-- ===== src/Config/Transition.antt =====
-- `sensor_transition`: how the service gets from one configuration to the next.
use podbay_camera_firmware.Prelude.{
  ℕ, ◌≡◌, ◌≢◌, ◌⊎◌, ◌↔◌, refl, Bool, true, false, not, ◌&&◌, ◌==◌, if◌then◌else◌, arith, ok, inl,
  inr, sym, ◌∙◌,
}
use podbay_camera_firmware.Config.{Config, one_or, sensor_crop_config, crop_config}
use podbay_camera_firmware.Config.Crops.{sensor_crop_config-Cropped, Cropped}

pub data SensorTransition : Type 0 where
  unchanged live_origin live_geometry rebuild : SensorTransition

abbrev pub same_bool : Bool → Bool → Bool
same_bool true b = b
same_bool false b = not b

-- The `same_pipeline` of `sensor_transition`.
unfoldable pub same_pipeline : Config → Config → Bool
same_pipeline current next =
    current.tile_width == next.tile_width
    && current.tile_height == next.tile_height
    && current.settle_frames == next.settle_frames
    && current.frame_timeout == next.frame_timeout
    && current.frame_length == next.frame_length
    && current.coarse == next.coarse
    && current.gain == next.gain
    && current.sensor_resolution == next.sensor_resolution
    && current.sensor_fps == next.sensor_fps
    && current.sensor_binning == next.sensor_binning
    && current.sensor_scale == next.sensor_scale
    && same_bool current.direct_full_raw next.direct_full_raw
    && current.pixel_format == next.pixel_format

unfoldable pub same_origin : Config → Config → Bool
same_origin current next =
    current.initial_x == next.initial_x && current.initial_y == next.initial_y

-- The tests of the second and of the third branch.
unfoldable pub moves_live : Config → Bool
moves_live current =
    current.direct_full_raw && not (current.sensor_resolution == 1) && current.sensor_binning == 1

unfoldable pub retunes_live : Config → Config → Bool
retunes_live current next =
    current.direct_full_raw
    && next.direct_full_raw
    && not (current.sensor_resolution == 1)
    && not (next.sensor_resolution == 1)
    && one_or 4 current.sensor_binning
    && one_or 4 next.sensor_binning
    && current.pixel_format == next.pixel_format

unfoldable pub sensor_transition : Config → Config → SensorTransition
sensor_transition current next =
    let same = same_pipeline current next in
    if same && same_origin current next
    then unchanged
    else if same && moves_live current
    then live_origin
    else if retunes_live current next
    then live_geometry
    else rebuild

-- Two configurations that set the sensor and the graph up alike, but for the origin.
pub record SamePipeline (c d : Config) : Type 0 where
  pub same_width : c.tile_width ≡ d.tile_width
  pub same_height : c.tile_height ≡ d.tile_height
  pub same_settle : c.settle_frames ≡ d.settle_frames
  pub same_timeout : c.frame_timeout ≡ d.frame_timeout
  pub same_frame_length : c.frame_length ≡ d.frame_length
  pub same_coarse : c.coarse ≡ d.coarse
  pub same_gain : c.gain ≡ d.gain
  pub same_resolution : c.sensor_resolution ≡ d.sensor_resolution
  pub same_fps : c.sensor_fps ≡ d.sensor_fps
  pub same_binning : c.sensor_binning ≡ d.sensor_binning
  pub same_scale : c.sensor_scale ≡ d.sensor_scale
  pub same_direct : c.direct_full_raw ≡ d.direct_full_raw
  pub same_format : c.pixel_format ≡ d.pixel_format

same_pipeline_sound : (c d : Config) → same_pipeline c d ≡ true → SamePipeline c d
unfolding same_pipeline
same_pipeline_sound c d h = ground arith

same_pipeline_complete : (c d : Config) → SamePipeline c d → same_pipeline c d ≡ true
unfolding same_pipeline
same_pipeline_complete c d h = ground arith

abbrev pub SameOrigin : Config → Config → Type 0
SameOrigin c d = (c.initial_x ≡ d.initial_x) × (c.initial_y ≡ d.initial_y)

-- A direct RAW mode whose geometry the service programs itself.
pub record IsDirect (c : Config) : Type 0 where
  pub direct : c.direct_full_raw ≡ true
  pub own_table : c.sensor_resolution ≢ 1
  pub binning : (c.sensor_binning ≡ 1) ⊎ (c.sensor_binning ≡ 4)

same_origin_sound : (c d : Config) → same_origin c d ≡ true → SameOrigin c d
unfolding same_origin
same_origin_sound c d h = (ground arith, ground arith)

same_origin_complete : (c d : Config) → SameOrigin c d → same_origin c d ≡ true
unfolding same_origin
same_origin_complete c d h = ground arith

moves_live_sound : (c : Config) → moves_live c ≡ true → IsDirect c × (c.sensor_binning ≡ 1)
unfolding moves_live
moves_live_sound c h = ground arith

retunes_live_sound :
    (c d : Config)
    → retunes_live c d ≡ true
    → IsDirect c × IsDirect d × (c.pixel_format ≡ d.pixel_format)
unfolding retunes_live
retunes_live_sound c d h = ground arith

retunes_live_complete :
    (c d : Config)
    → IsDirect c
    → IsDirect d
    → c.pixel_format ≡ d.pixel_format
    → retunes_live c d ≡ true
unfolding retunes_live
retunes_live_complete c d h k p = ground arith

-- Nothing is done exactly where the two configurations set up the same pipeline at the same origin.
pub transition_unchanged_iff :
    (c d : Config) → (sensor_transition c d ≡ unchanged) ↔ SamePipeline c d × SameOrigin c d
unfolding sensor_transition
transition_unchanged_iff c d = (
  λ h. (same_pipeline_sound c d (ground arith), same_origin_sound c d (ground arith)),
  λ h. rw (same_pipeline_complete c d h.0, same_origin_complete c d h.1),
)

-- The origin moves live only between two configurations of one pipeline at two origins, in a direct
-- 1x1 mode of the service's own.
pub transition_live_origin :
    (c d : Config)
    → sensor_transition c d ≡ live_origin
    → SamePipeline c d × (¬ SameOrigin c d) × IsDirect c × IsDirect d × (d.sensor_binning ≡ 1)
unfolding sensor_transition
transition_live_origin c d h =
    let same = same_pipeline_sound c d (ground arith) in
    let (direct, one) = moves_live_sound c (ground arith) in
    let moved : ¬ SameOrigin c d = λ o. let stays = same_origin_complete c d o in ground arith in
    (same, moved, direct, ground arith, ground arith)

-- A rebuild is avoided exactly where nothing changes or both configurations are direct modes of one
-- pixel format.
pub transition_rebuild_iff :
    (c d : Config)
    → (sensor_transition c d ≢ rebuild) ↔ (
        (SamePipeline c d × SameOrigin c d)
        ⊎ (IsDirect c × IsDirect d × (c.pixel_format ≡ d.pixel_format)))
unfolding sensor_transition
transition_rebuild_iff c d = (
  λ h. avoided (sensor_transition c d) refl h,
  λ h e. elim h [
    | inl same ↦ let u = (transition_unchanged_iff c d).1 same in unfold sensor_transition in cc
    | inr (p, q, f) ↦ let r = retunes_live_complete c d p q f in ground arith
  ],
)
  where
    avoided :
        (t : SensorTransition)
        → sensor_transition c d ≡ t
        → t ≢ rebuild
        → (SamePipeline c d × SameOrigin c d)
          ⊎ (IsDirect c × IsDirect d × (c.pixel_format ≡ d.pixel_format))
    avoided unchanged e h = inl ((transition_unchanged_iff c d).0 e)
    avoided live_origin e h =
        let (same, _, p, q, _) = transition_live_origin c d e in inr (p, q, same.same_format)
    avoided live_geometry e h = inr (retunes_live_sound c d (ground arith))
    avoided rebuild e h = absurd (h refl)

crop-IsDirect :
    (base : Config) (x y w h b : ℕ) {c : Config}
    → base.direct_full_raw ≡ true
    → Cropped base x y w h b c
    → IsDirect c × (c.pixel_format ≡ base.pixel_format)
unfolding crop_config
crop-IsDirect base x y w h b direct c = ground arith

-- Between any two crops of one direct base, the transition that is chosen is never a rebuild of the
-- graph.
pub crop_transition-ne-rebuild :
    (null_opens : Bool) (base : Config) (x y w h b x' y' w' h' b' : ℕ) {c d : Config}
    → base.direct_full_raw ≡ true
    → sensor_crop_config null_opens base x y w h b ≡ ok c
    → sensor_crop_config null_opens base x' y' w' h' b' ≡ ok d
    → sensor_transition c d ≢ rebuild
crop_transition-ne-rebuild n base x y w h b x' y' w' h' b' direct p q =
    let (c_direct, c_format) =
      crop-IsDirect base x y w h b direct (sensor_crop_config-Cropped n base x y w h b p) in
    let (d_direct, d_format) =
      crop-IsDirect base x' y' w' h' b' direct
        (sensor_crop_config-Cropped n base x' y' w' h' b' q) in
    (transition_rebuild_iff _ _).1 (inr (c_direct, d_direct, c_format ∙ sym d_format))
