-- ===== src/Config/Tests.antt =====
-- Configurations that the service uses, and the theorems on them.
use podbay_camera_firmware.Prelude.{◌≡◌, ◌≢◌, ◌↔◌, ◌⊎◌, refl, true, arith, ok, inl, inr}
use podbay_camera_firmware.Config.{
  Config, default_config, validate_config, SensorMode, mode_from_config, sensor_crop_config,
  crop_config, validate_origin, is_misaligned, is_outside, is_bad_tile, is_bad_scale,
  physical_width, physical_height,
}
use podbay_camera_firmware.Config.Valid.{IsValid, validate_config_sound}
use podbay_camera_firmware.Config.Crops.{
  IsCrop, crop_sensor_mode, sensor_crop_config_sound, sensor_crop_config_complete,
}
use podbay_camera_firmware.Config.Transition.{
  sensor_transition, rebuild, SamePipeline, SameOrigin, IsDirect, transition_rebuild_iff,
  crop_transition-ne-rebuild,
}
use podbay_camera_firmware.Config.Requests.{
  validate_absolute_eye_rois, IsEyePair, validate_absolute_eye_rois_iff,
}

validate_config_sound_example : IsValid default_config
unfolding validate_config validate_origin is_misaligned is_outside is_bad_tile is_bad_scale
    physical_width physical_height
validate_config_sound_example = validate_config_sound true default_config refl

-- A band for two eyes, and the whole array at 4x4.
band-IsCrop : IsCrop 160 2712 7680 576 1
band-IsCrop = record {
  readout = inl refl;
  wide = omega arith;
  tall = omega arith;
  groups = omega arith;
  rows = omega arith;
  x_aligned = omega arith;
  y_aligned = omega arith;
  right = omega arith;
  bottom = omega arith;
}

array-IsCrop : IsCrop 0 0 8000 6000 4
array-IsCrop = record {
  readout = inr refl;
  wide = omega arith;
  tall = omega arith;
  groups = omega arith;
  rows = omega arith;
  x_aligned = omega arith;
  y_aligned = omega arith;
  right = omega arith;
  bottom = omega arith;
}

eye_band_crop :
    sensor_crop_config true default_config 160 2712 7680 576 1
    ≡ ok (crop_config default_config 160 2712 7680 576 1)
eye_band_crop = sensor_crop_config_complete default_config 160 2712 7680 576 1 band-IsCrop

whole_array :
    sensor_crop_config true default_config 0 0 8000 6000 4
    ≡ ok (crop_config default_config 0 0 8000 6000 4)
whole_array = sensor_crop_config_complete default_config 0 0 8000 6000 4 array-IsCrop

sensor_crop_config_sound_example :
    IsValid (crop_config default_config 160 2712 7680 576 1)
    × IsCrop 160 2712 7680 576 1
    × (mode_from_config (crop_config default_config 160 2712 7680 576 1)
        ≡ crop_sensor_mode 160 2712 7680 576 1)
sensor_crop_config_sound_example =
    sensor_crop_config_sound true default_config 160 2712 7680 576 1 eye_band_crop

abbrev shifted : Config
shifted = record default_config { initial_x = 160 }

transition_rebuild_iff_example : (sensor_transition default_config shifted ≢ rebuild) ↔ (
    (SamePipeline default_config shifted × SameOrigin default_config shifted)
    ⊎ (IsDirect default_config
        × IsDirect shifted
        × (default_config.pixel_format ≡ shifted.pixel_format)))
transition_rebuild_iff_example = transition_rebuild_iff default_config shifted

crop_transition-ne-rebuild_example :
    sensor_transition
      (crop_config default_config 160 2712 7680 576 1)
      (crop_config default_config 0 0 8000 6000 4)
    ≢ rebuild
crop_transition-ne-rebuild_example =
    crop_transition-ne-rebuild true default_config 160 2712 7680 576 1 0 0 8000 6000 4 refl
      eye_band_crop whole_array

abbrev band_mode : SensorMode
band_mode = crop_sensor_mode 160 2712 7680 576 1

validate_absolute_eye_rois_iff_example :
    (validate_absolute_eye_rois band_mode (1000, 2800) (4000, 2900) 256 256 ≡ ok tt)
    ↔ IsEyePair band_mode (1000, 2800) (4000, 2900) 256 256
validate_absolute_eye_rois_iff_example =
    validate_absolute_eye_rois_iff band_mode (1000, 2800) (4000, 2900) 256 256 (omega arith)
