-- ===== src/Graph/EyeSet.antt =====
-- `acquire_eye_set` in camera-service/src/main.rs, on the buffers of the MI SDK. How long the cutting
-- takes is left out of the set.
use podbay_camera_firmware.Prelude.{ℕ, ◌-◌, List, Option, as_u64, ok}
use podbay_camera_firmware.Device.{M, ◌>>=◌, ◌>>◌, lift, pure, continue, I2c}
use podbay_camera_firmware.Config.Requests.{ContextStream}
use podbay_camera_firmware.Graph.{Mi, Graph}
use podbay_camera_firmware.Graph.Pipeline.{World}
use podbay_camera_firmware.Graph.Frames.{
  Metadata, metadata_of, validate_metadata, read_memory, wait_buffer, flush, on_sdk, with_graph,
  returning,
}
use podbay_camera_firmware.Graph.Eyes.{is_bad_eye_frame, relative_eyes, flush_range, cut_eyes}

pub record RawEyeSet : Type 0 where
  pub left_payload : List ℕ
  pub right_payload : List ℕ
  pub context_payload : Option (List ℕ)
  pub set_timestamp_ns : ℕ  -- u64
  pub sensor_wait : ℕ  -- nanoseconds

module _ (sdk : Mi) where
  -- How long a call took.
  unfoldable pub timed : {A : Type 0} → M sdk.State A → M sdk.State (A × ℕ)
  timed m s = let (r, t) = m s in continue (λ a. pure (a, sdk.now t - sdk.now s)) (r, t)

  unfoldable pub flush_eyes :
      Metadata → Option ContextStream → ℕ → (ℕ × ℕ) × (ℕ × ℕ) → M sdk.State (Unit {0})
  flush_eyes m context height (left, right) =
      let (address, size) = flush_range m context height left right in flush sdk address size

  unfoldable pub cut_from_memory :
      Graph
      → Metadata
      → Option ContextStream
      → ℕ
      → ℕ
      → (ℕ × ℕ) × (ℕ × ℕ)
      → M sdk.State (List ℕ × List ℕ × Option (List ℕ))
  cut_from_memory g m context width height (left, right) s = (
    cut_eyes g m (read_memory (sdk.memory s) m.address m.buffer_size) context width height left
        right,
    s,
  )

  unfoldable pub extract :
      Graph
      → Metadata
      → ℕ × ℕ
      → ℕ × ℕ
      → ℕ
      → ℕ
      → Option ContextStream
      → M sdk.State (List ℕ × List ℕ × Option (List ℕ))
  extract g m left right width height context = do
    lift (validate_metadata g m (is_bad_eye_frame g m))
    eyes ← lift (relative_eyes g left right width height)
    flush_eyes m context height eyes
    cut_from_memory g m context width height eyes

module _ (sdk : Mi) (bus : I2c) where
  unfoldable pub eye_set : ℕ → List ℕ × List ℕ × Option (List ℕ) → M (World sdk bus) RawEyeSet
  eye_set wait (left, right, context) (g, (s, b)) = (
    ok (record {
      left_payload = left;
      right_payload = right;
      context_payload = context;
      set_timestamp_ns = as_u64 (sdk.wall_clock s);
      sensor_wait = wait;
    }),
    (g, (s, b)),
  )

  unfoldable pub acquire_eye_set :
      ℕ × ℕ → ℕ × ℕ → ℕ → ℕ → Option ContextStream → M (World sdk bus) RawEyeSet
  acquire_eye_set left right width height context = with_graph sdk bus λ g. do
    waited ← on_sdk sdk bus (timed sdk (wait_buffer sdk g.graph_timeout))
    let m = metadata_of waited.0.info
    cut ←
        returning sdk bus waited.0.handle
          (on_sdk sdk bus (extract sdk g m left right width height context))
    eye_set waited.1 cut
