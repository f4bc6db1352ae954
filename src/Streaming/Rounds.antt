-- ===== src/Streaming/Rounds.antt =====
-- The sets of a stream.
use podbay_camera_firmware.Prelude.{
  ℕ, ◌+◌, ◌≤◌, ◌≡◌, ◌++◌, Option, List, [], ◌∷◌, length, as_u32, as_u64, ok,
}
use podbay_camera_firmware.Device.{I2c}
use podbay_camera_firmware.Config.{SensorMode}
use podbay_camera_firmware.Config.Requests.{ContextStream}
use podbay_camera_firmware.Graph.{Mi, Graph}
use podbay_camera_firmware.Graph.Pipeline.{World}
use podbay_camera_firmware.Graph.EyeSet.{RawEyeSet, acquire_eye_set}
use podbay_camera_firmware.Control.{LiveEyeRoi}
use podbay_camera_firmware.Streaming.{Stream, Round, Packet, active_context}
use podbay_camera_firmware.Streaming.Sets.{retarget_eyes}
use podbay_camera_firmware.Streaming.Packets.{Thumbnail, Report, both_eyes}

module _ (sdk : Mi) (bus : I2c) (mode : SensorMode) (context : Option ContextStream) where
  -- The packets of one set: of the rectangles that its round leaves in force, as acquired in them.
  pub data OneSet (sent sequence : ℕ) (round : Round) (before active : LiveEyeRoi)
      : List Packet → Type 0 where
    one_set :
        (set : RawEyeSet) (v v' : World sdk bus) (ahead behind : List Packet)
        → retarget_eyes mode round.requested before ≡ ok active
        → acquire_eye_set sdk bus active.left_eye active.right_eye active.eye_width
            active.eye_height
            (active_context context sent)
            v
          ≡ (ok set, v')
        → Thumbnail sequence set.set_timestamp_ns
            (active_context context sent)
            set.context_payload
            ahead
        → Report (as_u32 (sent + 1)) sequence set.set_timestamp_ns behind
        → OneSet sent sequence round before active
            (ahead ++ both_eyes sequence active set ++ behind)

  -- Packets of sets after so many, with sequence numbers from one up to another.
  pub data Sets : ℕ → ℕ → LiveEyeRoi → List Round → List Packet → ℕ → Type 0 where
    over :
        (sent sequence : ℕ) (active : LiveEyeRoi) (rounds : List Round)
        → Sets sent sequence active rounds [] sequence
    one :
        (sent sequence last : ℕ) (before active : LiveEyeRoi) (round : Round) (rounds : List Round)
        (packets rest : List Packet)
        → OneSet sent sequence round before active packets
        → Sets (as_u32 (sent + 1)) (as_u64 (sequence + 1)) active rounds rest last
        → Sets sent sequence before (round ∷ rounds) (packets ++ rest) last

  -- One set that is sent.
  data SentSet (round : Round) (stream : Stream) (sent : List Packet × Stream) : Type 0 where
    sends :
        OneSet stream.sent stream.sequence round stream.active sent.1.active sent.0
        → sent.1.sent ≡ as_u32 (stream.sent + 1)
        → sent.1.sequence ≡ as_u64 (stream.sequence + 1)
        → SentSet round stream sent

  -- What is known of a stream that ends without an error.
  pub record Streamed (frames : ℕ) (rounds : List Round) (stream : Stream)
      (sent : List Packet × Stream) : Type 0 where
    pub numbered : Sets stream.sent stream.sequence stream.active rounds sent.0 sent.1.sequence
    pub at_most : sent.1.sent ≤ frames
    pub all : frames ≤ stream.sent + length rounds → sent.1.sent ≡ frames
