-- ===== src/Streaming/Packets.antt =====
-- The packets around the eyes of a set, and the eyes.
use podbay_camera_firmware.Prelude.{
  ℕ, ◌==◌, ◌≡◌, Bool-cases, inl, inr, ◌*◌, ◌/◌, ◌%◌, Option, none, some, List, [], ◌∷◌, length,
  arith, as_u32,
}
use podbay_camera_firmware.Config.Requests.{ContextStream}
use podbay_camera_firmware.Graph.{Graph}
use podbay_camera_firmware.Graph.EyeSet.{RawEyeSet}
use podbay_camera_firmware.Control.{LiveEyeRoi}
use podbay_camera_firmware.Streaming.{Round, Packet, telemetry_every_raw_sets}
use podbay_camera_firmware.Telemetry.Window.{CameraTelemetry, payload}
use podbay_camera_firmware.Packet.{
  thumbnail_packet_header, eye_packet_header, telemetry_packet_header,
}
use podbay_camera_firmware.Streaming.Sets.{context_packets, telemetry_packets}

-- The thumbnail before the eyes, where one was wanted and built: one packet, under the sequence and the
-- time of the set.
pub data Thumbnail (sequence timestamp : ℕ)
    : Option ContextStream → Option (List ℕ) → List Packet → Type 0 where
  unwanted : (built : Option (List ℕ)) → Thumbnail sequence timestamp none built []
  unbuilt : (wanted : Option ContextStream) → Thumbnail sequence timestamp wanted none []
  thumbnail :
      (x y : ℕ) (context : ContextStream) (pixels : List ℕ)
      → Thumbnail sequence timestamp (some context) (some pixels) (
          (
            thumbnail_packet_header 0 sequence timestamp x y context.context_width
                context.context_height
                (as_u32 (length pixels))
                0,
            pixels,
          )
          ∷ [])

-- What follows the eyes of the set with a number: nothing after an odd one, and one packet of telemetry
-- after an even one.
pub data Report (number sequence timestamp : ℕ) : List Packet → Type 0 where
  no_report : number % 2 ≡ 1 → Report number sequence timestamp []
  report :
      (bytes : List ℕ)
      → number % 2 ≡ 0
      → Report number sequence timestamp
          ((telemetry_packet_header sequence timestamp (as_u32 (length bytes)), bytes) ∷ [])

-- The two eyes, the left one first: where the rectangles are, and what was acquired there.
abbrev pub both_eyes : ℕ → LiveEyeRoi → RawEyeSet → List Packet
both_eyes sequence active set =
    (
      eye_packet_header 1 sequence set.set_timestamp_ns active.left_eye.0 active.left_eye.1
          active.eye_width active.eye_height (active.eye_width / 4 * 5)
          (as_u32 (length set.left_payload)),
      set.left_payload,
    )
    ∷ (
      eye_packet_header 2 sequence set.set_timestamp_ns active.right_eye.0 active.right_eye.1
          active.eye_width active.eye_height (active.eye_width / 4 * 5)
          (as_u32 (length set.right_payload)),
      set.right_payload,
    )
    ∷ []

pub context_packets-Thumbnail :
    (g : Graph) (sequence timestamp : ℕ) (wanted : Option ContextStream) (built : Option (List ℕ))
    → Thumbnail sequence timestamp wanted built (context_packets g sequence timestamp wanted built)
unfolding context_packets
context_packets-Thumbnail g sequence timestamp (some context) (some pixels) =
    thumbnail g.origin_x g.origin_y context pixels
context_packets-Thumbnail g sequence timestamp (some context) none = unbuilt (some context)
context_packets-Thumbnail g sequence timestamp none built = unwanted built

pub telemetry_packets-Report :
    (round : Round) (number sequence timestamp : ℕ) (t : CameraTelemetry)
    → Report number sequence timestamp (telemetry_packets round number sequence timestamp t).0
unfolding telemetry_packets
telemetry_packets-Report round number sequence timestamp t =
    elim (Bool-cases (number % telemetry_every_raw_sets == 0)) [
      | inl even ↦ rw even (report (payload t round.telemetry_now).0 (ground arith))
      | inr odd ↦ rw odd (no_report (ground arith))
    ]
