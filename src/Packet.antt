-- ===== src/Packet.antt =====
-- The 64-byte packet headers of camera-service/src/main.rs. A `status` of type i32 stands as the
-- u32 that `as u32` makes of it.
pub mod Decode
mod Tests
use podbay_camera_firmware.Prelude.{ℕ, ◌*◌, List, [], ◌∷◌, replicate, as_u32}
use podbay_camera_firmware.Bytes.{copy_at, put_u16, put_u32, put_u64}
use podbay_camera_firmware.Config.{raw10_rg}

-- PACKET_HEADER_BYTES
abbrev pub packet_header_bytes : ℕ
packet_header_bytes = 64

abbrev pub format_raw10_le40 : ℕ
format_raw10_le40 = 1

abbrev pub format_gray16 : ℕ
format_gray16 = 3

abbrev pub format_telemetry : ℕ
format_telemetry = 4

-- The statements of a header's construction, one after the other.
infixl 5 ◌▷◌
abbrev pub ◌▷◌ : List ℕ → (List ℕ → List ℕ) → List ℕ
header ▷ statement = statement header

abbrev pub magic : List ℕ → List ℕ → List ℕ
magic letters header = copy_at header 0 letters

unfoldable pub u16 : ℕ → ℕ → List ℕ → List ℕ
unfolding put_u16
u16 offset value header = put_u16 header offset value

unfoldable pub u32 : ℕ → ℕ → List ℕ → List ℕ
unfolding put_u32
u32 offset value header = put_u32 header offset value

unfoldable pub u64 : ℕ → ℕ → List ℕ → List ℕ
unfolding put_u64
u64 offset value header = put_u64 header offset value

unfoldable pub thumbnail_packet_header : ℕ → ℕ → ℕ → ℕ → ℕ → ℕ → ℕ → ℕ → ℕ → List ℕ
unfolding u16 u32 u64
thumbnail_packet_header status sequence timestamp sensor_x sensor_y width height payload_bytes
      settle =
    replicate packet_header_bytes 0
    ▷ magic (b'O' ∷ b'T' ∷ b'H' ∷ b'1' ∷ [])
    ▷ u16 4 1
    ▷ u16 6 packet_header_bytes
    ▷ u32 8 status
    ▷ u32 12 format_gray16
    ▷ u64 16 sequence
    ▷ u64 24 timestamp
    ▷ u32 32 sensor_x
    ▷ u32 36 sensor_y
    ▷ u32 40 width
    ▷ u32 44 height
    ▷ u32 48 (as_u32 (width * 2))
    ▷ u32 52 payload_bytes
    ▷ u32 56 16
    ▷ u32 60 settle

unfoldable pub eye_packet_header : ℕ → ℕ → ℕ → ℕ → ℕ → ℕ → ℕ → ℕ → ℕ → List ℕ
unfolding u16 u32 u64
eye_packet_header eye_id sequence timestamp sensor_x sensor_y width height stride payload_bytes =
    replicate packet_header_bytes 0
    ▷ magic (b'O' ∷ b'R' ∷ b'E' ∷ b'1' ∷ [])
    ▷ u16 4 1
    ▷ u16 6 packet_header_bytes
    ▷ u32 8 eye_id
    ▷ u32 12 format_raw10_le40
    ▷ u64 16 sequence
    ▷ u64 24 timestamp
    ▷ u32 32 sensor_x
    ▷ u32 36 sensor_y
    ▷ u32 40 width
    ▷ u32 44 height
    ▷ u32 48 stride
    ▷ u32 52 payload_bytes
    ▷ u32 56 raw10_rg
    ▷ u32 60 1

unfoldable pub telemetry_packet_header : ℕ → ℕ → ℕ → List ℕ
unfolding u16 u32 u64
telemetry_packet_header sequence timestamp payload_bytes =
    replicate packet_header_bytes 0
    ▷ magic (b'O' ∷ b'T' ∷ b'M' ∷ b'1' ∷ [])
    ▷ u16 4 1
    ▷ u16 6 packet_header_bytes
    ▷ u32 8 0
    ▷ u32 12 format_telemetry
    ▷ u64 16 sequence
    ▷ u64 24 timestamp
    ▷ u32 32 0
    ▷ u32 36 0
    ▷ u32 40 payload_bytes
    ▷ u32 44 1
    ▷ u32 48 payload_bytes
    ▷ u32 52 payload_bytes
    ▷ u32 56 8
    ▷ u32 60 1

unfoldable pub packet_header : ℕ → ℕ → ℕ → ℕ → ℕ → ℕ → ℕ → ℕ → ℕ → ℕ → List ℕ
unfolding u16 u32 u64
packet_header status sequence timestamp x y width height stride payload_bytes settle =
    replicate packet_header_bytes 0
    ▷ magic (b'O' ∷ b'R' ∷ b'T' ∷ b'1' ∷ [])
    ▷ u16 4 1
    ▷ u16 6 packet_header_bytes
    ▷ u32 8 status
    ▷ u32 12 format_raw10_le40
    ▷ u64 16 sequence
    ▷ u64 24 timestamp
    ▷ u32 32 x
    ▷ u32 36 y
    ▷ u32 40 width
    ▷ u32 44 height
    ▷ u32 48 stride
    ▷ u32 52 payload_bytes
    ▷ u32 56 raw10_rg
    ▷ u32 60 settle
