-- ===== src/Packet/Decode.antt =====
-- A client reads a header by the table of docs/PROTOCOL.md; what it finds is what was sent.
use podbay_camera_firmware.Prelude.{
  ℕ, ◌*◌, ◌^◌, ◌<◌, ◌≡◌, refl, List, [], ◌∷◌, take, drop, length, arith, as_u32,
}
use podbay_camera_firmware.Bytes.{from_le_bytes, le_bytes}
use podbay_camera_firmware.Bytes.Words.{u32_back, u64_back}
use podbay_camera_firmware.Config.{raw10_rg}
use podbay_camera_firmware.Packet.{
  thumbnail_packet_header, eye_packet_header, telemetry_packet_header, packet_header,
  format_raw10_le40, format_gray16, format_telemetry,
}

pub record Header : Type 0 where
  pub magic : List ℕ
  pub version : ℕ
  pub header_bytes : ℕ
  pub status : ℕ
  pub format : ℕ
  pub sequence : ℕ
  pub timestamp : ℕ
  pub sensor_x : ℕ
  pub sensor_y : ℕ
  pub width : ℕ
  pub height : ℕ
  pub stride : ℕ
  pub payload_bytes : ℕ
  pub depth : ℕ
  pub planes : ℕ

-- The little-endian word of n bytes at an offset.
abbrev word : ℕ → ℕ → List ℕ → ℕ
word offset n bytes = from_le_bytes (take n (drop offset bytes))

-- The table of the protocol.
unfoldable pub decode : List ℕ → Header
decode bytes = record {
  magic = take 4 bytes;
  version = word 0x04 2 bytes;
  header_bytes = word 0x06 2 bytes;
  status = word 0x08 4 bytes;
  format = word 0x0c 4 bytes;
  sequence = word 0x10 8 bytes;
  timestamp = word 0x18 8 bytes;
  sensor_x = word 0x20 4 bytes;
  sensor_y = word 0x24 4 bytes;
  width = word 0x28 4 bytes;
  height = word 0x2c 4 bytes;
  stride = word 0x30 4 bytes;
  payload_bytes = word 0x34 4 bytes;
  depth = word 0x38 4 bytes;
  planes = word 0x3c 4 bytes;
}

abbrev pub AllBelow : ℕ → List ℕ → Type 0
AllBelow bound [] = Unit {0}
AllBelow bound (x ∷ xs) = (x < bound) × AllBelow bound xs

-- A RAW10 packet header of words that fit has 64 bytes, and decodes to its arguments.
pub decode-packet_header :
    (status sequence timestamp x y width height stride payload settle : ℕ)
    → AllBelow (2 ^ 32) (status ∷ x ∷ y ∷ width ∷ height ∷ stride ∷ payload ∷ settle ∷ [])
    → AllBelow (2 ^ 64) (sequence ∷ timestamp ∷ [])
    → let header = packet_header status sequence timestamp x y width height stride payload settle in
      (length header ≡ 64)
      × (decode header ≡ record {
        magic = b'O' ∷ b'R' ∷ b'T' ∷ b'1' ∷ [];
        version = 1;
        header_bytes = 64;
        status = status;
        format = format_raw10_le40;
        sequence = sequence;
        timestamp = timestamp;
        sensor_x = x;
        sensor_y = y;
        width = width;
        height = height;
        stride = stride;
        payload_bytes = payload;
        depth = raw10_rg;
        planes = settle;
      })
unfolding packet_header decode
decode-packet_header status sequence timestamp x y width height stride payload settle h k = (
  refl,
  λ i. record {
    magic = b'O' ∷ b'R' ∷ b'T' ∷ b'1' ∷ [];
    version = 1;
    header_bytes = 64;
    status = u32_back status h.0 i;
    format = format_raw10_le40;
    sequence = u64_back sequence k.0 i;
    timestamp = u64_back timestamp k.1.0 i;
    sensor_x = u32_back x h.1.0 i;
    sensor_y = u32_back y h.1.1.0 i;
    width = u32_back width h.1.1.1.0 i;
    height = u32_back height h.1.1.1.1.0 i;
    stride = u32_back stride h.1.1.1.1.1.0 i;
    payload_bytes = u32_back payload h.1.1.1.1.1.1.0 i;
    depth = raw10_rg;
    planes = u32_back settle h.1.1.1.1.1.1.1.0 i;
  },
)

-- An eye packet header of words that fit has 64 bytes, and decodes to its arguments.
pub decode-eye_packet_header :
    (eye sequence timestamp x y width height stride payload : ℕ)
    → AllBelow (2 ^ 32) (eye ∷ x ∷ y ∷ width ∷ height ∷ stride ∷ payload ∷ [])
    → AllBelow (2 ^ 64) (sequence ∷ timestamp ∷ [])
    → let header = eye_packet_header eye sequence timestamp x y width height stride payload in
      (length header ≡ 64)
      × (decode header ≡ record {
        magic = b'O' ∷ b'R' ∷ b'E' ∷ b'1' ∷ [];
        version = 1;
        header_bytes = 64;
        status = eye;
        format = format_raw10_le40;
        sequence = sequence;
        timestamp = timestamp;
        sensor_x = x;
        sensor_y = y;
        width = width;
        height = height;
        stride = stride;
        payload_bytes = payload;
        depth = raw10_rg;
        planes = 1;
      })
unfolding eye_packet_header decode
decode-eye_packet_header eye sequence timestamp x y width height stride payload h k = (
  refl,
  λ i. record {
    magic = b'O' ∷ b'R' ∷ b'E' ∷ b'1' ∷ [];
    version = 1;
    header_bytes = 64;
    status = u32_back eye h.0 i;
    format = format_raw10_le40;
    sequence = u64_back sequence k.0 i;
    timestamp = u64_back timestamp k.1.0 i;
    sensor_x = u32_back x h.1.0 i;
    sensor_y = u32_back y h.1.1.0 i;
    width = u32_back width h.1.1.1.0 i;
    height = u32_back height h.1.1.1.1.0 i;
    stride = u32_back stride h.1.1.1.1.1.0 i;
    payload_bytes = u32_back payload h.1.1.1.1.1.1.0 i;
    depth = raw10_rg;
    planes = 1;
  },
)

-- A telemetry packet header of words that fit has 64 bytes, and decodes to its arguments, with the
-- payload as one row.
pub decode-telemetry_packet_header :
    (sequence timestamp payload : ℕ)
    → AllBelow (2 ^ 32) (payload ∷ [])
    → AllBelow (2 ^ 64) (sequence ∷ timestamp ∷ [])
    → let header = telemetry_packet_header sequence timestamp payload in
      (length header ≡ 64)
      × (decode header ≡ record {
        magic = b'O' ∷ b'T' ∷ b'M' ∷ b'1' ∷ [];
        version = 1;
        header_bytes = 64;
        status = 0;
        format = format_telemetry;
        sequence = sequence;
        timestamp = timestamp;
        sensor_x = 0;
        sensor_y = 0;
        width = payload;
        height = 1;
        stride = payload;
        payload_bytes = payload;
        depth = 8;
        planes = 1;
      })
unfolding telemetry_packet_header decode
decode-telemetry_packet_header sequence timestamp payload h k = (
  refl,
  λ i. record {
    magic = b'O' ∷ b'T' ∷ b'M' ∷ b'1' ∷ [];
    version = 1;
    header_bytes = 64;
    status = 0;
    format = format_telemetry;
    sequence = u64_back sequence k.0 i;
    timestamp = u64_back timestamp k.1.0 i;
    sensor_x = 0;
    sensor_y = 0;
    width = u32_back payload h.0 i;
    height = 1;
    stride = u32_back payload h.0 i;
    payload_bytes = u32_back payload h.0 i;
    depth = 8;
    planes = 1;
  },
)

-- A thumbnail packet header of words that fit has 64 bytes, and decodes to its arguments, with rows of
-- two bytes for each pixel, if such a row fits a word.
pub decode-thumbnail_packet_header :
    (status sequence timestamp x y width height payload settle : ℕ)
    → AllBelow (2 ^ 32) (status ∷ x ∷ y ∷ width ∷ height ∷ payload ∷ settle ∷ [])
    → AllBelow (2 ^ 64) (sequence ∷ timestamp ∷ [])
    → width * 2 < 2 ^ 32
    → let header =
        thumbnail_packet_header status sequence timestamp x y width height payload settle in
      (length header ≡ 64)
      × (decode header ≡ record {
        magic = b'O' ∷ b'T' ∷ b'H' ∷ b'1' ∷ [];
        version = 1;
        header_bytes = 64;
        status = status;
        format = format_gray16;
        sequence = sequence;
        timestamp = timestamp;
        sensor_x = x;
        sensor_y = y;
        width = width;
        height = height;
        stride = width * 2;
        payload_bytes = payload;
        depth = 16;
        planes = settle;
      })
unfolding thumbnail_packet_header decode
decode-thumbnail_packet_header status sequence timestamp x y width height payload settle h k d = (
  refl,
  λ i. record {
    magic = b'O' ∷ b'T' ∷ b'H' ∷ b'1' ∷ [];
    version = 1;
    header_bytes = 64;
    status = u32_back status h.0 i;
    format = format_gray16;
    sequence = u64_back sequence k.0 i;
    timestamp = u64_back timestamp k.1.0 i;
    sensor_x = u32_back x h.1.0 i;
    sensor_y = u32_back y h.1.1.0 i;
    width = u32_back width h.1.1.1.0 i;
    height = u32_back height h.1.1.1.1.0 i;
    stride = double_width d i;
    payload_bytes = u32_back payload h.1.1.1.1.1.0 i;
    depth = 16;
    planes = u32_back settle h.1.1.1.1.1.1.0 i;
  },
)
  where
    double_width : width * 2 < 2 ^ 32 → from_le_bytes (le_bytes 4 (as_u32 (width * 2))) ≡ width * 2
    double_width d = omega arith
