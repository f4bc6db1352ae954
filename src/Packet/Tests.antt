-- ===== src/Packet/Tests.antt =====
-- Headers of concrete packets.
use podbay_camera_firmware.Prelude.{◌≡◌, [], ◌∷◌, length, arith}
use podbay_camera_firmware.Config.{raw10_rg}
use podbay_camera_firmware.Packet.{eye_packet_header, format_raw10_le40}
use podbay_camera_firmware.Packet.Decode.{decode, decode-eye_packet_header}

decode-eye_packet_header_example :
    let header = eye_packet_header 2 7 99 160 840 256 256 320 81920 in
    (length header ≡ 64)
    × (decode header ≡ record {
      magic = b'O' ∷ b'R' ∷ b'E' ∷ b'1' ∷ [];
      version = 1;
      header_bytes = 64;
      status = 2;
      format = format_raw10_le40;
      sequence = 7;
      timestamp = 99;
      sensor_x = 160;
      sensor_y = 840;
      width = 256;
      height = 256;
      stride = 320;
      payload_bytes = 81920;
      depth = raw10_rg;
      planes = 1;
    })
decode-eye_packet_header_example =
    decode-eye_packet_header 2 7 99 160 840 256 256 320 81920 (omega arith) (omega arith)
