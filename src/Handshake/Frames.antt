-- ===== src/Handshake/Frames.antt =====
-- A frame of the host reaches the microcontroller's angles.
use auto_robotic_arms.Base.{
  ℕ, ◌/◌, ◌%◌, ◌<◌, ◌≡◌, refl, ap, ◌∙◌, List, [], ◌∷◌, arith, All, All-imp,
}
use auto_robotic_arms.Wire.{hex02, hex_digit, xor_from}
use auto_robotic_arms.Wire.Xor.{xor_from-lt}
use auto_robotic_arms.Joints.{Angles, pos_part-le, IsServo}
use auto_robotic_arms.Firmware.{Mcu, success, wait_for_start, receive, check_packet, PacketParser}
use auto_robotic_arms.Firmware.Text.{hex02-nibbles}
use auto_robotic_arms.Firmware.Frames.{receive-frame, concluded, behind}
use auto_robotic_arms.Firmware.Accepts.{
  IsCommandByte, IsCommandByte-IsPlain, IsCommandByte-IsAscii, check_packet-drive,
}
use auto_robotic_arms.Host.Conductor.{frame, drive_payload, calculate_xor_checksum}
use auto_robotic_arms.Host.Conductor.Exchange.{
  str_int-IsPrint, drive_payload-bytes, length-drive_payload,
}
use auto_robotic_arms.Handshake.{as_bytes}

-- The parser after an accepted frame: at rest, with the frame's angles.
abbrev pub accepted : Mcu → Angles → Mcu
accepted m a = record m {
  parser = record {
    payload_buffer = drive_payload a;
    checksum_buffer = calculate_xor_checksum (drive_payload a);
    state = wait_for_start;
    parsed_angles = as_bytes a;
  };
}

drive_payload-passes :
    (a : Angles)
    → IsServo a
    → xor_from 0 (drive_payload a) < 256
    → (p : PacketParser) → p.payload_buffer ≡ drive_payload a
    → check_packet (hex02 (xor_from 0 (drive_payload a))) p
      ≡ (success, record p { parsed_angles = as_bytes a })
unfolding drive_payload
drive_payload-passes a servo small p e =
    check_packet-drive (str_int-IsPrint a.base servo.base)
      (str_int-IsPrint a.shoulder servo.shoulder) (str_int-IsPrint a.elbow servo.elbow) p e
      (pos_part-le a.base servo.base) (pos_part-le a.shoulder servo.shoulder)
      (pos_part-le a.elbow servo.elbow) small

pub receive-drive :
    (m : Mcu) (a : Angles)
    → m.parser.state ≡ wait_for_start
    → IsServo a
    → receive m (frame (drive_payload a)) ≡ concluded m (success, (accepted m a).parser)
receive-drive m a waiting servo = whole
  where
    w : List ℕ
    w = drive_payload a

    x : ℕ
    x = xor_from 0 w

    bytes : All IsCommandByte w
    bytes = drive_payload-bytes a servo

    small : x < 256
    small = xor_from-lt 0 w (omega arith) (All-imp IsCommandByte-IsAscii w bytes)

    passed :
        (check : List ℕ)
        → check_packet (hex02 x) (behind m w check).parser
          ≡ (success, record (behind m w check).parser { parsed_angles = as_bytes a })
    passed check = drive_payload-passes a servo small (behind m w check).parser refl

    whole : receive m (frame w) ≡ concluded m (success, (accepted m a).parser)
    whole =
        unfold frame calculate_xor_checksum in
        rw (hex02-nibbles x small) (
          receive-frame m w (hex_digit (x / 16)) (hex_digit (x % 16)) waiting
            (All-imp IsCommandByte-IsPlain w bytes) (omega (arith, length-drive_payload a servo))
          ∙ ap (concluded m) (
              rw (hex02-nibbles x small) at
                (passed (hex_digit (x / 16) ∷ hex_digit (x % 16) ∷ []))))
