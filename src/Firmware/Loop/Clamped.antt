-- ===== src/Firmware/Loop/Clamped.antt =====
-- The angles of Hardware/firmware/src/packet_parser.cpp and Task B of
-- Hardware/firmware/src/main.cpp: clamped, whatever bytes come.
use auto_robotic_arms.Base.{ℕ, ◌≤◌, Bool, List, [], ◌∷◌, Option, none, some, arith, ℤ}
use auto_robotic_arms.Firmware.{
  ParseStatus, in_progress, success, error_format, error_checksum, ParserFsmState, wait_for_start,
  accumulate_payload, wait_for_checksum, wait_for_newline, PacketParser, JointBytes, clamp_to_byte,
  atoi, store_angles, match_command, extract_and_clamp_angles, strtok, c_string, verify,
  check_packet, hex_char_to_nibble, process_in, packet_parser_process_byte, Mcu, acknowledge,
  task_b,
}

pub record IsClamped (a : JointBytes) : Type 0 where
  pub j0 : a.j0 ≤ 180
  pub j1 : a.j1 ≤ 180
  pub j2 : a.j2 ≤ 180

clamp_to_byte-le : (a : ℤ) → clamp_to_byte a ≤ 180
clamp_to_byte-le a = ground arith

-- What a step of the parser leaves: the angles of a token list, of a parser, of the board.
record Stored (r : Bool × JointBytes) : Type 0 where
  angles : IsClamped r.1

record Parsed (r : ParseStatus × PacketParser) : Type 0 where
  angles : IsClamped r.1.parsed_angles

-- The parser's angles and the targets.
pub record IsAimed (m : Mcu) : Type 0 where
  pub parsed : IsClamped m.parser.parsed_angles
  pub target : IsClamped m.target_angles

record Answered (r : Option ℕ × Mcu) : Type 0 where
  aimed : IsAimed r.1

store_angles-Stored :
    (tokens : List (List ℕ)) (a : JointBytes) → IsClamped a → Stored (store_angles tokens a)
unfolding store_angles
store_angles-Stored [] a h = record { angles = h }
store_angles-Stored (t0 ∷ []) a h = record {
  angles = record { j0 = clamp_to_byte-le (atoi t0); j1 = h.j1; j2 = h.j2 };
}
store_angles-Stored (t0 ∷ t1 ∷ []) a h = record {
  angles = record { j0 = clamp_to_byte-le (atoi t0); j1 = clamp_to_byte-le (atoi t1); j2 = h.j2 };
}
store_angles-Stored (t0 ∷ t1 ∷ t2 ∷ _) a h = record {
  angles = record {
    j0 = clamp_to_byte-le (atoi t0);
    j1 = clamp_to_byte-le (atoi t1);
    j2 = clamp_to_byte-le (atoi t2);
  };
}

match_command-Stored :
    (tokens : List (List ℕ)) (a : JointBytes) → IsClamped a → Stored (match_command tokens a)
unfolding match_command
match_command-Stored [] a h = record { angles = h }
match_command-Stored (command ∷ rest) a h =
    let stored = store_angles-Stored rest a h in ground arith

-- A parser with the angles of another one.
unchanged :
    (status : ParseStatus) (p : PacketParser) → IsClamped p.parsed_angles → Parsed (status, p)
unchanged status p h = record { angles = h }

extract-IsClamped :
    (p : PacketParser)
    → IsClamped p.parsed_angles
    → IsClamped (extract_and_clamp_angles p).1.parsed_angles
unfolding extract_and_clamp_angles
extract-IsClamped p h =
    (match_command-Stored (strtok [] (c_string p.payload_buffer)) p.parsed_angles h).angles

verify-Parsed :
    (high low : Option ℕ) (p : PacketParser)
    → IsClamped p.parsed_angles
    → Parsed (verify high low p)
unfolding verify
verify-Parsed (some high) (some low) p h = let extracted = extract-IsClamped p h in ground arith
verify-Parsed none low p h = unchanged error_checksum p h
verify-Parsed (some high) none p h = unchanged error_checksum p h

check_packet-Parsed :
    (buffer : List ℕ) (p : PacketParser)
    → IsClamped p.parsed_angles
    → Parsed (check_packet buffer p)
unfolding check_packet
check_packet-Parsed [] p h = unchanged error_checksum p h
check_packet-Parsed (c0 ∷ []) p h = unchanged error_checksum p h
check_packet-Parsed (c0 ∷ c1 ∷ _) p h =
    verify-Parsed (hex_char_to_nibble c0) (hex_char_to_nibble c1) p h

process_in-Parsed :
    (state : ParserFsmState) (p : PacketParser) (c : ℕ)
    → IsClamped p.parsed_angles
    → Parsed (process_in state p c)
unfolding process_in
process_in-Parsed wait_for_start p c h = ground arith
process_in-Parsed accumulate_payload p c h = ground arith
process_in-Parsed wait_for_checksum p c h = unchanged in_progress _ h
process_in-Parsed wait_for_newline p c h =
    let checked = check_packet-Parsed p.checksum_buffer (record p { state = wait_for_start }) h in
    ground arith

answers_with :
    (a : Option ℕ) (m : Mcu)
    → IsClamped m.parser.parsed_angles
    → IsClamped m.target_angles
    → Answered (a, m)
answers_with a m parsed target = record { aimed = record { parsed = parsed; target = target } }

acknowledge-Answered :
    (status : ParseStatus) (m : Mcu) → IsAimed m → Answered (acknowledge status m)
unfolding acknowledge
acknowledge-Answered in_progress m h = answers_with none m h.parsed h.target
acknowledge-Answered success m h = ground arith
acknowledge-Answered error_format m h = answers_with (some b'E') _ h.parsed h.target
acknowledge-Answered error_checksum m h = answers_with (some b'E') _ h.parsed h.target

pub task_b-IsAimed : (m : Mcu) (c : ℕ) → IsAimed m → IsAimed (task_b m c).1
unfolding task_b packet_parser_process_byte
task_b-IsAimed m c h =
    let parsed = process_in-Parsed m.parser.state m.parser c h.parsed in
    (acknowledge-Answered (packet_parser_process_byte m.parser c).0 _
      (record { parsed = parsed.angles; target = h.target })).aimed
