-- ===== src/Firmware.antt =====
-- The microcontroller's side of the serial link: the frame parser
-- (Hardware/firmware/src/packet_parser.cpp) and the part of the super-loop that feeds it and
-- answers one byte (Hardware/firmware/src/main.cpp, Task B).
pub mod Ring
pub mod Watchdog
pub mod Bus
pub mod Actuator
pub mod Loop
pub mod Text
pub mod Frames
pub mod Accepts
use auto_robotic_arms.Base.{
  ℕ, zero, suc, ◌+◌, ◌-◌, ◌*◌, text_eq, Bool, true, false, ◌&&◌, ◌||◌, List, [], ◌∷◌, ◌++◌, Option,
  none, some, ltb, leb, ◌==◌, if◌then◌else◌, length, ℤ, pos, negsuc, ltb_ℤ, pos_part,
}
use auto_robotic_arms.Wire.{xor_from}
use auto_robotic_arms.Wire.Digits.{is_digit}

pub data ParseStatus : Type 0 where
  in_progress success error_format error_checksum : ParseStatus

pub data ParserFsmState : Type 0 where
  wait_for_start accumulate_payload wait_for_checksum wait_for_newline : ParserFsmState

-- `parsed_angles`, three bytes
pub record JointBytes : Type 0 where
  pub j0 : ℕ
  pub j1 : ℕ
  pub j2 : ℕ

-- The buffers hold what stands below their indices: an index is the length of its buffer.
pub record PacketParser : Type 0 where
  pub payload_buffer : List ℕ
  pub checksum_buffer : List ℕ
  pub state : ParserFsmState
  pub parsed_angles : JointBytes

abbrev pub max_packet_length : ℕ
max_packet_length = 32

unfoldable pub packet_parser_init : PacketParser
packet_parser_init = record {
  payload_buffer = [];
  checksum_buffer = [];
  state = wait_for_start;
  parsed_angles = record { j0 = 90; j1 = 90; j2 = 90 };
}

-- `none` is the 0xFF of the source.
unfoldable pub hex_char_to_nibble : ℕ → Option ℕ
hex_char_to_nibble c =
    if leb b'0' c && leb c b'9'
    then some (c - b'0')
    else if leb b'A' c && leb c b'F'
    then some (c - b'A' + 10)
    else if leb b'a' c && leb c b'f'
    then some (c - b'a' + 10)
    else none

-- The bytes up to the terminator, as the string functions of C read a buffer.
unfoldable pub c_string : List ℕ → List ℕ
c_string [] = []
c_string (c ∷ s) = if c == 0 then [] else c ∷ c_string s

abbrev token_or_skip : List ℕ → List (List ℕ) → List (List ℕ)
token_or_skip [] tokens = tokens
token_or_skip (c ∷ s) tokens = (c ∷ s) ∷ tokens

-- The tokens that successive calls of `strtok` with "," return: empty ones are skipped.
unfoldable pub strtok : List ℕ → List ℕ → List (List ℕ)
strtok token [] = token_or_skip token []
strtok token (c ∷ s) =
    let cut = token_or_skip token (strtok [] s) in
    let longer = strtok (token ++ c ∷ []) s in if c == b',' then cut else longer

unfoldable pub digits_prefix : ℕ → List ℕ → ℕ
digits_prefix acc [] = acc
digits_prefix acc (c ∷ s) =
    let more = digits_prefix (acc * 10 + (c - 48)) s in if is_digit c then more else acc

abbrev is_space : ℕ → Bool
is_space c = c == 32 || (leb 9 c && leb c 13)

abbrev minus : ℕ → ℤ
minus zero = pos zero
minus (suc n) = negsuc n

unfoldable pub atoi_sign : List ℕ → ℤ
unfolding digits_prefix
atoi_sign [] = pos 0
atoi_sign (c ∷ s) =
    if c == b'-'
    then minus (digits_prefix 0 s)
    else if c == b'+'
    then pos (digits_prefix 0 s)
    else pos (digits_prefix 0 (c ∷ s))

-- `atoi`: blanks, a sign, digits.
unfoldable pub atoi : List ℕ → ℤ
atoi [] = pos 0
atoi (c ∷ s) = let skipped = atoi s in if is_space c then skipped else atoi_sign (c ∷ s)

abbrev pub clamp_to_byte : ℤ → ℕ
clamp_to_byte a =
    let low = if ltb_ℤ a (pos 0) then pos 0 else a in
    pos_part (if ltb_ℤ (pos 180) low then pos 180 else low)

abbrev pub drv : List ℕ
drv = b'D' ∷ b'R' ∷ b'V' ∷ []

-- The loop over the joints: an angle is stored as soon as its token is read.
unfoldable pub store_angles : List (List ℕ) → JointBytes → Bool × JointBytes
store_angles [] a = (false, a)
store_angles (t0 ∷ []) a = (false, record a { j0 = clamp_to_byte (atoi t0) })
store_angles (t0 ∷ t1 ∷ []) a =
    (false, record a { j0 = clamp_to_byte (atoi t0); j1 = clamp_to_byte (atoi t1) })
store_angles (t0 ∷ t1 ∷ t2 ∷ _) a = (
  true,
  record {
    j0 = clamp_to_byte (atoi t0);
    j1 = clamp_to_byte (atoi t1);
    j2 = clamp_to_byte (atoi t2);
  },
)

unfoldable pub match_command : List (List ℕ) → JointBytes → Bool × JointBytes
match_command [] a = (false, a)
match_command (command ∷ rest) a = if text_eq command drv then store_angles rest a else (false, a)

unfoldable pub extract_and_clamp_angles : PacketParser → Bool × PacketParser
extract_and_clamp_angles p =
    let (found, angles) = match_command (strtok [] (c_string p.payload_buffer)) p.parsed_angles in
    (found, record p { parsed_angles = angles })

-- The parity and the arguments, once both hexadecimal digits are decoded.
unfoldable pub verify : Option ℕ → Option ℕ → PacketParser → ParseStatus × PacketParser
verify (some high) (some low) p =
    if xor_from 0 p.payload_buffer == high * 16 + low
    then (let (found, p') = extract_and_clamp_angles p in
        if found then (success, p') else (error_format, p'))
    else (error_checksum, p)
verify _ _ p = (error_checksum, p)

-- `STATE_WAIT_FOR_NEWLINE` at '\n': parity first, then the arguments.
unfoldable pub check_packet : List ℕ → PacketParser → ParseStatus × PacketParser
unfolding verify
check_packet (c0 ∷ c1 ∷ _) p = verify (hex_char_to_nibble c0) (hex_char_to_nibble c1) p
check_packet _ p = (error_checksum, p)

-- One byte in one state; `packet_parser_process_byte` switches on the parser's own state.
unfoldable pub process_in : ParserFsmState → PacketParser → ℕ → ParseStatus × PacketParser
process_in wait_for_start p c =
    if c == b'@'
    then (
      in_progress,
      record p { payload_buffer = []; checksum_buffer = []; state = accumulate_payload },
    )
    else (in_progress, p)
process_in accumulate_payload p c =
    if c == b'*'
    then (in_progress, record p { checksum_buffer = []; state = wait_for_checksum })
    else if c == 10 || c == b'@'
    then (
      error_format,
      record p {
        state = if c == b'@' then accumulate_payload else wait_for_start;
        payload_buffer = [];
      },
    )
    else if ltb (length p.payload_buffer) (max_packet_length - 1)
    then (in_progress, record p { payload_buffer = p.payload_buffer ++ c ∷ [] })
    else (error_format, record p { state = wait_for_start })
process_in wait_for_checksum p c =
    let buffer = p.checksum_buffer ++ c ∷ [] in
    (
      in_progress,
      record p {
        checksum_buffer = buffer;
        state = if leb 2 (length buffer) then wait_for_newline else wait_for_checksum;
      },
    )
process_in wait_for_newline p c =
    if c == 10
    then check_packet p.checksum_buffer (record p { state = wait_for_start })
    else (error_format, record p { state = wait_for_start })

unfoldable pub packet_parser_process_byte : PacketParser → ℕ → ParseStatus × PacketParser
packet_parser_process_byte p c = process_in p.state p c

-- What Task B of the super-loop keeps.
pub record Mcu : Type 0 where
  pub parser : PacketParser
  pub is_in_safety_halt : Bool
  pub consecutive_valid_frames : ℕ
  pub target_angles : JointBytes

-- Task B on one parse status: the acknowledgement that it sends, if any.
unfoldable pub acknowledge : ParseStatus → Mcu → Option ℕ × Mcu
acknowledge in_progress m = (none, m)
acknowledge success m =
    if m.is_in_safety_halt
    then (if leb 3 (m.consecutive_valid_frames + 1)
        then (
          some b'K',
          record m {
            is_in_safety_halt = false;
            consecutive_valid_frames = 0;
            target_angles = m.parser.parsed_angles;
          },
        )
        else (some b'H', record m { consecutive_valid_frames = m.consecutive_valid_frames + 1 }))
    else (some b'K', record m { target_angles = m.parser.parsed_angles })
acknowledge error_format m = (some b'E', record m { consecutive_valid_frames = 0 })
acknowledge error_checksum m = (some b'E', record m { consecutive_valid_frames = 0 })

unfoldable pub task_b : Mcu → ℕ → Option ℕ × Mcu
task_b m c =
    let (status, p) = packet_parser_process_byte m.parser c in
    acknowledge status (record m { parser = p })

abbrev pub sent : Option ℕ → List ℕ → List ℕ
sent none acks = acks
sent (some a) acks = a ∷ acks

-- The bytes of the receive buffer, one by one, and the acknowledgements that they draw.
unfoldable pub receive : Mcu → List ℕ → List ℕ × Mcu
receive m [] = ([], m)
receive m (c ∷ s) =
    let (ack, m') = task_b m c in let (acks, m'') = receive m' s in (sent ack acks, m'')
