-- ===== src/Firmware/Frames.antt =====
-- The state machine over a whole frame: '@', a plain payload, '*', two bytes, a newline.
use auto_robotic_arms.Base.{
  ℕ, ◌+◌, ◌≤◌, ◌≡◌, refl, ap, ◌∙◌, true, false, List, [], ◌∷◌, ◌++◌, append_assoc, append-nil,
  arith, ltb, ◌==◌, length, length-append, All,
}
use auto_robotic_arms.Firmware.{
  ParseStatus, PacketParser, wait_for_start, accumulate_payload, process_in,
  packet_parser_process_byte, check_packet, Mcu, acknowledge, task_b, sent, receive,
}

-- A byte that the payload state takes as it is.
abbrev pub IsPlain : ℕ → Type 0
IsPlain c = ((c == b'*') ≡ false) × ((c == 10) ≡ false) × ((c == b'@') ≡ false)

-- The parser inside a payload, or behind it.
abbrev pub within : Mcu → List ℕ → Mcu
within m w = record m {
  parser = record {
    payload_buffer = w;
    checksum_buffer = [];
    state = accumulate_payload;
    parsed_angles = m.parser.parsed_angles;
  };
}

abbrev pub behind : Mcu → List ℕ → List ℕ → Mcu
behind m w check = record m {
  parser = record {
    payload_buffer = w;
    checksum_buffer = check;
    state = wait_for_start;
    parsed_angles = m.parser.parsed_angles;
  };
}

receive-payload :
    (m : Mcu) (w s rest : List ℕ)
    → All IsPlain s
    → length w + length s ≤ 31
    → receive (within m w) (s ++ rest) ≡ receive (within m (w ++ s)) rest
unfolding receive task_b packet_parser_process_byte process_in acknowledge
receive-payload m w [] rest h fits = rw (append-nil w)
receive-payload m w (c ∷ s) rest h fits =
    let room : ltb (length w) 31 ≡ true = ground arith in
    rw (h.0.0, h.0.1, h.0.2, room)
      (receive-payload m (w ++ c ∷ []) s rest h.1 (omega (arith, length-append {0} w (c ∷ [])))
        ∙ ap (λ b. receive (within m b) rest) (append_assoc w (c ∷ []) s))

-- The end of a frame: what the check says is acknowledged, and the parser waits for a start.
abbrev pub concluded : Mcu → ParseStatus × PacketParser → List ℕ × Mcu
concluded m (status, p) =
    let (ack, m') = acknowledge status (record m { parser = p }) in (sent ack [], m')

receive-tail :
    (m : Mcu) (w : List ℕ) (c0 c1 : ℕ)
    → receive (within m w) (b'*' ∷ c0 ∷ c1 ∷ 10 ∷ [])
      ≡ concluded m (check_packet (c0 ∷ c1 ∷ []) (behind m w (c0 ∷ c1 ∷ [])).parser)
unfolding receive task_b packet_parser_process_byte process_in acknowledge
receive-tail m w c0 c1 = refl

pub receive-frame :
    (m : Mcu) (w : List ℕ) (c0 c1 : ℕ)
    → m.parser.state ≡ wait_for_start
    → All IsPlain w
    → length w ≤ 31
    → receive m (b'@' ∷ (w ++ b'*' ∷ c0 ∷ c1 ∷ 10 ∷ []))
      ≡ concluded m (check_packet (c0 ∷ c1 ∷ []) (behind m w (c0 ∷ c1 ∷ [])).parser)
receive-frame m w c0 c1 waiting plain fits =
    begins
    ∙ receive-payload m [] w (b'*' ∷ c0 ∷ c1 ∷ 10 ∷ []) plain (omega arith)
    ∙ receive-tail m w c0 c1
  where
    begins :
        receive m (b'@' ∷ (w ++ b'*' ∷ c0 ∷ c1 ∷ 10 ∷ []))
        ≡ receive (within m []) (w ++ b'*' ∷ c0 ∷ c1 ∷ 10 ∷ [])
    begins = unfold receive task_b packet_parser_process_byte process_in acknowledge in rw waiting
