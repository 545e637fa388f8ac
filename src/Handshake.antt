-- ===== src/Handshake.antt =====
-- The host's conductor and the microcontroller on one serial line: frames of
-- Hardware/host_app/src/conductor_host.py through the parser of Hardware/firmware.
pub mod Frames
pub mod Rearm
pub mod Arrival
pub mod Servos
pub mod Scripts
use auto_robotic_arms.Base.{
  ℕ, Bool, true, false, List, [], ◌∷◌, ◌++◌, Option, none, some, ◌≡◌, pos_part,
}
use auto_robotic_arms.Joints.{Angles}
use auto_robotic_arms.Link.{Link}
use auto_robotic_arms.Firmware.{Mcu, JointBytes, wait_for_start, receive, packet_parser_init}

-- The board: its super-loop, and the acknowledgements that the host has not read yet.
pub record Board : Type 0 where
  pub mcu : Mcu
  pub answers : List ℕ

abbrev board_read : List ℕ → Board → Option ℕ × Board
board_read [] b = (none, b)
board_read (a ∷ rest) b = (some a, record b { answers = rest })

abbrev board_write : Board → List ℕ → Board
board_write b bytes =
    let (acks, m) = receive b.mcu bytes in record { mcu = m; answers = b.answers ++ acks }

abbrev pub board_link : Link
board_link = record {
  Device = Board;
  write = board_write;
  read = λ b. board_read b.answers b;
  write_raises = λ _ _. false;
  read_raises = λ _. false;
}

abbrev pub as_bytes : Angles → JointBytes
as_bytes a = record { j0 = pos_part a.base; j1 = pos_part a.shoulder; j2 = pos_part a.elbow }

-- Between frames, with every answer read: moving, or halted with `count` valid frames seen.
pub record IsLive (b : Board) : Type 0 where
  pub waiting : b.mcu.parser.state ≡ wait_for_start
  pub quiet : b.answers ≡ []
  pub moving : b.mcu.is_in_safety_halt ≡ false

pub record IsHalted (count : ℕ) (b : Board) : Type 0 where
  pub waiting : b.mcu.parser.state ≡ wait_for_start
  pub quiet : b.answers ≡ []
  pub halted : b.mcu.is_in_safety_halt ≡ true
  pub seen : b.mcu.consecutive_valid_frames ≡ count

-- After power-up.
abbrev pub fresh_board : Board
fresh_board = record {
  mcu = record {
    parser = packet_parser_init;
    is_in_safety_halt = false;
    consecutive_valid_frames = 0;
    target_angles = record { j0 = 90; j1 = 90; j2 = 90 };
  };
  answers = [];
}
