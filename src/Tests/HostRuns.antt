-- ===== src/Tests/HostRuns.antt =====
-- The host application of Hardware/host_app against the board of Hardware/firmware, at concrete
-- inputs.
use auto_robotic_arms.Base.{ℕ, ◌*◌, ◌≡◌, refl, ◌+ℤ◌, ◌-ℤ◌, true, false, [], arith, pos}
use auto_robotic_arms.Python.{envelope_violation, err}
use auto_robotic_arms.Joints.{Angles, IsServo, centred}
use auto_robotic_arms.Firmware.{packet_parser_init}
use auto_robotic_arms.Handshake.{Board, board_link, IsLive, IsHalted, fresh_board}
use auto_robotic_arms.Handshake.Rearm.{transmit_moves_arm, transmit_rearms}
use auto_robotic_arms.Host.Kinematics.{calculate_joint_angles, reach, out_of_envelope}
use auto_robotic_arms.Edge.Kinematics.{calculate_joint_angles as edge_angles}
use auto_robotic_arms.Host.Conductor.{Conductor, done, transmit_and_wait}
use auto_robotic_arms.Solvers.{solvers_agree}
use auto_robotic_arms.Tests.Numbers.{whole_numbers}

abbrev pose : Angles
pose = record { base = pos 40; shoulder = pos 120; elbow = pos 175 }

pose-IsServo : IsServo pose
pose-IsServo = ground arith

centred-IsServo : IsServo centred
centred-IsServo = ground arith

-- A clock that advances three seconds at every read.
abbrev slow_clock : ℕ → ℕ
slow_clock n = 3_000_000 * n

abbrev session : Board → Conductor board_link
session b = record {
  last_valid_angles = centred;
  last_tx_time = 0;
  device = b;
  clock_reads = 1;
  written = [];
}

abbrev tripped_board : Board
tripped_board = record {
  mcu = record {
    parser = packet_parser_init;
    is_in_safety_halt = true;
    consecutive_valid_frames = 0;
    target_angles = record { j0 = 90; j1 = 90; j2 = 90 };
  };
  answers = [];
}

fresh-IsLive : IsLive fresh_board
unfolding packet_parser_init
fresh-IsLive = record { waiting = refl; quiet = refl; moving = refl }

tripped-IsHalted : IsHalted 0 tripped_board
unfolding packet_parser_init
tripped-IsHalted = record { waiting = refl; quiet = refl; halted = refl; seen = refl }

transmit_moves_arm_example :
    let (r, s') = transmit_and_wait board_link slow_clock pose (session fresh_board) in
    (r ≡ done true)
    × (s'.last_valid_angles ≡ pose)
    × (s'.device.mcu.target_angles ≡ record { j0 = 40; j1 = 120; j2 = 175 })
    × IsLive s'.device
transmit_moves_arm_example =
    transmit_moves_arm slow_clock (session fresh_board) pose fresh-IsLive pose-IsServo

transmit_rearms_example :
    let (r, s') = transmit_and_wait board_link slow_clock pose (session tripped_board) in
    (r ≡ done false)
    × (s'.last_valid_angles ≡ centred)
    × (s'.device.mcu.target_angles ≡ record { j0 = 90; j1 = 90; j2 = 90 })
    × IsLive s'.device
transmit_rearms_example =
    transmit_rearms slow_clock (session tripped_board) pose tripped-IsHalted pose-IsServo
      centred-IsServo

beyond_reach :
    calculate_joint_angles whole_numbers (pos 30) (pos 0) (pos 0) ≡ err envelope_violation
unfolding calculate_joint_angles reach out_of_envelope ◌+ℤ◌ ◌-ℤ◌
beyond_reach = refl

solvers_agree_example :
    calculate_joint_angles whole_numbers (pos 15) (pos 5) (pos 2)
    ≡ edge_angles whole_numbers (pos 15) (pos 5) (pos 2)
solvers_agree_example = solvers_agree whole_numbers refl refl (pos 15) (pos 5) (pos 2)
