-- ===== src/Tests/FirmwareRuns.antt =====
-- The receive ring and the super-loop of Hardware/firmware at concrete runs.
use auto_robotic_arms.Base.{
  ◌+◌, ℕ, zero, suc, ap, ◌≡◌, refl, true, false, List, [], ◌∷◌, none, some, ◌==◌, length, All,
  arith,
}
use auto_robotic_arms.Firmware.{
  packet_parser_init, task_b, acknowledge, packet_parser_process_byte, process_in,
}
use auto_robotic_arms.Firmware.Ring.{
  CircularBuffer, circular_buffer_init, circular_buffer_write, circular_buffer_read,
  circular_buffer_is_empty, circular_buffer_is_full, circular_buffer_available,
}
use auto_robotic_arms.Firmware.Ring.Refinement.{
  Operation, write, read, wrote, gave, ring_step, queue_step, replies, ring_refines,
}
use auto_robotic_arms.Firmware.Watchdog.{watchdog_check}
use auto_robotic_arms.Firmware.Loop.{
  halted, Superloop, held, moved, centre, hardware_setup, usart_rx, task_a, drain, task_c, Round,
  loop_round, run,
}
use auto_robotic_arms.Firmware.Loop.Smooth.{poses, IsSmooth, firmware-IsSmooth}
use auto_robotic_arms.Firmware.Loop.Arrival.{IsIdle}
use auto_robotic_arms.Firmware.Loop.DeadMan.{NotK, dead_man_holds}

abbrev pub memory : CircularBuffer
memory = record { buffer = λ _. 255; head = 7; tail = 3 }

abbrev operations : List Operation
operations = write 65 ∷ read ∷ read ∷ write 66 ∷ []

replies_test :
    (replies ring_step operations (circular_buffer_init memory)).0
    ≡ wrote true ∷ gave (some 65) ∷ gave none ∷ wrote true ∷ []
unfolding replies circular_buffer_init circular_buffer_write circular_buffer_read
replies_test = refl

ring_refines_example :
    let (rs, left) = replies ring_step operations (circular_buffer_init memory) in
    let (expected, q) = replies queue_step operations [] in
    (rs ≡ expected)
    × (circular_buffer_is_empty left ≡ (length q == 0))
    × (circular_buffer_is_full left ≡ (length q == 31))
    × (circular_buffer_available left ≡ length q)
ring_refines_example = ring_refines operations memory

-- A board that is on its way to a target, and whose last heartbeat is over.
abbrev late_board : Superloop
late_board = record (hardware_setup memory) {
  watchdog = record {
    timeout_ms = 3000;
    last_heartbeat_ms = 1000;
    is_tripped = false;
    has_bootstrapped = true;
  };
  current_angles = record { j0 = 40; j1 = 90; j2 = 90 };
}

abbrev pub late_round : Round
late_round = record { received = b'@' ∷ []; current_ms = 5000; check_ms = 5000; reset_ms = 5000 }

-- In time, the same board moves.
moves_test :
    (loop_round (record late_round { check_ms = 2000 }) late_board).0
    ≡ moved (record { j0 = 42; j1 = 90; j2 = 90 }) ∷ []
unfolding loop_round task_a drain task_c usart_rx watchdog_check circular_buffer_init
    circular_buffer_write circular_buffer_read packet_parser_init task_b acknowledge
    packet_parser_process_byte process_in
moves_test = refl

-- Task C does not ask for the halt: a halted board whose watchdog's difference is small moves.
halted_moves_test :
    (loop_round
      (record late_round { check_ms = 2000 })
      (record late_board { mcu = halted late_board.mcu })).0
    ≡ moved (record { j0 = 42; j1 = 90; j2 = 90 }) ∷ []
unfolding loop_round task_a drain task_c usart_rx watchdog_check circular_buffer_init
    circular_buffer_write circular_buffer_read packet_parser_init task_b acknowledge
    packet_parser_process_byte process_in
halted_moves_test = refl

firmware-IsSmooth_example :
    IsSmooth centre (poses (run (late_round ∷ late_round ∷ []) (hardware_setup memory)).0)
firmware-IsSmooth_example = firmware-IsSmooth (late_round ∷ late_round ∷ []) memory

late_answers : (run (late_round ∷ []) late_board).0 ≡ held ∷ []
unfolding run loop_round task_a drain task_c usart_rx watchdog_check circular_buffer_init
    circular_buffer_write circular_buffer_read packet_parser_init task_b acknowledge
    packet_parser_process_byte process_in
late_answers = refl

late_NotK : All NotK (run (late_round ∷ []) late_board).0
late_NotK = rw late_answers ((λ e. cc), tt)

dead_man_holds_example :
    (poses (run (late_round ∷ []) late_board).0 ≡ [])
    × ((run (late_round ∷ []) late_board).1.current_angles ≡ late_board.current_angles)
    × ((run (late_round ∷ []) late_board).1.mcu.is_in_safety_halt ≡ true)
dead_man_holds_example = dead_man_holds late_round [] late_board refl (omega arith, tt) late_NotK

-- Silent rounds every 20 ms, on a board whose watchdog has not been started.
abbrev pub paced : ℕ → ℕ → List Round
paced zero t = []
paced (suc n) t =
    record { received = []; current_ms = t + 20; check_ms = t + 21; reset_ms = t + 22 }
    ∷ paced n (t + 20)

abbrev far_board : Superloop
far_board = record (hardware_setup memory) { current_angles = record { j0 = 0; j1 = 180; j2 = 91 } }

paced-IsIdle : (n t : ℕ) → IsIdle far_board.watchdog t (paced n t)
unfolding watchdog_check
paced-IsIdle zero t = tt
paced-IsIdle (suc n) t = (refl, omega arith, refl, paced-IsIdle n (t + 20))

pub length-paced : (n t : ℕ) → length (paced n t) ≡ n
length-paced zero t = refl
length-paced (suc n) t = ap suc (length-paced n (t + 20))

far_empty : circular_buffer_is_empty far_board.rx_buffer ≡ true
unfolding circular_buffer_is_empty circular_buffer_init
far_empty = refl
