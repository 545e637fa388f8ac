-- ===== src/Firmware/Loop.antt =====
-- The super-loop of Hardware/firmware/src/main.cpp: the receive interrupt and the tasks A, B and C
-- over the ring, the parser, the watchdog and the actuators. An interrupt that comes elsewhere in a
-- round finds the ring as it is when the next drain begins. What the actuators do with a pose is
-- in Firmware/Actuator; Servos puts the two together.
pub mod Clamped
pub mod Smooth
pub mod DeadMan
pub mod Arrival
pub mod Feed
pub mod Receives
pub mod Stream
pub mod Servos
use auto_robotic_arms.Base.{
  ℕ, ◌+◌, ◌-◌, ◌%◌, Bool, true, false, not, ◌&&◌, ◌||◌, List, [], ◌∷◌, ◌++◌, Option, none, some,
  ltb, leb, ◌==◌, if◌then◌else◌,
}
use auto_robotic_arms.Firmware.{JointBytes, Mcu, packet_parser_init, task_b}
use auto_robotic_arms.Firmware.Ring.{
  CircularBuffer, circular_buffer_init, circular_buffer_write, circular_buffer_read,
}
use auto_robotic_arms.Firmware.Watchdog.{
  Watchdog, watchdog_init, watchdog_check, watchdog_reset, elapsed,
}

pub record Superloop : Type 0 where
  pub rx_buffer : CircularBuffer
  pub mcu : Mcu
  pub watchdog : Watchdog
  pub current_angles : JointBytes
  pub last_actuator_ms : ℕ

-- What goes out: `joint_actuator_write_all_cached`, `send_telemetry_ack`, and
-- `joint_actuator_write_all`.
pub data Output : Type 0 where
  held : Output
  answered : ℕ → Output
  moved : JointBytes → Output

abbrev pub centre : JointBytes
centre = record { j0 = 90; j1 = 90; j2 = 90 }

-- The globals, and `hardware_setup` without the servo driver; the memory of the ring may hold
-- anything.
abbrev pub hardware_setup : CircularBuffer → Superloop
hardware_setup memory = record {
  rx_buffer = circular_buffer_init memory;
  mcu = record {
    parser = packet_parser_init;
    is_in_safety_halt = false;
    consecutive_valid_frames = 0;
    target_angles = centre;
  };
  watchdog = watchdog_init 3000;
  current_angles = centre;
  last_actuator_ms = 0;
}

-- The receive interrupt, for each byte: a full ring drops it.
unfoldable pub usart_rx : List ℕ → CircularBuffer → CircularBuffer
usart_rx [] cb = cb
usart_rx (c ∷ bytes) cb = usart_rx bytes (circular_buffer_write c cb).1

abbrev pub halted : Mcu → Mcu
halted m =
    if m.is_in_safety_halt
    then m
    else record m { is_in_safety_halt = true; consecutive_valid_frames = 0 }

-- Task A, with `is_safe`.
unfoldable pub task_a : ℕ → Superloop → Bool × List Output × Superloop
task_a now s =
    let (is_safe, w) = watchdog_check now s.watchdog in
    if is_safe
    then (true, [], record s { watchdog = w })
    else (false, held ∷ [], record s { watchdog = w; mcu = halted s.mcu })

-- The answer to a byte; `watchdog_reset` is called where 'K' is sent, and nowhere else.
abbrev pub after_ack : Option ℕ → ℕ → Superloop → List Output × Superloop
after_ack none now s = ([], s)
after_ack (some a) now s = (
  answered a ∷ [],
  record s { watchdog = if a == b'K' then watchdog_reset now s.watchdog else s.watchdog },
)

abbrev pub feed : Option ℕ → ℕ → Superloop → List Output × Superloop
feed none now s = ([], s)
feed (some c) now s = let (ack, m) = task_b s.mcu c in after_ack ack now (record s { mcu = m })

-- Task B: at most one byte.
unfoldable pub drain : ℕ → Superloop → List Output × Superloop
drain now s =
    let (byte, rx) = circular_buffer_read s.rx_buffer in feed byte now (record s { rx_buffer = rx })

-- One joint's step. A step down never passes zero.
abbrev pub slew_byte : ℕ → ℕ → ℕ
slew_byte target current =
    if ltb current target
    then (current + (if leb 2 (target - current) then 2 else 1)) % 256
    else if ltb target current
    then current - (if leb 2 (current - target) then 2 else 1)
    else current

abbrev pub slew_pose : JointBytes → JointBytes → JointBytes
slew_pose target current = record {
  j0 = slew_byte target.j0 current.j0;
  j1 = slew_byte target.j1 current.j1;
  j2 = slew_byte target.j2 current.j2;
}

-- `physical_motion_required`
abbrev pub motion_required : JointBytes → JointBytes → Bool
motion_required target current =
    not (current.j0 == target.j0)
    || (not (current.j1 == target.j1) || not (current.j2 == target.j2))

abbrev pub actuate : Superloop → List Output × Superloop
actuate s =
    let next = slew_pose s.mcu.target_angles s.current_angles in
    if motion_required s.mcu.target_angles s.current_angles
    then (moved next ∷ [], record s { current_angles = next })
    else ([], s)

-- Task C, every 20 ms.
unfoldable pub task_c : ℕ → Bool → Superloop → List Output × Superloop
task_c now is_safe s =
    let s' = record s { last_actuator_ms = now } in
    if leb 20 (elapsed now s.last_actuator_ms)
    then (if is_safe then actuate s' else ([], s'))
    else ([], s)

-- A round of `while (1)`: the bytes that arrive before the drain, and `millis()` at the head, in
-- the watchdog's check and in its reset.
pub record Round : Type 0 where
  pub received : List ℕ
  pub current_ms : ℕ
  pub check_ms : ℕ
  pub reset_ms : ℕ

unfoldable pub loop_round : Round → Superloop → List Output × Superloop
loop_round r s =
    let (is_safe, holds, s1) = task_a r.check_ms s in
    let (answers, s2) =
      drain r.reset_ms (record s1 { rx_buffer = usart_rx r.received s1.rx_buffer }) in
    let (moves, s3) = task_c r.current_ms is_safe s2 in (holds ++ (answers ++ moves), s3)

unfoldable pub run : List Round → Superloop → List Output × Superloop
run [] s = ([], s)
run (r ∷ rs) s = let (out, s') = loop_round r s in let (more, s'') = run rs s' in (out ++ more, s'')
