-- ===== src/Handshake/Servos.antt =====
-- A frame of Hardware/host_app/src/conductor_host.py on its way from the serial line to the
-- registers of the servo chip, through all of Hardware/firmware.
use auto_robotic_arms.Base.{
  ℕ, ◌+◌, ◌*◌, ◌<◌, ◌≤◌, ◌≡◌, refl, ap, ◌∙◌, List, [], ◌∷◌, ◌++◌, length, arith,
}
use auto_robotic_arms.Joints.{Angles, IsServo}
use auto_robotic_arms.Firmware.{packet_parser_init}
use auto_robotic_arms.Firmware.Ring.{
  CircularBuffer, circular_buffer_init, circular_buffer_available,
}
use auto_robotic_arms.Firmware.Ring.Refinement.{contents}
use auto_robotic_arms.Firmware.Bus.{Bus}
use auto_robotic_arms.Firmware.Actuator.{power_up, init, degree_to_ticks}
use auto_robotic_arms.Firmware.Actuator.Chip.{IsChip}
use auto_robotic_arms.Firmware.Actuator.Reliable.{IsReliable}
use auto_robotic_arms.Firmware.Loop.{Superloop, hardware_setup, Round, loop_round, run}
use auto_robotic_arms.Firmware.Loop.Smooth.{setup-IsBoard}
use auto_robotic_arms.Firmware.Loop.Arrival.{IsIdle}
use auto_robotic_arms.Firmware.Loop.Servos.{degrees_of, performs, servos_follow}
use auto_robotic_arms.Host.Conductor.{frame, drive_payload}
use auto_robotic_arms.Handshake.{as_bytes}
use auto_robotic_arms.Handshake.Arrival.{IsReady, Brings, frame_arrives}

pub setup-IsReady : (memory : CircularBuffer) → IsReady (hardware_setup memory)
unfolding circular_buffer_init contents circular_buffer_available packet_parser_init
setup-IsReady memory = record {
  ring = record { head = omega arith; tail = omega arith };
  empty = refl;
  waiting = refl;
  moving = refl;
  board = setup-IsBoard memory;
}

run-state-append :
    (rs more : List Round) (s : Superloop) → (run (rs ++ more) s).1 ≡ (run more (run rs s).1).1
unfolding run
run-state-append [] more s = refl
run-state-append (r ∷ rs) more s = run-state-append rs more (loop_round r s).1

-- From the host to the servos: after power-up, on a bus that stores what is written and on which no
-- write fails, rounds that bring exactly the bytes of the frame of a servo pose, with never more
-- than 31 waiting, none left at the end and a healthy watchdog, and then 90 or more rounds without
-- bytes, at least 20 ms apart and with a healthy watchdog, leave the ticks of each of the pose's
-- angles in the off registers of its joint.
pub frame_reaches_servos :
    (bus : Bus) (register : bus.State → ℕ → ℕ)
    → IsChip bus register
    → IsReliable bus
    → (memory : CircularBuffer) (device : bus.State) (rs idle : List Round) (a : Angles) → IsServo a
    → Brings (frame (drive_payload a)) rs (hardware_setup memory)
    → let s' = (run rs (hardware_setup memory)).1 in
      IsIdle s'.watchdog s'.last_actuator_ms idle
      → 90 ≤ length idle
      → (j : ℕ) → j < 3
      → let out = (run (rs ++ idle) (hardware_setup memory)).0 in
        let servos = performs bus out (init bus (power_up bus device)).1 in
        register servos.device (8 + j * 4) + 256 * register servos.device (9 + j * 4)
        ≡ degree_to_ticks j (degrees_of (as_bytes a) j)
frame_reaches_servos bus register chip reliable memory device rs idle a servo brings quiet long j
      known =
    let s = hardware_setup memory in
    let (answers, pose) =
      frame_arrives rs idle s a (setup-IsReady memory) servo brings quiet long in
    let (ticks, low, high, mode, prescaler) =
      servos_follow bus register chip reliable (rs ++ idle) memory device j known in
    ticks
    ∙ ap (λ b. degree_to_ticks j (degrees_of b j))
        (ap (λ t. t.current_angles) (run-state-append rs idle s) ∙ pose)
