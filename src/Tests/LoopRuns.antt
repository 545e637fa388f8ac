-- ===== src/Tests/LoopRuns.antt =====
-- A frame of the host through the super-loop of Hardware/firmware, round by round.
use auto_robotic_arms.Base.{
  ◌+◌, ◌*◌, ◌≤◌, ℕ, zero, suc, ◌≡◌, refl, subst, sym, true, false, List, Bool, ◌&&◌, [], ◌∷◌, ◌++◌,
  pos, length, arith,
}
use auto_robotic_arms.Wire.{hex02, hex_digit, xor_from, str_int, dec}
use auto_robotic_arms.Joints.{Angles, IsServo}
use auto_robotic_arms.Firmware.{
  packet_parser_init, task_b, acknowledge, packet_parser_process_byte, process_in, receive,
  check_packet, verify, extract_and_clamp_angles, strtok, c_string, match_command, store_angles,
  atoi, atoi_sign, hex_char_to_nibble,
}
use auto_robotic_arms.Wire.Digits.{is_digit}
use auto_robotic_arms.Firmware.Ring.{
  circular_buffer_init, circular_buffer_write, circular_buffer_read, circular_buffer_available,
}
use auto_robotic_arms.Firmware.Ring.Refinement.{contents, IsRing}
use auto_robotic_arms.Firmware.Watchdog.{Watchdog, watchdog_check, watchdog_reset}
use auto_robotic_arms.Firmware.Loop.{
  Superloop, hardware_setup, usart_rx, task_a, drain, task_c, Round, loop_round, run,
}
use auto_robotic_arms.Firmware.Loop.Arrival.{IsIdle}
use auto_robotic_arms.Firmware.Loop.Receives.{answers_of, received_of, Fits, left_over, IsHealthy}
use auto_robotic_arms.Firmware.Loop.Stream.{ahead, loop_receives}
use auto_robotic_arms.Host.Conductor.{frame, drive_payload, calculate_xor_checksum}
use auto_robotic_arms.Handshake.{as_bytes}
use auto_robotic_arms.Handshake.Arrival.{IsReady, Brings, frame_arrives}
use auto_robotic_arms.Handshake.Servos.{setup-IsReady, frame_reaches_servos}
use auto_robotic_arms.Firmware.Bus.Mock.{mock_bus}
use auto_robotic_arms.Firmware.Actuator.{power_up, init, degree_to_ticks}
use auto_robotic_arms.Firmware.Loop.Servos.{degrees_of, performs}
use auto_robotic_arms.Tests.ServoRuns.{blank, mock-IsChip, mock-IsReliable}
use auto_robotic_arms.Tests.FirmwareRuns.{memory, paced, length-paced}

abbrev started : Superloop
started = hardware_setup memory

abbrev goal : Angles
goal = record { base = pos 45; shoulder = pos 90; elbow = pos 135 }

goal-IsServo : IsServo goal
goal-IsServo = ground arith

-- One round with the frame of 18 bytes, then 17 without bytes.
abbrev frame_rounds : List Round
frame_rounds =
    record { received = frame (drive_payload goal); current_ms = 20; check_ms = 21; reset_ms = 22 }
    ∷ paced 17 20

frame_rounds-received : received_of frame_rounds ≡ frame (drive_payload goal)
unfolding frame drive_payload calculate_xor_checksum hex02 hex_digit xor_from str_int dec
frame_rounds-received = refl

frame_rounds-fit : Fits 0 frame_rounds
unfolding frame drive_payload calculate_xor_checksum hex02 hex_digit xor_from str_int dec
frame_rounds-fit = ground arith

frame_rounds-served : left_over 0 frame_rounds ≡ 0
unfolding frame drive_payload calculate_xor_checksum hex02 hex_digit xor_from str_int dec
frame_rounds-served = refl

abbrev healthy_checks : List Round → Superloop → Bool
healthy_checks [] s = true
healthy_checks (r ∷ rs) s =
    let rest = healthy_checks rs (loop_round r s).1 in
    (watchdog_check r.check_ms s.watchdog).0 && rest

healthy_checks-IsHealthy :
    (rs : List Round) (s : Superloop) → healthy_checks rs s ≡ true → IsHealthy rs s
healthy_checks-IsHealthy [] s h = tt
healthy_checks-IsHealthy (r ∷ rs) s h =
    (ground (arith, h), healthy_checks-IsHealthy rs (loop_round r s).1 (ground (arith, h)))

abbrev arrived : Superloop
arrived = (run frame_rounds started).1

abbrev fed_watchdog : Watchdog
fed_watchdog = record {
  timeout_ms = 3000;
  last_heartbeat_ms = 362;
  is_tripped = false;
  has_bootstrapped = true;
}

frame_rounds-run :
    (healthy_checks frame_rounds started ≡ true)
    × (arrived.watchdog ≡ fed_watchdog)
    × (arrived.last_actuator_ms ≡ 360)
unfolding run frame drive_payload calculate_xor_checksum hex02 hex_digit xor_from str_int dec
    loop_round task_a drain task_c usart_rx watchdog_check watchdog_reset circular_buffer_init
    circular_buffer_write circular_buffer_read packet_parser_init task_b acknowledge
    packet_parser_process_byte process_in check_packet verify extract_and_clamp_angles strtok
    c_string match_command store_angles atoi hex_char_to_nibble atoi_sign is_digit
frame_rounds-run = (refl, refl, refl)

frame_rounds-IsHealthy : IsHealthy frame_rounds started
frame_rounds-IsHealthy = healthy_checks-IsHealthy frame_rounds started frame_rounds-run.0

-- The ring after the setup.
started-IsRing : IsRing started.rx_buffer × (contents started.rx_buffer ≡ [])
unfolding circular_buffer_init contents circular_buffer_available
started-IsRing = (record { head = omega arith; tail = omega arith }, refl)

loop_receives_example :
    let (out, s') = run frame_rounds started in
    (receive started.mcu (contents started.rx_buffer ++ received_of frame_rounds)
      ≡ ahead (answers_of out) (receive s'.mcu (contents s'.rx_buffer)))
    × IsRing s'.rx_buffer
    × (length (contents s'.rx_buffer)
        ≡ left_over (length (contents started.rx_buffer)) frame_rounds)
loop_receives_example =
    loop_receives frame_rounds started started-IsRing.0
      (subst (λ q. Fits (length q) frame_rounds) (sym started-IsRing.1) frame_rounds-fit)
      frame_rounds-IsHealthy

started-IsReady : IsReady started
started-IsReady = setup-IsReady memory

frame_rounds-Brings : Brings (frame (drive_payload goal)) frame_rounds started
frame_rounds-Brings = record {
  same = frame_rounds-received;
  fits = frame_rounds-fit;
  served = frame_rounds-served;
  healthy = frame_rounds-IsHealthy;
}

-- The rounds after the frame, within the watchdog's three seconds.
paced_fed-IsIdle :
    (n t : ℕ) → 362 ≤ t + 21 → t + 20 * n + 1 ≤ 3362 → IsIdle fed_watchdog t (paced n t)
unfolding watchdog_check
paced_fed-IsIdle zero t from within = tt
paced_fed-IsIdle (suc n) t from within = (
  refl,
  omega (arith, within),
  ground (arith, from, within),
  paced_fed-IsIdle n (t + 20) (omega arith) (omega (arith, within)),
)

arrived-IsIdle : IsIdle arrived.watchdog arrived.last_actuator_ms (paced 100 360)
arrived-IsIdle =
    rw frame_rounds-run.1
      (rw frame_rounds-run.2 (paced_fed-IsIdle 100 360 (omega arith) (omega arith)))

frame_arrives_example :
    let (out, s') = run frame_rounds started in
    (answers_of out ≡ b'K' ∷ []) × ((run (paced 100 360) s').1.current_angles ≡ as_bytes goal)
frame_arrives_example =
    frame_arrives frame_rounds (paced 100 360) started goal started-IsReady goal-IsServo
      frame_rounds-Brings arrived-IsIdle (omega (arith, length-paced 100 360))

-- The mock bus of the driver, with its registers.
frame_reaches_servos_example :
    let out = (run (frame_rounds ++ paced 100 360) started).0 in
    let servos = performs mock_bus out (init mock_bus (power_up mock_bus blank)).1 in
    servos.device.memory (8 + 2 * 4) + 256 * servos.device.memory (9 + 2 * 4)
    ≡ degree_to_ticks 2 (degrees_of (as_bytes goal) 2)
frame_reaches_servos_example =
    frame_reaches_servos mock_bus (λ s. s.memory) mock-IsChip mock-IsReliable memory blank
      frame_rounds (paced 100 360) goal goal-IsServo frame_rounds-Brings arrived-IsIdle
      (omega (arith, length-paced 100 360)) 2 (omega arith)
