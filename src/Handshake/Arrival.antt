-- ===== src/Handshake/Arrival.antt =====
-- A frame of Hardware/host_app/src/conductor_host.py on its way through the ring, the parser, the
-- interlock and the slew of Hardware/firmware/src/main.cpp.
use auto_robotic_arms.Base.{
  ℕ, ◌≤◌, ◌≡◌, refl, sym, subst, ap, ◌∙◌, true, false, List, [], ◌∷◌, ◌++◌, length, append-nil,
  arith,
}
use auto_robotic_arms.Joints.{Angles, IsServo}
use auto_robotic_arms.Firmware.{Mcu, wait_for_start, receive, acknowledge}
use auto_robotic_arms.Firmware.Ring.{circular_buffer_is_empty}
use auto_robotic_arms.Firmware.Ring.Refinement.{contents, IsRing, tells}
use auto_robotic_arms.Firmware.Loop.{Superloop, Round, run}
use auto_robotic_arms.Firmware.Loop.Smooth.{IsBoard, run-Moves}
use auto_robotic_arms.Firmware.Loop.Arrival.{IsIdle, board_arrives}
use auto_robotic_arms.Firmware.Loop.Receives.{answers_of, received_of, Fits, left_over, IsHealthy}
use auto_robotic_arms.Firmware.Loop.Stream.{ahead, loop_receives}
use auto_robotic_arms.Host.Conductor.{frame, drive_payload}
use auto_robotic_arms.Handshake.{as_bytes}
use auto_robotic_arms.Handshake.Frames.{receive-drive}

-- A super-loop at rest: the ring is empty, the parser waits, the interlock is not tripped, and the
-- angles are in the servo range.
pub record IsReady (s : Superloop) : Type 0 where
  pub ring : IsRing s.rx_buffer
  pub empty : contents s.rx_buffer ≡ []
  pub waiting : s.mcu.parser.state ≡ wait_for_start
  pub moving : s.mcu.is_in_safety_halt ≡ false
  pub board : IsBoard s

-- Rounds that bring the bytes of one frame and end with an empty ring.
pub record Brings (bytes : List ℕ) (rs : List Round) (s : Superloop) : Type 0 where
  pub same : received_of rs ≡ bytes
  pub fits : Fits 0 rs
  pub served : left_over 0 rs ≡ 0
  pub healthy : IsHealthy rs s

nil_of_length : (xs : List ℕ) → length xs ≡ 0 → xs ≡ []
nil_of_length [] e = refl
nil_of_length (x ∷ xs) e = absurd (omega (arith, e))

-- After a stream that ends with an empty ring, the answers and the board are those of Task B.
record Settles (bytes : List ℕ) (rs : List Round) (s : Superloop) : Type 0 where
  answers : answers_of (run rs s).0 ≡ (receive s.mcu bytes).0
  mcu : (run rs s).1.mcu ≡ (receive s.mcu bytes).1
  empty : circular_buffer_is_empty (run rs s).1.rx_buffer ≡ true

Brings-Settles :
    (bytes : List ℕ) (rs : List Round) (s : Superloop)
    → IsRing s.rx_buffer
    → contents s.rx_buffer ≡ []
    → Brings bytes rs s
    → Settles bytes rs s
Brings-Settles bytes rs s ring empty b =
    let none_waits : length (contents s.rx_buffer) ≡ 0 = ap length empty in
    let (stream, sound, count) =
      loop_receives rs s ring (subst (λ n. Fits n rs) (sym none_waits) b.fits) b.healthy in
    let nothing =
      nil_of_length (contents (run rs s).1.rx_buffer)
        (count ∙ ap (λ n. left_over n rs) none_waits ∙ b.served) in
    let stream_of : receive s.mcu (contents s.rx_buffer ++ received_of rs) ≡ receive s.mcu bytes =
      ap (λ q. receive s.mcu (q ++ received_of rs)) empty ∙ ap (receive s.mcu) b.same in
    let whole : receive s.mcu bytes
        ≡ ahead (answers_of (run rs s).0) (receive (run rs s).1.mcu []) =
      sym stream_of
      ∙ stream
      ∙ ap (λ q. ahead (answers_of (run rs s).0) (receive (run rs s).1.mcu q)) nothing in
    let told = tells (run rs s).1.rx_buffer [] sound nothing in
    unfold receive in
    record {
      answers = sym (ap (λ t. t.0) whole ∙ append-nil (answers_of (run rs s).0));
      mcu = sym (ap (λ t. t.1) whole);
      empty = told.empty;
    }

-- The acknowledgement of a frame on a board that moves.
receive-live :
    (m : Mcu) (a : Angles)
    → m.parser.state ≡ wait_for_start
    → m.is_in_safety_halt ≡ false
    → IsServo a
    → ((receive m (frame (drive_payload a))).0 ≡ b'K' ∷ [])
      × ((receive m (frame (drive_payload a))).1.target_angles ≡ as_bytes a)
unfolding acknowledge
receive-live m a waiting moving servo = rw (receive-drive m a waiting servo, moving) (refl, refl)

-- A pose of the host arrives at the arm. The super-loop starts with an empty ring, the parser
-- waiting for a frame, the interlock not tripped and all angles in 0..180; rounds bring exactly the
-- bytes of the frame of a servo pose, with never more than 31 waiting, none left at the end and a
-- healthy watchdog. They answer 'K' and nothing else, and 90 or more rounds after them, without
-- bytes, at least 20 ms apart and with a healthy watchdog, leave every joint on that pose.
pub frame_arrives :
    (rs idle : List Round) (s : Superloop) (a : Angles)
    → IsReady s
    → IsServo a
    → Brings (frame (drive_payload a)) rs s
    → IsIdle (run rs s).1.watchdog (run rs s).1.last_actuator_ms idle
    → 90 ≤ length idle
    → let (out, s') = run rs s in
      (answers_of out ≡ b'K' ∷ []) × ((run idle s').1.current_angles ≡ as_bytes a)
frame_arrives rs idle s a ready servo brings quiet long =
    let settled = Brings-Settles (frame (drive_payload a)) rs s ready.ring ready.empty brings in
    let (acks, target) = receive-live s.mcu a ready.waiting ready.moving servo in
    let board = (run-Moves rs s ready.board).board in
    (
      settled.answers ∙ acks,
      board_arrives idle (run rs s).1 board.aimed.target board.current settled.empty quiet long
          ∙ ap (λ m. m.target_angles) settled.mcu
          ∙ target,
    )
