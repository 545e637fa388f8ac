-- ===== src/Handshake/Rearm.antt =====
-- The conductor of Hardware/host_app over the parser of Hardware/firmware, by the state of the
-- interlock.
use auto_robotic_arms.Base.{
  ℕ, ◌+◌, ◌≡◌, refl, ap, sym, subst, ◌∙◌, true, false, Option, some, arith, leb,
}
use auto_robotic_arms.Joints.{Angles, IsServo}
use auto_robotic_arms.Firmware.{acknowledge}
use auto_robotic_arms.Host.Conductor.{
  Conductor, Outcome, done, frame, drive_payload, write, read_ack, stamp, write_and_read,
  handle_safety_halt, on_ack, transmit_and_wait, decode_ack, then_run, rearmed,
}
use auto_robotic_arms.Host.Conductor.Exchange.{fits_ceiling, then_run-done}
use auto_robotic_arms.Handshake.{Board, board_link, as_bytes, IsLive, IsHalted}
use auto_robotic_arms.Handshake.Frames.{receive-drive}

abbrev Session : Type 0
Session = Conductor board_link

-- One frame and its answer, by what the interlock does with the frame.
abbrev Answers : ℕ → Session → (Board → Type 0) → Outcome (Option ℕ) × Session → Type 0
Answers c s After (ack, s') =
    (ack ≡ done (some c)) × After s'.device × (s'.last_valid_angles ≡ s.last_valid_angles)

module _ (s : Session) (a : Angles) (servo : IsServo a) where
  write_and_read-held :
      (k : ℕ)
      → IsHalted k s.device
      → leb 3 (k + 1) ≡ false
      → Answers b'H' s (IsHalted (k + 1)) (write_and_read board_link (frame (drive_payload a)) s)
  unfolding write_and_read write read_ack decode_ack acknowledge
  write_and_read-held k h early =
      rw (receive-drive s.device.mcu a h.waiting servo, h.quiet, h.halted, h.seen, early)
        (refl, record { waiting = refl; quiet = refl; halted = refl; seen = refl }, refl)

  abbrev Moving : Board → Type 0
  Moving b = IsLive b × (b.mcu.target_angles ≡ as_bytes a)

  write_and_read-released :
      IsHalted 2 s.device
      → Answers b'K' s Moving (write_and_read board_link (frame (drive_payload a)) s)
  unfolding write_and_read write read_ack decode_ack acknowledge
  write_and_read-released h =
      rw (receive-drive s.device.mcu a h.waiting servo, h.quiet, h.halted, h.seen)
        (refl, (record { waiting = refl; quiet = refl; moving = refl }, refl), refl)

  write_and_read-moved :
      IsLive s.device
      → Answers b'K' s Moving (write_and_read board_link (frame (drive_payload a)) s)
  unfolding write_and_read write read_ack decode_ack acknowledge
  write_and_read-moved h =
      rw (receive-drive s.device.mcu a h.waiting servo, h.quiet, h.moving)
        (refl, (record { waiting = refl; quiet = refl; moving = refl }, refl), refl)

module _ (clock : ℕ → ℕ) where
  -- The burst after one held frame: the second of its frames releases the interlock.
  handle_safety_halt-releases :
      (s : Session)
      → IsHalted 1 s.device
      → IsServo s.last_valid_angles
      → let (r, s') = handle_safety_halt board_link clock s in
        (r ≡ done tt)
        × (s'.last_valid_angles ≡ s.last_valid_angles)
        × (s'.device.mcu.target_angles ≡ as_bytes s.last_valid_angles)
        × IsLive s'.device
  unfolding stamp
  handle_safety_halt-releases s h servo =
      let pose = s.last_valid_angles in
      let again = write_and_read board_link (frame (drive_payload pose)) in
      let (ack1, held, same1) = write_and_read-held s pose servo 1 h refl in
      let s1 = (again s).1 in
      let (ack2, free, same2) = write_and_read-released s1 pose servo held in
      let s2 = (again s1).1 in
      let (ack3, moved, same3) = write_and_read-moved s2 pose servo free.0 in
      let ends = rearmed board_link clock in
      let returns : handle_safety_halt board_link clock s
          ≡ (done tt, stamp board_link clock (again s2).1) =
        unfold handle_safety_halt in
        then_run-done board_link again
          (λ _. then_run board_link again (λ _. then_run board_link again ends)) s _ ack1
        ∙ then_run-done board_link again (λ _. then_run board_link again ends) s1 _ ack2
        ∙ then_run-done board_link again ends s2 _ ack3 in
      rw returns (refl, same3 ∙ same2 ∙ same1, moved.1, moved.0)

  -- While the interlock is not tripped, the parser waits for a frame and no answer is unread,
  -- transmitting a pose in the servo range succeeds: the microcontroller's targets and the cached
  -- pose are that pose, and the line is ready again.
  pub transmit_moves_arm :
      (s : Session) (a : Angles)
      → IsLive s.device
      → IsServo a
      → let (r, s') = transmit_and_wait board_link clock a s in
        (r ≡ done true)
        × (s'.last_valid_angles ≡ a)
        × (s'.device.mcu.target_angles ≡ as_bytes a)
        × IsLive s'.device
  unfolding transmit_and_wait write read_ack stamp on_ack decode_ack acknowledge
  transmit_moves_arm s a live servo =
      rw
        (
          fits_ceiling a servo,
          receive-drive s.device.mcu a live.waiting servo,
          live.quiet,
          live.moving,
        )
        (refl, refl, refl, record { waiting = refl; quiet = refl; moving = refl })

  read_ack-held :
      (s : Session) (a : Angles)
      → IsHalted 0 s.device
      → IsServo a
      → Answers b'H' s (IsHalted 1) (
          read_ack board_link
            (stamp board_link clock (write board_link (frame (drive_payload a)) s).1))
  unfolding write_and_read write read_ack stamp
  read_ack-held s a h servo = write_and_read-held (stamp board_link clock s) a servo 0 h refl

  on_ack-released :
      (a : Angles) (s : Session)
      → (handle_safety_halt board_link clock s).0 ≡ done tt
      → on_ack board_link clock a (some b'H') s
        ≡ (done false, (handle_safety_halt board_link clock s).1)
  unfolding on_ack
  on_ack-released a s e = ground (arith, e)

  transmit-halted :
      (s : Session) (a : Angles)
      → IsServo a
      → let (ack, s1) =
          read_ack board_link
            (stamp board_link clock (write board_link (frame (drive_payload a)) s).1) in
        ack ≡ done (some b'H')
        → transmit_and_wait board_link clock a s ≡ on_ack board_link clock a (some b'H') s1
  unfolding transmit_and_wait write
  transmit-halted s a servo ack =
      rw (fits_ceiling a servo)
        (then_run-done board_link (read_ack board_link) (on_ack board_link clock a) _ _ ack)

  -- A servo pose is sent to a tripped board that has seen no valid frame since, waits for a frame
  -- and has no unread answer, with a servo pose cached. It is not taken, and the exchange that
  -- follows re-arms the board:
  -- the call returns False without exiting the process, the interlock is released, and the
  -- microcontroller's targets are the cached pose, which has not changed.
  pub transmit_rearms :
      (s : Session) (a : Angles)
      → IsHalted 0 s.device
      → IsServo a
      → IsServo s.last_valid_angles
      → let (r, s') = transmit_and_wait board_link clock a s in
        (r ≡ done false)
        × (s'.last_valid_angles ≡ s.last_valid_angles)
        × (s'.device.mcu.target_angles ≡ as_bytes s.last_valid_angles)
        × IsLive s'.device
  transmit_rearms s a h servo cached =
      let (ack, held, same) = read_ack-held s a h servo in
      let sent = stamp board_link clock (write board_link (frame (drive_payload a)) s).1 in
      let s1 = (read_ack board_link sent).1 in
      let (released, kept, targets, live) =
        handle_safety_halt-releases s1 held (subst IsServo (sym same) cached) in
      let returns : transmit_and_wait board_link clock a s
          ≡ (done false, (handle_safety_halt board_link clock s1).1) =
        transmit-halted s a servo ack ∙ on_ack-released a s1 released in
      rw returns (refl, kept ∙ same, targets ∙ ap as_bytes same, live)
