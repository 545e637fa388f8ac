-- ===== src/Handshake/Scripts.antt =====
-- The bench scripts of Hardware/host_app and of Cloud/OldCode against the parser of
-- Hardware/firmware.
use auto_robotic_arms.Base.{ℕ, ◌≡◌, ◌≢◌, refl, true, List, [], ◌∷◌, some, append-nil}
use auto_robotic_arms.Joints.{Angles, IsServo, saturate, saturate-InRange, centred}
use auto_robotic_arms.Python.{
  envelope_violation, arithmetic_error, serial_error, value_error, attribute_error, type_error,
  unexpected_error, Result, ok, err, ok-ne-err,
}
use auto_robotic_arms.Firmware.{
  Mcu, acknowledge, wait_for_start, receive, task_b, packet_parser_process_byte, process_in,
}
use auto_robotic_arms.Host.Conductor.{frame, drive_payload, calculate_xor_checksum}
use auto_robotic_arms.Host.Scripts.{
  Port, send_frame, visit_all, try_block, warn, ping, sanity_check,
}
use auto_robotic_arms.Handshake.{Board, board_link, as_bytes, IsLive}
use auto_robotic_arms.Handshake.Frames.{receive-drive}

-- Angles in the range of the servos.
abbrev pub saturated : Angles → Angles
saturated a = record {
  base = saturate a.base;
  shoulder = saturate a.shoulder;
  elbow = saturate a.elbow;
}

saturated-IsServo : (a : Angles) → IsServo (saturated a)
saturated-IsServo a = record {
  base = saturate-InRange a.base;
  shoulder = saturate-InRange a.shoulder;
  elbow = saturate-InRange a.elbow;
}

-- A live board with these targets.
pub record Aims (a : Angles) (b : Board) : Type 0 where
  pub live : IsLive b
  pub target : b.mcu.target_angles ≡ as_bytes a

-- The script's frame is the conductor's, for whatever integers: on a board at rest `send_frame`
-- returns True, and the targets are the angles, limited to 0..180.
pub send_frame_moves :
    (a : Angles) (port : Port board_link)
    → IsLive port.device
    → let (answered, port') = send_frame board_link a port in
      (answered ≡ true) × Aims (saturated a) port'.device × (port'.closed ≡ port.closed)
unfolding send_frame acknowledge frame drive_payload calculate_xor_checksum
send_frame_moves a port live =
    rw
      (
        receive-drive port.device.mcu (saturated a) live.waiting (saturated-IsServo a),
        live.quiet,
        live.moving,
      )
      (
        refl,
        record { live = record { waiting = refl; quiet = refl; moving = refl }; target = refl },
        refl,
      )

-- The pose of the last target before the first one that has no solution.
abbrev pub last_solved : Angles → List (Result Angles) → Angles
last_solved a [] = a
last_solved a (ok b ∷ rest) = last_solved (saturated b) rest
last_solved a (err e ∷ rest) = a

-- What a part of the `try` block leaves.
record Reaches (a : Angles) (r : Result (Unit {0}) × Port board_link) : Type 0 where
  aims : Aims a r.1.device
  caught : r.0 ≢ err envelope_violation

visit_all-Reaches :
    (targets : List (Result Angles)) (a : Angles) (port : Port board_link)
    → Aims a port.device
    → Reaches (last_solved a targets) (visit_all board_link targets port)
unfolding visit_all
visit_all-Reaches [] a port h = record { aims = h; caught = ok-ne-err tt envelope_violation }
visit_all-Reaches (ok b ∷ rest) a port h =
    let (answered, aims, same) = send_frame_moves b port h.live in
    let r = visit_all-Reaches rest (saturated b) (send_frame board_link b port).1 aims in
    record { aims = r.aims; caught = r.caught }
visit_all-Reaches (err envelope_violation ∷ rest) a port h = record {
  aims = h;
  caught = ok-ne-err tt envelope_violation;
}
visit_all-Reaches (err arithmetic_error ∷ rest) a port h = record { aims = h; caught = λ e. cc }
visit_all-Reaches (err serial_error ∷ rest) a port h = record { aims = h; caught = λ e. cc }
visit_all-Reaches (err value_error ∷ rest) a port h = record { aims = h; caught = λ e. cc }
visit_all-Reaches (err attribute_error ∷ rest) a port h = record { aims = h; caught = λ e. cc }
visit_all-Reaches (err type_error ∷ rest) a port h = record { aims = h; caught = λ e. cc }
visit_all-Reaches (err unexpected_error ∷ rest) a port h = record { aims = h; caught = λ e. cc }

-- From a board at rest the bench script ends with the port closed and without a violation of the
-- envelope coming out of it. The board is at rest again, and its targets are the angles of the last
-- of the poses before the first one without a solution, limited to 0..180, or the home pose.
pub try_block_moves :
    (targets : List (Result Angles)) (port : Port board_link)
    → IsLive port.device
    → let (r, port') = try_block board_link targets port in
      (port'.closed ≡ true)
      × (r ≢ err envelope_violation)
      × IsLive port'.device
      × (port'.device.mcu.target_angles ≡ as_bytes (last_solved centred targets))
unfolding try_block
try_block_moves targets port live =
    let (answered, aims, same) = send_frame_moves centred port live in
    let homed : Aims centred (send_frame board_link centred port).1.device = aims in
    let r = visit_all-Reaches targets centred (send_frame board_link centred port).1 homed in
    (refl, r.caught, r.aims.live, r.aims.target)

ping_ignored : (m : Mcu) → m.parser.state ≡ wait_for_start → receive m ping ≡ ([], m)
unfolding receive task_b packet_parser_process_byte process_in acknowledge
ping_ignored m waiting = rw waiting refl

ping_kept : (b : Board) → IsLive b → board_link.write b ping ≡ b
ping_kept b live = rw (ping_ignored b.mcu live.waiting, append-nil b.answers) refl

-- The sanity check against the firmware: where a read line is empty while no answer is unread, a
-- board at rest draws the warning, and the check changes neither the parser nor the angles.
pub sanity_check_warns :
    (readline : Board → List ℕ × Board) (b : Board)
    → ((c : Board) → c.answers ≡ [] → readline c ≡ ([], c))
    → IsLive b
    → sanity_check board_link readline (some b) ≡ (warn, some b)
unfolding sanity_check
sanity_check_warns readline b silent live = rw (ping_kept b live, silent b live.quiet) refl
