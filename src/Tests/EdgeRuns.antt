-- ===== src/Tests/EdgeRuns.antt =====
-- The edge node of Software/edge-orchestrator at concrete inputs.
use auto_robotic_arms.Base.{
  ℕ, zero, suc, ◌+ℤ◌, ◌-ℤ◌, ◌<◌, ◌≡◌, refl, ap, ◌⊎◌, ◌↔◌, true, false, List, [], ◌∷◌, some, arith,
  length, All, ℤ, pos, negsuc, ltb_ℤ,
}
use auto_robotic_arms.Python.{Exception, envelope_violation, attribute_error, ok, err}
use auto_robotic_arms.Joints.{Angles, IsServo, centred}
use auto_robotic_arms.Firmware.{receive, packet_parser_init}
use auto_robotic_arms.Handshake.{fresh_board}
use auto_robotic_arms.Tests.Numbers.{whole_numbers}
use auto_robotic_arms.Edge.Kinematics.{
  calculate_joint_angles, reach, elbow_pitch, out_of_envelope, servo_angles, clamp_angle,
}
use auto_robotic_arms.Edge.Kinematics.Range.{calculate_joint_angles-IsServo, violation_iff}
use auto_robotic_arms.Edge.Trajectory.{
  Point, plan_multi_waypoint_path, generate_joint_trajectory, extend_path,
  interpolate_linear_segment, segment_points,
}
use auto_robotic_arms.Edge.Trajectory.Atomic.{trajectory_atomic, Solves, FirstFailure}
use auto_robotic_arms.Edge.Frame.{build_option_a_frame}
use auto_robotic_arms.Edge.Frame.Parity.{IsCommand, frame_refused}
use auto_robotic_arms.Edge.Node.{Node, imported}
use auto_robotic_arms.Edge.Gateway.{http, raised, post_waypoint, waypoint_accepted}
use auto_robotic_arms.Edge.Gateway.Queue.{post_waypoint_outcome}
use auto_robotic_arms.Edge.Gateway.Requests.{
  IsQueue, Request, waypoint, cartesian, trajectory, serve, serve-IsQueue,
}
use auto_robotic_arms.Edge.Daemon.{
  Surroundings, Daemon, opened, line, goes_on, round, slew, drive_command,
}
use auto_robotic_arms.Edge.Daemon.Slew.{IsWithin}
use auto_robotic_arms.Edge.Daemon.Rounds.{IsNode, round_is_safe}
use auto_robotic_arms.Edge.Daemon.Arrival.{Opens}

abbrev pub pose : Angles
pose = record { base = pos 40; shoulder = pos 120; elbow = pos 175 }

centred-IsServo : IsServo centred
centred-IsServo = ground arith

pub pose-IsServo : IsServo pose
pose-IsServo = ground arith

-- The node with a pose waiting.
abbrev pub waiting_node : Node
waiting_node = record imported { waypoint_queue = pose ∷ [] }

abbrev pub managed_node : Node
managed_node = record waiting_node { db_manager = true }

abbrev pub acknowledged : Surroundings
acknowledged = record { opening = opened; now = 5_000_000; exchange = line (b'K' ∷ []) }

abbrev pub connected : Node → Daemon
connected n = record { node = n; ser = true }

slew_test : slew (pos 40) (pos 90) ≡ pos 88
unfolding slew ◌+ℤ◌ ◌-ℤ◌
slew_test = refl

solver_test :
    calculate_joint_angles whole_numbers (pos 20) (pos 0) (pos 0)
    ≡ ok (record { base = pos 90; shoulder = pos 0; elbow = pos 114 })
unfolding calculate_joint_angles reach out_of_envelope elbow_pitch servo_angles clamp_angle ◌+ℤ◌
    ◌-ℤ◌
solver_test = refl

violation_test :
    calculate_joint_angles whole_numbers (pos 30) (pos 0) (pos 0) ≡ err envelope_violation
unfolding calculate_joint_angles reach out_of_envelope elbow_pitch servo_angles clamp_angle ◌+ℤ◌
    ◌-ℤ◌
violation_test = refl

calculate_joint_angles-IsServo_example :
    IsServo (record { base = pos 90; shoulder = pos 0; elbow = pos 114 })
calculate_joint_angles-IsServo_example =
    calculate_joint_angles-IsServo whole_numbers (pos 20) (pos 0) (pos 0)
      (record { base = pos 90; shoulder = pos 0; elbow = pos 114 }) solver_test

violation_iff_example :
    (calculate_joint_angles whole_numbers (pos 30) (pos 0) (pos 0) ≡ err envelope_violation) ↔ (
      (r : ℤ) × (d2 : ℤ) × (d : ℤ) × (reach whole_numbers (pos 30) (pos 0) (pos 0) ≡ ok (r, d2, d))
      × ((ltb_ℤ (pos 21) d ≡ true) ⊎ (ltb_ℤ d (pos 2) ≡ true)))
violation_iff_example = violation_iff whole_numbers (pos 30) (pos 0) (pos 0)

whole_asym : (a b : ℤ) → ltb_ℤ a b ≡ true → ltb_ℤ b a ≡ false
whole_asym a b h = ground arith

whole_quotient : (a : ℤ) → (q : ℤ) × (whole_numbers.div a (pos 240) ≡ some q)
whole_quotient (pos a) = (_, refl)
whole_quotient (negsuc a) = (_, refl)

whole_acos :
    (c : ℤ)
    → ltb_ℤ c (negsuc 0) ≡ false
    → ltb_ℤ (pos 1) c ≡ false
    → (r : ℤ) × (whole_numbers.acos c ≡ some r)
whole_acos (pos zero) low high = (_, refl)
whole_acos (pos (suc zero)) low high = (_, refl)
whole_acos (pos (suc (suc n))) low high = absurd (ground arith)
whole_acos (negsuc zero) low high = (_, refl)
whole_acos (negsuc (suc n)) low high = absurd (ground arith)

abbrev at_reach : ℤ → Point whole_numbers
at_reach n = record { x = pos 0 +ℤ n; y = pos 0; z = pos 0 }

-- A straight line from 20 to 22 in steps of one: the last point is out of reach.
abbrev line_out : List (Point whole_numbers)
line_out = at_reach (pos 20) ∷ at_reach (pos 22) ∷ []

abbrev line_points : List (Point whole_numbers)
line_points = at_reach (pos 20) ∷ at_reach (pos 20) ∷ at_reach (pos 22) ∷ []

line_planned : plan_multi_waypoint_path whole_numbers (pos 1) line_out ≡ ok line_points
unfolding plan_multi_waypoint_path extend_path interpolate_linear_segment segment_points ◌+ℤ◌ ◌-ℤ◌
line_planned = refl

trajectory_atomic_example :
    ((t : List Angles) × (generate_joint_trajectory whole_numbers (pos 1) line_out ≡ ok t)
      × Solves whole_numbers line_points t
      × All IsServo t)
    ⊎ ((e : Exception) × (generate_joint_trajectory whole_numbers (pos 1) line_out ≡ err e)
        × FirstFailure whole_numbers line_points e)
trajectory_atomic_example =
    trajectory_atomic whole_numbers (pos 1) line_out line_points line_planned

drive-IsCommand : IsCommand drive_command
drive-IsCommand = ground arith

frame_refused_example :
    (bytes : List ℕ) × (build_option_a_frame drive_command pose ≡ ok bytes)
    × ((receive fresh_board.mcu bytes).0 ≡ b'E' ∷ [])
    × ((receive fresh_board.mcu bytes).1.target_angles ≡ fresh_board.mcu.target_angles)
    × ((receive fresh_board.mcu bytes).1.is_in_safety_halt ≡ fresh_board.mcu.is_in_safety_halt)
unfolding packet_parser_init
frame_refused_example = frame_refused drive_command pose drive-IsCommand fresh_board.mcu refl

pub pose_accepted : waypoint_accepted pose ≡ true
unfolding waypoint_accepted
pose_accepted = refl

post_waypoint_outcome_example :
    let (r, n') = post_waypoint pose managed_node in
    ((length managed_node.waypoint_queue ≡ 200) × (r ≡ http 503) × (n' ≡ managed_node))
    ⊎ ((1 < 200)
        × (n' ≡ record managed_node { waypoint_queue = pose ∷ pose ∷ [] })
        × (r ≡ raised attribute_error))
post_waypoint_outcome_example = post_waypoint_outcome pose managed_node pose_accepted (omega arith)

abbrev requests : List (Request whole_numbers)
requests = waypoint pose ∷ cartesian (at_reach (pos 20)) ∷ trajectory (some (pos 1)) line_out ∷ []

waiting-IsQueue : IsQueue waiting_node.waypoint_queue
waiting-IsQueue = record { bounded = omega arith; servo = (pose-IsServo, tt) }

serve-IsQueue_example : IsQueue (serve whole_numbers requests waiting_node).waypoint_queue
serve-IsQueue_example = serve-IsQueue whole_numbers requests waiting_node waiting-IsQueue

pub managed-IsNode : IsNode managed_node
managed-IsNode = record {
  queue = (pose-IsServo, tt);
  target = centred-IsServo;
  last = centred-IsServo;
}

waiting-IsNode : IsNode waiting_node
waiting-IsNode = record {
  queue = (pose-IsServo, tt);
  target = centred-IsServo;
  last = centred-IsServo;
}

round_is_safe_example :
    (d' : Daemon) × (round acknowledged (connected waiting_node) ≡ goes_on d')
    × IsNode d'.node
    × IsWithin 2 d'.node.last_known_angles centred
round_is_safe_example = round_is_safe acknowledged (connected waiting_node) waiting-IsNode

abbrev pub repeated : ℕ → List Surroundings
repeated zero = []
repeated (suc n) = acknowledged ∷ repeated n

pub repeated-Opens : (n : ℕ) → All Opens (repeated n)
repeated-Opens zero = tt
repeated-Opens (suc n) = (refl, repeated-Opens n)

pub length-repeated : (n : ℕ) → length (repeated n) ≡ n
length-repeated zero = refl
length-repeated (suc n) = ap suc (length-repeated n)
