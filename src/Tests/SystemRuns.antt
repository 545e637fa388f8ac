-- ===== src/Tests/SystemRuns.antt =====
-- The two threads of Software/edge-orchestrator/orchestrator_node.py at concrete runs.
use auto_robotic_arms.Base.{◌≤◌, ◌≡◌, ◌≢◌, refl, true, false, [], ◌∷◌, ◌++◌, arith, length}
use auto_robotic_arms.Joints.{IsServo, centred}
use auto_robotic_arms.Tests.Numbers.{whole_numbers}
use auto_robotic_arms.Tests.EdgeRuns.{
  pose, waiting_node, acknowledged, connected, repeated, repeated-Opens, length-repeated,
  managed_node, managed-IsNode,
}
use auto_robotic_arms.Edge.Node.{Node, imported, deque_append}
use auto_robotic_arms.Edge.Gateway.{waypoint_accepted, post_waypoint, enqueue_pose}
use auto_robotic_arms.Edge.Gateway.Requests.{waypoint, handle}
use auto_robotic_arms.Edge.Gateway.Refinement.{requested, granted, handle_refines}
use auto_robotic_arms.Edge.Daemon.{
  Daemon, opened, goes_on, round, rounds, port_after, take_waypoint, after_take,
}
use auto_robotic_arms.Edge.Daemon.Slew.{IsWithin}
use auto_robotic_arms.Edge.Daemon.Overtaken.{waypoint_overtaken}
use auto_robotic_arms.Edge.System.{
  System, at_head, taken_out, dead, end_of, Reach, starts, serves, opens, takes, ends,
}
use auto_robotic_arms.Edge.System.Drained.{rounds_reach_last}
use auto_robotic_arms.Edge.System.Fifo.{last_of, system_fifo}

handle_refines_example :
    (handle whole_numbers (waypoint pose) waiting_node).1 ≡ record waiting_node {
      waypoint_queue =
          waiting_node.waypoint_queue
          ++ granted waiting_node.waypoint_queue (requested whole_numbers (waypoint pose));
    }
handle_refines_example = handle_refines whole_numbers (waypoint pose) waiting_node (omega arith)

one_granted : granted [] (requested whole_numbers (waypoint pose)) ≡ pose ∷ []
unfolding granted requested waypoint_accepted
one_granted = refl

-- A pose is posted, the port opens, and the daemon takes the pose and acts on it.
abbrev posted : System
posted = record {
  node = (handle whole_numbers (waypoint pose) imported).1;
  ser = false;
  stage = at_head;
}

abbrev holding : System
holding = record {
  node = (port_after opened posted.node).node;
  ser = (port_after opened posted.node).ser;
  stage = at_head;
}

abbrev aimed : System
aimed = record { node = take_waypoint holding.node; ser = holding.ser; stage = taken_out }

abbrev acted : System
acted = end_of (after_take acknowledged aimed.node) aimed

acted_reached :
    Reach whole_numbers
      ([] ++ granted [] (requested whole_numbers (waypoint pose)))
      (pose ∷ [])
      acted
unfolding port_after handle waypoint_accepted post_waypoint enqueue_pose deque_append
acted_reached =
    ends acknowledged refl
      (takes refl refl (opens opened refl refl (serves (waypoint pose) (starts false))))

system_fifo_example :
    ([] ++ granted [] (requested whole_numbers (waypoint pose))
      ≡ (pose ∷ []) ++ acted.node.waypoint_queue)
    × (acted.node.target_joint_angles ≡ last_of centred (pose ∷ []))
    × (length acted.node.waypoint_queue ≤ 200)
    × IsServo acted.node.target_joint_angles
    × IsServo acted.node.last_known_angles
    × (acted.stage ≢ dead)
system_fifo_example = system_fifo whole_numbers acted_reached

-- Two poses wait, the first far away, in a node with its manager.
abbrev pair_waiting : Node
pair_waiting = record imported { waypoint_queue = pose ∷ centred ∷ []; db_manager = true }

pose_is_far : ¬ IsWithin 2 pose centred
pose_is_far h = absurd (omega (arith, h.base))

waypoint_overtaken_example :
    (d1 : Daemon) × (d2 : Daemon) × (round acknowledged (connected pair_waiting) ≡ goes_on d1)
    × (d1.node.target_joint_angles ≡ pose)
    × (d1.node.last_known_angles ≢ pose)
    × (round acknowledged d1 ≡ goes_on d2)
    × (d2.node.target_joint_angles ≡ centred)
    × (d2.node.waypoint_queue ≡ [])
waypoint_overtaken_example =
    waypoint_overtaken acknowledged acknowledged (connected pair_waiting) pose centred [] refl
      pose_is_far refl refl

rounds_reach_last_example :
    (d' : Daemon) × (rounds (repeated 91) (connected managed_node) ≡ goes_on d')
    × (d'.node.last_known_angles ≡ last_of centred (pose ∷ []))
    × (d'.node.waypoint_queue ≡ [])
rounds_reach_last_example =
    rounds_reach_last (repeated 91) (connected managed_node) managed-IsNode (repeated-Opens 91)
      (omega (arith, length-repeated 91))
