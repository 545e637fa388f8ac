-- ===== src/Edge/Daemon/Overtaken.antt =====
-- Two rounds of the daemon over two waiting poses.
use auto_robotic_arms.Base.{◌≡◌, ◌≢◌, sym, subst, ap, ◌∙◌, List, ◌∷◌}
use auto_robotic_arms.Joints.{Angles}
use auto_robotic_arms.Edge.Node.{Node}
use auto_robotic_arms.Edge.Daemon.{
  Surroundings, Daemon, slew_angles, take_waypoint, popped, goes_on, round,
}
use auto_robotic_arms.Edge.Daemon.Slew.{slew_angles-steps, IsWithin}
use auto_robotic_arms.Edge.Daemon.Arrival.{Opens, round_steps}

pub taken-first :
    (a : Angles) (q : List Angles) (n : Node)
    → n.waypoint_queue ≡ a ∷ q
    → take_waypoint n ≡ record n { waypoint_queue = q; target_joint_angles = a }
unfolding take_waypoint
taken-first a q n e = ap (λ t. popped t n) e

-- The daemon takes a waypoint out at every round, whether or not the arm has come to the last one:
-- where two poses wait and the first is farther than two degrees away at some joint, the arm is
-- elsewhere when the second replaces it as the target, one round later, and the first is out of the
-- queue. This holds with a database manager or without, with the port held or not at the start, and
-- for all exchanges, as long as the opening of the port succeeds where a round opens it.
pub waypoint_overtaken :
    (w w' : Surroundings) (d : Daemon) (a b : Angles) (q : List Angles)
    → d.node.waypoint_queue ≡ a ∷ b ∷ q
    → ¬ IsWithin 2 a d.node.last_known_angles
    → Opens w
    → Opens w'
    → (d1 : Daemon) × (d2 : Daemon) × (round w d ≡ goes_on d1)
      × (d1.node.target_joint_angles ≡ a)
      × (d1.node.last_known_angles ≢ a)
      × (round w' d1 ≡ goes_on d2)
      × (d2.node.target_joint_angles ≡ b)
      × (d2.node.waypoint_queue ≡ q)
waypoint_overtaken w w' d a b q waits far opens opens' =
    let first = taken-first a (b ∷ q) d.node waits in
    let (d1, e1, same1) = round_steps w d opens in
    let waits1 : d1.node.waypoint_queue ≡ b ∷ q = same1.queue ∙ ap (λ n. n.waypoint_queue) first in
    let second = taken-first b q d1.node waits1 in
    let (d2, e2, same2) = round_steps w' d1 opens' in
    let at = same1.last ∙ ap (λ n. slew_angles n.target_joint_angles n.last_known_angles) first in
    (
      d1,
      d2,
      e1,
      same1.target ∙ ap (λ n. n.target_joint_angles) first,
      (λ here. far (
          subst (λ p. IsWithin 2 p d.node.last_known_angles) (sym at ∙ here)
            (slew_angles-steps a d.node.last_known_angles))),
      e2,
      same2.target ∙ ap (λ n. n.target_joint_angles) second,
      same2.queue ∙ ap (λ n. n.waypoint_queue) second,
    )
