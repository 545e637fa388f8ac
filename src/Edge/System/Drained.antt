-- ===== src/Edge/System/Drained.antt =====
-- The daemon of Software/edge-orchestrator/orchestrator_node.py without new requests: the queue runs
-- empty, and the arm comes to the last waypoint.
use auto_robotic_arms.Base.{
  ◌+◌, ◌≤◌, ◌≡◌, refl, sym, subst, ap, ◌∙◌, List, [], ◌∷◌, arith, length, All,
}
use auto_robotic_arms.Joints.{Angles}
use auto_robotic_arms.Edge.Daemon.{Surroundings, Daemon, goes_on, round, rounds, and_then}
use auto_robotic_arms.Edge.Daemon.Rounds.{IsNode, round_is_safe}
use auto_robotic_arms.Edge.Daemon.Arrival.{Opens, round_steps, rounds_settle}
use auto_robotic_arms.Edge.Daemon.Overtaken.{taken-first}
use auto_robotic_arms.Edge.System.Fifo.{last_of}

-- The poses are servo poses, and `q` waits.
record Waits (q : List Angles) (d : Daemon) : Type 0 where
  poses : IsNode d.node
  waits : d.node.waypoint_queue ≡ q

same_daemon : (d d' : Daemon) → goes_on d ≡ goes_on d' → d ≡ d'
same_daemon d d' e = cc

-- A round takes the first waypoint for its target.
round-Waits :
    (w : Surroundings) (d : Daemon) (a : Angles) (q : List Angles)
    → Opens w
    → Waits (a ∷ q) d
    → (d' : Daemon) × (round w d ≡ goes_on d') × Waits q d' × (d'.node.target_joint_angles ≡ a)
round-Waits w d a q opens h =
    let first = taken-first a q d.node h.waits in
    let (d', e, same) = round_steps w d opens in
    let (d2, e2, safe, _) = round_is_safe w d h.poses in
    (
      d',
      e,
      record {
        poses = subst (λ x. IsNode x.node) (same_daemon d2 d' (sym e2 ∙ e)) safe;
        waits = same.queue ∙ ap (λ n. n.waypoint_queue) first;
      },
      same.target ∙ ap (λ n. n.target_joint_angles) first,
    )

drains :
    (q : List Angles) (ws : List Surroundings) (d : Daemon)
    → Waits q d
    → All Opens ws
    → length q + 90 ≤ length ws
    → (d' : Daemon) × (rounds ws d ≡ goes_on d')
      × (d'.node.last_known_angles ≡ last_of d.node.target_joint_angles q)
      × (d'.node.waypoint_queue ≡ [])
unfolding rounds
drains [] ws d h opens long = rounds_settle ws d h.waits h.poses.target h.poses.last opens long
drains (a ∷ q) [] d h opens long = absurd (omega arith)
drains (a ∷ q) (w ∷ ws) d h opens long =
    let (d1, e1, h1, aimed) = round-Waits w d a q opens.0 h in
    let (d2, e2, arrived, empty) = drains q ws d1 h1 opens.1 (omega arith) in
    (
      d2,
      ap (λ r. and_then r (λ x. rounds ws x)) e1 ∙ e2,
      arrived ∙ ap (λ t. last_of t q) aimed,
      empty,
    )

-- Without new requests, from servo poses, where every opening of the port that the daemon tries
-- succeeds: as many rounds as waypoints wait, and 90 more, empty the queue and bring the commanded
-- pose of every joint onto the last waypoint, or onto the target where none waits; further rounds
-- keep it there. This holds with a database manager or without and for all exchanges, also where
-- every round that moves a joint drops the port.
pub rounds_reach_last :
    (ws : List Surroundings) (d : Daemon)
    → IsNode d.node
    → All Opens ws
    → length d.node.waypoint_queue + 90 ≤ length ws
    → (d' : Daemon) × (rounds ws d ≡ goes_on d')
      × (d'.node.last_known_angles ≡ last_of d.node.target_joint_angles d.node.waypoint_queue)
      × (d'.node.waypoint_queue ≡ [])
rounds_reach_last ws d poses opens long =
    drains d.node.waypoint_queue ws d (record { poses = poses; waits = refl }) opens long
