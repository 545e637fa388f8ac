-- ===== src/Edge/Gateway/Refinement.antt =====
-- The handlers of Software/edge-orchestrator/orchestrator_node.py against an abstract bounded queue:
-- what a request asks for does not depend on the node, and the queue takes all of it or nothing.
use auto_robotic_arms.Base.{
  ℕ, ◌+◌, ◌≤◌, ◌<◌, ◌≡◌, sym, ap, ◌∙◌, inl, inr, List, [], ◌∷◌, ◌++◌, append-nil, arith, leb,
  if◌then◌else◌, length, Bool-cases,
}
use auto_robotic_arms.Python.{envelope_violation, Result, ok, err, ◌>>=◌}
use auto_robotic_arms.Joints.{Angles}
use auto_robotic_arms.Floats.{Floats}
use auto_robotic_arms.Edge.Kinematics.{calculate_joint_angles}
use auto_robotic_arms.Edge.Trajectory.{Point, generate_joint_trajectory}
use auto_robotic_arms.Edge.Node.{Node}
use auto_robotic_arms.Edge.Gateway.{
  Reply, waypoint_accepted, trajectory_accepted, enqueue_pose, post_waypoint, post_cartesian,
  on_solved, on_trajectory, planner_of, plan_trajectory, post_trajectory,
}
use auto_robotic_arms.Edge.Gateway.Queue.{
  enqueue_pose-PoseOutcome, on_trajectory-outcome, on_trajectory-err,
}
use auto_robotic_arms.Edge.Gateway.Requests.{Request, waypoint, cartesian, trajectory, handle}

-- The poses of a result; none where it is an exception.
abbrev poses_of : Result (List Angles) → List Angles
poses_of (ok t) = t
poses_of (err e) = []

abbrev one_pose : Result Angles → Result (List Angles)
one_pose r = r >>= λ a. ok (a ∷ [])

-- The poses that a request asks for.
unfoldable pub requested : (f : Floats) → Request f → List Angles
requested f (waypoint a) = if waypoint_accepted a then a ∷ [] else []
requested f (cartesian p) = poses_of (one_pose (calculate_joint_angles f p.x p.y p.z))
requested f (trajectory step waypoints) =
    if trajectory_accepted f step waypoints
    then poses_of (planner_of f step >>= λ s. generate_joint_trajectory f s waypoints)
    else []

-- What a queue of at most 200 poses takes of an offer: all of it, or nothing.
unfoldable pub granted : List Angles → List Angles → List Angles
granted q t = if leb (length q + length t) 200 then t else []

granted-fits : (q t : List Angles) → length q + length t ≤ 200 → granted q t ≡ t
unfolding granted
granted-fits q t h = ground arith

granted-over : (q t : List Angles) → 200 < length q + length t → granted q t ≡ []
unfolding granted
granted-over q t h = ground arith

granted-nil : (q : List Angles) → granted q [] ≡ []
unfolding granted
granted-nil q = ground arith

-- The abstract step: the queue with what it takes, and nothing else changed.
abbrev pub offered : List Angles → Node → Node
offered t n = record n { waypoint_queue = n.waypoint_queue ++ granted n.waypoint_queue t }

offered-none : (t : List Angles) (n : Node) → granted n.waypoint_queue t ≡ [] → n ≡ offered t n
offered-none t n h = λ i. record n {
  waypoint_queue = (sym (append-nil n.waypoint_queue) ∙ ap (λ g. n.waypoint_queue ++ g) (sym h)) i;
}

offered-all :
    (t : List Angles) (n : Node)
    → granted n.waypoint_queue t ≡ t
    → record n { waypoint_queue = n.waypoint_queue ++ t } ≡ offered t n
offered-all t n h = λ i. record n { waypoint_queue = n.waypoint_queue ++ sym h i }

enqueue_pose-offered :
    (a : Angles) (reply : ℕ → Reply) (n : Node)
    → length n.waypoint_queue ≤ 200
    → (enqueue_pose a reply n).1 ≡ offered (a ∷ []) n
enqueue_pose-offered a reply n h = elim (enqueue_pose-PoseOutcome a reply n h) [
  | inl (full, _, same) ↦
      same ∙ offered-none (a ∷ []) n (granted-over n.waypoint_queue (a ∷ []) (omega arith))
  | inr (room, added, _) ↦
      added ∙ offered-all (a ∷ []) n (granted-fits n.waypoint_queue (a ∷ []) (omega arith))
]

on_solved-offered :
    (r : Result Angles) (n : Node)
    → length n.waypoint_queue ≤ 200
    → (on_solved r n).1 ≡ offered (poses_of (one_pose r)) n
on_solved-offered (ok a) n h = enqueue_pose-offered a _ n h
on_solved-offered (err envelope_violation) n h = offered-none [] n (granted-nil n.waypoint_queue)
on_solved-offered (err _) n h = offered-none [] n (granted-nil n.waypoint_queue)

module _ (f : Floats) where
  on_trajectory-offered :
      (r : Result (List Angles)) (n : Node)
      → length n.waypoint_queue ≤ 200
      → (on_trajectory r n).1 ≡ offered (poses_of r) n
  on_trajectory-offered (err e) n h =
      on_trajectory-err f e n ∙ offered-none [] n (granted-nil n.waypoint_queue)
  on_trajectory-offered (ok t) n h = elim (on_trajectory-outcome f t n h) [
    | inl (over, same) ↦ same ∙ offered-none t n (granted-over n.waypoint_queue t over)
    | inr (fits, extended) ↦ extended ∙ offered-all t n (granted-fits n.waypoint_queue t fits)
  ]

  plan_trajectory-offered :
      (planner : Result f.Float) (waypoints : List (Point f)) (n : Node)
      → length n.waypoint_queue ≤ 200
      → (plan_trajectory f planner waypoints n).1
        ≡ offered (poses_of (planner >>= λ s. generate_joint_trajectory f s waypoints)) n
  plan_trajectory-offered (err e) waypoints n h = offered-none [] n (granted-nil n.waypoint_queue)
  plan_trajectory-offered (ok s) waypoints n h =
      on_trajectory-offered (generate_joint_trajectory f s waypoints) n h

  -- Each handler is a refinement of one offer to an abstract queue, by what it leaves of the node:
  -- with at most 200 poses waiting, the poses that the request asks for are all added behind the
  -- others where 200 are not exceeded, else none of them is; nothing else of the node changes.
  pub handle_refines :
      (r : Request f) (n : Node)
      → length n.waypoint_queue ≤ 200
      → (handle f r n).1
        ≡ record n { waypoint_queue = n.waypoint_queue ++ granted n.waypoint_queue (requested f r) }
  unfolding handle requested post_waypoint post_cartesian post_trajectory
  handle_refines (waypoint a) n h = elim (Bool-cases (waypoint_accepted a)) [
    | inl accepted ↦ rw accepted (enqueue_pose-offered a _ n h)
    | inr refused ↦ rw refused (offered-none [] n (granted-nil n.waypoint_queue))
  ]
  handle_refines (cartesian p) n h = on_solved-offered (calculate_joint_angles f p.x p.y p.z) n h
  handle_refines (trajectory step waypoints) n h =
      elim (Bool-cases (trajectory_accepted f step waypoints)) [
        | inl accepted ↦ rw accepted (plan_trajectory-offered (planner_of f step) waypoints n h)
        | inr refused ↦ rw refused (offered-none [] n (granted-nil n.waypoint_queue))
      ]
