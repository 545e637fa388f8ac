-- ===== src/Edge/Gateway/Requests.antt =====
-- Any sequence of requests to the handlers of Software/edge-orchestrator/orchestrator_node.py.
use auto_robotic_arms.Base.{
  ℕ, ◌+◌, ◌≤◌, ◌≡◌, refl, sym, subst, inl, inr, true, List, [], ◌∷◌, ◌++◌, Option, arith, length,
  length-append, All, All-append, Bool-cases,
}
use auto_robotic_arms.Python.{envelope_violation, Result, ok, err}
use auto_robotic_arms.Joints.{Angles, IsServo}
use auto_robotic_arms.Floats.{Floats}
use auto_robotic_arms.Edge.Kinematics.{calculate_joint_angles}
use auto_robotic_arms.Edge.Kinematics.Range.{calculate_joint_angles-IsServo}
use auto_robotic_arms.Edge.Trajectory.{Point}
use auto_robotic_arms.Edge.Trajectory.Atomic.{generate-IsServo}
use auto_robotic_arms.Edge.Node.{Node}
use auto_robotic_arms.Edge.Gateway.{
  Reply, enqueued, solved, Handler, enqueue_pose, post_waypoint, waypoint_accepted, post_cartesian,
  post_trajectory, on_solved,
}
use auto_robotic_arms.Edge.Gateway.Queue.{enqueue_pose-PoseOutcome, post_trajectory_atomic}

-- The queue holds servo poses, as many as it may.
pub record IsQueue (q : List Angles) : Type 0 where
  pub bounded : length q ≤ 200
  pub servo : All IsServo q

-- The requests that reach the queue.
pub data Request (f : Floats) : Type 0 where
  waypoint : Angles → Request f
  cartesian : Point f → Request f
  trajectory : Option f.Float → List (Point f) → Request f

unfoldable pub handle : (f : Floats) → Request f → Handler
handle f (waypoint a) = post_waypoint a
handle f (cartesian p) = post_cartesian f p
handle f (trajectory step waypoints) = post_trajectory f step waypoints

unfoldable pub serve : (f : Floats) → List (Request f) → Node → Node
serve f [] n = n
serve f (r ∷ requests) n = serve f requests (handle f r n).1

module _ (f : Floats) where
  extended-IsQueue :
      (q t : List Angles) → IsQueue q → All IsServo t → length q + length t ≤ 200 → IsQueue (q ++ t)
  extended-IsQueue q t h servo room = record {
    bounded = omega (arith, length-append {0} q t);
    servo = All-append IsServo q t h.servo servo;
  }

  accepted-IsServo : (a : Angles) → waypoint_accepted a ≡ true → IsServo a
  unfolding waypoint_accepted
  accepted-IsServo a h = ground arith

  enqueue_pose-IsQueue :
      (a : Angles) (reply : ℕ → Reply) (n : Node)
      → IsServo a
      → IsQueue n.waypoint_queue
      → IsQueue (enqueue_pose a reply n).1.waypoint_queue
  enqueue_pose-IsQueue a reply n servo h = elim (enqueue_pose-PoseOutcome a reply n h.bounded) [
    | inl (_, _, same) ↦ subst (λ m. IsQueue m.waypoint_queue) (sym same) h
    | inr (room, added, _) ↦
        subst (λ m. IsQueue m.waypoint_queue) (sym added)
          (extended-IsQueue n.waypoint_queue (a ∷ []) h (servo, tt) (omega arith))
  ]

  on_solved-IsQueue :
      (r : Result Angles) (n : Node)
      → ((a : Angles) → r ≡ ok a → IsServo a)
      → IsQueue n.waypoint_queue
      → IsQueue (on_solved r n).1.waypoint_queue
  on_solved-IsQueue (ok a) n servo h = enqueue_pose-IsQueue a (solved a) n (servo a refl) h
  on_solved-IsQueue (err envelope_violation) n servo h = h
  on_solved-IsQueue (err _) n servo h = h

  pub handle-IsQueue :
      (r : Request f) (n : Node)
      → IsQueue n.waypoint_queue
      → IsQueue (handle f r n).1.waypoint_queue
  unfolding handle post_waypoint post_cartesian
  handle-IsQueue (waypoint a) n h = elim (Bool-cases (waypoint_accepted a)) [
    | inl accepted ↦ rw accepted (enqueue_pose-IsQueue a enqueued n (accepted-IsServo a accepted) h)
    | inr refused ↦ rw refused h
  ]
  handle-IsQueue (cartesian p) n h =
      on_solved-IsQueue (calculate_joint_angles f p.x p.y p.z) n
        (calculate_joint_angles-IsServo f p.x p.y p.z) h
  handle-IsQueue (trajectory step waypoints) n h =
      elim (post_trajectory_atomic f step waypoints n h.bounded) [
        | inl same ↦ subst (λ m. IsQueue m.waypoint_queue) (sym same) h
        | inr (s, t, _, generated, room, extended) ↦
            subst (λ m. IsQueue m.waypoint_queue) (sym extended)
              (extended-IsQueue n.waypoint_queue t h (generate-IsServo f s waypoints t generated)
                room)
      ]

  -- From a queue that does so, whatever requests arrive in whatever order, the queue holds at most
  -- 200 poses, and each of them is within the range of the servos.
  pub serve-IsQueue :
      (requests : List (Request f)) (n : Node)
      → IsQueue n.waypoint_queue
      → IsQueue (serve f requests n).waypoint_queue
  unfolding serve
  serve-IsQueue [] n h = h
  serve-IsQueue (r ∷ requests) n h = serve-IsQueue requests (handle f r n).1 (handle-IsQueue r n h)
