-- ===== src/Edge/Gateway.antt =====
-- The HTTP handlers of Software/edge-orchestrator/orchestrator_node.py. FastAPI turns an exception
-- other than HTTPException into a 500; it checks the request models before a handler runs.
pub mod Queue
pub mod Requests
pub mod Refinement
use Prim.Native.String.{String}
use auto_robotic_arms.Base.{
  ℕ, Bool, true, false, ◌&&◌, not, List, [], ◌∷◌, ◌++◌, Option, none, some, leb, ltb_ℤ, sub_ℕ,
  if◌then◌else◌, length, ℤ, pos, leb_ℤ,
}
use auto_robotic_arms.Python.{Exception, envelope_violation, type_error, Result, ok, err, ◌>>=◌}
use auto_robotic_arms.Joints.{Angles}
use auto_robotic_arms.Floats.{Floats}
use auto_robotic_arms.Edge.Kinematics.{calculate_joint_angles}
use auto_robotic_arms.Edge.Trajectory.{Point, new_planner, generate_joint_trajectory}
use auto_robotic_arms.Edge.Node.{
  Node, queue_max_capacity, deque_append, deque_extend, call_manager, log_if_managed,
}

pub data Reply : Type 0 where
  -- 200 with the queue's depth
  enqueued : ℕ → Reply
  solved : Angles → ℕ → Reply
  trajectory_enqueued : ℕ → ℕ → Reply
  no_logs : Reply
  -- an HTTPException or a refused request model, by its status
  http : ℕ → Reply
  -- any other exception
  raised : Exception → Reply

abbrev pub Handler : Type 0
Handler = Node → Reply × Node

-- The reply after the logging call.
abbrev logged : Result (Unit {0}) → Reply → Reply
logged (ok _) r = r
logged (err e) r = raised e

-- `ge=0, le=180` of `WaypointRequest`
abbrev in_range : ℤ → Bool
in_range j = leb_ℤ (pos 0) j && leb_ℤ j (pos 180)

unfoldable pub waypoint_accepted : Angles → Bool
waypoint_accepted wp = in_range wp.base && (in_range wp.shoulder && in_range wp.elbow)

-- The part under `queue_lock`, and the log entry: common to the two handlers of one pose.
unfoldable pub enqueue_pose : Angles → (ℕ → Reply) → Handler
enqueue_pose a reply n =
    let n' = record n { waypoint_queue = deque_append n.waypoint_queue a } in
    if leb queue_max_capacity (length n.waypoint_queue)
    then (http 503, n)
    else (logged (log_if_managed n') (reply (length n'.waypoint_queue)), n')

unfoldable pub post_waypoint : Angles → Handler
post_waypoint wp n = if waypoint_accepted wp then enqueue_pose wp enqueued n else (http 422, n)

-- The exception handler around the solver.
abbrev pub on_solved : Result Angles → Handler
on_solved (ok a) n = enqueue_pose a (solved a) n
on_solved (err envelope_violation) n = (http 422, n)
on_solved (err e) n = (raised e, n)

-- The part of `post_trajectory` behind the planner.
abbrev pub on_trajectory : Result (List Angles) → Handler
on_trajectory (err envelope_violation) n = (http 422, n)
on_trajectory (err e) n = (raised e, n)
on_trajectory (ok t) n =
    let n' = record n { waypoint_queue = deque_extend n.waypoint_queue t } in
    let done = trajectory_enqueued (length t) (length n'.waypoint_queue) in
    if ltb_ℤ (sub_ℕ queue_max_capacity (length n.waypoint_queue)) (pos (length t))
    then (http 503, n)
    else (elim t [ [] ↦ done | _ ↦ logged (log_if_managed n') done ], n')

module _ (f : Floats) where
  unfoldable pub post_cartesian : Point f → Handler
  post_cartesian target = on_solved (calculate_joint_angles f target.x target.y target.z)

  -- `gt=0.0, le=5.0` of `step_size_cm`, which may be null, and `min_length=1` of the waypoints.
  abbrev step_accepted : Option f.Float → Bool
  step_accepted none = true
  step_accepted (some s) = f.lt (f.lit 0 10) s && f.le s (f.lit 50 10)

  unfoldable pub trajectory_accepted : Option f.Float → List (Point f) → Bool
  trajectory_accepted step [] = false
  trajectory_accepted step (_ ∷ _) = step_accepted step

  -- A null step reaches `None <= 0.0`, outside the `try`.
  abbrev pub planner_of : Option f.Float → Result f.Float
  planner_of none = err type_error
  planner_of (some s) = new_planner f s

  abbrev pub plan_trajectory : Result f.Float → List (Point f) → Handler
  plan_trajectory (err e) waypoints n = (raised e, n)
  plan_trajectory (ok step) waypoints n =
      on_trajectory (generate_joint_trajectory f step waypoints) n

  unfoldable pub post_trajectory : Option f.Float → List (Point f) → Handler
  post_trajectory step waypoints n =
      if trajectory_accepted step waypoints
      then plan_trajectory (planner_of step) waypoints n
      else (http 422, n)

-- `get_health`: NOMINAL or DEGRADED, the pose and the backlog.
unfoldable pub get_health : Node → Bool × Angles × ℕ
get_health n =
    (n.serial_bus_nominal && not n.safe_hold_tripped, n.last_known_angles, length n.waypoint_queue)

unfoldable pub get_telemetry : Handler
unfolding call_manager
get_telemetry n =
    if n.db_manager then (logged (call_manager "fetch_recent_logs") no_logs, n) else (no_logs, n)
