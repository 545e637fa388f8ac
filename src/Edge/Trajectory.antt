-- ===== src/Edge/Trajectory.antt =====
-- Software/edge-orchestrator/trajectory.py: straight Cartesian segments, cut into steps and solved
-- point by point.
pub mod Atomic
use auto_robotic_arms.Base.{
  ℕ, zero, suc, ◌+◌, ℤ, pos, pos_part, ◌+ℤ◌, List, [], ◌∷◌, ◌++◌, drop, if◌then◌else◌,
}
use auto_robotic_arms.Python.{Result, ok, err, value_error, checked, ◌>>=◌}
use auto_robotic_arms.Joints.{Angles}
use auto_robotic_arms.Floats.{Floats}
use auto_robotic_arms.Edge.Kinematics.{calculate_joint_angles}

module _ (f : Floats) where
  open f use {Float, lit, of_int, add, sub, mul, div, pow, sqrt, lt, le, round3, ceil}

  pub record Point : Type 0 where
    pub x : Float
    pub y : Float
    pub z : Float

module _ (f : Floats) where
  open f use {Float, lit, of_int, add, sub, mul, div, pow, sqrt, lt, le, round3, ceil}

  -- `TrajectoryPlanner.__init__`: the planner is its step size.
  unfoldable pub new_planner : Float → Result Float
  new_planner step_size_cm = if le step_size_cm (lit 0 10) then err value_error else ok step_size_cm

  -- The loop over `range(num_segments + 1)`: `rounds` points from number `i` on.
  unfoldable pub segment_points : Point f → Point f → ℤ → ℕ → ℕ → Result (List (Point f))
  segment_points start delta num_segments i zero = ok []
  segment_points start delta num_segments i (suc rounds) = do
    t ← checked (div (of_int (pos i)) (of_int num_segments))
    rest ← segment_points start delta num_segments (i + 1) rounds
    ok (
        record {
          x = round3 (add start.x (mul t delta.x));
          y = round3 (add start.y (mul t delta.y));
          z = round3 (add start.z (mul t delta.z));
        }
        ∷ rest)

  unfoldable pub interpolate_linear_segment : Float → Point f → Point f → Result (List (Point f))
  interpolate_linear_segment step_size_cm start end = do
    let delta : Point f = record {
      x = sub end.x start.x;
      y = sub end.y start.y;
      z = sub end.z start.z;
    }
    xx ← checked (pow delta.x 2)
    yy ← checked (pow delta.y 2)
    zz ← checked (pow delta.z 2)
    distance ← checked (sqrt (add (add xx yy) zz))
    let cut : Result (List (Point f)) = (do
      steps ← checked (div distance step_size_cm)
      num_segments ← checked (ceil steps)
      segment_points start delta num_segments 0 (pos_part (num_segments +ℤ pos 1)))
    if lt distance (lit 1 1_000_000) then ok (start ∷ []) else cut

  -- The loop over consecutive waypoints: each segment without its first point.
  unfoldable pub extend_path : Float → Point f → List (Point f) → Result (List (Point f))
  extend_path step_size_cm from [] = ok []
  extend_path step_size_cm from (to ∷ waypoints) = do
    segment ← interpolate_linear_segment step_size_cm from to
    rest ← extend_path step_size_cm to waypoints
    ok (drop 1 segment ++ rest)

  unfoldable pub plan_multi_waypoint_path : Float → List (Point f) → Result (List (Point f))
  plan_multi_waypoint_path step_size_cm [] = ok []
  plan_multi_waypoint_path step_size_cm (w ∷ waypoints) = do
    rest ← extend_path step_size_cm w waypoints
    ok (w ∷ rest)

  -- The loop over the Cartesian path: the first exception leaves it.
  unfoldable pub solve_path : List (Point f) → Result (List Angles)
  solve_path [] = ok []
  solve_path (p ∷ path) = do
    angles ← calculate_joint_angles f p.x p.y p.z
    rest ← solve_path path
    ok (angles ∷ rest)

  unfoldable pub generate_joint_trajectory : Float → List (Point f) → Result (List Angles)
  generate_joint_trajectory step_size_cm waypoints =
      plan_multi_waypoint_path step_size_cm waypoints >>= solve_path
