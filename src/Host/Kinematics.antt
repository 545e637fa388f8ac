-- ===== src/Host/Kinematics.antt =====
-- Hardware/host_app/src/inverse_kinematics.py: the solver of the host application.
use auto_robotic_arms.Base.{ℤ, pos, Bool, ◌||◌, if◌then◌else◌}
use auto_robotic_arms.Python.{Result, ok, err, envelope_violation, checked, ◌>>=◌}
use auto_robotic_arms.Joints.{Angles, saturate}
use auto_robotic_arms.Floats.{Floats, float_min, float_max}

module _ (f : Floats) where
  open f use {
    Float, lit, of_int, neg, add, sub, mul, div, pow, sqrt, acos, sin, cos, atan2, degrees, lt,
    round,
  }

  abbrev l1 : Float
  l1 = lit 120 10

  abbrev l2 : Float
  l2 = lit 100 10

  abbrev safe_min_reach : Float
  safe_min_reach = lit 25 10

  abbrev safe_max_reach : Float
  safe_max_reach = lit 215 10

  unfoldable pub clamp_angle : Float → Result ℤ
  clamp_angle angle = do rounded ← checked (round angle); ok (saturate rounded)

  -- 3. Elbow pitch, by the law of cosines; the cosine is clamped before `acos`.
  unfoldable pub elbow_pitch : Float → Result Float
  elbow_pitch distance_squared = do
    l1_squared ← checked (pow l1 2)
    l2_squared ← checked (pow l2 2)
    cosine ←
        checked (
          div (sub (sub distance_squared l1_squared) l2_squared) (mul (mul (of_int (pos 2)) l1) l2))
    checked (acos (float_max f (neg (lit 1 1)) (float_min f (lit 1 1) cosine)))

  -- 4. to 6. Shoulder pitch, degrees, and the map to servo angles.
  unfoldable pub servo_angles : Float → Float → Float → Float → Result Angles
  servo_angles base_rad xy_radius z elbow_rad = do
    let alpha = atan2 z xy_radius
    let beta = atan2 (mul l2 (sin elbow_rad)) (add l1 (mul l2 (cos elbow_rad)))
    let shoulder_rad = add alpha beta
    base ← clamp_angle (add (of_int (pos 90)) (degrees base_rad))
    shoulder ← clamp_angle (degrees shoulder_rad)
    elbow ← clamp_angle (degrees elbow_rad)
    ok (record { base = base; shoulder = shoulder; elbow = elbow })

  -- `distance > SAFE_MAX_REACH or distance < SAFE_MIN_REACH`
  unfoldable pub out_of_envelope : Float → Bool
  out_of_envelope distance = lt safe_max_reach distance || lt distance safe_min_reach

  -- The radius in the plane, the squared distance and the distance of a target.
  unfoldable pub reach : Float → Float → Float → Result (Float × Float × Float)
  reach x y z = do
    xx ← checked (pow x 2)
    yy ← checked (pow y 2)
    xy_radius ← checked (sqrt (add xx yy))
    rr ← checked (pow xy_radius 2)
    zz ← checked (pow z 2)
    let distance_squared = add rr zz
    distance ← checked (sqrt distance_squared)
    ok (xy_radius, distance_squared, distance)

  unfoldable pub calculate_joint_angles : Float → Float → Float → Result Angles
  calculate_joint_angles x y z = do
    let base_rad = atan2 y x
    (xy_radius, distance_squared, distance) ← reach x y z
    let solved = elbow_pitch distance_squared >>= servo_angles base_rad xy_radius z
    if out_of_envelope distance then err envelope_violation else solved
