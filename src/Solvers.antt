-- ===== src/Solvers.antt =====
-- The two copies of the inverse kinematics, of the host application and of the edge node.
use auto_robotic_arms.Base.{◌≡◌, refl, pos, if◌then◌else◌}
use auto_robotic_arms.Python.{err, envelope_violation, ◌>>=◌}
use mathlib.Core.Path.{fun_ext}
use auto_robotic_arms.Floats.{Floats}
use auto_robotic_arms.Host.Kinematics.{
  calculate_joint_angles as host_angles, elbow_pitch as host_elbow, servo_angles as host_servo,
  clamp_angle as host_clamp, reach as host_reach, out_of_envelope as host_out,
}
use auto_robotic_arms.Edge.Kinematics.{
  calculate_joint_angles as edge_angles, elbow_pitch as edge_elbow, servo_angles as edge_servo,
  clamp_angle as edge_clamp, reach as edge_reach, out_of_envelope as edge_out,
}

module _ (f : Floats) (two : f.of_int (pos 2) ≡ f.lit 20 10)
    (ninety : f.of_int (pos 90) ≡ f.lit 900 10) where
  reach_agree : host_reach f ≡ edge_reach f
  unfolding host_reach edge_reach
  reach_agree = fun_ext λ x. fun_ext λ y. fun_ext λ z. refl

  out_agree : host_out f ≡ edge_out f
  unfolding host_out edge_out
  out_agree = fun_ext λ d. refl

  elbow_agree : host_elbow f ≡ edge_elbow f
  unfolding host_elbow edge_elbow
  elbow_agree = fun_ext λ d. rw two

  servo_agree : host_servo f ≡ edge_servo f
  unfolding host_servo edge_servo host_clamp edge_clamp
  servo_agree = fun_ext λ b. fun_ext λ r. fun_ext λ z. fun_ext λ e. rw ninety

  -- Where the int literals 2 and 90 convert to the floats 2.0 and 90.0, the two solvers return the
  -- same angles or raise the same exception on every target.
  pub solvers_agree : (x y z : f.Float) → host_angles f x y z ≡ edge_angles f x y z
  unfolding host_angles edge_angles
  solvers_agree x y z = λ i. reach_agree i x y z >>= λ t.
      let solved = elbow_agree i (t.1) >>= servo_agree i (f.atan2 y x) (t.0) z in
      if out_agree i (t.2) then err envelope_violation else solved
