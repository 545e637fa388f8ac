-- ===== src/Edge/Trajectory/Atomic.antt =====
-- The joint trajectory of a planned path, point by point.
use auto_robotic_arms.Base.{◌≡◌, refl, ◌⊎◌, inl, inr, List, [], ◌∷◌, All, subst}
use auto_robotic_arms.Python.{Result, ok, err, Exception, ok-injective, >>=-eq-ok}
use auto_robotic_arms.Joints.{Angles, IsServo}
use auto_robotic_arms.Floats.{Floats}
use auto_robotic_arms.Edge.Kinematics.{calculate_joint_angles}
use auto_robotic_arms.Edge.Kinematics.Range.{calculate_joint_angles-IsServo}
use auto_robotic_arms.Edge.Trajectory.{
  Point, plan_multi_waypoint_path, solve_path, generate_joint_trajectory,
}

module _ (f : Floats) where
  abbrev pub solve : Point f → Result Angles
  solve p = calculate_joint_angles f p.x p.y p.z

  -- The angles are the solutions of the points, one for one and in order.
  abbrev pub Solves : List (Point f) → List Angles → Type 0
  Solves [] [] = Unit
  Solves [] (a ∷ as') = ⊥
  Solves (p ∷ ps) [] = ⊥
  Solves (p ∷ ps) (a ∷ as') = (solve p ≡ ok a) × Solves ps as'

  -- The first point that has no solution raises `e`.
  abbrev pub FirstFailure : List (Point f) → Exception → Type 0
  FirstFailure [] e = ⊥
  FirstFailure (p ∷ ps) e =
      (solve p ≡ err e) ⊎ ((a : Angles) × (solve p ≡ ok a) × FirstFailure ps e)

  solve_path-Solves : (ps : List (Point f)) (t : List Angles) → solve_path f ps ≡ ok t → Solves ps t
  unfolding solve_path
  solve_path-Solves [] [] h = tt
  solve_path-Solves [] (a ∷ t) h = cc
  solve_path-Solves (p ∷ ps) t h =
      let (a, ea, h') = >>=-eq-ok (solve p) _ h in
      let (rest, er, h'') = >>=-eq-ok (solve_path f ps) _ h' in
      subst (Solves (p ∷ ps)) (ok-injective h'') (ea, solve_path-Solves ps rest er)

  Solves-solve_path : (ps : List (Point f)) (t : List Angles) → Solves ps t → solve_path f ps ≡ ok t
  unfolding solve_path
  Solves-solve_path [] [] h = refl
  Solves-solve_path [] (a ∷ t) h = absurd h
  Solves-solve_path (p ∷ ps) [] h = absurd h
  Solves-solve_path (p ∷ ps) (a ∷ t) h = rw (h.0, Solves-solve_path ps t h.1)

  FirstFailure-solve_path :
      (ps : List (Point f)) (e : Exception) → FirstFailure ps e → solve_path f ps ≡ err e
  unfolding solve_path
  FirstFailure-solve_path [] e h = absurd h
  FirstFailure-solve_path (p ∷ ps) e (inl here) = rw here
  FirstFailure-solve_path (p ∷ ps) e (inr (a, ok_here, later)) =
      rw (ok_here, FirstFailure-solve_path ps e later)

  -- Every path is solved throughout, or has a first failure.
  solve_path-cases :
      (ps : List (Point f))
      → ((t : List Angles) × Solves ps t) ⊎ ((e : Exception) × FirstFailure ps e)
  solve_path-cases [] = inl ([], tt)
  solve_path-cases (p ∷ ps) = go (solve p) refl (solve_path-cases ps)
    where
      go :
          (r : Result Angles)
          → solve p ≡ r
          → ((t : List Angles) × Solves ps t) ⊎ ((e : Exception) × FirstFailure ps e)
          → ((t : List Angles) × Solves (p ∷ ps) t) ⊎ ((e : Exception) × FirstFailure (p ∷ ps) e)
      go (err e) h rest = inr (e, inl h)
      go (ok a) h (inl (t, solved)) = inl (a ∷ t, (h, solved))
      go (ok a) h (inr (e, later)) = inr (e, inr (a, h, later))

  Solves-IsServo : (ps : List (Point f)) (t : List Angles) → Solves ps t → All IsServo t
  Solves-IsServo [] [] h = tt
  Solves-IsServo [] (a ∷ t) h = absurd h
  Solves-IsServo (p ∷ ps) [] h = absurd h
  Solves-IsServo (p ∷ ps) (a ∷ t) h =
      (calculate_joint_angles-IsServo f p.x p.y p.z a h.0, Solves-IsServo ps t h.1)

  -- A planned path yields either one servo pose for each of its points, in order, each the solution
  -- of its point, or the exception of the first point that has none: no partial trajectory.
  pub trajectory_atomic :
      (step : f.Float) (waypoints path : List (Point f))
      → plan_multi_waypoint_path f step waypoints ≡ ok path
      → ((t : List Angles) × (generate_joint_trajectory f step waypoints ≡ ok t)
          × Solves path t
          × All IsServo t)
        ⊎ ((e : Exception) × (generate_joint_trajectory f step waypoints ≡ err e)
            × FirstFailure path e)
  unfolding generate_joint_trajectory
  trajectory_atomic step waypoints path planned = elim (solve_path-cases path) [
    | inl (t, solved) ↦
        inl (t, rw planned (Solves-solve_path path t solved), solved, Solves-IsServo path t solved)
    | inr (e, first) ↦ inr (e, rw planned (FirstFailure-solve_path path e first), first)
  ]

  -- A trajectory that is returned holds servo poses only.
  pub generate-IsServo :
      (step : f.Float) (waypoints : List (Point f)) (t : List Angles)
      → generate_joint_trajectory f step waypoints ≡ ok t
      → All IsServo t
  unfolding generate_joint_trajectory
  generate-IsServo step waypoints t h =
      let (path, _, solved) = >>=-eq-ok (plan_multi_waypoint_path f step waypoints) _ h in
      Solves-IsServo path t (solve_path-Solves path t solved)
