-- ===== src/Edge/Kinematics/Range.antt =====
-- What the solver of the edge node returns and when it raises, for any float operations.
use auto_robotic_arms.Base.{
  ◌≡◌, ◌≢◌, refl, ◌⊎◌, inl, inr, ◌↔◌, true, false, some, arith, Bool-cases, ℤ, if◌then◌else◌, subst,
}
use auto_robotic_arms.Python.{
  Result, ok, err, envelope_violation, checked, ◌>>=◌, >>=-returns, >>=-ne-err, ok-injective,
}
use auto_robotic_arms.Joints.{Angles, IsServo, InRange, saturate-InRange}
use auto_robotic_arms.Floats.{Floats, float_min, float_max}
use auto_robotic_arms.Edge.Kinematics.{
  clamp_angle, elbow_pitch, servo_angles, out_of_envelope, reach, calculate_joint_angles,
}

module _ (f : Floats) where
  open f use {Float, lit, neg, lt, pow, div, acos, round, sqrt}

  clamp_angle-InRange : (v : Float) (a : ℤ) → clamp_angle f v ≡ ok a → InRange a
  unfolding clamp_angle
  clamp_angle-InRange v =
      >>=-returns InRange (checked (round v)) _
        λ r _ a h. subst InRange (ok-injective h) (saturate-InRange r)

  servo_angles-IsServo : (b r z e : Float) (a : Angles) → servo_angles f b r z e ≡ ok a → IsServo a
  unfolding servo_angles clamp_angle
  servo_angles-IsServo b r z e a h = ground arith

  -- Whatever the float operations do, returned angles are servo angles: 0 to 180 degrees each.
  pub calculate_joint_angles-IsServo :
      (x y z : Float) (a : Angles) → calculate_joint_angles f x y z ≡ ok a → IsServo a
  unfolding calculate_joint_angles
  calculate_joint_angles-IsServo x y z = >>=-returns IsServo (reach f x y z) _ λ (xy, d2, d) _ a h.
      elim (Bool-cases (out_of_envelope f d)) [
        | inl out ↦ absurd (cc (out, h))
        | inr within ↦
            >>=-returns IsServo (elbow_pitch f d2) _ (λ e _. servo_angles-IsServo _ xy z e) a
              (rw within at h)
      ]

  servo_angles-ne-violation : (b r z e : Float) → servo_angles f b r z e ≢ err envelope_violation
  unfolding servo_angles clamp_angle
  servo_angles-ne-violation b r z e h = ground arith

  elbow_pitch-ne-violation : (d : Float) → elbow_pitch f d ≢ err envelope_violation
  unfolding elbow_pitch
  elbow_pitch-ne-violation d h = ground arith

  reach-ne-violation : (x y z : Float) → reach f x y z ≢ err envelope_violation
  unfolding reach
  reach-ne-violation x y z h = ground arith

  -- The guard of the code, over any way to get the distance and to go on from it.
  abbrev guarded : Result (Float × Float × Float) → (Float → Float → Result Angles) → Result Angles
  guarded m solve =
      m >>= λ (r, d2, d). if out_of_envelope f d then err envelope_violation else solve r d2

  guarded-violation :
      (m : Result (Float × Float × Float)) (solve : Float → Float → Result Angles)
      → m ≢ err envelope_violation
      → ((r d2 : Float) → solve r d2 ≢ err envelope_violation)
      → guarded m solve ≡ err envelope_violation
      → (r : Float) × (d2 : Float) × (d : Float) × (m ≡ ok (r, d2, d))
        × (out_of_envelope f d ≡ true)
  guarded-violation (err e) solve hm hs h = absurd (hm (cc))
  guarded-violation (ok (r, d2, d)) solve hm hs h = elim (Bool-cases (out_of_envelope f d)) [
    | inl out ↦ (r, d2, d, refl, out)
    | inr within ↦ absurd (hs r d2 (rw within at h))
  ]

  solve-ne-violation :
      (b z r d2 : Float) → (elbow_pitch f d2 >>= servo_angles f b r z) ≢ err envelope_violation
  solve-ne-violation b z r d2 =
      >>=-ne-err envelope_violation (elbow_pitch f d2) (servo_angles f b r z)
        (elbow_pitch-ne-violation d2) (servo_angles-ne-violation b r z)

  out_of_envelope_iff :
      (d : Float)
      → (out_of_envelope f d ≡ true) ↔ ((lt (lit 215 10) d ≡ true) ⊎ (lt d (lit 25 10) ≡ true))
  unfolding out_of_envelope
  out_of_envelope_iff d = ground arith

  -- The envelope violation is raised exactly for the targets whose distance was computed and lies
  -- beyond `SAFE_MAX_REACH` or short of `SAFE_MIN_REACH`; no later step raises it.
  pub violation_iff :
      (x y z : Float)
      → (calculate_joint_angles f x y z ≡ err envelope_violation) ↔ (
          (r : Float) × (d2 : Float) × (d : Float) × (reach f x y z ≡ ok (r, d2, d))
          × ((lt (lit 215 10) d ≡ true) ⊎ (lt d (lit 25 10) ≡ true)))
  unfolding calculate_joint_angles
  violation_iff x y z = (
    λ h.
        let (r, d2, d, e, out) =
          guarded-violation (reach f x y z)
            (λ r d2. elbow_pitch f d2 >>= servo_angles f (f.atan2 y x) r z)
            (reach-ne-violation x y z) (solve-ne-violation (f.atan2 y x) z) h in
        (r, d2, d, e, (out_of_envelope_iff d).0 out),
    λ (r, d2, d, e, far). rw (e, (out_of_envelope_iff d).1 far),
  )

module _ (f : Floats) (asym : (a b : f.Float) → f.lt a b ≡ true → f.lt b a ≡ false)
    (units : f.lt (f.neg (f.lit 1 1)) (f.lit 1 1) ≡ true)
    (squares : (s1 : f.Float) × (s2 : f.Float) × (f.pow (f.lit 120 10) 2 ≡ some s1)
      × (f.pow (f.lit 100 10) 2 ≡ some s2))
    (quotient : (a : f.Float)
      → (q : f.Float) × (f.div a (f.mul (f.mul (f.lit 20 10) (f.lit 120 10)) (f.lit 100 10))
          ≡ some q))
    (acos_domain : (c : f.Float)
      → f.lt c (f.neg (f.lit 1 1)) ≡ false
      → f.lt (f.lit 1 1) c ≡ false
      → (r : f.Float) × (f.acos c ≡ some r)) where
  open f use {Float, lit, neg, lt}

  clamped_domain :
      (c : Float)
      → let clamped = float_max f (neg (lit 1 1)) (float_min f (lit 1 1) c) in
        (lt clamped (neg (lit 1 1)) ≡ false) × (lt (lit 1 1) clamped ≡ false)
  clamped_domain c =
      let one = lit 1 1 in
      let minus_one = neg one in
      ground (
        arith,
        units,
        asym one one,
        asym minus_one minus_one,
        asym minus_one one,
        asym c one,
        asym minus_one c,
      )

  -- `acos` is never called outside its domain: with `<` asymmetric, the squares of the literals and
  -- the quotient by the constant divisor defined, and `acos` defined on [-1, 1] (as Python's is),
  -- the elbow pitch is computed for every squared distance, a NaN included.
  pub elbow_pitch_defined : (d2 : Float) → (r : Float) × (elbow_pitch f d2 ≡ ok r)
  unfolding elbow_pitch
  elbow_pitch_defined d2 =
      let (s1, s2, e1, e2) = squares in
      let (cosine, e3) = quotient (f.sub (f.sub d2 s1) s2) in
      let (low, high) = clamped_domain cosine in
      let (r, e4) = acos_domain _ low high in (r, rw (e1, e2, e3, e4) refl)
