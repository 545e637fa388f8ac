-- ===== src/Edge/Daemon/Slew.antt =====
-- The slew-rate limiter of the daemon, joint by joint and for the whole pose.
use auto_robotic_arms.Base.{ℕ, ◌+◌, ◌-◌, ◌≤◌, ◌≡◌, arith, ℤ, ◌+ℤ◌, ◌-ℤ◌, pos_part, neg_part}
use auto_robotic_arms.Joints.{Angles, InRange, IsServo}
use auto_robotic_arms.Edge.Daemon.{slew, slew_angles}

-- How far apart two angles are, in whole degrees.
abbrev pub gap : ℤ → ℤ → ℕ
gap a b =
    (pos_part a + neg_part b - (pos_part b + neg_part a))
    + (pos_part b + neg_part a - (pos_part a + neg_part b))

-- A step closes the gap to the target by two degrees, or all of it, and moves by at most two.
pub slew_lem :
    (target last : ℤ)
    → (gap target (slew target last) ≡ gap target last - 2) × (gap (slew target last) last ≤ 2)
unfolding slew ◌+ℤ◌ ◌-ℤ◌
slew_lem target last = ground arith

-- A joint in range stays in range on its way to a target in range.
slew-InRange : (target last : ℤ) → InRange target → InRange last → InRange (slew target last)
unfolding slew ◌+ℤ◌ ◌-ℤ◌
slew-InRange target last ht hl = ground arith

pub slew_angles-IsServo :
    (target last : Angles) → IsServo target → IsServo last → IsServo (slew_angles target last)
unfolding slew_angles
slew_angles-IsServo target last ht hl = record {
  base = slew-InRange target.base last.base ht.base hl.base;
  shoulder = slew-InRange target.shoulder last.shoulder ht.shoulder hl.shoulder;
  elbow = slew-InRange target.elbow last.elbow ht.elbow hl.elbow;
}

-- Every joint stands within `k` degrees of its target.
pub record IsWithin (k : ℕ) (target last : Angles) : Type 0 where
  pub base : gap target.base last.base ≤ k
  pub shoulder : gap target.shoulder last.shoulder ≤ k
  pub elbow : gap target.elbow last.elbow ≤ k

slew-gap : (k : ℕ) (target last : ℤ) → gap target last ≤ k → gap target (slew target last) ≤ k - 2
slew-gap k target last h = omega (arith, (slew_lem target last).0)

pub slew_angles-IsWithin :
    (k : ℕ) (target last : Angles)
    → IsWithin k target last
    → IsWithin (k - 2) target (slew_angles target last)
unfolding slew_angles
slew_angles-IsWithin k target last h = record {
  base = slew-gap k target.base last.base h.base;
  shoulder = slew-gap k target.shoulder last.shoulder h.shoulder;
  elbow = slew-gap k target.elbow last.elbow h.elbow;
}

-- No joint moves by more than two degrees.
pub slew_angles-steps : (target last : Angles) → IsWithin 2 (slew_angles target last) last
unfolding slew_angles
slew_angles-steps target last = record {
  base = (slew_lem target.base last.base).1;
  shoulder = (slew_lem target.shoulder last.shoulder).1;
  elbow = (slew_lem target.elbow last.elbow).1;
}

eq_of_gap : (a b : ℤ) → gap a b ≤ 0 → b ≡ a
eq_of_gap a b h = ground arith

pub eq_of_IsWithin : (target last : Angles) → IsWithin 0 target last → last ≡ target
eq_of_IsWithin target last h =
    let base = eq_of_gap target.base last.base h.base in
    let shoulder = eq_of_gap target.shoulder last.shoulder h.shoulder in
    let elbow = eq_of_gap target.elbow last.elbow h.elbow in
    λ i. record { base = base i; shoulder = shoulder i; elbow = elbow i }

pub servo-IsWithin :
    (target last : Angles) → IsServo target → IsServo last → IsWithin 180 target last
servo-IsWithin target last ht hl = ground arith
