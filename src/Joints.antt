-- ===== src/Joints.antt =====
-- The three joint angles, as whole degrees (Python ints), and the range of a servo.
use auto_robotic_arms.Base.{ℤ, pos, ◌≤ℤ◌, ◌≡◌, ◌≤◌, pos_part, arith, min_ℤ, max_ℤ}

pub record Angles : Type 0 where
  pub base : ℤ
  pub shoulder : ℤ
  pub elbow : ℤ

abbrev pub InRange : ℤ → Type 0
InRange a = (pos 0 ≤ℤ a) × (a ≤ℤ pos 180)

-- Every joint stands between 0 and 180 degrees.
pub record IsServo (a : Angles) : Type 0 where
  pub base : InRange a.base
  pub shoulder : InRange a.shoulder
  pub elbow : InRange a.elbow

abbrev pub centred : Angles
centred = record { base = pos 90; shoulder = pos 90; elbow = pos 90 }

-- `max(0, min(180, a))`
abbrev pub saturate : ℤ → ℤ
saturate a = max_ℤ (pos 0) (min_ℤ (pos 180) a)

pub saturate-InRange : (a : ℤ) → InRange (saturate a)
saturate-InRange a = ground arith

pub saturate_of_InRange : (a : ℤ) → InRange a → saturate a ≡ a
saturate_of_InRange a h = ground arith

pub pos_part-le : (a : ℤ) → InRange a → pos_part a ≤ 180
pos_part-le a h = ground arith
