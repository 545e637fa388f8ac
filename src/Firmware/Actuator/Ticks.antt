-- ===== src/Firmware/Actuator/Ticks.antt =====
-- `joint_actuator_degree_to_ticks` of Hardware/firmware/src/joint_actuator.cpp.
use auto_robotic_arms.Base.{
  ℕ, zero, suc, ◌+◌, ◌*◌, ◌/◌, ◌≤◌, ◌<◌, ◌≡◌, ℤ, pos, negsuc, ◌≤ℤ◌, ltb_ℤ, pos_part, arith,
  if◌then◌else◌,
}
use auto_robotic_arms.Firmware.Actuator.{degree_to_ticks}

-- The scale, on a clamped angle.
abbrev scale : ℕ → ℕ
scale a = 102 + a * 410 / 180

abbrev clamped : ℤ → ℕ
clamped a = pos_part (if ltb_ℤ (pos 180) a then pos 180 else a)

pub ticks-scale :
    (joint_id : ℕ) (a : ℤ) → joint_id < 3 → degree_to_ticks joint_id a ≡ scale (clamped a)
unfolding degree_to_ticks
ticks-scale zero (pos n) known = ground arith
ticks-scale zero (negsuc n) known = ground arith
ticks-scale (suc zero) (pos n) known = ground arith
ticks-scale (suc zero) (negsuc n) known = ground arith
ticks-scale (suc (suc zero)) (pos n) known = ground arith
ticks-scale (suc (suc zero)) (negsuc n) known = ground arith
ticks-scale (suc (suc (suc n))) a known = absurd (omega (arith, known))

scale_mono : (m n : ℕ) → m ≤ n → scale m ≤ scale n
scale_mono m n h = omega (arith, h)

scale_apart : (m n : ℕ) → m < n → scale m + 2 ≤ scale n
scale_apart m n h = omega (arith, h)

clamped-le : (a : ℤ) → clamped a ≤ 180
clamped-le a = ground arith

clamped_mono : (a b : ℤ) → a ≤ℤ b → clamped a ≤ clamped b
clamped_mono a b h = ground (arith, h)

-- For each of the three joints and for all angles, negative and too large ones as well: the ticks
-- lie between the 102 and the 512 of the calibration, a larger angle never has fewer ticks, and of
-- two whole degrees in 0..180 the larger one has at least two ticks more.
pub degree_to_ticks-ordered :
    (joint_id : ℕ) (a b : ℤ) (m n : ℕ)
    → joint_id < 3
    → a ≤ℤ b
    → m < n
    → n ≤ 180
    → let ticks = degree_to_ticks joint_id in
      (102 ≤ ticks a) × (ticks a ≤ ticks b) × (ticks b ≤ 512) × (ticks (pos m) + 2 ≤ ticks (pos n))
degree_to_ticks-ordered joint_id a b m n known order less top =
    let same_m : clamped (pos m) ≡ m = ground arith in
    let same_n : clamped (pos n) ≡ n = ground arith in
    rw
      (
        ticks-scale joint_id a known,
        ticks-scale joint_id b known,
        ticks-scale joint_id (pos m) known,
        ticks-scale joint_id (pos n) known,
        same_m,
        same_n,
      )
      (
        omega arith,
        scale_mono (clamped a) (clamped b) (clamped_mono a b order),
        omega (arith, clamped-le b),
        scale_apart m n less,
      )
