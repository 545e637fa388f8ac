-- ===== src/Firmware/Actuator.antt =====
-- The three servos behind the PCA9685: Hardware/firmware/src/joint_actuator.cpp over one of the two
-- buses. The delays change nothing here.
pub mod Ticks
pub mod Cache
pub mod Chip
pub mod Drives
pub mod Holds
pub mod Reliable
pub mod Awake
use auto_robotic_arms.Base.{
  ℕ, zero, suc, ◌+◌, ◌-◌, ◌*◌, ◌/◌, ◌%◌, ◌^◌, Bool, true, false, ◌&&◌, List, [], ◌∷◌, Option, none,
  some, ltb, leb, ◌==◌, if◌then◌else◌, ℤ, pos, ltb_ℤ, pos_part,
}
use auto_robotic_arms.Firmware.Bus.{Bus}

pub record JointConfig : Type 0 where
  pub channel : ℕ
  pub min_ticks : ℕ
  pub max_ticks : ℕ

abbrev pub max_robotic_joints : ℕ
max_robotic_joints = 3

-- `JOINT_CALIBRATION_MATRIX`; no index above 2 is read.
abbrev pub joint_calibration : ℕ → JointConfig
joint_calibration zero = record { channel = 0; min_ticks = 102; max_ticks = 512 }
joint_calibration (suc zero) = record { channel = 1; min_ticks = 102; max_ticks = 512 }
joint_calibration (suc (suc _)) = record { channel = 2; min_ticks = 102; max_ticks = 512 }

unfoldable pub degree_to_ticks : ℕ → ℤ → ℕ
degree_to_ticks joint_id angle_degrees =
    let low = if ltb_ℤ angle_degrees (pos 0) then pos 0 else angle_degrees in
    let angle = if ltb_ℤ (pos 180) low then pos 180 else low in
    let config = joint_calibration joint_id in
    let delta_ticks = config.max_ticks - config.min_ticks in
    if leb max_robotic_joints joint_id
    then 307
    else (config.min_ticks + pos_part angle * delta_ticks % 2 ^ 32 / 180) % 2 ^ 16

-- The registers of a channel.
abbrev pub reg_on_l : ℕ → ℕ
reg_on_l channel = (6 + channel * 4) % 256

abbrev pub reg_off_l : ℕ → ℕ
reg_off_l channel = (8 + channel * 4) % 256

abbrev pub reg_off_h : ℕ → ℕ
reg_off_h channel = (9 + channel * 4) % 256

abbrev pub joints : List ℕ
joints = 0 ∷ 1 ∷ 2 ∷ []

module _ (bus : Bus) where
  -- The bus, and `g_cached_angles`.
  pub record Actuator : Type 0 where
    pub device : bus.State
    pub cached_angles : ℕ → ℤ

  -- The static `g_cached_angles` before anything is called.
  abbrev pub power_up : bus.State → Actuator
  power_up device = record { device = device; cached_angles = λ _. pos 90 }

  -- `twi_write_register(PCA9685_I2C_ADDR, …)`
  unfoldable pub write_register : ℕ → ℕ → Actuator → Bool × Actuator
  write_register reg byte s =
      let (ok, device) = bus.write_register 64 reg byte s.device in
      (ok, record s { device = device })

  -- The steps up to the first one that fails.
  abbrev pub and_then : Bool × Actuator → (Actuator → Bool × Actuator) → Bool × Actuator
  and_then (ok, s) next = if ok then next s else (false, s)

  -- The low byte of the ticks, and the high one.
  unfoldable pub write_off : ℕ → ℕ → Actuator → Bool × Actuator
  write_off channel ticks s =
      and_then (write_register (reg_off_l channel) (ticks % 256) s)
        (write_register (reg_off_h channel) (ticks / 256 % 16))

  -- A joint of `joint_actuator_write_all_cached`: the first two writes are not looked at.
  unfoldable pub write_cached_joint : ℕ → Actuator → Bool × Actuator
  write_cached_joint i s =
      let channel = (joint_calibration i).channel in
      let s1 = (write_register (reg_on_l channel) 0 s).1 in
      let s2 = (write_register (reg_on_l channel + 1) 0 s1).1 in
      write_off channel (degree_to_ticks i (s.cached_angles i)) s2

  -- A loop over the joints with `success`.
  unfoldable pub each_joint : (ℕ → Actuator → Bool × Actuator) → List ℕ → Actuator → Bool × Actuator
  each_joint step [] s = (true, s)
  each_joint step (i ∷ rest) s =
      let (ok, s') = step i s in
      let (success, s'') = each_joint step rest s' in (ok && success, s'')

  unfoldable pub write_all_cached : Actuator → Bool × Actuator
  write_all_cached s = each_joint write_cached_joint joints s

  -- The steps 1 to 3: sleep, the prescaler, wake up.
  unfoldable pub configure : Actuator → Bool × Actuator
  configure s =
      and_then (write_register 0 16 s)
        (λ s1. and_then (write_register 254 121 s1) (λ s2. write_register 0 32 s2))

  unfoldable pub rearm : Actuator → Bool × Actuator
  rearm s = and_then (configure s) write_all_cached

  unfoldable pub init : Actuator → Bool × Actuator
  init s = and_then (configure (record s { device = bus.init s.device })) write_all_cached

  -- The four writes of a joint.
  unfoldable pub write_joint : ℕ → ℕ → Actuator → Bool × Actuator
  write_joint channel ticks s =
      and_then (write_register (reg_on_l channel) 0 s)
        (λ s1. and_then (write_register (reg_on_l channel + 1) 0 s1) (write_off channel ticks))

  -- The label `write_error`.
  abbrev or_rearm : Bool × Actuator → Bool × Actuator
  or_rearm (ok, s) = if ok then (true, s) else rearm s

  unfoldable pub set_angle : ℕ → ℤ → Actuator → Bool × Actuator
  set_angle joint_id angle_degrees s =
      let cached = record s {
        cached_angles = λ j. if j == joint_id then angle_degrees else s.cached_angles j;
      } in
      if leb max_robotic_joints joint_id
      then (false, s)
      else or_rearm (
          write_joint (joint_calibration joint_id).channel (degree_to_ticks joint_id angle_degrees)
            cached)

  -- `none` is a null pointer.
  unfoldable pub write_all : Option (ℕ → ℕ) → ℕ → Actuator → Bool × Actuator
  write_all none count s = (false, s)
  write_all (some angles) count s =
      if ltb count max_robotic_joints
      then (false, s)
      else each_joint (λ i. set_angle i (pos (angles i))) joints s
