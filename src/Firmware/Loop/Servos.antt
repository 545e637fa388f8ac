-- ===== src/Firmware/Loop/Servos.antt =====
-- The super-loop of Hardware/firmware/src/main.cpp with the servos of
-- Hardware/firmware/src/joint_actuator.cpp: what its outputs do to them.
use auto_robotic_arms.Base.{
  ℕ, zero, suc, ◌+◌, ◌*◌, ◌/◌, ◌%◌, ◌<◌, ◌≤◌, ◌≡◌, refl, sym, ap, ◌∙◌, List, [], ◌∷◌, some, ℤ, pos,
  arith,
}
use auto_robotic_arms.Firmware.{JointBytes}
use auto_robotic_arms.Firmware.Ring.{CircularBuffer}
use auto_robotic_arms.Firmware.Bus.{Bus}
use auto_robotic_arms.Firmware.Actuator.{
  Actuator, power_up, init, write_all, write_all_cached, set_angle, each_joint, degree_to_ticks,
}
use auto_robotic_arms.Firmware.Actuator.Ticks.{degree_to_ticks-ordered}
use auto_robotic_arms.Firmware.Actuator.Cache.{init-Keeps, write_all_cached-Keeps, set_angle-cached}
use auto_robotic_arms.Firmware.Actuator.Chip.{IsChip}
use auto_robotic_arms.Firmware.Actuator.Drives.{Shows, Shows-same, write_all_cached-Shows}
use auto_robotic_arms.Firmware.Actuator.Holds.{init-Shows, write_all-Shows}
use auto_robotic_arms.Firmware.Actuator.Reliable.{
  IsReliable, write_all_cached-ok, write_all-ok, init-ok,
}
use auto_robotic_arms.Firmware.Actuator.Awake.{
  IsAwake, init-IsAwake, write_all_cached-IsAwake, write_all-IsAwake,
}
use auto_robotic_arms.Firmware.Loop.{
  Output, held, answered, moved, centre, hardware_setup, Round, run,
}
use auto_robotic_arms.Firmware.Loop.Smooth.{poses, last_pose, setup-IsBoard, run-Moves}

-- `g_current_angles` as an array.
abbrev pub bytes_of : JointBytes → ℕ → ℕ
bytes_of a zero = a.j0
bytes_of a (suc zero) = a.j1
bytes_of a (suc (suc _)) = a.j2

abbrev pub degrees_of : JointBytes → ℕ → ℤ
degrees_of a j = pos (bytes_of a j)

module _ (bus : Bus) where
  -- The call behind an output; an acknowledgement calls nothing here.
  abbrev pub perform : Output → Actuator bus → Actuator bus
  perform held s = (write_all_cached bus s).1
  perform (moved a) s = (write_all bus (some (bytes_of a)) 3 s).1
  perform (answered _) s = s

  abbrev pub performs : List Output → Actuator bus → Actuator bus
  performs [] s = s
  performs (o ∷ out) s = performs out (perform o s)

  write_all-cached :
      (angles : ℕ → ℕ) (j : ℕ) (s : Actuator bus)
      → j < 3
      → (write_all bus (some angles) 3 s).1.cached_angles j ≡ pos (angles j)
  unfolding write_all each_joint
  write_all-cached angles zero s known =
      let s1 = (set_angle bus 0 (pos (angles 0)) s).1 in
      let s2 = (set_angle bus 1 (pos (angles 1)) s1).1 in
      set_angle-cached bus 2 0 (pos (angles 2)) s2 (omega arith)
      ∙ set_angle-cached bus 1 0 (pos (angles 1)) s1 (omega arith)
      ∙ set_angle-cached bus 0 0 (pos (angles 0)) s (omega arith)
  write_all-cached angles (suc zero) s known =
      let s1 = (set_angle bus 0 (pos (angles 0)) s).1 in
      let s2 = (set_angle bus 1 (pos (angles 1)) s1).1 in
      set_angle-cached bus 2 1 (pos (angles 2)) s2 (omega arith)
      ∙ set_angle-cached bus 1 1 (pos (angles 1)) s1 (omega arith)
  write_all-cached angles (suc (suc zero)) s known =
      let s1 = (set_angle bus 0 (pos (angles 0)) s).1 in
      let s2 = (set_angle bus 1 (pos (angles 1)) s1).1 in
      set_angle-cached bus 2 2 (pos (angles 2)) s2 (omega arith)
  write_all-cached angles (suc (suc (suc j))) s known = absurd (omega (arith, known))

  performs-cached :
      (out : List Output) (a : JointBytes) (s : Actuator bus)
      → ((j : ℕ) → j < 3 → s.cached_angles j ≡ degrees_of a j)
      → (j : ℕ) → j < 3
      → (performs out s).cached_angles j ≡ degrees_of (last_pose a (poses out)) j
  performs-cached [] a s h = h
  performs-cached (held ∷ out) a s h =
      performs-cached out a (write_all_cached bus s).1
        (λ j known. ap (λ c. c j) (write_all_cached-Keeps bus s).cached ∙ h j known)
  performs-cached (moved b ∷ out) a s h =
      performs-cached out b (write_all bus (some (bytes_of b)) 3 s).1
        (λ j known. write_all-cached (bytes_of b) j s known)
  performs-cached (answered _ ∷ out) a s h = performs-cached out a s h

  centre-degrees : (j : ℕ) → j < 3 → pos 90 ≡ degrees_of centre j
  centre-degrees zero known = refl
  centre-degrees (suc zero) known = refl
  centre-degrees (suc (suc zero)) known = refl
  centre-degrees (suc (suc (suc j))) known = absurd (omega (arith, known))

  -- From power-up on, whatever bytes arrive and whichever bus writes fail, re-arms included: the
  -- angle that the actuators have cached for each joint, which is what a re-arm or a tripped
  -- watchdog restores, is the joint's byte of `g_current_angles`.
  pub servos_cached :
      (rs : List Round) (memory : CircularBuffer) (device : bus.State) (j : ℕ)
      → j < 3
      → let (out, s') = run rs (hardware_setup memory) in
        (performs out (init bus (power_up bus device)).1).cached_angles j
        ≡ degrees_of s'.current_angles j
  servos_cached rs memory device j known =
      let m = run-Moves rs (hardware_setup memory) (setup-IsBoard memory) in
      performs-cached (run rs (hardware_setup memory)).0 centre (init bus (power_up bus device)).1
        (λ k below.
          ap (λ c. c k) (init-Keeps bus (power_up bus device)).cached ∙ centre-degrees k below)
        j known
      ∙ ap (λ a. degrees_of a j) (sym m.last)

  module _ (register : bus.State → ℕ → ℕ) (chip : IsChip bus register)
      (reliable : IsReliable bus) where
    abbrev ShowsPose : JointBytes → Actuator bus → Type 0
    ShowsPose a s = (j : ℕ) → j < 3 → Shows bus register chip (degrees_of a) j s

    performs-ShowsPose :
        (out : List Output) (a : JointBytes) (s : Actuator bus)
        → ShowsPose a s
        → ShowsPose (last_pose a (poses out)) (performs out s)
    performs-ShowsPose [] a s h = h
    performs-ShowsPose (held ∷ out) a s h = performs-ShowsPose out a (write_all_cached bus s).1 (
        write_all_cached-Shows bus register chip (degrees_of a) s (λ k known. (h k known).cached)
          (write_all_cached-ok bus reliable s))
    performs-ShowsPose (moved b ∷ out) a s h =
        performs-ShowsPose out b (write_all bus (some (bytes_of b)) 3 s).1 (
          write_all-Shows bus register chip (bytes_of b) s
            (write_all-ok bus reliable (bytes_of b) s))
    performs-ShowsPose (answered _ ∷ out) a s h = performs-ShowsPose out a s h

    performs-IsAwake :
        (out : List Output) (s : Actuator bus)
        → IsAwake bus register chip reliable s
        → IsAwake bus register chip reliable (performs out s)
    performs-IsAwake [] s h = h
    performs-IsAwake (held ∷ out) s h =
        performs-IsAwake out (write_all_cached bus s).1
          (write_all_cached-IsAwake bus register chip reliable s h)
    performs-IsAwake (moved b ∷ out) s h =
        performs-IsAwake out (write_all bus (some (bytes_of b)) 3 s).1
          (write_all-IsAwake bus register chip reliable (bytes_of b) s h)
    performs-IsAwake (answered _ ∷ out) s h = performs-IsAwake out s h

    init-ShowsPose : (device : bus.State) → ShowsPose centre (init bus (power_up bus device)).1
    init-ShowsPose device j known =
        Shows-same bus register chip _ (degrees_of centre) j (init bus (power_up bus device)).1
          (centre-degrees j known)
          (init-Shows bus register chip (power_up bus device)
            (init-ok bus reliable (power_up bus device)) j known)

-- The two bytes of a number of ticks.
two_bytes :
    (joint_id : ℕ) (a : ℤ)
    → joint_id < 3
    → let ticks = degree_to_ticks joint_id a in
      (ticks % 256 + 256 * (ticks / 256 % 16) ≡ ticks) × (102 ≤ ticks) × (ticks ≤ 512)
two_bytes joint_id a known =
    let range =
      degree_to_ticks-ordered joint_id a a 0 1 known (omega arith) (omega arith) (omega arith) in
    (omega (arith, range.2), range.0, range.2)

-- From power-up on, whatever bytes arrive, whenever: on a bus that stores what is written and on
-- which no write fails, the off registers of each joint, low byte and high byte together, hold the
-- ticks of that joint's byte of `g_current_angles`, which lie between 102 and 512; the chip is out
-- of its sleep mode, and its prescaler is that of 50 Hz.
pub servos_follow :
    (bus : Bus) (register : bus.State → ℕ → ℕ)
    → IsChip bus register
    → IsReliable bus
    → (rs : List Round) (memory : CircularBuffer) (device : bus.State) (j : ℕ) → j < 3
    → let (out, s') = run rs (hardware_setup memory) in
      let servos = performs bus out (init bus (power_up bus device)).1 in
      let ticks = degree_to_ticks j (degrees_of s'.current_angles j) in
      (register servos.device (8 + j * 4) + 256 * register servos.device (9 + j * 4) ≡ ticks)
      × (102 ≤ ticks)
      × (ticks ≤ 512)
      × (register servos.device 0 ≡ 32)
      × (register servos.device 254 ≡ 121)
servos_follow bus register chip reliable rs memory device j known =
    let m = run-Moves rs (hardware_setup memory) (setup-IsBoard memory) in
    let out = (run rs (hardware_setup memory)).0 in
    let h =
      performs-ShowsPose bus register chip reliable out centre (init bus (power_up bus device)).1
        (init-ShowsPose bus register chip reliable device) j known in
    let awake =
      performs-IsAwake bus register chip reliable out (init bus (power_up bus device)).1
        (init-IsAwake bus register chip reliable (power_up bus device)) in
    rw m.last (
      let (whole, low, high) = two_bytes j (degrees_of (last_pose centre (poses out)) j) known in
      (rw (h.off.low, h.off.high) whole, low, high, awake.mode, awake.prescaler))
