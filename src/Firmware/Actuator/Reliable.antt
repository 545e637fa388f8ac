-- ===== src/Firmware/Actuator/Reliable.antt =====
-- Hardware/firmware/src/joint_actuator.cpp on a bus on which no write fails.
use auto_robotic_arms.Base.{
  ℕ, ◌+◌, ◌≡◌, refl, Bool, true, false, some, leb, ◌==◌, if◌then◌else◌, ◌<◌, ℤ, pos, arith,
}
use auto_robotic_arms.Firmware.Bus.{Bus}
use auto_robotic_arms.Firmware.Actuator.{
  Actuator, write_register, and_then, write_off, write_cached_joint, each_joint, write_all_cached,
  configure, init, write_joint, set_angle, write_all, joints, reg_on_l, joint_calibration,
  degree_to_ticks,
}

abbrev pub IsReliable : Bus → Type 0
IsReliable bus =
    (address reg byte : ℕ) (s : bus.State) → (bus.write_register address reg byte s).0 ≡ true

module _ (bus : Bus) (reliable : IsReliable bus) where
  abbrev Step : Type 0
  Step = Actuator bus → Bool × Actuator bus

  and_then-ok :
      (r : Bool × Actuator bus) (next : Step)
      → r.0 ≡ true
      → ((s : Actuator bus) → (next s).0 ≡ true)
      → (and_then bus r next).0 ≡ true
  and_then-ok r next first later = rw first (later r.1)

  pub write_register-ok :
      (reg byte : ℕ) (s : Actuator bus) → (write_register bus reg byte s).0 ≡ true
  unfolding write_register
  write_register-ok reg byte s = reliable 64 reg byte s.device

  write_off-ok : (channel ticks : ℕ) (s : Actuator bus) → (write_off bus channel ticks s).0 ≡ true
  unfolding write_off
  write_off-ok channel ticks s =
      and_then-ok _ (write_register bus _ _) (write_register-ok _ _ s) (write_register-ok _ _)

  pub write_joint-ok :
      (channel ticks : ℕ) (s : Actuator bus) → (write_joint bus channel ticks s).0 ≡ true
  unfolding write_joint
  write_joint-ok channel ticks s =
      and_then-ok _
        (λ s1.
          and_then bus (write_register bus (reg_on_l channel + 1) 0 s1)
            (write_off bus channel ticks))
        (write_register-ok _ _ s)
        (λ s1.
          and_then-ok _ (write_off bus channel ticks) (write_register-ok _ _ s1)
            (write_off-ok channel ticks))

  each_joint-ok :
      (step : ℕ → Step)
      → ((i : ℕ) → i < 3 → (s : Actuator bus) → (step i s).0 ≡ true)
      → (s : Actuator bus) → (each_joint bus step joints s).0 ≡ true
  unfolding each_joint
  each_joint-ok step ok s =
      let s1 = (step 0 s).1 in
      let s2 = (step 1 s1).1 in
      rw (ok 0 (omega arith) s, ok 1 (omega arith) s1, ok 2 (omega arith) s2) refl

  pub write_all_cached-ok : (s : Actuator bus) → (write_all_cached bus s).0 ≡ true
  unfolding write_all_cached write_cached_joint
  write_all_cached-ok s = each_joint-ok _ (λ i known s'. write_off-ok _ _ _) s

  set_angle-ok : (a : ℤ) (i : ℕ) → i < 3 → (s : Actuator bus) → (set_angle bus i a s).0 ≡ true
  unfolding set_angle
  set_angle-ok a i known s =
      let in_range : leb 3 i ≡ false = ground arith in
      let stored = record s { cached_angles = λ j. if j == i then a else s.cached_angles j } in
      rw (in_range, write_joint-ok (joint_calibration i).channel (degree_to_ticks i a) stored) refl

  pub write_all-ok :
      (angles : ℕ → ℕ) (s : Actuator bus) → (write_all bus (some angles) 3 s).0 ≡ true
  unfolding write_all
  write_all-ok angles s =
      each_joint-ok (λ i. set_angle bus i (pos (angles i)))
        (λ i known s'. set_angle-ok (pos (angles i)) i known s') s

  pub configure-ok : (s : Actuator bus) → (configure bus s).0 ≡ true
  unfolding configure
  configure-ok s =
      and_then-ok _
        (λ s1. and_then bus (write_register bus 254 121 s1) (λ s2. write_register bus 0 32 s2))
        (write_register-ok 0 16 s)
        (λ s1.
          and_then-ok _ (λ s2. write_register bus 0 32 s2) (write_register-ok 254 121 s1)
            (write_register-ok 0 32))

  pub init-ok : (s : Actuator bus) → (init bus s).0 ≡ true
  unfolding init
  init-ok s = and_then-ok _ (write_all_cached bus) (configure-ok _) write_all_cached-ok
