-- ===== src/Firmware/Actuator/Awake.antt =====
-- The mode and the prescaler of the servo chip under Hardware/firmware/src/joint_actuator.cpp, on a bus
-- on which no write fails.
use auto_robotic_arms.Base.{
  ℕ, ◌<◌, ◌≡◌, ◌≢◌, ◌∙◌, inl, inr, Bool, false, some, leb, ◌==◌, if◌then◌else◌, ℤ, pos, arith,
}
use auto_robotic_arms.Firmware.Bus.{Bus}
use auto_robotic_arms.Firmware.Actuator.{
  Actuator, write_register, write_cached_joint, each_joint, write_all_cached, configure, init,
  set_angle, write_all, joints, joint_calibration, degree_to_ticks,
}
use auto_robotic_arms.Firmware.Actuator.Chip.{
  IsChip, IsOutside, Leaves, write_joint-Leaves, write_cached_joint-Leaves,
}
use auto_robotic_arms.Firmware.Actuator.Drives.{small_channel}
use auto_robotic_arms.Firmware.Actuator.Reliable.{IsReliable, write_joint-ok, configure-ok}

module _ (bus : Bus) (register : bus.State → ℕ → ℕ) (chip : IsChip bus register)
    (reliable : IsReliable bus) where
  abbrev Step : Type 0
  Step = Actuator bus → Bool × Actuator bus

  -- No register of any joint.
  abbrev IsGlobal : ℕ → Type 0
  IsGlobal q = (i : ℕ) → i < 3 → IsOutside (joint_calibration i).channel q

  each_joint-Leaves :
      (q : ℕ) (step : ℕ → Step)
      → ((i : ℕ) → i < 3 → (s : Actuator bus) → Leaves bus register chip q s (step i s))
      → (s : Actuator bus) → Leaves bus register chip q s (each_joint bus step joints s)
  unfolding each_joint
  each_joint-Leaves q step leaves s =
      let s1 = (step 0 s).1 in
      let s2 = (step 1 s1).1 in
      record {
        same =
            (leaves 2 (omega arith) s2).same
            ∙ (leaves 1 (omega arith) s1).same
            ∙ (leaves 0 (omega arith) s).same;
      }

  write_all_cached-Leaves :
      (q : ℕ) (s : Actuator bus)
      → IsGlobal q
      → Leaves bus register chip q s (write_all_cached bus s)
  unfolding write_all_cached
  write_all_cached-Leaves q s h =
      each_joint-Leaves q (write_cached_joint bus)
        (λ i known s'.
          write_cached_joint-Leaves bus register chip q i s'
            (small_channel bus register chip i known) (h i known))
        s

  set_angle-Leaves :
      (q : ℕ) (a : ℤ) (i : ℕ) (s : Actuator bus)
      → IsGlobal q
      → i < 3
      → Leaves bus register chip q s (set_angle bus i a s)
  unfolding set_angle
  set_angle-Leaves q a i s h known =
      let in_range : leb 3 i ≡ false = ground arith in
      let stored = record s { cached_angles = λ j. if j == i then a else s.cached_angles j } in
      let channel = (joint_calibration i).channel in
      let left =
        write_joint-Leaves bus register chip q channel (degree_to_ticks i a) stored
          (small_channel bus register chip i known) (h i known) in
      rw (in_range, write_joint-ok bus reliable channel (degree_to_ticks i a) stored)
        (record { same = left.same })

  write_all-Leaves :
      (q : ℕ) (angles : ℕ → ℕ) (s : Actuator bus)
      → IsGlobal q
      → Leaves bus register chip q s (write_all bus (some angles) 3 s)
  unfolding write_all
  write_all-Leaves q angles s h =
      each_joint-Leaves q (λ i. set_angle bus i (pos (angles i)))
        (λ i known s'. set_angle-Leaves q (pos (angles i)) i s' h known) s

  -- MODE1 with auto-increment and without the sleep bit, and the prescaler of 50 Hz.
  pub record IsAwake (s : Actuator bus) : Type 0 where
    pub mode : register s.device 0 ≡ 32
    pub prescaler : register s.device 254 ≡ 121

  mode-IsGlobal : IsGlobal 0
  mode-IsGlobal i known = inl (omega arith)

  prescaler-IsGlobal : IsGlobal 254
  prescaler-IsGlobal i known = inr (omega (arith, small_channel bus register chip i known))

  Leaves-IsAwake :
      (s : Actuator bus) (r : Bool × Actuator bus)
      → ((q : ℕ) → IsGlobal q → Leaves bus register chip q s r)
      → IsAwake s
      → IsAwake r.1
  Leaves-IsAwake s r leaves h = record {
    mode = (leaves 0 mode-IsGlobal).same ∙ h.mode;
    prescaler = (leaves 254 prescaler-IsGlobal).same ∙ h.prescaler;
  }

  pub write_all_cached-IsAwake : (s : Actuator bus) → IsAwake s → IsAwake (write_all_cached bus s).1
  write_all_cached-IsAwake s =
      Leaves-IsAwake s (write_all_cached bus s) (λ q. write_all_cached-Leaves q s)

  pub write_all-IsAwake :
      (angles : ℕ → ℕ) (s : Actuator bus) → IsAwake s → IsAwake (write_all bus (some angles) 3 s).1
  write_all-IsAwake angles s =
      Leaves-IsAwake s (write_all bus (some angles) 3 s) (λ q. write_all-Leaves q angles s)

  configure-IsAwake : (s : Actuator bus) → IsAwake (configure bus s).1
  unfolding configure write_register
  configure-IsAwake s =
      let d1 = (bus.write_register 64 0 16 s.device).1 in
      let d2 = (bus.write_register 64 254 121 d1).1 in
      let apart : 254 ≢ 0 = ground arith in
      rw (reliable 64 0 16 s.device, reliable 64 254 121 d1)
        (record {
          mode = chip.stored 64 0 32 d2 (reliable 64 0 32 d2);
          prescaler =
              chip.other 64 0 32 254 d2 apart ∙ chip.stored 64 254 121 d1 (reliable 64 254 121 d1);
        })

  pub init-IsAwake : (s : Actuator bus) → IsAwake (init bus s).1
  unfolding init
  init-IsAwake s =
      let s0 = record s { device = bus.init s.device } in
      rw (configure-ok bus reliable s0)
        (write_all_cached-IsAwake (configure bus s0).1 (configure-IsAwake s0))
