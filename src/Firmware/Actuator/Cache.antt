-- ===== src/Firmware/Actuator/Cache.antt =====
-- The cached angles of Hardware/firmware/src/joint_actuator.cpp, whatever the bus does.
use auto_robotic_arms.Base.{
  ℕ, ◌+◌, ◌<◌, ◌≡◌, refl, ap, ◌∙◌, inl, inr, Bool, false, List, [], ◌∷◌, leb, ◌==◌, if◌then◌else◌,
  Bool-cases, ℤ, arith,
}
use auto_robotic_arms.Firmware.Bus.{Bus}
use auto_robotic_arms.Firmware.Actuator.{
  Actuator, write_register, and_then, write_off, write_cached_joint, each_joint, write_all_cached,
  configure, rearm, init, write_joint, set_angle, joints, reg_on_l, joint_calibration,
  degree_to_ticks,
}

module _ (bus : Bus) where
  abbrev Result : Type 0
  Result = Bool × Actuator bus

  pub record Keeps (s : Actuator bus) (r : Result) : Type 0 where
    pub cached : r.1.cached_angles ≡ s.cached_angles

  and_then-Keeps :
      (s : Actuator bus) (r : Result) (next : Actuator bus → Result)
      → Keeps s r
      → ((s' : Actuator bus) → Keeps s' (next s'))
      → Keeps s (and_then bus r next)
  and_then-Keeps s r next first later = elim (Bool-cases r.0) [
    | inl ok ↦ rw ok (record { cached = (later r.1).cached ∙ first.cached })
    | inr failed ↦ rw failed (record { cached = first.cached })
  ]

  write_register-Keeps : (reg byte : ℕ) (s : Actuator bus) → Keeps s (write_register bus reg byte s)
  unfolding write_register
  write_register-Keeps reg byte s = record { cached = refl }

  write_off-Keeps : (channel ticks : ℕ) (s : Actuator bus) → Keeps s (write_off bus channel ticks s)
  unfolding write_off
  write_off-Keeps channel ticks s =
      and_then-Keeps s _ _ (write_register-Keeps _ _ s) (write_register-Keeps _ _)

  pub write_cached_joint-Keeps : (i : ℕ) (s : Actuator bus) → Keeps s (write_cached_joint bus i s)
  unfolding write_cached_joint write_register
  write_cached_joint-Keeps i s = record { cached = (write_off-Keeps _ _ _).cached }

  each_joint-Keeps :
      (step : ℕ → Actuator bus → Result)
      → ((i : ℕ) (s : Actuator bus) → Keeps s (step i s))
      → (is : List ℕ) (s : Actuator bus) → Keeps s (each_joint bus step is s)
  unfolding each_joint
  each_joint-Keeps step keeps [] s = record { cached = refl }
  each_joint-Keeps step keeps (i ∷ is) s = record {
    cached = (each_joint-Keeps step keeps is (step i s).1).cached ∙ (keeps i s).cached;
  }

  pub write_all_cached-Keeps : (s : Actuator bus) → Keeps s (write_all_cached bus s)
  unfolding write_all_cached
  write_all_cached-Keeps s = each_joint-Keeps _ write_cached_joint-Keeps joints s

  pub configure-Keeps : (s : Actuator bus) → Keeps s (configure bus s)
  unfolding configure
  configure-Keeps s =
      and_then-Keeps s _ _ (write_register-Keeps 0 16 s)
        (λ s1. and_then-Keeps s1 _ _ (write_register-Keeps 254 121 s1) (write_register-Keeps 0 32))

  pub rearm-Keeps : (s : Actuator bus) → Keeps s (rearm bus s)
  unfolding rearm
  rearm-Keeps s = and_then-Keeps s _ _ (configure-Keeps s) write_all_cached-Keeps

  pub init-Keeps : (s : Actuator bus) → Keeps s (init bus s)
  unfolding init
  init-Keeps s = record {
    cached =
        (and_then-Keeps (record s { device = bus.init s.device }) _ _ (configure-Keeps _)
          write_all_cached-Keeps).cached;
  }

  pub write_joint-Keeps :
      (channel ticks : ℕ) (s : Actuator bus) → Keeps s (write_joint bus channel ticks s)
  unfolding write_joint
  write_joint-Keeps channel ticks s = and_then-Keeps s _ _ (write_register-Keeps _ _ s) (λ s1.
      and_then-Keeps s1 _ _ (write_register-Keeps (reg_on_l channel + 1) 0 s1)
        (write_off-Keeps channel ticks))

  -- `set_angle` stores the angle, and leaves the other ones.
  pub set_angle-cached :
      (i j : ℕ) (a : ℤ) (s : Actuator bus)
      → i < 3
      → (set_angle bus i a s).1.cached_angles j ≡ (if j == i then a else s.cached_angles j)
  unfolding set_angle
  set_angle-cached i j a s known =
      let stored = record s { cached_angles = λ k. if k == i then a else s.cached_angles k } in
      let in_range : leb 3 i ≡ false = ground arith in
      let r = write_joint bus (joint_calibration i).channel (degree_to_ticks i a) stored in
      let kept = write_joint-Keeps (joint_calibration i).channel (degree_to_ticks i a) stored in
      rw in_range (elim (Bool-cases r.0) [
        | inl ok ↦ rw ok (ap (λ c. c j) kept.cached)
        | inr failed ↦ rw failed (ap (λ c. c j) ((rearm-Keeps r.1).cached ∙ kept.cached))
      ])
