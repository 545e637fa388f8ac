-- ===== src/Firmware/Actuator/Chip.antt =====
-- What the writes of Hardware/firmware/src/joint_actuator.cpp leave in the registers of the PCA9685.
use auto_robotic_arms.Base.{
  ℕ, zero, suc, ◌+◌, ◌*◌, ◌/◌, ◌%◌, ◌<◌, ◌≤◌, ◌≡◌, ◌≢◌, refl, sym, ap, ◌∙◌, ◌⊎◌, inl, inr, Bool,
  true, Bool-cases, arith,
}
use auto_robotic_arms.Firmware.Bus.{Bus}
use auto_robotic_arms.Firmware.Actuator.{
  Actuator, write_register, and_then, write_off, write_cached_joint, write_joint, reg_on_l,
  reg_off_l, reg_off_h, joint_calibration, degree_to_ticks,
}

-- The registers as one sees them: a write that succeeds stores its byte, and no write, whether it
-- succeeds or not, changes another register.
pub record IsChip (bus : Bus) (register : bus.State → ℕ → ℕ) : Type 0 where
  pub stored :
      (address reg byte : ℕ) (s : bus.State)
      → (bus.write_register address reg byte s).0 ≡ true
      → register (bus.write_register address reg byte s).1 reg ≡ byte
  pub other :
      (address reg byte q : ℕ) (s : bus.State)
      → q ≢ reg
      → register (bus.write_register address reg byte s).1 q ≡ register s q

-- No register of a channel.
abbrev pub IsOutside : ℕ → ℕ → Type 0
IsOutside channel q = (q < 6 + channel * 4) ⊎ (10 + channel * 4 ≤ q)

module _ (bus : Bus) (register : bus.State → ℕ → ℕ) (chip : IsChip bus register) where
  abbrev Result : Type 0
  Result = Bool × Actuator bus

  abbrev at : Actuator bus → ℕ → ℕ
  at s q = register s.device q

  pub record Leaves (q : ℕ) (s : Actuator bus) (r : Result) : Type 0 where
    pub same : register r.1.device q ≡ register s.device q

  pub and_then-Leaves :
      (q : ℕ) (s : Actuator bus) (r : Result) (next : Actuator bus → Result)
      → Leaves q s r
      → ((s' : Actuator bus) → Leaves q s' (next s'))
      → Leaves q s (and_then bus r next)
  and_then-Leaves q s r next first later = elim (Bool-cases r.0) [
    | inl ok ↦ rw ok (record { same = (later r.1).same ∙ first.same })
    | inr failed ↦ rw failed (record { same = first.same })
  ]

  pub write_register-Leaves :
      (q reg byte : ℕ) (s : Actuator bus) → q ≢ reg → Leaves q s (write_register bus reg byte s)
  unfolding write_register
  write_register-Leaves q reg byte s h = record { same = chip.other 64 reg byte q s.device h }

  write_off-Leaves :
      (q channel ticks : ℕ) (s : Actuator bus)
      → channel ≤ 2
      → IsOutside channel q
      → Leaves q s (write_off bus channel ticks s)
  unfolding write_off
  write_off-Leaves q channel ticks s small h =
      and_then-Leaves q s _ _
        (write_register-Leaves q (reg_off_l channel) (ticks % 256) s (ground arith))
        (λ s'. write_register-Leaves q (reg_off_h channel) (ticks / 256 % 16) s' (ground arith))

  pub write_joint-Leaves :
      (q channel ticks : ℕ) (s : Actuator bus)
      → channel ≤ 2
      → IsOutside channel q
      → Leaves q s (write_joint bus channel ticks s)
  unfolding write_joint
  write_joint-Leaves q channel ticks s small h =
      and_then-Leaves q s _ _ (write_register-Leaves q (reg_on_l channel) 0 s (ground arith)) (λ s1.
        and_then-Leaves q s1 _ _
          (write_register-Leaves q (reg_on_l channel + 1) 0 s1 (ground arith))
          (λ s2. write_off-Leaves q channel ticks s2 small h))

  pub write_cached_joint-Leaves :
      (q i : ℕ) (s : Actuator bus)
      → (joint_calibration i).channel ≤ 2
      → IsOutside (joint_calibration i).channel q
      → Leaves q s (write_cached_joint bus i s)
  unfolding write_cached_joint write_register
  write_cached_joint-Leaves q i s small h =
      let channel = (joint_calibration i).channel in
      let (ok1, s1) = write_register bus (reg_on_l channel) 0 s in
      let (ok2, s2) = write_register bus (reg_on_l channel + 1) 0 s1 in
      let a = write_register-Leaves q (reg_on_l channel) 0 s (ground arith) in
      let b = write_register-Leaves q (reg_on_l channel + 1) 0 s1 (ground arith) in
      let c = write_off-Leaves q channel (degree_to_ticks i (s2.cached_angles i)) s2 small h in
      record { same = c.same ∙ b.same ∙ a.same }

  -- The channel's low and high byte are those of the ticks.
  pub record IsOff (channel ticks : ℕ) (s : Actuator bus) : Type 0 where
    pub low : register s.device (8 + channel * 4) ≡ ticks % 256
    pub high : register s.device (9 + channel * 4) ≡ ticks / 256 % 16

  pub record Wrote (channel ticks : ℕ) (r : Result) : Type 0 where
    pub off : IsOff channel ticks r.1

  -- A chain that succeeds: its first step does, and the rest is the rest.
  pub and_then-true :
      (r : Result) (next : Actuator bus → Result)
      → (and_then bus r next).0 ≡ true
      → (r.0 ≡ true) × (and_then bus r next ≡ next r.1)
  and_then-true r next e = let ok : r.0 ≡ true = ground (arith, e) in (ok, rw ok refl)

  write_off-Wrote :
      (channel ticks : ℕ) (s : Actuator bus)
      → channel ≤ 2
      → (write_off bus channel ticks s).0 ≡ true
      → Wrote channel ticks (write_off bus channel ticks s)
  unfolding write_off write_register
  write_off-Wrote channel ticks s small e =
      let first = write_register bus (reg_off_l channel) (ticks % 256) s in
      let (ok, whole) =
        and_then-true first (write_register bus (reg_off_h channel) (ticks / 256 % 16)) e in
      let low_reg : reg_off_l channel ≡ 8 + channel * 4 = omega (arith, small) in
      let high_reg : reg_off_h channel ≡ 9 + channel * 4 = omega (arith, small) in
      let apart : reg_off_l channel ≢ reg_off_h channel = ground arith in
      let s1 = first.1 in
      let s2 = (write_register bus (reg_off_h channel) (ticks / 256 % 16) s1).1 in
      let low : register s2.device (8 + channel * 4) ≡ ticks % 256 =
        ap (register s2.device) (sym low_reg)
        ∙ chip.other 64 (reg_off_h channel) (ticks / 256 % 16) (reg_off_l channel) s1.device apart
        ∙ chip.stored 64 (reg_off_l channel) (ticks % 256) s.device ok in
      let high : register s2.device (9 + channel * 4) ≡ ticks / 256 % 16 =
        ap (register s2.device) (sym high_reg)
        ∙ chip.stored 64 (reg_off_h channel) (ticks / 256 % 16) s1.device
            (ap (λ r. r.0) (sym whole) ∙ e) in
      rw ok (record { off = record { low = low; high = high } })

  pub write_joint-Wrote :
      (channel ticks : ℕ) (s : Actuator bus)
      → channel ≤ 2
      → (write_joint bus channel ticks s).0 ≡ true
      → Wrote channel ticks (write_joint bus channel ticks s)
  unfolding write_joint
  write_joint-Wrote channel ticks s small e =
      let first = write_register bus (reg_on_l channel) 0 s in
      let rest = λ (s1 : Actuator bus).
        and_then bus (write_register bus (reg_on_l channel + 1) 0 s1)
          (write_off bus channel ticks) in
      let (ok1, whole1) = and_then-true first rest e in
      let second = write_register bus (reg_on_l channel + 1) 0 first.1 in
      let (ok2, whole2) =
        and_then-true second (write_off bus channel ticks) (ap (λ r. r.0) (sym whole1) ∙ e) in
      let last = ap (λ r. r.0) (sym (whole1 ∙ whole2)) ∙ e in
      rw (ok1, ok2) (write_off-Wrote channel ticks second.1 small last)

  pub write_cached_joint-Wrote :
      (i : ℕ) (s : Actuator bus)
      → (joint_calibration i).channel ≤ 2
      → (write_cached_joint bus i s).0 ≡ true
      → Wrote
          (joint_calibration i).channel
          (degree_to_ticks i (s.cached_angles i))
          (write_cached_joint bus i s)
  unfolding write_cached_joint write_register
  write_cached_joint-Wrote i s small e = record {
    off = (write_off-Wrote (joint_calibration i).channel _ _ small e).off;
  }

  pub channel_of : (i : ℕ) → i < 3 → (joint_calibration i).channel ≡ i
  channel_of zero known = refl
  channel_of (suc zero) known = refl
  channel_of (suc (suc zero)) known = refl
  channel_of (suc (suc (suc n))) known = absurd (omega (arith, known))
