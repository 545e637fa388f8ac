-- ===== src/Firmware/Actuator/Drives.antt =====
-- When Hardware/firmware/src/joint_actuator.cpp reports success, the servos have their ticks.
use auto_robotic_arms.Base.{
  ℕ, zero, suc, ◌+◌, ◌*◌, ◌<◌, ◌≤◌, ◌≡◌, refl, subst, ap, ◌∙◌, ◌⊎◌, inl, inr, Bool, true, false,
  ◌==◌, ==_iff, Bool-cases, ℤ, arith,
}
use auto_robotic_arms.Firmware.Bus.{Bus}
use auto_robotic_arms.Firmware.Actuator.{
  Actuator, write_cached_joint, each_joint, write_all_cached, joints, joint_calibration,
  degree_to_ticks,
}
use auto_robotic_arms.Firmware.Actuator.Cache.{write_cached_joint-Keeps}
use auto_robotic_arms.Firmware.Actuator.Chip.{
  IsChip, IsOutside, IsOff, Wrote, Leaves, write_cached_joint-Leaves, write_cached_joint-Wrote,
  channel_of,
}

module _ (bus : Bus) (register : bus.State → ℕ → ℕ) (chip : IsChip bus register) where
  abbrev pub Result : Type 0
  Result = Bool × Actuator bus

  -- Joint `j` has the ticks of the angle in `c`, which is cached.
  pub record Shows (c : ℕ → ℤ) (j : ℕ) (s : Actuator bus) : Type 0 where
    pub off : IsOff bus register chip j (degree_to_ticks j (c j)) s
    pub cached : s.cached_angles j ≡ c j

  -- Angles that agree at the joint.
  pub Shows-same :
      (c c' : ℕ → ℤ) (j : ℕ) (s : Actuator bus) → c j ≡ c' j → Shows c j s → Shows c' j s
  Shows-same c c' j s e h = record {
    off = subst (λ a. IsOff bus register chip j (degree_to_ticks j a) s) e h.off;
    cached = h.cached ∙ e;
  }

  -- What one step does for joint `i`.
  abbrev pub DoesAt :
      (ℕ → Actuator bus → Result) → (Actuator bus → Type 0) → (ℕ → ℤ) → ℕ → Actuator bus → Type 0
  DoesAt step Inv c i s =
      Inv (step i s).1
      × ((step i s).0 ≡ true → (j : ℕ) → j < 3 → (i ≡ j) ⊎ Shows c j s → Shows c j (step i s).1)

  -- What a successful step of a loop over the joints does.
  abbrev pub Does : (ℕ → Actuator bus → Result) → (Actuator bus → Type 0) → (ℕ → ℤ) → Type 0
  Does step Inv c = (i : ℕ) → i < 3 → (s : Actuator bus) → Inv s → DoesAt step Inv c i s

  each_joint-true :
      (step : ℕ → Actuator bus → Result) (s : Actuator bus)
      → (each_joint bus step joints s).0 ≡ true
      → ((step 0 s).0 ≡ true)
        × ((step 1 (step 0 s).1).0 ≡ true)
        × ((step 2 (step 1 (step 0 s).1).1).0 ≡ true)
  unfolding each_joint
  each_joint-true step s e = (ground (arith, e), ground (arith, e), ground (arith, e))

  pub each_joint-Shows :
      (step : ℕ → Actuator bus → Result) (Inv : Actuator bus → Type 0) (c : ℕ → ℤ)
      (s : Actuator bus)
      → Does step Inv c
      → Inv s
      → (each_joint bus step joints s).0 ≡ true
      → (j : ℕ) → j < 3
      → Shows c j (each_joint bus step joints s).1
  unfolding each_joint
  each_joint-Shows step Inv c s does start e = whole
    where
      oks :
          ((step 0 s).0 ≡ true)
          × ((step 1 (step 0 s).1).0 ≡ true)
          × ((step 2 (step 1 (step 0 s).1).1).0 ≡ true)
      oks = each_joint-true step s e

      s1 : Actuator bus
      s1 = (step 0 s).1

      s2 : Actuator bus
      s2 = (step 1 s1).1

      d0 : DoesAt step Inv c 0 s
      d0 = does 0 (omega arith) s start

      d1 : DoesAt step Inv c 1 s1
      d1 = does 1 (omega arith) s1 d0.0

      d2 : DoesAt step Inv c 2 s2
      d2 = does 2 (omega arith) s2 d1.0

      whole : (j : ℕ) → j < 3 → Shows c j (step 2 s2).1
      whole zero known =
          d2.1 oks.2 0 known (inr (d1.1 oks.1 0 known (inr (d0.1 oks.0 0 known (inl refl)))))
      whole (suc zero) known = d2.1 oks.2 1 known (inr (d1.1 oks.1 1 known (inl refl)))
      whole (suc (suc zero)) known = d2.1 oks.2 2 known (inl refl)
      whole (suc (suc (suc j))) known = absurd (omega (arith, known))

  abbrev pub Caches : (ℕ → ℤ) → Actuator bus → Type 0
  Caches c s = (k : ℕ) → k < 3 → s.cached_angles k ≡ c k

  -- A joint whose registers and cached angle are left alone.
  pub left-Shows :
      (c : ℕ → ℤ) (j : ℕ) (s : Actuator bus) (r : Result)
      → Shows c j s
      → Leaves bus register chip (8 + j * 4) s r
      → Leaves bus register chip (9 + j * 4) s r
      → r.1.cached_angles j ≡ s.cached_angles j
      → Shows c j r.1
  left-Shows c j s r h low high same = record {
    off = record { low = low.same ∙ h.off.low; high = high.same ∙ h.off.high };
    cached = same ∙ h.cached;
  }

  -- The joint that is written.
  pub Wrote-Shows :
      (c : ℕ → ℤ) (i j : ℕ) (a : ℤ) (r : Result)
      → i < 3
      → i ≡ j
      → a ≡ c i
      → r.1.cached_angles i ≡ c i
      → Wrote bus register chip (joint_calibration i).channel (degree_to_ticks i a) r
      → Shows c j r.1
  Wrote-Shows c i j a r known same angle cached w =
      subst (λ k. Shows c k r.1) same
        (record {
          off =
              subst (λ b. IsOff bus register chip i (degree_to_ticks i b) r.1) angle
                (subst (λ ch. IsOff bus register chip ch (degree_to_ticks i a) r.1)
                  (channel_of bus register chip i known) w.off);
          cached = cached;
        })

  -- The registers of another joint.
  pub outside :
      (i j : ℕ)
      → i < 3
      → (i == j) ≡ false
      → IsOutside (joint_calibration i).channel (8 + j * 4)
        × IsOutside (joint_calibration i).channel (9 + j * 4)
  outside i j known differ =
      rw (channel_of bus register chip i known) (ground (arith, differ), ground (arith, differ))

  pub small_channel : (i : ℕ) → i < 3 → (joint_calibration i).channel ≤ 2
  small_channel i known = rw (channel_of bus register chip i known) (omega (arith, known))

  -- By whether the joint is the one that a step is about.
  pub joint-cases :
      (c : ℕ → ℤ) (i j : ℕ) (s s' : Actuator bus)
      → (i ≡ j → Shows c j s')
      → ((i == j) ≡ false → Shows c j s → Shows c j s')
      → (i ≡ j) ⊎ Shows c j s
      → Shows c j s'
  joint-cases c i j s s' new old (inl same) = new same
  joint-cases c i j s s' new old (inr shown) = elim (Bool-cases (i == j)) [
    | inl same ↦ new ((==_iff i j).0 same)
    | inr differ ↦ old differ shown
  ]

  cached_joint-Does : (c : ℕ → ℤ) → Does (write_cached_joint bus) (Caches c) c
  cached_joint-Does c i known s caches =
      let r = write_cached_joint bus i s in
      let kept = write_cached_joint-Keeps bus i s in
      let cached = λ (k : ℕ). ap (λ a. a k) kept.cached in
      (
        (λ k kk. cached k ∙ caches k kk),
        (λ ok j jk.
            joint-cases c i j s r.1
              (λ same.
                Wrote-Shows c i j (s.cached_angles i) r known same (caches i known)
                  (cached i ∙ caches i known)
                  (write_cached_joint-Wrote bus register chip i s (small_channel i known) ok))
              (λ differ shown.
                left-Shows c j s r shown
                  (write_cached_joint-Leaves bus register chip (8 + j * 4) i s
                    (small_channel i known) (outside i j known differ).0)
                  (write_cached_joint-Leaves bus register chip (9 + j * 4) i s
                    (small_channel i known) (outside i j known differ).1)
                  (cached j))),
      )

  pub write_all_cached-Shows :
      (c : ℕ → ℤ) (s : Actuator bus)
      → Caches c s
      → (write_all_cached bus s).0 ≡ true
      → (j : ℕ) → j < 3
      → Shows c j (write_all_cached bus s).1
  unfolding write_all_cached
  write_all_cached-Shows c s caches e =
      each_joint-Shows (write_cached_joint bus) (Caches c) c s (cached_joint-Does c) caches e
