-- ===== src/Firmware/Actuator/Holds.antt =====
-- `joint_actuator_rearm`, `joint_actuator_set_angle` and `joint_actuator_write_all` of
-- Hardware/firmware/src/joint_actuator.cpp, when they report success.
use auto_robotic_arms.Base.{
  ℕ, ◌+◌, ◌*◌, ◌/◌, ◌%◌, ◌<◌, ◌≤◌, ◌≡◌, refl, sym, subst, ap, ◌∙◌, ◌⊎◌, inl, inr, true, false, some,
  leb, ◌==◌, if◌then◌else◌, ==_iff, Bool-cases, ℤ, pos, arith,
}
use auto_robotic_arms.Firmware.Bus.{Bus}
use auto_robotic_arms.Firmware.Actuator.{
  Actuator, write_all_cached, configure, rearm, init, write_joint, set_angle, write_all,
  joint_calibration, degree_to_ticks,
}
use auto_robotic_arms.Firmware.Actuator.Cache.{write_joint-Keeps, configure-Keeps}
use auto_robotic_arms.Firmware.Actuator.Chip.{
  IsChip, and_then-true, write_joint-Leaves, write_joint-Wrote,
}
use auto_robotic_arms.Firmware.Actuator.Drives.{
  Shows, Shows-same, Does, Result, left-Shows, Wrote-Shows, outside, small_channel, joint-cases,
  each_joint-Shows, write_all_cached-Shows,
}

module _ (bus : Bus) (register : bus.State → ℕ → ℕ) (chip : IsChip bus register) where
  -- After a successful re-arm every joint has the ticks of its cached angle.
  pub rearm-Shows :
      (s : Actuator bus)
      → (rearm bus s).0 ≡ true
      → (j : ℕ) → j < 3
      → Shows bus register chip s.cached_angles j (rearm bus s).1
  unfolding rearm
  rearm-Shows s e =
      let (configured, whole) =
        and_then-true bus register chip (configure bus s) (write_all_cached bus) e in
      rw configured (
        write_all_cached-Shows bus register chip s.cached_angles (configure bus s).1
          (λ k known. ap (λ a. a k) (configure-Keeps bus s).cached) (ap (λ r. r.0) (sym whole) ∙ e))

  pub init-Shows :
      (s : Actuator bus)
      → (init bus s).0 ≡ true
      → (j : ℕ) → j < 3
      → Shows bus register chip s.cached_angles j (init bus s).1
  unfolding init
  init-Shows s e =
      let s0 = record s { device = bus.init s.device } in
      let (configured, whole) =
        and_then-true bus register chip (configure bus s0) (write_all_cached bus) e in
      rw configured (
        write_all_cached-Shows bus register chip s.cached_angles (configure bus s0).1
          (λ k known. ap (λ a. a k) (configure-Keeps bus s0).cached)
          (ap (λ r. r.0) (sym whole) ∙ e))

  eq_if-same : (i : ℕ) (a b : ℤ) → (if i == i then a else b) ≡ a
  eq_if-same i a b = rw ((==_iff i i).1 refl) refl

  -- One joint's step, on the state in which its angle is cached.
  module _ (c : ℕ → ℤ) (i : ℕ) (known : i < 3) (s : Actuator bus) where
    abbrev stored : Actuator bus
    stored = record s { cached_angles = λ k. if k == i then c i else s.cached_angles k }

    abbrev tried : Result bus register chip
    tried = write_joint bus (joint_calibration i).channel (degree_to_ticks i (c i)) stored

    in_range : leb 3 i ≡ false
    in_range = ground arith

    small_own : (joint_calibration i).channel ≤ 2
    small_own = small_channel bus register chip i known

    kept_angle : (k : ℕ) → tried.1.cached_angles k ≡ stored.cached_angles k
    kept_angle k = ap (λ a. a k) (write_joint-Keeps bus _ _ stored).cached

    own_angle : tried.1.cached_angles i ≡ c i
    own_angle = kept_angle i ∙ eq_if-same i (c i) (s.cached_angles i)

    other_angle : (j : ℕ) → (i == j) ≡ false → tried.1.cached_angles j ≡ s.cached_angles j
    other_angle j differ =
        let apart : (j == i) ≡ false = ground arith in kept_angle j ∙ rw apart refl

    -- The angle of a joint that the step is about, or that has its ticks.
    aimed_angle : (j : ℕ) → (i ≡ j) ⊎ Shows bus register chip c j s → tried.1.cached_angles j ≡ c j
    aimed_angle j (inl same) = subst (λ k. tried.1.cached_angles k ≡ c k) same own_angle
    aimed_angle j (inr shown) = elim (Bool-cases (i == j)) [
      | inl same ↦ subst (λ k. tried.1.cached_angles k ≡ c k) ((==_iff i j).0 same) own_angle
      | inr differ ↦ other_angle j differ ∙ shown.cached
    ]

    write_joint-Shows :
        tried.0 ≡ true
        → (j : ℕ) → (i ≡ j) ⊎ Shows bus register chip c j s
        → Shows bus register chip c j tried.1
    write_joint-Shows went j =
        joint-cases bus register chip c i j s tried.1
          (λ same.
            Wrote-Shows bus register chip c i j (c i) tried known same refl own_angle
              (write_joint-Wrote bus register chip _ _ stored small_own went))
          (λ differ shown.
            let apart = outside bus register chip i j known differ in
            let h =
              left-Shows bus register chip c j s tried shown
                (record {
                  same =
                      (write_joint-Leaves bus register chip (8 + j * 4) _ (degree_to_ticks i (c i))
                        stored small_own apart.0).same;
                })
                (record {
                  same =
                      (write_joint-Leaves bus register chip (9 + j * 4) _ (degree_to_ticks i (c i))
                        stored small_own apart.1).same;
                })
                (other_angle j differ) in
            h)

    or_rearm-Shows :
        (rearm bus tried.1).0 ≡ true
        → (j : ℕ) → j < 3
        → (i ≡ j) ⊎ Shows bus register chip c j s
        → Shows bus register chip c j (rearm bus tried.1).1
    or_rearm-Shows ok j jk x =
        Shows-same bus register chip tried.1.cached_angles c j (rearm bus tried.1).1
          (aimed_angle j x) (rearm-Shows tried.1 ok j jk)

    set_angle-Shows :
        (set_angle bus i (c i) s).0 ≡ true
        → (j : ℕ) → j < 3
        → (i ≡ j) ⊎ Shows bus register chip c j s
        → Shows bus register chip c j (set_angle bus i (c i) s).1
    unfolding set_angle
    set_angle-Shows ok j jk x = elim (Bool-cases tried.0) [
      | inl went ↦ rw (in_range, went) (write_joint-Shows went j x)
      | inr failed ↦ rw (in_range, failed) (or_rearm-Shows (rw (in_range, failed) at ok) j jk x)
    ]

  set_angle-Does : (c : ℕ → ℤ) → Does bus register chip (λ i. set_angle bus i (c i)) (λ _. Unit) c
  set_angle-Does c i known s start = (tt, set_angle-Shows c i known s)

  pub write_all-Shows :
      (angles : ℕ → ℕ) (s : Actuator bus)
      → (write_all bus (some angles) 3 s).0 ≡ true
      → (j : ℕ) → j < 3
      → Shows bus register chip (λ i. pos (angles i)) j (write_all bus (some angles) 3 s).1
  unfolding write_all
  write_all-Shows angles s ok =
      each_joint-Shows bus register chip _ (λ _. Unit) (λ i. pos (angles i)) s
        (set_angle-Does (λ i. pos (angles i))) tt ok

  -- On a bus on which a successful write stores its byte and no write changes another register,
  -- whatever fails on the way: when `joint_actuator_write_all` reports success for three angles, the
  -- off registers of each joint's channel hold the low and the high byte of the ticks of its angle,
  -- and the angle is cached.
  pub write_all_holds :
      (angles : ℕ → ℕ) (s : Actuator bus) (j : ℕ)
      → (write_all bus (some angles) 3 s).0 ≡ true
      → j < 3
      → let s' = (write_all bus (some angles) 3 s).1 in
        let ticks = degree_to_ticks j (pos (angles j)) in
        (register s'.device (8 + j * 4) ≡ ticks % 256)
        × (register s'.device (9 + j * 4) ≡ ticks / 256 % 16)
        × (s'.cached_angles j ≡ pos (angles j))
  write_all_holds angles s j ok known =
      let h = write_all-Shows angles s ok j known in (h.off.low, h.off.high, h.cached)
