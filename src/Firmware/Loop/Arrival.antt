-- ===== src/Firmware/Loop/Arrival.antt =====
-- The super-loop of Hardware/firmware/src/main.cpp on its way to a target, without new bytes.
use auto_robotic_arms.Base.{
  ℕ, suc, ◌+◌, ◌-◌, ◌*◌, ◌≤◌, ◌≡◌, refl, sym, subst, inl, inr, true, false, List, [], ◌∷◌, none,
  leb, ◌==◌, Bool-cases, arith, length,
}
use auto_robotic_arms.Firmware.{JointBytes}
use auto_robotic_arms.Firmware.Ring.{CircularBuffer, circular_buffer_read, circular_buffer_is_empty}
use auto_robotic_arms.Firmware.Watchdog.{Watchdog, watchdog_check, elapsed}
use auto_robotic_arms.Firmware.Loop.{
  Superloop, usart_rx, task_a, drain, slew_byte, slew_pose, motion_required, actuate, task_c, Round,
  loop_round, run,
}
use auto_robotic_arms.Firmware.Loop.Clamped.{IsClamped}

-- Rounds without bytes, with a healthy watchdog, each at least 20 ms after the one before.
abbrev pub IsIdle : Watchdog → ℕ → List Round → Type 0
IsIdle w last_ms [] = Unit
IsIdle w last_ms (r ∷ rs) =
    (r.received ≡ [])
    × (20 ≤ elapsed r.current_ms last_ms)
    × ((watchdog_check r.check_ms w).0 ≡ true)
    × IsIdle w r.current_ms rs

-- At most `k` degrees apart.
abbrev IsBy : ℕ → ℕ → ℕ → Type 0
IsBy k target current = (target ≤ current + k) × (current ≤ target + k)

record IsByPose (k : ℕ) (target current : JointBytes) : Type 0 where
  j0 : IsBy k target.j0 current.j0
  j1 : IsBy k target.j1 current.j1
  j2 : IsBy k target.j2 current.j2

slew_byte-IsBy :
    (k target current : ℕ)
    → target ≤ 180
    → current ≤ 180
    → IsBy k target current
    → IsBy (k - 2) target (slew_byte target current) × (slew_byte target current ≤ 180)
slew_byte-IsBy k target current ht hc near = ground arith

slew_byte-same :
    (target current : ℕ) → (current == target) ≡ true → slew_byte target current ≡ current
slew_byte-same target current e = ground arith

still-pose :
    (target current : JointBytes)
    → motion_required target current ≡ false
    → slew_pose target current ≡ current
still-pose target current still =
    let s0 = slew_byte-same target.j0 current.j0 (ground (arith, still)) in
    let s1 = slew_byte-same target.j1 current.j1 (ground (arith, still)) in
    let s2 = slew_byte-same target.j2 current.j2 (ground (arith, still)) in
    λ i. record { j0 = s0 i; j1 = s1 i; j2 = s2 i }

-- What Task C leaves, whether or not a pose is sent.
abbrev advanced : Superloop → Superloop
advanced s = record s { current_angles = slew_pose s.mcu.target_angles s.current_angles }

actuate-state : (s : Superloop) → (actuate s).1 ≡ advanced s
actuate-state s = elim (Bool-cases (motion_required s.mcu.target_angles s.current_angles)) [
  | inl needed ↦ rw needed refl
  | inr still ↦
      let same = still-pose s.mcu.target_angles s.current_angles still in
      rw still (λ i. record s { current_angles = sym same i })
]

pub check-same :
    (now : ℕ) (w : Watchdog) → (watchdog_check now w).0 ≡ true → watchdog_check now w ≡ (true, w)
unfolding watchdog_check
check-same now w healthy = ground arith

read-empty :
    (cb : CircularBuffer)
    → circular_buffer_is_empty cb ≡ true
    → circular_buffer_read cb ≡ (none, cb)
unfolding circular_buffer_read circular_buffer_is_empty
read-empty cb empty = rw empty refl

drain-empty :
    (now : ℕ) (s : Superloop) → circular_buffer_is_empty s.rx_buffer ≡ true → drain now s ≡ ([], s)
unfolding drain
drain-empty now s empty = rw (read-empty s.rx_buffer empty) refl

task_c-due :
    (now : ℕ) (s : Superloop)
    → 20 ≤ elapsed now s.last_actuator_ms
    → task_c now true s ≡ actuate (record s { last_actuator_ms = now })
unfolding task_c
task_c-due now s due =
    let at_time : leb 20 (elapsed now s.last_actuator_ms) ≡ true = ground arith in rw at_time refl

round_advances :
    (r : Round) (s : Superloop)
    → r.received ≡ []
    → circular_buffer_is_empty s.rx_buffer ≡ true
    → 20 ≤ elapsed r.current_ms s.last_actuator_ms
    → (watchdog_check r.check_ms s.watchdog).0 ≡ true
    → (loop_round r s).1 ≡ advanced (record s { last_actuator_ms = r.current_ms })
unfolding loop_round task_a usart_rx
round_advances r s silent empty due healthy =
    rw
      (
        silent,
        check-same r.check_ms s.watchdog healthy,
        drain-empty r.reset_ms s empty,
        task_c-due r.current_ms s due,
      )
      (actuate-state (record s { last_actuator_ms = r.current_ms }))

-- A board with an empty ring, `k` degrees or less from its target at every joint.
record IsComing (k : ℕ) (target : JointBytes) (w : Watchdog) (s : Superloop) : Type 0 where
  aimed : s.mcu.target_angles ≡ target
  watched : s.watchdog ≡ w
  empty : circular_buffer_is_empty s.rx_buffer ≡ true
  current : IsClamped s.current_angles
  near : IsByPose k target s.current_angles

advanced-IsComing :
    (k : ℕ) (target : JointBytes) (w : Watchdog) (now : ℕ) (s : Superloop)
    → IsClamped target
    → IsComing k target w s
    → IsComing (k - 2) target w (advanced (record s { last_actuator_ms = now }))
advanced-IsComing k target w now s ht h =
    let c = s.current_angles in
    let b0 = slew_byte-IsBy k target.j0 c.j0 ht.j0 h.current.j0 h.near.j0 in
    let b1 = slew_byte-IsBy k target.j1 c.j1 ht.j1 h.current.j1 h.near.j1 in
    let b2 = slew_byte-IsBy k target.j2 c.j2 ht.j2 h.current.j2 h.near.j2 in
    record {
      aimed = h.aimed;
      watched = h.watched;
      empty = h.empty;
      current =
          subst (λ t. IsClamped (slew_pose t c)) (sym h.aimed)
            (record { j0 = b0.1; j1 = b1.1; j2 = b2.1 });
      near =
          subst (λ t. IsByPose (k - 2) target (slew_pose t c)) (sym h.aimed)
            (record { j0 = b0.0; j1 = b1.0; j2 = b2.0 });
    }

run-IsComing :
    (rs : List Round) (k : ℕ) (target : JointBytes) (w : Watchdog) (s : Superloop)
    → IsClamped target
    → IsIdle w s.last_actuator_ms rs
    → IsComing k target w s
    → IsComing (k - 2 * length rs) target w (run rs s).1
unfolding run
run-IsComing [] k target w s ht idle h =
    let same : k ≡ k - 2 * 0 = omega arith in subst (λ j. IsComing j target w s) same h
run-IsComing (r ∷ rs) k target w s ht idle h =
    let (silent, due, healthy, rest) = idle in
    let s1 = (loop_round r s).1 in
    let to =
      round_advances r s silent h.empty due
        (subst (λ v. (watchdog_check r.check_ms v).0 ≡ true) (sym h.watched) healthy) in
    let h1 =
      subst (IsComing (k - 2) target w) (sym to)
        (advanced-IsComing k target w r.current_ms s ht h) in
    let rest1 = subst (λ x. IsIdle w x.last_actuator_ms rs) (sym to) rest in
    let fewer : k - 2 - 2 * length rs ≡ k - 2 * suc (length rs) = omega arith in
    subst (λ j. IsComing j target w (run rs s1).1) fewer
      (run-IsComing rs (k - 2) target w s1 ht rest1 h1)

clamped-IsByPose :
    (target current : JointBytes)
    → IsClamped target
    → IsClamped current
    → IsByPose 180 target current
clamped-IsByPose target current ht hc = record {
  j0 = omega (arith, ht.j0, hc.j0);
  j1 = omega (arith, ht.j1, hc.j1);
  j2 = omega (arith, ht.j2, hc.j2);
}

eq_of_IsByPose : (target current : JointBytes) → IsByPose 0 target current → current ≡ target
eq_of_IsByPose target current h =
    let e0 : current.j0 ≡ target.j0 = omega (arith, h.j0) in
    let e1 : current.j1 ≡ target.j1 = omega (arith, h.j1) in
    let e2 : current.j2 ≡ target.j2 = omega (arith, h.j2) in
    λ i. record { j0 = e0 i; j1 = e1 i; j2 = e2 i }

-- The arm arrives: from a pose and with a target in 0..180, 90 rounds at least 20 ms apart, without
-- bytes waiting or coming and with a healthy watchdog at each check, bring every joint onto its
-- target, and further ones keep it there.
pub board_arrives :
    (rs : List Round) (s : Superloop)
    → IsClamped s.mcu.target_angles
    → IsClamped s.current_angles
    → circular_buffer_is_empty s.rx_buffer ≡ true
    → IsIdle s.watchdog s.last_actuator_ms rs
    → 90 ≤ length rs
    → (run rs s).1.current_angles ≡ s.mcu.target_angles
board_arrives rs s target current empty idle long =
    let start : IsComing 180 s.mcu.target_angles s.watchdog s = record {
      aimed = refl;
      watched = refl;
      empty = empty;
      current = current;
      near = clamped-IsByPose s.mcu.target_angles s.current_angles target current;
    } in
    let h = run-IsComing rs 180 s.mcu.target_angles s.watchdog s target idle start in
    let none_left : 180 - 2 * length rs ≡ 0 = omega arith in
    eq_of_IsByPose s.mcu.target_angles (run rs s).1.current_angles
      (subst (λ j. IsByPose j s.mcu.target_angles (run rs s).1.current_angles) none_left h.near)
