-- ===== src/Firmware/Loop/Smooth.antt =====
-- The poses that the super-loop of Hardware/firmware/src/main.cpp sends to the actuators, from the
-- setup on.
use auto_robotic_arms.Base.{
  ℕ, ◌+◌, ◌≤◌, ◌≡◌, refl, sym, subst, ap, ◌∙◌, inl, inr, Bool, List, [], ◌∷◌, ◌++◌, Option, none,
  some, leb, Bool-cases, arith,
}
use auto_robotic_arms.Firmware.{JointBytes, Mcu, task_b, packet_parser_init}
use auto_robotic_arms.Firmware.Ring.{CircularBuffer, circular_buffer_read}
use auto_robotic_arms.Firmware.Watchdog.{watchdog_check, elapsed}
use auto_robotic_arms.Firmware.Loop.{
  Superloop, Output, held, answered, moved, centre, hardware_setup, usart_rx, halted, task_a,
  after_ack, feed, drain, slew_byte, slew_pose, motion_required, actuate, task_c, Round, loop_round,
  run,
}
use auto_robotic_arms.Firmware.Loop.Clamped.{IsClamped, IsAimed, task_b-IsAimed}

-- Every joint is within two degrees of where it was.
pub record IsNear (next last : JointBytes) : Type 0 where
  pub j0 : (next.j0 ≤ last.j0 + 2) × (last.j0 ≤ next.j0 + 2)
  pub j1 : (next.j1 ≤ last.j1 + 2) × (last.j1 ≤ next.j1 + 2)
  pub j2 : (next.j2 ≤ last.j2 + 2) × (last.j2 ≤ next.j2 + 2)

-- The poses among the outputs.
abbrev pub poses : List Output → List JointBytes
poses [] = []
poses (moved a ∷ out) = a ∷ poses out
poses (held ∷ out) = poses out
poses (answered _ ∷ out) = poses out

-- Poses from one on: each in 0..180 at every joint and near the one before it.
abbrev pub IsSmooth : JointBytes → List JointBytes → Type 0
IsSmooth last [] = Unit
IsSmooth last (a ∷ more) = IsClamped a × IsNear a last × IsSmooth a more

abbrev pub last_pose : JointBytes → List JointBytes → JointBytes
last_pose a [] = a
last_pose a (b ∷ more) = last_pose b more

pub poses-append : (xs ys : List Output) → poses (xs ++ ys) ≡ poses xs ++ poses ys
poses-append [] ys = refl
poses-append (held ∷ xs) ys = poses-append xs ys
poses-append (answered _ ∷ xs) ys = poses-append xs ys
poses-append (moved a ∷ xs) ys = ap (λ p. a ∷ p) (poses-append xs ys)

IsSmooth-append :
    (a : JointBytes) (xs ys : List JointBytes)
    → IsSmooth a xs
    → IsSmooth (last_pose a xs) ys
    → IsSmooth a (xs ++ ys)
IsSmooth-append a [] ys hx hy = hy
IsSmooth-append a (b ∷ xs) ys hx hy = (hx.0, hx.1, IsSmooth-append b xs ys hx.2 hy)

slew_byte-bounds :
    (target current : ℕ)
    → target ≤ 180
    → current ≤ 180
    → (slew_byte target current ≤ 180)
      × (slew_byte target current ≤ current + 2)
      × (current ≤ slew_byte target current + 2)
slew_byte-bounds target current ht hc = ground arith

-- The board: clamped targets and a clamped pose.
pub record IsBoard (s : Superloop) : Type 0 where
  pub aimed : IsAimed s.mcu
  pub current : IsClamped s.current_angles

-- What a part of a round does: its poses go on from the pose it finds to the one it leaves.
pub record Moves (s : Superloop) (r : List Output × Superloop) : Type 0 where
  pub board : IsBoard r.1
  smooth : IsSmooth s.current_angles (poses r.0)
  pub last : r.1.current_angles ≡ last_pose s.current_angles (poses r.0)

actuate-Moves : (s : Superloop) → IsBoard s → Moves s (actuate s)
actuate-Moves s h =
    let target = h.aimed.target in
    let b0 = slew_byte-bounds s.mcu.target_angles.j0 s.current_angles.j0 target.j0 h.current.j0 in
    let b1 = slew_byte-bounds s.mcu.target_angles.j1 s.current_angles.j1 target.j1 h.current.j1 in
    let b2 = slew_byte-bounds s.mcu.target_angles.j2 s.current_angles.j2 target.j2 h.current.j2 in
    let next : IsClamped (slew_pose s.mcu.target_angles s.current_angles) = record {
      j0 = b0.0;
      j1 = b1.0;
      j2 = b2.0;
    } in
    let near : IsNear (slew_pose s.mcu.target_angles s.current_angles) s.current_angles = record {
      j0 = (b0.1, b0.2);
      j1 = (b1.1, b1.2);
      j2 = (b2.1, b2.2);
    } in
    elim (Bool-cases (motion_required s.mcu.target_angles s.current_angles)) [
      | inl needed ↦ rw needed (record {
        board = record { aimed = h.aimed; current = next };
        smooth = (next, near, tt);
        last = refl;
      })
      | inr idle ↦ rw idle (record { board = h; smooth = tt; last = refl })
    ]

silent :
    (s : Superloop) (out : List Output) (s' : Superloop)
    → poses out ≡ []
    → s'.current_angles ≡ s.current_angles
    → IsAimed s'.mcu
    → IsBoard s
    → Moves s (out, s')
silent s out s' quiet same aimed h = record {
  board = record { aimed = aimed; current = subst IsClamped (sym same) h.current };
  smooth = subst (IsSmooth s.current_angles) (sym quiet) tt;
  last = same ∙ ap (last_pose s.current_angles) (sym quiet);
}

last_pose-append :
    (a : JointBytes) (xs ys : List JointBytes)
    → last_pose (last_pose a xs) ys ≡ last_pose a (xs ++ ys)
last_pose-append a [] ys = refl
last_pose-append a (b ∷ xs) ys = last_pose-append b xs ys

-- One part after another.
then-Moves :
    (s : Superloop) (out more : List Output) (s1 s2 : Superloop)
    → Moves s (out, s1)
    → Moves s1 (more, s2)
    → Moves s (out ++ more, s2)
then-Moves s out more s1 s2 first second = record {
  board = second.board;
  smooth = subst (IsSmooth s.current_angles) (sym (poses-append out more)) (
      IsSmooth-append s.current_angles (poses out) (poses more) first.smooth
        (subst (λ a. IsSmooth a (poses more)) first.last second.smooth));
  last =
      second.last
      ∙ ap (λ a. last_pose a (poses more)) first.last
      ∙ last_pose-append s.current_angles (poses out) (poses more)
      ∙ ap (last_pose s.current_angles) (sym (poses-append out more));
}

halted-IsAimed : (m : Mcu) → IsAimed m → IsAimed (halted m)
halted-IsAimed m h = ground arith

task_a-Moves : (now : ℕ) (s : Superloop) → IsBoard s → Moves s ((task_a now s).1, (task_a now s).2)
unfolding task_a
task_a-Moves now s h = elim (Bool-cases (watchdog_check now s.watchdog).0) [
  | inl safe ↦ rw safe (silent s [] _ refl refl h.aimed h)
  | inr expired ↦ rw expired (silent s (held ∷ []) _ refl refl (halted-IsAimed s.mcu h.aimed) h)
]

after_ack-Moves : (a : Option ℕ) (now : ℕ) (s : Superloop) → IsBoard s → Moves s (after_ack a now s)
after_ack-Moves none now s h = silent s [] s refl refl h.aimed h
after_ack-Moves (some a) now s h = silent s (answered a ∷ []) _ refl refl h.aimed h

feed-Moves : (byte : Option ℕ) (now : ℕ) (s : Superloop) → IsBoard s → Moves s (feed byte now s)
feed-Moves none now s h = silent s [] s refl refl h.aimed h
feed-Moves (some c) now s h =
    let fed : IsBoard (record s { mcu = (task_b s.mcu c).1 }) = record {
      aimed = task_b-IsAimed s.mcu c h.aimed;
      current = h.current;
    } in
    let m = after_ack-Moves (task_b s.mcu c).0 now (record s { mcu = (task_b s.mcu c).1 }) fed in
    record { board = m.board; smooth = m.smooth; last = m.last }

drain-Moves :
    (bytes : List ℕ) (now : ℕ) (s : Superloop)
    → IsBoard s
    → Moves s (drain now (record s { rx_buffer = usart_rx bytes s.rx_buffer }))
unfolding drain
drain-Moves bytes now s h =
    let rx = circular_buffer_read (usart_rx bytes s.rx_buffer) in
    let m =
      feed-Moves rx.0 now (record s { rx_buffer = rx.1 })
        (record { aimed = h.aimed; current = h.current }) in
    record { board = m.board; smooth = m.smooth; last = m.last }

task_c-Moves :
    (now : ℕ) (is_safe : Bool) (s : Superloop) → IsBoard s → Moves s (task_c now is_safe s)
unfolding task_c
task_c-Moves now is_safe s h =
    let due : IsBoard (record s { last_actuator_ms = now }) = record {
      aimed = h.aimed;
      current = h.current;
    } in
    let m = actuate-Moves (record s { last_actuator_ms = now }) due in
    let acts : Moves s (actuate (record s { last_actuator_ms = now })) = record {
      board = m.board;
      smooth = m.smooth;
      last = m.last;
    } in
    elim (Bool-cases (leb 20 (elapsed now s.last_actuator_ms))) [
      | inl at_time ↦ elim (Bool-cases is_safe) [
        | inl safe ↦ rw (at_time, safe) acts
        | inr expired ↦ rw (at_time, expired) (silent s [] _ refl refl h.aimed h)
      ]
      | inr early ↦ rw early (silent s [] _ refl refl h.aimed h)
    ]

loop_round-Moves : (r : Round) (s : Superloop) → IsBoard s → Moves s (loop_round r s)
unfolding loop_round
loop_round-Moves r s h =
    let a = task_a-Moves r.check_ms s h in
    let s1 = (task_a r.check_ms s).2 in
    let b = drain-Moves r.received r.reset_ms s1 a.board in
    let s2 = (drain r.reset_ms (record s1 { rx_buffer = usart_rx r.received s1.rx_buffer })).1 in
    let c = task_c-Moves r.current_ms (task_a r.check_ms s).0 s2 b.board in
    then-Moves s _ _ s1 _ a (then-Moves s1 _ _ s2 _ b c)

pub run-Moves : (rs : List Round) (s : Superloop) → IsBoard s → Moves s (run rs s)
unfolding run
run-Moves [] s h = silent s [] s refl refl h.aimed h
run-Moves (r ∷ rs) s h =
    let first = loop_round-Moves r s h in
    then-Moves s _ _ _ _ first (run-Moves rs (loop_round r s).1 first.board)

pub setup-IsBoard : (memory : CircularBuffer) → IsBoard (hardware_setup memory)
unfolding packet_parser_init
setup-IsBoard memory = ground arith

-- From power-up on, whatever bytes arrive, whenever, and whatever the clock shows: every pose that
-- the super-loop sends to the actuators lies in 0..180 at every joint, and within two degrees of
-- the pose before it at every joint, the first one of the centred pose.
pub firmware-IsSmooth :
    (rs : List Round) (memory : CircularBuffer)
    → IsSmooth centre (poses (run rs (hardware_setup memory)).0)
firmware-IsSmooth rs memory = (run-Moves rs (hardware_setup memory) (setup-IsBoard memory)).smooth
