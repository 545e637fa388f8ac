-- ===== src/Firmware/Loop/DeadMan.antt =====
-- The super-loop of Hardware/firmware/src/main.cpp while the watchdog's time is over.
use auto_robotic_arms.Base.{
  ℕ, ◌<◌, ◌≡◌, ◌≢◌, ◌⊎◌, refl, sym, subst, ap₂, ◌∙◌, inl, inr, true, false, List, [], ◌∷◌, ◌++◌,
  Option, none, some, leb, ◌==◌, Bool-cases, arith, All, All-imp, All-append_left, All-append_right,
}
use auto_robotic_arms.Firmware.{
  ParseStatus, in_progress, success, error_format, error_checksum, Mcu, acknowledge, task_b,
  packet_parser_process_byte,
}
use auto_robotic_arms.Firmware.Ring.{circular_buffer_read}
use auto_robotic_arms.Firmware.Watchdog.{Watchdog, watchdog_check, elapsed}
use auto_robotic_arms.Firmware.Loop.{
  Superloop, Output, held, answered, usart_rx, halted, task_a, after_ack, feed, drain, task_c,
  Round, loop_round, run,
}
use auto_robotic_arms.Firmware.Loop.Smooth.{poses, poses-append}

-- The watchdog's time is over at `now`.
abbrev pub IsExpired : Watchdog → ℕ → Type 0
IsExpired w now = w.timeout_ms < elapsed now w.last_heartbeat_ms

abbrev pub NotK : Output → Type 0
NotK o = o ≢ answered b'K'

-- The watchdog counts from the same heartbeat.
record Counts (w w' : Watchdog) : Type 0 where
  live : w'.has_bootstrapped ≡ true
  since : w'.last_heartbeat_ms ≡ w.last_heartbeat_ms
  timeout : w'.timeout_ms ≡ w.timeout_ms

-- What a part of a round leaves that ends no halt.
record Rests (s : Superloop) (r : List Output × Superloop) : Type 0 where
  still : poses r.0 ≡ []
  same : r.1.current_angles ≡ s.current_angles
  halt : r.1.mcu.is_in_safety_halt ≡ true
  counts : Counts s.watchdog r.1.watchdog

then-Rests :
    (s : Superloop) (out more : List Output) (s1 s2 : Superloop)
    → Rests s (out, s1)
    → Rests s1 (more, s2)
    → Rests s (out ++ more, s2)
then-Rests s out more s1 s2 first second = record {
  still = poses-append out more ∙ ap₂ (λ x y. x ++ y) first.still second.still;
  same = second.same ∙ first.same;
  halt = second.halt;
  counts = record {
    live = second.counts.live;
    since = second.counts.since ∙ first.counts.since;
    timeout = second.counts.timeout ∙ first.counts.timeout;
  };
}

-- In a halt a byte draws 'K', or the halt goes on.
acknowledge_halted :
    (status : ParseStatus) (m : Mcu)
    → m.is_in_safety_halt ≡ true
    → ((acknowledge status m).0 ≡ some b'K') ⊎ ((acknowledge status m).1.is_in_safety_halt ≡ true)
unfolding acknowledge
acknowledge_halted in_progress m h = inr h
acknowledge_halted success m h = ground arith
acknowledge_halted error_format m h = inr h
acknowledge_halted error_checksum m h = inr h

task_b_halted :
    (m : Mcu) (c : ℕ)
    → m.is_in_safety_halt ≡ true
    → ((task_b m c).0 ≡ some b'K') ⊎ ((task_b m c).1.is_in_safety_halt ≡ true)
unfolding task_b
task_b_halted m c h = acknowledge_halted (packet_parser_process_byte m.parser c).0 _ h

-- A state with the same pose and the same heartbeat, without a pose sent.
rests :
    (s : Superloop) (out : List Output) (s' : Superloop)
    → poses out ≡ []
    → s'.current_angles ≡ s.current_angles
    → s'.mcu.is_in_safety_halt ≡ true
    → Counts s.watchdog s'.watchdog
    → Rests s (out, s')
rests s out s' still same halt counts = record {
  still = still;
  same = same;
  halt = halt;
  counts = counts;
}

same-Counts : (w : Watchdog) → w.has_bootstrapped ≡ true → Counts w w
same-Counts w live = record { live = live; since = refl; timeout = refl }

after_ack-Rests :
    (a : Option ℕ) (now : ℕ) (s : Superloop)
    → (a ≡ some b'K') ⊎ (s.mcu.is_in_safety_halt ≡ true)
    → s.watchdog.has_bootstrapped ≡ true
    → All NotK (after_ack a now s).0
    → Rests s (after_ack a now s)
after_ack-Rests none now s (inl k) live other = absurd (cc k)
after_ack-Rests none now s (inr halt) live other =
    rests s [] s refl refl halt (same-Counts s.watchdog live)
after_ack-Rests (some a) now s (inl k) live other = absurd (other.0 (ground arith))
after_ack-Rests (some a) now s (inr halt) live other = elim (Bool-cases (a == b'K')) [
  | inl k ↦ absurd (other.0 (ground arith))
  | inr e ↦ rw e (rests s (answered a ∷ []) s refl refl halt (same-Counts s.watchdog live))
]

feed-Rests :
    (byte : Option ℕ) (now : ℕ) (s : Superloop)
    → s.mcu.is_in_safety_halt ≡ true
    → s.watchdog.has_bootstrapped ≡ true
    → All NotK (feed byte now s).0
    → Rests s (feed byte now s)
feed-Rests none now s halt live other = rests s [] s refl refl halt (same-Counts s.watchdog live)
feed-Rests (some c) now s halt live other =
    let r =
      after_ack-Rests (task_b s.mcu c).0 now (record s { mcu = (task_b s.mcu c).1 })
        (task_b_halted s.mcu c halt) live other in
    record { still = r.still; same = r.same; halt = r.halt; counts = r.counts }

halted_halts : (m : Mcu) → (halted m).is_in_safety_halt ≡ true
halted_halts m = ground arith

check_expired :
    (now : ℕ) (w : Watchdog)
    → w.has_bootstrapped ≡ true
    → IsExpired w now
    → watchdog_check now w ≡ (false, record w { is_tripped = true })
unfolding watchdog_check
check_expired now w live over = ground arith

-- Task A where the time is over.
task_a_expired :
    (now : ℕ) (s : Superloop)
    → s.watchdog.has_bootstrapped ≡ true
    → IsExpired s.watchdog now
    → ((task_a now s).0 ≡ false) × Rests s ((task_a now s).1, (task_a now s).2)
unfolding task_a
task_a_expired now s live over = rw (check_expired now s.watchdog live over) (
  refl,
  rests s (held ∷ []) _ refl refl (halted_halts s.mcu)
      (record { live = live; since = refl; timeout = refl }),
)

-- Task C where the link is not safe.
task_c_unsafe :
    (now : ℕ) (s : Superloop)
    → s.mcu.is_in_safety_halt ≡ true
    → s.watchdog.has_bootstrapped ≡ true
    → Rests s (task_c now false s)
unfolding task_c
task_c_unsafe now s halt live = elim (Bool-cases (leb 20 (elapsed now s.last_actuator_ms))) [
  | inl due ↦ rw due (rests s [] _ refl refl halt (same-Counts s.watchdog live))
  | inr early ↦ rw early (rests s [] s refl refl halt (same-Counts s.watchdog live))
]

drain-Rests :
    (bytes : List ℕ) (now : ℕ) (s : Superloop)
    → s.mcu.is_in_safety_halt ≡ true
    → s.watchdog.has_bootstrapped ≡ true
    → All NotK (drain now (record s { rx_buffer = usart_rx bytes s.rx_buffer })).0
    → Rests s (drain now (record s { rx_buffer = usart_rx bytes s.rx_buffer }))
unfolding drain
drain-Rests bytes now s halt live other =
    let rx = circular_buffer_read (usart_rx bytes s.rx_buffer) in
    let r = feed-Rests rx.0 now (record s { rx_buffer = rx.1 }) halt live other in
    record { still = r.still; same = r.same; halt = r.halt; counts = r.counts }

loop_round-Rests :
    (r : Round) (s : Superloop)
    → s.watchdog.has_bootstrapped ≡ true
    → IsExpired s.watchdog r.check_ms
    → All NotK (loop_round r s).0
    → Rests s (loop_round r s)
unfolding loop_round
loop_round-Rests r s live over other =
    let (not_safe, a) = task_a_expired r.check_ms s live over in
    let s1 = (task_a r.check_ms s).2 in
    let drained = drain r.reset_ms (record s1 { rx_buffer = usart_rx r.received s1.rx_buffer }) in
    let answers =
      All-append_left NotK drained.0 _ (All-append_right NotK (task_a r.check_ms s).1 _ other) in
    let b = drain-Rests r.received r.reset_ms s1 a.halt a.counts.live answers in
    let c = task_c_unsafe r.current_ms drained.1 b.halt b.counts.live in
    then-Rests s _ _ s1 _ a (then-Rests s1 _ _ drained.1 _ b (rw not_safe c))

still-IsExpired : (w w' : Watchdog) (now : ℕ) → Counts w w' → IsExpired w now → IsExpired w' now
still-IsExpired w w' now same over =
    subst (λ t. t < elapsed now w'.last_heartbeat_ms) (sym same.timeout)
      (subst (λ l. w.timeout_ms < elapsed now l) (sym same.since) over)

run-Rests :
    (r : Round) (rs : List Round) (s : Superloop)
    → s.watchdog.has_bootstrapped ≡ true
    → All (λ q. IsExpired s.watchdog q.check_ms) (r ∷ rs)
    → All NotK (run (r ∷ rs) s).0
    → Rests s (run (r ∷ rs) s)
unfolding run
run-Rests r [] s live over other =
    let (out, s1) = loop_round r s in
    let first = loop_round-Rests r s live over.0 (All-append_left NotK out _ other) in
    then-Rests s out [] s1 s1 first
      (rests s1 [] s1 refl refl first.halt (same-Counts s1.watchdog first.counts.live))
run-Rests r (q ∷ rs) s live over other =
    let (out, s1) = loop_round r s in
    let first = loop_round-Rests r s live over.0 (All-append_left NotK out _ other) in
    let later =
      All-imp (λ p. still-IsExpired s.watchdog s1.watchdog p.check_ms first.counts) (q ∷ rs)
        over.1 in
    then-Rests s out _ s1 _ first
      (run-Rests q rs s1 first.counts.live later (All-append_right NotK out _ other))

-- The dead man's switch: once a valid frame has been seen, a run of rounds in which the watchdog's
-- time since the last heartbeat is over at every check, and which answers no byte by 'K', sends no
-- pose to the actuators, leaves the pose as it is, and ends in the safety halt.
pub dead_man_holds :
    (r : Round) (rs : List Round) (s : Superloop)
    → s.watchdog.has_bootstrapped ≡ true
    → All (λ q. IsExpired s.watchdog q.check_ms) (r ∷ rs)
    → All NotK (run (r ∷ rs) s).0
    → (poses (run (r ∷ rs) s).0 ≡ [])
      × ((run (r ∷ rs) s).1.current_angles ≡ s.current_angles)
      × ((run (r ∷ rs) s).1.mcu.is_in_safety_halt ≡ true)
dead_man_holds r rs s live over other =
    let rest = run-Rests r rs s live over other in (rest.still, rest.same, rest.halt)
