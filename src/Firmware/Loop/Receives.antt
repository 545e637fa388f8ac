-- ===== src/Firmware/Loop/Receives.antt =====
-- The super-loop of Hardware/firmware/src/main.cpp against Task B on a stream of bytes: what the
-- ring and the rounds make of bytes that come in pieces.
use auto_robotic_arms.Base.{
  ℕ, ◌+◌, ◌-◌, ◌≤◌, ◌≡◌, refl, sym, subst, ap, ap₂, ◌∙◌, inl, inr, true, List, [], ◌∷◌, ◌++◌,
  append-nil, Option, none, some, leb, Bool-cases, length,
}
use auto_robotic_arms.Firmware.{Mcu, task_b, sent}
use auto_robotic_arms.Firmware.Ring.{circular_buffer_read}
use auto_robotic_arms.Firmware.Watchdog.{watchdog_check, elapsed}
use auto_robotic_arms.Firmware.Loop.{
  Superloop, Output, held, answered, moved, usart_rx, task_a, after_ack, drain, motion_required,
  actuate, task_c, Round, loop_round,
}
use auto_robotic_arms.Firmware.Loop.Arrival.{check-same}
use auto_robotic_arms.Firmware.Loop.Feed.{Holds, usart_rx-Holds, read-none, read-some}

-- The acknowledgements among the outputs, and the bytes of some rounds.
abbrev pub answers_of : List Output → List ℕ
answers_of [] = []
answers_of (answered a ∷ out) = a ∷ answers_of out
answers_of (held ∷ out) = answers_of out
answers_of (moved _ ∷ out) = answers_of out

abbrev pub received_of : List Round → List ℕ
received_of [] = []
received_of (r ∷ rs) = r.received ++ received_of rs

-- The ring never overflows, from `n` bytes on: each round takes one byte out.
abbrev pub Fits : ℕ → List Round → Type 0
Fits n [] = Unit
Fits n (r ∷ rs) = (n + length r.received ≤ 31) × Fits (n + length r.received - 1) rs

-- How many bytes wait at the end.
abbrev pub left_over : ℕ → List Round → ℕ
left_over n [] = n
left_over n (r ∷ rs) = left_over (n + length r.received - 1) rs

-- The watchdog's time is over at no check.
abbrev pub IsHealthy : List Round → Superloop → Type 0
IsHealthy [] s = Unit
IsHealthy (r ∷ rs) s =
    ((watchdog_check r.check_ms s.watchdog).0 ≡ true) × IsHealthy rs (loop_round r s).1

pub answers_of-append :
    (xs ys : List Output) → answers_of (xs ++ ys) ≡ answers_of xs ++ answers_of ys
answers_of-append [] ys = refl
answers_of-append (answered a ∷ xs) ys = ap (λ t. a ∷ t) (answers_of-append xs ys)
answers_of-append (held ∷ xs) ys = answers_of-append xs ys
answers_of-append (moved _ ∷ xs) ys = answers_of-append xs ys

-- One byte of the stream: the acknowledgement, the board, and the bytes behind it.
pub record Byte : Type 0 where
  pub acks : List ℕ
  pub mcu : Mcu
  pub rest : List ℕ

abbrev pub byte_of : Mcu → List ℕ → Byte
byte_of m [] = record { acks = []; mcu = m; rest = [] }
byte_of m (c ∷ q) = record { acks = sent (task_b m c).0 []; mcu = (task_b m c).1; rest = q }

-- A part of a round that answers, leaves the board and leaves the ring as the stream has it.
pub record Serves (b : Byte) (r : List Output × Superloop) : Type 0 where
  pub acks : answers_of r.0 ≡ b.acks
  pub mcu : r.1.mcu ≡ b.mcu
  pub ring : Holds b.rest r.1.rx_buffer

after_ack-acks :
    (a : Option ℕ) (now : ℕ) (s : Superloop) → answers_of (after_ack a now s).0 ≡ sent a []
after_ack-acks none now s = refl
after_ack-acks (some a) now s = refl

after_ack-mcu : (a : Option ℕ) (now : ℕ) (s : Superloop) → (after_ack a now s).1.mcu ≡ s.mcu
after_ack-mcu none now s = refl
after_ack-mcu (some a) now s = refl

after_ack-ring :
    (a : Option ℕ) (now : ℕ) (s : Superloop) → (after_ack a now s).1.rx_buffer ≡ s.rx_buffer
after_ack-ring none now s = refl
after_ack-ring (some a) now s = refl

drain-Serves :
    (q : List ℕ) (now : ℕ) (s : Superloop)
    → Holds q s.rx_buffer
    → Serves (byte_of s.mcu q) (drain now s)
unfolding drain
drain-Serves [] now s h =
    let (none_read, kept) = read-none s.rx_buffer h in
    rw none_read (record { acks = refl; mcu = refl; ring = kept })
drain-Serves (c ∷ q) now s h =
    let (read, kept) = read-some c q s.rx_buffer h in
    let (ack, m) = task_b s.mcu c in
    let s' = record s { rx_buffer = (circular_buffer_read s.rx_buffer).1; mcu = m } in
    rw read (record {
      acks = after_ack-acks ack now s';
      mcu = after_ack-mcu ack now s';
      ring = subst (Holds q) (sym (after_ack-ring ack now s')) kept;
    })

-- Task C answers nothing, and leaves the board and the ring alone.
record Passes (s : Superloop) (r : List Output × Superloop) : Type 0 where
  acks : answers_of r.0 ≡ []
  mcu : r.1.mcu ≡ s.mcu
  ring : r.1.rx_buffer ≡ s.rx_buffer

actuate-Passes : (s : Superloop) → Passes s (actuate s)
actuate-Passes s = elim (Bool-cases (motion_required s.mcu.target_angles s.current_angles)) [
  | inl needed ↦ rw needed (record { acks = refl; mcu = refl; ring = refl })
  | inr idle ↦ rw idle (record { acks = refl; mcu = refl; ring = refl })
]

task_c-Passes : (now : ℕ) (s : Superloop) → Passes s (task_c now true s)
unfolding task_c
task_c-Passes now s = elim (Bool-cases (leb 20 (elapsed now s.last_actuator_ms))) [
  | inl due ↦
      let p = actuate-Passes (record s { last_actuator_ms = now }) in
      rw due (record { acks = p.acks; mcu = p.mcu; ring = p.ring })
  | inr early ↦ rw early (record { acks = refl; mcu = refl; ring = refl })
]

pub loop_round-Serves :
    (r : Round) (q : List ℕ) (s : Superloop)
    → (watchdog_check r.check_ms s.watchdog).0 ≡ true
    → length q + length r.received ≤ 31
    → Holds q s.rx_buffer
    → Serves (byte_of s.mcu (q ++ r.received)) (loop_round r s)
unfolding loop_round task_a
loop_round-Serves r q s healthy fits h =
    let filled = record s { rx_buffer = usart_rx r.received s.rx_buffer } in
    let b =
      drain-Serves (q ++ r.received) r.reset_ms filled
        (usart_rx-Holds r.received q s.rx_buffer fits h) in
    let (out, s2) = drain r.reset_ms filled in
    let p = task_c-Passes r.current_ms s2 in
    rw (check-same r.check_ms s.watchdog healthy) (record {
      acks =
          answers_of-append out (task_c r.current_ms true s2).0
          ∙ ap₂ (λ x y. x ++ y) b.acks p.acks
          ∙ append-nil (byte_of s.mcu (q ++ r.received)).acks;
      mcu = p.mcu ∙ b.mcu;
      ring = subst (Holds (byte_of s.mcu (q ++ r.received)).rest) (sym p.ring) b.ring;
    })
