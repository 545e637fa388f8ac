-- ===== src/Firmware/Loop/Stream.antt =====
-- Rounds of the super-loop of Hardware/firmware/src/main.cpp as one stream of bytes through Task B.
use auto_robotic_arms.Base.{
  ℕ, ◌+◌, ◌-◌, ◌≡◌, refl, sym, subst, ap, ◌∙◌, List, [], ◌∷◌, ◌++◌, append_assoc, append-nil,
  Option, none, some, length, length-append, arith,
}
use auto_robotic_arms.Firmware.{Mcu, task_b, sent, receive}
use auto_robotic_arms.Firmware.Ring.Refinement.{contents, IsRing}
use auto_robotic_arms.Firmware.Loop.{Superloop, Round, loop_round, run}
use auto_robotic_arms.Firmware.Loop.Feed.{Holds}
use auto_robotic_arms.Firmware.Loop.Receives.{
  answers_of, answers_of-append, received_of, Fits, left_over, IsHealthy, byte_of,
  loop_round-Serves,
}

-- Acknowledgements that came before.
abbrev pub ahead : List ℕ → List ℕ × Mcu → List ℕ × Mcu
ahead acks (more, m) = (acks ++ more, m)

ahead-ahead : (xs ys : List ℕ) (r : List ℕ × Mcu) → ahead xs (ahead ys r) ≡ ahead (xs ++ ys) r
ahead-ahead xs ys r = ap (λ t. (t, r.1)) (sym (append_assoc xs ys r.0))

sent-append : (a : Option ℕ) (acks : List ℕ) → sent a acks ≡ sent a [] ++ acks
sent-append none acks = refl
sent-append (some a) acks = refl

receive-split :
    (m : Mcu) (q more : List ℕ)
    → receive m (q ++ more)
      ≡ ahead (byte_of m q).acks (receive (byte_of m q).mcu ((byte_of m q).rest ++ more))
unfolding receive
receive-split m [] more = refl
receive-split m (c ∷ q) more =
    let (ack, m') = task_b m c in
    let (acks, m'') = receive m' (q ++ more) in ap (λ t. (t, m'')) (sent-append ack acks)

length-rest : (m : Mcu) (q : List ℕ) → length (byte_of m q).rest ≡ length q - 1
length-rest m [] = refl
length-rest m (c ∷ q) = omega arith

-- Rounds from a ring that holds `q`: what waits at the end, and the stream.
record Streams (q : List ℕ) (rs : List Round) (s : Superloop) : Type 0 where
  waits : List ℕ
  ring : Holds waits (run rs s).1.rx_buffer
  count : length waits ≡ left_over (length q) rs
  stream :
      receive s.mcu (q ++ received_of rs)
      ≡ ahead (answers_of (run rs s).0) (receive (run rs s).1.mcu waits)

run-Streams :
    (rs : List Round) (q : List ℕ) (s : Superloop)
    → Fits (length q) rs
    → IsHealthy rs s
    → Holds q s.rx_buffer
    → Streams q rs s
unfolding run
run-Streams [] q s fits healthy h = record {
  waits = q;
  ring = h;
  count = refl;
  stream = ap (receive s.mcu) (append-nil q);
}
run-Streams (r ∷ rs) q s fits healthy h =
    let b = byte_of s.mcu (q ++ r.received) in
    let (out, s1) = loop_round r s in
    let first = loop_round-Serves r q s healthy.0 fits.0 h in
    let fewer : length b.rest ≡ length q + length r.received - 1 =
      length-rest s.mcu (q ++ r.received) ∙ ap (λ n. n - 1) (length-append q r.received) in
    let rest =
      run-Streams rs b.rest s1 (subst (λ n. Fits n rs) (sym fewer) fits.1) healthy.1 first.ring in
    record {
      waits = rest.waits;
      ring = rest.ring;
      count = rest.count ∙ ap (λ n. left_over n rs) fewer;
      stream =
          ap (receive s.mcu) (sym (append_assoc q r.received (received_of rs)))
          ∙ receive-split s.mcu (q ++ r.received) (received_of rs)
          ∙ ap (λ m. ahead b.acks (receive m (b.rest ++ received_of rs))) (sym first.mcu)
          ∙ ap (ahead b.acks) rest.stream
          ∙ ahead-ahead b.acks (answers_of (run rs s1).0) (receive (run rs s1).1.mcu rest.waits)
          ∙ ap (λ t. ahead t (receive (run rs s1).1.mcu rest.waits))
              (ap (λ t. t ++ answers_of (run rs s1).0) (sym first.acks)
                ∙ sym (answers_of-append out (run rs s1).0));
    }

-- Rounds from any state of the super-loop with a sound ring, with the watchdog healthy at each check
-- and never more than 31 bytes waiting: the bytes that waited and came are processed once each and
-- in their order. What Task B makes of that whole stream is what the rounds have answered, followed
-- by what it makes of the bytes that still wait; each round that finds a byte has taken one away.
pub loop_receives :
    (rs : List Round) (s : Superloop)
    → IsRing s.rx_buffer
    → Fits (length (contents s.rx_buffer)) rs
    → IsHealthy rs s
    → let (out, s') = run rs s in
      (receive s.mcu (contents s.rx_buffer ++ received_of rs)
        ≡ ahead (answers_of out) (receive s'.mcu (contents s'.rx_buffer)))
      × IsRing s'.rx_buffer
      × (length (contents s'.rx_buffer) ≡ left_over (length (contents s.rx_buffer)) rs)
loop_receives rs s ring fits healthy =
    let t =
      run-Streams rs (contents s.rx_buffer) s fits healthy (record { ring = ring; waits = refl }) in
    let same = t.ring.waits in
    (
      t.stream ∙ ap (λ w. ahead (answers_of (run rs s).0) (receive (run rs s).1.mcu w)) (sym same),
      t.ring.ring,
      ap length same ∙ t.count,
    )
