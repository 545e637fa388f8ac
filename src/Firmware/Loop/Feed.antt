-- ===== src/Firmware/Loop/Feed.antt =====
-- The receive ring between the interrupt and the drain of Hardware/firmware/src/main.cpp, by the
-- bytes that wait in it.
use auto_robotic_arms.Base.{
  ℕ, ◌+◌, ◌≤◌, ◌≡◌, refl, sym, ap, ◌∙◌, true, List, [], ◌∷◌, ◌++◌, append_assoc, append-nil, Option,
  none, some, ltb, length, length-append, arith,
}
use auto_robotic_arms.Firmware.Ring.{CircularBuffer, circular_buffer_write, circular_buffer_read}
use auto_robotic_arms.Firmware.Ring.Refinement.{
  contents, IsRing, write, read, gave, queue_step, step-Simulates,
}
use auto_robotic_arms.Firmware.Loop.{usart_rx}

-- A ring that holds `q`.
pub record Holds (q : List ℕ) (cb : CircularBuffer) : Type 0 where
  pub ring : IsRing cb
  pub waits : contents cb ≡ q

write-Holds :
    (c : ℕ) (q : List ℕ) (cb : CircularBuffer)
    → length q + 1 ≤ 31
    → Holds q cb
    → Holds (q ++ c ∷ []) (circular_buffer_write c cb).1
write-Holds c q cb room h =
    let s = step-Simulates (write c) cb h.ring in
    let fits : ltb (length q) 31 ≡ true = ground arith in
    let stored : (queue_step (write c) q).1 ≡ q ++ c ∷ [] = rw fits refl in
    record {
      ring = s.ring;
      waits = s.queue ∙ ap (λ t. (queue_step (write c) t).1) h.waits ∙ stored;
    }

-- The interrupt keeps every byte while 31 are not exceeded.
pub usart_rx-Holds :
    (bytes q : List ℕ) (cb : CircularBuffer)
    → length q + length bytes ≤ 31
    → Holds q cb
    → Holds (q ++ bytes) (usart_rx bytes cb)
unfolding usart_rx
usart_rx-Holds [] q cb room h = record { ring = h.ring; waits = h.waits ∙ sym (append-nil q) }
usart_rx-Holds (c ∷ bytes) q cb room h =
    let first = write-Holds c q cb (omega arith) h in
    let rest =
      usart_rx-Holds bytes (q ++ c ∷ []) (circular_buffer_write c cb).1
        (omega (arith, length-append {0} q (c ∷ []))) first in
    record { ring = rest.ring; waits = rest.waits ∙ append_assoc q (c ∷ []) bytes }

gave-injective : (a b : Option ℕ) → gave a ≡ gave b → a ≡ b
gave-injective a b e = cc

-- A read of an empty ring, and of one with a byte.
pub read-none :
    (cb : CircularBuffer)
    → Holds [] cb
    → ((circular_buffer_read cb).0 ≡ none) × Holds [] (circular_buffer_read cb).1
read-none cb h =
    let s = step-Simulates read cb h.ring in
    (
      gave-injective _ _ (s.reply ∙ ap (λ t. (queue_step read t).0) h.waits),
      record { ring = s.ring; waits = s.queue ∙ ap (λ t. (queue_step read t).1) h.waits },
    )

pub read-some :
    (c : ℕ) (q : List ℕ) (cb : CircularBuffer)
    → Holds (c ∷ q) cb
    → ((circular_buffer_read cb).0 ≡ some c) × Holds q (circular_buffer_read cb).1
read-some c q cb h =
    let s = step-Simulates read cb h.ring in
    (
      gave-injective _ _ (s.reply ∙ ap (λ t. (queue_step read t).0) h.waits),
      record { ring = s.ring; waits = s.queue ∙ ap (λ t. (queue_step read t).1) h.waits },
    )
