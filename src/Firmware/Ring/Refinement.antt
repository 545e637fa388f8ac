-- ===== src/Firmware/Ring/Refinement.antt =====
-- The ring of Hardware/firmware/src/circular_buffer.cpp against a bounded queue.
use auto_robotic_arms.Base.{
  ℕ, zero, suc, ◌+◌, ◌-◌, ◌%◌, ◌≤◌, ◌<◌, ◌≡◌, ◌≢◌, refl, sym, ap, ap₂, ◌∙◌, inl, inr, Bool, true,
  false, List, [], ◌∷◌, ◌++◌, Option, none, some, ltb, ◌==◌, if◌then◌else◌, length, Bool-cases,
  ==_iff, arith,
}
use auto_robotic_arms.Firmware.Ring.{
  CircularBuffer, circular_buffer_init, circular_buffer_write, circular_buffer_read,
  circular_buffer_is_empty, circular_buffer_is_full, circular_buffer_available, next_slot, stored,
}

-- The bytes of `n` slots from slot `i` on.
abbrev slots : (ℕ → ℕ) → ℕ → ℕ → List ℕ
slots buffer i zero = []
slots buffer i (suc n) = buffer i ∷ slots buffer (next_slot i) n

-- What waits in the ring, the oldest byte first.
unfoldable pub contents : CircularBuffer → List ℕ
contents cb = slots cb.buffer cb.tail (circular_buffer_available cb)

pub record IsRing (cb : CircularBuffer) : Type 0 where
  pub head : cb.head < 32
  pub tail : cb.tail < 32

-- The abstract queue of at most 31 bytes.
pub data Operation : Type 0 where
  write : ℕ → Operation
  read : Operation

-- Whether a byte was stored, or the byte that was read.
pub data Reply : Type 0 where
  wrote : Bool → Reply
  gave : Option ℕ → Reply

abbrev pub queue_step : Operation → List ℕ → Reply × List ℕ
queue_step (write c) q = if ltb (length q) 31 then (wrote true, q ++ c ∷ []) else (wrote false, q)
queue_step read [] = (gave none, [])
queue_step read (c ∷ q) = (gave (some c), q)

abbrev pub ring_step : Operation → CircularBuffer → Reply × CircularBuffer
ring_step (write c) cb = let (done, cb') = circular_buffer_write c cb in (wrote done, cb')
ring_step read cb = let (byte, cb') = circular_buffer_read cb in (gave byte, cb')

length-slots : (buffer : ℕ → ℕ) (i n : ℕ) → length (slots buffer i n) ≡ n
length-slots buffer i zero = refl
length-slots buffer i (suc n) = ap suc (length-slots buffer (next_slot i) n)

-- A slot outside the range may be overwritten.
slots-stored :
    (buffer : ℕ → ℕ) (h c i n : ℕ)
    → h < 32
    → i < 32
    → n ≤ (h + 256 - i) % 32
    → slots (stored h c buffer) i n ≡ slots buffer i n
slots-stored buffer h c i zero hh hi hn = refl
slots-stored buffer h c i (suc n) hh hi hn =
    ap₂ (λ x xs. x ∷ xs) (ground arith)
      (slots-stored buffer h c (next_slot i) n hh (omega arith) (omega arith))

-- One more slot at the end.
slots-snoc :
    (buffer : ℕ → ℕ) (i n : ℕ)
    → i < 32
    → slots buffer i (suc n) ≡ slots buffer i n ++ buffer ((i + n) % 32) ∷ []
slots-snoc buffer i zero hi = ap (λ j. buffer j ∷ []) (omega arith)
slots-snoc buffer i (suc n) hi =
    ap (λ xs. buffer i ∷ xs)
      (slots-snoc buffer (next_slot i) n (omega arith)
        ∙ ap (λ j. slots buffer (next_slot i) n ++ buffer j ∷ []) (omega arith))

-- A step of the ring answers as the queue does, and leaves what the queue holds.
pub record Simulates (r : Reply × CircularBuffer) (q : Reply × List ℕ) : Type 0 where
  pub reply : r.0 ≡ q.0
  pub queue : contents r.1 ≡ q.1
  pub ring : IsRing r.1

pub length-contents : (cb : CircularBuffer) → length (contents cb) ≡ circular_buffer_available cb
unfolding contents
length-contents cb = length-slots cb.buffer cb.tail (circular_buffer_available cb)

write-full :
    (c : ℕ) (cb : CircularBuffer)
    → IsRing cb
    → (next_slot cb.head == cb.tail) ≡ true
    → Simulates (ring_step (write c) cb) (queue_step (write c) (contents cb))
unfolding circular_buffer_write circular_buffer_available
write-full c cb ring h =
    let full : ltb (length (contents cb)) 31 ≡ false =
      ground (arith, length-contents cb, ring.head, ring.tail) in
    rw (h, full) (record { reply = refl; queue = refl; ring = ring })

written-contents :
    (c : ℕ) (cb : CircularBuffer)
    → IsRing cb
    → next_slot cb.head ≢ cb.tail
    → contents (record cb { buffer = stored cb.head c cb.buffer; head = next_slot cb.head })
      ≡ contents cb ++ c ∷ []
unfolding contents circular_buffer_available
written-contents c cb ring h =
    let n = circular_buffer_available cb in
    let buffer = stored cb.head c cb.buffer in
    let more : (next_slot cb.head + 256 - cb.tail) % 32 ≡ suc n =
      omega (arith, ring.head, ring.tail, h) in
    let last : (cb.tail + n) % 32 ≡ cb.head = omega (arith, ring.head, ring.tail) in
    let byte : buffer cb.head ≡ c = ground arith in
    ap (slots buffer cb.tail) more
    ∙ slots-snoc buffer cb.tail n ring.tail
    ∙ ap₂ (λ xs x. xs ++ x ∷ [])
        (slots-stored cb.buffer cb.head c cb.tail n ring.head ring.tail (omega arith))
        (ap buffer last ∙ byte)

write-room :
    (c : ℕ) (cb : CircularBuffer)
    → IsRing cb
    → (next_slot cb.head == cb.tail) ≡ false
    → Simulates (ring_step (write c) cb) (queue_step (write c) (contents cb))
unfolding circular_buffer_write circular_buffer_available
write-room c cb ring h =
    let room : ltb (length (contents cb)) 31 ≡ true =
      ground (arith, length-contents cb, ring.head, ring.tail) in
    rw (h, room)
      (record {
        reply = refl;
        queue = written-contents c cb ring (λ e. cc (h, (==_iff (next_slot cb.head) cb.tail).1 e));
        ring = record { head = omega arith; tail = ring.tail };
      })

pub write-Simulates :
    (c : ℕ) (cb : CircularBuffer)
    → IsRing cb
    → Simulates (ring_step (write c) cb) (queue_step (write c) (contents cb))
write-Simulates c cb ring = elim (Bool-cases (next_slot cb.head == cb.tail)) [
  | inl full ↦ write-full c cb ring full
  | inr room ↦ write-room c cb ring room
]

-- What a read does, by how many bytes wait.
pub read_by :
    (n : ℕ) (cb : CircularBuffer)
    → IsRing cb
    → circular_buffer_available cb ≡ n
    → Simulates (ring_step read cb) (queue_step read (slots cb.buffer cb.tail n))
unfolding circular_buffer_read circular_buffer_available contents
read_by zero cb ring e =
    let empty : (cb.head == cb.tail) ≡ true = ground (arith, ring.head, ring.tail) in
    rw empty (record { reply = refl; queue = ap (slots cb.buffer cb.tail) e; ring = ring })
read_by (suc n) cb ring e =
    let some_bytes : (cb.head == cb.tail) ≡ false = ground (arith, ring.head, ring.tail) in
    let less : (cb.head + 256 - next_slot cb.tail) % 32 ≡ n = omega (arith, ring.head, ring.tail) in
    rw some_bytes (record {
      reply = refl;
      queue = ap (slots cb.buffer (next_slot cb.tail)) less;
      ring = record { head = ring.head; tail = omega arith };
    })

pub step-Simulates :
    (o : Operation) (cb : CircularBuffer)
    → IsRing cb
    → Simulates (ring_step o cb) (queue_step o (contents cb))
unfolding contents
step-Simulates (write c) cb ring = write-Simulates c cb ring
step-Simulates read cb ring = read_by (circular_buffer_available cb) cb ring refl

-- The replies to a sequence of operations, and what is left.
module _ {S : Type 0} (step : Operation → S → Reply × S) where
  unfoldable pub replies : List Operation → S → List Reply × S
  replies [] s = ([], s)
  replies (o ∷ os) s = let (r, s') = step o s in let (rs, s'') = replies os s' in (r ∷ rs, s'')

replies-Simulates :
    (os : List Operation) (cb : CircularBuffer) (q : List ℕ)
    → IsRing cb
    → contents cb ≡ q
    → ((replies ring_step os cb).0 ≡ (replies queue_step os q).0)
      × (contents (replies ring_step os cb).1 ≡ (replies queue_step os q).1)
      × IsRing (replies ring_step os cb).1
unfolding replies
replies-Simulates [] cb q ring e = (refl, e, ring)
replies-Simulates (o ∷ os) cb q ring e =
    let s = step-Simulates o cb ring in
    let to : queue_step o (contents cb) ≡ queue_step o q = ap (queue_step o) e in
    let (rs, left, ring') =
      replies-Simulates os (ring_step o cb).1 (queue_step o q).1 s.ring
        (s.queue ∙ ap (λ x. x.1) to) in
    (ap₂ (λ x xs. x ∷ xs) (s.reply ∙ ap (λ x. x.0) to) rs, left, ring')

-- What the tests say of a ring.
pub record Tells (cb : CircularBuffer) (q : List ℕ) : Type 0 where
  pub empty : circular_buffer_is_empty cb ≡ (length q == 0)
  full : circular_buffer_is_full cb ≡ (length q == 31)
  available : circular_buffer_available cb ≡ length q

pub tells : (cb : CircularBuffer) (q : List ℕ) → IsRing cb → contents cb ≡ q → Tells cb q
unfolding circular_buffer_is_empty circular_buffer_is_full circular_buffer_available
tells cb q ring e =
    let n = sym (length-contents cb) ∙ ap length e in
    record {
      empty = ground (arith, n, ring.head, ring.tail);
      full = ground (arith, n, ring.head, ring.tail);
      available = n;
    }

-- The ring refines a queue of at most 31 bytes: after `circular_buffer_init`, on whatever memory,
-- every sequence of writes and reads is answered as by the queue, which stores a byte behind the
-- others while fewer than 31 wait, refuses it else, and gives the oldest one. At the end the tests
-- for empty and full and the number of bytes are those of the queue.
pub ring_refines :
    (os : List Operation) (cb : CircularBuffer)
    → let (rs, left) = replies ring_step os (circular_buffer_init cb) in
      let (expected, q) = replies queue_step os [] in
      (rs ≡ expected)
      × (circular_buffer_is_empty left ≡ (length q == 0))
      × (circular_buffer_is_full left ≡ (length q == 31))
      × (circular_buffer_available left ≡ length q)
unfolding circular_buffer_init contents circular_buffer_available
ring_refines os cb =
    let (rs, left, ring) =
      replies-Simulates os (circular_buffer_init cb) []
        (record { head = omega arith; tail = omega arith }) refl in
    let t =
      tells (replies ring_step os (circular_buffer_init cb)).1 (replies queue_step os []).1 ring
        left in
    (rs, t.empty, t.full, t.available)
