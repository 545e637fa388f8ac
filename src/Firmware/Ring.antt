-- ===== src/Firmware/Ring.antt =====
-- The receive buffer of the microcontroller, Hardware/firmware/src/circular_buffer.cpp: 32 slots, of
-- which one stays free. `& BUFFER_MASK` is the remainder by 32. A null pointer is left out.
pub mod Refinement
use auto_robotic_arms.Base.{
  ℕ, ◌+◌, ◌-◌, ◌%◌, Bool, true, false, Option, none, some, ◌==◌, if◌then◌else◌,
}

abbrev pub buffer_size : ℕ
buffer_size = 32

-- `buffer` gives the byte of each slot.
pub record CircularBuffer : Type 0 where
  pub buffer : ℕ → ℕ
  pub head : ℕ
  pub tail : ℕ

unfoldable pub circular_buffer_init : CircularBuffer → CircularBuffer
circular_buffer_init cb = record cb { head = 0; tail = 0 }

-- The slot behind a slot.
abbrev pub next_slot : ℕ → ℕ
next_slot i = (i + 1) % buffer_size

-- `buffer[i] = data`
abbrev pub stored : ℕ → ℕ → (ℕ → ℕ) → ℕ → ℕ
stored i byte buffer j = if j == i then byte else buffer j

unfoldable pub circular_buffer_write : ℕ → CircularBuffer → Bool × CircularBuffer
circular_buffer_write byte cb =
    if next_slot cb.head == cb.tail
    then (false, cb)
    else (true, record cb { buffer = stored cb.head byte cb.buffer; head = next_slot cb.head })

unfoldable pub circular_buffer_read : CircularBuffer → Option ℕ × CircularBuffer
circular_buffer_read cb =
    if cb.head == cb.tail
    then (none, cb)
    else (some (cb.buffer cb.tail), record cb { tail = next_slot cb.tail })

unfoldable pub circular_buffer_is_empty : CircularBuffer → Bool
circular_buffer_is_empty cb = cb.head == cb.tail

unfoldable pub circular_buffer_is_full : CircularBuffer → Bool
circular_buffer_is_full cb = next_slot cb.head == cb.tail

-- `head - tail` may be negative; as a `uint8_t` it wraps.
unfoldable pub circular_buffer_available : CircularBuffer → ℕ
circular_buffer_available cb = (cb.head + 256 - cb.tail) % buffer_size
