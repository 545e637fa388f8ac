-- ===== src/Link.antt =====
-- The serial port as the hosts see it (pyserial): a device that takes the bytes written to it, and
-- hands out one byte or lets the read time out; either call may raise SerialException.
use auto_robotic_arms.Base.{ℕ, Bool, List, Option}

pub record Link : Type 1 where
  pub Device : Type 0
  pub write : Device → List ℕ → Device
  -- `read(1)`: `none` when the timeout passes
  pub read : Device → Option ℕ × Device
  -- whether the call raises instead
  pub write_raises : Device → List ℕ → Bool
  pub read_raises : Device → Bool
