-- ===== src/Firmware/Watchdog.antt =====
-- Hardware/firmware/src/watchdog_interlock.cpp. Times are milliseconds in a `uint32_t`.
use auto_robotic_arms.Base.{ℕ, ◌+◌, ◌-◌, ◌%◌, ◌^◌, Bool, true, false, ltb, if◌then◌else◌}

-- The variables of the file.
pub record Watchdog : Type 0 where
  pub timeout_ms : ℕ
  pub last_heartbeat_ms : ℕ
  pub is_tripped : Bool
  pub has_bootstrapped : Bool

abbrev pub watchdog_init : ℕ → Watchdog
watchdog_init timeout_ms = record {
  timeout_ms = timeout_ms;
  last_heartbeat_ms = 0;
  is_tripped = false;
  has_bootstrapped = false;
}

-- The difference of two times, which wraps.
abbrev pub elapsed : ℕ → ℕ → ℕ
elapsed now since = (now + 2 ^ 32 - since) % 2 ^ 32

-- True where the link is healthy; `now` is `millis()`.
unfoldable pub watchdog_check : ℕ → Watchdog → Bool × Watchdog
watchdog_check now w =
    if w.has_bootstrapped
    then (if ltb w.timeout_ms (elapsed now w.last_heartbeat_ms)
        then (false, record w { is_tripped = true })
        else (true, w))
    else (true, w)

unfoldable pub watchdog_reset : ℕ → Watchdog → Watchdog
watchdog_reset now w = record w {
  last_heartbeat_ms = now;
  has_bootstrapped = true;
  is_tripped = false;
}
