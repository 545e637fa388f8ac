-- ===== src/Firmware/Bus/Mock.antt =====
-- The bus of the tests in Hardware/firmware/src/twi_driver.cpp: 256 registers and a counter.
use auto_robotic_arms.Base.{ℕ, ◌+◌, ◌%◌, ◌^◌, Bool, true, ◌==◌, if◌then◌else◌}
use auto_robotic_arms.Firmware.Bus.{Bus}

pub record MockBus : Type 0 where
  pub memory : ℕ → ℕ
  pub write_counter : ℕ

abbrev pub reset_mock_bus : MockBus → MockBus
reset_mock_bus m = record { memory = λ _. 0; write_counter = 0 }

abbrev pub written : ℕ → ℕ → (ℕ → ℕ) → ℕ → ℕ
written reg byte memory r = if r == reg then byte else memory r

unfoldable pub mock_write_register : ℕ → ℕ → ℕ → MockBus → Bool × MockBus
mock_write_register address reg byte m = (
  true,
  record { memory = written reg byte m.memory; write_counter = (m.write_counter + 1) % 2 ^ 32 },
)

abbrev pub mock_bus : Bus
mock_bus = record { State = MockBus; init = reset_mock_bus; write_register = mock_write_register }
