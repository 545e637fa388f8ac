-- ===== src/Firmware/Bus.antt =====
-- The I2C bus as Hardware/firmware/src/joint_actuator.cpp uses it: the functions that it calls of
-- Hardware/firmware/src/twi_driver.cpp, which has two versions, one for the board and one for tests.
pub mod Mock
pub mod Twi
use auto_robotic_arms.Base.{ℕ, Bool}

pub record Bus : Type 1 where
  pub State : Type 0
  -- `twi_init`
  pub init : State → State
  -- `twi_write_register`: the address, the register, the byte; false is a failure on the bus
  pub write_register : ℕ → ℕ → ℕ → State → Bool × State
