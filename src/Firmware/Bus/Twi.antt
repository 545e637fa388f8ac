-- ===== src/Firmware/Bus/Twi.antt =====
-- The bus of the board in Hardware/firmware/src/twi_driver.cpp, over the two-wire peripheral of the
-- microcontroller, which is a parameter.
pub mod Ceiling
use auto_robotic_arms.Base.{
  ℕ, zero, suc, ◌+◌, ◌*◌, ◌%◌, Bool, true, false, ◌||◌, List, [], ◌∷◌, Option, none, some, ◌==◌,
  if◌then◌else◌,
}
use auto_robotic_arms.Firmware.Bus.{Bus}

-- The bits of TWCR that the driver sets.
pub data ControlBit : Type 0 where
  twint twea twsta twsto twen : ControlBit

-- The registers TWSR, TWBR, TWCR, TWDR and TW_STATUS.
pub record Peripheral : Type 1 where
  pub State : Type 0
  pub set_prescaler : ℕ → State → State
  pub set_rate : ℕ → State → State
  pub set_control : List ControlBit → State → State
  pub set_data : ℕ → State → State
  -- a read of TWCR: whether TWINT is set
  pub poll : State → Bool × State
  pub status : State → ℕ
  pub get_data : State → ℕ

abbrev pub i2c_timeout_limit : ℕ
i2c_timeout_limit = 20000

module _ (p : Peripheral) where
  abbrev pub twi_init : p.State → p.State
  twi_init s = p.set_control (twen ∷ []) (p.set_rate 72 (p.set_prescaler 0 s))

  abbrev pub twi_force_bus_reset : p.State → p.State
  twi_force_bus_reset s = p.set_control (twen ∷ []) (p.set_control [] s)

  abbrev pub twi_stop : p.State → p.State
  twi_stop s = p.set_control (twint ∷ twen ∷ twsto ∷ []) s

  -- The loop on TWINT with so many polls left before the timeout.
  unfoldable pub wait_for_twint : ℕ → p.State → Bool × p.State
  wait_for_twint zero s = (false, twi_force_bus_reset s)
  wait_for_twint (suc polls) s =
      let (done, s') = p.poll s in
      let rest = wait_for_twint polls s' in if done then (true, s') else rest

  unfoldable pub twi_start : p.State → Bool × p.State
  twi_start s =
      let (done, s') =
        wait_for_twint i2c_timeout_limit (p.set_control (twint ∷ twsta ∷ twen ∷ []) s) in
      if done then (p.status s' == 8 || p.status s' == 16, s') else (false, s')

  unfoldable pub twi_write_address : ℕ → Bool → p.State → Bool × p.State
  twi_write_address address is_read s =
      let (done, s') = wait_for_twint i2c_timeout_limit (
        p.set_control (twint ∷ twen ∷ [])
          (p.set_data ((address * 2 + (if is_read then 1 else 0)) % 256) s)) in
      if done then (p.status s' == (if is_read then 64 else 24), s') else (false, s')

  unfoldable pub twi_write_byte : ℕ → p.State → Bool × p.State
  twi_write_byte byte s =
      let (done, s') =
        wait_for_twint i2c_timeout_limit (p.set_control (twint ∷ twen ∷ []) (p.set_data byte s)) in
      if done then (p.status s' == 40, s') else (false, s')

  -- `none` is false. `has_out` says that `out_data` is not NULL.
  unfoldable pub twi_read_byte : Bool → Bool → p.State → Option ℕ × p.State
  twi_read_byte has_out send_ack s =
      let bits = if send_ack then twint ∷ twen ∷ twea ∷ [] else twint ∷ twen ∷ [] in
      let (done, s') = wait_for_twint i2c_timeout_limit (p.set_control bits s) in
      if has_out then (if done then (some (p.get_data s'), s') else (none, s')) else (none, s)

  -- `if (!step) { twi_stop(); return false; }`
  abbrev step_or_stop : Bool × p.State → (p.State → Bool × p.State) → Bool × p.State
  step_or_stop (ok, s) next = if ok then next s else (false, twi_stop s)

  unfoldable pub twi_write_register : ℕ → ℕ → ℕ → p.State → Bool × p.State
  twi_write_register second_addr reg_addr byte s =
      let (started, s1) = twi_start s in
      if started
      then step_or_stop (twi_write_address second_addr false s1) (λ s2.
        step_or_stop (twi_write_byte reg_addr s2)
          (λ s3. step_or_stop (twi_write_byte byte s3) (λ s4. (true, twi_stop s4))))
      else (false, s1)

  abbrev read_or_stop : Bool × p.State → (p.State → Option ℕ × p.State) → Option ℕ × p.State
  read_or_stop (ok, s) next = if ok then next s else (none, twi_stop s)

  abbrev read_last : Option ℕ × p.State → Option ℕ × p.State
  read_last (byte, s) = (byte, twi_stop s)

  unfoldable pub twi_read_register : Bool → ℕ → ℕ → p.State → Option ℕ × p.State
  twi_read_register has_out second_addr reg_addr s =
      let (started, s1) = twi_start s in
      let second = λ (s3 : p.State).
        let (again, s4) = twi_start s3 in
        if again
        then read_or_stop (twi_write_address second_addr true s4)
            (λ s5. read_last (twi_read_byte true false s5))
        else (none, s4) in
      if has_out
      then (if started
          then read_or_stop (twi_write_address second_addr false s1)
              (λ s2. read_or_stop (twi_write_byte reg_addr s2) second)
          else (none, s1))
      else (none, s)

  abbrev pub twi_bus : Bus
  twi_bus = record { State = p.State; init = twi_init; write_register = twi_write_register }
