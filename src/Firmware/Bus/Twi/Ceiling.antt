-- ===== src/Firmware/Bus/Twi/Ceiling.antt =====
-- The ceiling on the waits of Hardware/firmware/src/twi_driver.cpp, and the bus when they are over.
use auto_robotic_arms.Base.{
  ℕ, zero, suc, ◌+◌, ◌*◌, ◌%◌, ◌≤◌, ◌≡◌, refl, ◌⊎◌, inl, inr, Bool, false, [], ◌∷◌, if◌then◌else◌,
  Bool-cases, arith,
}
use auto_robotic_arms.Firmware.Bus.Twi.{
  twint, twsta, twen, Peripheral, i2c_timeout_limit, twi_stop, wait_for_twint, twi_start,
  twi_write_address, twi_write_byte, twi_write_register,
}

-- The peripheral with a count of the polls.
abbrev pub counted : Peripheral → Peripheral
counted p = record {
  State = p.State × ℕ;
  set_prescaler = λ n s. (p.set_prescaler n s.0, s.1);
  set_rate = λ n s. (p.set_rate n s.0, s.1);
  set_control = λ bits s. (p.set_control bits s.0, s.1);
  set_data = λ byte s. (p.set_data byte s.0, s.1);
  poll = λ s. let (done, s') = p.poll s.0 in (done, (s', s.1 + 1));
  status = λ s. p.status s.0;
  get_data = λ s. p.get_data s.0;
}

module _ (p : Peripheral) where
  wait_polls :
      (polls : ℕ) (s : (counted p).State) → (wait_for_twint (counted p) polls s).1.1 ≤ s.1 + polls
  unfolding wait_for_twint
  wait_polls zero s = omega arith
  wait_polls (suc polls) s =
      let (done, s') = (counted p).poll s in let rest = wait_polls polls s' in ground (arith, rest)

  -- A step takes at most 20000 polls.
  abbrev Within : {A : Type 0} → ℕ → (counted p).State → A × (counted p).State → Type 0
  Within n s r = r.1.1 ≤ s.1 + n

  start-Within : (s : (counted p).State) → Within i2c_timeout_limit s (twi_start (counted p) s)
  unfolding twi_start
  start-Within s =
      let waited =
        wait_polls i2c_timeout_limit (p.set_control (twint ∷ twsta ∷ twen ∷ []) s.0, s.1) in
      ground (arith, waited)

  address-Within :
      (address : ℕ) (is_read : Bool) (s : (counted p).State)
      → Within i2c_timeout_limit s (twi_write_address (counted p) address is_read s)
  unfolding twi_write_address
  address-Within address is_read s =
      let sent_byte = (address * 2 + (if is_read then 1 else 0)) % 256 in
      let waited =
        wait_polls i2c_timeout_limit
          (p.set_control (twint ∷ twen ∷ []) (p.set_data sent_byte s.0), s.1) in
      ground (arith, waited)

  byte-Within :
      (byte : ℕ) (s : (counted p).State)
      → Within i2c_timeout_limit s (twi_write_byte (counted p) byte s)
  unfolding twi_write_byte
  byte-Within byte s =
      let waited =
        wait_polls i2c_timeout_limit
          (p.set_control (twint ∷ twen ∷ []) (p.set_data byte s.0), s.1) in
      ground (arith, waited)

-- A state right after the STOP condition.
pub record IsStopped (p : Peripheral) (s : p.State) : Type 0 where
  pub before : p.State
  pub last : s ≡ twi_stop p before

write_register_releases :
    (p : Peripheral) (second_addr reg_addr byte : ℕ) (s : p.State)
    → let (ok, s') = twi_write_register p second_addr reg_addr byte s in
      IsStopped p s' ⊎ (twi_start p s ≡ (false, s')) × (ok ≡ false)
unfolding twi_write_register
write_register_releases p second_addr reg_addr byte s =
    let (started, s1) = twi_start p s in
    let (addressed, s2) = twi_write_address p second_addr false s1 in
    let (selected, s3) = twi_write_byte p reg_addr s2 in
    let (stored, s4) = twi_write_byte p byte s3 in
    elim (Bool-cases started) [
      | inr refused ↦ rw refused (inr (refl, refl))
      | inl went ↦ elim (Bool-cases addressed) [
        | inr other ↦ rw (went, other) (inl (record { before = s2; last = refl }))
        | inl own ↦ elim (Bool-cases selected) [
          | inr other ↦ rw (went, own, other) (inl (record { before = s3; last = refl }))
          | inl register ↦ elim (Bool-cases stored) [
            | inr other ↦
                rw (went, own, register, other) (inl (record { before = s4; last = refl }))
            | inl all_done ↦
                rw (went, own, register, all_done) (inl (record { before = s4; last = refl }))
          ]
        ]
      ]
    ]

-- A register write returns, whatever the peripheral does: it polls TWINT at most 80000 times. It
-- leaves the bus right after a STOP condition, or else the START condition has failed, and then the
-- write fails and nothing follows the START.
pub write_register_returns :
    (p : Peripheral) (second_addr reg_addr byte : ℕ) (s : (counted p).State)
    → let (ok, s') = twi_write_register (counted p) second_addr reg_addr byte s in
      (s'.1 ≤ s.1 + 80000)
      × (IsStopped (counted p) s' ⊎ (twi_start (counted p) s ≡ (false, s')) × (ok ≡ false))
unfolding twi_write_register
write_register_returns p second_addr reg_addr byte s =
    let (started, s1) = twi_start (counted p) s in
    let (addressed, s2) = twi_write_address (counted p) second_addr false s1 in
    let (selected, s3) = twi_write_byte (counted p) reg_addr s2 in
    let (stored, s4) = twi_write_byte (counted p) byte s3 in
    let a = start-Within p s in
    let b = address-Within p second_addr false s1 in
    let c = byte-Within p reg_addr s2 in
    let d = byte-Within p byte s3 in
    (ground (arith, a, b, c, d), write_register_releases (counted p) second_addr reg_addr byte s)
