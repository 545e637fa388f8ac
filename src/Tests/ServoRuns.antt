-- ===== src/Tests/ServoRuns.antt =====
-- The servos of Hardware/firmware at concrete runs, on buses that fail and on the mock bus.
use auto_robotic_arms.Base.{
  ℕ, zero, suc, ◌+◌, ◌*◌, ◌/◌, ◌%◌, ◌≤◌, ◌≡◌, ◌≢◌, refl, ◌⊎◌, Bool, true, false, List, [], ◌∷◌,
  some, ◌==◌, ==_iff, pos, negsuc, arith,
}
use auto_robotic_arms.Firmware.Bus.{Bus}
use auto_robotic_arms.Firmware.Bus.Mock.{MockBus, mock_write_register, mock_bus}
use auto_robotic_arms.Firmware.Bus.Twi.{Peripheral, twi_start, twi_write_register}
use auto_robotic_arms.Firmware.Bus.Twi.Ceiling.{counted, IsStopped, write_register_returns}
use auto_robotic_arms.Firmware.Actuator.{
  Actuator, power_up, degree_to_ticks, write_register, write_off, write_joint, write_cached_joint,
  each_joint, write_all_cached, configure, rearm, init, set_angle, write_all,
}
use auto_robotic_arms.Firmware.Actuator.Ticks.{degree_to_ticks-ordered}
use auto_robotic_arms.Firmware.Actuator.Chip.{IsChip}
use auto_robotic_arms.Firmware.Actuator.Holds.{write_all_holds}
use auto_robotic_arms.Firmware.Actuator.Reliable.{IsReliable}
use auto_robotic_arms.Firmware.Loop.{hardware_setup, run}
use auto_robotic_arms.Firmware.Loop.Servos.{degrees_of, performs, servos_cached, servos_follow}
use auto_robotic_arms.Tests.FirmwareRuns.{memory, late_round}

degree_to_ticks-ordered_example :
    let ticks = degree_to_ticks 2 in
    (102 ≤ ticks (negsuc 4))
    × (ticks (negsuc 4) ≤ ticks (pos 200))
    × (ticks (pos 200) ≤ 512)
    × (ticks (pos 89) + 2 ≤ ticks (pos 90))
degree_to_ticks-ordered_example =
    degree_to_ticks-ordered 2 (negsuc 4) (pos 200) 89 90 (omega arith) (omega arith) (omega arith)
      (omega arith)

middle_test : (degree_to_ticks 0 (pos 90) ≡ 307) × (degree_to_ticks 3 (pos 90) ≡ 307)
unfolding degree_to_ticks
middle_test = (refl, refl)

-- A peripheral that never sets TWINT.
abbrev dead : Peripheral
dead = record {
  State = Unit;
  set_prescaler = λ _ s. s;
  set_rate = λ _ s. s;
  set_control = λ _ s. s;
  set_data = λ _ s. s;
  poll = λ s. (false, s);
  status = λ _. 0;
  get_data = λ _. 0;
}

write_register_returns_example :
    let (ok, s') = twi_write_register (counted dead) 64 6 0 (tt, 5) in
    (s'.1 ≤ 5 + 80000)
    × (IsStopped (counted dead) s'
        ⊎ (twi_start (counted dead) (tt, 5) ≡ (false, s')) × (ok ≡ false))
write_register_returns_example = write_register_returns dead 64 6 0 (tt, 5)

-- A mock bus whose next writes fail where the list says false; a failed write stores nothing.
record Flaky : Type 0 where
  mock : MockBus
  results : List Bool

abbrev by_result : List Bool → ℕ → ℕ → ℕ → MockBus → Bool × Flaky
by_result [] a r b m = (true, record { mock = (mock_write_register a r b m).1; results = [] })
by_result (true ∷ more) a r b m =
    (true, record { mock = (mock_write_register a r b m).1; results = more })
by_result (false ∷ more) a r b m = (false, record { mock = m; results = more })

abbrev flaky_bus : Bus
flaky_bus = record {
  State = Flaky;
  init = λ s. s;
  write_register = λ a r b s. by_result s.results a r b s.mock;
}

abbrev flaky_register : Flaky → ℕ → ℕ
flaky_register s = s.mock.memory

by_result-stored :
    (results : List Bool) (a r b : ℕ) (m : MockBus)
    → (by_result results a r b m).0 ≡ true
    → flaky_register (by_result results a r b m).1 r ≡ b
unfolding mock_write_register
by_result-stored [] a r b m e = rw ((==_iff r r).1 refl) refl
by_result-stored (true ∷ more) a r b m e = rw ((==_iff r r).1 refl) refl
by_result-stored (false ∷ more) a r b m e = cc

by_result-other :
    (results : List Bool) (a r b q : ℕ) (m : MockBus)
    → q ≢ r
    → flaky_register (by_result results a r b m).1 q ≡ m.memory q
unfolding mock_write_register
by_result-other [] a r b q m h = let apart : (q == r) ≡ false = ground arith in rw apart refl
by_result-other (true ∷ more) a r b q m h =
    let apart : (q == r) ≡ false = ground arith in rw apart refl
by_result-other (false ∷ more) a r b q m h = refl

flaky-IsChip : IsChip flaky_bus flaky_register
flaky-IsChip = record {
  stored = λ a r b s. by_result-stored s.results a r b s.mock;
  other = λ a r b q s. by_result-other s.results a r b q s.mock;
}

abbrev pub blank : MockBus
blank = record { memory = λ _. 0; write_counter = 0 }

-- The third write fails, and the re-arm mends it.
abbrev mended : Actuator flaky_bus
mended = power_up flaky_bus (record { mock = blank; results = true ∷ true ∷ false ∷ [] })

abbrev three : ℕ → ℕ
three zero = 45
three (suc zero) = 90
three (suc (suc _)) = 135

mended_succeeds : (write_all flaky_bus (some three) 3 mended).0 ≡ true
unfolding write_all each_joint set_angle write_joint write_off write_register rearm configure
    write_all_cached write_cached_joint
mended_succeeds = refl

write_all_holds_example :
    let s' = (write_all flaky_bus (some three) 3 mended).1 in
    let ticks = degree_to_ticks 1 (pos 90) in
    (s'.device.mock.memory (8 + 1 * 4) ≡ ticks % 256)
    × (s'.device.mock.memory (9 + 1 * 4) ≡ ticks / 256 % 16)
    × (s'.cached_angles 1 ≡ pos 90)
write_all_holds_example =
    write_all_holds flaky_bus flaky_register flaky-IsChip three mended 1 mended_succeeds
      (omega arith)

-- A re-arm that fails at its second step leaves the chip asleep. The next update reports success,
-- and the chip sleeps on.
abbrev asleep : Actuator flaky_bus
asleep = power_up flaky_bus (record { mock = blank; results = false ∷ true ∷ false ∷ [] })

asleep_test :
    let (first, s1) = write_all flaky_bus (some three) 3 asleep in
    let (second, s2) = write_all flaky_bus (some three) 3 s1 in
    (first ≡ false) × (second ≡ true) × (s2.device.mock.memory 0 ≡ 16)
unfolding write_all each_joint set_angle write_joint write_off write_register rearm configure
    write_all_cached write_cached_joint mock_write_register
asleep_test = (refl, refl, refl)

servos_cached_example :
    let (out, s') = run (late_round ∷ []) (hardware_setup memory) in
    (performs flaky_bus out (init flaky_bus (power_up flaky_bus mended.device)).1).cached_angles 2
    ≡ degrees_of s'.current_angles 2
servos_cached_example =
    servos_cached flaky_bus (late_round ∷ []) memory mended.device 2 (omega arith)

pub mock-IsChip : IsChip mock_bus (λ s. s.memory)
unfolding mock_write_register
mock-IsChip = record {
  stored = λ a r b s e. by_result-stored [] a r b s refl;
  other = λ a r b q s. by_result-other [] a r b q s;
}

pub mock-IsReliable : IsReliable mock_bus
unfolding mock_write_register
mock-IsReliable a r b s = refl

servos_follow_example :
    let (out, s') = run (late_round ∷ []) (hardware_setup memory) in
    let servos = performs mock_bus out (init mock_bus (power_up mock_bus blank)).1 in
    let ticks = degree_to_ticks 0 (degrees_of s'.current_angles 0) in
    (servos.device.memory (8 + 0 * 4) + 256 * servos.device.memory (9 + 0 * 4) ≡ ticks)
    × (102 ≤ ticks)
    × (ticks ≤ 512)
    × (servos.device.memory 0 ≡ 32)
    × (servos.device.memory 254 ≡ 121)
servos_follow_example =
    servos_follow mock_bus (λ s. s.memory) mock-IsChip mock-IsReliable (late_round ∷ []) memory
      blank 0 (omega arith)
