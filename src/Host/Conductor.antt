-- ===== src/Host/Conductor.antt =====
-- Hardware/host_app/src/conductor_host.py: the closed-loop conductor. Times are whole microseconds;
-- the n-th call of `time.time()` returns `clock n`. The operator's `input()` returns at once, and
-- the console output and the sleeps are left out.
pub mod Exchange
pub mod Safety
use auto_robotic_arms.Base.{
  ℕ, zero, suc, ◌+◌, Bool, true, false, List, [], ◌∷◌, ◌++◌, Option, none, some, ltb, ◌==◌,
  if◌then◌else◌, length, ℤ, pos, sub_ℕ, ltb_ℤ,
}
use auto_robotic_arms.Wire.{str_int, hex02, xor_from, drive_text}
use auto_robotic_arms.Joints.{Angles, centred}
use auto_robotic_arms.Python.{Exception, envelope_violation, serial_error, Result, ok, err}
use auto_robotic_arms.Floats.{Floats}
use auto_robotic_arms.Link.{Link}
use auto_robotic_arms.Host.Kinematics.{calculate_joint_angles}

-- `calculate_xor_checksum`
unfoldable pub calculate_xor_checksum : List ℕ → List ℕ
calculate_xor_checksum payload = hex02 (xor_from 0 payload)

-- `f"DRV,{base},{shoulder},{elbow}"`
unfoldable pub drive_payload : Angles → List ℕ
drive_payload a = drive_text (str_int a.base) (str_int a.shoulder) (str_int a.elbow)

-- `f"@{payload}*{chk}\n"`
unfoldable pub frame : List ℕ → List ℕ
frame payload = b'@' ∷ (payload ++ b'*' ∷ (calculate_xor_checksum payload ++ 10 ∷ []))

abbrev pub idle_keepalive : ℕ
idle_keepalive = 2_000_000

-- How a call ends: it returns, exits the process, or raises.
pub data Outcome (A : Type 0) : Type 0 where
  done : A → Outcome A
  exit : ℕ → Outcome A
  raised : Exception → Outcome A

module _ (link : Link) where
  -- The object's fields, the device behind `self.ser`, the number of clock reads, and the frames
  -- written so far.
  pub record Conductor : Type 0 where
    pub last_valid_angles : Angles
    pub last_tx_time : ℕ
    pub device : link.Device
    pub clock_reads : ℕ
    pub written : List (List ℕ)

-- `decode('ascii', errors='ignore')` of at most one byte.
unfoldable pub decode_ack : Option ℕ → Option ℕ
decode_ack none = none
decode_ack (some b) = if ltb b 128 then some b else none

abbrev burst_ends : Option ℕ → Bool
burst_ends none = false
burst_ends (some c) = c == b'K'

module _ (link : Link) where
  abbrev pub Run : Type 0 → Type 0
  Run A = Conductor link → Outcome A × Conductor link

  abbrev pub pure : {A : Type 0} → A → Run A
  pure a s = (done a, s)

  abbrev pub then_run : {A B : Type 0} → Run A → (A → Run B) → Run B
  then_run m k s =
      let (r, s') = m s in
      elim r [ done a ↦ k a s' | exit n ↦ (exit n, s') | raised e ↦ (raised e, s') ]

  -- `self.ser.write(frame)`, which may raise.
  unfoldable pub write : List ℕ → Run Unit
  write bytes s = if link.write_raises s.device bytes then (raised serial_error, s) else (
    done tt,
    record s { device = link.write s.device bytes; written = s.written ++ bytes ∷ [] },
  )

  -- `self.ser.read(1).decode('ascii', errors='ignore')`, which may raise.
  unfoldable pub read_ack : Run (Option ℕ)
  unfolding decode_ack
  read_ack s =
      let (b, d) = link.read s.device in
      if link.read_raises s.device
      then (raised serial_error, s)
      else (done (decode_ack b), record s { device = d })

  -- One step of the trust burst: a frame and its answer.
  unfoldable pub write_and_read : List ℕ → Run (Option ℕ)
  write_and_read bytes = then_run (write bytes) (λ _. read_ack)

-- The `except` clause of `connect_and_home`.
abbrev caught : Outcome Bool → Outcome Bool
caught (raised serial_error) = exit 1
caught r = r

module _ (link : Link) (clock : ℕ → ℕ) where
  -- `self.last_tx_time = time.time()`
  unfoldable pub stamp : Conductor link → Conductor link
  stamp s = record s { last_tx_time = clock s.clock_reads; clock_reads = s.clock_reads + 1 }

  -- The end of the burst: the answer to the third frame decides.
  abbrev pub rearmed : Option ℕ → Run link Unit
  rearmed ack s = if burst_ends ack then (done tt, stamp s) else (exit 1, s)

  unfoldable pub handle_safety_halt : Run link Unit
  handle_safety_halt s =
      let sync_frame = frame (drive_payload s.last_valid_angles) in
      then_run link (write_and_read link sync_frame)
        (λ _.
          then_run link (write_and_read link sync_frame)
            (λ _. then_run link (write_and_read link sync_frame) rearmed))
        s

  -- The branches on the answer.
  unfoldable pub on_ack : Angles → Option ℕ → Run link Bool
  on_ack a none s = then_run link handle_safety_halt (λ _. pure link false) s
  on_ack a (some c) s =
      if c == b'K'
      then (done true, record s { last_valid_angles = a })
      else if c == b'E'
      then (done false, s)
      else if c == b'H'
      then then_run link handle_safety_halt (λ _. pure link false) s
      else (done false, s)

  unfoldable pub transmit_and_wait : Angles → Run link Bool
  transmit_and_wait a s =
      let payload = drive_payload a in
      let read = λ (_ : Unit) (sent : Conductor link).
        then_run link (read_ack link) (on_ack a) (stamp sent) in
      if ltb 24 (length payload)
      then (done false, s)
      else then_run link (write link (frame payload)) read s

  unfoldable pub send_heartbeat : Run link Unit
  send_heartbeat s = then_run link (transmit_and_wait s.last_valid_angles) (λ _. pure link tt) s

  -- `opened` says whether `serial.Serial` returns or raises SerialException.
  unfoldable pub connect_and_home : Bool → Run link Bool
  connect_and_home true s = let (r, s') = transmit_and_wait centred s in (caught r, s')
  connect_and_home false s = (exit 1, s)

  unfoldable pub process_idle_loop : Run link Unit
  process_idle_loop s =
      let now = clock s.clock_reads in
      let s' = record s { clock_reads = s.clock_reads + 1 } in
      if ltb_ℤ (pos idle_keepalive) (sub_ℕ now s.last_tx_time)
      then send_heartbeat s'
      else (done tt, s')

  -- A solved target is transmitted; a violation of the envelope is answered by a heartbeat.
  unfoldable pub on_target : Result Angles → Run link Unit
  on_target (ok a) s = then_run link (transmit_and_wait a) (λ _. pure link tt) s
  on_target (err envelope_violation) s = send_heartbeat s
  on_target (err e) s = (raised e, s)

  module _ (f : Floats) where
    unfoldable pub dispatch_trajectory : f.Float → f.Float → f.Float → Run link Unit
    dispatch_trajectory x y z = on_target (calculate_joint_angles f x y z)

    -- The `for` loop of `main` over the trajectory matrix.
    unfoldable pub dispatch_all : List (f.Float × f.Float × f.Float) → Run link Unit
    dispatch_all [] = pure link tt
    dispatch_all ((x, y, z) ∷ rest) =
        then_run link (dispatch_trajectory x y z) (λ _. dispatch_all rest)

    -- `n` rounds of the endless keep-alive loop.
    unfoldable pub idle_rounds : ℕ → Run link Unit
    idle_rounds zero = pure link tt
    idle_rounds (suc n) = then_run link process_idle_loop (λ _. idle_rounds n)

    -- `main` up to its `n`-th idle round; a failed homing exits.
    unfoldable pub main : Bool → List (f.Float × f.Float × f.Float) → ℕ → Run link Unit
    main opened trajectory n = then_run link (connect_and_home opened) λ homed.
        if homed
        then then_run link (dispatch_all trajectory) (λ _. idle_rounds n)
        else (λ s. (exit 1, s))
