-- ===== src/Edge/Daemon.antt =====
-- `mechatronic_hardware_daemon` of Software/edge-orchestrator/orchestrator_node.py: one round of its
-- loop, by what the serial port does in that round. The sleeps are left out.
pub mod Slew
pub mod Rounds
pub mod Arrival
pub mod Overtaken
use auto_robotic_arms.Base.{
  ℕ, zero, suc, ◌+◌, Bool, true, false, not, ◌&&◌, ◌||◌, List, [], ◌∷◌, ◌==◌, ltb, if◌then◌else◌, ℤ,
  pos, negsuc, sub_ℕ, leb_ℤ, min_ℤ, max_ℤ, ◌+ℤ◌, ◌-ℤ◌,
}
use auto_robotic_arms.Python.{Exception, Result, ok, err}
use auto_robotic_arms.Joints.{Angles, centred}
use auto_robotic_arms.Edge.Frame.{build_option_a_frame}
use auto_robotic_arms.Edge.Node.{Node, log_if_managed}

abbrev pub drive_command : List ℕ
drive_command = b'D' ∷ b'R' ∷ b'V' ∷ []

abbrev pub heartbeat_command : List ℕ
heartbeat_command = b'H' ∷ b'B' ∷ b'T' ∷ []

abbrev pub heartbeat_interval : ℕ
heartbeat_interval = 1_500_000

-- `serial.Serial(...)` and the recovery burst: the port does not open, or it opens and a write of
-- the burst raises, or all goes well.
pub data Opening : Type 0 where
  not_opened burst_raised opened : Opening

-- A dispatch: `write` or `flush` raises, or `readline` does, or a line comes back (decoded and
-- stripped; empty at a timeout).
pub data Exchange : Type 0 where
  write_raised readline_raised : Exchange
  line : List ℕ → Exchange

-- What a round meets.
pub record Surroundings : Type 0 where
  pub opening : Opening
  pub now : ℕ
  pub exchange : Exchange

-- `ser` is the daemon's own variable: true while it holds a port.
pub record Daemon : Type 0 where
  pub node : Node
  pub ser : Bool

abbrev is_zero : ℤ → Bool
is_zero (pos n) = n == 0
is_zero (negsuc n) = false

abbrev slew_rate_max_delta_deg : ℕ
slew_rate_max_delta_deg = 2

-- One joint's step: `max(-2, min(2, delta))` where the delta is not zero.
unfoldable pub slew : ℤ → ℤ → ℤ
slew target last =
    let delta = target -ℤ last in
    let step = max_ℤ (negsuc 1) (min_ℤ (pos slew_rate_max_delta_deg) delta) in
    if is_zero delta then last else last +ℤ step

unfoldable pub differs : ℤ → ℤ → Bool
differs target last = not (is_zero (target -ℤ last))

unfoldable pub slew_angles : Angles → Angles → Angles
slew_angles target last = record {
  base = slew target.base last.base;
  shoulder = slew target.shoulder last.shoulder;
  elbow = slew target.elbow last.elbow;
}

unfoldable pub moved : Angles → Angles → Bool
moved target last =
    differs target.base last.base
    || (differs target.shoulder last.shoulder || differs target.elbow last.elbow)

abbrev pub popped : List Angles → Node → Node
popped [] n = n
popped (a ∷ rest) n = record n { waypoint_queue = rest; target_joint_angles = a }

-- The part under `queue_lock`.
unfoldable pub take_waypoint : Node → Node
take_waypoint n = popped n.waypoint_queue n

unfoldable pub has_byte : ℕ → List ℕ → Bool
has_byte c [] = false
has_byte c (b ∷ text) = b == c || has_byte c text

-- 'K' clears the safe hold; else 'E' or 'H' trips it.
unfoldable pub after_line : List ℕ → Bool → Bool
unfolding has_byte
after_line text tripped =
    if has_byte b'K' text
    then false
    else if has_byte b'E' text || has_byte b'H' text
    then true
    else tripped

-- The `except` branch: the port is closed and dropped.
abbrev port_lost : Node → Daemon
port_lost n = record { node = record n { serial_bus_nominal = false }; ser = false }

-- The end of the `try` block, after the logging call.
abbrev after_log : Result (Unit {0}) → Node → Daemon
after_log (ok _) n = record { node = n; ser = true }
after_log (err _) n = port_lost n

-- The `try` block around the dispatch of a frame.
unfoldable pub dispatch : Exchange → ℕ → Node → Daemon
dispatch write_raised now n = port_lost n
dispatch readline_raised now n = port_lost (record n { last_dispatch_time = now })
dispatch (line text) now n =
    let n' = record n {
      last_dispatch_time = now;
      safe_hold_tripped = after_line text n.safe_hold_tripped;
    } in
    after_log (log_if_managed n') n'

-- A round ends in the next state, or the thread dies of an exception outside the `try` blocks.
pub data Round : Type 0 where
  goes_on : Daemon → Round
  dies : Exception → Round

-- The frame is built before the `try`; the pose of the round is already stored.
unfoldable pub send : Result (List ℕ) → Exchange → ℕ → Node → Round
send (ok bytes) exchange now n = goes_on (dispatch exchange now n)
send (err e) exchange now n = dies e

-- The round behind the part under `queue_lock`.
unfoldable pub after_take : Surroundings → Node → Round
after_take w n1 =
    let has_moved = moved n1.target_joint_angles n1.last_known_angles in
    let n2 = record n1 {
      last_known_angles = slew_angles n1.target_joint_angles n1.last_known_angles;
    } in
    let due = leb_ℤ (pos heartbeat_interval) (sub_ℕ w.now n2.last_dispatch_time) in
    let frame =
      build_option_a_frame (if has_moved then drive_command else heartbeat_command)
        n2.last_known_angles in
    if has_moved || due
    then send frame w.exchange w.now n2
    else goes_on (record { node = n2; ser = true })

unfoldable pub tick : Surroundings → Node → Round
tick w n = after_take w (take_waypoint n)

-- What the opening of the port leaves.
unfoldable pub port_after : Opening → Node → Daemon
port_after not_opened n = record { node = record n { serial_bus_nominal = false }; ser = false }
port_after burst_raised n = record { node = record n { serial_bus_nominal = false }; ser = true }
port_after opened n = record {
  node = record n { serial_bus_nominal = true; safe_hold_tripped = false };
  ser = true;
}

-- The head of the loop: without a port it is opened first; where that fails the round ends.
unfoldable pub open_port : Opening → Surroundings → Node → Round
open_port not_opened w n = goes_on (port_after not_opened n)
open_port burst_raised w n = goes_on (port_after burst_raised n)
open_port opened w n = tick w (port_after opened n).node

unfoldable pub round : Surroundings → Daemon → Round
round w d = if d.ser then tick w d.node else open_port w.opening w d.node

-- Several rounds.
abbrev pub and_then : Round → (Daemon → Round) → Round
and_then (goes_on d) k = k d
and_then (dies e) k = dies e

unfoldable pub rounds : List Surroundings → Daemon → Round
rounds [] d = goes_on d
rounds (w ∷ ws) d = and_then (round w d) (λ d'. rounds ws d')
