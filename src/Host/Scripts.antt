-- ===== src/Host/Scripts.antt =====
-- The bench scripts: Hardware/host_app/test.py, Hardware/host_app/rest.py and
-- Cloud/OldCode/src/serial_sanity_check.py, once the port is open. The sleeps and the console are
-- left out, and so is an interruption by the operator.
use auto_robotic_arms.Base.{
  ℕ, Bool, true, false, List, [], ◌∷◌, ◌++◌, Option, none, some, ltb, ◌==◌, if◌then◌else◌, pos,
}
use auto_robotic_arms.Wire.{hex02, xor_from, str_int, drive_text}
use auto_robotic_arms.Joints.{Angles, saturate, centred}
use auto_robotic_arms.Python.{envelope_violation, value_error, Result, ok, err}
use auto_robotic_arms.Floats.{Floats}
use auto_robotic_arms.Link.{Link}
use auto_robotic_arms.Host.Kinematics.{calculate_joint_angles}

-- The text that `send_frame` and rest.py build around a payload.
abbrev pub script_frame : List ℕ → List ℕ
script_frame payload = b'@' ∷ (payload ++ b'*' ∷ (hex02 (xor_from 0 payload) ++ 10 ∷ []))

-- `ack == 'K'` after `decode("ascii", errors="ignore")`; no answer decodes to the empty text.
abbrev pub is_k : Option ℕ → Bool
is_k none = false
is_k (some b) = if ltb b 128 then b == b'K' else false

-- What serial_sanity_check.py reports: a line, without the bytes that are not ASCII, no answer,
-- or a port that does not open.
pub data SanityReport : Type 0 where
  success : List ℕ → SanityReport
  warn failure : SanityReport

abbrev ascii_ignore : List ℕ → List ℕ
ascii_ignore [] = []
ascii_ignore (b ∷ line) = if ltb b 128 then b ∷ ascii_ignore line else ascii_ignore line

abbrev report : List ℕ → SanityReport
report [] = warn
report (b ∷ line) = success (ascii_ignore (b ∷ line))

abbrev pub ping : List ℕ
ping = b'P' ∷ b'I' ∷ b'N' ∷ b'G' ∷ 10 ∷ []

module _ (link : Link) where
  -- The port: its device, and whether it has been closed.
  pub record Port : Type 0 where
    pub device : link.Device
    pub closed : Bool

  unfoldable pub send_frame : Angles → Port → Bool × Port
  send_frame a port =
      let payload =
        drive_text (str_int (saturate a.base)) (str_int (saturate a.shoulder))
          (str_int (saturate a.elbow)) in
      let (answer, device) = link.read (link.write port.device (script_frame payload)) in
      (is_k answer, record port { device = device })

  -- A target of the `try` block: its angles are sent, and a violation ends the block.
  abbrev visit : Result Angles → (Port → Result (Unit {0}) × Port) → Port → Result (Unit {0}) × Port
  visit (ok a) next port = next (send_frame a port).1
  visit (err envelope_violation) next port = (ok tt, port)
  visit (err e) next port = (err e, port)

  unfoldable pub visit_all : List (Result Angles) → Port → Result (Unit {0}) × Port
  visit_all [] port = (ok tt, port)
  visit_all (target ∷ rest) port = visit target (visit_all rest) port

  -- The homing pose, the targets, and `finally`.
  unfoldable pub try_block : List (Result Angles) → Port → Result (Unit {0}) × Port
  try_block targets port =
      let (r, port') = visit_all targets (send_frame centred port).1 in
      (r, record port' { closed = true })

  -- The block under `__main__`; `reset_input_buffer` is pyserial's.
  unfoldable pub script_main :
      (link.Device → link.Device) → (f : Floats) → Port → Result (Unit {0}) × Port
  script_main reset_input_buffer f port =
      try_block
        (calculate_joint_angles f (f.lit 150 10) (f.lit 10 10) (f.lit 150 10)
          ∷ calculate_joint_angles f (f.lit 150 10) (f.lit 60 10) (f.lit 100 10)
          ∷ calculate_joint_angles f (f.lit 100 10) (f.lit 20 10) (f.lit 100 10)
          ∷ [])
        (record port { device = reset_input_buffer port.device })

  -- rest.py: the strict decoding of the answer raises on a byte that is not ASCII.
  unfoldable pub rest : link.Device → Result (Option ℕ) × link.Device
  rest device =
      let payload = drive_text (str_int (pos 90)) (str_int (pos 90)) (str_int (pos 90)) in
      let (answer, device') = link.read (link.write device (script_frame payload)) in
      (
        elim answer [
          | none ↦ ok none
          | some b ↦ if ltb b 128 then ok (some b) else err value_error
        ],
        device',
      )

  -- The device is none where `serial.Serial` raises SerialException; `readline` is pyserial's. A
  -- SerialException of a later call is left out.
  unfoldable pub sanity_check :
      (link.Device → List ℕ × link.Device) → Option link.Device → SanityReport × Option link.Device
  sanity_check readline none = (failure, none)
  sanity_check readline (some device) =
      let (line, device') = readline (link.write device ping) in (report line, some device')
