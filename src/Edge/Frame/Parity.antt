-- ===== src/Edge/Frame/Parity.antt =====
-- The frames of the edge node against the microcontroller's parser.
use auto_robotic_arms.Base.{
  ℕ, suc, ◌/◌, ◌%◌, ◌≤◌, ◌<◌, ◌≡◌, refl, ap, sym, ◌∙◌, false, List, [], ◌∷◌, ◌++◌, arith, ltb,
  length, length-append, All, All-imp, All-append, ℤ, pos_part, bit_xor,
}
use auto_robotic_arms.Wire.{str_int, hex02, hex_digit, xor_from}
use auto_robotic_arms.Wire.Digits.{IsPrint}
use auto_robotic_arms.Wire.Xor.{IsAscii, xor_from-lt, xor_from-start, flip_changes}
use auto_robotic_arms.Joints.{Angles, saturate, saturate-InRange}
use auto_robotic_arms.Python.{ok}
use auto_robotic_arms.Firmware.{
  Mcu, error_checksum, wait_for_start, receive, acknowledge, check_packet,
}
use auto_robotic_arms.Firmware.Text.{hex02-nibbles}
use auto_robotic_arms.Firmware.Frames.{receive-frame, concluded, behind}
use auto_robotic_arms.Firmware.Accepts.{
  IsCommandByte, IsCommandByte-IsPlain, IsCommandByte-IsAscii, digit-IsCommandByte,
  check_packet-parity,
}
use auto_robotic_arms.Host.Conductor.Exchange.{str_int-IsPrint}
use auto_robotic_arms.Edge.Frame.{build_option_a_frame}

-- The payload behind the start mark.
abbrev body : List ℕ → List ℕ → List ℕ → List ℕ → List ℕ
body cmd t0 t1 t2 = cmd ++ b',' ∷ (t0 ++ b',' ∷ (t1 ++ b',' ∷ t2))

module _ {a0 a1 a2 : ℕ} (cmd : List ℕ) {t0 t1 t2 : List ℕ} (letters : All IsCommandByte cmd)
    (p0 : IsPrint a0 t0) (p1 : IsPrint a1 t1) (p2 : IsPrint a2 t2) where
  body-bytes : All IsCommandByte (body cmd t0 t1 t2)
  body-bytes =
      let bytes = All-imp digit-IsCommandByte in
      let comma : IsCommandByte b',' = ground arith in
      let join = All-append IsCommandByte in
      join cmd _ letters (
        comma,
        join t0 _ (bytes t0 p0.digits)
            (comma, join t1 _ (bytes t1 p1.digits) (comma, bytes t2 p2.digits)),
      )

  length-body : length cmd ≤ 3 → length (body cmd t0 t1 t2) ≤ 15
  length-body short = omega (
    arith,
    length-append {0} cmd (b',' ∷ (t0 ++ b',' ∷ (t1 ++ b',' ∷ t2))),
    length-append {0} t0 (b',' ∷ (t1 ++ b',' ∷ t2)),
    length-append {0} t1 (b',' ∷ t2),
  )

-- The commands that the node sends: "DRV", "HBT" and "H" are such.
pub record IsCommand (cmd : List ℕ) : Type 0 where
  pub letters : All IsCommandByte cmd
  pub short : length cmd ≤ 3

-- The text behind '@' of a frame, and its parity without the '@'.
unfoldable pub frame_body : List ℕ → Angles → List ℕ
frame_body cmd a =
    body cmd (str_int (saturate a.base)) (str_int (saturate a.shoulder))
      (str_int (saturate a.elbow))

module _ (cmd : List ℕ) (a : Angles) (command : IsCommand cmd) where
  printed : (j : ℤ) → IsPrint (pos_part (saturate j)) (str_int (saturate j))
  printed j = str_int-IsPrint (saturate j) (saturate-InRange j)

  frame_body-bytes : All IsCommandByte (frame_body cmd a)
  unfolding frame_body
  frame_body-bytes =
      body-bytes cmd command.letters (printed a.base) (printed a.shoulder) (printed a.elbow)

  length-frame_body : length (frame_body cmd a) ≤ 15
  unfolding frame_body
  length-frame_body =
      length-body cmd command.letters (printed a.base) (printed a.shoulder) (printed a.elbow)
        command.short

  ascii : All IsAscii (frame_body cmd a)
  ascii = All-imp IsCommandByte-IsAscii (frame_body cmd a) frame_body-bytes

  small : xor_from 0 (frame_body cmd a) < 256
  small = xor_from-lt 0 (frame_body cmd a) (omega arith) ascii

  -- A frame of a command of at most three letters and any integers is within the payload ceiling:
  -- it is built and never raises. What is sent is the clamped command under a parity that takes the
  -- '@' in.
  pub build_option_a_frame-ok :
      build_option_a_frame cmd a
      ≡ ok (
          b'@'
          ∷ (frame_body cmd a
              ++ b'*' ∷ (hex02 (bit_xor (xor_from 0 (frame_body cmd a)) 0x40) ++ 10 ∷ [])))
  unfolding build_option_a_frame
  build_option_a_frame-ok =
      let fits : ltb 24 (suc (length (frame_body cmd a))) ≡ false =
        ground (arith, length-frame_body) in
      let parity = xor_from-start 0 (frame_body cmd a) (omega arith) ascii in
      unfold frame_body xor_from in rw (fits, parity)

  receive-refused :
      (m : Mcu)
      → m.parser.state ≡ wait_for_start
      → let w = frame_body cmd a in
        let y = bit_xor (xor_from 0 w) 0x40 in
        receive m (b'@' ∷ (w ++ b'*' ∷ (hex02 y ++ 10 ∷ [])))
        ≡ concluded m (error_checksum, (behind m w (hex02 y)).parser)
  receive-refused m waiting =
      let w = frame_body cmd a in
      let y = bit_xor (xor_from 0 w) 0x40 in
      let (byte, flipped) = flip_changes (xor_from 0 w) small in
      let high = hex_digit (y / 16) in
      let low = hex_digit (y % 16) in
      let refused : check_packet (hex02 y) (behind m w (high ∷ low ∷ [])).parser
          ≡ (error_checksum, (behind m w (high ∷ low ∷ [])).parser) =
        check_packet-parity (behind m w (high ∷ low ∷ [])).parser y byte (λ e. flipped (sym e)) in
      rw (hex02-nibbles y byte) (
        receive-frame m w high low waiting (All-imp IsCommandByte-IsPlain w frame_body-bytes)
          (omega (arith, length-frame_body))
        ∙ ap (concluded m) (rw (hex02-nibbles y byte) at refused))

  -- The microcontroller refuses every frame of the node, where its parser waits for one and the
  -- command is one of at most three letters: its parity leaves the '@' out, so the frame is
  -- answered 'E', and the targets and the interlock stay as they are.
  pub frame_refused :
      (m : Mcu)
      → m.parser.state ≡ wait_for_start
      → (bytes : List ℕ) × (build_option_a_frame cmd a ≡ ok bytes)
        × ((receive m bytes).0 ≡ b'E' ∷ [])
        × ((receive m bytes).1.target_angles ≡ m.target_angles)
        × ((receive m bytes).1.is_in_safety_halt ≡ m.is_in_safety_halt)
  unfolding acknowledge
  frame_refused m waiting =
      let r = receive-refused m waiting in
      (_, build_option_a_frame-ok, rw r refl, rw r refl, rw r refl)
