-- ===== src/Firmware/Accepts.antt =====
-- A drive command with its right checksum passes the check, and the check refuses any other byte.
use auto_robotic_arms.Base.{
  ℕ, ◌+◌, ◌*◌, ◌/◌, ◌%◌, ◌≤◌, ◌<◌, ◌≡◌, ◌≢◌, refl, ap, ◌∙◌, Bool, true, false, List, [], ◌∷◌, ◌++◌,
  arith, ◌==◌, ==_iff, Bool-cases, inl, inr, if◌then◌else◌, length, length-append, All, All-imp,
  All-append,
}
use auto_robotic_arms.Wire.{hex02, xor_from, drive_text}
use auto_robotic_arms.Wire.Digits.{IsDigit, is_digit, IsPrint}
use auto_robotic_arms.Wire.Xor.{IsAscii}
use auto_robotic_arms.Firmware.{
  ParseStatus, success, error_format, error_checksum, PacketParser, strtok, store_angles,
  match_command, drv, token_or_skip, extract_and_clamp_angles, check_packet,
}
use auto_robotic_arms.Firmware.Text.{
  IsNonzero, c_string-All, digit-NotComma, strtok-cut, strtok-end, atoi-digits,
  hex_char_to_nibble-hex_digit, hex02-nibbles,
}
use auto_robotic_arms.Firmware.Frames.{IsPlain}

-- The characters of a command: digits, commas and letters.
abbrev pub IsCommandByte : ℕ → Type 0
IsCommandByte c = (44 ≤ c) × (c ≤ 90) × ((c == b'@') ≡ false)

pub digit-IsCommandByte : (c : ℕ) → IsDigit c → IsCommandByte c
unfolding is_digit
digit-IsCommandByte c h = ground arith

pub IsCommandByte-IsPlain : (c : ℕ) → IsCommandByte c → IsPlain c
IsCommandByte-IsPlain c h = ground arith

pub IsCommandByte-IsAscii : (c : ℕ) → IsCommandByte c → IsAscii c
IsCommandByte-IsAscii c h = omega arith

IsCommandByte-IsNonzero : (c : ℕ) → IsCommandByte c → IsNonzero c
IsCommandByte-IsNonzero c h = omega arith

-- The check under the two digits of a byte compares that byte with the parity of the payload.
abbrev extracted : Bool × PacketParser → ParseStatus × PacketParser
extracted (found, p) = if found then (success, p) else (error_format, p)

check_packet-hex02 :
    (p : PacketParser) (y : ℕ)
    → y < 256
    → check_packet (hex02 y) p ≡ (
        if xor_from 0 p.payload_buffer == y
        then extracted (extract_and_clamp_angles p)
        else (error_checksum, p))
unfolding check_packet
check_packet-hex02 p y small =
    let whole : y / 16 * 16 + y % 16 ≡ y = omega arith in
    rw
      (
        hex02-nibbles y small,
        hex_char_to_nibble-hex_digit (y / 16) (omega arith),
        hex_char_to_nibble-hex_digit (y % 16) (omega arith),
      )
      (rw whole)

check_packet-passes :
    (p : PacketParser) (y : ℕ)
    → y < 256
    → xor_from 0 p.payload_buffer ≡ y
    → check_packet (hex02 y) p ≡ extracted (extract_and_clamp_angles p)
check_packet-passes p y small e = check_packet-hex02 p y small ∙ rw ((==_iff _ _).1 e)

token_or_skip-kept : (t : List ℕ) (ts : List (List ℕ)) → 0 < length t → token_or_skip t ts ≡ t ∷ ts
token_or_skip-kept [] ts h = elim h [ ]
token_or_skip-kept (c ∷ t) ts h = refl

module _ {a0 a1 a2 : ℕ} {t0 t1 t2 : List ℕ} (p0 : IsPrint a0 t0) (p1 : IsPrint a1 t1)
    (p2 : IsPrint a2 t2) where
  pub drive_text-bytes : All IsCommandByte (drive_text t0 t1 t2)
  drive_text-bytes =
      let bytes = All-imp digit-IsCommandByte in
      let comma : IsCommandByte b',' = ground arith in
      (
        ground arith,
        (
          ground arith,
          (
            ground arith,
            (
              comma,
              All-append IsCommandByte t0 (b',' ∷ (t1 ++ b',' ∷ t2)) (bytes t0 p0.digits) (
                comma,
                All-append IsCommandByte t1 (b',' ∷ t2) (bytes t1 p1.digits)
                    (comma, bytes t2 p2.digits),
              ),
            ),
          ),
        ),
      )

  pub length-drive_text : length (drive_text t0 t1 t2) ≤ 15
  length-drive_text =
      omega
        (arith, length-append {0} t0 (b',' ∷ (t1 ++ b',' ∷ t2)), length-append {0} t1 (b',' ∷ t2))

  drive_text-tokens : strtok [] (drive_text t0 t1 t2) ≡ drv ∷ t0 ∷ t1 ∷ t2 ∷ []
  drive_text-tokens =
      strtok-cut [] drv (t0 ++ b',' ∷ (t1 ++ b',' ∷ t2)) (refl, (refl, (refl, tt)))
      ∙ ap (λ ts. drv ∷ ts)
          (strtok-cut [] t0 (t1 ++ b',' ∷ t2) (All-imp digit-NotComma t0 p0.digits)
            ∙ token_or_skip-kept t0 _ p0.some_digit
            ∙ ap (λ ts. t0 ∷ ts)
                (strtok-cut [] t1 t2 (All-imp digit-NotComma t1 p1.digits)
                  ∙ token_or_skip-kept t1 _ p1.some_digit
                  ∙ ap (λ ts. t1 ∷ ts)
                      (strtok-end [] t2 (All-imp digit-NotComma t2 p2.digits)
                        ∙ token_or_skip-kept t2 [] p2.some_digit)))

  extract-drive_text :
      (p : PacketParser)
      → p.payload_buffer ≡ drive_text t0 t1 t2
      → a0 ≤ 180
      → a1 ≤ 180
      → a2 ≤ 180
      → extract_and_clamp_angles p
        ≡ (true, record p { parsed_angles = record { j0 = a0; j1 = a1; j2 = a2 } })
  unfolding extract_and_clamp_angles
  extract-drive_text p e h0 h1 h2 =
      let nonzero = All-imp IsCommandByte-IsNonzero (drive_text t0 t1 t2) drive_text-bytes in
      rw (e, c_string-All (drive_text t0 t1 t2) nonzero, drive_text-tokens)
        (unfold match_command store_angles in
          rw
            (
              atoi-digits t0 p0.digits p0.some_digit,
              atoi-digits t1 p1.digits p1.some_digit,
              atoi-digits t2 p2.digits p2.some_digit,
              p0.value,
              p1.value,
              p2.value,
            )
            (ground arith))

  -- The drive command under its own checksum: accepted, with the three angles.
  pub check_packet-drive :
      (p : PacketParser)
      → p.payload_buffer ≡ drive_text t0 t1 t2
      → a0 ≤ 180
      → a1 ≤ 180
      → a2 ≤ 180
      → xor_from 0 (drive_text t0 t1 t2) < 256
      → check_packet (hex02 (xor_from 0 (drive_text t0 t1 t2))) p
        ≡ (success, record p { parsed_angles = record { j0 = a0; j1 = a1; j2 = a2 } })
  check_packet-drive p e h0 h1 h2 small =
      check_packet-passes p (xor_from 0 (drive_text t0 t1 t2)) small (ap (xor_from 0) e)
      ∙ ap extracted (extract-drive_text p e h0 h1 h2)

-- A byte that is not the payload's parity is refused, whatever the payload.
pub check_packet-parity :
    (p : PacketParser) (y : ℕ)
    → y < 256
    → xor_from 0 p.payload_buffer ≢ y
    → check_packet (hex02 y) p ≡ (error_checksum, p)
check_packet-parity p y small differ =
    check_packet-hex02 p y small ∙ elim (Bool-cases (xor_from 0 p.payload_buffer == y)) [
      | inl same ↦ absurd (differ ((==_iff _ _).0 same))
      | inr other ↦ rw other
    ]
