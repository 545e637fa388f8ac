-- ===== src/Firmware/Text.antt =====
-- What the C string functions read from digits, and from the two hexadecimal digits of a byte.
use auto_robotic_arms.Base.{
  text_eq, text_eq_sound, ℕ, ◌+◌, ◌-◌, ◌*◌, ◌/◌, ◌%◌, ◌<◌, ◌≡◌, refl, ap, ◌∙◌, true, false, List,
  [], ◌∷◌, ◌++◌, append_assoc, append-nil, some, arith, ◌==◌, length, All, all_below,
  all_below_sound, pos,
}
use auto_robotic_arms.Wire.{hex02, hex_digit}
use auto_robotic_arms.Wire.Digits.{is_digit, IsDigit, value_from}
use auto_robotic_arms.Firmware.{
  hex_char_to_nibble, c_string, strtok, digits_prefix, atoi, atoi_sign, token_or_skip, is_space,
}

hex_table :
    all_below 256 (λ x. text_eq (hex02 x) (hex_digit (x / 16) ∷ hex_digit (x % 16) ∷ [])) ≡ true
unfolding all_below hex02 hex_digit
hex_table = refl

-- A byte prints as its two nibbles.
pub hex02-nibbles : (x : ℕ) → x < 256 → hex02 x ≡ hex_digit (x / 16) ∷ hex_digit (x % 16) ∷ []
hex02-nibbles x h = text_eq_sound (hex02 x) (hex_digit (x / 16) ∷ hex_digit (x % 16) ∷ []) (
    all_below_sound 256 (λ x. text_eq (hex02 x) (hex_digit (x / 16) ∷ hex_digit (x % 16) ∷ [])) x
      hex_table h)

pub hex_char_to_nibble-hex_digit : (d : ℕ) → d < 16 → hex_char_to_nibble (hex_digit d) ≡ some d
unfolding hex_char_to_nibble hex_digit
hex_char_to_nibble-hex_digit d h = ground arith

-- No terminator inside: the whole text is read.
abbrev pub IsNonzero : ℕ → Type 0
IsNonzero c = 0 < c

pub c_string-All : (s : List ℕ) → All IsNonzero s → c_string s ≡ s
unfolding c_string
c_string-All [] h = refl
c_string-All (c ∷ s) h = ground (arith, c_string-All s h.1)

abbrev NotComma : ℕ → Type 0
NotComma c = (c == b',') ≡ false

pub digit-NotComma : (c : ℕ) → IsDigit c → NotComma c
unfolding is_digit
digit-NotComma c h = ground arith

pub strtok-cut :
    (token w s : List ℕ)
    → All NotComma w
    → strtok token (w ++ b',' ∷ s) ≡ token_or_skip (token ++ w) (strtok [] s)
unfolding strtok
strtok-cut token [] s h = rw (append-nil token)
strtok-cut token (c ∷ w) s h = rw h.0 (
    strtok-cut (token ++ c ∷ []) w s h.1
    ∙ ap (λ t. token_or_skip t (strtok [] s)) (append_assoc token (c ∷ []) w))

pub strtok-end :
    (token w : List ℕ) → All NotComma w → strtok token w ≡ token_or_skip (token ++ w) []
unfolding strtok
strtok-end token [] h = rw (append-nil token)
strtok-end token (c ∷ w) h = rw h.0 (
    strtok-end (token ++ c ∷ []) w h.1
    ∙ ap (λ t. token_or_skip t []) (append_assoc token (c ∷ []) w))

digits_prefix-value :
    (acc : ℕ) (s : List ℕ) → All IsDigit s → digits_prefix acc s ≡ value_from acc s
unfolding digits_prefix value_from
digits_prefix-value acc [] h = refl
digits_prefix-value acc (c ∷ s) h = rw h.0 (digits_prefix-value (acc * 10 + (c - 48)) s h.1)

digit_first :
    (c : ℕ) → IsDigit c → ((c == b'-') ≡ false) × ((c == b'+') ≡ false) × (is_space c ≡ false)
unfolding is_digit
digit_first c h = ground arith

pub atoi-digits : (s : List ℕ) → All IsDigit s → 0 < length s → atoi s ≡ pos (value_from 0 s)
unfolding atoi atoi_sign
atoi-digits [] h lt = elim lt [ ]
atoi-digits (c ∷ s) h lt =
    let (minus, plus, space) = digit_first c h.0 in
    rw (space, minus, plus) (ap pos (digits_prefix-value 0 (c ∷ s) h))
