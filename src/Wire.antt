-- ===== src/Wire.antt =====
-- Python text as lists of code points: `str(int)`, the format `:02X` and the running XOR of the
-- frames that the hosts send (Hardware/host_app/src/conductor_host.py,
-- Software/edge-orchestrator/orchestrator_node.py).
pub mod Xor
pub mod Digits
use Prim.Native.Char.{code}
use Prim.Native.String.{String}
use auto_robotic_arms.Base.{
  ℕ, zero, suc, ◌+◌, ◌/◌, ◌%◌, List, [], ◌∷◌, ◌++◌, ltb, if◌then◌else◌, ℤ, pos, negsuc, bit_xor,
}

-- The code points of a text.
abbrev pub codes : String → List ℕ
codes String.[] = []
codes (String.◌∷◌ c s) = code c ∷ codes s

-- The digits of `n` in a base, most significant first; fuel `n + 1` is more than their number.
print_base : (ℕ → ℕ) → ℕ → ℕ → ℕ → List ℕ
print_base digit base zero n = []
print_base digit base (suc fuel) n =
    let more = print_base digit base fuel (n / base) ++ digit (n % base) ∷ [] in
    if ltb n base then digit n ∷ [] else more

abbrev decimal_digit : ℕ → ℕ
decimal_digit d = 48 + d

-- '0'..'9', 'A'..'F'
unfoldable pub hex_digit : ℕ → ℕ
hex_digit d = if ltb d 10 then 48 + d else 55 + d

-- `str(n)` for n ≥ 0.
unfoldable pub dec : ℕ → List ℕ
unfolding print_base
dec n = print_base decimal_digit 10 (suc n) n

-- `str(n)`.
unfoldable pub str_int : ℤ → List ℕ
str_int (pos n) = dec n
str_int (negsuc n) = b'-' ∷ dec (suc n)

-- `f"{n:02X}"`: upper case, padded with a zero to two digits.
unfoldable pub hex02 : ℕ → List ℕ
unfolding print_base hex_digit
hex02 n =
    let wide = print_base hex_digit 16 (suc n) n in
    if ltb n 16 then b'0' ∷ hex_digit n ∷ [] else wide

-- `for ch in text: checksum ^= ord(ch)`, from a starting value.
unfoldable pub xor_from : ℕ → List ℕ → ℕ
xor_from checksum [] = checksum
xor_from checksum (c ∷ text) = xor_from (bit_xor checksum c) text

-- The drive command with its three arguments, as text.
abbrev pub drive_text : List ℕ → List ℕ → List ℕ → List ℕ
drive_text t0 t1 t2 = b'D' ∷ b'R' ∷ b'V' ∷ b',' ∷ (t0 ++ b',' ∷ (t1 ++ b',' ∷ t2))
