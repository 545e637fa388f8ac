-- ===== src/Wire/Xor.antt =====
-- The running XOR over bytes: it stays a byte, and a starting value can be moved through it.
use auto_robotic_arms.Base.{
  ℕ, ◌<◌, ◌≡◌, refl, ap, ◌∙◌, ◌≢◌, true, false, ◌&&◌, List, [], ◌∷◌, arith, ltb, ◌==◌, ==_iff,
  if◌then◌else◌, All, all_below, all_below_sound, bit_xor,
}
use auto_robotic_arms.Wire.{xor_from}

-- A seven-bit code, as ASCII text has.
abbrev pub IsAscii : ℕ → Type 0
IsAscii c = c < 128

byte_table : all_below 256 (λ x. all_below 128 (λ c. ltb (bit_xor x c) 256)) ≡ true
unfolding all_below
byte_table = refl

bit_xor-lt : (x c : ℕ) → x < 256 → c < 128 → bit_xor x c < 256
bit_xor-lt x c hx hc = ground (arith, entry)
  where
    entry : ltb (bit_xor x c) 256 ≡ true
    entry =
        all_below_sound 128 _ c
          (all_below_sound 256 (λ x. all_below 128 (λ c. ltb (bit_xor x c) 256)) x byte_table hx) hc

pub xor_from-lt : (cs : ℕ) (s : List ℕ) → cs < 256 → All IsAscii s → xor_from cs s < 256
unfolding xor_from
xor_from-lt cs [] h a = h
xor_from-lt cs (c ∷ s) h a = xor_from-lt (bit_xor cs c) s (bit_xor-lt cs c h a.0) a.1

-- '@' is 0x40
start_table :
    all_below 256
      (λ x. all_below 128 (λ c. bit_xor (bit_xor x 0x40) c == bit_xor (bit_xor x c) 0x40))
    ≡ true
unfolding all_below
start_table = refl

start_swap : (x c : ℕ) → x < 256 → c < 128 → bit_xor (bit_xor x 0x40) c ≡ bit_xor (bit_xor x c) 0x40
start_swap x c hx hc = (==_iff _ _).0 (
    all_below_sound 128 _ c
      (all_below_sound 256
        (λ x. all_below 128 (λ c. bit_xor (bit_xor x 0x40) c == bit_xor (bit_xor x c) 0x40)) x
        start_table hx)
      hc)

-- A frame's '@' put through the running XOR flips bit 6 of the result, whatever follows.
pub xor_from-start :
    (cs : ℕ) (s : List ℕ)
    → cs < 256
    → All IsAscii s
    → xor_from (bit_xor cs 0x40) s ≡ bit_xor (xor_from cs s) 0x40
unfolding xor_from
xor_from-start cs [] h a = refl
xor_from-start cs (c ∷ s) h a =
    ap (λ y. xor_from y s) (start_swap cs c h a.0)
    ∙ xor_from-start (bit_xor cs c) s (bit_xor-lt cs c h a.0) a.1

flip_table :
    all_below 256 (λ x. ltb (bit_xor x 0x40) 256 && (if bit_xor x 0x40 == x then false else true))
    ≡ true
unfolding all_below
flip_table = refl

pub flip_changes : (x : ℕ) → x < 256 → (bit_xor x 0x40 < 256) × (bit_xor x 0x40 ≢ x)
flip_changes x h = ground (arith, entry)
  where
    entry : (ltb (bit_xor x 0x40) 256 && (if bit_xor x 0x40 == x then false else true)) ≡ true
    entry =
        all_below_sound 256
          (λ x. ltb (bit_xor x 0x40) 256 && (if bit_xor x 0x40 == x then false else true)) x
          flip_table h
