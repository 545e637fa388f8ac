-- ===== src/Wire/Digits.antt =====
-- Printed numbers: what a reader of the digits needs to know about `dec` and `hex02`.
use auto_robotic_arms.Base.{
  ℕ, ◌+◌, ◌-◌, ◌*◌, ◌≤◌, ◌<◌, ◌≡◌, refl, Bool, true, ◌&&◌, List, [], ◌∷◌, arith, leb, ltb, ◌==◌,
  length, All, all_below, all_below_sound,
}
use auto_robotic_arms.Wire.{dec}

unfoldable pub is_digit : ℕ → Bool
is_digit c = leb 48 c && leb c 57

abbrev pub IsDigit : ℕ → Type 0
IsDigit c = is_digit c ≡ true

all_digits : List ℕ → Bool
all_digits [] = true
all_digits (c ∷ s) = is_digit c && all_digits s

all_digits-All : (s : List ℕ) → all_digits s ≡ true → All IsDigit s
unfolding all_digits
all_digits-All [] h = tt
all_digits-All (c ∷ s) h = (ground arith, all_digits-All s (ground arith))

-- The number that a run of digits stands for, read after `acc`.
unfoldable pub value_from : ℕ → List ℕ → ℕ
value_from acc [] = acc
value_from acc (c ∷ s) = value_from (acc * 10 + (c - 48)) s

-- A servo angle prints as one to three digits that read back as the angle.
pub record IsPrint (n : ℕ) (s : List ℕ) : Type 0 where
  pub digits : All IsDigit s
  pub some_digit : 0 < length s
  pub few : length s ≤ 3
  pub value : value_from 0 s ≡ n

good_print : ℕ → Bool
good_print n =
    all_digits (dec n)
    && (ltb 0 (length (dec n)) && (leb (length (dec n)) 3 && (value_from 0 (dec n) == n)))

angle_table : all_below 181 good_print ≡ true
unfolding all_below good_print dec all_digits is_digit value_from
angle_table = refl

pub dec-IsPrint : (n : ℕ) → n ≤ 180 → IsPrint n (dec n)
dec-IsPrint n h = record {
  digits = all_digits-All (dec n) (unfold good_print in ground (arith, good));
  some_digit = unfold good_print in ground (arith, good);
  few = unfold good_print in ground (arith, good);
  value = unfold good_print in ground (arith, good);
}
  where
    good : good_print n ≡ true
    good = all_below_sound 181 good_print n angle_table (omega arith)
