-- ===== src/Tests/Numbers.antt =====
-- Whole numbers in place of floats: a concrete `Floats` at which the solver, the planner and the
-- hypotheses of the theorems can be evaluated.
use auto_robotic_arms.Base.{
  ℕ, zero, suc, ◌+◌, ◌*◌, ◌/◌, Option, none, some, leb, if◌then◌else◌, ℤ, pos, negsuc, leb_ℤ, ltb_ℤ,
  ◌+ℤ◌, ◌-ℤ◌,
}
use auto_robotic_arms.Floats.{Floats}

abbrev negate : ℤ → ℤ
negate (pos zero) = pos 0
negate (pos (suc n)) = negsuc n
negate (negsuc n) = pos (suc n)

abbrev times : ℤ → ℤ → ℤ
times (pos a) (pos b) = pos (a * b)
times (pos a) (negsuc b) = negate (pos (a * suc b))
times (negsuc a) (pos b) = negate (pos (suc a * b))
times (negsuc a) (negsuc b) = pos (suc a * suc b)

abbrev quotient : ℤ → ℤ → Option ℤ
quotient a (pos zero) = none
quotient (pos a) (pos (suc b)) = some (pos (a / suc b))
quotient (pos a) (negsuc b) = some (negate (pos (a / suc b)))
quotient (negsuc a) (pos (suc b)) = some (negate (pos (suc a / suc b)))
quotient (negsuc a) (negsuc b) = some (pos (suc a / suc b))

abbrev power : ℤ → ℕ → ℤ
power x zero = pos 1
power x (suc n) = times x (power x n)

-- The whole root, from below.
abbrev root : ℕ → ℕ
root zero = 0
root (suc n) = let r = root n in if leb ((r + 1) * (r + 1)) (suc n) then r + 1 else r

abbrev square_root : ℤ → Option ℤ
square_root (pos n) = some (pos (root n))
square_root (negsuc n) = none

-- acos(1) = 0, acos(0) ≈ 2, acos(-1) ≈ 3
abbrev arc_cosine : ℤ → Option ℤ
arc_cosine (pos zero) = some (pos 2)
arc_cosine (pos (suc zero)) = some (pos 0)
arc_cosine (negsuc zero) = some (pos 3)
arc_cosine _ = none

abbrev pub whole_numbers : Floats
whole_numbers = record {
  Float = ℤ;
  lit = λ n d. pos (n / d);
  of_int = λ n. n;
  neg = negate;
  add = λ a b. a +ℤ b;
  sub = λ a b. a -ℤ b;
  mul = times;
  div = quotient;
  pow = λ x n. some (power x n);
  sqrt = square_root;
  acos = arc_cosine;
  sin = λ x. pos 0;
  cos = λ x. pos 1;
  atan2 = λ y x. if ltb_ℤ x (pos 0) then pos 3 else pos 0;
  degrees = λ x. times x (pos 57);
  lt = ltb_ℤ;
  le = leb_ℤ;
  round = λ x. some x;
  round3 = λ x. x;
  ceil = λ x. some x;
}
