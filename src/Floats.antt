-- ===== src/Floats.antt =====
-- Python's floats and its `math` module, which the program calls and does not implement: a
-- parameter of the models. `none` is an exception of the operation. Laws that a theorem needs are
-- named there as hypotheses.
use auto_robotic_arms.Base.{ℕ, ℤ, Bool, Option, if◌then◌else◌}

pub record Floats : Type 1 where
  pub Float : Type 0
  -- the literal `n / d`, such as 21.5 for `lit 215 10`
  pub lit : ℕ → ℕ → Float
  -- `float(n)`
  pub of_int : ℤ → Float
  pub neg : Float → Float
  pub add : Float → Float → Float
  pub sub : Float → Float → Float
  pub mul : Float → Float → Float
  pub div : Float → Float → Option Float
  -- `x ** n`
  pub pow : Float → ℕ → Option Float
  pub sqrt : Float → Option Float
  pub acos : Float → Option Float
  -- `sin` and `cos` raise only at infinities, and are called on results of `acos`
  pub sin : Float → Float
  pub cos : Float → Float
  pub atan2 : Float → Float → Float
  pub degrees : Float → Float
  -- `x < y`, false at a NaN
  pub lt : Float → Float → Bool
  -- `x <= y`, false at a NaN
  pub le : Float → Float → Bool
  -- `int(round(x))`
  pub round : Float → Option ℤ
  -- `round(x, 3)`
  pub round3 : Float → Float
  pub ceil : Float → Option ℤ

-- Python's `min(a, b)` and `max(a, b)`: the second argument wins only by a strict comparison.
module _ (f : Floats) where
  open f use {Float, lt}

  abbrev pub float_min : Float → Float → Float
  float_min a b = if lt b a then b else a

  abbrev pub float_max : Float → Float → Float
  float_max a b = if lt a b then b else a
