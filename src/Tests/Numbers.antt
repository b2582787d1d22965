-- ===== src/Tests/Numbers.antt =====
-- A reading of doubles as natural numbers, which has the laws that the theorems ask for.
use csql.Base.{some, length, ◌+◌, ◌-◌, ◌*◌, ◌/◌, ltb, ◌==◌, [], ◌∷◌, arith}
use csql.Base.Int.{pos_part}
use csql.Types.{Floats}
use csql.Types.Order.{FloatOrder}

abbrev pub plain_floats : Floats
plain_floats = record {
  float_lt = ltb;
  float_eq = λ x y. x == y;
  float_add = λ x y. x + y;
  float_sub = λ x y. x - y;
  float_mul = λ x y. x * y;
  float_div = λ x y. x / y;
  of_int = pos_part;
  float_to_string = λ x. x ∷ [];
  stof = λ s. some (length s);
}

pub plain_floats-FloatOrder : FloatOrder plain_floats (λ x. Unit)
plain_floats-FloatOrder = record {
  asym = λ x y a b lt. ground arith;
  cotrans = λ x y z a b c lt. ground arith;
  apart = λ x y a b lt. ground arith;
}
