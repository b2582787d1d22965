-- ===== src/Expression.antt =====
-- core/storage/expression: expressions and their evaluation on a joined tuple.
pub mod Compare
pub mod Like
pub mod Typed
pub mod Answers
pub mod Safety
pub mod Aggregates
use csql.Base.{
  ℕ, zero, suc, ◌+◌, ◌≡◌, Bool, true, false, not, ◌&&◌, ◌||◌, Option, none, some, List, [], ◌∷◌,
  ◌++◌, ltb, ◌==◌, if◌then◌else◌, length, get_elem?, Str, codes, str_eq,
}
use csql.Base.Assoc.{lookup, pair_eq, str_eq_instance}
use csql.Base.Int.{ℤ, pos, negsuc, ltb_ℤ, eqb_ℤ, ◌+ℤ◌, ◌-ℤ◌, ◌*ℤ◌, quot_ℤ, rem_ℤ, fits_int64}
use csql.Base.Result.{Result, ok, err, errors, undefined, bad_variant, ◌>>=◌, ◌>>◌, guard, or_fail}
use csql.Types.{
  SqlTypes, sql_null, sql_int, sql_varchar, sql_bool, sql_datetime, sql_float, sql_key, Floats,
}
use csql.Types.Key.{key_eq, key_lt}
use csql.Functions.{FunctionTypes, apply_function}
use csql.Operators.{
  ArithmeticOperator, BinaryOperator, JoinedTuple, OtherOperator, SetTypes, SqlTypeCompareResult,
  UnaryOperator, any_equal, apply_arithmetic, apply_attribute, apply_binary, apply_set, apply_unary,
  by_order, compare_sql_type, compared, finish_other, float_arithmetic, get_bool, in_range, index,
  int_arithmetic, is_equal, is_greater, is_less, key_by_order, like_loop, like_match, logic, named,
  same_index, seek, step,
}

mutual
  pub data Expression : Type 0 where
    attribute : Str → Str → Expression
    value : SqlTypes → Expression
    binary : BinaryOperator → Expression → Expression → Expression
    arithmetic : ArithmeticOperator → Expression → Expression → Expression
    unary : UnaryOperator → Expression → Expression
    set_of : SetTypes → List SqlTypes → Expression
    other : OtherOperator → Expression → Expression → Expression
    call : FunctionTypes → Parameters → Expression

  -- `std::vector<Expression *>`
  pub data Parameters : Type 0 where
    no_more : Parameters
    param : Expression → Parameters → Parameters

unfoldable mutual
  unfolding apply_binary apply_arithmetic apply_unary apply_attribute apply_set apply_function

  pub apply : Floats → Expression → JoinedTuple → Result SqlTypes
  apply f (attribute entity name) t = apply_attribute entity name t
  apply f (value v) t = ok v
  apply f (binary op l r) t = apply f l t >>= λ a. apply f r t >>= λ b. apply_binary f op a b
  apply f (arithmetic op l r) t =
      apply f l t >>= λ a. apply f r t >>= λ b. apply_arithmetic f op a b
  apply f (unary op e) t = apply f e t >>= λ v. apply_unary op v
  apply f (set_of kind ws) [] = err undefined
  apply f (set_of kind ws) ((k, v) ∷ t) = apply_set f kind ws v
  apply f (other op l r) t =
      apply f l t >>= λ v. apply f r ((([], []), v) ∷ []) >>= λ w. finish_other op w
  apply f (call g ps) t = apply_all f ps t >>= λ vs. apply_function f g vs

  pub apply_all : Floats → Parameters → JoinedTuple → Result (List SqlTypes)
  apply_all f no_more t = ok []
  apply_all f (param e ps) t = apply f e t >>= λ v. apply_all f ps t >>= λ vs. ok (v ∷ vs)

-- The constructor of `SetExpression`.
abbrev pub all_same : List SqlTypes → Bool
all_same [] = true
all_same (v ∷ vs) = same_index v vs && all_same vs

unfoldable pub make_set : SetTypes → List SqlTypes → Result Expression
make_set SetTypes.list vs = do
  guard (all_same vs) (errors (codes "Type of operand invalid"))
  ok (set_of SetTypes.list vs)
make_set SetTypes.range vs = do
  guard (all_same vs) (errors (codes "Type of operand invalid"))
  guard (length vs == 2) (errors (codes "Number operand over"))
  ok (set_of SetTypes.range vs)

-- `WhereExpression`
abbrev pub empty_where : Expression
empty_where = value (sql_bool true)

abbrev pub add_and_expression : Expression → Expression → Expression
add_and_expression w e = binary BinaryOperator.logic_and w e

abbrev pub add_or_expression : Expression → Expression → Expression
add_or_expression w e = binary BinaryOperator.logic_or w e

abbrev pub as_bool : SqlTypes → Result Bool
as_bool (sql_bool b) = ok b
as_bool _ = err (errors (codes "Type of operand invalid"))

unfoldable pub apply_where : Floats → Expression → JoinedTuple → Result Bool
unfolding apply
apply_where f w t = apply f w t >>= as_bool
