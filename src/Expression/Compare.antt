-- ===== src/Expression/Compare.antt =====
-- What the comparisons of core/storage/expression mean on the values they compare.
use csql.Base.{
  ◌≡◌, refl, Bool, true, false, not, ◌&&◌, ◌||◌, Option, none, some, [], ◌∷◌, arith, Str, str_eq,
}
use csql.Base.Int.{ℤ, ltb_ℤ, eqb_ℤ}
use csql.Base.Result.{Result, ok, err, ◌>>=◌}
use csql.Types.{SqlTypes, sql_int, sql_varchar, sql_bool, Floats}
use csql.Operators.{
  SqlTypeCompareResult, BinaryOperator, OtherOperator, SetTypes, JoinedTuple, compared, is_equal,
  is_less, is_greater, get_bool, compare_sql_type, apply_binary, apply_set,
}
use csql.Expression.{Expression, set_of, other, apply}

-- The truth of a comparison of two integers.
abbrev pub int_test : BinaryOperator → ℤ → ℤ → Option Bool
int_test BinaryOperator.equal a b = some (eqb_ℤ a b)
int_test BinaryOperator.not_equal a b = some (not (eqb_ℤ a b))
int_test BinaryOperator.less_than a b = some (ltb_ℤ a b)
int_test BinaryOperator.less_than_or_equal a b = some (not (ltb_ℤ b a))
int_test BinaryOperator.greater a b = some (ltb_ℤ b a)
int_test BinaryOperator.greater_or_equal a b = some (not (ltb_ℤ a b))
int_test _ a b = none

-- A comparison operator gives on two integers the truth of the comparison.
apply_binary-int_test :
    (f : Floats) (op : BinaryOperator) (a b : ℤ) (t : Bool)
    → int_test op a b ≡ some t
    → apply_binary f op (sql_int a) (sql_int b) ≡ ok (sql_bool t)
unfolding apply_binary compare_sql_type
apply_binary-int_test f BinaryOperator.equal a b t h = ground arith
apply_binary-int_test f BinaryOperator.not_equal a b t h = ground arith
apply_binary-int_test f BinaryOperator.less_than a b t h = ground arith
apply_binary-int_test f BinaryOperator.less_than_or_equal a b t h = ground arith
apply_binary-int_test f BinaryOperator.greater a b t h = ground arith
apply_binary-int_test f BinaryOperator.greater_or_equal a b t h = ground arith
apply_binary-int_test f BinaryOperator.logic_or a b t h = cc
apply_binary-int_test f BinaryOperator.logic_and a b t h = cc
apply_binary-int_test f BinaryOperator.like a b t h = cc
apply_binary-int_test f BinaryOperator.not_like a b t h = cc

-- The negation of a Boolean result; failures stay.
abbrev pub negate : Result SqlTypes → Result SqlTypes
negate r = r >>= λ v. get_bool v >>= λ b. ok (sql_bool (not b))

compared-negate :
    (r : Result SqlTypeCompareResult) (g : SqlTypeCompareResult → Bool)
    → (r >>= compared (λ x. not (g x))) ≡ negate (r >>= compared g)
compared-negate (err e) g = refl
compared-negate (ok SqlTypeCompareResult.cant_compare) g = refl
compared-negate (ok SqlTypeCompareResult.less_than) g = refl
compared-negate (ok SqlTypeCompareResult.equal) g = refl
compared-negate (ok SqlTypeCompareResult.greater) g = refl
compared-negate (ok SqlTypeCompareResult.not_equal) g = refl

-- On any two values, `<>`, `>=` and `<=` are the negations of `=`, `<` and `>`, and fail when
-- those do, in the same way.
apply_binary-negate :
    (f : Floats) (a b : SqlTypes)
    → (apply_binary f BinaryOperator.not_equal a b
        ≡ negate (apply_binary f BinaryOperator.equal a b))
      × (apply_binary f BinaryOperator.greater_or_equal a b
          ≡ negate (apply_binary f BinaryOperator.less_than a b))
      × (apply_binary f BinaryOperator.less_than_or_equal a b
          ≡ negate (apply_binary f BinaryOperator.greater a b))
unfolding apply_binary
apply_binary-negate f a b = (
  compared-negate (compare_sql_type f a b) is_equal,
  compared-negate (compare_sql_type f a b) is_less,
  compared-negate (compare_sql_type f a b) is_greater,
)

-- Two different strings are not ordered: `<` and `>` are false of them, `<=` and `>=` are true,
-- in both directions.
apply_binary-varchar :
    (f : Floats) (s t : Str)
    → str_eq s t ≡ false
    → (apply_binary f BinaryOperator.less_than (sql_varchar s) (sql_varchar t)
        ≡ ok (sql_bool false))
      × (apply_binary f BinaryOperator.greater (sql_varchar s) (sql_varchar t)
          ≡ ok (sql_bool false))
      × (apply_binary f BinaryOperator.less_than_or_equal (sql_varchar s) (sql_varchar t)
          ≡ ok (sql_bool true))
      × (apply_binary f BinaryOperator.greater_or_equal (sql_varchar s) (sql_varchar t)
          ≡ ok (sql_bool true))
unfolding apply_binary compare_sql_type
apply_binary-varchar f s t h = rw h (refl, refl, refl, refl)

abbrev is_between : OtherOperator → Bool
is_between OtherOperator.between = true
is_between OtherOperator.not_between = true
is_between _ = false

range-int :
    (f : Floats) (low high x : ℤ)
    → apply_set f SetTypes.range (sql_int low ∷ sql_int high ∷ []) (sql_int x)
      ≡ ok (sql_bool (not (ltb_ℤ x low) && not (ltb_ℤ high x)))
unfolding apply_set compare_sql_type
range-int f low high x = ground arith

-- `BETWEEN` on integers, like `NOT BETWEEN`, is true exactly when the value is outside the range.
pub apply-between :
    (f : Floats) (op : OtherOperator) (e : Expression) (low high x : ℤ) (t : JoinedTuple)
    → is_between op ≡ true
    → apply f e t ≡ ok (sql_int x)
    → apply f (other op e (set_of SetTypes.range (sql_int low ∷ sql_int high ∷ []))) t
      ≡ ok (sql_bool (ltb_ℤ x low || ltb_ℤ high x))
unfolding apply
apply-between f op e low high x t is_op run = rw (run, range-int f low high x) (finish op is_op)
  where
    finish :
        (op : OtherOperator)
        → is_between op ≡ true
        → csql.Operators.finish_other op (sql_bool (not (ltb_ℤ x low) && not (ltb_ℤ high x)))
          ≡ ok (sql_bool (ltb_ℤ x low || ltb_ℤ high x))
    finish OtherOperator.between h = ground arith
    finish OtherOperator.not_between h = ground arith
    finish OtherOperator.in_set h = cc
    finish OtherOperator.not_in h = cc
