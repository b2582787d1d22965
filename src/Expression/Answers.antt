-- ===== src/Expression/Answers.antt =====
-- The operators of core/storage/expression on values of the kinds that they are for.
use csql.Base.{
  ℕ, ◌≡◌, refl, inl, inr, Bool, true, false, not, some, ◌==◌, if◌then◌else◌, codes, str_eq, ltb,
}
use mathlib.Core.Path.{subst}
use csql.Base.Int.{ℤ, pos, eqb_ℤ, ltb_ℤ, fits_int64, quot_ℤ, rem_ℤ, ◌+ℤ◌, ◌-ℤ◌, ◌*ℤ◌}
use csql.Base.Result.{Result, ok, err, errors, undefined, ◌>>=◌}
use csql.Types.{SqlTypes, sql_int, Floats}
use csql.Operators.{
  ArithmeticOperator, BinaryOperator, SqlTypeCompareResult, apply_arithmetic, apply_binary,
  by_order, compare_sql_type, compared, float_arithmetic, in_range, int_arithmetic, is_equal,
  is_greater, is_less, like_match,
}
use csql.Expression.Typed.{
  Kind, int_kind, float_kind, varchar_kind, bool_kind, IsOf, int_is, float_is, varchar_is,
  datetime_is, bool_is, IsOrdered, IsComparison, IsLogic, IsPattern, number_kind, Safe,
}

pub bind-Safe :
    (c : Bool) (k m : Kind) (r : Result SqlTypes) (after : SqlTypes → Result SqlTypes)
    → Safe c k r
    → ((v : SqlTypes) → IsOf k v → Safe c m (after v))
    → Safe c m (r >>= after)
bind-Safe c k m (err e) after safe each = safe
bind-Safe c k m (ok v) after safe each = each v safe

-- A comparison that is answered.
abbrev IsAnswer : SqlTypeCompareResult → Type 0
IsAnswer SqlTypeCompareResult.cant_compare = ⊥
IsAnswer _ = Unit

abbrev pub Answers : Result SqlTypeCompareResult → Type 0
Answers (err e) = ⊥
Answers (ok c) = IsAnswer c

by_order-IsAnswer : (e l : Bool) → IsAnswer (by_order e l)
by_order-IsAnswer true l = tt
by_order-IsAnswer false true = tt
by_order-IsAnswer false false = tt

same_or_not-IsAnswer :
    (b : Bool)
    → Answers (ok (if b then SqlTypeCompareResult.equal else SqlTypeCompareResult.not_equal))
same_or_not-IsAnswer true = tt
same_or_not-IsAnswer false = tt

pub compare_sql_type-Answers :
    (f : Floats) (k : Kind) (a b : SqlTypes)
    → IsOrdered k
    → IsOf k a
    → IsOf k b
    → Answers (compare_sql_type f a b)
unfolding compare_sql_type
compare_sql_type-Answers f k _ _ o (int_is a) (int_is b) = by_order-IsAnswer (eqb_ℤ a b) (ltb_ℤ a b)
compare_sql_type-Answers f k _ _ o (float_is a) (float_is b) =
    by_order-IsAnswer (f.float_eq a b) (f.float_lt a b)
compare_sql_type-Answers f k _ _ o (varchar_is a) (varchar_is b) = same_or_not-IsAnswer (str_eq a b)
compare_sql_type-Answers f k _ _ o (datetime_is a) (datetime_is b) =
    by_order-IsAnswer (a == b) (ltb a b)
compare_sql_type-Answers f k _ _ o (bool_is a) (bool_is b) = absurd o

module _ (c : Bool) where
  compared-Safe :
      (g : SqlTypeCompareResult → Bool) (r : Result SqlTypeCompareResult)
      → Answers r
      → Safe c bool_kind (r >>= compared g)
  compared-Safe g (err e) a = absurd a
  compared-Safe g (ok SqlTypeCompareResult.cant_compare) a = absurd a
  compared-Safe g (ok SqlTypeCompareResult.less_than) a = bool_is _
  compared-Safe g (ok SqlTypeCompareResult.equal) a = bool_is _
  compared-Safe g (ok SqlTypeCompareResult.greater) a = bool_is _
  compared-Safe g (ok SqlTypeCompareResult.not_equal) a = bool_is _

  pub comparison-Safe :
      (f : Floats) (op : BinaryOperator) (a b : SqlTypes)
      → IsComparison op
      → Answers (compare_sql_type f a b)
      → Safe c bool_kind (apply_binary f op a b)
  unfolding apply_binary
  comparison-Safe f BinaryOperator.equal a b p h = compared-Safe is_equal (compare_sql_type f a b) h
  comparison-Safe f BinaryOperator.not_equal a b p h =
      compared-Safe (λ r. not (is_equal r)) (compare_sql_type f a b) h
  comparison-Safe f BinaryOperator.greater a b p h =
      compared-Safe is_greater (compare_sql_type f a b) h
  comparison-Safe f BinaryOperator.greater_or_equal a b p h =
      compared-Safe (λ r. not (is_less r)) (compare_sql_type f a b) h
  comparison-Safe f BinaryOperator.less_than a b p h =
      compared-Safe is_less (compare_sql_type f a b) h
  comparison-Safe f BinaryOperator.less_than_or_equal a b p h =
      compared-Safe (λ r. not (is_greater r)) (compare_sql_type f a b) h
  comparison-Safe f BinaryOperator.logic_or a b p h = absurd p
  comparison-Safe f BinaryOperator.logic_and a b p h = absurd p
  comparison-Safe f BinaryOperator.like a b p h = absurd p
  comparison-Safe f BinaryOperator.not_like a b p h = absurd p

  pub logic-Safe :
      (f : Floats) (op : BinaryOperator) (a b : SqlTypes)
      → IsLogic op
      → IsOf bool_kind a
      → IsOf bool_kind b
      → Safe c bool_kind (apply_binary f op a b)
  unfolding apply_binary
  logic-Safe f BinaryOperator.logic_or _ _ p (bool_is a) (bool_is b) = bool_is _
  logic-Safe f BinaryOperator.logic_and _ _ p (bool_is a) (bool_is b) = bool_is _
  logic-Safe f _ _ _ p (bool_is a) (bool_is b) = absurd p

  pub pattern-Safe :
      (f : Floats) (op : BinaryOperator) (a b : SqlTypes)
      → IsPattern op
      → IsOf varchar_kind a
      → IsOf varchar_kind b
      → Safe c bool_kind (apply_binary f op a b)
  unfolding apply_binary like_match
  pattern-Safe f BinaryOperator.like _ _ p (varchar_is a) (varchar_is b) = bool_is _
  pattern-Safe f BinaryOperator.not_like _ _ p (varchar_is a) (varchar_is b) = bool_is _
  pattern-Safe f _ _ _ p (varchar_is a) (varchar_is b) = absurd p

  pub if-Safe :
      (k : Kind) (b : Bool) (x y : Result SqlTypes)
      → Safe c k x
      → Safe c k y
      → Safe c k (if b then x else y)
  if-Safe k true x y px py = px
  if-Safe k false x y px py = py

in_range-Safe : (z : ℤ) → Safe true int_kind (in_range z)
in_range-Safe z =
    if-Safe true int_kind (fits_int64 z) (ok (sql_int z)) (err undefined) (int_is z) (refl, tt)

int_arithmetic-Safe :
    (op : ArithmeticOperator) (a b : ℤ) → Safe true int_kind (int_arithmetic op a b)
unfolding int_arithmetic
int_arithmetic-Safe ArithmeticOperator.addition a b = in_range-Safe (a +ℤ b)
int_arithmetic-Safe ArithmeticOperator.subtraction a b = in_range-Safe (a -ℤ b)
int_arithmetic-Safe ArithmeticOperator.multiplication a b = in_range-Safe (a *ℤ b)
int_arithmetic-Safe ArithmeticOperator.division a b = in_range-Safe (quot_ℤ a b)
int_arithmetic-Safe ArithmeticOperator.modulus a b =
    bind-Safe true int_kind int_kind (in_range (quot_ℤ a b)) _ (in_range-Safe (quot_ℤ a b))
      (λ q i. int_is (rem_ℤ a b))

float_arithmetic-Safe :
    (f : Floats) (op : ArithmeticOperator) (x y : ℕ)
    → Safe true float_kind (float_arithmetic f op x y)
unfolding float_arithmetic
float_arithmetic-Safe f ArithmeticOperator.modulus x y = (refl, inr refl)
float_arithmetic-Safe f op x y =
    if-Safe true float_kind (f.float_eq y (f.of_int (pos 0)))
      (err (errors (codes "Can't devide zero"))) _ (refl, inl refl) (float_is _)

pub apply_arithmetic-Safe :
    (f : Floats) (op : ArithmeticOperator) (k m n : Kind) (a b : SqlTypes)
    → number_kind k m ≡ some n
    → IsOf k a
    → IsOf m b
    → Safe true n (apply_arithmetic f op a b)
unfolding apply_arithmetic
apply_arithmetic-Safe f op k m n _ _ h (int_is a) (int_is b) =
    let e : int_kind ≡ n = cc in
    subst (λ i. Safe true i (apply_arithmetic f op (sql_int a) (sql_int b))) e
      (if-Safe true int_kind (eqb_ℤ b (pos 0)) (err (errors (codes "Can't devide zero"))) _
        (refl, inl refl) (int_arithmetic-Safe op a b))
apply_arithmetic-Safe f op k m n _ _ h (int_is a) (float_is y) =
    let e : float_kind ≡ n = cc in
    subst (λ i. Safe true i (float_arithmetic f op (f.of_int a) y)) e
      (float_arithmetic-Safe f op (f.of_int a) y)
apply_arithmetic-Safe f op k m n _ _ h (float_is x) (int_is b) =
    let e : float_kind ≡ n = cc in
    subst (λ i. Safe true i (float_arithmetic f op x (f.of_int b))) e
      (float_arithmetic-Safe f op x (f.of_int b))
apply_arithmetic-Safe f op k m n _ _ h (float_is x) (float_is y) =
    let e : float_kind ≡ n = cc in
    subst (λ i. Safe true i (float_arithmetic f op x y)) e (float_arithmetic-Safe f op x y)
apply_arithmetic-Safe f op k m n _ _ h i j = absurd cc
