-- ===== src/Operators.antt =====
-- The operators of core/storage/expression on values, with the comparison and the pattern match of
-- core/util/helpers.cpp. A signed overflow, and what else C++ leaves undefined, is the failure
-- `undefined`.
use csql.Base.{
  ℕ, Bool, true, false, not, ◌&&◌, ◌||◌, Option, none, some, List, [], ◌∷◌, ltb, ◌==◌,
  if◌then◌else◌, get_elem?, Str, codes, str_eq,
}
use csql.Base.Assoc.{lookup, pair_eq, str_eq_instance}
use csql.Base.Int.{ℤ, pos, ltb_ℤ, eqb_ℤ, ◌+ℤ◌, ◌-ℤ◌, ◌*ℤ◌, quot_ℤ, rem_ℤ, fits_int64}
use csql.Base.Result.{Result, ok, err, errors, undefined, bad_variant, ◌>>=◌, ◌>>◌, guard, or_fail}
use csql.Types.{
  SqlTypes, sql_null, sql_int, sql_varchar, sql_bool, sql_datetime, sql_float, sql_key, Floats,
}
use csql.Types.Key.{key_eq, key_lt}

pub data SqlTypeCompareResult : Type 0 where
  cant_compare less_than equal greater not_equal : SqlTypeCompareResult

-- `compareSqlType` on one alternative, by the answers of `==` and `<`.
abbrev pub by_order : Bool → Bool → SqlTypeCompareResult
by_order true lt = SqlTypeCompareResult.equal
by_order false true = SqlTypeCompareResult.less_than
by_order false false = SqlTypeCompareResult.greater

abbrev pub key_by_order : Bool → Result Bool → Result SqlTypeCompareResult
key_by_order true lt = ok SqlTypeCompareResult.equal
key_by_order false lt = lt >>= λ b. ok (by_order false b)

unfoldable pub compare_sql_type : Floats → SqlTypes → SqlTypes → Result SqlTypeCompareResult
compare_sql_type f (sql_int a) (sql_int b) = ok (by_order (eqb_ℤ a b) (ltb_ℤ a b))
compare_sql_type f (sql_varchar s) (sql_varchar t) =
    ok (if str_eq s t then SqlTypeCompareResult.equal else SqlTypeCompareResult.not_equal)
compare_sql_type f (sql_datetime a) (sql_datetime b) = ok (by_order (a == b) (ltb a b))
compare_sql_type f (sql_float x) (sql_float y) = ok (by_order (f.float_eq x y) (f.float_lt x y))
compare_sql_type f (sql_key k) (sql_key l) = key_eq f k l >>= λ e. key_by_order e (key_lt f k l)
compare_sql_type f _ _ = ok SqlTypeCompareResult.cant_compare

-- `while (p < str.size() && str[p] != c) ++p; p++`: what is left of the string after the match.
unfoldable pub seek : ℕ → Str → Option Str
seek c [] = none
seek c (d ∷ ds) = let rest = seek c ds in if d == c then some ds else rest

abbrev pub step : ℕ → Str → Option Str
step c [] = none
step c (d ∷ ds) = if d == c then some ds else none

-- The loop of `likeMatch` over the pattern: `free` says that the pattern begins here or that `%`
-- stands before; the string is what is left from `p` on.
unfoldable pub like_loop : Bool → Str → Str → Bool
unfolding seek
like_loop free [] s = true
like_loop free (c ∷ cs) s = elim (c == 37) [
  | true ↦ like_loop true cs s
  | false ↦ elim (if free then seek c s else step c s) [
    | none ↦ false
    | some rest ↦ like_loop false cs rest
  ]
]

unfoldable pub like_match : SqlTypes → SqlTypes → Result Bool
unfolding like_loop
like_match (sql_varchar str) (sql_varchar pattern_of) = ok (like_loop true pattern_of str)
like_match _ _ = err (errors (codes "Type of operand invalid"))

abbrev pub JoinedTuple : Type 0
JoinedTuple = List ((Str × Str) × SqlTypes)

pub data BinaryOperator : Type 0 where
  equal not_equal less_than less_than_or_equal greater greater_or_equal logic_or logic_and like
        not_like :
      BinaryOperator

pub data ArithmeticOperator : Type 0 where
  addition subtraction multiplication division modulus : ArithmeticOperator

pub data UnaryOperator : Type 0 where
  is_not is_null is_not_null : UnaryOperator

pub data OtherOperator : Type 0 where
  between not_between in_set not_in : OtherOperator

pub data SetTypes : Type 0 where
  range list : SetTypes

-- `std::get<SqlBoolType>`
abbrev pub get_bool : SqlTypes → Result Bool
get_bool (sql_bool b) = ok b
get_bool _ = err bad_variant

abbrev pub index : SqlTypes → ℕ
index sql_null = 0
index (sql_int z) = 1
index (sql_varchar s) = 2
index (sql_bool b) = 3
index (sql_datetime d) = 4
index (sql_float x) = 5
index (sql_key k) = 6

-- The two logical operators.
abbrev pub logic : (Bool → Bool → Bool) → SqlTypes → SqlTypes → Result SqlTypes
logic g (sql_bool a) (sql_bool b) = ok (sql_bool (g a b))
logic g _ _ = err (errors (codes "Type of operand invalid"))

abbrev pub is_equal : SqlTypeCompareResult → Bool
is_equal SqlTypeCompareResult.equal = true
is_equal _ = false

abbrev pub is_less : SqlTypeCompareResult → Bool
is_less SqlTypeCompareResult.less_than = true
is_less _ = false

abbrev pub is_greater : SqlTypeCompareResult → Bool
is_greater SqlTypeCompareResult.greater = true
is_greater _ = false

-- A comparison, by what it asks of the result.
abbrev pub compared : (SqlTypeCompareResult → Bool) → SqlTypeCompareResult → Result SqlTypes
compared g SqlTypeCompareResult.cant_compare = err (errors (codes "Can't execute expression"))
compared g r = ok (sql_bool (g r))

-- `BinaryExpression::apply` after its operands.
unfoldable pub apply_binary : Floats → BinaryOperator → SqlTypes → SqlTypes → Result SqlTypes
unfolding compare_sql_type like_match
apply_binary f BinaryOperator.logic_or a b = logic ◌||◌ a b
apply_binary f BinaryOperator.logic_and a b = logic ◌&&◌ a b
apply_binary f BinaryOperator.like a b = like_match a b >>= λ m. ok (sql_bool m)
apply_binary f BinaryOperator.not_like a b = like_match a b >>= λ m. ok (sql_bool (not m))
apply_binary f BinaryOperator.equal a b = compare_sql_type f a b >>= compared is_equal
apply_binary f BinaryOperator.not_equal a b =
    compare_sql_type f a b >>= compared (λ r. not (is_equal r))
apply_binary f BinaryOperator.greater a b = compare_sql_type f a b >>= compared is_greater
apply_binary f BinaryOperator.greater_or_equal a b =
    compare_sql_type f a b >>= compared (λ r. not (is_less r))
apply_binary f BinaryOperator.less_than a b = compare_sql_type f a b >>= compared is_less
apply_binary f BinaryOperator.less_than_or_equal a b =
    compare_sql_type f a b >>= compared (λ r. not (is_greater r))

-- An `int64_t` result.
abbrev pub in_range : ℤ → Result SqlTypes
in_range z = if fits_int64 z then ok (sql_int z) else err undefined

unfoldable pub int_arithmetic : ArithmeticOperator → ℤ → ℤ → Result SqlTypes
int_arithmetic ArithmeticOperator.addition a b = in_range (a +ℤ b)
int_arithmetic ArithmeticOperator.subtraction a b = in_range (a -ℤ b)
int_arithmetic ArithmeticOperator.multiplication a b = in_range (a *ℤ b)
int_arithmetic ArithmeticOperator.division a b = in_range (quot_ℤ a b)
int_arithmetic ArithmeticOperator.modulus a b =
    in_range (quot_ℤ a b) >>= λ q. ok (sql_int (rem_ℤ a b))

unfoldable pub float_arithmetic : Floats → ArithmeticOperator → ℕ → ℕ → Result SqlTypes
float_arithmetic f ArithmeticOperator.modulus x y = err (errors (codes "Can't mod float number"))
float_arithmetic f op x y =
    if f.float_eq y (f.of_int (pos 0))
    then err (errors (codes "Can't devide zero"))
    else ok (
        sql_float (elim op [
          | ArithmeticOperator.addition ↦ f.float_add x y
          | ArithmeticOperator.subtraction ↦ f.float_sub x y
          | ArithmeticOperator.multiplication ↦ f.float_mul x y
          | _ ↦ f.float_div x y
        ]))

-- `ArithmeticExpression::apply` after its operands.
unfoldable pub apply_arithmetic :
    Floats → ArithmeticOperator → SqlTypes → SqlTypes → Result SqlTypes
unfolding int_arithmetic float_arithmetic
apply_arithmetic f op (sql_int a) (sql_int b) =
    if eqb_ℤ b (pos 0) then err (errors (codes "Can't devide zero")) else int_arithmetic op a b
apply_arithmetic f op (sql_float x) (sql_float y) = float_arithmetic f op x y
apply_arithmetic f op (sql_int a) (sql_float y) = float_arithmetic f op (f.of_int a) y
apply_arithmetic f op (sql_float x) (sql_int b) = float_arithmetic f op x (f.of_int b)
apply_arithmetic f op _ _ = err (errors (codes "Can't mod float number"))

unfoldable pub apply_unary : UnaryOperator → SqlTypes → Result SqlTypes
apply_unary UnaryOperator.is_not v = get_bool v >>= λ b. ok (sql_bool (not b))
apply_unary _ v = err (errors (codes "Invalid unary operator"))

-- The elements of a tuple whose attribute has the name, whatever the entity.
unfoldable pub named : Str → JoinedTuple → List SqlTypes
named name [] = []
named name (((entity, attr), v) ∷ t) =
    let rest = named name t in if str_eq attr name then v ∷ rest else rest

-- `AttributeExpression::apply`
unfoldable pub apply_attribute : Str → Str → JoinedTuple → Result SqlTypes
unfolding named lookup
apply_attribute [] name t = elim (named name t) [
  | [] ↦ err (errors (codes "Attribute not found"))
  | v ∷ [] ↦ ok v
  | v ∷ w ∷ vs ↦ err (errors (codes "Ambiguous attribute"))
]
apply_attribute entity name t =
    or_fail (lookup (entity, name) t) (errors (codes "Attribute not found"))

-- The loop of `SetExpression::apply` over a list.
unfoldable pub any_equal : Floats → SqlTypes → List SqlTypes → Result Bool
unfolding compare_sql_type
any_equal f v [] = ok false
any_equal f v (w ∷ ws) =
    let rest = any_equal f v ws in
    compare_sql_type f v w >>= λ r. if is_equal r then ok true else rest

abbrev pub same_index : SqlTypes → List SqlTypes → Bool
same_index v [] = true
same_index v (w ∷ ws) = index v == index w

-- `SetExpression::apply` on the value that stands first in the tuple.
unfoldable pub apply_set : Floats → SetTypes → List SqlTypes → SqlTypes → Result SqlTypes
unfolding any_equal
apply_set f kind ws v =
    guard (same_index v ws) (errors (codes "Type of operand invalid")) >> elim kind [
      | SetTypes.list ↦ any_equal f v ws >>= λ b. ok (sql_bool b)
      | SetTypes.range ↦ do
        low ← or_fail (get_elem? ws 0) undefined
        high ← or_fail (get_elem? ws 1) undefined
        r ← compare_sql_type f low v
        let below : Result SqlTypes =
            compare_sql_type f v high >>= λ s. ok (sql_bool (not (is_greater s)))
        if is_greater r then ok (sql_bool false) else below
    ]

-- `OtherExpression::apply` after the set has been applied.
abbrev pub finish_other : OtherOperator → SqlTypes → Result SqlTypes
finish_other OtherOperator.in_set r = ok r
finish_other OtherOperator.not_in r = ok r
finish_other _ r = get_bool r >>= λ b. ok (sql_bool (not b))
