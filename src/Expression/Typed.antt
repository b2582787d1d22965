-- ===== src/Expression/Typed.antt =====
-- Which expressions of core/storage/expression fit the rows that they are evaluated on.
use csql.Base.{
  ℕ, ◌≡◌, ◌⊎◌, Bool, true, false, ◌||◌, Option, none, some, List, [], ◌∷◌, length, Str, codes,
}
use csql.Base.Int.{ℤ}
use csql.Base.Result.{Result, ok, err, Failure, errors, undefined}
use csql.Types.{SqlTypes, sql_int, sql_varchar, sql_bool, sql_datetime, sql_float}
use csql.Operators.{
  ArithmeticOperator, BinaryOperator, JoinedTuple, OtherOperator, SetTypes, UnaryOperator,
}
use csql.Expression.{Expression, attribute, value, binary, arithmetic, unary, set_of, other, call}

-- The kinds of values that columns have.
pub data Kind : Type 0 where
  int_kind float_kind varchar_kind datetime_kind bool_kind : Kind

pub data IsOf : Kind → SqlTypes → Type 0 where
  int_is : (z : ℤ) → IsOf int_kind (sql_int z)
  float_is : (x : ℕ) → IsOf float_kind (sql_float x)
  varchar_is : (s : Str) → IsOf varchar_kind (sql_varchar s)
  datetime_is : (d : ℕ) → IsOf datetime_kind (sql_datetime d)
  bool_is : (b : Bool) → IsOf bool_kind (sql_bool b)

-- All kinds but the Booleans can be compared.
abbrev pub IsOrdered : Kind → Type 0
IsOrdered bool_kind = ⊥
IsOrdered _ = Unit

abbrev pub IsComparison : BinaryOperator → Type 0
IsComparison BinaryOperator.logic_or = ⊥
IsComparison BinaryOperator.logic_and = ⊥
IsComparison BinaryOperator.like = ⊥
IsComparison BinaryOperator.not_like = ⊥
IsComparison _ = Unit

abbrev pub IsLogic : BinaryOperator → Type 0
IsLogic BinaryOperator.logic_or = Unit
IsLogic BinaryOperator.logic_and = Unit
IsLogic _ = ⊥

abbrev pub IsPattern : BinaryOperator → Type 0
IsPattern BinaryOperator.like = Unit
IsPattern BinaryOperator.not_like = Unit
IsPattern _ = ⊥

-- What arithmetic makes of two numbers.
abbrev pub number_kind : Kind → Kind → Option Kind
number_kind int_kind int_kind = some int_kind
number_kind int_kind float_kind = some float_kind
number_kind float_kind int_kind = some float_kind
number_kind float_kind float_kind = some float_kind
number_kind _ _ = none

abbrev pub AllOf : Kind → List SqlTypes → Type 0
AllOf k [] = Unit
AllOf k (w ∷ ws) = IsOf k w × AllOf k ws

-- The values of IN, and the two ends of BETWEEN.
abbrev pub IsTest : SetTypes → List SqlTypes → Type 0
IsTest SetTypes.list ws = Unit
IsTest SetTypes.range ws = length ws ≡ 2

-- The kinds of the columns.
abbrev pub Schema : Type 0
Schema = Str → Str → Option Kind

pub data HasType (columns : Schema) : Expression → Kind → Type 0 where
  attribute_typed :
      (entity name : Str) (k : Kind)
      → columns entity name ≡ some k
      → HasType columns (attribute entity name) k
  value_typed : (v : SqlTypes) (k : Kind) → IsOf k v → HasType columns (value v) k
  compared_typed :
      (op : BinaryOperator) (k : Kind) (l r : Expression)
      → IsComparison op
      → IsOrdered k
      → HasType columns l k
      → HasType columns r k
      → HasType columns (binary op l r) bool_kind
  logic_typed :
      (op : BinaryOperator) (l r : Expression)
      → IsLogic op
      → HasType columns l bool_kind
      → HasType columns r bool_kind
      → HasType columns (binary op l r) bool_kind
  like_typed :
      (op : BinaryOperator) (l r : Expression)
      → IsPattern op
      → HasType columns l varchar_kind
      → HasType columns r varchar_kind
      → HasType columns (binary op l r) bool_kind
  arithmetic_typed :
      (op : ArithmeticOperator) (k m n : Kind) (l r : Expression)
      → number_kind k m ≡ some n
      → HasType columns l k
      → HasType columns r m
      → HasType columns (arithmetic op l r) n
  not_typed :
      (e : Expression)
      → HasType columns e bool_kind
      → HasType columns (unary UnaryOperator.is_not e) bool_kind
  test_typed :
      (op : OtherOperator) (kind : SetTypes) (k : Kind) (l : Expression) (ws : List SqlTypes)
      → IsOrdered k
      → AllOf k ws
      → IsTest kind ws
      → HasType columns l k
      → HasType columns (other op l (set_of kind ws)) bool_kind

-- The key is what the attribute of an expression means: any with the name when it names no entity.
abbrev pub Means : Str → Str → Str × Str → Type 0
Means [] name key = key.1 ≡ name
Means (c ∷ entity) name key = key ≡ (c ∷ entity, name)

abbrev pub Lacks : (Str × Str → Type 0) → JoinedTuple → Type 0
Lacks P [] = Unit
Lacks P ((key, v) ∷ t) = (¬ P key) × Lacks P t

-- One element of the row has a key as asked, and its value is `v`.
pub data IsOnly (P : Str × Str → Type 0) : JoinedTuple → SqlTypes → Type 0 where
  here :
      {key : Str × Str} {t : JoinedTuple} {v : SqlTypes}
      → P key
      → Lacks P t
      → IsOnly P ((key, v) ∷ t) v
  later :
      {key : Str × Str} {t : JoinedTuple} {v w : SqlTypes}
      → ¬ P key
      → IsOnly P t v
      → IsOnly P ((key, w) ∷ t) v

-- A row that has one value for each column, of its kind and no NULL.
abbrev pub Fits : Schema → JoinedTuple → Type 0
Fits columns t =
    (entity name : Str) (k : Kind)
    → columns entity name ≡ some k
    → (v : SqlTypes) × IsOnly (Means entity name) t v × IsOf k v

-- The expression has arithmetic in it, outside the parameters of calls.
abbrev pub calculates : Expression → Bool
calculates (attribute entity name) = false
calculates (value v) = false
calculates (binary op l r) = calculates l || calculates r
calculates (arithmetic op l r) = true
calculates (unary op e) = calculates e
calculates (set_of kind ws) = false
calculates (other op l r) = calculates l || calculates r
calculates (call name parameters) = false

-- What arithmetic on numbers may throw; overflow is undefined.
abbrev pub IsArithmetic : Failure → Type 0
IsArithmetic (errors reason) =
    (reason ≡ codes "Can't devide zero") ⊎ (reason ≡ codes "Can't mod float number")
IsArithmetic undefined = Unit
IsArithmetic _ = ⊥

-- A value of the kind, or, when there is arithmetic, a failure of it.
abbrev pub Safe : Bool → Kind → Result SqlTypes → Type 0
Safe c k (err e) = (c ≡ true) × IsArithmetic e
Safe c k (ok v) = IsOf k v
