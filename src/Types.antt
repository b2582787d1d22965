-- ===== src/Types.antt =====
-- core/util/types.h and b_plus_key.h: the values of a tuple, the keys of the B+ tree, tuples.
-- A `double` is its 64-bit pattern; what C++ computes with doubles is a parameter (`Floats`).
pub mod Key
pub mod Order
pub mod Tuples
pub mod Size
use csql.Base.{ℕ, Bool, List, Str, Option}
use csql.Base.Int.{ℤ}

pub data DataTypes : Type 0 where
  null_type int_type varchar_type bool_type datetime_type float_type b_plus_key : DataTypes

pub data KeyElementType : Type 0 where
  int_type float_type varchar_type : KeyElementType

-- `KeyElement`, a variant, and `PairKeyElement`.
pub data KeyElement : Type 0 where
  int_element : ℤ → KeyElement
  float_element : ℕ → KeyElement
  varchar_element : Str → KeyElement

pub record PairKeyElement : Type 0 where
  pub first : KeyElementType
  pub second : KeyElement

abbrev pub BPlusKey : Type 0
BPlusKey = List PairKeyElement

-- `SqlTypes`, a variant.
pub data SqlTypes : Type 0 where
  sql_null : SqlTypes
  sql_int : ℤ → SqlTypes
  sql_varchar : Str → SqlTypes
  sql_bool : Bool → SqlTypes
  sql_datetime : ℕ → SqlTypes
  sql_float : ℕ → SqlTypes
  sql_key : BPlusKey → SqlTypes

-- What the program uses of `double`: comparisons, arithmetic, conversion, text.
pub record Floats : Type 0 where
  pub float_lt : ℕ → ℕ → Bool
  pub float_eq : ℕ → ℕ → Bool
  pub float_add : ℕ → ℕ → ℕ
  pub float_sub : ℕ → ℕ → ℕ
  pub float_mul : ℕ → ℕ → ℕ
  pub float_div : ℕ → ℕ → ℕ
  pub of_int : ℤ → ℕ
  pub float_to_string : ℕ → Str
  -- `stof` widened to a double; `none` is an exception.
  pub stof : Str → Option ℕ
