-- ===== src/Convert.antt =====
-- `SqlTypeHandle` of core/util/helpers.cpp: values from texts, texts from values, types, and key
-- elements. `std::to_string`, `stoi` and `stoull` are written out; what `stof` reads is a field of
-- `Floats`.
pub mod Decimal
use csql.Base.{
  ℕ, zero, suc, ◌+◌, ◌-◌, ◌*◌, ◌/◌, ◌%◌, ◌^◌, Bool, true, false, not, ◌&&◌, ◌||◌, Option, none,
  some, List, [], ◌∷◌, ◌++◌, map, ltb, leb, ◌==◌, if◌then◌else◌, length, Str, codes, str_eq,
}
use csql.Base.Int.{ℤ, pos, negsuc}
use csql.Base.Result.{Result, ok, err, errors, out_of_range, or_fail, ◌>>=◌}
use csql.Base.Assoc.{lookup, str_eq_instance}
use csql.Types.{
  DataTypes, SqlTypes, sql_null, sql_int, sql_varchar, sql_bool, sql_datetime, sql_float, sql_key,
  KeyElementType, int_element, float_element, varchar_element, PairKeyElement, BPlusKey, Floats,
}
use csql.Types.Tuples.{Tuple, insert}
use csql.Io.Bytes.{of_u64}
use csql.Entity.{IndexingMetadata}
use csql.Page.{btree_key}

-- The digits of a number, the last one last; one round of fuel for each digit is enough.
unfoldable pub digits : ℕ → ℕ → Str
digits zero n = []
digits (suc fuel) n =
    let rest = digits fuel (n / 10) in
    if ltb n 10 then (48 + n) ∷ [] else rest ++ (48 + n % 10) ∷ []

unfoldable pub to_string : ℕ → Str
unfolding digits
to_string n = digits (suc n) n

unfoldable pub int_to_string : ℤ → Str
unfolding to_string
int_to_string (pos n) = to_string n
int_to_string (negsuc n) = 45 ∷ to_string (suc n)

abbrev pub is_digit : ℕ → Bool
is_digit c = leb 48 c && leb c 57

-- `isspace`: the blank, and the codes 9 to 13.
abbrev pub is_space : ℕ → Bool
is_space c = c == 32 || (leb 9 c && leb c 13)

unfoldable pub skip_spaces : Str → Str
skip_spaces [] = []
skip_spaces (c ∷ cs) = let rest = skip_spaces cs in if is_space c then rest else c ∷ cs

-- The number that the digits at the front spell, after the digits that spell `n`.
unfoldable pub read_digits : ℕ → Str → ℕ
read_digits n [] = n
read_digits n (c ∷ cs) =
    let more = read_digits (n * 10 + (c - 48)) cs in if is_digit c then more else n

-- At least one digit is wanted.
unfoldable pub read_number : Str → Option ℕ
unfolding read_digits
read_number [] = none
read_number (c ∷ cs) = if is_digit c then some (read_digits 0 (c ∷ cs)) else none

-- A sign, if any, and a number: `strtol` and its kin.
unfoldable pub read_signed : Str → Option (Bool × ℕ)
unfolding read_number
read_signed [] = none
read_signed (c ∷ cs) =
    let unsigned : Str → Bool → Option (Bool × ℕ) =
      λ s minus. elim (read_number s) [ none ↦ none | some n ↦ some (minus, n) ] in
    if c == 45
    then unsigned cs true
    else if c == 43
    then unsigned cs false
    else unsigned (c ∷ cs) false

-- `std::stoi`: an `int` of 32 bits, or an exception.
unfoldable pub as_int : Option (Bool × ℕ) → Option ℤ
as_int none = none
as_int (some (false, n)) = if ltb n (2 ^ 31) then some (pos n) else none
as_int (some (true, zero)) = some (pos 0)
as_int (some (true, suc n)) = if ltb n (2 ^ 31) then some (negsuc n) else none

unfoldable pub stoi : Str → Option ℤ
unfolding read_signed skip_spaces as_int
stoi s = as_int (read_signed (skip_spaces s))

-- `std::stoull`: a number of 64 bits, negated in them after a minus.
unfoldable pub stoull : Str → Option ℕ
unfolding read_signed skip_spaces
stoull s = elim (read_signed (skip_spaces s)) [
  | none ↦ none
  | some (minus, n) ↦
      if ltb n (2 ^ 64) then some (if minus then (2 ^ 64 - n) % 2 ^ 64 else n) else none
]

abbrev pub lower_char : ℕ → ℕ
lower_char c = if leb 65 c && leb c 90 then c + 32 else c

unfoldable pub covert_sql_type_to_string : Floats → SqlTypes → Str
unfolding int_to_string
covert_sql_type_to_string f sql_null = codes "NULL"
covert_sql_type_to_string f (sql_bool true) = codes "True"
covert_sql_type_to_string f (sql_bool false) = codes "False"
covert_sql_type_to_string f (sql_datetime d) = to_string d
covert_sql_type_to_string f (sql_int z) = int_to_string z
covert_sql_type_to_string f (sql_float x) = f.float_to_string x
covert_sql_type_to_string f (sql_varchar s) = s
covert_sql_type_to_string f (sql_key k) = []

unfoldable pub covert_sql_value_to_data_types : SqlTypes → Result DataTypes
covert_sql_value_to_data_types sql_null = ok DataTypes.null_type
covert_sql_value_to_data_types (sql_bool b) = ok DataTypes.bool_type
covert_sql_value_to_data_types (sql_datetime d) = ok DataTypes.datetime_type
covert_sql_value_to_data_types (sql_int z) = ok DataTypes.int_type
covert_sql_value_to_data_types (sql_float x) = ok DataTypes.float_type
covert_sql_value_to_data_types (sql_varchar s) = ok DataTypes.varchar_type
covert_sql_value_to_data_types (sql_key k) =
    err (errors (codes "Can't convert unknown type to data type"))

abbrev pub type_names : List (Str × DataTypes)
type_names =
    (codes "bool", DataTypes.bool_type)
    ∷ (codes "date", DataTypes.datetime_type)
    ∷ (codes "int", DataTypes.int_type)
    ∷ (codes "integer", DataTypes.int_type)
    ∷ (codes "float", DataTypes.float_type)
    ∷ (codes "varchar", DataTypes.varchar_type)
    ∷ []

unfoldable pub covert_string_to_data_type : Str → DataTypes
unfolding lookup
covert_string_to_data_type name = elim (lookup (map lower_char name) type_names) [
  | none ↦ DataTypes.null_type
  | some t ↦ t
]

unfoldable pub covert_string_to_sql_type : Floats → DataTypes → Str → Result SqlTypes
unfolding stoi stoull
covert_string_to_sql_type f DataTypes.bool_type s =
    let low = map lower_char s in
    if str_eq low (codes "true")
    then ok (sql_bool true)
    else if str_eq low (codes "false")
    then ok (sql_bool false)
    else err (errors (codes "Invalid value for bool type"))
covert_string_to_sql_type f DataTypes.int_type s =
    or_fail (stoi s) (errors (codes "Invalid value for int type")) >>= λ z. ok (sql_int z)
covert_string_to_sql_type f DataTypes.float_type s =
    or_fail (f.stof s) (errors (codes "Invalid value for float type")) >>= λ x. ok (sql_float x)
covert_string_to_sql_type f DataTypes.datetime_type s =
    or_fail (stoull s) (errors (codes "Invalid value for datetime type")) >>= λ d.
    ok (sql_datetime d)
covert_string_to_sql_type f DataTypes.varchar_type s = ok (sql_varchar s)
covert_string_to_sql_type f _ s = ok sql_null

unfoldable pub covert_data_type_to_string : DataTypes → Str
covert_data_type_to_string DataTypes.bool_type = codes "bool"
covert_data_type_to_string DataTypes.datetime_type = codes "date"
covert_data_type_to_string DataTypes.float_type = codes "float"
covert_data_type_to_string DataTypes.int_type = codes "integer"
covert_data_type_to_string DataTypes.null_type = codes "null"
covert_data_type_to_string DataTypes.varchar_type = codes "varchar"
covert_data_type_to_string DataTypes.b_plus_key = []

unfoldable pub convert_to_pair_key_element : SqlTypes → Result PairKeyElement
convert_to_pair_key_element sql_null =
    err (errors (codes "Can't convert null type to pair key element"))
convert_to_pair_key_element (sql_bool b) =
    err (errors (codes "Can't convert bool type to pair key element"))
convert_to_pair_key_element (sql_datetime d) =
    ok (record { first = KeyElementType.int_type; second = int_element (of_u64 d) })
convert_to_pair_key_element (sql_int z) =
    ok (record { first = KeyElementType.int_type; second = int_element z })
convert_to_pair_key_element (sql_float x) =
    ok (record { first = KeyElementType.float_type; second = float_element x })
convert_to_pair_key_element (sql_varchar s) =
    ok (record { first = KeyElementType.varchar_type; second = varchar_element s })
convert_to_pair_key_element (sql_key k) =
    err (errors (codes "Can't convert unknown type to pair key element"))

-- The loop of `genBNodeKey` over the names of an index.
unfoldable pub key_of_names : Tuple → List Str → Result BPlusKey
unfolding lookup convert_to_pair_key_element
key_of_names t [] = ok []
key_of_names t (name ∷ names) = do
  v ← or_fail (lookup name t) out_of_range
  p ← convert_to_pair_key_element v
  k ← key_of_names t names
  ok (p ∷ k)

unfoldable pub gen_b_node_key : Tuple → IndexingMetadata → Result BPlusKey
unfolding key_of_names
gen_b_node_key t im = key_of_names t im.keys

-- `insert` leaves a key that is there already.
unfoldable pub add_b_node_key : Tuple → IndexingMetadata → Result Tuple
unfolding gen_b_node_key insert
add_b_node_key t im = gen_b_node_key t im >>= λ k. ok (insert btree_key (sql_key k) t)

unfoldable pub make_secondary_tuple : Tuple → IndexingMetadata → Str → Result Tuple
unfolding gen_b_node_key insert lookup
make_secondary_tuple t im primary_key = do
  k ← gen_b_node_key t im
  v ← or_fail (lookup primary_key t) out_of_range
  ok (insert primary_key v (insert btree_key (sql_key k) []))
