-- ===== src/Types/Size.antt =====
-- The sizes that the program reckons with: `BPlusKey::getRawSize` and `SqlTypeHandle::sizeOfSqlType`
-- and `sizeOfTuple` of core/util/helpers.cpp, in `uint32_t`.
use csql.Base.{ℕ, ◌+◌, ◌%◌, ◌^◌, ◌≡◌, [], ◌∷◌, length}
use csql.Types.{
  KeyElementType, KeyElement, int_element, float_element, varchar_element, PairKeyElement, BPlusKey,
  SqlTypes, sql_null, sql_int, sql_varchar, sql_bool, sql_datetime, sql_float, sql_key,
}
use csql.Types.Tuples.{Tuple}
use csql.Base.Result.{Result, ok, err, bad_variant, ◌>>=◌}

abbrev pub u32 : ℕ → ℕ
u32 n = n % 2 ^ 32

-- What the `switch` of `getRawSize` adds for an element.
unfoldable pub element_size : KeyElementType → KeyElement → Result ℕ
element_size KeyElementType.int_type e = ok 8
element_size KeyElementType.float_type e = ok 8
element_size KeyElementType.varchar_type (varchar_element s) = ok (4 + length s)
element_size KeyElementType.varchar_type e = err bad_variant

unfoldable pub raw_size_from : ℕ → BPlusKey → Result ℕ
unfolding element_size
raw_size_from result [] = ok result
raw_size_from result (p ∷ k) = do
  n ← element_size p.first p.second
  raw_size_from (u32 (u32 (result + 4) + n)) k

unfoldable pub raw_size : BPlusKey → Result ℕ
unfolding raw_size_from
raw_size k = raw_size_from 8 k

unfoldable pub size_of_sql_type : SqlTypes → Result ℕ
unfolding raw_size
size_of_sql_type (sql_bool b) = ok 1
size_of_sql_type (sql_datetime d) = ok 8
size_of_sql_type (sql_int z) = ok 8
size_of_sql_type (sql_float x) = ok 8
size_of_sql_type (sql_varchar s) = ok (u32 (4 + length s))
size_of_sql_type (sql_key k) = raw_size k
size_of_sql_type sql_null = ok 0

unfoldable pub size_of_tuple_from : ℕ → Tuple → Result ℕ
unfolding size_of_sql_type
size_of_tuple_from result [] = ok result
size_of_tuple_from result ((name, v) ∷ t) = do
  n ← size_of_sql_type v
  size_of_tuple_from (u32 (u32 (u32 (result + 4) + length name) + n)) t

unfoldable pub size_of_tuple : Tuple → Result ℕ
unfolding size_of_tuple_from
size_of_tuple t = size_of_tuple_from 0 t

-- The sizes without the wrap.
abbrev pub element_value_bytes : KeyElement → ℕ
element_value_bytes (int_element z) = 8
element_value_bytes (float_element x) = 8
element_value_bytes (varchar_element s) = 4 + length s

abbrev pub element_bytes : PairKeyElement → ℕ
element_bytes p = 4 + element_value_bytes p.second

abbrev pub key_bytes : BPlusKey → ℕ
key_bytes [] = 0
key_bytes (p ∷ k) = element_bytes p + key_bytes k

abbrev pub value_bytes : SqlTypes → ℕ
value_bytes (sql_bool b) = 1
value_bytes (sql_datetime d) = 8
value_bytes (sql_int z) = 8
value_bytes (sql_float x) = 8
value_bytes (sql_varchar s) = 4 + length s
value_bytes (sql_key k) = 8 + key_bytes k
value_bytes sql_null = 0

abbrev pub tuple_bytes : Tuple → ℕ
tuple_bytes [] = 0
tuple_bytes ((name, v) ∷ t) = (4 + length name + value_bytes v) + tuple_bytes t

abbrev pub tag_of : KeyElement → KeyElementType
tag_of (int_element z) = KeyElementType.int_type
tag_of (float_element x) = KeyElementType.float_type
tag_of (varchar_element s) = KeyElementType.varchar_type

-- The tag of an element is that of its value.
abbrev pub IsTagged : PairKeyElement → Type 0
IsTagged p = p.first ≡ tag_of p.second
