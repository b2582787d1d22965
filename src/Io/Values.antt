-- ===== src/Io/Values.antt =====
-- The overloads of `IOManager::write` and `IOManager::read`: scalars, strings, vectors, elements of
-- a key, and the values of a tuple by their type.
use csql.Base.{
  ℕ, zero, suc, ◌%◌, ◌^◌, Bool, true, false, List, [], ◌∷◌, ◌==◌, if◌then◌else◌, length, take, Str,
}
use csql.Base.Int.{ℤ}
use csql.Base.Result.{Result, ok, err, undefined, bad_variant, ◌>>=◌}
use csql.Types.{
  DataTypes, KeyElementType, KeyElement, int_element, float_element, varchar_element,
  PairKeyElement, SqlTypes, sql_null, sql_int, sql_varchar, sql_bool, sql_datetime, sql_float,
  sql_key,
}
use csql.Io.Bytes.{le_bytes, of_le, to_u64, of_u64}
use csql.Io.Cursor.{IoManager, put, get}

-- A value of `w` bytes: `uint32_t`, `uint64_t`, `size_t`, and `double` by its pattern.
unfoldable pub write_uint : ℕ → ℕ → IoManager → Result IoManager
write_uint w n io = put (le_bytes w n) io

unfoldable pub read_uint : ℕ → IoManager → Result (ℕ × IoManager)
read_uint w io = do (bs, io') ← get w io; ok (of_le bs, io')

unfoldable pub write_int64 : ℤ → IoManager → Result IoManager
write_int64 z io = put (le_bytes 8 (to_u64 z)) io

unfoldable pub read_int64 : IoManager → Result (ℤ × IoManager)
read_int64 io = do (bs, io') ← get 8 io; ok (of_u64 (of_le bs), io')

abbrev pub bool_byte : Bool → ℕ
bool_byte true = 1
bool_byte false = 0

unfoldable pub write_bool : Bool → IoManager → Result IoManager
write_bool b io = put (bool_byte b ∷ []) io

-- A byte that is neither 0 nor 1 is no `bool`.
abbrev pub bool_of : List ℕ → Result Bool
bool_of [] = err undefined
bool_of (b ∷ bs) = if b == 0 then ok false else if b == 1 then ok true else err undefined

unfoldable pub read_bool : IoManager → Result (Bool × IoManager)
read_bool io = do (bs, io') ← get 1 io; b ← bool_of bs; ok (b, io')

-- The enumerators of `DataTypes` are characters, held in an `int`.
abbrev pub type_code : DataTypes → ℕ
type_code DataTypes.null_type = b'N'
type_code DataTypes.int_type = b'I'
type_code DataTypes.varchar_type = b'V'
type_code DataTypes.bool_type = b'B'
type_code DataTypes.datetime_type = b'D'
type_code DataTypes.float_type = b'F'
type_code DataTypes.b_plus_key = b'K'

-- A number that names no enumerator is left out of the model.
abbrev pub type_of_code : ℕ → Result DataTypes
type_of_code c =
    if c == b'N'
    then ok DataTypes.null_type
    else if c == b'I'
    then ok DataTypes.int_type
    else if c == b'V'
    then ok DataTypes.varchar_type
    else if c == b'B'
    then ok DataTypes.bool_type
    else if c == b'D'
    then ok DataTypes.datetime_type
    else if c == b'F'
    then ok DataTypes.float_type
    else if c == b'K'
    then ok DataTypes.b_plus_key
    else err undefined

unfoldable pub write_type : DataTypes → IoManager → Result IoManager
unfolding write_uint
write_type t io = write_uint 4 (type_code t) io

unfoldable pub read_type : IoManager → Result (DataTypes × IoManager)
unfolding read_uint
read_type io = do (c, io') ← read_uint 4 io; t ← type_of_code c; ok (t, io')

abbrev pub element_code : KeyElementType → ℕ
element_code KeyElementType.int_type = b'I'
element_code KeyElementType.float_type = b'F'
element_code KeyElementType.varchar_type = b'V'

abbrev pub element_of_code : ℕ → Result KeyElementType
element_of_code c =
    if c == b'I'
    then ok KeyElementType.int_type
    else if c == b'F'
    then ok KeyElementType.float_type
    else if c == b'V'
    then ok KeyElementType.varchar_type
    else err undefined

-- A string: its length as `uint32_t`, then its bytes.
unfoldable pub write_string : Str → IoManager → Result IoManager
unfolding write_uint
write_string s io = do let n = length s % 2 ^ 32; io1 ← write_uint 4 n io; put (take n s) io1

unfoldable pub read_string : IoManager → Result (Str × IoManager)
unfolding read_uint
read_string io = do (n, io1) ← read_uint 4 io; get n io1

-- `std::get` on a `KeyElement`.
abbrev pub get_int_element : KeyElement → Result ℤ
get_int_element (int_element z) = ok z
get_int_element _ = err bad_variant

abbrev pub get_float_element : KeyElement → Result ℕ
get_float_element (float_element x) = ok x
get_float_element _ = err bad_variant

abbrev pub get_varchar_element : KeyElement → Result Str
get_varchar_element (varchar_element s) = ok s
get_varchar_element _ = err bad_variant

-- The value of an element, by its tag.
unfoldable pub write_element_value : KeyElementType → KeyElement → IoManager → Result IoManager
unfolding write_int64 write_uint write_string
write_element_value KeyElementType.int_type e io = do z ← get_int_element e; write_int64 z io
write_element_value KeyElementType.float_type e io = do x ← get_float_element e; write_uint 8 x io
write_element_value KeyElementType.varchar_type e io = do
  s ← get_varchar_element e
  write_string s io

unfoldable pub write_element : PairKeyElement → IoManager → Result IoManager
unfolding write_uint write_element_value
write_element p io = do
  io1 ← write_uint 4 (element_code p.first) io
  write_element_value p.first p.second io1

unfoldable pub read_element_value : KeyElementType → IoManager → Result (KeyElement × IoManager)
unfolding read_int64 read_uint read_string
read_element_value KeyElementType.int_type io = do (z, io') ← read_int64 io; ok (int_element z, io')
read_element_value KeyElementType.float_type io = do
  (x, io') ← read_uint 8 io
  ok (float_element x, io')
read_element_value KeyElementType.varchar_type io = do
  (s, io') ← read_string io
  ok (varchar_element s, io')

unfoldable pub read_element : IoManager → Result (PairKeyElement × IoManager)
unfolding read_uint read_element_value
read_element io = do
  (c, io1) ← read_uint 4 io
  t ← element_of_code c
  (e, io2) ← read_element_value t io1
  ok (record { first = t; second = e }, io2)

-- A loop that writes, and one that reads `n` items.
unfoldable pub write_all {ℓ} :
    {A : Type ℓ} → (A → IoManager → Result IoManager) → List A → IoManager → Result IoManager
write_all write [] io = ok io
write_all write (a ∷ items) io = do io1 ← write a io; write_all write items io1

unfoldable pub read_all {ℓ} :
    {A : Type ℓ}
    → (IoManager → Result (A × IoManager))
    → ℕ
    → IoManager
    → Result (List A × IoManager)
read_all read zero io = ok ([], io)
read_all read (suc n) io = do
  (a, io1) ← read io
  (items, io2) ← read_all read n io1
  ok (a ∷ items, io2)

-- `write(const std::vector<T> &)` and `read(std::vector<T> &)`, and the same loops for a key.
unfoldable pub write_vector {ℓ} :
    {A : Type ℓ} → (A → IoManager → Result IoManager) → List A → IoManager → Result IoManager
unfolding write_uint write_all
write_vector write items io = do io1 ← write_uint 8 (length items) io; write_all write items io1

unfoldable pub read_vector {ℓ} :
    {A : Type ℓ} → (IoManager → Result (A × IoManager)) → IoManager → Result (List A × IoManager)
unfolding read_uint read_all
read_vector read io = do (n, io1) ← read_uint 8 io; read_all read n io1

-- `write(SqlTypes, DataTypes)`: the tag chooses, and the value must hold that alternative.
unfoldable pub write_sql : SqlTypes → DataTypes → IoManager → Result IoManager
unfolding write_int64 write_bool write_uint write_string write_vector write_element
write_sql (sql_int z) DataTypes.int_type io = write_int64 z io
write_sql v DataTypes.int_type io = err bad_variant
write_sql (sql_bool b) DataTypes.bool_type io = write_bool b io
write_sql v DataTypes.bool_type io = err bad_variant
write_sql (sql_datetime d) DataTypes.datetime_type io = write_uint 8 d io
write_sql v DataTypes.datetime_type io = err bad_variant
write_sql (sql_float x) DataTypes.float_type io = write_uint 8 x io
write_sql v DataTypes.float_type io = err bad_variant
write_sql (sql_varchar s) DataTypes.varchar_type io = write_string s io
write_sql v DataTypes.varchar_type io = err bad_variant
write_sql (sql_key k) DataTypes.b_plus_key io = write_vector write_element k io
write_sql v DataTypes.b_plus_key io = err bad_variant
write_sql v DataTypes.null_type io = ok io

-- `read(SqlTypes &, DataTypes)`: `default` leaves the value as it was, a null.
unfoldable pub read_sql : DataTypes → IoManager → Result (SqlTypes × IoManager)
unfolding read_int64 read_bool read_uint read_string read_vector read_element
read_sql DataTypes.int_type io = do (z, io') ← read_int64 io; ok (sql_int z, io')
read_sql DataTypes.bool_type io = do (b, io') ← read_bool io; ok (sql_bool b, io')
read_sql DataTypes.datetime_type io = do (d, io') ← read_uint 8 io; ok (sql_datetime d, io')
read_sql DataTypes.float_type io = do (x, io') ← read_uint 8 io; ok (sql_float x, io')
read_sql DataTypes.varchar_type io = do (s, io') ← read_string io; ok (sql_varchar s, io')
read_sql DataTypes.b_plus_key io = do (k, io') ← read_vector read_element io; ok (sql_key k, io')
read_sql DataTypes.null_type io = ok (sql_null, io)
