-- ===== src/Io/RoundTrip/Sql.antt =====
-- Values of a tuple are read back as they were written, in the number of bytes that
-- `SqlTypeHandle::sizeOfSqlType` of core/util/helpers.cpp reckons for them.
use csql.Base.{ℕ, ◌+◌, ◌^◌, ◌≤◌, ◌<◌, ◌≡◌, refl, ap, ◌∙◌, [], ◌∷◌, arith, length}
use csql.Base.Result.{ok}
use csql.Types.{
  KeyElement, int_element, float_element, varchar_element, PairKeyElement, BPlusKey, SqlTypes,
  sql_null, sql_int, sql_varchar, sql_bool, sql_datetime, sql_float, sql_key,
}
use csql.Types.Size.{
  tag_of, element_value_bytes, element_bytes, key_bytes, value_bytes, u32, element_size,
  raw_size_from, raw_size, size_of_sql_type,
}
use csql.Io.Cursor.{IoManager, seek}
use csql.Io.Values.{write_sql, read_sql}
use csql.Io.Codec.{Carries-round_trip}
use csql.Io.RoundTrip.Compounds.{All, IsElement, IsValue, type_of, sql-Carries}

element_size-bytes :
    (p : PairKeyElement)
    → IsElement p
    → element_size p.first p.second ≡ ok (element_value_bytes p.second)
unfolding element_size
element_size-bytes p h = rw h.0 (tag_size p.second)
  where
    tag_size : (e : KeyElement) → element_size (tag_of e) e ≡ ok (element_value_bytes e)
    tag_size (int_element z) = refl
    tag_size (float_element x) = refl
    tag_size (varchar_element s) = refl

-- `sizeOfSqlType` gives the bytes of a value when they do not wrap.
raw_size_from-key_bytes :
    (result : ℕ) (k : BPlusKey)
    → All IsElement k
    → result + key_bytes k < 2 ^ 32
    → raw_size_from result k ≡ ok (result + key_bytes k)
unfolding raw_size_from
raw_size_from-key_bytes result [] h small = ap (λ n. ok n) (omega arith)
raw_size_from-key_bytes result (p ∷ k) h small =
    let here : element_size p.first p.second ≡ ok (element_value_bytes p.second) =
      element_size-bytes p h.0 in
    let next : u32 (u32 (result + 4) + element_value_bytes p.second) ≡ result + element_bytes p =
      ground arith in
    let all : result + element_bytes p + key_bytes k ≡ result + key_bytes (p ∷ k) = omega arith in
    rw (here, next)
      (raw_size_from-key_bytes (result + element_bytes p) k h.1 (omega (arith, all))
        ∙ ap (λ n. ok n) all)

size_of_sql_type-value_bytes :
    (v : SqlTypes) → IsValue v → value_bytes v < 2 ^ 32 → size_of_sql_type v ≡ ok (value_bytes v)
unfolding size_of_sql_type raw_size
size_of_sql_type-value_bytes sql_null h small = refl
size_of_sql_type-value_bytes (sql_int z) h small = refl
size_of_sql_type-value_bytes (sql_varchar s) h small = ap (λ n. ok n) (ground arith)
size_of_sql_type-value_bytes (sql_bool b) h small = refl
size_of_sql_type-value_bytes (sql_datetime d) h small = refl
size_of_sql_type-value_bytes (sql_float x) h small = refl
size_of_sql_type-value_bytes (sql_key k) h small = raw_size_from-key_bytes 8 k h.1 small

-- A value read back from where it was written is the value, and the cursor stands where the
-- writing left it: as many bytes on as `sizeOfSqlType` gives for the value, when its bytes are
-- fewer than 2^32.
pub write_sql-read_sql :
    (v : SqlTypes) (io io' : IoManager)
    → IsValue v
    → value_bytes v < 2 ^ 32
    → io.buffer_offset ≤ length io.raw_data
    → write_sql v (type_of v) io ≡ ok io'
    → (n : ℕ) × (size_of_sql_type v ≡ ok n)
      × (read_sql (type_of v) (seek io.buffer_offset io') ≡ ok (v, io'))
      × (io'.buffer_offset ≡ io.buffer_offset + n)
write_sql-read_sql v io io' h small room e =
    let (read, offset) =
      Carries-round_trip (write_sql v (type_of v)) (read_sql (type_of v)) v (value_bytes v) io io'
        (sql-Carries v h) room e in
    (value_bytes v, size_of_sql_type-value_bytes v h small, read, offset)
