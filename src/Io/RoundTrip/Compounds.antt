-- ===== src/Io/RoundTrip/Compounds.antt =====
-- Vectors, keys and the values of a tuple read back as they were written, in the number of bytes
-- that the program reckons for them.
use csql.Base.{ℕ, ◌+◌, ◌^◌, ◌<◌, ◌≡◌, refl, sym, ap, List, [], ◌∷◌, map, arith, length}
use csql.Base.Int.{IsInt64}
use csql.Base.Result.{Result, ok, ◌>>=◌}
use csql.Types.{
  DataTypes, KeyElementType, KeyElement, int_element, float_element, varchar_element,
  PairKeyElement, BPlusKey, SqlTypes, sql_null, sql_int, sql_varchar, sql_bool, sql_datetime,
  sql_float, sql_key,
}
use mathlib.Core.Path.{subst}
use csql.Types.Size.{IsTagged, tag_of, element_value_bytes, element_bytes, key_bytes, value_bytes}
use csql.Io.Cursor.{IoManager}
use csql.Io.Values.{
  write_uint, read_uint, write_int64, read_int64, write_string, read_string, write_bool, read_bool,
  write_all, read_all, write_vector, read_vector, write_element, read_element, write_element_value,
  read_element_value, element_code, element_of_code, write_sql, read_sql,
}
use csql.Io.Codec.{Carries, Carries-then, Carries-map, Carries-nothing}
use csql.Io.RoundTrip.Scalars.{uint-Carries, int64-Carries, bool-Carries, string-Carries, IsShort}

-- The bytes of a list of items.
abbrev pub total {ℓ} : {A : Type ℓ} → (A → ℕ) → List A → ℕ
total size [] = 0
total size (a ∷ items) = size a + total size items

-- Each item of a list fits.
abbrev pub All {ℓ κ} : {Item : Type ℓ} → (Item → Type κ) → List Item → Type κ
All Fits [] = Unit
All Fits (a ∷ items) = Fits a × All Fits items

module _ {ℓ κ μ} {A : Type ℓ} {B : Type μ} {P : A → Type κ} where
  -- A loop of writes is read back by a loop of as many reads; `view` is what is read of an item.
  pub all-Carries :
      (write : A → IoManager → Result IoManager) (read : IoManager → Result (B × IoManager))
      (view : A → B) (size : A → ℕ) (items : List A)
      → ((a : A) → P a → Carries (write a) read (view a) (size a))
      → All P items
      → Carries
          (write_all write items)
          (read_all read (length items))
          (map view items)
          (total size items)
  unfolding write_all read_all
  all-Carries write read view size [] each h = Carries-nothing []
  all-Carries write read view size (a ∷ items) each h =
      Carries-then _ _ _ _ _ _ _ _ (each a h.0)
        (Carries-map _ _ (◌∷◌ (view a)) _ _ (all-Carries write read view size items each h.1))

  pub vector-Carries :
      (write : A → IoManager → Result IoManager) (read : IoManager → Result (B × IoManager))
      (view : A → B) (size : A → ℕ) (items : List A)
      → ((a : A) → P a → Carries (write a) read (view a) (size a))
      → length items < 2 ^ 64
      → All P items
      → Carries
          (write_vector write items)
          (read_vector read)
          (map view items)
          (8 + total size items)
  unfolding write_vector read_vector
  vector-Carries write read view size items each room h =
      Carries-then _ _ _ _ _ _ _ _ (uint-Carries 8 (length items) (omega arith))
        (all-Carries write read view size items each h)

pub map_self {ℓ} : {A : Type ℓ} (items : List A) → map (λ a. a) items ≡ items
map_self [] = refl
map_self (a ∷ items) = ap (◌∷◌ a) (map_self items)

-- The values that the machine types can hold.
abbrev pub IsElementValue : KeyElement → Type 0
IsElementValue (int_element z) = IsInt64 z
IsElementValue (float_element x) = x < 2 ^ 64
IsElementValue (varchar_element s) = IsShort s

abbrev pub IsElement : PairKeyElement → Type 0
IsElement p = IsTagged p × IsElementValue p.second

element_value-Carries :
    (e : KeyElement)
    → IsElementValue e
    → Carries
        (write_element_value (tag_of e) e)
        (read_element_value (tag_of e))
        e
        (element_value_bytes e)
unfolding write_element_value read_element_value
element_value-Carries (int_element z) h =
    Carries-map (write_int64 z) read_int64 int_element z 8 (int64-Carries z h)
element_value-Carries (float_element x) h =
    Carries-map (write_uint 8 x) (read_uint 8) float_element x 8 (uint-Carries 8 x (omega arith))
element_value-Carries (varchar_element s) h =
    Carries-map (write_string s) read_string varchar_element s (4 + length s) (string-Carries s h)

element_of_code-element_code : (t : KeyElementType) → element_of_code (element_code t) ≡ ok t
element_of_code-element_code KeyElementType.int_type = refl
element_of_code-element_code KeyElementType.float_type = refl
element_of_code-element_code KeyElementType.varchar_type = refl

element_code_bound : (t : KeyElementType) → element_code t < 256 ^ 4
element_code_bound KeyElementType.int_type = omega arith
element_code_bound KeyElementType.float_type = omega arith
element_code_bound KeyElementType.varchar_type = omega arith

abbrev tagged : KeyElementType → KeyElement → PairKeyElement
tagged t e = record { first = t; second = e }

abbrev read_tagged : KeyElementType → IoManager → Result (PairKeyElement × IoManager)
read_tagged t io = read_element_value t io >>= λ p. ok (tagged t p.0, p.1)

abbrev read_by_code : ℕ → IoManager → Result (PairKeyElement × IoManager)
read_by_code c io = element_of_code c >>= λ t. read_tagged t io

read_by_code-element_code : (t : KeyElementType) → read_by_code (element_code t) ≡ read_tagged t
read_by_code-element_code t = λ i io. element_of_code-element_code t i >>= λ t'. read_tagged t' io

tagged-Carries :
    (e : KeyElement)
    → IsElementValue e
    → Carries
        (write_element (tagged (tag_of e) e))
        read_element
        (tagged (tag_of e) e)
        (4 + element_value_bytes e)
unfolding write_element read_element
tagged-Carries e h =
    let t = tag_of e in
    let value =
      Carries-map (write_element_value t e) (read_element_value t) (tagged t) e
        (element_value_bytes e) (element_value-Carries e h) in
    Carries-then (write_uint 4 (element_code t)) (write_element_value t e) (read_uint 4)
      read_by_code (element_code t) (tagged t e) 4 (element_value_bytes e)
      (uint-Carries 4 (element_code t) (element_code_bound t))
      (subst
        (λ (r : IoManager → Result (PairKeyElement × IoManager)).
          Carries (write_element_value t e) r (tagged t e) (element_value_bytes e))
        (sym (read_by_code-element_code t)) value)

pub element-Carries :
    (p : PairKeyElement) → IsElement p → Carries (write_element p) read_element p (element_bytes p)
element-Carries p h =
    let same : tagged (tag_of p.second) p.second ≡ p = λ i. tagged (sym h.0 i) p.second in
    rw same at (tagged-Carries p.second h.1)

key_bytes-total : (k : BPlusKey) → total element_bytes k ≡ key_bytes k
key_bytes-total [] = refl
key_bytes-total (p ∷ k) = ap (◌+◌ (element_bytes p)) (key_bytes-total k)

abbrev pub IsKey : BPlusKey → Type 0
IsKey k = (length k < 2 ^ 64) × All IsElement k

pub key-Carries :
    (k : BPlusKey)
    → IsKey k
    → Carries (write_vector write_element k) (read_vector read_element) k (8 + key_bytes k)
key-Carries k h =
    rw (key_bytes-total k, map_self k) at
      (vector-Carries {P = IsElement} write_element read_element (λ p. p) element_bytes k
        element-Carries h.0 h.1)

-- The type that `covertSqlValueToDataTypes` gives a value, and the one of a key.
abbrev pub type_of : SqlTypes → DataTypes
type_of sql_null = DataTypes.null_type
type_of (sql_int z) = DataTypes.int_type
type_of (sql_varchar s) = DataTypes.varchar_type
type_of (sql_bool b) = DataTypes.bool_type
type_of (sql_datetime d) = DataTypes.datetime_type
type_of (sql_float x) = DataTypes.float_type
type_of (sql_key k) = DataTypes.b_plus_key

abbrev pub IsValue : SqlTypes → Type 0
IsValue sql_null = Unit
IsValue (sql_int z) = IsInt64 z
IsValue (sql_varchar s) = IsShort s
IsValue (sql_bool b) = Unit
IsValue (sql_datetime d) = d < 2 ^ 64
IsValue (sql_float x) = x < 2 ^ 64
IsValue (sql_key k) = IsKey k

-- A value is read back under its own type.
pub sql-Carries :
    (v : SqlTypes)
    → IsValue v
    → Carries (write_sql v (type_of v)) (read_sql (type_of v)) v (value_bytes v)
unfolding write_sql read_sql
sql-Carries sql_null h = Carries-nothing sql_null
sql-Carries (sql_int z) h = Carries-map (write_int64 z) read_int64 sql_int z 8 (int64-Carries z h)
sql-Carries (sql_varchar s) h =
    Carries-map (write_string s) read_string sql_varchar s (4 + length s) (string-Carries s h)
sql-Carries (sql_bool b) h = Carries-map (write_bool b) read_bool sql_bool b 1 (bool-Carries b)
sql-Carries (sql_datetime d) h =
    Carries-map (write_uint 8 d) (read_uint 8) sql_datetime d 8 (uint-Carries 8 d (omega arith))
sql-Carries (sql_float x) h =
    Carries-map (write_uint 8 x) (read_uint 8) sql_float x 8 (uint-Carries 8 x (omega arith))
sql-Carries (sql_key k) h =
    Carries-map (write_vector write_element k) (read_vector read_element) sql_key k
      (8 + key_bytes k) (key-Carries k h)
