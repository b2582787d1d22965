-- ===== src/Io/RoundTrip/Scalars.antt =====
-- Numbers, Booleans, tags and strings read back as they were written.
use csql.Base.{
  ℕ, ◌+◌, ◌%◌, ◌^◌, ◌<◌, ◌≡◌, refl, ap, Bool, true, false, List, [], ◌∷◌, arith, length, take, Str,
}
use csql.Base.Int.{ℤ, IsInt64}
use csql.Base.Result.{Result, ok, ◌>>=◌}
use csql.Types.{DataTypes}
use csql.Io.Bytes.{
  le_bytes, of_le, length-le_bytes, of_le-le_bytes, to_u64, of_u64, to_u64_bound, of_u64-to_u64,
}
use csql.Io.Cursor.{IoManager, put, get}
use csql.Io.Values.{
  write_uint, read_uint, write_int64, read_int64, write_bool, read_bool, bool_byte, bool_of,
  write_type, read_type, type_code, type_of_code, write_string, read_string,
}
use csql.Io.Codec.{Reads, Carries, Carries-then, Reads-get, Reads-map}

-- A reader that takes a fixed number of bytes and decodes them.
Reads-bytes {ℓ} :
    {A : Type ℓ} (decode : List ℕ → A) (bs : List ℕ) (n : ℕ)
    → length bs ≡ n
    → Reads (λ io. get n io >>= λ p. ok (decode p.0, p.1)) bs (decode bs)
Reads-bytes decode bs n e = rw (← e) (Reads-map (get (length bs)) decode bs bs (Reads-get bs))

pub uint-Carries : (w n : ℕ) → n < 256 ^ w → Carries (write_uint w n) (read_uint w) n w
unfolding write_uint read_uint
uint-Carries w n h =
    let bs = le_bytes w n in
    (
      bs,
      (λ io _. refl),
      rw (of_le-le_bytes w n h) at (Reads-bytes of_le bs w (length-le_bytes w n)),
      length-le_bytes w n,
    )

pub int64-Carries : (z : ℤ) → IsInt64 z → Carries (write_int64 z) read_int64 z 8
unfolding write_int64 read_int64
int64-Carries z h =
    let bs = le_bytes 8 (to_u64 z) in
    let back : of_u64 (of_le bs) ≡ z =
      rw (of_le-le_bytes 8 (to_u64 z) (to_u64_bound z)) (of_u64-to_u64 z h) in
    (
      bs,
      (λ io _. refl),
      rw back at (Reads-bytes (λ b. of_u64 (of_le b)) bs 8 (length-le_bytes 8 (to_u64 z))),
      length-le_bytes 8 (to_u64 z),
    )

-- A reader whose result is decoded by a function that may fail.
pub Reads-decode {ℓ κ} :
    {A : Type ℓ} {B : Type κ} (r : IoManager → Result (A × IoManager)) (f : A → Result B)
    (bs : List ℕ) (a : A) (b : B)
    → Reads r bs a
    → f a ≡ ok b
    → Reads (λ io. r io >>= λ p. f p.0 >>= λ c. ok (c, p.1)) bs b
Reads-decode r f bs a b first e rest io ahead =
    let (done, ahead1) = first rest io ahead in (rw (done, e), ahead1)

pub bool-Carries : (b : Bool) → Carries (write_bool b) read_bool b 1
unfolding write_bool read_bool
bool-Carries b = (
  bool_byte b ∷ [],
  (λ io _. refl),
  Reads-decode (get 1) bool_of (bool_byte b ∷ []) (bool_byte b ∷ []) b
      (Reads-get (bool_byte b ∷ [])) (bool_of-bool_byte b),
  refl,
)
  where
    bool_of-bool_byte : (b : Bool) → bool_of (bool_byte b ∷ []) ≡ ok b
    bool_of-bool_byte true = refl
    bool_of-bool_byte false = refl

type_of_code-type_code : (t : DataTypes) → type_of_code (type_code t) ≡ ok t
type_of_code-type_code DataTypes.null_type = refl
type_of_code-type_code DataTypes.int_type = refl
type_of_code-type_code DataTypes.varchar_type = refl
type_of_code-type_code DataTypes.bool_type = refl
type_of_code-type_code DataTypes.datetime_type = refl
type_of_code-type_code DataTypes.float_type = refl
type_of_code-type_code DataTypes.b_plus_key = refl

type_code_bound : (t : DataTypes) → type_code t < 256 ^ 4
type_code_bound DataTypes.null_type = omega arith
type_code_bound DataTypes.int_type = omega arith
type_code_bound DataTypes.varchar_type = omega arith
type_code_bound DataTypes.bool_type = omega arith
type_code_bound DataTypes.datetime_type = omega arith
type_code_bound DataTypes.float_type = omega arith
type_code_bound DataTypes.b_plus_key = omega arith

pub type-Carries : (t : DataTypes) → Carries (write_type t) read_type t 4
unfolding write_type read_type
type-Carries t =
    let (bs, w, r, e) = uint-Carries 4 (type_code t) (type_code_bound t) in
    (
      bs,
      w,
      Reads-decode (read_uint 4) type_of_code bs (type_code t) t r (type_of_code-type_code t),
      e,
    )

pub put-Carries : (bs : List ℕ) → Carries (put bs) (get (length bs)) bs (length bs)
put-Carries bs = (bs, (λ io _. refl), Reads-get bs, refl)

take-length : (s : Str) → take (length s) s ≡ s
take-length [] = refl
take-length (x ∷ s) = ap (◌∷◌ x) (take-length s)

abbrev pub IsShort : Str → Type 0
IsShort s = length s < 2 ^ 32

pub string-Carries : (s : Str) → IsShort s → Carries (write_string s) read_string s (4 + length s)
unfolding write_string read_string
string-Carries s h =
    let n : length s % 2 ^ 32 ≡ length s = omega arith in
    rw (n, take-length s)
      (Carries-then (write_uint 4 (length s)) (put s) (read_uint 4) get (length s) s 4 (length s)
        (uint-Carries 4 (length s) (omega arith)) (put-Carries s))
