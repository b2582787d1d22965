-- ===== src/Convert/Decimal.antt =====
-- Integers through their decimal texts: `covertSqlTypeToString` and `covertStringToSqlType` of
-- core/util/helpers.cpp.
use csql.Base.{
  ℕ, zero, suc, ◌+◌, ◌-◌, ◌*◌, ◌/◌, ◌%◌, ◌^◌, ◌≤◌, ◌<◌, ◌≡◌, refl, ap, ◌∙◌, true, false, none, some,
  [], ◌∷◌, ◌++◌, arith, ltb, ◌==◌, Str, codes, Bool-cases, inl, inr,
}
use csql.Base.Int.{ℤ, pos, negsuc}
use csql.Base.Result.{ok, err, errors, or_fail, ◌>>=◌}
use csql.Types.{DataTypes, sql_int, Floats}
use csql.Convert.{
  digits, to_string, int_to_string, is_digit, skip_spaces, as_int, read_digits, read_number,
  read_signed, stoi, covert_sql_type_to_string, covert_string_to_sql_type,
}

-- All bytes are digits.
abbrev AllDigits : Str → Type 0
AllDigits [] = Unit
AllDigits (c ∷ cs) = (is_digit c ≡ true) × AllDigits cs

AllDigits-append : (s t : Str) → AllDigits s → AllDigits t → AllDigits (s ++ t)
AllDigits-append [] t h k = k
AllDigits-append (c ∷ s) t h k = (h.0, AllDigits-append s t h.1 k)

read_digits-append :
    (n : ℕ) (s : Str) (d : ℕ)
    → AllDigits s
    → d < 10
    → read_digits n (s ++ (48 + d) ∷ []) ≡ read_digits n s * 10 + d
unfolding read_digits
read_digits-append n [] d h k = ground arith
read_digits-append n (c ∷ s) d h k =
    ground (arith, read_digits-append (n * 10 + (c - 48)) s d h.1 k)

digits-AllDigits : (fuel n : ℕ) → AllDigits (digits fuel n)
unfolding digits
digits-AllDigits zero n = tt
digits-AllDigits (suc fuel) n = elim (Bool-cases (ltb n 10)) [
  | inl small ↦ rw small (ground arith, tt)
  | inr big ↦ rw big (AllDigits-append _ _ (digits-AllDigits fuel (n / 10)) (ground arith, tt))
]

read_digits-digits : (fuel n : ℕ) → n < fuel → read_digits 0 (digits fuel n) ≡ n
unfolding digits read_digits
read_digits-digits zero n h = absurd (omega arith)
read_digits-digits (suc fuel) n h = elim (Bool-cases (ltb n 10)) [
  | inl small ↦ rw small (read_digits-append 0 [] n tt (ground arith) ∙ omega arith)
  | inr big ↦ rw big (
      read_digits-append 0 (digits fuel (n / 10)) (n % 10) (digits-AllDigits fuel (n / 10))
        (omega arith)
      ∙ ap (λ q. q * 10 + n % 10) (read_digits-digits fuel (n / 10) (ground arith))
      ∙ omega arith)
]

-- A text whose first byte is a digit.
abbrev StartsWithDigit : Str → Type 0
StartsWithDigit [] = ⊥
StartsWithDigit (c ∷ cs) = is_digit c ≡ true

append-StartsWithDigit : (s t : Str) → StartsWithDigit s → StartsWithDigit (s ++ t)
append-StartsWithDigit [] t h = absurd h
append-StartsWithDigit (c ∷ s) t h = h

digits-StartsWithDigit : (fuel n : ℕ) → n < fuel → StartsWithDigit (digits fuel n)
unfolding digits
digits-StartsWithDigit zero n h = absurd (omega arith)
digits-StartsWithDigit (suc fuel) n h = elim (Bool-cases (ltb n 10)) [
  | inl small ↦ rw small (ground arith)
  | inr big ↦
      rw big (append-StartsWithDigit _ _ (digits-StartsWithDigit fuel (n / 10) (ground arith)))
]

skip_spaces-digit : (s : Str) → StartsWithDigit s → skip_spaces s ≡ s
unfolding skip_spaces
skip_spaces-digit [] h = refl
skip_spaces-digit (c ∷ cs) h = ground arith

read_number-digit : (s : Str) → StartsWithDigit s → read_number s ≡ some (read_digits 0 s)
unfolding read_number
read_number-digit [] h = absurd h
read_number-digit (c ∷ cs) h = rw h refl

read_signed-digit : (s : Str) → StartsWithDigit s → read_signed s ≡ some (false, read_digits 0 s)
unfolding read_signed
read_signed-digit [] h = absurd h
read_signed-digit (c ∷ cs) h =
    let plain : (c == 45) ≡ false = ground arith in
    let plain' : (c == 43) ≡ false = ground arith in
    rw (plain, plain', read_number-digit (c ∷ cs) h) refl

-- What is read of a printed number, alone and after a minus.
read_signed-to_string : (n : ℕ) → read_signed (skip_spaces (to_string n)) ≡ some (false, n)
unfolding to_string
read_signed-to_string n =
    let d = digits-StartsWithDigit (suc n) n (omega arith) in
    rw (skip_spaces-digit _ d) (
      read_signed-digit _ d
      ∙ ap (λ m. some (false, m)) (read_digits-digits (suc n) n (omega arith)))

read_signed-minus : (n : ℕ) → read_signed (skip_spaces (45 ∷ to_string n)) ≡ some (true, n)
unfolding read_signed skip_spaces to_string
read_signed-minus n =
    let d = digits-StartsWithDigit (suc n) n (omega arith) in
    rw (read_number-digit _ d)
      (ap (λ m. some (true, m)) (read_digits-digits (suc n) n (omega arith)))

-- The values of an `int` of 32 bits.
abbrev pub IsInt32 : ℤ → Type 0
IsInt32 (pos n) = n < 2 ^ 31
IsInt32 (negsuc n) = n < 2 ^ 31

stoi-int_to_string : (z : ℤ) → IsInt32 z → stoi (int_to_string z) ≡ some z
unfolding stoi int_to_string as_int
stoi-int_to_string (pos n) h =
    let small : ltb n (2 ^ 31) ≡ true = ground arith in
    ap as_int (read_signed-to_string n) ∙ rw small refl
stoi-int_to_string (negsuc n) h =
    let small : ltb n (2 ^ 31) ≡ true = ground arith in
    ap as_int (read_signed-minus (suc n)) ∙ rw small refl

stoi-int_to_string_large : (n : ℕ) → 2 ^ 31 ≤ n → stoi (int_to_string (pos n)) ≡ none
unfolding stoi int_to_string as_int
stoi-int_to_string_large n h =
    let large : ltb n (2 ^ 31) ≡ false = ground arith in
    ap as_int (read_signed-to_string n) ∙ rw large refl

-- An integer of 32 bits printed by `covertSqlTypeToString` and read by `covertStringToSqlType` is
-- the integer again.
pub covert_string_to_sql_type-covert_sql_type_to_string :
    (f : Floats) (z : ℤ)
    → IsInt32 z
    → covert_string_to_sql_type f DataTypes.int_type (covert_sql_type_to_string f (sql_int z))
      ≡ ok (sql_int z)
unfolding covert_string_to_sql_type covert_sql_type_to_string
covert_string_to_sql_type-covert_sql_type_to_string f z h =
    ap (λ o. or_fail o (errors (codes "Invalid value for int type")) >>= λ i. ok (sql_int i))
      (stoi-int_to_string z h)

-- An integer column holds 64 bits, but the text of a value of `2 ^ 31` or more is refused.
pub covert_string_to_sql_type_bound :
    (f : Floats) (n : ℕ)
    → 2 ^ 31 ≤ n
    → covert_string_to_sql_type f DataTypes.int_type (covert_sql_type_to_string f (sql_int (pos n)))
      ≡ err (errors (codes "Invalid value for int type"))
unfolding covert_string_to_sql_type covert_sql_type_to_string
covert_string_to_sql_type_bound f n h =
    ap (λ o. or_fail o (errors (codes "Invalid value for int type")) >>= λ i. ok (sql_int i))
      (stoi-int_to_string_large n h)
