-- ===== src/Functions.antt =====
-- core/storage/expression/function_expression.cpp: the functions of the language on their
-- parameters. What `std::string` does with a position past its end is the failure `out_of_range`;
-- a `size_t` result becomes the unsigned alternative of `SqlTypes`, a datetime.
pub mod Strings
use csql.Base.{
  ℕ, zero, suc, ◌+◌, ◌-◌, ◌%◌, ◌^◌, ◌≡◌, Bool, true, false, not, ◌&&◌, Option, none, some, List, [],
  ◌∷◌, ◌++◌, map, ltb, leb, ◌==◌, if◌then◌else◌, length, take, drop, Str, codes,
}
use csql.Base.Int.{ℤ, pos, ◌-ℤ◌, fits_int64}
use csql.Base.Result.{
  Result, ok, err, errors, out_of_range, undefined, bad_variant, no_fuel, ◌>>=◌, ◌>>◌, guard,
}
use csql.Types.{DataTypes, SqlTypes, sql_int, sql_varchar, sql_datetime, Floats}
use csql.Io.Bytes.{to_u64}
use csql.Convert.{covert_sql_type_to_string, covert_sql_value_to_data_types, lower_char}

pub data FunctionTypes : Type 0 where
  ascii_ft concat_ft concat_ws_ft char_length_ft char_ft length_ft left_ft locate_ft lower_ft
        substring_ft substr_ft replace_ft right_ft reverse_ft trim_ft upper_ft :
      FunctionTypes

-- The thrown errors.
abbrev pub wrong_count : Result SqlTypes
wrong_count = err (errors (codes "Invalid number of parameters"))

abbrev pub wrong_type : Result SqlTypes
wrong_type = err (errors (codes "Invalid type of parameter"))

-- `expectParam` with `std::get` after it, for the two types that the functions ask for.
unfoldable pub with_string : SqlTypes → (Str → Result SqlTypes) → Result SqlTypes
unfolding covert_sql_value_to_data_types
with_string (sql_varchar s) k = k s
with_string v k = covert_sql_value_to_data_types v >>= λ t. wrong_type

unfoldable pub with_int : SqlTypes → (ℤ → Result SqlTypes) → Result SqlTypes
unfolding covert_sql_value_to_data_types
with_int (sql_int z) k = k z
with_int v k = covert_sql_value_to_data_types v >>= λ t. wrong_type

-- `s.substr(at, count)` with both in `size_t`.
unfoldable pub substr : Str → ℕ → ℕ → Result SqlTypes
substr s at count =
    if leb at (length s) then ok (sql_varchar (take count (drop at s))) else err out_of_range

-- Whether the string begins with the other.
unfoldable pub starts_with : Str → Str → Bool
starts_with s [] = true
starts_with [] (c ∷ cs) = false
starts_with (d ∷ ds) (c ∷ cs) = (d == c) && starts_with ds cs

-- `s.find(t)`: what stands before the first occurrence, and what stands after it.
unfoldable pub split_on : Str → Str → Option (Str × Str)
unfolding starts_with
split_on t [] = if starts_with [] t then some ([], []) else none
split_on t (c ∷ cs) =
    let rest = split_on t cs in
    if starts_with (c ∷ cs) t
    then some ([], drop (length t) (c ∷ cs))
    else elim rest [ none ↦ none | some (before, after) ↦ some (c ∷ before, after) ]

-- The loop of `replace`: the string from `start_pos` on.
unfoldable pub replace_loop : ℕ → Str → Str → Str → Result Str
unfolding split_on
replace_loop zero from to s = err no_fuel
replace_loop (suc fuel) from to s = elim (split_on from s) [
  | none ↦ ok s
  | some (before, after) ↦ replace_loop fuel from to after >>= λ more. ok (before ++ (to ++ more))
]

unfoldable pub drop_spaces : Str → Str
drop_spaces [] = []
drop_spaces (c ∷ cs) = let rest = drop_spaces cs in if c == 32 then rest else c ∷ cs

-- `erase` from after the last byte that is no blank.
unfoldable pub drop_last_spaces : Str → Str
drop_last_spaces [] = []
drop_last_spaces (c ∷ cs) = elim (drop_last_spaces cs) [
  | [] ↦ if c == 32 then [] else c ∷ []
  | d ∷ ds ↦ c ∷ d ∷ ds
]

unfoldable pub reverse_string : Str → Str
reverse_string [] = []
reverse_string (c ∷ cs) = reverse_string cs ++ c ∷ []

abbrev pub upper_char : ℕ → ℕ
upper_char c = if leb 97 c && leb c 122 then c - 32 else c

abbrev pub one_string : (Str → Result SqlTypes) → List SqlTypes → Result SqlTypes
one_string k (v ∷ []) = with_string v k
one_string k _ = wrong_count

unfoldable pub ascii : List SqlTypes → Result SqlTypes
unfolding with_int
ascii (v ∷ []) = with_int v (λ z. ok v)
ascii _ = wrong_count

unfoldable pub join_strings : Floats → List SqlTypes → Str
unfolding covert_sql_type_to_string
join_strings f [] = []
join_strings f (v ∷ vs) = covert_sql_type_to_string f v ++ join_strings f vs

unfoldable pub concat : Floats → List SqlTypes → Result SqlTypes
unfolding join_strings
concat f vs = if ltb (length vs) 2 then wrong_count else ok (sql_varchar (join_strings f vs))

unfoldable pub join_with : Floats → Str → List SqlTypes → Str
unfolding covert_sql_type_to_string
join_with f sep [] = []
join_with f sep (v ∷ []) = covert_sql_type_to_string f v
join_with f sep (v ∷ w ∷ vs) = covert_sql_type_to_string f v ++ (sep ++ join_with f sep (w ∷ vs))

unfoldable pub concat_ws : Floats → List SqlTypes → Result SqlTypes
unfolding with_string join_with
concat_ws f (sep ∷ v ∷ w ∷ vs) =
    with_string sep (λ s. ok (sql_varchar (join_with f s (v ∷ w ∷ vs))))
concat_ws f _ = wrong_count

unfoldable pub charft : List SqlTypes → Result SqlTypes
unfolding with_int to_u64
charft (v ∷ []) = with_int v (λ z. ok (sql_varchar ((to_u64 z % 256) ∷ [])))
charft _ = wrong_count

unfoldable pub length_of : List SqlTypes → Result SqlTypes
unfolding with_string
length_of vs = one_string (λ s. ok (sql_datetime (length s))) vs

unfoldable pub left : List SqlTypes → Result SqlTypes
unfolding with_string with_int substr to_u64
left (v ∷ n ∷ []) = with_string v (λ s. with_int n (λ z. substr s 0 (to_u64 z)))
left _ = wrong_count

unfoldable pub locate : List SqlTypes → Result SqlTypes
unfolding with_string split_on
locate (t ∷ v ∷ []) = with_string t (λ sub. with_string v (λ s. elim (split_on sub s) [
  | none ↦ ok (sql_int (pos 0))
  | some (before, after) ↦ ok (sql_datetime (length before + 1))
]))
locate _ = wrong_count

unfoldable pub lower : List SqlTypes → Result SqlTypes
unfolding with_string
lower vs = one_string (λ s. ok (sql_varchar (map lower_char s))) vs

unfoldable pub upper : List SqlTypes → Result SqlTypes
unfolding with_string
upper vs = one_string (λ s. ok (sql_varchar (map upper_char s))) vs

unfoldable pub substring : List SqlTypes → Result SqlTypes
unfolding with_string with_int substr to_u64
substring (v ∷ a ∷ n ∷ []) = with_string v (λ s. with_int a (λ start. with_int n (λ count.
    if fits_int64 (start -ℤ pos 1)
    then substr s (to_u64 (start -ℤ pos 1)) (to_u64 count)
    else err undefined)))
substring _ = wrong_count

-- The source loops while `find` finds something; for a `from` that is not empty one round for
-- each byte, and one more, is enough.
unfoldable pub replace_with : ℕ → List SqlTypes → Result SqlTypes
unfolding with_string replace_loop
replace_with fuel (v ∷ a ∷ b ∷ []) = with_string v (λ s.
    with_string a
      (λ from. with_string b (λ to. replace_loop fuel from to s >>= λ r. ok (sql_varchar r))))
replace_with fuel _ = wrong_count

abbrev pub bytes_of : SqlTypes → ℕ
bytes_of (sql_varchar s) = length s
bytes_of _ = 0

unfoldable pub replace : List SqlTypes → Result SqlTypes
unfolding replace_with
replace (v ∷ vs) = replace_with (bytes_of v + 1) (v ∷ vs)
replace [] = wrong_count

-- `size() - length`, in `size_t`.
unfoldable pub right : List SqlTypes → Result SqlTypes
unfolding with_string with_int substr to_u64
right (v ∷ n ∷ []) =
    with_string v
      (λ s. with_int n (λ z. substr s ((length s + 2 ^ 64 - to_u64 z) % 2 ^ 64) (length s)))
right _ = wrong_count

unfoldable pub reverse : List SqlTypes → Result SqlTypes
unfolding with_string reverse_string
reverse vs = one_string (λ s. ok (sql_varchar (reverse_string s))) vs

unfoldable pub trim : List SqlTypes → Result SqlTypes
unfolding with_string drop_spaces drop_last_spaces
trim vs = one_string (λ s. ok (sql_varchar (drop_last_spaces (drop_spaces s)))) vs

-- `FunctionExpression::apply` after its parameters.
unfoldable pub apply_function : Floats → FunctionTypes → List SqlTypes → Result SqlTypes
unfolding ascii concat concat_ws charft length_of left locate lower upper substring replace right
    reverse trim
apply_function f FunctionTypes.ascii_ft vs = ascii vs
apply_function f FunctionTypes.concat_ft vs = concat f vs
apply_function f FunctionTypes.concat_ws_ft vs = concat_ws f vs
apply_function f FunctionTypes.char_ft vs = charft vs
apply_function f FunctionTypes.char_length_ft vs = length_of vs
apply_function f FunctionTypes.length_ft vs = length_of vs
apply_function f FunctionTypes.left_ft vs = left vs
apply_function f FunctionTypes.locate_ft vs = locate vs
apply_function f FunctionTypes.lower_ft vs = lower vs
apply_function f FunctionTypes.substring_ft vs = substring vs
apply_function f FunctionTypes.replace_ft vs = replace vs
apply_function f FunctionTypes.right_ft vs = right vs
apply_function f FunctionTypes.reverse_ft vs = reverse vs
apply_function f FunctionTypes.trim_ft vs = trim vs
apply_function f FunctionTypes.upper_ft vs = upper vs
apply_function f FunctionTypes.substr_ft vs = err (errors (codes "No case"))
