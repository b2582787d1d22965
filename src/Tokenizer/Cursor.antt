-- ===== src/Tokenizer/Cursor.antt =====
-- core/controller/tokenizer: the cursor over the tokens, which the parsers move.
use csql.Base.{
  ℕ, ◌+◌, Bool, true, false, ◌&&◌, ◌||◌, Option, none, some, List, [], ◌∷◌, ◌++◌, ltb, ◌==◌,
  if◌then◌else◌, length, get_elem?, drop, Str, codes, str_eq,
}
use csql.Base.Int.{ℤ}
use csql.Base.Result.{Result, ok, err, errors, undefined, invalid_argument, ◌>>=◌, or_fail}
use csql.Convert.{stoi}
use csql.Tokenizer.{TokenType, Token}
use csql.Tokenizer.Keywords.{SqlKeywords, SqlFunctions, SqlOperators}

-- The places of the constructors, by which `==` tells them apart.
abbrev pub type_place : TokenType → ℕ
type_place TokenType.statement = 0
type_place TokenType.identifier = 1
type_place TokenType.keyword = 2
type_place TokenType.number = 3
type_place TokenType.operators = 4
type_place TokenType.timedate = 5
type_place TokenType.punctuation = 6
type_place TokenType.string = 7
type_place TokenType.function = 8
type_place TokenType.unknown = 9

abbrev pub keyword_place : SqlKeywords → ℕ
keyword_place SqlKeywords.alter_kw = 0
keyword_place SqlKeywords.any_kw = 1
keyword_place SqlKeywords.as_kw = 2
keyword_place SqlKeywords.auto_increment = 3
keyword_place SqlKeywords.asc_kw = 4
keyword_place SqlKeywords.abort_kw = 5
keyword_place SqlKeywords.by_kw = 6
keyword_place SqlKeywords.bool_kw = 7
keyword_place SqlKeywords.begin_kw = 8
keyword_place SqlKeywords.case_kw = 9
keyword_place SqlKeywords.check_kw = 10
keyword_place SqlKeywords.constraint_kw = 11
keyword_place SqlKeywords.create_kw = 12
keyword_place SqlKeywords.cross_kw = 13
keyword_place SqlKeywords.commit_kw = 14
keyword_place SqlKeywords.default_kw = 15
keyword_place SqlKeywords.delete_kw = 16
keyword_place SqlKeywords.distinct_kw = 17
keyword_place SqlKeywords.drop_kw = 18
keyword_place SqlKeywords.date_kw = 19
keyword_place SqlKeywords.database_kw = 20
keyword_place SqlKeywords.describe_kw = 21
keyword_place SqlKeywords.databases_kw = 22
keyword_place SqlKeywords.desc_kw = 23
keyword_place SqlKeywords.else_kw = 24
keyword_place SqlKeywords.end_kw = 25
keyword_place SqlKeywords.exists_kw = 26
keyword_place SqlKeywords.foreign_kw = 27
keyword_place SqlKeywords.from_kw = 28
keyword_place SqlKeywords.float_kw = 29
keyword_place SqlKeywords.false_kw = 30
keyword_place SqlKeywords.full_kw = 31
keyword_place SqlKeywords.group_kw = 32
keyword_place SqlKeywords.having_kw = 33
keyword_place SqlKeywords.if_kw = 34
keyword_place SqlKeywords.inner_kw = 35
keyword_place SqlKeywords.intersect_kw = 36
keyword_place SqlKeywords.index_kw = 37
keyword_place SqlKeywords.insert_kw = 38
keyword_place SqlKeywords.into_kw = 39
keyword_place SqlKeywords.int_kw = 40
keyword_place SqlKeywords.join_kw = 41
keyword_place SqlKeywords.key_kw = 42
keyword_place SqlKeywords.left_kw = 43
keyword_place SqlKeywords.limit_kw = 44
keyword_place SqlKeywords.null_kw = 45
keyword_place SqlKeywords.offset_kw = 46
keyword_place SqlKeywords.on_kw = 47
keyword_place SqlKeywords.order_kw = 48
keyword_place SqlKeywords.primary_kw = 49
keyword_place SqlKeywords.references_kw = 50
keyword_place SqlKeywords.right_kw = 51
keyword_place SqlKeywords.rollback_kw = 52
keyword_place SqlKeywords.select_kw = 53
keyword_place SqlKeywords.set_kw = 54
keyword_place SqlKeywords.some_kw = 55
keyword_place SqlKeywords.show_kw = 56
keyword_place SqlKeywords.table_kw = 57
keyword_place SqlKeywords.then_kw = 58
keyword_place SqlKeywords.transaction_kw = 59
keyword_place SqlKeywords.tables_kw = 60
keyword_place SqlKeywords.true_kw = 61
keyword_place SqlKeywords.union_kw = 62
keyword_place SqlKeywords.unique_kw = 63
keyword_place SqlKeywords.update_kw = 64
keyword_place SqlKeywords.values_kw = 65
keyword_place SqlKeywords.view_kw = 66
keyword_place SqlKeywords.varchar_kw = 67
keyword_place SqlKeywords.when_kw = 68
keyword_place SqlKeywords.where_kw = 69
keyword_place SqlKeywords.unkonwn_kw = 70
keyword_place SqlKeywords.use_kw = 71

abbrev pub operator_place : SqlOperators → ℕ
operator_place SqlOperators.add_op = 0
operator_place SqlOperators.and_op = 1
operator_place SqlOperators.between_op = 2
operator_place SqlOperators.divide_op = 3
operator_place SqlOperators.dot_op = 4
operator_place SqlOperators.equal_op = 5
operator_place SqlOperators.gt_op = 6
operator_place SqlOperators.gte_op = 7
operator_place SqlOperators.in_op = 8
operator_place SqlOperators.lt_op = 9
operator_place SqlOperators.lte_op = 10
operator_place SqlOperators.like_op = 11
operator_place SqlOperators.mod_op = 12
operator_place SqlOperators.multiply_op = 13
operator_place SqlOperators.nor_op = 14
operator_place SqlOperators.not_op = 15
operator_place SqlOperators.not_equal_op = 16
operator_place SqlOperators.not_between_op = 17
operator_place SqlOperators.not_in_op = 18
operator_place SqlOperators.not_like_op = 19
operator_place SqlOperators.or_op = 20
operator_place SqlOperators.power_op = 21
operator_place SqlOperators.subtract_op = 22
operator_place SqlOperators.unknown_op = 23
operator_place SqlOperators.open_parenthesis = 24
operator_place SqlOperators.close_parenthesis = 25

abbrev pub function_place : SqlFunctions → ℕ
function_place SqlFunctions.ascii_ft = 0
function_place SqlFunctions.concat_ft = 1
function_place SqlFunctions.concat_ws_ft = 2
function_place SqlFunctions.char_length_ft = 3
function_place SqlFunctions.char_ft = 4
function_place SqlFunctions.length_ft = 5
function_place SqlFunctions.left_ft = 6
function_place SqlFunctions.locate_ft = 7
function_place SqlFunctions.lower_ft = 8
function_place SqlFunctions.substring_ft = 9
function_place SqlFunctions.replace_ft = 10
function_place SqlFunctions.right_ft = 11
function_place SqlFunctions.reverse_ft = 12
function_place SqlFunctions.insert_ft = 13
function_place SqlFunctions.trim_ft = 14
function_place SqlFunctions.upper_ft = 15
function_place SqlFunctions.count_ft = 16
function_place SqlFunctions.sum_ft = 17
function_place SqlFunctions.avg_ft = 18
function_place SqlFunctions.min_ft = 19
function_place SqlFunctions.max_ft = 20
function_place SqlFunctions.group_concat_ft = 21
function_place SqlFunctions.unknown_ft = 22

-- `tokens` and `index` of the class.
pub record Cursor : Type 0 where
  pub tokens : List Token
  pub at : ℕ

abbrev pub has_type : TokenType → Token → Bool
has_type ty t = type_place t.token_type == type_place ty

abbrev pub unexpected {ℓ} : {V : Type ℓ} → Token → Result V
unexpected t = err (errors (codes "Unexpected token: " ++ t.data_of))

abbrev pub size : Cursor → ℕ
size c = length c.tokens

unfoldable pub token_at : Cursor → ℕ → Option Token
token_at c i = get_elem? c.tokens i

unfoldable pub peek : Cursor → Result Token
peek c = or_fail (get_elem? c.tokens c.at) (errors (codes "Unexpected end of statement"))

abbrev pub advance : Cursor → Cursor
advance c = record c { at = c.at + 1 }

unfoldable pub check_one : Cursor → Result Cursor
unfolding peek
check_one c = peek c >>= λ t. ok (advance c)

unfoldable pub get : Cursor → Result (Token × Cursor)
unfolding peek check_one
get c = peek c >>= λ t. check_one c >>= λ c'. ok (t, c')

-- The four `check`.
abbrev pub check_that : (Token → Bool) → Cursor → Result Cursor
check_that test c = peek c >>= λ t. if test t then ok (advance c) else unexpected t

unfoldable pub check_keyword : SqlKeywords → Cursor → Result Cursor
unfolding peek
check_keyword k c =
    check_that (λ t. has_type TokenType.keyword t && (keyword_place t.keyword == keyword_place k)) c

unfoldable pub check_operator : SqlOperators → Cursor → Result Cursor
unfolding peek
check_operator o c =
    check_that (λ t. has_type TokenType.operators t && (operator_place t.op == operator_place o)) c

unfoldable pub check_function : SqlFunctions → Cursor → Result Cursor
unfolding peek
check_function g c =
    check_that
      (λ t. has_type TokenType.function t && (function_place t.function == function_place g)) c

unfoldable pub check_string : Str → Cursor → Result Cursor
unfolding peek
check_string s c = check_that (λ t. str_eq t.data_of s) c

unfoldable pub end_by : Str → Cursor → Result (Unit {0})
unfolding check_string peek
end_by s c = do
  c' ← check_string s c
  let left_over : Result (Unit {0}) = peek c' >>= λ t. unexpected t
  if ltb c'.at (size c') then left_over else ok tt

abbrev pub reset : Cursor → Cursor
reset c = record c { at = 0 }

-- The loop of `getStringUntil` over the tokens from the index on. It reads a token before it tests
-- for the end of the vector, which is undefined behaviour.
unfoldable pub string_until : Str → List Token → Result Str
string_until s [] = err undefined
string_until s (t ∷ ts) =
    let rest = string_until s ts in
    if str_eq t.data_of s then ok s else rest >>= λ more. ok (t.data_of ++ more)

unfoldable pub get_string_until : Str → Cursor → Result Str
unfolding string_until
get_string_until s c = string_until s (drop c.at c.tokens)

-- `currentIs` on one type, and on operators.
unfoldable pub current_is_type : TokenType → Cursor → Result Bool
unfolding peek
current_is_type ty c = peek c >>= λ t. ok (has_type ty t)

abbrev pub any_operator : List SqlOperators → SqlOperators → Bool
any_operator [] o = false
any_operator (p ∷ ps) o = (operator_place o == operator_place p) || any_operator ps o

unfoldable pub current_is_operator : List SqlOperators → Cursor → Result Bool
unfolding peek
current_is_operator os c =
    peek c >>= λ t. ok (has_type TokenType.operators t && any_operator os t.op)

abbrev pub first_byte : Str → ℕ
first_byte [] = 0
first_byte (b ∷ bs) = b

unfoldable pub current_is_char : ℕ → Cursor → Result Bool
unfolding peek
current_is_char b c =
    peek c >>= λ t. ok (has_type TokenType.punctuation t && (first_byte t.data_of == b))

-- `currentIs` on a keyword.
unfoldable pub current_is_keyword : SqlKeywords → Cursor → Result Bool
unfolding peek
current_is_keyword k c = peek c >>= λ t.
    ok (has_type TokenType.keyword t && (keyword_place t.keyword == keyword_place k))

-- `consumeType` of a string, of a keyword, of an `int`, and of a function. The two exceptions of
-- `stoi` are one here.
unfoldable pub consume_string : Cursor → Result (Str × Cursor)
unfolding peek
consume_string c = peek c >>= λ t. ok (t.data_of, advance c)

unfoldable pub consume_keyword : Cursor → Result (SqlKeywords × Cursor)
unfolding peek
consume_keyword c =
    peek c >>= λ t. if has_type TokenType.keyword t then ok (t.keyword, advance c) else unexpected t

unfoldable pub consume_int : Cursor → Result (ℤ × Cursor)
unfolding peek stoi
consume_int c = peek c >>= λ t.
    if has_type TokenType.number t
    then or_fail (stoi t.data_of) invalid_argument >>= (λ z. ok (z, advance c))
    else unexpected t

unfoldable pub consume_function : Cursor → Result (SqlFunctions × Cursor)
unfolding peek
consume_function c = peek c >>= λ t.
    if has_type TokenType.function t then ok (t.function, advance c) else unexpected t

-- `consumeAttribute`: `none` is false; else the table, the attribute and the cursor.
unfoldable pub consume_attribute : Cursor → Result (Option (Str × Str × Cursor))
unfolding peek consume_string check_one
consume_attribute c = peek c >>= λ t. elim (has_type TokenType.identifier t) [
  | false ↦ ok none
  | true ↦ do
    (name, c1) ← consume_string c
    next ← peek c1
    elim (str_eq next.data_of (codes ".")) [
      | true ↦ do
        c2 ← check_one c1
        (attribute, c3) ← consume_string c2
        ok (some (name, attribute, c3))
      | false ↦ ok (some ([], name, c1))
    ]
]
