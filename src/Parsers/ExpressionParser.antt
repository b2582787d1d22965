-- ===== src/Parsers/ExpressionParser.antt =====
-- core/controller/tokenizer/expression_parser: expressions by two stacks, of the expressions made
-- and of the operators that wait.
pub mod Rounds
pub mod Stacks
pub mod Steps
pub mod Terminates
pub mod Precedence
use csql.Base.{
  ℕ, zero, suc, ◌+◌, Bool, true, false, ◌&&◌, ◌||◌, Option, none, some, List, [], ◌∷◌, ◌++◌, leb,
  ◌==◌, if◌then◌else◌, Str, codes, str_eq,
}
use csql.Base.Assoc.{mem, nat_eq}
use csql.Base.Result.{Result, ok, err, errors, undefined, no_fuel, ◌>>=◌, ◌>>◌}
use csql.Types.{DataTypes, SqlTypes, Floats}
use csql.Convert.{covert_string_to_sql_type}
use csql.Functions.{FunctionTypes}
use csql.Operators.{ArithmeticOperator, BinaryOperator, OtherOperator, SetTypes, UnaryOperator}
use csql.Expression.{
  Expression, attribute, value, binary, arithmetic, unary, other, call, Parameters, no_more, param,
  make_set,
}
use csql.Tokenizer.{TokenType, Token}
use csql.Tokenizer.Keywords.{SqlKeywords, SqlFunctions, SqlOperators}
use csql.Tokenizer.Cursor.{
  Cursor, peek, get, check_one, check_operator, check_string, current_is_operator, current_is_char,
  current_is_type, consume_function, consume_attribute, has_type, unexpected, keyword_place,
  operator_place,
}

-- `covertTokenToSqlType`; 46 is the point.
unfoldable pub covert_token_to_sql_type : Floats → Token → Result SqlTypes
unfolding covert_string_to_sql_type mem
covert_token_to_sql_type f t =
    if has_type TokenType.number t
    then covert_string_to_sql_type f
        (if mem 46 t.data_of then DataTypes.float_type else DataTypes.int_type) t.data_of
    else if has_type TokenType.keyword t
        && ((keyword_place t.keyword == keyword_place SqlKeywords.true_kw)
            || (keyword_place t.keyword == keyword_place SqlKeywords.false_kw))
    then covert_string_to_sql_type f DataTypes.bool_type t.data_of
    else if has_type TokenType.string t
    then covert_string_to_sql_type f DataTypes.varchar_type t.data_of
    else unexpected t

unfoldable pub get_priority : SqlOperators → ℕ
get_priority SqlOperators.multiply_op = 5
get_priority SqlOperators.divide_op = 5
get_priority SqlOperators.mod_op = 5
get_priority SqlOperators.add_op = 4
get_priority SqlOperators.subtract_op = 4
get_priority SqlOperators.equal_op = 3
get_priority SqlOperators.not_equal_op = 3
get_priority SqlOperators.gt_op = 3
get_priority SqlOperators.gte_op = 3
get_priority SqlOperators.lt_op = 3
get_priority SqlOperators.lte_op = 3
get_priority SqlOperators.not_op = 2
get_priority SqlOperators.like_op = 2
get_priority SqlOperators.in_op = 2
get_priority SqlOperators.between_op = 2
get_priority SqlOperators.not_like_op = 2
get_priority SqlOperators.not_in_op = 2
get_priority SqlOperators.not_between_op = 2
get_priority SqlOperators.and_op = 1
get_priority SqlOperators.or_op = 1
get_priority _ = 0

-- The mappings of operators of two operands.
unfoldable pub combine : SqlOperators → Expression → Expression → Option Expression
combine SqlOperators.equal_op l r = some (binary BinaryOperator.equal l r)
combine SqlOperators.not_equal_op l r = some (binary BinaryOperator.not_equal l r)
combine SqlOperators.gt_op l r = some (binary BinaryOperator.greater l r)
combine SqlOperators.gte_op l r = some (binary BinaryOperator.greater_or_equal l r)
combine SqlOperators.lt_op l r = some (binary BinaryOperator.less_than l r)
combine SqlOperators.lte_op l r = some (binary BinaryOperator.less_than_or_equal l r)
combine SqlOperators.and_op l r = some (binary BinaryOperator.logic_and l r)
combine SqlOperators.or_op l r = some (binary BinaryOperator.logic_or l r)
combine SqlOperators.like_op l r = some (binary BinaryOperator.like l r)
combine SqlOperators.not_like_op l r = some (binary BinaryOperator.not_like l r)
combine SqlOperators.add_op l r = some (arithmetic ArithmeticOperator.addition l r)
combine SqlOperators.subtract_op l r = some (arithmetic ArithmeticOperator.subtraction l r)
combine SqlOperators.multiply_op l r = some (arithmetic ArithmeticOperator.multiplication l r)
combine SqlOperators.divide_op l r = some (arithmetic ArithmeticOperator.division l r)
combine SqlOperators.mod_op l r = some (arithmetic ArithmeticOperator.modulus l r)
combine SqlOperators.between_op l r = some (other OtherOperator.between l r)
combine SqlOperators.in_op l r = some (other OtherOperator.in_set l r)
combine SqlOperators.not_between_op l r = some (other OtherOperator.not_between l r)
combine SqlOperators.not_in_op l r = some (other OtherOperator.not_in l r)
combine _ l r = none

-- `functionMapping[ft]`, which makes the first alternative of a name that is missing.
unfoldable pub function_mapping : SqlFunctions → FunctionTypes
function_mapping SqlFunctions.concat_ft = FunctionTypes.concat_ft
function_mapping SqlFunctions.concat_ws_ft = FunctionTypes.concat_ws_ft
function_mapping SqlFunctions.char_length_ft = FunctionTypes.char_length_ft
function_mapping SqlFunctions.char_ft = FunctionTypes.char_ft
function_mapping SqlFunctions.length_ft = FunctionTypes.length_ft
function_mapping SqlFunctions.left_ft = FunctionTypes.left_ft
function_mapping SqlFunctions.locate_ft = FunctionTypes.locate_ft
function_mapping SqlFunctions.lower_ft = FunctionTypes.lower_ft
function_mapping SqlFunctions.substring_ft = FunctionTypes.substring_ft
function_mapping SqlFunctions.replace_ft = FunctionTypes.replace_ft
function_mapping SqlFunctions.right_ft = FunctionTypes.right_ft
function_mapping SqlFunctions.reverse_ft = FunctionTypes.reverse_ft
function_mapping SqlFunctions.trim_ft = FunctionTypes.trim_ft
function_mapping SqlFunctions.upper_ft = FunctionTypes.upper_ft
function_mapping _ = FunctionTypes.ascii_ft

-- `exeOp`: the top of an empty stack is undefined.
unfoldable pub push_made : Option Expression → List Expression → List Expression
push_made none result = result
push_made (some e) result = e ∷ result

unfoldable pub exe_op : SqlOperators → List Expression → Result (List Expression)
unfolding combine push_made
exe_op SqlOperators.not_op (e ∷ result) = ok (unary UnaryOperator.is_not e ∷ result)
exe_op SqlOperators.not_op [] = err undefined
exe_op op (r ∷ l ∷ result) = ok (push_made (combine op l r) result)
exe_op op _ = err undefined

-- The loops that take operators from their stack: to the parenthesis, while they bind as tightly,
-- and to the end.
unfoldable pub unwind :
    List SqlOperators → List Expression → Result (List SqlOperators × List Expression)
unfolding exe_op
unwind [] result = err (errors (codes "Invalid expression"))
unwind (op ∷ ops) result =
    elim (operator_place op == operator_place SqlOperators.open_parenthesis) [
      | true ↦ ok (ops, result)
      | false ↦ exe_op op result >>= λ more. unwind ops more
    ]

unfoldable pub settle :
    ℕ → List SqlOperators → List Expression → Result (List SqlOperators × List Expression)
unfolding exe_op get_priority
settle p [] result = ok ([], result)
settle p (op ∷ ops) result = elim (leb p (get_priority op)) [
  | true ↦ exe_op op result >>= λ more. settle p ops more
  | false ↦ ok (op ∷ ops, result)
]

unfoldable pub drain : List SqlOperators → List Expression → Result (List Expression)
unfolding exe_op
drain [] result = ok result
drain (op ∷ ops) result = exe_op op result >>= λ more. drain ops more

pub record Parsing : Type 0 where
  pub cursor : Cursor
  pub result : List Expression
  pub ops : List SqlOperators

-- `isContinued`
unfoldable pub is_parenthesis : Token → Bool
is_parenthesis t =
    has_type TokenType.punctuation t
    && ((keyword_place t.keyword == keyword_place SqlKeywords.unkonwn_kw)
        && (operator_place t.op == operator_place SqlOperators.unknown_op))
    && (str_eq t.data_of (codes "(") || str_eq t.data_of (codes ")"))

unfoldable pub is_continued : Str → Cursor → Result Bool
unfolding peek is_parenthesis
is_continued end_token c = peek c >>= λ t. ok (
    if str_eq t.data_of end_token
    then false
    else (has_type TokenType.identifier t
        || has_type TokenType.number t
        || has_type TokenType.operators t
        || has_type TokenType.string t
        || has_type TokenType.timedate t
        || has_type TokenType.function t
        || is_parenthesis t))

unfoldable pub skip_comma : Cursor → Result Cursor
unfolding current_is_char check_one
skip_comma c = current_is_char 44 c >>= λ comma. if comma then check_one c else ok c

-- The two ends of BETWEEN, with `+` between them.
unfoldable pub parse_range : Floats → Cursor → Result (List SqlTypes × Cursor)
unfolding get covert_token_to_sql_type check_operator
parse_range f c = do
  (t, c1) ← get c
  low ← covert_token_to_sql_type f t
  c2 ← check_operator SqlOperators.add_op c1
  (u, c3) ← get c2
  high ← covert_token_to_sql_type f u
  ok (low ∷ high ∷ [], c3)

-- The values of IN up to the bracket; each takes a token, so that one round of fuel for each token
-- left, and one more, is enough.
unfoldable pub parse_set : Floats → ℕ → Cursor → Result (List SqlTypes × Cursor)
unfolding current_is_char get covert_token_to_sql_type skip_comma
parse_set f zero c = err no_fuel
parse_set f (suc fuel) c = current_is_char 93 c >>= λ closed. elim closed [
  | true ↦ ok ([], c)
  | false ↦ do
    (t, c1) ← get c
    v ← covert_token_to_sql_type f t
    c2 ← skip_comma c1
    (vs, c3) ← parse_set f fuel c2
    ok (v ∷ vs, c3)
]

abbrev pub between_names : List SqlOperators
between_names = SqlOperators.between_op ∷ SqlOperators.in_op ∷ SqlOperators.like_op ∷ []

-- BETWEEN, IN and LIKE, after NOT if `negated`.
unfoldable pub parse_test : Floats → ℕ → Bool → Parsing → Result Parsing
unfolding current_is_operator check_one parse_range check_string parse_set make_set
parse_test f fuel negated s = do
  is_between ← current_is_operator (SqlOperators.between_op ∷ []) s.cursor
  is_in ← current_is_operator (SqlOperators.in_op ∷ []) s.cursor
  c1 ← check_one s.cursor
  elim is_between [
    | true ↦ do
      (range, c2) ← parse_range f c1
      e ← make_set SetTypes.range range
      ok (record {
        cursor = c2;
        result = e ∷ s.result;
        ops = (if negated then SqlOperators.not_between_op else SqlOperators.between_op) ∷ s.ops;
      })
    | false ↦ elim is_in [
      | true ↦ do
        c2 ← check_string (codes "[") c1
        (set, c3) ← parse_set f fuel c2
        c4 ← check_string (codes "]") c3
        e ← make_set SetTypes.list set
        ok (record {
          cursor = c4;
          result = e ∷ s.result;
          ops = (if negated then SqlOperators.not_in_op else SqlOperators.in_op) ∷ s.ops;
        })
      | false ↦ ok (record s {
        cursor = c1;
        ops = (if negated then SqlOperators.not_like_op else SqlOperators.like_op) ∷ s.ops;
      })
    ]
  ]

-- The branch of NOT, BETWEEN, IN and LIKE.
unfoldable pub parse_not : Floats → ℕ → Parsing → Result Parsing
unfolding current_is_operator check_one parse_test
parse_not f fuel s = current_is_operator (SqlOperators.not_op ∷ []) s.cursor >>= λ negated.
    elim negated [
      | false ↦ parse_test f fuel false s
      | true ↦ do
        c ← check_one s.cursor
        test ← current_is_operator between_names c
        elim test [
          | true ↦ parse_test f fuel true (record s { cursor = c })
          | false ↦ ok (record s { cursor = c; ops = SqlOperators.not_op ∷ s.ops })
        ]
    ]

-- The branch of the other operators.
unfoldable pub parse_operator : Parsing → Result Parsing
unfolding peek get_priority settle check_one
parse_operator s = do
  t ← peek s.cursor
  (ops, result) ← settle (get_priority t.op) s.ops s.result
  c ← check_one s.cursor
  ok (record { cursor = c; result = result; ops = t.op ∷ ops })

abbrev pub close : Parsing → Result Parsing
close s = do
  c ← check_one s.cursor
  (ops, result) ← unwind s.ops s.result
  ok (record { cursor = c; result = result; ops = ops })

abbrev pub parse_value : Floats → Parsing → Result Parsing
parse_value f s = do
  (t, c) ← get s.cursor
  v ← covert_token_to_sql_type f t
  ok (record s { cursor = c; result = value v ∷ s.result })

-- The branches of the loop at a token that is neither an identifier nor a function.
unfoldable pub parse_token : Floats → ℕ → Parsing → Result Parsing
unfolding current_is_char check_one unwind current_is_operator current_is_type parse_not
    parse_operator get covert_token_to_sql_type
parse_token f fuel s = do
  opens ← current_is_char 40 s.cursor
  closes ← current_is_char 41 s.cursor
  tests ← current_is_operator (SqlOperators.not_op ∷ between_names) s.cursor
  operates ← current_is_type TokenType.operators s.cursor
  elim opens [
    | true ↦ do
      c ← check_one s.cursor
      ok (record s { cursor = c; ops = SqlOperators.open_parenthesis ∷ s.ops })
    | false ↦ elim closes [
      | true ↦ close s
      | false ↦ elim tests [
        | true ↦ parse_not f fuel s
        | false ↦ elim operates [ true ↦ parse_operator s | false ↦ parse_value f s ]
      ]
    ]
  ]

-- The end of `parse`.
unfoldable pub one_result : Parsing → Result (Expression × Cursor)
unfolding drain
one_result s = drain s.ops s.result >>= λ result. elim result [
  | [] ↦ err (errors (codes "Invalid expression"))
  | e ∷ es ↦ elim es [ [] ↦ ok (e, s.cursor) | d ∷ ds ↦ err (errors (codes "Invalid expression")) ]
]

-- `parse`, its loop, and the loop over the parameters of a function. The source loops and recurs;
-- each round and each call takes one of the fuel.
unfoldable mutual
  unfolding is_continued consume_attribute current_is_type consume_function check_string skip_comma
      current_is_char function_mapping parse_token one_result

  pub parse_loop : Floats → ℕ → Str → Parsing → Result Parsing
  parse_loop f zero end_token s = err no_fuel
  parse_loop f (suc fuel) end_token s = is_continued end_token s.cursor >>= λ more. elim more [
    | false ↦ ok s
    | true ↦ consume_attribute s.cursor >>= λ named. elim named [
      | some found ↦
          parse_loop f fuel end_token
            (record s { cursor = found.2; result = attribute found.0 found.1 ∷ s.result })
      | none ↦ current_is_type TokenType.function s.cursor >>= λ calls. elim calls [
        | false ↦ parse_token f fuel s >>= λ s'. parse_loop f fuel end_token s'
        | true ↦ do
          (ft, c1) ← consume_function s.cursor
          c2 ← check_string (codes "(") c1
          (ps, c3) ← parse_parameters f fuel c2
          c4 ← check_string (codes ")") c3
          parse_loop f fuel end_token
              (record s { cursor = c4; result = call (function_mapping ft) ps ∷ s.result })
      ]
    ]
  ]

  pub parse_parameters : Floats → ℕ → Cursor → Result (Parameters × Cursor)
  parse_parameters f zero c = err no_fuel
  parse_parameters f (suc fuel) c = current_is_char 41 c >>= λ closed. elim closed [
    | true ↦ ok (no_more, c)
    | false ↦ do
      (e, c1) ← parse f fuel (codes ")") c
      c2 ← skip_comma c1
      (ps, c3) ← parse_parameters f fuel c2
      ok (param e ps, c3)
  ]

  pub parse : Floats → ℕ → Str → Cursor → Result (Expression × Cursor)
  parse f zero end_token c = err no_fuel
  parse f (suc fuel) end_token c =
      parse_loop f fuel end_token (record { cursor = c; result = []; ops = [] }) >>= λ s.
      one_result s
