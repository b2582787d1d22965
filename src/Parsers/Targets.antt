-- ===== src/Parsers/Targets.antt =====
-- core/controller/parsers/sql_parser: the targets of a SELECT. `fuel` is for the expressions and for
-- the loop, of which a round takes a token at least.
pub mod Headers
pub mod Ends
use csql.Base.{
  ℕ, zero, suc, ◌≡◌, Bool, true, false, ◌&&◌, ◌||◌, Option, none, some, List, [], ◌∷◌, ◌++◌, ◌==◌,
  if◌then◌else◌, Str, codes, str_eq,
}
use csql.Base.Int.{ℤ, pos}
use csql.Base.Result.{Result, ok, err, errors, no_fuel, ◌>>=◌}
use csql.Types.{sql_bool, Floats}
use csql.Expression.{Expression, value, empty_where}
use csql.Expression.Aggregates.{
  TargetExpression, normal, sum, avg, count, count_all, max, min, group_concat,
}
use csql.Joins.{JoinTypes, JoinExpression}
use csql.SqlQuery.{
  SqlQuery, UpdateQuery, OrderType, new_query, new_update, set_entity_name, add_target,
  set_where_expression, add_group_condition, add_order_condition, set_limit, add_join_expression,
  add_update,
}
use csql.Tokenizer.{TokenType}
use csql.Tokenizer.Keywords.{SqlKeywords, SqlFunctions}
use csql.Tokenizer.Cursor.{
  Cursor, peek, check_one, check_keyword, check_string, end_by, current_is_type, current_is_char,
  current_is_keyword, consume_string, consume_keyword, consume_int, consume_function,
  consume_attribute, get_string_until, function_place,
}
use csql.Parsers.ExpressionParser.{parse}
use csql.Parsers.Statements.{Statement, select, delete_tuples, update, Factory}

-- `terminateCheck`
unfoldable pub terminate_check : Cursor → Result Bool
unfolding current_is_type current_is_char
terminate_check c = do
  keyword ← current_is_type TokenType.keyword c
  semicolon ← current_is_char 59 c
  ok (keyword || semicolon)

-- A keyword that may stand here, and is passed if it does.
unfoldable pub skip_keyword : SqlKeywords → Cursor → Result (Bool × Cursor)
unfolding current_is_keyword check_one
skip_keyword k c = current_is_keyword k c >>= λ here. elim here [
  | true ↦ check_one c >>= λ c'. ok (true, c')
  | false ↦ ok (false, c)
]

-- The separator of GROUP_CONCAT.
unfoldable pub read_split : Cursor → Result (Str × Cursor)
unfolding current_is_char check_one consume_string
read_split c = current_is_char 44 c >>= λ comma. elim comma [
  | true ↦ check_one c >>= λ c1. consume_string c1
  | false ↦ ok (codes ",", c)
]

-- The `switch` on the function.
unfoldable pub make_aggregate :
    SqlFunctions → Expression → Cursor → Result (TargetExpression × Cursor)
unfolding read_split
make_aggregate SqlFunctions.count_ft e c = ok (count e, c)
make_aggregate SqlFunctions.sum_ft e c = ok (sum e, c)
make_aggregate SqlFunctions.avg_ft e c = ok (avg e, c)
make_aggregate SqlFunctions.max_ft e c = ok (max e, c)
make_aggregate SqlFunctions.min_ft e c = ok (min e, c)
make_aggregate SqlFunctions.group_concat_ft e c = read_split c >>= λ r. ok (group_concat e r.0, r.1)
make_aggregate _ e c = err (errors (codes "Function not found"))

-- What the parentheses of an aggregate hold.
unfoldable pub read_aggregate :
    Floats → ℕ → SqlFunctions → Cursor → Result (TargetExpression × Cursor)
unfolding peek check_one parse make_aggregate
read_aggregate f fuel ft c = peek c >>= λ t.
    elim ((function_place ft == function_place SqlFunctions.count_ft)
      && str_eq t.data_of (codes "*")) [
        | true ↦ check_one c >>= λ c'. ok (count_all, c')
        | false ↦ do (e, c') ← parse f fuel (codes ")") c; make_aggregate ft e c'
      ]

abbrev pub column_name : Str → Str → Str
column_name [] s2 = s2
column_name (b ∷ bs) s2 = b ∷ bs ++ codes "." ++ s2

-- A target with the name of its column: an attribute, or an aggregate.
unfoldable pub read_target : Floats → ℕ → Cursor → Result (TargetExpression × Str × Cursor)
unfolding consume_attribute get_string_until consume_function check_string read_aggregate
read_target f fuel c = consume_attribute c >>= λ named. elim named [
  | some found ↦ ok (normal found.0 found.1, column_name found.0 found.1, found.2)
  | none ↦ do
    name ← get_string_until (codes ")") c
    (ft, c1) ← consume_function c
    c2 ← check_string (codes "(") c1
    (t, c3) ← read_aggregate f fuel ft c2
    c4 ← check_string (codes ")") c3
    ok (t, name, c4)
]

-- AS, if it is there, gives the column another name.
unfoldable pub read_name : Str → Cursor → Result (Str × Cursor)
unfolding skip_keyword consume_string
read_name name c = skip_keyword SqlKeywords.as_kw c >>= λ r. elim r.0 [
  | true ↦ consume_string r.1
  | false ↦ ok (name, r.1)
]

unfoldable pub read_targets : Floats → ℕ → SqlQuery → Cursor → Result (SqlQuery × Cursor)
unfolding terminate_check read_target read_name add_target check_string
read_targets f zero q c = err no_fuel
read_targets f (suc fuel) q c = terminate_check c >>= λ ended. elim ended [
  | true ↦ ok (q, c)
  | false ↦ do
    (t, column, c1) ← read_target f fuel c
    (name, c2) ← read_name column c1
    q' ← add_target q t name
    last ← terminate_check c2
    elim last [
      | true ↦ ok (q', c2)
      | false ↦ check_string (codes ",") c2 >>= λ c3. read_targets f fuel q' c3
    ]
]

-- The part of SELECT up to FROM.
unfoldable pub read_select : Floats → ℕ → SqlQuery → Cursor → Result (SqlQuery × Cursor)
unfolding peek check_one read_targets
read_select f fuel q c = peek c >>= λ t. elim (str_eq t.data_of (codes "*")) [
  | true ↦ check_one c >>= λ c'. ok (q, c')
  | false ↦ read_targets f fuel q c
]
