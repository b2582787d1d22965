-- ===== src/Parsers/Selecting.antt =====
-- core/controller/parsers/sql_parser: the statements that select, delete and update. `fuel` is for
-- the expressions and for the loops, of which a round takes a token at least.
pub mod Columns
pub mod Clauses
pub mod Ends
use csql.Base.{
  ℕ, zero, suc, ◌≡◌, Bool, true, false, ◌&&◌, ◌||◌, Option, none, some, List, [], ◌∷◌, ◌++◌, ◌==◌,
  if◌then◌else◌, Str, codes, str_eq,
}
use csql.Base.Int.{ℤ, pos}
use csql.Base.Result.{Result, ok, err, errors, no_fuel, ◌>>=◌}
use csql.Types.{sql_bool, Floats}
use csql.Expression.{Expression, value, empty_where}
use csql.Expression.Aggregates.{
  TargetExpression, normal, sum, avg, count, count_all, max, min, group_concat,
}
use csql.Joins.{JoinTypes, JoinExpression}
use csql.SqlQuery.{
  SqlQuery, UpdateQuery, OrderType, new_query, new_update, set_entity_name, add_target,
  set_where_expression, add_group_condition, add_order_condition, set_limit, add_join_expression,
  add_update,
}
use csql.Tokenizer.{TokenType}
use csql.Tokenizer.Keywords.{SqlKeywords, SqlFunctions}
use csql.Tokenizer.Cursor.{
  Cursor, peek, check_one, check_keyword, check_string, end_by, current_is_type, current_is_char,
  current_is_keyword, consume_string, consume_keyword, consume_int, consume_function,
  consume_attribute, get_string_until, function_place,
}
use csql.Parsers.Targets.{terminate_check, skip_keyword, read_select}
use csql.Parsers.ExpressionParser.{parse}
use csql.Parsers.Statements.{Statement, select, delete_tuples, update, Factory}

-- The join that a keyword begins.
unfoldable pub join_type_of : SqlKeywords → Option JoinTypes
join_type_of SqlKeywords.inner_kw = some JoinTypes.inner
join_type_of SqlKeywords.left_kw = some JoinTypes.left
join_type_of SqlKeywords.right_kw = some JoinTypes.right
join_type_of SqlKeywords.full_kw = some JoinTypes.full
join_type_of SqlKeywords.cross_kw = some JoinTypes.cross
join_type_of _ = none

-- The condition of a join; a cross join has none, and holds of all.
unfoldable pub read_condition :
    Floats → ℕ → JoinTypes → Str → SqlQuery → Cursor → Result (SqlQuery × Cursor)
unfolding check_keyword parse
read_condition f fuel JoinTypes.cross name q c = ok (
  add_join_expression q (record {
    expression = value (sql_bool true);
    join_type = JoinTypes.cross;
    target_entity_name = name;
  }),
  c,
)
read_condition f fuel kind name q c = do
  c1 ← check_keyword SqlKeywords.on_kw c
  (e, c2) ← parse f fuel [] c1
  let join : JoinExpression = record { expression = e; join_type = kind; target_entity_name = name }
  ok (add_join_expression q join, c2)

-- The token's join, if it is a keyword of one.
unfoldable pub current_join : Cursor → Result (Option JoinTypes)
unfolding peek join_type_of current_is_type
current_join c = do
  t ← peek c
  keyword ← current_is_type TokenType.keyword c
  ok (if keyword then join_type_of t.keyword else none)

-- `while (makeJoinExpression(...));`
unfoldable pub make_join_expressions : Floats → ℕ → SqlQuery → Cursor → Result (SqlQuery × Cursor)
unfolding current_join check_one check_keyword consume_string read_condition
make_join_expressions f zero q c = err no_fuel
make_join_expressions f (suc fuel) q c = current_join c >>= λ join. elim join [
  | none ↦ ok (q, c)
  | some kind ↦ do
    c1 ← check_one c
    c2 ← check_keyword SqlKeywords.join_kw c1
    (name, c3) ← consume_string c2
    (q', c4) ← read_condition f fuel kind name q c3
    make_join_expressions f fuel q' c4
]

-- What WHERE asks for; everything, if there is none.
unfoldable pub make_where_expression : Floats → ℕ → Cursor → Result (Expression × Cursor)
unfolding skip_keyword parse
make_where_expression f fuel c = skip_keyword SqlKeywords.where_kw c >>= λ r. elim r.0 [
  | true ↦ parse f fuel [] r.1
  | false ↦ ok (empty_where, r.1)
]

-- The names that `consumeAttribute` was to set, and the cursor.
abbrev pub name_or_none : Cursor → Option (Str × Str × Cursor) → Str × Str × Cursor
name_or_none c none = ([], [], c)
name_or_none c (some found) = found

-- The loop of GROUP BY. A token that is no name groups by two empty names.
unfoldable pub read_groups : ℕ → SqlQuery → Cursor → Result (SqlQuery × Cursor)
unfolding terminate_check consume_attribute add_group_condition check_string
read_groups zero q c = err no_fuel
read_groups (suc fuel) q c = terminate_check c >>= λ ended. elim ended [
  | true ↦ ok (q, c)
  | false ↦ consume_attribute c >>= λ named.
      let found = name_or_none c named in
      let q' = add_group_condition q found.0 found.1 in
      terminate_check found.2 >>= λ last. elim last [
        | true ↦ ok (q', found.2)
        | false ↦ check_string (codes ",") found.2 >>= λ c'. read_groups fuel q' c'
      ]
]

unfoldable pub read_group_by : ℕ → SqlQuery → Cursor → Result (SqlQuery × Cursor)
unfolding skip_keyword check_keyword read_groups
read_group_by fuel q c = skip_keyword SqlKeywords.group_kw c >>= λ r. elim r.0 [
  | true ↦ check_keyword SqlKeywords.by_kw r.1 >>= λ c'. read_groups fuel q c'
  | false ↦ ok (q, r.1)
]

unfoldable pub read_order_type : Cursor → Result (OrderType × Cursor)
unfolding skip_keyword
read_order_type c = skip_keyword SqlKeywords.desc_kw c >>= λ r. elim r.0 [
  | true ↦ ok (OrderType.desc, r.1)
  | false ↦ skip_keyword SqlKeywords.asc_kw r.1 >>= λ s. ok (OrderType.asc, s.1)
]

-- The loop of ORDER BY.
unfoldable pub read_orders : ℕ → SqlQuery → Cursor → Result (SqlQuery × Cursor)
unfolding consume_attribute read_order_type add_order_condition current_is_char check_string
read_orders zero q c = err no_fuel
read_orders (suc fuel) q c = consume_attribute c >>= λ named. elim named [
  | none ↦ ok (q, c)
  | some found ↦ do
    (kind, c1) ← read_order_type found.2
    comma ← current_is_char 44 c1
    c2 ← (if comma then check_string (codes ",") c1 else ok c1)
    read_orders fuel (add_order_condition q found.0 found.1 kind) c2
]

unfoldable pub read_order_by : ℕ → SqlQuery → Cursor → Result (SqlQuery × Cursor)
unfolding skip_keyword check_keyword read_orders
read_order_by fuel q c = skip_keyword SqlKeywords.order_kw c >>= λ r. elim r.0 [
  | true ↦ check_keyword SqlKeywords.by_kw r.1 >>= λ c'. read_orders fuel q c'
  | false ↦ ok (q, r.1)
]

unfoldable pub read_offset : Cursor → Result (ℤ × Cursor)
unfolding skip_keyword consume_int
read_offset c = skip_keyword SqlKeywords.offset_kw c >>= λ r. elim r.0 [
  | true ↦ consume_int r.1
  | false ↦ ok (pos 0, r.1)
]

unfoldable pub read_limit : SqlQuery → Cursor → Result (SqlQuery × Cursor)
unfolding skip_keyword consume_int read_offset
read_limit q c = skip_keyword SqlKeywords.limit_kw c >>= λ r. elim r.0 [
  | true ↦ do
    (limit, c1) ← consume_int r.1
    (offset, c2) ← read_offset c1
    ok (set_limit q limit offset, c2)
  | false ↦ ok (q, r.1)
]

unfoldable pub select_statement : Floats → ℕ → Factory
unfolding check_keyword read_select consume_string make_join_expressions make_where_expression
    read_group_by read_order_by read_limit end_by
select_statement f fuel c = do
  c1 ← check_keyword SqlKeywords.select_kw c
  (q1, c2) ← read_select f fuel new_query c1
  c3 ← check_keyword SqlKeywords.from_kw c2
  (entity, c4) ← consume_string c3
  (q2, c5) ← make_join_expressions f fuel (set_entity_name q1 entity) c4
  (condition, c6) ← make_where_expression f fuel c5
  (q3, c7) ← read_group_by fuel (set_where_expression q2 condition) c6
  (q4, c8) ← read_order_by fuel q3 c7
  (q5, c9) ← read_limit q4 c8
  done ← end_by (codes ";") c9
  ok (some (select q5))

unfoldable pub delete_tuples_statement : Floats → ℕ → Factory
unfolding check_keyword consume_string make_where_expression end_by
delete_tuples_statement f fuel c = do
  c1 ← check_keyword SqlKeywords.delete_kw c
  c2 ← check_keyword SqlKeywords.from_kw c1
  (entity, c3) ← consume_string c2
  (condition, c4) ← make_where_expression f fuel c3
  done ← end_by (codes ";") c4
  ok (some (delete_tuples (set_where_expression (set_entity_name new_query entity) condition)))

-- The loop of UPDATE over the attributes to set.
unfoldable pub read_updates : Floats → ℕ → UpdateQuery → Cursor → Result (UpdateQuery × Cursor)
unfolding consume_string check_string parse current_is_char current_is_keyword
read_updates f zero q c = err no_fuel
read_updates f (suc fuel) q c = do
  (name, c1) ← consume_string c
  c2 ← check_string (codes "=") c1
  (e, c3) ← parse f fuel [] c2
  semicolon ← current_is_char 59 c3
  condition ← current_is_keyword SqlKeywords.where_kw c3
  elim (semicolon || condition) [
    | true ↦ ok (add_update q name e, c3)
    | false ↦ check_string (codes ",") c3 >>= λ c4. read_updates f fuel (add_update q name e) c4
  ]

unfoldable pub update_statement : Floats → ℕ → Factory
unfolding check_keyword consume_string read_updates make_where_expression end_by
update_statement f fuel c = do
  c1 ← check_keyword SqlKeywords.update_kw c
  (entity, c2) ← consume_string c1
  c3 ← check_keyword SqlKeywords.set_kw c2
  (q, c4) ← read_updates f fuel (record new_update { entity_name = entity }) c3
  (condition, c5) ← make_where_expression f fuel c4
  done ← end_by (codes ";") c5
  ok (some (update (record q { where_expression = condition })))
