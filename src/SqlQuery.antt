-- ===== src/SqlQuery.antt =====
-- core/storage/sql_query: what a statement asks of a table, as its parser builds it up. A
-- `WhereExpression` is the expression that it keeps.
pub mod Headers
use csql.Base.{ℕ, Bool, true, false, List, [], ◌∷◌, ◌++◌, if◌then◌else◌, Str, codes, str_eq}
use csql.Base.Int.{ℤ, pos}
use csql.Base.Result.{Result, ok, err, errors, undefined, ◌>>=◌}
use csql.Expression.{Expression, empty_where}
use csql.Expression.Aggregates.{TargetExpression, normal}
use csql.Joins.{JoinExpression}

pub data OrderType : Type 0 where
  asc desc : OrderType

pub record OrderCondition : Type 0 where
  pub table_name : Str
  pub attribute_name : Str
  pub order_type : OrderType

-- The fields are in the order of the class.
pub record SqlQuery : Type 0 where
  pub is_selected_all : Bool
  pub is_group_by : Bool
  pub is_order_by : Bool
  pub is_limit : Bool
  pub is_joined : Bool
  pub is_aggregated : Bool
  pub headers : List Str
  pub entity_name : Str
  pub targets : List TargetExpression
  pub where_expression : Expression
  pub group_conditions : List (Str × Str)
  pub order_conditions : List OrderCondition
  pub limit_condition : ℤ × ℤ
  pub list_join : List JoinExpression

abbrev pub new_query : SqlQuery
new_query = record {
  is_selected_all = true;
  is_group_by = false;
  is_order_by = false;
  is_limit = false;
  is_joined = false;
  is_aggregated = false;
  headers = [];
  entity_name = [];
  targets = [];
  where_expression = empty_where;
  group_conditions = [];
  order_conditions = [];
  limit_condition = (pos 1000000000, pos 0);
  list_join = [];
}

abbrev pub set_entity_name : SqlQuery → Str → SqlQuery
set_entity_name q name = record q { entity_name = name }

-- The loop of `addHeader`.
unfoldable pub has_header : Str → List Str → Bool
has_header name [] = false
has_header name (h ∷ hs) = let rest = has_header name hs in if str_eq h name then true else rest

unfoldable pub add_header : SqlQuery → Str → Result SqlQuery
unfolding has_header
add_header q name =
    if has_header name q.headers
    then err (errors (codes "Column name is duplicated"))
    else ok (record q { headers = q.headers ++ name ∷ [] })

-- `addTarget` of an expression with its column's name, and of an attribute of a table.
unfoldable pub add_target : SqlQuery → TargetExpression → Str → Result SqlQuery
unfolding add_header
add_target q t name =
    add_header
      (record q { targets = q.targets ++ t ∷ []; is_selected_all = false; is_aggregated = true })
      name

unfoldable pub add_attribute_target : SqlQuery → Str → Str → Result SqlQuery
unfolding add_header
add_attribute_target q entity_name attribute_name =
    add_header
      (record q {
        targets = q.targets ++ normal entity_name attribute_name ∷ [];
        is_selected_all = false;
      })
      (entity_name ++ codes "." ++ attribute_name)

abbrev pub set_where_expression : SqlQuery → Expression → SqlQuery
set_where_expression q w = record q { where_expression = w }

abbrev pub name_or : Str → Str → Str
name_or [] other = other
name_or (b ∷ bs) other = b ∷ bs

unfoldable pub add_group_condition : SqlQuery → Str → Str → SqlQuery
add_group_condition q entity_name attribute_name = record q {
  group_conditions = q.group_conditions ++ (name_or entity_name q.entity_name, attribute_name) ∷ [];
  is_group_by = true;
}

unfoldable pub add_order_condition : SqlQuery → Str → Str → OrderType → SqlQuery
add_order_condition q entity_name attribute_name order_type =
    let condition : OrderCondition = record {
      table_name = entity_name;
      attribute_name = attribute_name;
      order_type = order_type;
    } in
    record q { order_conditions = q.order_conditions ++ condition ∷ []; is_order_by = true }

abbrev pub set_limit : SqlQuery → ℤ → ℤ → SqlQuery
set_limit q limit offset = record q { limit_condition = (limit, offset); is_limit = true }

abbrev pub add_join_expression : SqlQuery → JoinExpression → SqlQuery
add_join_expression q j = record q { list_join = q.list_join ++ j ∷ []; is_joined = true }

-- The loop of `getTarget`: a header without a target at its place is undefined behaviour.
unfoldable pub find_target : Str → List Str → List TargetExpression → Result TargetExpression
find_target name [] ts = err (errors (codes "Column name not found"))
find_target name (h ∷ hs) [] =
    let rest = find_target name hs [] in if str_eq h name then err undefined else rest
find_target name (h ∷ hs) (t ∷ ts) =
    let rest = find_target name hs ts in if str_eq h name then ok t else rest

unfoldable pub get_target : SqlQuery → Str → Result TargetExpression
unfolding find_target
get_target q name = find_target name q.headers q.targets

pub record UpdateQuery : Type 0 where
  pub entity_name : Str
  pub updates_list : List (Str × Expression)
  pub where_expression : Expression

abbrev pub new_update : UpdateQuery
new_update = record { entity_name = []; updates_list = []; where_expression = empty_where }

abbrev pub add_update : UpdateQuery → Str → Expression → UpdateQuery
add_update q name e = record q { updates_list = q.updates_list ++ (name, e) ∷ [] }
