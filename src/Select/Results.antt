-- ===== src/Select/Results.antt =====
-- core/storage/database/select.cpp: from the rows of a query to what it shows. The order in which a
-- `std::unordered_map` gives its groups, and `std::sort`, are the library's: they are fields of
-- `Library`.
use csql.Base.{
  ℕ, zero, suc, ◌-◌, ◌%◌, ◌^◌, Bool, true, false, not, ◌||◌, Option, none, some, List, [], ◌∷◌,
  ◌++◌, map, ltb, ◌==◌, if◌then◌else◌, get_elem?, length, Str, codes, str_eq,
}
use csql.Base.Assoc.{lookup, pair_eq, str_eq_instance}
use csql.Base.Int.{ℤ, pos, negsuc, eqb_ℤ, ltb_ℤ, ◌+ℤ◌}
use csql.Base.Result.{Result, ok, err, errors, undefined, ◌>>=◌, or_fail}
use csql.Types.{
  SqlTypes, sql_null, sql_int, sql_varchar, sql_bool, sql_datetime, sql_float, sql_key, Floats,
}
use csql.Types.Key.{key_eq}
use csql.Convert.{covert_sql_type_to_string}
use csql.Operators.{JoinedTuple}
use csql.Expression.Aggregates.{TargetExpression, apply_target, value_lt, value_gt}
use csql.Joins.{insert_joined}
use csql.Types.Tuples.{Tuple}
use csql.Select.{JoinedTable, select_rows}
use csql.SqlQuery.{SqlQuery, OrderType, OrderCondition, add_attribute_target}

-- `==` of `std::variant` and of `std::vector`.
unfoldable pub value_eq : Floats → SqlTypes → SqlTypes → Result Bool
value_eq f sql_null sql_null = ok true
value_eq f (sql_int a) (sql_int b) = ok (eqb_ℤ a b)
value_eq f (sql_varchar s) (sql_varchar t) = ok (str_eq s t)
value_eq f (sql_bool true) (sql_bool b) = ok b
value_eq f (sql_bool false) (sql_bool b) = ok (not b)
value_eq f (sql_datetime a) (sql_datetime b) = ok (a == b)
value_eq f (sql_float x) (sql_float y) = ok (f.float_eq x y)
value_eq f (sql_key k) (sql_key l) = key_eq f k l
value_eq f _ _ = ok false

unfoldable pub values_eq : Floats → List SqlTypes → List SqlTypes → Result Bool
unfolding value_eq
values_eq f [] [] = ok true
values_eq f [] (w ∷ ws) = ok false
values_eq f (v ∷ vs) [] = ok false
values_eq f (v ∷ vs) (w ∷ ws) =
    let rest = values_eq f vs ws in value_eq f v w >>= λ b. if b then rest else ok false

abbrev pub or_null : Option SqlTypes → SqlTypes
or_null none = sql_null
or_null (some v) = v

-- `row[...]`, which adds a null for a key that is missing.
unfoldable pub group_of : List (Str × Str) → JoinedTuple → List SqlTypes × JoinedTuple
unfolding insert_joined lookup
group_of [] row = ([], row)
group_of (column ∷ columns) row =
    let row' = insert_joined column sql_null row in
    let rest = group_of columns row' in (or_null (lookup column row') ∷ rest.0, rest.1)

abbrev pub Groups : Type 0
Groups = List (List SqlTypes × List JoinedTuple)

-- `groupMap[group].push_back(row)`
unfoldable pub add_to_group : Floats → List SqlTypes → JoinedTuple → Groups → Result Groups
unfolding values_eq
add_to_group f group row [] = ok ((group, row ∷ []) ∷ [])
add_to_group f group row ((other, rows) ∷ groups) =
    let rest = add_to_group f group row groups in
    values_eq f other group >>= λ same. elim same [
      | true ↦ ok ((other, rows ++ row ∷ []) ∷ groups)
      | false ↦ rest >>= λ groups'. ok ((other, rows) ∷ groups')
    ]

unfoldable pub group_rows : Floats → List (Str × Str) → List JoinedTuple → Groups → Result Groups
unfolding group_of add_to_group
group_rows f columns [] groups = ok groups
group_rows f columns (row ∷ rows) groups =
    let (group, row') = group_of columns row in
    add_to_group f group row' groups >>= λ groups'. group_rows f columns rows groups'

-- The values of the targets on the rows of a group.
unfoldable pub apply_targets :
    Floats → List TargetExpression → List JoinedTuple → Result (List SqlTypes)
unfolding apply_target
apply_targets f [] rows = ok []
apply_targets f (t ∷ ts) rows = do
  v ← apply_target f t rows
  vs ← apply_targets f ts rows
  ok (v ∷ vs)

unfoldable pub each_group :
    Floats → List TargetExpression → List (List JoinedTuple) → Result (List (List SqlTypes))
unfolding apply_targets
each_group f ts [] = ok []
each_group f ts (rows ∷ groups) = do
  data_of_group ← apply_targets f ts rows
  datas ← each_group f ts groups
  ok (data_of_group ∷ datas)

pub record Library : Type 0 where
  pub arrange : Groups → Groups
  pub sort :
      (List SqlTypes → List SqlTypes → Result Bool)
      → List (List SqlTypes)
      → Result (List (List SqlTypes))

abbrev pub rows_of_group : List SqlTypes × List JoinedTuple → List JoinedTuple
rows_of_group g = g.1

abbrev pub alone : JoinedTuple → List JoinedTuple
alone row = row ∷ []

-- GROUP BY
unfoldable pub group_by :
    Floats → Library → SqlQuery → List JoinedTuple → Result (List (List SqlTypes))
unfolding group_rows each_group apply_targets
group_by f lib q rows = elim q.group_conditions [
  | [] ↦
      if q.is_aggregated
      then each_group f q.targets (rows ∷ [])
      else each_group f q.targets (map alone rows)
  | column ∷ columns ↦ group_rows f (column ∷ columns) rows [] >>= λ groups.
      each_group f q.targets (map rows_of_group (lib.arrange groups))
]

-- `getAttributeName`: what stands after the last point; 46 is the point.
unfoldable pub attribute_name_of : Str → Str → Str
attribute_name_of answer [] = answer
attribute_name_of answer (c ∷ header) = elim (c == 46) [
  | true ↦ attribute_name_of [] header
  | false ↦ attribute_name_of (answer ++ c ∷ []) header
]

-- The test of a header for a column of ORDER BY.
unfoldable pub is_column : OrderCondition → Str → Bool
unfolding attribute_name_of
is_column c header = elim c.table_name [
  | [] ↦ str_eq header c.attribute_name || str_eq (attribute_name_of [] header) c.attribute_name
  | b ∷ bs ↦ str_eq header (b ∷ bs ++ codes "." ++ c.attribute_name)
]

unfoldable pub find_column : OrderCondition → ℕ → List Str → Option ℕ
unfolding is_column
find_column c i [] = none
find_column c i (header ∷ headers) =
    let rest = find_column c (suc i) headers in if is_column c header then some i else rest

-- The places of the columns; `flag` is set by the first that is found, and never reset.
unfoldable pub order_ids : Bool → List OrderCondition → List Str → Result (List ℕ)
unfolding find_column
order_ids flag [] headers = ok []
order_ids flag (c ∷ cs) headers = elim (find_column c 0 headers) [
  | some i ↦ order_ids true cs headers >>= λ ids. ok (i ∷ ids)
  | none ↦
      let rest = order_ids flag cs headers in
      if flag then rest else err (errors (codes "Column name not found"))
]

-- The comparison for `std::sort`. The kinds of order are taken from the front, one for each place.
unfoldable pub row_before :
    Floats → List ℕ → List OrderCondition → List SqlTypes → List SqlTypes → Result Bool
unfolding value_eq value_lt value_gt
row_before f (i ∷ ids) (c ∷ cs) a b = do
  v ← or_fail (get_elem? a i) undefined
  w ← or_fail (get_elem? b i) undefined
  same ← value_eq f v w
  elim same [
    | true ↦ row_before f ids cs a b
    | false ↦ elim c.order_type [ OrderType.asc ↦ value_lt f v w | OrderType.desc ↦ value_gt f v w ]
  ]
row_before f _ _ a b = ok false

-- ORDER BY
unfoldable pub order_by :
    Floats → Library → SqlQuery → List (List SqlTypes) → Result (List (List SqlTypes))
unfolding order_ids row_before
order_by f lib q datas = elim q.order_conditions [
  | [] ↦ ok datas
  | c ∷ cs ↦
      order_ids false (c ∷ cs) q.headers >>= λ ids. lib.sort (row_before f ids (c ∷ cs)) datas
]

-- `int(n)` of a number of 64 bits
abbrev pub int_of_size : ℕ → ℤ
int_of_size n =
    let low : ℕ = n % 2 ^ 32 in if ltb low (2 ^ 31) then pos low else negsuc (2 ^ 32 - low - 1)

abbrev pub fits_int : ℤ → Bool
fits_int (pos n) = ltb n (2 ^ 31)
fits_int (negsuc n) = ltb n (2 ^ 31)

-- `n` rounds of the loop, from `start` on.
unfoldable pub limit_loop {ℓ} : {A : Type ℓ} → ℕ → ℕ → List A → Result (List A)
limit_loop start zero datas = ok []
limit_loop start (suc n) datas = do
  data_of_group ← or_fail (get_elem? datas start) undefined
  shown ← limit_loop (suc start) n datas
  ok (data_of_group ∷ shown)

-- The loop while `start` is less than `end`; a negative `start` is outside the vector.
unfoldable pub show_between {ℓ} : {A : Type ℓ} → ℤ → ℤ → List A → Result (List A)
unfolding limit_loop
show_between (pos start) (pos end) datas = limit_loop start (end - start) datas
show_between (pos start) (negsuc end) datas = ok []
show_between (negsuc start) end datas = if ltb_ℤ (negsuc start) end then err undefined else ok []

-- LIMIT: the sum of the two is an `int`, and `end` the least of that and the size.
unfoldable pub limit_rows {ℓ} : {A : Type ℓ} → ℤ × ℤ → List A → Result (List A)
unfolding show_between ◌+ℤ◌
limit_rows (limit, start) datas =
    let size : ℤ = int_of_size (length datas) in
    let sum : ℤ = start +ℤ limit in
    if fits_int sum
    then show_between start (if ltb_ℤ sum size then sum else size) datas
    else err undefined

-- What the view is given to show.
unfoldable pub show_rows : Floats → Library → SqlQuery → List JoinedTuple → Result (List (List Str))
unfolding group_by order_by limit_rows covert_sql_type_to_string
show_rows f lib q rows = do
  datas ← group_by f lib q rows
  sorted ← order_by f lib q datas
  shown ← limit_rows q.limit_condition sorted
  ok (map (map (covert_sql_type_to_string f)) shown)

-- `addTargetFromEntity` for the tables of the query, with the names of their attributes.
unfoldable pub add_attributes : SqlQuery → Str → List Str → Result SqlQuery
unfolding add_attribute_target
add_attributes q entity [] = ok q
add_attributes q entity (name ∷ names) =
    add_attribute_target q entity name >>= λ q'. add_attributes q' entity names

unfoldable pub add_entities : SqlQuery → List (Str × List Str) → Result SqlQuery
unfolding add_attributes
add_entities q [] = ok q
add_entities q ((entity, names) ∷ tables) =
    add_attributes q entity names >>= λ q'. add_entities q' tables

abbrev pub with_targets : SqlQuery → List (Str × List Str) → Result SqlQuery
with_targets q tables = if q.is_selected_all then add_entities q tables else ok q

-- The stages of the query one after the other, on the rows of its tables.
unfoldable pub run_select :
    Floats
    → Library
    → SqlQuery
    → List (Str × List Str)
    → List Tuple
    → Tuple
    → List JoinedTable
    → Result (List (List Str))
unfolding add_entities select_rows show_rows
run_select f lib q columns rows null_tuple tables = do
  q' ← with_targets q columns
  result ← select_rows f q'.entity_name rows null_tuple tables q'.where_expression
  show_rows f lib q' result
