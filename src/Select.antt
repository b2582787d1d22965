-- ===== src/Select.antt =====
-- core/storage/database/select.cpp: the stages of a query on the rows of its tables, from the join to
-- the condition. A row is a joined tuple.
pub mod Joining
pub mod Results
pub mod Completed
pub mod Groups
pub mod Limit
use csql.Base.{Bool, true, false, List, [], ◌∷◌, ◌++◌, map, if◌then◌else◌, Str, codes}
use csql.Base.Result.{Result, ok, err, errors, ◌>>=◌}
use csql.Types.{Floats}
use csql.Types.Tuples.{Tuple}
use csql.Operators.{JoinedTuple}
use csql.Expression.{Expression, apply_where}
use csql.Joins.{
  JoinTypes, JoinExpression, apply_join, add_to_joined_tuple, covert_tuple_to_joined_tuple,
}

-- `auto row = row1`, with the second row added.
abbrev pub joined_row : JoinExpression → JoinedTuple → Tuple → JoinedTuple
joined_row j row1 row2 = add_to_joined_tuple j.target_entity_name row2 row1

-- The inner loop of the joins with a condition, over the rows of the joined table.
unfoldable pub matches :
    Floats → JoinExpression → JoinedTuple → List Tuple → Result (List JoinedTuple)
unfolding apply_join add_to_joined_tuple
matches f j row1 [] = ok []
matches f j row1 (row2 ∷ others) = do
  b ← apply_join f j (joined_row j row1 row2)
  more ← matches f j row1 others
  ok (if b then joined_row j row1 row2 ∷ more else more)

unfoldable pub inner_join :
    Floats → JoinExpression → List JoinedTuple → List Tuple → Result (List JoinedTuple)
unfolding matches
inner_join f j [] others = ok []
inner_join f j (row1 ∷ rows) others = do
  own ← matches f j row1 others
  more ← inner_join f j rows others
  ok (own ++ more)

unfoldable pub cross_join : JoinExpression → List JoinedTuple → List Tuple → List JoinedTuple
unfolding add_to_joined_tuple
cross_join j [] others = []
cross_join j (row1 ∷ rows) others = map (joined_row j row1) others ++ cross_join j rows others

-- `if (!flag)`: the row for want of a match.
abbrev pub or_row : JoinedTuple → List JoinedTuple → List JoinedTuple
or_row row [] = row ∷ []
or_row row (m ∷ ms) = m ∷ ms

unfoldable pub left_join :
    Floats → JoinExpression → Tuple → List JoinedTuple → List Tuple → Result (List JoinedTuple)
unfolding matches add_to_joined_tuple
left_join f j null_tuple [] others = ok []
left_join f j null_tuple (row1 ∷ rows) others = do
  own ← matches f j row1 others
  more ← left_join f j null_tuple rows others
  ok (or_row (joined_row j row1 null_tuple) own ++ more)

-- The inner loop of the right join, over the rows so far.
unfoldable pub right_matches :
    Floats → JoinExpression → Tuple → List JoinedTuple → Result (List JoinedTuple)
unfolding apply_join add_to_joined_tuple
right_matches f j row2 [] = ok []
right_matches f j row2 (row1 ∷ rows) = do
  b ← apply_join f j (joined_row j row1 row2)
  more ← right_matches f j row2 rows
  ok (if b then joined_row j row1 row2 ∷ more else more)

unfoldable pub right_join :
    Floats
    → JoinExpression
    → JoinedTuple
    → List JoinedTuple
    → List Tuple
    → Result (List JoinedTuple)
unfolding right_matches add_to_joined_tuple
right_join f j current_null rows [] = ok []
right_join f j current_null rows (row2 ∷ others) = do
  own ← right_matches f j row2 rows
  more ← right_join f j current_null rows others
  ok (or_row (joined_row j current_null row2) own ++ more)

-- The `switch` on the type of the join; the branch of `full` is empty.
unfoldable pub join_step :
    Floats
    → JoinExpression
    → JoinedTuple
    → Tuple
    → List JoinedTuple
    → List Tuple
    → Result (List JoinedTuple)
unfolding inner_join cross_join left_join right_join
join_step f j current_null null_tuple rows others = elim j.join_type [
  | JoinTypes.inner ↦ inner_join f j rows others
  | JoinTypes.left ↦ left_join f j null_tuple rows others
  | JoinTypes.right ↦ right_join f j current_null rows others
  | JoinTypes.cross ↦ ok (cross_join j rows others)
  | JoinTypes.full ↦ ok []
]

-- A joined table: the join, its rows and its null tuple.
pub record JoinedTable : Type 0 where
  pub join : JoinExpression
  pub rows : List Tuple
  pub null_tuple : Tuple

-- The loop over the joins, with the null row so far.
unfoldable pub join_all :
    Floats → List JoinedTable → JoinedTuple → List JoinedTuple → Result (List JoinedTuple)
unfolding join_step add_to_joined_tuple
join_all f [] current_null rows = ok rows
join_all f (t ∷ ts) current_null rows = do
  rows' ← join_step f t.join current_null t.null_tuple rows t.rows
  join_all f ts (add_to_joined_tuple t.join.target_entity_name t.null_tuple current_null) rows'

-- The rows on which a condition holds.
unfoldable pub filter_rows :
    (JoinedTuple → Result Bool) → List JoinedTuple → Result (List JoinedTuple)
filter_rows test [] = ok []
filter_rows test (row ∷ rows) = do
  b ← test row
  more ← filter_rows test rows
  ok (if b then row ∷ more else more)

-- From the rows of the main table to those on which the condition of the query holds.
unfoldable pub select_rows :
    Floats → Str → List Tuple → Tuple → List JoinedTable → Expression → Result (List JoinedTuple)
unfolding join_all filter_rows apply_where add_to_joined_tuple
select_rows f entity rows null_tuple tables condition = do
  result ←
      join_all f tables (covert_tuple_to_joined_tuple entity null_tuple)
        (map (covert_tuple_to_joined_tuple entity) rows)
  filter_rows (apply_where f condition) result
