-- ===== src/Expression/Aggregates.antt =====
-- core/storage/expression/aggregate_expression: the targets of a query on the rows of a group.
pub mod Extremes
use csql.Base.{
  ℕ, zero, suc, ◌+◌, Bool, true, false, not, ◌&&◌, List, [], ◌∷◌, ◌++◌, ltb, ◌==◌, if◌then◌else◌,
  length, Str,
}
use csql.Base.Text.{str_lt}
use csql.Base.Int.{ℤ, pos, ltb_ℤ, ◌+ℤ◌}
use csql.Base.Result.{Result, ok, err, undefined, bad_variant, ◌>>=◌}
use csql.Types.{
  SqlTypes, sql_null, sql_int, sql_varchar, sql_bool, sql_datetime, sql_float, sql_key,
  KeyElementType, PairKeyElement, BPlusKey, Floats,
}
use csql.Types.Key.{element_lt, key_lt}
use csql.Convert.{covert_sql_type_to_string}
use csql.Operators.{JoinedTuple, index, in_range}
use csql.Expression.{Expression, attribute, apply}

-- The classes below `TargetExpression`; the separator of `group_concat` is a field.
pub data TargetExpression : Type 0 where
  normal : Str → Str → TargetExpression
  sum avg count max min : Expression → TargetExpression
  count_all : TargetExpression
  group_concat : Expression → Str → TargetExpression

abbrev pub tag_place : KeyElementType → ℕ
tag_place KeyElementType.int_type = 0
tag_place KeyElementType.float_type = 1
tag_place KeyElementType.varchar_type = 2

abbrev pub pair_lt : Floats → PairKeyElement → PairKeyElement → Bool
pair_lt f p q =
    if ltb (tag_place p.first) (tag_place q.first)
    then true
    else if ltb (tag_place q.first) (tag_place p.first)
    then false
    else element_lt f p.second q.second

-- The order of `std::vector`, which `>` on keys comes to.
unfoldable pub vector_lt : Floats → BPlusKey → BPlusKey → Bool
unfolding element_lt
vector_lt f k [] = false
vector_lt f [] (q ∷ l) = true
vector_lt f (p ∷ k) (q ∷ l) =
    let rest = vector_lt f k l in
    if pair_lt f p q then true else if pair_lt f q p then false else rest

-- `<` of `std::variant`: by the alternative, then by the value.
unfoldable pub value_lt : Floats → SqlTypes → SqlTypes → Result Bool
unfolding key_lt
value_lt f (sql_int a) (sql_int b) = ok (ltb_ℤ a b)
value_lt f (sql_varchar s) (sql_varchar t) = ok (str_lt s t)
value_lt f (sql_bool a) (sql_bool b) = ok (not a && b)
value_lt f (sql_datetime a) (sql_datetime b) = ok (ltb a b)
value_lt f (sql_float x) (sql_float y) = ok (f.float_lt x y)
value_lt f (sql_key k) (sql_key l) = key_lt f k l
value_lt f v w = ok (ltb (index v) (index w))

unfoldable pub value_gt : Floats → SqlTypes → SqlTypes → Result Bool
unfolding value_lt vector_lt
value_gt f (sql_key k) (sql_key l) = ok (vector_lt f l k)
value_gt f v w = value_lt f w v

unfoldable pub sum_rows : Floats → Expression → ℤ → List JoinedTuple → Result SqlTypes
unfolding apply
sum_rows f e acc [] = ok (sql_int acc)
sum_rows f e acc (t ∷ ts) = apply f e t >>= λ v. elim v [
  | sql_int z ↦ in_range (acc +ℤ z) >>= λ checked. sum_rows f e (acc +ℤ z) ts
  | _ ↦ err bad_variant
]

-- Values that are no numbers are passed over, and still count in the divisor.
abbrev pub add_number : Floats → ℕ → SqlTypes → ℕ
add_number f acc (sql_int z) = f.float_add acc (f.of_int z)
add_number f acc (sql_float x) = f.float_add acc x
add_number f acc _ = acc

unfoldable pub avg_rows : Floats → Expression → ℕ → List JoinedTuple → Result ℕ
unfolding apply
avg_rows f e acc [] = ok acc
avg_rows f e acc (t ∷ ts) = apply f e t >>= λ v. avg_rows f e (add_number f acc v) ts

abbrev pub is_sql_null : SqlTypes → Bool
is_sql_null sql_null = true
is_sql_null _ = false

unfoldable pub count_rows : Floats → Expression → ℕ → List JoinedTuple → Result ℕ
unfolding apply
count_rows f e n [] = ok n
count_rows f e n (t ∷ ts) =
    apply f e t >>= λ v. count_rows f e (if is_sql_null v then n else n + 1) ts

-- The loops of `MaxExpression` and `MinExpression`, which differ in the test.
unfoldable pub best_row :
    Floats
    → (SqlTypes → SqlTypes → Result Bool)
    → Expression
    → SqlTypes
    → List JoinedTuple
    → Result SqlTypes
unfolding apply
best_row f better e best [] = ok best
best_row f better e best (t ∷ ts) =
    apply f e t >>= λ v. better v best >>= λ b. best_row f better e (if b then v else best) ts

unfoldable pub best :
    Floats → (SqlTypes → SqlTypes → Result Bool) → Expression → List JoinedTuple → Result SqlTypes
unfolding best_row
best f better e [] = err undefined
best f better e (t ∷ ts) = apply f e t >>= λ v. best_row f better e v (t ∷ ts)

unfoldable pub concat_rows : Floats → Expression → Str → List JoinedTuple → Result Str
unfolding apply covert_sql_type_to_string
concat_rows f e sep [] = ok []
concat_rows f e sep (t ∷ []) = apply f e t >>= λ v. ok (covert_sql_type_to_string f v)
concat_rows f e sep (t ∷ u ∷ ts) = apply f e t >>= λ v.
    concat_rows f e sep (u ∷ ts) >>= λ more. ok (covert_sql_type_to_string f v ++ (sep ++ more))

-- `TargetExpression::apply`; the first row of no rows is undefined.
unfoldable pub apply_target : Floats → TargetExpression → List JoinedTuple → Result SqlTypes
unfolding apply sum_rows avg_rows count_rows best concat_rows value_gt value_lt
apply_target f (normal entity name) [] = err undefined
apply_target f (normal entity name) (t ∷ ts) = apply f (attribute entity name) t
apply_target f (sum e) ts = sum_rows f e (pos 0) ts
apply_target f (avg e) ts = avg_rows f e (f.of_int (pos 0)) ts >>= λ total.
    ok (sql_float (f.float_div total (f.of_int (pos (length ts)))))
apply_target f (count e) ts = count_rows f e 0 ts >>= λ n. ok (sql_int (pos n))
apply_target f count_all ts = ok (sql_datetime (length ts))
apply_target f (max e) ts = best f (value_gt f) e ts
apply_target f (min e) ts = best f (value_lt f) e ts
apply_target f (group_concat e sep) ts = concat_rows f e sep ts >>= λ s. ok (sql_varchar s)
