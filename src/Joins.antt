-- ===== src/Joins.antt =====
-- `JoinHandle` of core/util/helpers.cpp, with core/storage/expression/join_expression: the tuples of
-- a join of two tables. A joined tuple is a `std::map`: its entries stand in the order of their keys.
pub mod Restores
use csql.Base.{
  ℕ, zero, suc, ◌+◌, Bool, true, false, ◌&&◌, ◌||◌, List, [], ◌∷◌, ◌++◌, if◌then◌else◌, Str, codes,
  str_eq, str_lt,
}
use csql.Base.Assoc.{mem, remove, pair_eq, nat_eq, str_eq_instance}
use csql.Base.Result.{Result, ok, err, errors, ◌>>=◌}
use csql.Types.{SqlTypes, sql_bool, Floats}
use csql.Types.Tuples.{Tuple}
use csql.Operators.{BinaryOperator, JoinedTuple}
use csql.Expression.{Expression, binary, apply}

pub data JoinTypes : Type 0 where
  inner left right cross full : JoinTypes

pub record JoinExpression : Type 0 where
  pub expression : Expression
  pub join_type : JoinTypes
  pub target_entity_name : Str

-- `JoinExpression::apply`
abbrev pub truth : SqlTypes → Result Bool
truth (sql_bool b) = ok b
truth _ = err (errors (codes "Type of Operand invalid"))

unfoldable pub apply_join : Floats → JoinExpression → JoinedTuple → Result Bool
unfolding apply
apply_join f j t = apply f j.expression t >>= truth

abbrev pub add_and_join : JoinExpression → Expression → JoinExpression
add_and_join j e = record j { expression = binary BinaryOperator.logic_and j.expression e }

abbrev pub add_or_join : JoinExpression → Expression → JoinExpression
add_or_join j e = record j { expression = binary BinaryOperator.logic_or j.expression e }

-- The order and the equality of the keys.
abbrev pub key_before : Str × Str → Str × Str → Bool
key_before k l = str_lt k.0 l.0 || (str_eq k.0 l.0 && str_lt k.1 l.1)

abbrev pub key_is : Str × Str → Str × Str → Bool
key_is k l = str_eq k.0 l.0 && str_eq k.1 l.1

-- `insert`, which leaves an entry that is there already.
unfoldable pub insert_joined : Str × Str → SqlTypes → JoinedTuple → JoinedTuple
insert_joined k v [] = (k, v) ∷ []
insert_joined k v ((l, w) ∷ t) =
    let rest = insert_joined k v t in
    if key_before k l then (k, v) ∷ (l, w) ∷ t else if key_is l k then (l, w) ∷ t else (l, w) ∷ rest

unfoldable pub add_to_joined_tuple : Str → Tuple → JoinedTuple → JoinedTuple
unfolding insert_joined
add_to_joined_tuple entity [] t = t
add_to_joined_tuple entity ((name, v) ∷ es) t =
    add_to_joined_tuple entity es (insert_joined (entity, name) v t)

abbrev pub covert_tuple_to_joined_tuple : Str → Tuple → JoinedTuple
covert_tuple_to_joined_tuple entity es = add_to_joined_tuple entity es []

unfoldable pub remove_from_joined_tuple : Str → Tuple → JoinedTuple → JoinedTuple
unfolding remove
remove_from_joined_tuple entity [] t = t
remove_from_joined_tuple entity ((name, v) ∷ es) t =
    remove_from_joined_tuple entity es (remove (entity, name) t)

-- The loop over `right` at one tuple of `left`: the joined tuples, the tuple of `left` after it, and
-- the places of `right` that matched.
unfoldable pub join_row :
    Floats
    → JoinExpression
    → JoinedTuple
    → List Tuple
    → ℕ
    → Result (List JoinedTuple × JoinedTuple × List ℕ)
unfolding add_to_joined_tuple apply_join remove_from_joined_tuple
join_row f j l [] place = ok ([], l, [])
join_row f j l (r ∷ rs) place = do
  let both = add_to_joined_tuple j.target_entity_name r l
  b ← apply_join f j both
  let after = remove_from_joined_tuple j.target_entity_name r both
  (joined, l', places) ← join_row f j after rs (suc place)
  if b then ok (both ∷ joined, l', place ∷ places) else ok (joined, l', places)

abbrev pub is_some_place : List ℕ → Bool
is_some_place [] = false
is_some_place (p ∷ ps) = true

-- The loop over `left`: the joined tuples, the tuples of `left` with whether they matched, and the
-- places of `right` that matched.
unfoldable pub join_rows :
    Floats
    → JoinExpression
    → List JoinedTuple
    → List Tuple
    → Result (List JoinedTuple × List (Bool × JoinedTuple) × List ℕ)
unfolding join_row
join_rows f j [] rs = ok ([], [], [])
join_rows f j (l ∷ ls) rs = do
  (joined, l', places) ← join_row f j l rs 0
  (more, ls', others) ← join_rows f j ls rs
  ok (joined ++ more, (is_some_place places, l') ∷ ls', places ++ others)

-- The loops for tuples without a partner.
unfoldable pub pad_left : Str → Tuple → List (Bool × JoinedTuple) → List JoinedTuple
unfolding add_to_joined_tuple
pad_left entity null_right [] = []
pad_left entity null_right ((matched, l) ∷ ls) =
    let rest = pad_left entity null_right ls in
    if matched then rest else add_to_joined_tuple entity null_right l ∷ rest

unfoldable pub pad_right : Str → JoinedTuple → List ℕ → ℕ → List Tuple → List JoinedTuple
unfolding add_to_joined_tuple remove_from_joined_tuple mem
pad_right entity null_left places place [] = []
pad_right entity null_left places place (r ∷ rs) =
    let both = add_to_joined_tuple entity r null_left in
    let same = pad_right entity null_left places (suc place) rs in
    let restored =
      pad_right entity (remove_from_joined_tuple entity r both) places (suc place) rs in
    if mem place places then same else both ∷ restored

-- What `joinEntity` returns; the tuples of `left` and the null tuple that it changes on the way are
-- not given back.
unfoldable pub join_entity :
    Floats
    → JoinExpression
    → List JoinedTuple
    → List Tuple
    → JoinedTuple
    → Tuple
    → Result (List JoinedTuple)
unfolding join_rows pad_left pad_right
join_entity f j left_tuples right_tuples null_left null_right = do
  (joined, ls, places) ← join_rows f j left_tuples right_tuples
  elim j.join_type [
    | JoinTypes.left ↦ ok (joined ++ pad_left j.target_entity_name null_right ls)
    | JoinTypes.right ↦
        ok (joined ++ pad_right j.target_entity_name null_left places 0 right_tuples)
    | _ ↦ ok joined
  ]
