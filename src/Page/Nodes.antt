-- ===== src/Page/Nodes.antt =====
-- core/storage/page/b_plus_node: the operations of leaf and internal nodes. A page that another
-- page's operation changes is given back with it.
use csql.Base.{
  ℕ, zero, suc, ◌+◌, ◌-◌, ◌/◌, ◌^◌, Option, none, some, List, [], ◌∷◌, ◌++◌, ltb, leb, ◌==◌,
  if◌then◌else◌, length, take, drop, insert_at, set, Str,
}
use csql.Base.Assoc.{lookup, contains, assign, str_eq_instance}
use csql.Base.Int.{pos}
use csql.Base.Result.{
  Result, ok, err, assertion, undefined, out_of_range, ◌>>=◌, ◌>>◌, guard, or_fail,
}
use csql.Types.{SqlTypes, sql_key, sql_int, BPlusKey, Floats}
use csql.Types.Key.{key_ne}
use csql.Types.Size.{u32, size_of_tuple}
use csql.Types.Tuples.{Tuple, insert}
use csql.Page.{
  SlottedPage, btree_key, child_btree_key, get_btree_key, tuple_at, key_at, lower_bound,
  reassign_data, delete_tuple, page_key, get_child_index,
}

-- `tuple.at(name) = v`
abbrev pub put_name : Str → SqlTypes → Tuple → Result Tuple
put_name name v t = if contains name t then ok (assign name v t) else err out_of_range

-- `tuples[i].at(name) = v`
unfoldable pub put_at : List Tuple → ℕ → Str → SqlTypes → Result (List Tuple)
put_at ts i name v = do t ← tuple_at ts i; t' ← put_name name v t; ok (set ts i t')

-- `tuples.insert(tuples.begin() + i, t)`
abbrev pub insert_tuple_at : SlottedPage → ℕ → Tuple → Result SlottedPage
insert_tuple_at p i t =
    if leb i (length p.tuples)
    then ok (record p { tuples = insert_at i t p.tuples })
    else err undefined

-- `TupleHandle::baseInternalBNode(key, childIndex)`
unfoldable pub base_internal_b_node : BPlusKey → ℕ → Tuple
unfolding insert
base_internal_b_node k child =
    insert child_btree_key (sql_int (pos child)) (insert btree_key (sql_key k) [])

-- `index + 1`, where no index is -1.
abbrev pub after : Option ℕ → ℕ
after none = 0
after (some i) = i + 1

-- The assertion of `LeafBPlusNode::addTuple`: the key is not in the leaf yet.
unfoldable pub check_new : Floats → SlottedPage → BPlusKey → Option ℕ → Result (Unit {0})
unfolding key_at key_ne
check_new f p k none = ok tt
check_new f p k (some i) = do found ← key_at p.tuples i; new ← key_ne f found k; guard new assertion

unfoldable pub leaf_add_tuple : Floats → SlottedPage → Tuple → Result SlottedPage
unfolding get_btree_key lower_bound reassign_data check_new
leaf_add_tuple f p t = do
  k ← get_btree_key t
  index ← lower_bound f p k 0
  check_new f p k index
  p' ← insert_tuple_at p (after index) t
  reassign_data p'

-- `left` takes the tuples before `mid`, the node keeps the others; `left` comes first.
abbrev pub split_at : ℕ → SlottedPage → SlottedPage → Result (SlottedPage × SlottedPage)
split_at mid p left = do
  guard (leb mid (length p.tuples)) undefined
  left' ← reassign_data (record left { tuples = take mid p.tuples })
  p' ← reassign_data (record p { tuples = drop mid p.tuples })
  ok (left', p')

unfoldable pub leaf_split_node : SlottedPage → SlottedPage → Result (SlottedPage × SlottedPage)
unfolding reassign_data
leaf_split_node p left = split_at (p.num_slots / 2) p left

-- `(numSlots - 1) / 2 + 1` in `uint32_t`
unfoldable pub internal_split_node : SlottedPage → SlottedPage → Result (SlottedPage × SlottedPage)
unfolding reassign_data
internal_split_node p left = split_at (u32 (p.num_slots + 2 ^ 32 - 1) / 2 + 1) p left

-- `tuples.front()` and `tuples.back()`
abbrev pub front : List Tuple → Result Tuple
front ts = tuple_at ts 0

abbrev pub back : List Tuple → Result Tuple
back ts = if ltb 0 (length ts) then tuple_at ts (length ts - 1) else err undefined

-- The first of `n` slots from `i` whose child is `child`.
unfoldable pub child_slot : SlottedPage → ℕ → ℕ → ℕ → Result (Option ℕ)
unfolding get_child_index
child_slot parent child i zero = ok none
child_slot parent child i (suc n) = do
  let rest = child_slot parent child (suc i) n
  c ← get_child_index parent i
  if c == child then ok (some i) else rest

-- The loops over the parent: the key of the entry of `child` becomes that of the first of `ts`.
unfoldable pub set_parent_key : SlottedPage → ℕ → List Tuple → Result SlottedPage
unfolding child_slot put_at get_btree_key
set_parent_key parent child ts = do
  slot ← child_slot parent child 0 parent.num_slots
  elim slot [
    | none ↦ ok parent
    | some i ↦ do
      t ← front ts
      k ← get_btree_key t
      ts' ← put_at parent.tuples i btree_key (sql_key k)
      ok (record parent { tuples = ts' })
  ]

abbrev pub last_slot : List ℕ → Result ℕ
last_slot [] = err undefined
last_slot (s ∷ []) = ok s
last_slot (s ∷ ss) = last_slot ss

-- The node, `next` and `parent`.
unfoldable pub borrow_key_from_right_leaf :
    SlottedPage → SlottedPage → SlottedPage → Result (SlottedPage × SlottedPage × SlottedPage)
unfolding delete_tuple set_parent_key
borrow_key_from_right_leaf p next parent = do
  t ← front next.tuples
  sz ← size_of_tuple t
  slot ← last_slot p.slots
  let p' = record p {
    tuples = p.tuples ++ t ∷ [];
    slots = p.slots ++ u32 (slot + 2 ^ 32 - sz) ∷ [];
    num_slots = u32 (suc p.num_slots);
  }
  next' ← delete_tuple next 0
  parent' ← set_parent_key parent next'.page_index next'.tuples
  ok (p', next', parent')

-- The node, `prev` and `parent`.
unfoldable pub borrow_key_from_left_leaf :
    SlottedPage → SlottedPage → SlottedPage → Result (SlottedPage × SlottedPage × SlottedPage)
unfolding reassign_data delete_tuple set_parent_key
borrow_key_from_left_leaf p prev parent = do
  t ← back prev.tuples
  p' ← reassign_data (record p { tuples = t ∷ p.tuples })
  prev' ← delete_tuple prev (u32 (prev.num_slots + 2 ^ 32 - 1))
  parent' ← set_parent_key parent p'.page_index p'.tuples
  ok (p', prev', parent')

-- The node and `parent`; no entry for `next` is the failed assertion at the end.
unfoldable pub merge_leaf_node :
    SlottedPage → SlottedPage → SlottedPage → Result (SlottedPage × SlottedPage)
unfolding reassign_data child_slot delete_tuple
merge_leaf_node p next parent = do
  p' ← reassign_data (record p { tuples = p.tuples ++ next.tuples })
  let p'' = record p' { next_leaf = next.next_leaf }
  slot ← child_slot parent next.page_index 0 (length parent.tuples)
  i ← or_fail slot assertion
  parent' ← delete_tuple parent i
  ok (p'', parent')

unfoldable pub index_of_child : Floats → SlottedPage → BPlusKey → Result ℕ
unfolding lower_bound
index_of_child f p k = do index ← lower_bound f p k 1; ok (elim index [ none ↦ 0 | some i ↦ i ])

unfoldable pub get_child : Floats → SlottedPage → BPlusKey → Result ℕ
unfolding index_of_child get_child_index
get_child f p k = do i ← index_of_child f p k; get_child_index p i

unfoldable pub internal_add_tuple : Floats → SlottedPage → Tuple → Result SlottedPage
unfolding index_of_child get_btree_key reassign_data
internal_add_tuple f p t =
    if leb (length p.tuples) 1 then reassign_data (record p { tuples = p.tuples ++ t ∷ [] }) else do
      k ← get_btree_key t
      i ← index_of_child f p k
      p' ← insert_tuple_at p (i + 1) t
      reassign_data p'

unfoldable pub set_child : Floats → SlottedPage → BPlusKey → ℕ → ℕ → Result SlottedPage
unfolding index_of_child put_at reassign_data base_internal_b_node
set_child f p k left right = do
  i ← index_of_child f p k
  p' ← insert_tuple_at p (i + 1) (base_internal_b_node k right)
  ts ← put_at p'.tuples i child_btree_key (sql_int (pos left))
  reassign_data (record p' { tuples = ts })

-- The separator before entry `index + 1` of the parent, `at(BTREE_KEY)`.
abbrev pub separator : SlottedPage → ℕ → Result SqlTypes
separator parent i = do
  guard (ltb i (length parent.tuples)) assertion
  t ← tuple_at parent.tuples i
  or_fail (lookup btree_key t) out_of_range

-- The node, `next` and `parent`.
unfoldable pub borrow_key_from_right_internal :
    SlottedPage → SlottedPage → SlottedPage → ℕ → Result (SlottedPage × SlottedPage × SlottedPage)
unfolding page_key get_child_index put_at reassign_data delete_tuple insert
borrow_key_from_right_internal p next parent index = do
  sep ← separator parent (index + 1)
  k ← page_key next
  ts ← put_at parent.tuples (index + 1) btree_key (sql_key k)
  child ← get_child_index next 0
  let t = insert child_btree_key (sql_int (pos child)) (insert btree_key sep [])
  p' ← reassign_data (record p { tuples = p.tuples ++ t ∷ [] })
  next' ← delete_tuple next 0
  ok (p', next', record parent { tuples = ts })

-- The node, `prev` and `parent`.
unfoldable pub borrow_key_from_left_internal :
    SlottedPage → SlottedPage → SlottedPage → ℕ → Result (SlottedPage × SlottedPage × SlottedPage)
unfolding put_at reassign_data delete_tuple insert
borrow_key_from_left_internal p prev parent index = do
  sep ← separator parent index
  own ← put_at p.tuples 0 btree_key sep
  last ← back prev.tuples
  last_key ← or_fail (lookup btree_key last) out_of_range
  ts ← put_at parent.tuples index btree_key last_key
  child ← or_fail (lookup child_btree_key last) out_of_range
  let t = insert child_btree_key child (insert btree_key (sql_key []) [])
  p' ← reassign_data (record p { tuples = t ∷ own })
  prev' ← delete_tuple prev (length prev.tuples - 1)
  ok (p', prev', record parent { tuples = ts })

-- The node and `parent`.
unfoldable pub merge_internal_node :
    SlottedPage → SlottedPage → SlottedPage → ℕ → Result (SlottedPage × SlottedPage)
unfolding put_at reassign_data delete_tuple
merge_internal_node p next parent index = do
  sep ← separator parent (index + 1)
  ts ← put_at (p.tuples ++ next.tuples) (length p.tuples) btree_key sep
  parent' ← delete_tuple parent (index + 1)
  p' ← reassign_data (record p { tuples = ts })
  ok (p', parent')
