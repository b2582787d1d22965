-- ===== src/Storage/Removing.antt =====
-- core/storage/storage.cpp: removal from the B+ tree, with borrowing and merging.
use csql.Base.{
  ℕ, zero, suc, ◌+◌, ◌-◌, true, false, Bool, ◌&&◌, Option, none, some, [], ltb, ◌==◌, if◌then◌else◌,
  length, codes,
}
use csql.Base.Result.{
  Result, ok, err, errors, assertion, undefined, no_fuel, ◌>>=◌, ◌>>◌, guard, or_fail,
}
use csql.Types.{sql_key, BPlusKey, Floats}
use csql.Types.Tuples.{Tuple}
use csql.Page.{
  SlottedPage, is_internal, btree_key, get_btree_child, get_size_of_used_bytes, page_key, tuple_at,
  lower_bound, delete_tuple, get_child_index,
}
use csql.Page.Nodes.{
  front, put_at, index_of_child, borrow_key_from_right_leaf, borrow_key_from_left_leaf,
  merge_leaf_node, borrow_key_from_right_internal, borrow_key_from_left_internal,
  merge_internal_node,
}
use csql.Storage.{
  Store, read_page, read_node, write_page, internal_cast, leaf_cast, is_leaf, find_leaf, begin_leaf,
  add_page_into_free_zone, minimum_used_bytes,
}

-- The tuple, the node without it, and the store.
unfoldable pub remove_from_leaf :
    Floats → BPlusKey → SlottedPage → Store → Result (Tuple × SlottedPage × Store)
unfolding lower_bound delete_tuple read_node index_of_child page_key put_at write_page
remove_from_leaf f k node st = do
  index ← lower_bound f node k 0
  i ← or_fail index (errors (codes "Key not found"))
  t ← tuple_at node.tuples i
  node' ← delete_tuple node i
  elim (node'.parent_index == 0) [
    | true ↦ ok (t, node', st)
    | false ↦ do
      parent ← read_node st node'.parent_index
      internal_cast parent
      j ← index_of_child f parent k
      elim (j == 0) [
        | true ↦ ok (t, node', st)
        | false ↦ do
          first ← page_key node'
          ts ← put_at parent.tuples j btree_key (sql_key first)
          st' ← write_page (record parent { tuples = ts }) st
          ok (t, node', st')
      ]
  ]

unfoldable pub remove_from_internal :
    Floats → ℕ → BPlusKey → SlottedPage → Store → Result SlottedPage
unfolding lower_bound get_btree_child begin_leaf page_key put_at
remove_from_internal f fuel k node st = do
  index ← lower_bound f node k 1
  elim index [
    | none ↦ ok node
    | some i ↦ do
      t ← tuple_at node.tuples i
      child ← get_btree_child t
      found ← begin_leaf fuel st child
      (at, leaf) ← or_fail found undefined
      first ← page_key leaf
      ts ← put_at node.tuples i btree_key (sql_key first)
      ok (record node { tuples = ts })
  ]

-- A sibling that is there and passes the test.
abbrev pub sibling : (SlottedPage → Bool) → Option SlottedPage → Option SlottedPage
sibling test none = none
sibling test (some p) = if test p then some p else none

abbrev pub is_rich : SlottedPage → Bool
is_rich p = ltb minimum_used_bytes (get_size_of_used_bytes p)

abbrev pub same_parent : SlottedPage → SlottedPage → Bool
same_parent p q = p.parent_index == q.parent_index

-- `updatePrevIndexOfNextNode`: the leaf after `a` gets `index` as the one before it.
unfoldable pub update_prev_index : ℕ → SlottedPage → Store → Result Store
unfolding read_page write_page
update_prev_index index a st = do
  next ← read_page st a.next_leaf
  elim next [ none ↦ ok st | some p ↦ write_page (record p { prev_leaf = index }) st ]

-- The node that stays, its parent and the store.
abbrev pub Balanced : Type 0
Balanced = SlottedPage × Option SlottedPage × Store

-- The branches for a leaf with too few bytes; a merge tests that the sibling is not rich, which it
-- is not after the first two tests.
unfoldable pub balance_leaf : SlottedPage → Option SlottedPage → Store → Result Balanced
unfolding read_page borrow_key_from_right_leaf borrow_key_from_left_leaf merge_leaf_node write_page
    update_prev_index add_page_into_free_zone
balance_leaf node parent st = do
  prev ← read_page st node.prev_leaf
  next ← read_page st node.next_leaf
  elim (sibling (λ p. same_parent node p && is_rich p) next) [
    | some p ↦ do
      above ← or_fail parent undefined
      (node', p', above') ← borrow_key_from_right_leaf node p above
      st' ← write_page p' st
      ok (node', some above', st')
    | none ↦ elim (sibling (λ p. same_parent node p && is_rich p) prev) [
      | some p ↦ do
        above ← or_fail parent undefined
        (node', p', above') ← borrow_key_from_left_leaf node p above
        st' ← write_page p' st
        ok (node', some above', st')
      | none ↦ elim (sibling (same_parent node) next) [
        | some p ↦ do
          above ← or_fail parent undefined
          (node', above') ← merge_leaf_node node p above
          st' ← update_prev_index node.page_index node' st
          ok (node', some above', add_page_into_free_zone p st')
        | none ↦ elim (sibling (same_parent node) prev) [
          | some p ↦ do
            above ← or_fail parent undefined
            leaf_cast p
            (p', above') ← merge_leaf_node p node above
            st' ← update_prev_index node.page_index p' st
            ok (p', some above', add_page_into_free_zone node st')
          | none ↦ ok (node, parent, st)
        ]
      ]
    ]
  ]

-- `run` of `updateParentIndexOfChild`, on the children of `num` tuples.
unfoldable pub update_parent_index : SlottedPage → ℕ → Bool → ℕ → Store → Result Store
unfolding get_btree_child read_node write_page
update_parent_index a i from_begin zero st = ok st
update_parent_index a i from_begin (suc n) st = do
  let place = if from_begin then i else a.num_slots - i - 1
  guard (ltb place (length a.tuples)) assertion
  t ← tuple_at a.tuples place
  child ← get_btree_child t
  p ← read_node st child
  st' ← write_page (record p { parent_index = a.page_index }) st
  update_parent_index a (i + 1) from_begin n st'

-- The child of the parent at a place, null past the end.
unfoldable pub child_page : SlottedPage → ℕ → Store → Result (Option SlottedPage)
unfolding get_child_index read_page
child_page parent i st = elim (ltb i (length parent.tuples)) [
  | true ↦ do child ← get_child_index parent i; read_page st child
  | false ↦ ok none
]

abbrev pub or_zero : Option ℕ → ℕ
or_zero none = 0
or_zero (some i) = i

-- The branches for an internal node with too few bytes.
unfoldable pub balance_internal : Floats → SlottedPage → SlottedPage → Store → Result Balanced
unfolding page_key lower_bound child_page borrow_key_from_right_internal
    borrow_key_from_left_internal merge_internal_node update_parent_index write_page
    add_page_into_free_zone
balance_internal f node above st = do
  own ← page_key node
  place ← lower_bound f above own 1
  let index = or_zero place
  next ← child_page above (index + 1) st
  prev ← if index == 0 then ok none else child_page above (index - 1) st
  elim (sibling is_rich next) [
    | some p ↦ do
      internal_cast node
      (node', p', above') ← borrow_key_from_right_internal node p above index
      st' ← update_parent_index node' 0 false 1 st
      st2 ← write_page p' st'
      ok (node', some above', st2)
    | none ↦ elim (sibling is_rich prev) [
      | some p ↦ do
        internal_cast node
        (node', p', above') ← borrow_key_from_left_internal node p above index
        st' ← update_parent_index node' 0 true 1 st
        st2 ← write_page p' st'
        ok (node', some above', st2)
      | none ↦ elim next [
        | some p ↦ do
          internal_cast node
          (node', above') ← merge_internal_node node p above index
          st' ← update_parent_index node' 0 false (length p.tuples) st
          ok (node', some above', add_page_into_free_zone p st')
        | none ↦ elim prev [
          | some p ↦ do
            internal_cast p
            (p', above') ← merge_internal_node p node above (index - 1)
            st' ← update_parent_index p' 0 false (length node.tuples) st
            ok (p', some above', add_page_into_free_zone node st')
          | none ↦ ok (node, some above, st)
        ]
      ]
    ]
  ]

-- The branch for a root with too few bytes: an internal root with one child gives way to it.
unfoldable pub shrink : SlottedPage → Store → Result Store
unfolding get_btree_child add_page_into_free_zone read_node write_page
shrink node st = elim (is_internal node.page_type && (length node.tuples == 1)) [
  | false ↦ write_page node st
  | true ↦ do
    t ← front node.tuples
    child ← get_btree_child t
    let st1 = add_page_into_free_zone node (record st { root = child })
    p ← read_node st1 child
    write_page (record p { parent_index = 0 }) st1
]

-- `removeBtree` on a node: the source recurs towards the root, and the height of the tree is
-- enough fuel.
unfoldable pub remove_at : Floats → ℕ → BPlusKey → SlottedPage → Store → Result (Tuple × Store)
unfolding remove_from_leaf remove_from_internal read_page get_size_of_used_bytes shrink balance_leaf
    balance_internal write_page
remove_at f zero k node st = err no_fuel
remove_at f (suc fuel) k node st = do
  let on_internal : Result (Tuple × SlottedPage × Store) =
      remove_from_internal f fuel k node st >>= λ node'. ok ([], node', st)
  (t, node1, st1) ← if is_leaf node.page_type then remove_from_leaf f k node st else on_internal
  parent ← read_page st1 node1.parent_index
  let poor = ltb (get_size_of_used_bytes node1) minimum_used_bytes
  let on_node : Result Balanced =
      if is_leaf node1.page_type
      then balance_leaf node1 parent st1
      else or_fail parent undefined >>= λ above. balance_internal f node1 above st1
  elim (poor && (node1.page_index == st1.root)) [
    | true ↦ do st2 ← shrink node1 st1; ok (t, st2)
    | false ↦ do
      (node2, above, st2) ← if poor then on_node else ok (node1, parent, st1)
      st3 ← write_page node2 st2
      elim above [
        | none ↦ ok (t, st3)
        | some p ↦ do (u, st4) ← remove_at f fuel k p st3; ok (t, st4)
      ]
  ]

unfoldable pub remove_btree : Floats → ℕ → BPlusKey → Store → Result (Tuple × Store)
unfolding find_leaf remove_at
remove_btree f fuel k st = do node ← find_leaf f fuel st st.root k; remove_at f fuel k node st
