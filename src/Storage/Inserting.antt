-- ===== src/Storage/Inserting.antt =====
-- core/storage/storage.cpp: insertion into the B+ tree.
use csql.Base.{ℕ, zero, suc, true, false, List, [], ◌∷◌, ltb, ◌==◌}
use csql.Base.Result.{Result, ok, err, no_fuel, ◌>>=◌, ◌>>◌}
use csql.Types.{BPlusKey, Floats}
use csql.Types.Tuples.{Tuple}
use csql.Page.{SlottedPage, get_btree_key, get_btree_child, get_size_of_used_bytes, page_key}
use csql.Page.Nodes.{
  front, leaf_add_tuple, leaf_split_node, internal_split_node, internal_add_tuple, set_child,
  base_internal_b_node,
}
use csql.Storage.{
  Store, read_node, write_page, internal_cast, new_leaf, new_internal, pop_free_page, find_leaf,
  maximum_used_bytes, minimum_used_bytes,
}

-- `SplitNodeType`, and the store.
pub record Split : Type 0 where
  pub key : BPlusKey
  pub left : SlottedPage
  pub right : SlottedPage
  pub store : Store

-- `prev->nextLeaf = left->pageIndex`
unfoldable pub link_before : SlottedPage → Store → Result Store
unfolding read_node write_page
link_before left st = elim (left.prev_leaf == 0) [
  | true ↦ ok st
  | false ↦ do
    prev ← read_node st left.prev_leaf
    write_page (record prev { next_leaf = left.page_index }) st
]

unfoldable pub split_leaf : SlottedPage → Store → Result Split
unfolding pop_free_page leaf_split_node write_page link_before page_key
split_leaf node st = do
  (p, st1) ← pop_free_page st
  (left, right) ← leaf_split_node node (new_leaf p)
  let left' : SlottedPage = record left {
    parent_index = right.parent_index;
    next_leaf = right.page_index;
    prev_leaf = right.prev_leaf;
  }
  let right' : SlottedPage = record right { prev_leaf = left.page_index }
  st2 ← write_page left' st1
  st3 ← write_page right' st2
  st4 ← link_before left' st3
  k ← page_key right'
  ok (record { key = k; left = left'; right = right'; store = st4 })

-- The loop over the children of the new node.
unfoldable pub adopt : ℕ → List Tuple → Store → Result Store
unfolding get_btree_child read_node write_page
adopt parent [] st = ok st
adopt parent (t ∷ ts) st = do
  child ← get_btree_child t
  p ← read_node st child
  st1 ← write_page (record p { parent_index = parent }) st
  adopt parent ts st1

unfoldable pub split_internal : SlottedPage → Store → Result Split
unfolding pop_free_page internal_split_node get_btree_key adopt write_page
split_internal node st = do
  (p, st1) ← pop_free_page st
  (left, right) ← internal_split_node node (new_internal p)
  let left' : SlottedPage = record left { parent_index = right.parent_index }
  t ← front right.tuples
  k ← get_btree_key t
  st2 ← adopt left'.page_index left'.tuples st1
  st3 ← write_page left' st2
  st4 ← write_page right st3
  ok (record { key = k; left = left'; right = right; store = st4 })

-- The branch of `insertBtree` for a node without a parent: a new root.
unfoldable pub grow : Floats → Split → Result Store
unfolding pop_free_page internal_add_tuple base_internal_b_node write_page
grow f s = do
  (p, st) ← pop_free_page s.store
  let left : SlottedPage = record s.left { parent_index = p.page_index }
  let right : SlottedPage = record s.right { parent_index = p.page_index }
  root1 ← internal_add_tuple f (new_internal p) (base_internal_b_node s.key left.page_index)
  root2 ← internal_add_tuple f root1 (base_internal_b_node s.key right.page_index)
  st1 ← write_page left st
  st2 ← write_page right st1
  st3 ← write_page root2 st2
  ok (record st3 { root = p.page_index })

-- `insertBtree`: the source recurs; the height of the tree is enough fuel.
unfoldable pub insert_btree : Floats → ℕ → Split → Result Store
unfolding grow read_node set_child get_size_of_used_bytes split_internal write_page
insert_btree f zero s = err no_fuel
insert_btree f (suc fuel) s = elim (s.left.parent_index == 0) [
  | true ↦ grow f s
  | false ↦ do
    parent ← read_node s.store s.left.parent_index
    internal_cast parent
    parent' ← set_child f parent s.key s.left.page_index s.right.page_index
    elim (ltb minimum_used_bytes (get_size_of_used_bytes parent')) [
      | true ↦ do above ← split_internal parent' s.store; insert_btree f fuel above
      | false ↦ write_page parent' s.store
    ]
]

-- The leaf for a tuple: a new root, or the one that `findLeaf` finds.
unfoldable pub leaf_for : Floats → ℕ → Store → Tuple → Result (SlottedPage × Store)
unfolding pop_free_page get_btree_key find_leaf
leaf_for f fuel st t = elim (st.root == 0) [
  | true ↦ do (p, st1) ← pop_free_page st; ok (new_leaf p, record st1 { root = p.page_index })
  | false ↦ do k ← get_btree_key t; leaf ← find_leaf f fuel st st.root k; ok (leaf, st)
]

-- The leaf is split when it has too many bytes, and written otherwise.
unfoldable pub put_leaf : Floats → ℕ → SlottedPage → Store → Result Store
unfolding get_size_of_used_bytes split_leaf insert_btree write_page
put_leaf f fuel leaf st = elim (ltb maximum_used_bytes (get_size_of_used_bytes leaf)) [
  | true ↦ do s ← split_leaf leaf st; insert_btree f fuel s
  | false ↦ write_page leaf st
]

unfoldable pub set_btree : Floats → ℕ → Store → Tuple → Result Store
unfolding leaf_for leaf_add_tuple put_leaf
set_btree f fuel st t = do
  (leaf, st1) ← leaf_for f fuel st t
  leaf' ← leaf_add_tuple f leaf t
  put_leaf f fuel leaf' st1
