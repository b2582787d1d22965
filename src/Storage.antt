-- ===== src/Storage.antt =====
-- core/storage/storage.cpp and storage.h: the pages of an entity and the search in its B+ tree.
-- The pages are those in the page cache, as last saved: a page that is read is refreshed from what
-- was saved, and no page that a method has changed is read again before it saves it. A page that
-- is not in the cache would be decoded from its file; here it is the failure `not_cached`.
pub mod Inserting
pub mod Removing
pub mod Searching
pub mod FreePages
pub mod FirstTuple
use csql.Base.{
  ℕ, zero, suc, ◌+◌, ◌*◌, ◌≡◌, Bool, true, false, Option, none, some, List, [], ◌∷◌, leb, ◌==◌,
  if◌then◌else◌, length, codes, Str,
}
use csql.Base.Assoc.{lookup, assign, nat_eq}
use csql.Base.Result.{
  Result, Failure, ok, err, errors, undefined, no_fuel, ◌>>=◌, ◌>>◌, guard, or_fail,
}
use csql.Types.{DataTypes, BPlusKey, Floats}
use csql.Types.Key.{key_ne}
use csql.Types.Size.{u32}
use csql.Types.Tuples.{Tuple}
use csql.Page.{
  PageType, SlottedPage, is_internal, tuple_at, key_at, get_btree_child, lower_bound,
  header_default_size, storage_unit_size,
}
use csql.Page.Saving.{save_node, new_block}
use csql.Page.Nodes.{get_child, front, last_slot}

-- The pages, the links of the free pages, and the fields of the entity and of the index that the
-- methods change; and the attributes of the entity with their types.
pub record Store : Type 0 where
  pub pages : List (ℕ × SlottedPage)
  pub free_links : List (ℕ × ℕ)
  pub first_free_page : ℕ
  pub n_page : ℕ
  pub root : ℕ
  pub attributes : List (Str × DataTypes)

abbrev pub not_cached : Failure
not_cached = errors (codes "not in the page cache")

abbrev pub is_leaf : PageType → Bool
is_leaf PageType.leaf_b_plus_node = true
is_leaf _ = false

abbrev pub is_free : PageType → Bool
is_free PageType.free_page = true
is_free _ = false

-- `Configs::storageMaximumUsedBytes` and `storageMinimumUsedBytes`
abbrev pub maximum_used_bytes : ℕ
maximum_used_bytes = 3840

abbrev pub minimum_used_bytes : ℕ
minimum_used_bytes = 1920

abbrev pub end_of_slots : List ℕ → ℕ
end_of_slots [] = storage_unit_size
end_of_slots (s ∷ []) = s
end_of_slots (s ∷ ss) = end_of_slots ss

-- `refresh` of a node: the free space is computed anew, with the whole header of the node.
unfoldable pub refreshed : SlottedPage → SlottedPage
refreshed p = if is_free p.page_type then p else record p {
  begin_free_space =
      header_default_size + (if is_internal p.page_type then 0 else 8) + 4 * length p.slots;
  end_free_space = end_of_slots p.slots;
}

-- `readPage`; `none` is the null pointer.
unfoldable pub read_page : Store → ℕ → Result (Option SlottedPage)
unfolding lookup refreshed
read_page st zero = ok none
read_page st (suc i) = or_fail (lookup (suc i) st.pages) not_cached >>= λ p. ok (some (refreshed p))

-- `readPage`, and the pointer is dereferenced.
unfoldable pub read_node : Store → ℕ → Result SlottedPage
unfolding read_page
read_node st i = read_page st i >>= λ p. or_fail p undefined

-- What `writePage` does after `save`.
unfoldable pub cache_page : SlottedPage → Store → Store
unfolding assign
cache_page p st =
    if p.page_index == 0 then st else record st { pages = assign p.page_index p st.pages }

-- `writePage` on a page of the tree that is not null.
unfoldable pub write_page : SlottedPage → Store → Result Store
unfolding save_node cache_page
write_page p st =
    if p.page_index == 0
    then ok st
    else save_node st.attributes p new_block >>= λ io. ok (cache_page p st)

-- `dynamic_cast` to the class of internal nodes, and to that of leaves, dereferenced.
abbrev pub internal_cast : SlottedPage → Result (Unit {0})
internal_cast p = guard (is_internal p.page_type) undefined

abbrev pub leaf_cast : SlottedPage → Result (Unit {0})
leaf_cast p = guard (is_leaf p.page_type) undefined

-- The constructors of nodes from a free page.
abbrev pub new_page : PageType → ℕ → ℕ → SlottedPage
new_page type index header = record {
  page_type = type;
  page_index = index;
  prev_leaf = 0;
  next_leaf = 0;
  parent_index = 0;
  begin_free_space = header;
  end_free_space = storage_unit_size;
  num_slots = 0;
  slots = [];
  tuples = [];
}

abbrev pub new_leaf : SlottedPage → SlottedPage
new_leaf p = new_page PageType.leaf_b_plus_node p.page_index 25

abbrev pub new_internal : SlottedPage → SlottedPage
new_internal p = new_page PageType.internal_b_plus_node p.page_index 13

-- `popFreePage`; the free space of the new page is set by the constructor of the node.
unfoldable pub pop_free_page : Store → Result (SlottedPage × Store)
unfolding read_node lookup
pop_free_page st = elim (st.first_free_page == 0) [
  | true ↦ ok (new_page PageType.free_page (u32 st.n_page) 0, record st { n_page = st.n_page + 1 })
  | false ↦ do
    p ← read_node st st.first_free_page
    guard (is_free p.page_type) (errors (codes "popFreePage: the page is not free page"))
    next ← or_fail (lookup p.page_index st.free_links) undefined
    ok (p, record st { first_free_page = next })
]

-- `addPageIntoFreeZone`
unfoldable pub add_page_into_free_zone : SlottedPage → Store → Store
unfolding cache_page assign
add_page_into_free_zone p st = cache_page (new_page PageType.free_page p.page_index 0) (record st {
  free_links = assign p.page_index (u32 st.first_free_page) st.free_links;
  first_free_page = p.page_index;
})

-- `findLeaf` from a page on: the source loops; the height of the tree is enough fuel.
unfoldable pub find_leaf : Floats → ℕ → Store → ℕ → BPlusKey → Result SlottedPage
unfolding read_node get_child
find_leaf f zero st i k = err no_fuel
find_leaf f (suc fuel) st i k = read_node st i >>= λ node. elim (is_leaf node.page_type) [
  | true ↦ ok node
  | false ↦ do internal_cast node; child ← get_child f node k; find_leaf f fuel st child k
]

-- `BtreeLeafIterator`; `none` is the end.
abbrev pub BtreeLeafIterator : Type 0
BtreeLeafIterator = Option (ℕ × SlottedPage)

unfoldable pub search_btree : Floats → ℕ → Store → BPlusKey → Result BtreeLeafIterator
unfolding find_leaf lower_bound key_at key_ne
search_btree f fuel st k = elim (st.root == 0) [
  | true ↦ ok none
  | false ↦ do
    node ← find_leaf f fuel st st.root k
    index ← lower_bound f node k 0
    elim index [
      | none ↦ ok none
      | some i ↦ do
        found ← key_at node.tuples i
        other ← key_ne f found k
        if other then ok none else ok (some (i, node))
    ]
]

-- `beginLeaf` from a page on, after the test of the index.
unfoldable pub begin_loop : ℕ → Store → ℕ → Result BtreeLeafIterator
unfolding read_node get_btree_child
begin_loop zero st i = err no_fuel
begin_loop (suc fuel) st i = read_node st i >>= λ node. elim (is_leaf node.page_type) [
  | true ↦ if length node.tuples == 0 then ok none else ok (some (0, node))
  | false ↦ do t ← front node.tuples; child ← get_btree_child t; begin_loop fuel st child
]

unfoldable pub begin_leaf : ℕ → Store → ℕ → Result BtreeLeafIterator
unfolding begin_loop
begin_leaf fuel st zero = ok none
begin_leaf fuel st (suc i) = begin_loop fuel st (suc i)

unfoldable pub next_leaf : Store → ℕ → SlottedPage → Result BtreeLeafIterator
unfolding read_node
next_leaf st i p = elim (leb p.num_slots (i + 1)) [
  | false ↦ ok (some (i + 1, p))
  | true ↦ elim (p.next_leaf == 0) [
    | true ↦ ok none
    | false ↦ do next ← read_node st p.next_leaf; ok (some (0, next))
  ]
]
