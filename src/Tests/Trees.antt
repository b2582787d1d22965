-- ===== src/Tests/Trees.antt =====
-- A tree of three pages, searched.
use csql.Base.{
  ℕ, zero, suc, ◌≤◌, ◌<◌, ◌≡◌, refl, Bool, false, sym, true, ◌⊎◌, inl, inr, some, none, List, [],
  ◌∷◌, arith,
}
use csql.Base.Int.{pos}
use csql.Base.Text.{str_eq, str_lt}
use csql.Base.Assoc.{lookup}
use csql.Base.Result.{Result, err, ok}
use csql.Types.{sql_key, KeyElementType, int_element, BPlusKey}
use csql.Types.Key.{key_eq, key_lt, eq_loop, element_eq, element_lt}
use csql.Types.Order.{lt_keys}
use csql.Types.Tuples.{Tuple, insert}
use csql.Page.{
  PageType, SlottedPage, btree_key, key_at, get_btree_key, get_child_index, get_btree_child,
}
use csql.Page.Nodes.{base_internal_b_node}
use csql.Page.Search.{IsKeyed}
use csql.Storage.{
  Store, read_node, read_page, refreshed, search_btree, new_page, pop_free_page,
  add_page_into_free_zone,
}
use csql.Storage.Inserting.{set_btree}
use csql.Storage.FirstTuple.{one_leaf, search_btree-set_btree}
use csql.Storage.FreePages.{pop_free_page-add_page_into_free_zone}
use csql.Types.Size.{
  u32, size_of_tuple, size_of_tuple_from, size_of_sql_type, raw_size, raw_size_from, element_size,
}
use csql.Storage.Searching.{
  Tree, leaf, node, Holds, IsTree, IsLeafAt, IsNodeAt, Between, search_btree-Holds,
  search_btree-none,
}
use csql.Tests.Numbers.{plain_floats, plain_floats-FloatOrder}
use csql.Io.Cursor.{IoManager, put, overwrite}
use csql.Io.Bytes.{le_bytes, to_u64}
use csql.Io.Values.{
  write_uint, write_all, write_string, write_sql, write_vector, write_element, write_element_value,
  write_int64,
}
use csql.Page.Saving.{save_node, new_block, save_start, write_tuples, write_tuple, write_items}

abbrev key : ℕ → BPlusKey
key n = record { first = KeyElementType.int_type; second = int_element (pos n) } ∷ []

abbrev shape : List KeyElementType
shape = KeyElementType.int_type ∷ []

abbrev Number : ℕ → Type 0
Number n = Unit

-- A leaf with one tuple, as it is read.
abbrev small_leaf : ℕ → ℕ → ℕ → ℕ → SlottedPage
small_leaf index prev next n = record {
  page_type = PageType.leaf_b_plus_node;
  page_index = index;
  prev_leaf = prev;
  next_leaf = next;
  parent_index = 3;
  begin_free_space = 29;
  end_free_space = 4059;
  num_slots = 1;
  slots = 4059 ∷ [];
  tuples = ((btree_key, sql_key (key n)) ∷ []) ∷ [];
}

abbrev root_page : SlottedPage
root_page = record {
  page_type = PageType.internal_b_plus_node;
  page_index = 3;
  prev_leaf = 0;
  next_leaf = 0;
  parent_index = 0;
  begin_free_space = 25;
  end_free_space = 3966;
  num_slots = 2;
  slots = 4031 ∷ 3966 ∷ [];
  tuples = base_internal_b_node (key 5) 1 ∷ base_internal_b_node (key 5) 2 ∷ [];
}

abbrev store : Store
store = record {
  pages = (1, small_leaf 1 0 2 1) ∷ (2, small_leaf 2 1 0 5) ∷ (3, root_page) ∷ [];
  free_links = [];
  first_free_page = 0;
  n_page = 4;
  root = 3;
  attributes = [];
}

abbrev child_index : ℕ → ℕ
child_index zero = 1
child_index (suc j) = 2

abbrev child_tree : ℕ → Tree
child_tree zero = leaf (small_leaf 1 0 2 1) (λ j. key 1)
child_tree (suc j) = leaf (small_leaf 2 1 0 5) (λ j. key 5)

abbrev tree : Tree
tree = node root_page (λ j. key 5) child_index child_tree

small_leaf-IsKeyed :
    (index prev next n : ℕ)
    → IsKeyed plain_floats Number shape (small_leaf index prev next n) 0 (λ j. key n)
unfolding key_at get_btree_key lookup str_eq
small_leaf-IsKeyed index prev next n = record {
  count = refl;
  keyed = λ i z h. at_slot i h;
  shaped = λ i z h. (refl, tt, tt);
  growing = λ i j z ij jn. absurd (omega arith);
}
  where
    at_slot : (i : ℕ) → i < 1 → key_at (small_leaf index prev next n).tuples i ≡ ok (key n)
    at_slot zero h = refl
    at_slot (suc i) h = absurd (omega arith)

leaf_at :
    (i prev next n : ℕ) (R : BPlusKey → Type 0)
    → read_node store i ≡ ok (small_leaf i prev next n)
    → R (key n)
    → IsLeafAt plain_floats Number shape store i R (small_leaf i prev next n) (λ j. key n)
leaf_at i prev next n R h r = record {
  read = h;
  is = refl;
  keyed = small_leaf-IsKeyed i prev next n;
  inside = λ j z. r;
}

root_at : IsNodeAt plain_floats Number shape store 3 root_page (λ j. key 5) child_index
unfolding read_node read_page refreshed lookup base_internal_b_node insert str_eq str_lt key_at
    get_btree_key get_child_index get_btree_child
root_at = record {
  read = refl;
  is = refl;
  keyed = record {
    count = refl;
    keyed = λ i z h. at_slot i z h;
    shaped = λ i z h. (refl, tt, tt);
    growing = λ i j z ij jn. absurd (omega arith);
  };
  filled = omega arith;
  children = λ j h. at_child j h;
}
  where
    at_slot : (i : ℕ) → 1 ≤ i → i < 2 → key_at root_page.tuples i ≡ ok (key 5)
    at_slot zero z h = absurd (omega arith)
    at_slot (suc zero) z h = refl
    at_slot (suc (suc i)) z h = absurd (omega arith)

    at_child : (j : ℕ) → j < 2 → get_child_index root_page j ≡ ok (child_index j)
    at_child zero h = refl
    at_child (suc zero) h = refl
    at_child (suc (suc j)) h = absurd (omega arith)

first_range : Between plain_floats (λ k. Unit) (λ j. key 5) 2 0 (key 1)
unfolding lt_keys element_lt
first_range = (tt, (λ z. absurd (omega arith)), λ z. refl)

second_range : Between plain_floats (λ k. Unit) (λ j. key 5) 2 1 (key 5)
unfolding lt_keys element_lt
second_range = (tt, (λ z. refl), λ z. absurd (omega arith))

tree-IsTree : IsTree plain_floats Number shape store 2 3 (λ k. Unit) tree
unfolding read_node read_page refreshed lookup
tree-IsTree = (root_at, λ j h. at_child j h)
  where
    at_child :
        (j : ℕ)
        → j < 2
        → IsTree plain_floats Number shape store 1
            (child_index j)
            (Between plain_floats (λ k. Unit) (λ i. key 5) 2 j)
            (child_tree j)
    at_child zero h =
        leaf_at 1 0 2 1 (Between plain_floats (λ k. Unit) (λ i. key 5) 2 0) refl first_range
    at_child (suc zero) h =
        leaf_at 2 1 0 5 (Between plain_floats (λ k. Unit) (λ i. key 5) 2 1) refl second_range
    at_child (suc (suc j)) h = absurd (omega arith)

five_same : key_eq plain_floats (key 5) (key 5) ≡ ok true
unfolding key_eq eq_loop element_eq
five_same = refl

search_btree-Holds_example :
    search_btree plain_floats 2 store (key 5) ≡ ok (some (0, small_leaf 2 1 0 5))
search_btree-Holds_example =
    search_btree-Holds plain_floats Number plain_floats-FloatOrder shape store 2 (λ k. Unit) tree
      (key 5) (refl, tt, tt) tree-IsTree (omega arith) (small_leaf 2 1 0 5) 0 five_same
      (1, omega arith, (refl, omega arith, refl))

three_apart :
    (p : SlottedPage) (j : ℕ) (l : BPlusKey)
    → Holds tree p j l
    → (lt_keys plain_floats l (key 3) ≡ true) ⊎ (lt_keys plain_floats (key 3) l ≡ true)
unfolding lt_keys element_lt
three_apart p j l (zero, n, h) = inl (rw (sym h.2) refl)
three_apart p j l (suc c, n, h) = inr (rw (sym h.2) refl)

search_btree-none_example : search_btree plain_floats 2 store (key 3) ≡ ok none
search_btree-none_example =
    search_btree-none plain_floats Number plain_floats-FloatOrder shape store 2 (λ k. Unit) tree
      (key 3) (refl, tt, tt) tree-IsTree (omega arith) three_apart

pop_free_page-add_page_into_free_zone_example :
    (st' : Store) × (pop_free_page (add_page_into_free_zone (small_leaf 2 1 0 5) store)
      ≡ ok (new_page PageType.free_page 2 0, st'))
    × (st'.first_free_page ≡ u32 0)
    × (st'.n_page ≡ 4)
pop_free_page-add_page_into_free_zone_example =
    pop_free_page-add_page_into_free_zone (small_leaf 2 1 0 5) store (omega arith)

abbrev new_store : Store
new_store = record {
  pages = [];
  free_links = [];
  first_free_page = 0;
  n_page = 1;
  root = 0;
  attributes = [];
}

abbrev five : Tuple
five = (btree_key, sql_key (key 5)) ∷ []

five-key : get_btree_key five ≡ ok (key 5)
unfolding get_btree_key lookup str_eq
five-key = refl

five-size : size_of_tuple five ≡ ok 37
unfolding size_of_tuple size_of_tuple_from size_of_sql_type raw_size raw_size_from element_size
five-size = refl

five_not_less : key_lt plain_floats (key 5) (key 5) ≡ ok false
unfolding key_lt element_lt
five_not_less = refl

abbrev is_ok : Result IoManager → Bool
is_ok (ok io) = true
is_ok (err e) = false

abbrev block_of : Result IoManager → IoManager
block_of (ok io) = io
block_of (err e) = new_block

ok_block_of : (r : Result IoManager) → is_ok r ≡ true → r ≡ ok (block_of r)
ok_block_of (ok io) h = refl
ok_block_of (err e) h = absurd cc

abbrev leaf_saved : Result IoManager
leaf_saved = save_node [] (one_leaf 1 five 37) new_block

leaf_returns : is_ok leaf_saved ≡ true
unfolding save_node save_start write_uint write_all write_tuples write_tuple write_items
    write_string write_sql write_vector write_element write_element_value write_int64 to_u64 put
    overwrite le_bytes lookup str_eq size_of_tuple size_of_tuple_from size_of_sql_type raw_size
    raw_size_from element_size
leaf_returns = refl

search_btree-set_btree_example :
    (st' : Store) × (p : SlottedPage) × (set_btree plain_floats 3 new_store five ≡ ok st')
    × (search_btree plain_floats 4 st' (key 5) ≡ ok (some (0, p)))
    × (p.tuples ≡ five ∷ [])
search_btree-set_btree_example =
    search_btree-set_btree plain_floats five (key 5) 37 five-key five-size (omega arith) 3 new_store
      (block_of leaf_saved) refl refl (omega arith) (ok_block_of leaf_saved leaf_returns)
      five_not_less five_same
