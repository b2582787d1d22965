-- ===== src/Tests/Pages.antt =====
-- A leaf of two tuples, searched, laid out, split and added to.
use csql.Base.{
  erase_at, ℕ, zero, suc, ◌+◌, ◌/◌, ◌≤◌, ◌<◌, ◌≡◌, refl, Bool, true, false, not, ◌⊎◌, inl, inr,
  none, some, List, [], ◌∷◌, ◌++◌, arith, take, drop, insert_at,
}
use csql.Base.Int.{pos}
use csql.Base.Text.{str_eq}
use csql.Base.Assoc.{lookup}
use csql.Base.Result.{ok, ◌>>=◌}
use csql.Types.{sql_int, KeyElementType, int_element, PairKeyElement, BPlusKey, sql_key, Floats}
use csql.Types.Key.{key_lt, key_le, element_lt}
use csql.Types.Order.{lt_keys, key_lt-StrictWeak}
use csql.Types.Size.{
  size_of_tuple, size_of_tuple_from, size_of_sql_type, raw_size, raw_size_from, element_size,
}
use csql.Types.Tuples.{Tuple}
use csql.Page.{
  child_btree_key, get_btree_child, tuple_at, PageType, SlottedPage, btree_key, get_btree_key,
  key_at, lower_bound, reassign_data,
}
use csql.Page.Nodes.{merge_leaf_node, leaf_add_tuple, leaf_split_node}
use csql.Page.Search.{IsKeyed, IsPlace, lower_bound-IsPlace}
use csql.Page.Merge.{HasChildren, IsFirst, merge_leaf_node-IsLayout}
use csql.Page.Layout.{IsSizes, IsLayout, reassign_data-IsLayout, leaf_split_node-IsLayout}
use csql.Page.Insert.{put_in, IsNew, leaf_add_tuple-IsKeyed}
use csql.Tests.Numbers.{plain_floats, plain_floats-FloatOrder}

abbrev key : ℕ → BPlusKey
key n = record { first = KeyElementType.int_type; second = int_element (pos n) } ∷ []

abbrev row : ℕ → Tuple
row n = (btree_key, sql_key (key n)) ∷ []

abbrev leaf : SlottedPage
leaf = record {
  page_type = PageType.leaf_b_plus_node;
  page_index = 1;
  prev_leaf = 0;
  next_leaf = 0;
  parent_index = 0;
  begin_free_space = 29;
  end_free_space = 4022;
  num_slots = 2;
  slots = 4059 ∷ 4022 ∷ [];
  tuples = row 1 ∷ row 3 ∷ [];
}

abbrev shape : List KeyElementType
shape = KeyElementType.int_type ∷ []

abbrev keys : ℕ → BPlusKey
keys zero = key 1
keys (suc n) = key 3

abbrev Number : ℕ → Type 0
Number n = Unit

row-key : (n : ℕ) → get_btree_key (row n) ≡ ok (key n)
unfolding get_btree_key lookup str_eq
row-key n = refl

leaf-IsKeyed : IsKeyed plain_floats Number shape leaf 0 keys
unfolding key_at lt_keys element_lt
leaf-IsKeyed = record {
  count = refl;
  keyed = λ i z h. at_slot i h;
  shaped = λ i z h. shape_at i;
  growing = λ i j z ij jn. ordered i j ij jn;
}
  where
    at_slot : (i : ℕ) → i < 2 → key_at leaf.tuples i ≡ ok (keys i)
    at_slot zero h = row-key 1
    at_slot (suc zero) h = row-key 3
    at_slot (suc (suc i)) h = absurd (omega arith)

    shape_at : (i : ℕ) → csql.Types.Order.HasShape Number shape (keys i)
    shape_at zero = (refl, tt, tt)
    shape_at (suc i) = (refl, tt, tt)

    ordered : (i j : ℕ) → i < j → j < 2 → lt_keys plain_floats (keys i) (keys j) ≡ true
    ordered zero (suc zero) ij jn = refl
    ordered zero zero ij jn = absurd (omega arith)
    ordered zero (suc (suc j)) ij jn = absurd (omega arith)
    ordered (suc i) j ij jn = absurd (omega arith)

lower_bound-IsPlace_example :
    ((lower_bound plain_floats leaf (key 2) 0 ≡ ok none)
      × ((j : ℕ) → 0 ≤ j → j < 2 → lt_keys plain_floats (key 2) (keys j) ≡ true))
    ⊎ ((m : ℕ) × (lower_bound plain_floats leaf (key 2) 0 ≡ ok (some m))
        × IsPlace plain_floats leaf (key 2) 0 keys m)
lower_bound-IsPlace_example =
    lower_bound-IsPlace plain_floats Number plain_floats-FloatOrder shape leaf (key 2) 0 keys
      (refl, tt, tt) leaf-IsKeyed

key_lt-StrictWeak_example :
    ((b : Bool) × (key_lt plain_floats (key 2) (key 1) ≡ ok b)
      × (key_le plain_floats (key 1) (key 2) ≡ ok (not b)))
    × (key_lt plain_floats (key 1) (key 2) ≡ ok true
        → key_lt plain_floats (key 2) (key 1) ≡ ok false)
    × (key_lt plain_floats (key 1) (key 2) ≡ ok true
        → key_lt plain_floats (key 2) (key 3) ≡ ok true
        → key_lt plain_floats (key 1) (key 3) ≡ ok true)
    × (key_lt plain_floats (key 1) (key 3) ≡ ok true
        → (key_lt plain_floats (key 1) (key 2) ≡ ok true)
          ⊎ (key_lt plain_floats (key 2) (key 3) ≡ ok true))
key_lt-StrictWeak_example =
    key_lt-StrictWeak plain_floats Number plain_floats-FloatOrder shape (key 1) (key 2) (key 3)
      (refl, tt, tt) (refl, tt, tt) (refl, tt, tt)

row_size : (n : ℕ) → size_of_tuple (row n) ≡ ok 37
unfolding size_of_tuple size_of_tuple_from size_of_sql_type raw_size raw_size_from element_size
row_size n = refl

leaf-IsSizes : IsSizes leaf.tuples 74
leaf-IsSizes = (37, 37, row_size 1, (37, 0, row_size 3, refl, refl), refl)

reassign_data-IsLayout_example :
    (p' : SlottedPage) × (reassign_data leaf ≡ ok p') × IsLayout leaf p' 74
reassign_data-IsLayout_example = reassign_data-IsLayout leaf 74 leaf-IsSizes (omega arith)

abbrev fresh_leaf : SlottedPage
fresh_leaf = record leaf { page_index = 2; num_slots = 0; slots = []; tuples = [] }

leaf_split_node-IsLayout_example :
    (left' : SlottedPage) × (p' : SlottedPage) × (a : ℕ) × (b : ℕ) × (leaf_split_node leaf
        fresh_leaf
      ≡ ok (left', p'))
    × (left'.tuples ++ p'.tuples ≡ leaf.tuples)
    × (left'.num_slots ≡ 2 / 2)
    × IsLayout (record fresh_leaf { tuples = take (2 / 2) leaf.tuples }) left' a
    × IsLayout (record leaf { tuples = drop (2 / 2) leaf.tuples }) p' b
    × (74 ≡ a + b)
leaf_split_node-IsLayout_example =
    leaf_split_node-IsLayout leaf fresh_leaf 74 refl leaf-IsSizes (omega arith) refl

key_2-IsNew : IsNew plain_floats leaf keys (key 2)
unfolding lt_keys element_lt
key_2-IsNew zero h = inl refl
key_2-IsNew (suc n) h = inr refl

leaf_add_tuple-IsKeyed_example :
    (i : ℕ) × (p' : SlottedPage) × (leaf_add_tuple plain_floats leaf (row 2) ≡ ok p')
    × (i ≤ 2)
    × IsLayout (record leaf { tuples = insert_at i (row 2) leaf.tuples }) p' (74 + 37)
    × IsKeyed plain_floats Number shape p' 0 (put_in i (key 2) keys)
leaf_add_tuple-IsKeyed_example =
    leaf_add_tuple-IsKeyed plain_floats Number plain_floats-FloatOrder shape leaf (row 2) (key 2)
      keys 74 37 (row-key 2) (refl, tt, tt) leaf-IsKeyed key_2-IsNew leaf-IsSizes (row_size 2)
      (omega arith)

-- The leaf after the first, and the parent of both.
abbrev next_leaf_page : SlottedPage
next_leaf_page = record leaf { page_index = 2; next_leaf = 5; tuples = row 7 ∷ row 9 ∷ [] }

abbrev entry : ℕ → ℕ → Tuple
entry n child = (child_btree_key, sql_int (pos child)) ∷ (btree_key, sql_key (key n)) ∷ []

abbrev parent : SlottedPage
parent = record leaf {
  page_type = PageType.internal_b_plus_node;
  page_index = 3;
  tuples = entry 0 1 ∷ entry 7 2 ∷ [];
}

entry_size : (n child : ℕ) → size_of_tuple (entry n child) ≡ ok 65
unfolding size_of_tuple size_of_tuple_from size_of_sql_type raw_size raw_size_from element_size
entry_size n child = refl

abbrev children : ℕ → ℕ
children zero = 1
children (suc n) = 2

entry-child : (n : ℕ) → get_btree_child (entry n 1) ≡ ok 1
unfolding get_btree_child lookup str_eq
entry-child n = refl

entry-child_2 : (n : ℕ) → get_btree_child (entry n 2) ≡ ok 2
unfolding get_btree_child lookup str_eq
entry-child_2 n = refl

parent-HasChildren : HasChildren parent children
parent-HasChildren = record { count = refl; child_at = λ j h. at j h }
  where
    at : (j : ℕ) → j < 2 → (tuple_at parent.tuples j >>= get_btree_child) ≡ ok (children j)
    at zero h = entry-child 0
    at (suc zero) h = entry-child_2 7
    at (suc (suc j)) h = absurd (omega arith)

children-IsFirst : IsFirst children 2 1
children-IsFirst = record { here = refl; earlier = λ j h. differs j h }
  where
    differs : (j : ℕ) → j < 1 → ¬ children j ≡ 2
    differs zero h e = absurd (omega (arith, e))
    differs (suc j) h e = absurd (omega arith)

merge_leaf_node-IsLayout_example :
    (p' : SlottedPage) × (parent' : SlottedPage) × (a : ℕ) × (merge_leaf_node leaf next_leaf_page
        parent
      ≡ ok (record p' { next_leaf = 5 }, parent'))
    × IsLayout (record leaf { tuples = leaf.tuples ++ next_leaf_page.tuples }) p' (74 + 74)
    × IsLayout (record parent { tuples = erase_at 1 parent.tuples }) parent' a
merge_leaf_node-IsLayout_example =
    merge_leaf_node-IsLayout leaf next_leaf_page parent children 1 74 74 130 leaf-IsSizes
      (37, 37, row_size 7, (37, 0, row_size 9, refl, refl), refl) (omega arith) parent-HasChildren
      children-IsFirst (omega arith)
      (65, 65, entry_size 0 1, (65, 0, entry_size 7 2, refl, refl), refl) (omega arith)
