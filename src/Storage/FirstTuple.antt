-- ===== src/Storage/FirstTuple.antt =====
-- The first tuple of a B+ tree in core/storage/storage.cpp, put in and searched.
use csql.Base.{
  ℕ, zero, suc, ◌+◌, ◌-◌, ◌^◌, ◌≤◌, ◌<◌, ◌≡◌, refl, ap, ◌∙◌, true, false, some, [], ◌∷◌, arith, ltb,
  ◌==◌,
}
use mathlib.Core.Path.{subst}
use csql.Base.Assoc.{lookup, assign, nat_eq, lookup-assign, beq_refl}
use csql.Base.Result.{ok}
use csql.Types.{BPlusKey, Floats}
use csql.Types.Key.{key_lt, key_eq, key_ne}
use csql.Types.Size.{u32, size_of_tuple}
use csql.Types.Tuples.{Tuple}
use csql.Page.{
  PageType, SlottedPage, get_btree_key, get_size_of_used_bytes, key_at, lower_bound, search_loop,
  assign_slots, reassign_data,
}
use csql.Page.Nodes.{leaf_add_tuple, check_new}
use csql.Io.Cursor.{IoManager}
use csql.Page.Saving.{save_node, new_block}
use csql.Storage.{
  Store, new_page, cache_page, pop_free_page, read_node, read_page, refreshed, write_page,
  find_leaf, search_btree, maximum_used_bytes,
}
use csql.Storage.Inserting.{leaf_for, put_leaf, set_btree}

-- The leaf with one tuple of that many bytes.
abbrev pub one_leaf : ℕ → Tuple → ℕ → SlottedPage
one_leaf i t a = record {
  page_type = PageType.leaf_b_plus_node;
  page_index = i;
  prev_leaf = 0;
  next_leaf = 0;
  parent_index = 0;
  begin_free_space = 25;
  end_free_space = u32 (4096 + 2 ^ 32 - a);
  num_slots = 1;
  slots = u32 (4096 + 2 ^ 32 - a) ∷ [];
  tuples = t ∷ [];
}

module _ (f : Floats) (t : Tuple) (k : BPlusKey) (a : ℕ) (tk : get_btree_key t ≡ ok k)
    (ta : size_of_tuple t ≡ ok a) (fits : a ≤ 3815) where
  leaf_add_tuple-one :
      (i : ℕ) → leaf_add_tuple f (new_page PageType.leaf_b_plus_node i 25) t ≡ ok (one_leaf i t a)
  unfolding leaf_add_tuple lower_bound check_new reassign_data assign_slots
  leaf_add_tuple-one i = rw (tk, ta) refl

  used-one : (i : ℕ) → get_size_of_used_bytes (one_leaf i t a) ≡ 25 + a
  unfolding get_size_of_used_bytes
  used-one i = omega (arith, fits)

  leaf_for-one :
      (fuel m : ℕ) (st : Store)
      → st.root ≡ 0
      → st.first_free_page ≡ 0
      → u32 st.n_page ≡ suc m
      → leaf_for f fuel st t
        ≡ ok (
          new_page PageType.leaf_b_plus_node (suc m) 25,
          record st { n_page = st.n_page + 1; root = suc m },
        )
  unfolding leaf_for pop_free_page
  leaf_for-one fuel m st r z e =
      let rootless : (st.root == 0) ≡ true = ground (arith, r) in
      let no_free : (st.first_free_page == 0) ≡ true = ground (arith, z) in
      let popped : pop_free_page st
          ≡ ok (
            new_page PageType.free_page (u32 st.n_page) 0,
            record st { n_page = st.n_page + 1 },
          ) =
        rw (no_free, pop_free_page) refl in
      rw (rootless, popped, e, leaf_for) refl

  -- The store after the first tuple.
  abbrev stored : ℕ → Store → Store
  stored m st = record st {
    pages = assign (suc m) (one_leaf (suc m) t a) st.pages;
    n_page = st.n_page + 1;
    root = suc m;
  }

  -- `save` of the leaf returns.
  abbrev IsSaved : ℕ → Store → IoManager → Type 0
  IsSaved i st io = save_node st.attributes (one_leaf i t a) new_block ≡ ok io

  put_leaf-one :
      (fuel m : ℕ) (st : Store) (io : IoManager)
      → IsSaved (suc m) st io
      → put_leaf f fuel (one_leaf (suc m) t a) (record st { n_page = st.n_page + 1; root = suc m })
        ≡ ok (stored m st)
  unfolding put_leaf write_page cache_page
  put_leaf-one fuel m st io saved =
      let some_page : (suc m == 0) ≡ false = ground arith in
      let small : ltb maximum_used_bytes (get_size_of_used_bytes (one_leaf (suc m) t a)) ≡ false =
        ap (ltb maximum_used_bytes) (used-one (suc m)) ∙ ground (arith, fits) in
      rw (small, some_page, saved, put_leaf) refl

  set_btree-one :
      (fuel m : ℕ) (st : Store) (io : IoManager)
      → st.root ≡ 0
      → st.first_free_page ≡ 0
      → u32 st.n_page ≡ suc m
      → IsSaved (suc m) st io
      → set_btree f fuel st t ≡ ok (stored m st)
  unfolding set_btree
  set_btree-one fuel m st io r z e saved =
      rw (leaf_for-one fuel m st r z e, leaf_add_tuple-one (suc m))
        (put_leaf-one fuel m st io saved)

  search_btree-one :
      (fuel m : ℕ) (st : Store)
      → key_lt f k k ≡ ok false
      → key_eq f k k ≡ ok true
      → search_btree f (suc fuel) (stored m st) k ≡ ok (some (0, refreshed (one_leaf (suc m) t a)))
  unfolding search_btree find_leaf read_node read_page refreshed lower_bound key_at key_ne
      search_loop
  search_btree-one fuel m st lt same =
      let some_page : (suc m == 0) ≡ false = ground arith in
      let there : lookup (suc m) (assign (suc m) (one_leaf (suc m) t a) st.pages)
          ≡ some (one_leaf (suc m) t a) =
        rw (lookup-assign (suc m) (suc m) (one_leaf (suc m) t a) st.pages, beq_refl (suc m)) refl in
      let read : read_node (stored m st) (suc m) ≡ ok (refreshed (one_leaf (suc m) t a)) =
        rw there refl in
      let found : find_leaf f (suc fuel) (stored m st) (suc m) k
          ≡ ok (refreshed (one_leaf (suc m) t a)) =
        rw read refl in
      let at_first : lower_bound f (refreshed (one_leaf (suc m) t a)) k 0 ≡ ok (some 0) =
        rw (tk, lt) refl in
      rw (some_page, found, at_first, tk, same, search_btree) refl

  -- In an entity without a tree and without free pages, setBTree of a tuple of at most 3815 bytes
  -- returns, when `save` of the leaf that has only this tuple does, and searchBtree then finds the
  -- key of the tuple, when it equals itself and is not less than itself, in the first slot of a leaf
  -- with only this tuple; the index of the next page is not 0 as a number of 32 bits.
  pub search_btree-set_btree :
      (fuel : ℕ) (st : Store) (io : IoManager)
      → st.root ≡ 0
      → st.first_free_page ≡ 0
      → 0 < u32 st.n_page
      → IsSaved (u32 st.n_page) st io
      → key_lt f k k ≡ ok false
      → key_eq f k k ≡ ok true
      → (st' : Store) × (p : SlottedPage) × (set_btree f fuel st t ≡ ok st')
        × (search_btree f (suc fuel) st' k ≡ ok (some (0, p)))
        × (p.tuples ≡ t ∷ [])
  unfolding refreshed
  search_btree-set_btree fuel st io r z n saved lt same = go (u32 st.n_page) refl n
    where
      go :
          (i : ℕ)
          → u32 st.n_page ≡ i
          → 0 < i
          → (st' : Store) × (p : SlottedPage) × (set_btree f fuel st t ≡ ok st')
            × (search_btree f (suc fuel) st' k ≡ ok (some (0, p)))
            × (p.tuples ≡ t ∷ [])
      go zero e h = absurd (omega (arith, h))
      go (suc m) e h = (
        stored m st,
        refreshed (one_leaf (suc m) t a),
        set_btree-one fuel m st io r z e (subst (λ i. IsSaved i st io) e saved),
        search_btree-one fuel m st lt same,
        refl,
      )
