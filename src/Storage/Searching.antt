-- ===== src/Storage/Searching.antt =====
-- Trees of pages in core/storage/storage.cpp, and what `findLeaf` and `searchBtree` find in them.
use csql.Base.{
  ℕ, zero, suc, ◌≤◌, ◌<◌, ◌≡◌, refl, sym, ap, ◌∙◌, true, false, ◌⊎◌, inl, inr, none, some, List,
  arith, ltb, ◌==◌, length, Bool-cases,
}
use mathlib.Core.Path.{subst}
use csql.Base.Result.{ok}
use csql.Types.{KeyElementType, BPlusKey, Floats}
use csql.Types.Key.{key_eq, key_ne}
use csql.Types.Order.{FloatOrder, HasShape, lt_keys, lt_keys_asym, lt_keys_trans, key_ne-lt_keys}
use csql.Page.{PageType, SlottedPage, key_at, lower_bound, get_child_index}
use csql.Page.Nodes.{index_of_child, get_child}
use csql.Page.Search.{IsKeyed, IsPlace, lower_bound-IsPlace}
use csql.Storage.{Store, read_node, find_leaf, search_btree}

-- The pages below a page: its keys, and for an internal node the indexes and the trees of its
-- children.
pub data Tree : Type 0 where
  leaf : SlottedPage → (ℕ → BPlusKey) → Tree
  node : SlottedPage → (ℕ → BPlusKey) → (ℕ → ℕ) → (ℕ → Tree) → Tree

-- Slot `j` of the leaf `p` of the tree has the key `k`.
abbrev pub Holds : Tree → SlottedPage → ℕ → BPlusKey → Type 0
Holds (leaf q keys) p j k = (q ≡ p) × (j < length q.tuples) × (keys j ≡ k)
Holds (node q keys index child) p j k = (c : ℕ) × (c < length q.tuples) × Holds (child c) p j k

pub record IsLeafAt (f : Floats) (N : ℕ → Type 0) (ts : List KeyElementType) (st : Store) (i : ℕ)
    (R : BPlusKey → Type 0) (p : SlottedPage) (keys : ℕ → BPlusKey) : Type 0 where
  pub read : read_node st i ≡ ok p
  pub is : p.page_type ≡ PageType.leaf_b_plus_node
  pub keyed : IsKeyed f N ts p 0 keys
  pub inside : (j : ℕ) → j < length p.tuples → R (keys j)

-- The separators of an internal node stand from its second entry on.
pub record IsNodeAt (f : Floats) (N : ℕ → Type 0) (ts : List KeyElementType) (st : Store) (i : ℕ)
    (p : SlottedPage) (keys : ℕ → BPlusKey) (index : ℕ → ℕ) : Type 0 where
  pub read : read_node st i ≡ ok p
  pub is : p.page_type ≡ PageType.internal_b_plus_node
  pub keyed : IsKeyed f N ts p 1 keys
  pub filled : 0 < length p.tuples
  pub children : (j : ℕ) → j < length p.tuples → get_child_index p j ≡ ok (index j)

-- A key of the range `R` that lies between separator `j` and the next one.
abbrev pub Between : Floats → (BPlusKey → Type 0) → (ℕ → BPlusKey) → ℕ → ℕ → BPlusKey → Type 0
Between f R keys n j k =
    R k × (1 ≤ j → lt_keys f k (keys j) ≡ false) × (suc j < n → lt_keys f k (keys (suc j)) ≡ true)

-- The store has the tree at page `i`, in at most that many levels, with its keys in the range.
abbrev pub IsTree :
    Floats
    → (ℕ → Type 0)
    → List KeyElementType
    → Store
    → ℕ
    → ℕ
    → (BPlusKey → Type 0)
    → Tree
    → Type 0
IsTree f N ts st zero i R t = ⊥
IsTree f N ts st (suc n) i R (leaf p keys) = IsLeafAt f N ts st i R p keys
IsTree f N ts st (suc n) i R (node p keys index child) =
    IsNodeAt f N ts st i p keys index
    × ((j : ℕ)
        → j < length p.tuples
        → IsTree f N ts st n (index j) (Between f R keys (length p.tuples) j) (child j))

module _ (f : Floats) (N : ℕ → Type 0) (o : FloatOrder f N) (ts : List KeyElementType)
    (st : Store) where
  Holds-range :
      (n i : ℕ) (R : BPlusKey → Type 0) (t : Tree) (p : SlottedPage) (j : ℕ) (k : BPlusKey)
      → IsTree f N ts st n i R t
      → Holds t p j k
      → R k
  Holds-range zero i R t p j k w h = absurd w
  Holds-range (suc n) i R (leaf q keys) p j k w h = subst R h.2 (w.inside j h.1)
  Holds-range (suc n) i R (node q keys index child) p j k w h =
      let (c, cn, inside) = h in
      (Holds-range n (index c) (Between f R keys (length q.tuples) c) (child c) p j k (w.1 c cn)
        inside).0

  -- The child that `getChild` takes.
  get_child-Between :
      (p : SlottedPage) (keys : ℕ → BPlusKey) (index : ℕ → ℕ) (i : ℕ) (k : BPlusKey)
      → HasShape N ts k
      → IsNodeAt f N ts st i p keys index
      → (m : ℕ) × (m < length p.tuples)
        × (get_child f p k ≡ ok (index m))
        × (1 ≤ m → lt_keys f k (keys m) ≡ false)
        × ((j : ℕ) → m < j → j < length p.tuples → lt_keys f k (keys j) ≡ true)
  unfolding get_child index_of_child
  get_child-Between p keys index i k hk w =
      elim (lower_bound-IsPlace f N o ts p k 1 keys hk w.keyed) [
        | inl (run, later) ↦ (
          0,
          w.filled,
          rw run (w.children 0 w.filled),
          (λ z. absurd (omega (arith, z))),
          λ j zj jn. later j (omega arith) jn,
        )
        | inr (m, run, place) ↦
            (m, place.high, rw run (w.children m place.high), (λ z. place.at_most), place.next)
      ]

  -- The children are apart: a key between other separators is not there.
  same_child :
      (p : SlottedPage) (keys : ℕ → BPlusKey) (R : BPlusKey → Type 0) (k : BPlusKey) (c m : ℕ)
      → HasShape N ts k
      → IsKeyed f N ts p 1 keys
      → c < length p.tuples
      → m < length p.tuples
      → Between f R keys (length p.tuples) c k
      → (1 ≤ m → lt_keys f k (keys m) ≡ false)
      → ((j : ℕ) → m < j → j < length p.tuples → lt_keys f k (keys j) ≡ true)
      → c ≡ m
  same_child p keys R k c m hk w cn mn b low later = elim (Bool-cases (ltb m c)) [
    | inl right ↦ absurd (ground (arith, later c (ground arith) cn, b.1 (ground arith)))
    | inr no_more ↦ elim (Bool-cases (ltb c m)) [
      | inr same ↦ ground arith
      | inl before ↦
          let cm : suc c ≤ m = ground arith in
          let at_next : lt_keys f k (keys (suc c)) ≡ true = b.2 (omega arith) in
          let at_m : lt_keys f k (keys m) ≡ false = low (omega arith) in
          elim (Bool-cases (ltb (suc c) m)) [
            | inr here ↦
                let e : suc c ≡ m = ground arith in
                absurd (ground (arith, ap (λ i. lt_keys f k (keys i)) e, at_next, at_m))
            | inl further ↦
                let far : suc c < m = ground arith in
                absurd (
                  ground (
                    arith,
                    lt_keys_trans f N o ts k (keys (suc c)) (keys m) hk
                        (w.shaped (suc c) (omega arith) (omega arith)) (w.shaped m (omega arith) mn)
                        at_next (w.growing (suc c) m (omega arith) far mn),
                    at_m,
                  ))
          ]
    ]
  ]

  -- The slot that `lower_bound` gives on a page that has the key.
  place_unique :
      (q : SlottedPage) (keys : ℕ → BPlusKey) (k : BPlusKey) (j m : ℕ)
      → HasShape N ts k
      → IsKeyed f N ts q 0 keys
      → j < length q.tuples
      → keys j ≡ k
      → IsPlace f q k 0 keys m
      → m ≡ j
  place_unique q keys k j m hk w jn kj place = elim (Bool-cases (ltb m j)) [
    | inl before ↦
        let less : lt_keys f k k ≡ true =
          ap (lt_keys f k) (sym kj) ∙ place.next j (ground arith) jn in
        absurd (ground (arith, less, lt_keys_asym f N o ts k k hk hk less))
    | inr not_before ↦ elim (Bool-cases (ltb j m)) [
      | inr here ↦ ground arith
      | inl after ↦
          let less : lt_keys f k (keys m) ≡ true =
            ap (λ l. lt_keys f l (keys m)) (sym kj)
            ∙ w.growing j m (omega arith) (ground arith) place.high in
          absurd (ground (arith, less, place.at_most))
    ]
  ]

  -- `findLeaf` comes to a leaf of the tree, and no other leaf has the key.
  find_leaf-Holds :
      (n i : ℕ) (R : BPlusKey → Type 0) (t : Tree) (k : BPlusKey)
      → HasShape N ts k
      → IsTree f N ts st n i R t
      → (p : SlottedPage) × (keys : ℕ → BPlusKey) × (find_leaf f n st i k ≡ ok p)
        × IsKeyed f N ts p 0 keys
        × ((j : ℕ) → j < length p.tuples → Holds t p j (keys j))
        × ((q : SlottedPage) (j : ℕ)
            → Holds t q j k
            → (q ≡ p) × (j < length p.tuples) × (keys j ≡ k))
  unfolding find_leaf
  find_leaf-Holds zero i R t k hk w = absurd w
  find_leaf-Holds (suc n) i R (leaf p keys) k hk w = (
    p,
    keys,
    rw (w.read, w.is) refl,
    w.keyed,
    (λ j jn. (refl, jn, refl)),
    λ q j h. (sym h.0, h.1, h.2),
  )
  find_leaf-Holds (suc n) i R (node q keys index child) k hk w =
      let (m, mn, run, low, later) = get_child-Between q keys index i k hk w.0 in
      let (p, own, found, keyed, inside, only) =
        find_leaf-Holds n (index m) (Between f R keys (length q.tuples) m) (child m) k hk
          (w.1 m mn) in
      (
        p,
        own,
        rw (w.0.read, w.0.is, run) found,
        keyed,
        (λ j jn. (m, mn, inside j jn)),
        λ r j h.
            let (c, cn, h') = h in
            let range =
              Holds-range n (index c) (Between f R keys (length q.tuples) c) (child c) r j k
                (w.1 c cn) h' in
            let e = same_child q keys R k c m hk w.0.keyed cn mn range low later in
            only r j (subst (λ d. Holds (child d) r j k) e h'),
      )

  module _ (n : ℕ) (R : BPlusKey → Type 0) (t : Tree) (k : BPlusKey) (hk : HasShape N ts k)
      (w : IsTree f N ts st n st.root R t) (rooted : 0 < st.root) where
    -- In a store that has a tree of at most `n` levels at its root, searchBtree gives for a key
    -- that equals itself the leaf and the slot that have the key.
    pub search_btree-Holds :
        (p : SlottedPage) (j : ℕ)
        → key_eq f k k ≡ ok true
        → Holds t p j k
        → search_btree f n st k ≡ ok (some (j, p))
    unfolding search_btree key_ne
    search_btree-Holds p j same h =
        let (q, keys, found, keyed, inside, only) = find_leaf-Holds n st.root R t k hk w in
        let (e, jn, kj) = only p j h in
        let some_root : (st.root == 0) ≡ false = ground (arith, rooted) in
        let at_j : key_at q.tuples j ≡ ok k = keyed.keyed j (omega arith) jn ∙ ap ok kj in
        elim (lower_bound-IsPlace f N o ts q k 0 keys hk keyed) [
          | inl (run, later) ↦
              let less : lt_keys f k k ≡ true =
                ap (lt_keys f k) (sym kj) ∙ later j (omega arith) jn in
              absurd (ground (arith, less, lt_keys_asym f N o ts k k hk hk less))
          | inr (m, run, place) ↦
              let here = place_unique q keys k j m hk keyed jn kj place in
              let run_j : lower_bound f q k 0 ≡ ok (some j) = run ∙ ap (λ i. ok (some i)) here in
              rw (some_root, found, run_j, at_j, same, e, search_btree) refl
        ]

    -- In a store that has a tree of at most `n` levels at its root, searchBtree gives the end for
    -- a key that is less or greater than each key of the tree.
    pub search_btree-none :
        ((p : SlottedPage) (j : ℕ) (l : BPlusKey)
          → Holds t p j l
          → (lt_keys f l k ≡ true) ⊎ (lt_keys f k l ≡ true))
        → search_btree f n st k ≡ ok none
    unfolding search_btree
    search_btree-none apart =
        let (q, keys, found, keyed, inside, only) = find_leaf-Holds n st.root R t k hk w in
        let some_root : (st.root == 0) ≡ false = ground (arith, rooted) in
        elim (lower_bound-IsPlace f N o ts q k 0 keys hk keyed) [
          | inl (run, later) ↦ rw (some_root, found, run, search_btree) refl
          | inr (m, run, place) ↦
              let at_m : key_at q.tuples m ≡ ok (keys m) = keyed.keyed m (omega arith) place.high in
              let less : lt_keys f (keys m) k ≡ true =
                elim (apart q m (keys m) (inside m place.high)) [
                  | inl below ↦ below
                  | inr above ↦ absurd (ground (arith, above, place.at_most))
                ] in
              let other : key_ne f (keys m) k ≡ ok true =
                key_ne-lt_keys f N o ts (keys m) k (keyed.shaped m (omega arith) place.high) hk
                  less in
              rw (some_root, found, run, at_m, other, search_btree) refl
        ]
