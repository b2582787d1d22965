-- ===== src/Page/Merge.antt =====
-- What deletion and `LeafBPlusNode::mergeLeafNode` of core/storage/page do to the pages.
use csql.Base.{
  ℕ, zero, suc, ◌+◌, ◌*◌, ◌≤◌, ◌<◌, ◌≡◌, refl, ap, true, false, inl, inr, ◌==◌, Bool-cases, some,
  List, [], ◌∷◌, ◌++◌, arith, ltb, length, erase_at, length-append,
}
use csql.Base.Result.{ok, ◌>>=◌}
use csql.Types.Tuples.{Tuple}
use csql.Page.{
  SlottedPage, delete_tuple, storage_unit_size, tuple_at, get_btree_child, get_child_index,
}
use csql.Page.Nodes.{merge_leaf_node, child_slot}
use csql.Page.Layout.{IsSizes, IsLayout, counted_bytes, reassign_data-IsLayout, IsSizes-append}

IsSizes-erase_at :
    (i : ℕ) (ts : List Tuple) (n : ℕ) → IsSizes ts n → (a : ℕ) × IsSizes (erase_at i ts) a × (a ≤ n)
IsSizes-erase_at zero [] n h = (n, h, omega arith)
IsSizes-erase_at (suc i) [] n h = (n, h, omega arith)
IsSizes-erase_at zero (t ∷ ts) n (a, b, ta, rest, sum) = (b, rest, omega (arith, sum))
IsSizes-erase_at (suc i) (t ∷ ts) n (a, b, ta, rest, sum) =
    let (c, less, le) = IsSizes-erase_at i ts b rest in
    (a + c, (a, c, ta, less, refl), omega (arith, sum, le))

length-erase_at :
    (i : ℕ) (ts : List Tuple) → i < length ts → suc (length (erase_at i ts)) ≡ length ts
length-erase_at i [] h = absurd (omega arith)
length-erase_at zero (t ∷ ts) h = refl
length-erase_at (suc i) (t ∷ ts) h = ap suc (length-erase_at i ts (omega arith))

-- `deleteTuple` at a place in a page that fits returns: the tuple at that place goes, and the page
-- is laid out again with no more bytes of tuples.
delete_tuple-IsLayout :
    (p : SlottedPage) (i n : ℕ)
    → i < length p.tuples
    → IsSizes p.tuples n
    → counted_bytes p + 4 * length p.tuples + n ≤ storage_unit_size
    → (p' : SlottedPage) × (a : ℕ) × (delete_tuple p i ≡ ok p')
      × (a ≤ n)
      × IsLayout (record p { tuples = erase_at i p.tuples }) p' a
unfolding delete_tuple
delete_tuple-IsLayout p i n h sizes fits =
    let inside : ltb i (length p.tuples) ≡ true = ground arith in
    let (a, less, le) = IsSizes-erase_at i p.tuples n sizes in
    let one = length-erase_at i p.tuples h in
    let (p', run, l) =
      reassign_data-IsLayout (record p { tuples = erase_at i p.tuples }) a less
        (omega (arith, one, le)) in
    (p', a, rw inside run, le, l)

-- The children that the entries of a node name, all of them counted by `numSlots`.
pub record HasChildren (p : SlottedPage) (children : ℕ → ℕ) : Type 0 where
  pub count : p.num_slots ≡ length p.tuples
  pub child_at :
      (j : ℕ) → j < length p.tuples → (tuple_at p.tuples j >>= get_btree_child) ≡ ok (children j)

-- Entry `i` is the first that names `child`.
pub record IsFirst (children : ℕ → ℕ) (child i : ℕ) : Type 0 where
  pub here : children i ≡ child
  pub earlier : (j : ℕ) → j < i → ¬ children j ≡ child

get_child_index-child :
    (p : SlottedPage) (children : ℕ → ℕ) (j : ℕ)
    → HasChildren p children
    → j < length p.tuples
    → get_child_index p j ≡ ok (children j)
unfolding get_child_index
get_child_index-child p children j h small =
    let inside : ltb j p.num_slots ≡ true = ground (arith, h.count) in
    rw inside (h.child_at j small)

-- The loop from slot `s` finds the first entry of the child.
child_slot-first :
    (p : SlottedPage) (children : ℕ → ℕ) (child i n s : ℕ)
    → HasChildren p children
    → IsFirst children child i
    → s ≤ i
    → i < s + n
    → s + n ≡ length p.tuples
    → child_slot p child s n ≡ ok (some i)
unfolding child_slot
child_slot-first p children child i zero s h first low high all = absurd (omega arith)
child_slot-first p children child i (suc n) s h first low high all =
    let read = get_child_index-child p children s h (omega arith) in
    elim (Bool-cases (ltb s i)) [
      | inl before ↦
          let other : (children s == child) ≡ false = elim (Bool-cases (children s == child)) [
            | inl same ↦ absurd (first.earlier s (ground arith) (ground arith))
            | inr differs ↦ differs
          ] in
          rw (read, other)
            (child_slot-first p children child i n (suc s) h first (ground arith) (omega arith)
              (omega arith))
      | inr here ↦
          let at : s ≡ i = ground arith in
          let same : (children s == child) ≡ true = rw at (ground (arith, first.here)) in
          rw (read, same) (ap (λ j. ok (some j)) at)
    ]

-- When the tuples of both leaves fit in one page, by the header that `reassignData` counts, and
-- entry `i` of the parent is the first whose child is the right leaf, `mergeLeafNode` returns: the
-- node has its own tuples and then those of the right one, is laid out, and goes on to the leaf
-- after it; the parent, which fits too, loses entry `i`.
pub merge_leaf_node-IsLayout :
    (p next parent : SlottedPage) (children : ℕ → ℕ) (i n m k : ℕ)
    → IsSizes p.tuples n
    → IsSizes next.tuples m
    → counted_bytes p + 4 * (length p.tuples + length next.tuples) + (n + m) ≤ storage_unit_size
    → HasChildren parent children
    → IsFirst children next.page_index i
    → i < length parent.tuples
    → IsSizes parent.tuples k
    → counted_bytes parent + 4 * length parent.tuples + k ≤ storage_unit_size
    → (p' : SlottedPage) × (parent' : SlottedPage) × (a : ℕ) × (merge_leaf_node p next parent
        ≡ ok (record p' { next_leaf = next.next_leaf }, parent'))
      × IsLayout (record p { tuples = p.tuples ++ next.tuples }) p' (n + m)
      × IsLayout (record parent { tuples = erase_at i parent.tuples }) parent' a
unfolding merge_leaf_node
merge_leaf_node-IsLayout p next parent children i n m k sizes sizes' fits named first inside sizes''
      fits' =
    let entry =
      child_slot-first parent children next.page_index i (length parent.tuples) 0 named first
        (omega arith) (omega arith) (omega arith) in
    let len = length-append p.tuples next.tuples in
    let (p', run, l) =
      reassign_data-IsLayout (record p { tuples = p.tuples ++ next.tuples }) (n + m)
        (IsSizes-append p.tuples next.tuples n m sizes sizes') (omega (arith, len)) in
    let (parent', a, run', le, l') = delete_tuple-IsLayout parent i k inside sizes'' fits' in
    (p', parent', a, rw (run, entry, run') refl, l, l')
