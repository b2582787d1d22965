-- ===== src/Page/Insert.antt =====
-- What `LeafBPlusNode::addTuple` of core/storage/page/b_plus_node does to a sorted leaf.
use csql.Base.{
  ℕ, zero, suc, ◌+◌, ◌-◌, ◌*◌, ◌≤◌, ◌<◌, ◌≡◌, refl, sym, ap, ◌∙◌, true, ◌⊎◌, inl, inr, Option, none,
  some, List, [], ◌∷◌, arith, ltb, leb, ◌==◌, if◌then◌else◌, length, get_elem?, take, drop,
  insert_at, Bool-cases, length-append, length-take_le, length-drop,
}
use mathlib.Core.Path.{subst}
use csql.Base.Result.{ok}
use csql.Types.{KeyElementType, BPlusKey, Floats}
use csql.Types.Key.{key_ne}
use csql.Types.Order.{FloatOrder, HasShape, lt_keys, lt_keys_trans, key_ne-lt_keys}
use csql.Types.Size.{size_of_tuple}
use csql.Types.Tuples.{Tuple}
use csql.Page.{SlottedPage, get_btree_key, key_at, lower_bound, storage_unit_size}
use csql.Page.Nodes.{leaf_add_tuple, check_new, after}
use csql.Page.Search.{IsKeyed, lower_bound-IsPlace}
use csql.Page.Layout.{
  IsSizes, IsLayout, counted_bytes, reassign_data-IsLayout, IsSizes-split, IsSizes-append,
}

module _ {ℓ} {A : Type ℓ} where
  get-insert_before :
      (xs : List A) (a : A) (i j : ℕ)
      → j < i
      → i ≤ length xs
      → get_elem? (insert_at i a xs) j ≡ get_elem? xs j
  get-insert_before [] a i j ji ix = absurd (omega arith)
  get-insert_before (x ∷ xs) a zero j ji ix = absurd (omega arith)
  get-insert_before (x ∷ xs) a (suc i) zero ji ix = refl
  get-insert_before (x ∷ xs) a (suc i) (suc j) ji ix =
      get-insert_before xs a i j (omega arith) (omega arith)

  get-insert_here :
      (xs : List A) (a : A) (i : ℕ) → i ≤ length xs → get_elem? (insert_at i a xs) i ≡ some a
  get-insert_here xs a zero ix = refl
  get-insert_here [] a (suc i) ix = absurd (omega arith)
  get-insert_here (x ∷ xs) a (suc i) ix = get-insert_here xs a i (omega arith)

  get-insert_after :
      (xs : List A) (a : A) (i j : ℕ)
      → i ≤ j
      → i ≤ length xs
      → get_elem? (insert_at i a xs) (suc j) ≡ get_elem? xs j
  get-insert_after xs a zero j ij ix = refl
  get-insert_after [] a (suc i) j ij ix = absurd (omega arith)
  get-insert_after (x ∷ xs) a (suc i) zero ij ix = absurd (omega arith)
  get-insert_after (x ∷ xs) a (suc i) (suc j) ij ix =
      get-insert_after xs a i j (omega arith) (omega arith)

  length-insert_at :
      (i : ℕ) (a : A) (xs : List A) → i ≤ length xs → length (insert_at i a xs) ≡ suc (length xs)
  length-insert_at i a xs ix =
      omega
        (arith, length-append (take i xs) (a ∷ drop i xs), length-take_le i xs ix, length-drop i xs)

-- The keys with `k` put in at place `i`.
abbrev pub put_in : ℕ → BPlusKey → (ℕ → BPlusKey) → ℕ → BPlusKey
put_in i k keys j = if ltb j i then keys j else if j == i then k else keys (j - 1)

-- `k` is to stand at place `i`: the keys before it are smaller, those from it on greater.
record IsGap (f : Floats) (p : SlottedPage) (k : BPlusKey) (keys : ℕ → BPlusKey) (i : ℕ)
    : Type 0 where
  bound : i ≤ length p.tuples
  before : (j : ℕ) → j < i → lt_keys f (keys j) k ≡ true
  above : (j : ℕ) → i ≤ j → j < length p.tuples → lt_keys f k (keys j) ≡ true

-- Where slot `j` of the new list and its key come from.
data Origin (xs ys : List Tuple) (t : Tuple) (k : BPlusKey) (keys : ℕ → BPlusKey) (i j : ℕ)
    : Type 0 where
  earlier :
      j < i
      → put_in i k keys j ≡ keys j
      → get_elem? ys j ≡ get_elem? xs j
      → Origin xs ys t k keys i j
  new : j ≡ i → put_in i k keys j ≡ k → get_elem? ys j ≡ some t → Origin xs ys t k keys i j
  later :
      (o : ℕ)
      → j ≡ suc o
      → i ≤ o
      → put_in i k keys j ≡ keys o
      → get_elem? ys j ≡ get_elem? xs o
      → Origin xs ys t k keys i j

origin :
    (xs : List Tuple) (t : Tuple) (k : BPlusKey) (keys : ℕ → BPlusKey) (i j : ℕ)
    → i ≤ length xs
    → Origin xs (insert_at i t xs) t k keys i j
origin xs t k keys i j ix = elim (Bool-cases (ltb j i)) [
  | inl small ↦
      earlier (ground arith) (rw small refl) (get-insert_before xs t i j (ground arith) ix)
  | inr big ↦ elim (Bool-cases (j == i)) [
    | inl eq ↦
        let same : j ≡ i = ground arith in
        new same (rw (big, eq) refl) (rw same (get-insert_here xs t i ix))
    | inr ne ↦
        let o : ℕ = j - 1 in
        let js : j ≡ suc o = ground arith in
        let io : i ≤ o = ground arith in
        later o js io (rw (big, ne) refl)
          (ap (get_elem? (insert_at i t xs)) js ∙ get-insert_after xs t i o io ix)
  ]
]

module _ (f : Floats) (N : ℕ → Type 0) (ts : List KeyElementType) (p : SlottedPage) (t : Tuple)
    (k : BPlusKey) (keys : ℕ → BPlusKey) (i : ℕ) (hk : HasShape N ts k)
    (tk : get_btree_key t ≡ ok k) (h : IsKeyed f N ts p 0 keys) (g : IsGap f p k keys i) where
  put_in-keyed :
      (ys : List Tuple) (j : ℕ)
      → j < suc (length p.tuples)
      → Origin p.tuples ys t k keys i j
      → key_at ys j ≡ ok (put_in i k keys j)
  unfolding key_at
  put_in-keyed ys j jn (earlier a b c) =
      rw (b, c) (h.keyed j (omega arith) (omega (arith, g.bound)))
  put_in-keyed ys j jn (new a b c) = rw (b, c) tk
  put_in-keyed ys j jn (later o a b c d) = rw (c, d) (h.keyed o (omega arith) (omega arith))

  put_in-shaped :
      (ys : List Tuple) (j : ℕ)
      → j < suc (length p.tuples)
      → Origin p.tuples ys t k keys i j
      → HasShape N ts (put_in i k keys j)
  put_in-shaped ys j jn (earlier a b c) =
      subst (HasShape N ts) (sym b) (h.shaped j (omega arith) (omega (arith, g.bound)))
  put_in-shaped ys j jn (new a b c) = subst (HasShape N ts) (sym b) hk
  put_in-shaped ys j jn (later o a b c d) =
      subst (HasShape N ts) (sym c) (h.shaped o (omega arith) (omega arith))

  put_in-growing :
      (ys : List Tuple) (a b : ℕ)
      → a < b
      → b < suc (length p.tuples)
      → Origin p.tuples ys t k keys i a
      → Origin p.tuples ys t k keys i b
      → lt_keys f (put_in i k keys a) (put_in i k keys b) ≡ true
  put_in-growing ys a b ab bn (earlier l e _) (earlier l' e' _) =
      rw (e, e') (h.growing a b (omega arith) ab (omega (arith, g.bound)))
  put_in-growing ys a b ab bn (earlier l e _) (new l' e' _) = rw (e, e') (g.before a l)
  put_in-growing ys a b ab bn (earlier l e _) (later o l' m e' _) =
      rw (e, e') (h.growing a o (omega arith) (omega arith) (omega arith))
  put_in-growing ys a b ab bn (new l e _) (earlier l' e' _) = absurd (omega arith)
  put_in-growing ys a b ab bn (new l e _) (new l' e' _) = absurd (omega arith)
  put_in-growing ys a b ab bn (new l e _) (later o l' m e' _) =
      rw (e, e') (g.above o m (omega arith))
  put_in-growing ys a b ab bn (later o l m e _) (earlier l' e' _) = absurd (omega arith)
  put_in-growing ys a b ab bn (later o l m e _) (new l' e' _) = absurd (omega arith)
  put_in-growing ys a b ab bn (later o l m e _) (later o' l' m' e' _) =
      rw (e, e') (h.growing o o' (omega arith) (omega arith) (omega arith))

  -- The tuple put in at the gap gives a page whose keys grow.
  put_in-IsKeyed :
      (p' : SlottedPage)
      → p'.tuples ≡ insert_at i t p.tuples
      → p'.num_slots ≡ length (insert_at i t p.tuples)
      → IsKeyed f N ts p' 0 (put_in i k keys)
  put_in-IsKeyed p' same count =
      let n : length p'.tuples ≡ suc (length p.tuples) =
        ap length same ∙ length-insert_at i t p.tuples g.bound in
      let from : (j : ℕ) → Origin p.tuples p'.tuples t k keys i j = λ j.
        subst (λ ys. Origin p.tuples ys t k keys i j) (sym same)
          (origin p.tuples t k keys i j g.bound) in
      record {
        count = count ∙ sym (ap length same);
        keyed = λ j zj jn. put_in-keyed p'.tuples j (omega (arith, n)) (from j);
        shaped = λ j zj jn. put_in-shaped p'.tuples j (omega (arith, n)) (from j);
        growing =
            λ a b za ab bn. put_in-growing p'.tuples a b ab (omega (arith, n)) (from a) (from b);
      }

IsSizes-insert_at :
    (i : ℕ) (t : Tuple) (ts : List Tuple) (n a : ℕ)
    → IsSizes ts n
    → size_of_tuple t ≡ ok a
    → IsSizes (insert_at i t ts) (n + a)
IsSizes-insert_at i t ts n a h ta =
    let (b, c, front, back, sum) = IsSizes-split i ts n h in
    subst (IsSizes (insert_at i t ts)) (omega (arith, sum))
      (IsSizes-append (take i ts) (t ∷ drop i ts) b (a + c) front (a, c, ta, back, refl))

-- The tuple's key is smaller or greater than each key of the page.
abbrev pub IsNew : Floats → SlottedPage → (ℕ → BPlusKey) → BPlusKey → Type 0
IsNew f p keys k =
    (j : ℕ) → j < length p.tuples → (lt_keys f (keys j) k ≡ true) ⊎ (lt_keys f k (keys j) ≡ true)

module _ (f : Floats) (N : ℕ → Type 0) (o : FloatOrder f N) where
  place :
      (ts : List KeyElementType) (p : SlottedPage) (k : BPlusKey) (keys : ℕ → BPlusKey)
      → HasShape N ts k
      → IsKeyed f N ts p 0 keys
      → IsNew f p keys k
      → (index : Option ℕ) × (lower_bound f p k 0 ≡ ok index)
        × (check_new f p k index ≡ ok tt)
        × IsGap f p k keys (after index)
  unfolding check_new
  place ts p k keys hk h fresh = elim (lower_bound-IsPlace f N o ts p k 0 keys hk h) [
    | inl (run, above) ↦ (
      none,
      run,
      refl,
      record {
        bound = omega arith;
        before = λ j ji. absurd (omega arith);
        above = λ j ij jn. above j ij jn;
      },
    )
    | inr (m, run, at) ↦
        let mn = at.high in
        let smaller : lt_keys f (keys m) k ≡ true = elim (fresh m mn) [
          | inl l ↦ l
          | inr r ↦ absurd (ground (arith, r, at.at_most))
        ] in
        let found : key_at p.tuples m ≡ ok (keys m) = h.keyed m (omega arith) mn in
        let other : key_ne f (keys m) k ≡ ok true =
          key_ne-lt_keys f N o ts (keys m) k (h.shaped m (omega arith) mn) hk smaller in
        (
          some m,
          run,
          rw (found, other) refl,
          record {
            bound = omega arith;
            before = λ j jm. elim (Bool-cases (ltb j m)) [
              | inl below ↦
                  lt_keys_trans f N o ts (keys j) (keys m) k
                    (h.shaped j (omega arith) (ground arith)) (h.shaped m (omega arith) mn) hk
                    (h.growing j m (omega arith) (ground arith) mn) smaller
              | inr here ↦
                  let same : j ≡ m = ground arith in ap (λ i. lt_keys f (keys i) k) same ∙ smaller
            ];
            above = λ j mj jn. at.next j (omega arith) jn;
          },
        )
  ]

  -- `LeafBPlusNode::addTuple` on a leaf whose keys grow strictly, with a tuple of a key that is not
  -- there and room for it, by the header that `reassignData` counts: it returns, the tuple is put
  -- in at one place, the keys grow strictly again, and the page is laid out, with the used bytes
  -- that are those of header, slots and tuples but for four of a leaf's header.
  pub leaf_add_tuple-IsKeyed :
      (ts : List KeyElementType) (p : SlottedPage) (t : Tuple) (k : BPlusKey) (keys : ℕ → BPlusKey)
      (n a : ℕ)
      → get_btree_key t ≡ ok k
      → HasShape N ts k
      → IsKeyed f N ts p 0 keys
      → IsNew f p keys k
      → IsSizes p.tuples n
      → size_of_tuple t ≡ ok a
      → counted_bytes p + 4 * suc (length p.tuples) + (n + a) ≤ storage_unit_size
      → (i : ℕ) × (p' : SlottedPage) × (leaf_add_tuple f p t ≡ ok p')
        × (i ≤ length p.tuples)
        × IsLayout (record p { tuples = insert_at i t p.tuples }) p' (n + a)
        × IsKeyed f N ts p' 0 (put_in i k keys)
  unfolding leaf_add_tuple
  leaf_add_tuple-IsKeyed ts p t k keys n a tk hk h fresh sizes ta fits =
      let (index, run, checked, g) = place ts p k keys hk h fresh in
      let i = after index in
      let in_range : leb (after index) (length p.tuples) ≡ true = ground (arith, g.bound) in
      let len = length-insert_at i t p.tuples g.bound in
      let (p', run', l) =
        reassign_data-IsLayout (record p { tuples = insert_at i t p.tuples }) (n + a)
          (IsSizes-insert_at i t p.tuples n a sizes ta) (omega (arith, len)) in
      (
        i,
        p',
        rw (tk, run, checked, in_range) run',
        g.bound,
        l,
        put_in-IsKeyed f N ts p t k keys i hk tk h g p' l.same_tuples l.count,
      )
