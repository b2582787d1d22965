-- ===== src/PageCache.antt =====
-- core/storage/lru_cache: the doubly linked list of nodes and the cache above it. Nodes have
-- addresses; the list is what the pointers of the nodes say, and 0 and 1 are `begin` and `end`.
pub mod Links
pub mod Chain
pub mod Refines
use csql.Base.{
  ℕ, zero, suc, ◌+◌, Bool, true, false, Option, none, some, List, [], ◌∷◌, leb, ◌==◌, if◌then◌else◌,
  length,
}
use csql.Base.Assoc.{Eq, lookup, assign, remove, contains}
use csql.Base.Result.{Result, ok, err, undefined, ◌>>=◌, or_fail}

-- `Node` by address: the pointers, and the key and the value where there are any; `fresh` is the
-- next address that `new` gives.
pub record LinkedList {ℓ κ} (K : Type ℓ) (V : Type κ) : Type (ℓ ⊔ κ) where
  pub prev : ℕ → ℕ
  pub next : ℕ → ℕ
  pub entry : ℕ → Option (K × V)
  pub fresh : ℕ

-- A pointer is written.
abbrev pub point {ℓ} : {A : Type ℓ} → ℕ → A → (ℕ → A) → ℕ → A
point n v g i = if i == n then v else g i

module _ {ℓ κ} {K : Type ℓ} {V : Type κ} where
  -- The constructor.
  abbrev pub empty_list : LinkedList K V
  empty_list = record { prev = λ i. 0; next = λ i. 1; entry = λ i. none; fresh = 2 }

  -- The four assignments of `push` and of the second half of `pushToEnd`.
  abbrev pub link_last : ℕ → LinkedList K V → LinkedList K V
  link_last n l =
      let next1 = point (l.prev 1) n l.next in
      let prev1 = point n (l.prev 1) l.prev in
      record l { next = point n 1 next1; prev = point 1 n prev1 }

  -- The two assignments that take a node out.
  abbrev pub unlink : ℕ → LinkedList K V → LinkedList K V
  unlink n l =
      let next1 = point (l.prev n) (l.next n) l.next in
      record l { next = next1; prev = point (next1 n) (l.prev n) l.prev }

  unfoldable pub push : K → V → LinkedList K V → ℕ × LinkedList K V
  push k v l = (
    l.fresh,
    link_last l.fresh
        (record l { entry = point l.fresh (some (k, v)) l.entry; fresh = l.fresh + 1 }),
  )

  -- The keys of `begin` and `end` are not initialised.
  unfoldable pub pop : LinkedList K V → Result ((K × V) × LinkedList K V)
  pop l =
      let next1 = point 0 (l.next (l.next 0)) l.next in
      let l' : LinkedList K V = record l { next = next1; prev = point (next1 0) 0 l.prev } in
      or_fail (l.entry (l.next 0)) undefined >>= λ kv. ok (kv, l')

  unfoldable pub push_to_end : ℕ → LinkedList K V → LinkedList K V
  push_to_end n l = link_last n (unlink n l)

pub record LruCache {ℓ κ} (K : Type ℓ) (V : Type κ) : Type (ℓ ⊔ κ) where
  pub places : List (K × ℕ)
  pub linked_list : LinkedList K V
  pub max_size : ℕ

module _ {ℓ κ} {K : Type ℓ} {V : Type κ} ⦃e : Eq K⦄ where
  abbrev pub make_cache : ℕ → LruCache K V
  make_cache max = record { places = []; linked_list = empty_list; max_size = max }

  -- `lookup[aKey] = linkedList.push(aKey, aValue)`
  unfoldable pub add_entry : K → V → LruCache K V → LruCache K V
  unfolding push assign
  add_entry k v c =
      let (n, l) = push k v c.linked_list in
      record c { places = assign k n c.places; linked_list = l }

  -- The branch of `put` for a full cache: the value put out, and the cache.
  unfoldable pub evict : LruCache K V → Result (V × LruCache K V)
  unfolding pop remove
  evict c = do
    (kv, l) ← pop c.linked_list
    ok (kv.1, record c { places = remove kv.0 c.places; linked_list = l })

  unfoldable pub put : K → V → LruCache K V → Result (V × LruCache K V)
  unfolding evict add_entry
  put k v c = elim (leb c.max_size (length c.places)) [
    | false ↦ ok (v, add_entry k v c)
    | true ↦ do (w, c') ← evict c; ok (w, add_entry k v c')
  ]

  -- `get`; `none` is the null pointer.
  unfoldable pub get : K → LruCache K V → Result (Option V × LruCache K V)
  unfolding lookup push_to_end
  get k c = elim (lookup k c.places) [
    | none ↦ ok (none, c)
    | some n ↦ do
      kv ← or_fail (c.linked_list.entry n) undefined
      ok (some kv.1, record c { linked_list = push_to_end n c.linked_list })
  ]
