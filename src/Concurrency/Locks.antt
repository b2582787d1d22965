-- ===== src/Concurrency/Locks.antt =====
-- What the methods of `LockManager` do to the queues.
use csql.Base.{
  ℕ, ◌≡◌, refl, true, false, List, [], arith, ◌==◌, if◌then◌else◌, Str, str_eq, str_eq_refl,
  Bool-cases, ==_refl, inl, inr, ap,
}
use csql.Base.Assoc.{Eq, lookup, assign, str_eq_instance, pair_eq, lookup-assign, lookup-eq-none}
use csql.Concurrency.Requests.{
  LockMode, LockRequest, grant, holds_exclusive, holds_exclusive-grant_self,
  holds_exclusive-grant_ne,
}
use csql.Concurrency.WaitsFor.{make_wait_vertex, check_vertex, check_vertex-make_wait_vertex}
use csql.Concurrency.Manager.{
  LockManager, granted, queue_at, make_queue, lock_table, lock_row, table_has_conflict,
  row_has_conflict, grant_table, grant_row,
}

module _ {ℓ} {I : Type ℓ} ⦃e : Eq I⦄ where
  pub queue_at-assign :
      (i j : I) (q : List LockRequest) (m : List (I × List LockRequest))
      → queue_at j (assign i q m) ≡ (if e.beq i j then q else queue_at j m)
  queue_at-assign i j q m = ground (arith, lookup-assign i j q m)

  queue_at-make_queue :
      (i j : I) (m : List (I × List LockRequest)) → queue_at j (make_queue i m) ≡ queue_at j m
  unfolding make_queue
  queue_at-make_queue i j m = ground (
    arith,
    lookup-assign i j [] m,
    lookup-eq-none i m,
    e.beq_iff i j,
    ap (λ (x : I). lookup x m) {x = i} {y = j},
  )

module _ {ℓ} {K : Type ℓ} ⦃k : Eq K⦄ (m : LockManager K) (txn : ℕ) (mode : LockMode) where
  -- A test for conflicts touches no queue; and where it finds none, nothing.
  table_has_conflict-queues :
      (table : Str)
      → ((table_has_conflict m txn mode table).0.table_lock_map ≡ m.table_lock_map)
        × ((table_has_conflict m txn mode table).0.row_lock_map ≡ m.row_lock_map)
  unfolding table_has_conflict
  table_has_conflict-queues table = (ground arith, ground arith)

  table_has_conflict_none :
      (table : Str)
      → (table_has_conflict m txn mode table).1 ≡ false
      → (table_has_conflict m txn mode table).0 ≡ m
  unfolding table_has_conflict
  table_has_conflict_none table h = ground arith

  row_has_conflict_vertex :
      (rid : Str × K)
      → check_vertex m.waits_for txn ≡ true
      → row_has_conflict m txn mode rid ≡ (m, false)
  unfolding row_has_conflict
  row_has_conflict_vertex rid h = rw h

module _ {ℓ} {K : Type ℓ} ⦃k : Eq K⦄ (m : LockManager K) (txn : ℕ) (mode : LockMode) where
  after_vertex : Str → LockManager K
  after_vertex table = record m {
    table_lock_map = make_queue table m.table_lock_map;
    waits_for = make_wait_vertex m.waits_for txn;
  }

  lock_table-grant_table :
      (table : Str)
      → lock_table m txn mode table
        ≡ granted
            (grant_table (table_has_conflict (after_vertex table) txn mode table).0 txn mode table)
  unfolding lock_table after_vertex
  lock_table-grant_table table =
      let c = table_has_conflict (after_vertex table) txn mode table in
      elim (Bool-cases c.1) [
        | inl e ↦ ground (arith, e)
        | inr e ↦ ground (arith, e, table_has_conflict_none (after_vertex table) txn mode table e)
      ]

  pub lock_table_grants :
      (table : Str)
      → (n : LockManager K) × (lock_table m txn mode table ≡ granted n)
        × ((t : Str)
            → queue_at t n.table_lock_map ≡ (
                if str_eq table t
                then grant txn mode (queue_at table m.table_lock_map)
                else queue_at t m.table_lock_map))
        × (n.row_lock_map ≡ m.row_lock_map)
  unfolding grant_table after_vertex
  lock_table_grants table =
      let v = after_vertex table in
      let c = table_has_conflict v txn mode table in
      let same = table_has_conflict-queues v txn mode table in
      (
        grant_table c.0 txn mode table,
        lock_table-grant_table table,
        (λ t. simp (queue_at-assign, same.0, queue_at-make_queue)),
        same.1,
      )

  after_row_vertex : Str × K → LockManager K
  after_row_vertex rid = record m {
    row_lock_map = make_queue rid m.row_lock_map;
    waits_for = make_wait_vertex m.waits_for txn;
  }

  lock_row-grant_row :
      (rid : Str × K)
      → lock_row m txn mode rid ≡ granted (grant_row (after_row_vertex rid) txn mode rid)
  unfolding lock_row after_row_vertex
  lock_row-grant_row rid =
      let v = check_vertex-make_wait_vertex m.waits_for txn txn in
      let t = ==_refl txn in
      ground (arith, row_has_conflict_vertex (after_row_vertex rid) txn mode rid)

  -- `lockRow` never waits and notes no conflict: it grants the request in the queue of the row, and
  -- leaves the other queues and the edges. Its test answers no when the transaction is a vertex of
  -- the waits-for graph, and the method has just made it one.
  pub lock_row_grants :
      (rid : Str × K)
      → (n : LockManager K) × (lock_row m txn mode rid ≡ granted n)
        × ((r : Str × K)
            → queue_at r n.row_lock_map ≡ (
                if pair_eq.beq rid r
                then grant txn mode (queue_at rid m.row_lock_map)
                else queue_at r m.row_lock_map))
        × (n.table_lock_map ≡ m.table_lock_map)
        × (n.waits_for ≡ make_wait_vertex m.waits_for txn)
  unfolding grant_row after_row_vertex
  lock_row_grants rid = (
    grant_row (after_row_vertex rid) txn mode rid,
    lock_row-grant_row rid,
    (λ r. simp (queue_at-assign, queue_at-make_queue)),
    refl,
    refl,
  )

module _ {ℓ} {K : Type ℓ} ⦃k : Eq K⦄ (m : LockManager K) (txn : ℕ) where
  -- The locks exclude nothing: after `lockTable` in exclusive mode the transaction holds the table
  -- exclusively, and so does every other transaction that did before.
  lock_table_clash :
      (table : Str) (other : ℕ)
      → (txn == other) ≡ false
      → holds_exclusive other (queue_at table m.table_lock_map) ≡ true
      → (n : LockManager K) × (lock_table m txn LockMode.exclusive table ≡ granted n)
        × (holds_exclusive txn (queue_at table n.table_lock_map) ≡ true)
        × (holds_exclusive other (queue_at table n.table_lock_map) ≡ true)
  lock_table_clash table other h held =
      let (n, done, queues, _) = lock_table_grants m txn LockMode.exclusive table in
      let q = queue_at table m.table_lock_map in
      let own = queues table in
      let e = str_eq_refl table in
      (
        n,
        done,
        ground (arith, holds_exclusive-grant_self txn q),
        ground (arith, holds_exclusive-grant_ne other txn LockMode.exclusive q h),
      )
