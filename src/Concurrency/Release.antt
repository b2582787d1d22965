-- ===== src/Concurrency/Release.antt =====
-- Unlocking, and what every history of calls keeps: a transaction stands once in a queue at most,
-- so that its release leaves nothing behind.
use csql.Base.{
  ℕ, ◌≡◌, refl, Bool, true, false, not, ◌&&◌, List, [], ◌∷◌, arith, ◌==◌, if◌then◌else◌, Str,
  str_eq, str_eq_iff, Bool-cases, inl, inr, ap,
}
use csql.Base.Assoc.{
  Eq, lookup, str_eq_instance, pair_eq, lookup-eq-none, mem, nat_eq, pair_beq_iff,
}
use csql.Concurrency.Requests.{
  LockMode, LockRequest, withdraw, holds, Distinct, grant-Distinct, withdraw-Distinct,
  holds-withdraw_self, holds-withdraw_ne, withdraw_absent, withdraw-nil, holds-nil,
}
use csql.Concurrency.WaitsFor.{successors, successors-remove_all_edge}
use csql.Concurrency.Manager.{
  LockManager, Outcome, granted, waiting, queue_at, lock_table, lock_row, unlock_table, unlock_row,
  withdraw_all, release_all_locks,
}
use csql.Concurrency.Locks.{queue_at-assign, lock_table_grants, lock_row_grants}

pub data Call {ℓ} (K : Type ℓ) : Type ℓ where
  locks_table : ℕ → LockMode → Str → Call K
  locks_row : ℕ → LockMode → Str × K → Call K
  unlocks_table : ℕ → Str → Call K
  unlocks_row : ℕ → Str × K → Call K
  releases : ℕ → Call K

abbrev pub state {ℓ} : {K : Type ℓ} → Outcome K → LockManager K
state (granted m) = m
state (waiting m) = m

pub record Inv {ℓ} {K : Type ℓ} ⦃k : Eq K⦄ (m : LockManager K) : Type ℓ where
  pub tables : (t : Str) → Distinct (queue_at t m.table_lock_map)
  pub rows : (r : Str × K) → Distinct (queue_at r m.row_lock_map)

queue_at-withdraw_all {ℓ} :
    {I : Type ℓ} ⦃e : Eq I⦄ (txn : ℕ) (i : I) (m : List (I × List LockRequest))
    → queue_at i (withdraw_all txn m) ≡ withdraw txn (queue_at i m)
unfolding withdraw_all withdraw lookup
queue_at-withdraw_all txn i [] = refl
queue_at-withdraw_all ⦃e⦄ txn i ((j, q) ∷ m) = elim (Bool-cases (e.beq j i)) [
  | inl h ↦ ground arith
  | inr h ↦ ground (arith, queue_at-withdraw_all txn i m)
]

pub empty {ℓ} : {K : Type ℓ} → LockManager K
empty = record { table_lock_map = []; row_lock_map = []; waits_for = [] }

Distinct-if :
    (b : Bool) (p q : List LockRequest) → Distinct p → Distinct q → Distinct (if b then p else q)
Distinct-if true p q d d' = d
Distinct-if false p q d d' = d'

module _ {ℓ} {K : Type ℓ} ⦃k : Eq K⦄ where
  pub step : LockManager K → Call K → LockManager K
  step m (locks_table txn mode table) = state (lock_table m txn mode table)
  step m (locks_row txn mode rid) = state (lock_row m txn mode rid)
  step m (unlocks_table txn table) = (unlock_table m txn table).0
  step m (unlocks_row txn rid) = (unlock_row m txn rid).0
  step m (releases txn) = release_all_locks m txn

  pub run : LockManager K → List (Call K) → LockManager K
  run m [] = m
  run m (c ∷ cs) = run (step m c) cs

  release_all_locks-Inv : (m : LockManager K) (txn : ℕ) → Inv m → Inv (release_all_locks m txn)
  unfolding release_all_locks
  release_all_locks-Inv m txn v = record {
    tables = λ t. rw queue_at-withdraw_all (withdraw-Distinct txn _ (v.tables t));
    rows = λ r. rw queue_at-withdraw_all (withdraw-Distinct txn _ (v.rows r));
  }

  -- `unlockTable` withdraws the transaction's request for the table, if it has one, and leaves the
  -- other queues of either kind.
  unlock_table_queues :
      (m : LockManager K) (txn : ℕ) (table t : Str)
      → (queue_at t (unlock_table m txn table).0.table_lock_map ≡ (
          if str_eq table t
          then withdraw txn (queue_at table m.table_lock_map)
          else queue_at t m.table_lock_map))
        × ((unlock_table m txn table).0.row_lock_map ≡ m.row_lock_map)
  unfolding unlock_table
  unlock_table_queues m txn table t =
      let q = queue_at table m.table_lock_map in
      (
        ground (
          arith,
          queue_at-assign table t (withdraw txn q) m.table_lock_map,
          withdraw_absent txn q,
          withdraw-nil txn,
          lookup-eq-none table m.table_lock_map,
          ap (λ (x : Str). lookup x m.table_lock_map) {x = table} {y = t},
          str_eq_iff table t,
        ),
        ground arith,
      )

  pub unlock_row_queues :
      (m : LockManager K) (txn : ℕ) (rid r : Str × K)
      → (queue_at r (unlock_row m txn rid).0.row_lock_map ≡ (
          if pair_eq.beq rid r
          then withdraw txn (queue_at rid m.row_lock_map)
          else queue_at r m.row_lock_map))
        × ((unlock_row m txn rid).0.table_lock_map ≡ m.table_lock_map)
  unfolding unlock_row
  unlock_row_queues m txn rid r =
      let q = queue_at rid m.row_lock_map in
      (
        ground (
          arith,
          queue_at-assign rid r (withdraw txn q) m.row_lock_map,
          withdraw_absent txn q,
          withdraw-nil txn,
          lookup-eq-none rid m.row_lock_map,
          ap (λ (x : Str × K). lookup x m.row_lock_map) {x = rid} {y = r},
          pair_beq_iff str_eq_instance k rid r,
        ),
        ground arith,
      )

  step-Inv : (m : LockManager K) (c : Call K) → Inv m → Inv (step m c)
  unfolding step
  step-Inv m (locks_table txn mode table) v =
      let (n, done, queues, same) = lock_table_grants m txn mode table in
      rw done (record {
        tables = λ t.
            rw (queues t)
              (Distinct-if _ _ _ (grant-Distinct txn mode _ (v.tables table)) (v.tables t));
        rows = λ r. rw same (v.rows r);
      })
  step-Inv m (locks_row txn mode rid) v =
      let (n, done, queues, same, _) = lock_row_grants m txn mode rid in
      rw done (record {
        tables = λ t. rw same (v.tables t);
        rows = λ r.
            rw (queues r) (Distinct-if _ _ _ (grant-Distinct txn mode _ (v.rows rid)) (v.rows r));
      })
  step-Inv m (unlocks_table txn table) v = record {
    tables = λ t.
        rw ((unlock_table_queues m txn table t).0)
          (Distinct-if _ _ _ (withdraw-Distinct txn _ (v.tables table)) (v.tables t));
    rows = λ r. rw ((unlock_table_queues m txn table []).1) (v.rows r);
  }
  step-Inv m (unlocks_row txn rid) v = record {
    tables = λ t. rw ((unlock_row_queues m txn rid rid).1) (v.tables t);
    rows = λ r.
        rw ((unlock_row_queues m txn rid r).0)
          (Distinct-if _ _ _ (withdraw-Distinct txn _ (v.rows rid)) (v.rows r));
  }
  step-Inv m (releases txn) v = release_all_locks-Inv m txn v

  -- A history of calls that starts where no queue holds a transaction twice ends so too.
  pub run-Inv : (m : LockManager K) (cs : List (Call K)) → Inv m → Inv (run m cs)
  unfolding run
  run-Inv m [] v = v
  run-Inv m (c ∷ cs) v = run-Inv (step m c) cs (step-Inv m c v)

  pub empty-Inv : Inv {K = K} empty
  unfolding empty lookup
  empty-Inv = record { tables = λ t. tt; rows = λ r. tt }

  -- After any history of calls, `releaseAllLocks` leaves the transaction in no queue, and every
  -- other transaction in the queues that it was in.
  pub release_all_locks_complete :
      (cs : List (Call K)) (txn : ℕ)
      → let m = run empty cs in
        let n = release_all_locks m txn in
        ((t : Str) → holds txn (queue_at t n.table_lock_map) ≡ false)
        × ((r : Str × K) → holds txn (queue_at r n.row_lock_map) ≡ false)
        × ((u : ℕ) (t : Str)
            → (txn == u) ≡ false
            → holds u (queue_at t n.table_lock_map) ≡ holds u (queue_at t m.table_lock_map))
        × ((u : ℕ) (r : Str × K)
            → (txn == u) ≡ false
            → holds u (queue_at r n.row_lock_map) ≡ holds u (queue_at r m.row_lock_map))
  unfolding release_all_locks
  release_all_locks_complete cs txn =
      let m = run empty cs in
      let v = run-Inv empty cs empty-Inv in
      (
        (λ t. rw queue_at-withdraw_all (holds-withdraw_self txn _ (v.tables t))),
        (λ r. rw queue_at-withdraw_all (holds-withdraw_self txn _ (v.rows r))),
        (λ u t h. rw queue_at-withdraw_all (holds-withdraw_ne u txn _ h)),
        (λ u r h. rw queue_at-withdraw_all (holds-withdraw_ne u txn _ h)),
      )

  -- A transaction that unlocks a table it holds leaves the waits-for graph, as a waiter and as one
  -- that is waited for; the other edges stay.
  unlock_table_edges :
      (m : LockManager K) (txn u v : ℕ) (table : Str)
      → holds txn (queue_at table m.table_lock_map) ≡ true
      → mem v (successors (unlock_table m txn table).0.waits_for u)
        ≡ (not (txn == u) && (not (txn == v) && mem v (successors m.waits_for u)))
  unfolding unlock_table
  unlock_table_edges m txn u v table h = ground (
    arith,
    successors-remove_all_edge m.waits_for txn u v,
    lookup-eq-none table m.table_lock_map,
    holds-nil txn,
  )
