-- ===== src/Concurrency/Manager.antt =====
-- `LockManager` of core/controller/concurrency/lock_manager.h and .cpp: locking and unlocking of
-- tables and rows. Each method is one atomic step, since it runs under its map's latch. A row is a
-- table's name with a key; the keys and their equality are a parameter.
use csql.Base.{
  ℕ, Bool, true, false, not, Option, none, some, List, [], ◌∷◌, if◌then◌else◌, Str, str_eq,
}
use csql.Base.Assoc.{Eq, lookup, assign, contains, str_eq_instance, pair_eq}
use csql.Concurrency.Requests.{LockMode, LockRequest, first_conflict, grant, withdraw, holds}
use csql.Concurrency.WaitsFor.{Graph, make_wait_vertex, add_edge, remove_all_edge, check_vertex}

-- `K` is the type of row keys, with an equality that decides. The source has `BPlusKey` there, whose
-- `==` is one on keys of the same shape without NaN.
pub record LockManager {ℓ} (K : Type ℓ) : Type ℓ where
  pub table_lock_map : List (Str × List LockRequest)
  pub row_lock_map : List ((Str × K) × List LockRequest)
  pub waits_for : Graph

-- `granted` is a method that returns true; `waiting` one that sleeps on the condition variable.
pub data Outcome {ℓ} (K : Type ℓ) : Type ℓ where
  granted : LockManager K → Outcome K
  waiting : LockManager K → Outcome K

-- The queue that a map holds under a key, empty where the map has none.
abbrev pub queue_at {ℓ} :
    {I : Type ℓ} ⦃e : Eq I⦄ → I → List (I × List LockRequest) → List LockRequest
queue_at i m = elim (lookup i m) [ none ↦ [] | some q ↦ q ]

unfoldable pub make_queue {ℓ} :
    {I : Type ℓ} ⦃e : Eq I⦄ → I → List (I × List LockRequest) → List (I × List LockRequest)
make_queue i m = if contains i m then m else assign i [] m

-- The loop of `lockTable` over the row queues of the table.
unfoldable pub row_conflict {ℓ} :
    {K : Type ℓ} → ℕ → LockMode → Str → List ((Str × K) × List LockRequest) → Option ℕ
row_conflict txn mode table [] = none
row_conflict txn mode table ((rid, reqs) ∷ m) =
    let rest = row_conflict txn mode table m in
    if str_eq rid.0 table
    then elim (first_conflict txn mode reqs) [ none ↦ rest | some t ↦ some t ]
    else rest

abbrev pub or_else {ℓ} : {A : Type ℓ} → Option A → Option A → Option A
or_else none b = b
or_else (some a) b = some a

module _ {ℓ} {K : Type ℓ} ⦃k : Eq K⦄ where
  -- What `hasConflict` does with a conflict found: an edge, and true.
  unfoldable pub note_conflict : LockManager K → ℕ → Option ℕ → LockManager K × Bool
  note_conflict m txn none = (m, false)
  note_conflict m txn (some t) = (record m { waits_for = add_edge m.waits_for txn t }, true)

  unfoldable pub table_has_conflict : LockManager K → ℕ → LockMode → Str → LockManager K × Bool
  unfolding note_conflict
  table_has_conflict m txn mode table =
      if not (check_vertex m.waits_for txn)
      then (m, false)
      else note_conflict m txn (
          or_else (first_conflict txn mode (queue_at table m.table_lock_map))
            (row_conflict txn mode table m.row_lock_map))

  unfoldable pub row_has_conflict : LockManager K → ℕ → LockMode → Str × K → LockManager K × Bool
  unfolding note_conflict
  row_has_conflict m txn mode rid =
      if check_vertex m.waits_for txn
      then (m, false)
      else note_conflict m txn (
          or_else (first_conflict txn mode (queue_at rid m.row_lock_map))
            (first_conflict txn mode (queue_at rid.0 m.table_lock_map)))

  unfoldable pub grant_table : LockManager K → ℕ → LockMode → Str → LockManager K
  grant_table m txn mode table = record m {
    table_lock_map =
        assign table (grant txn mode (queue_at table m.table_lock_map)) m.table_lock_map;
  }

  unfoldable pub grant_row : LockManager K → ℕ → LockMode → Str × K → LockManager K
  grant_row m txn mode rid = record m {
    row_lock_map = assign rid (grant txn mode (queue_at rid m.row_lock_map)) m.row_lock_map;
  }

  -- `lockTable` with no call of another thread in it: between its two tests, which take the latch of
  -- the rows one after the other, the source lets `lockRow` of another thread through.
  unfoldable pub lock_table : LockManager K → ℕ → LockMode → Str → Outcome K
  unfolding make_queue grant_table
  lock_table m txn mode table =
      let m1 = record m {
        table_lock_map = make_queue table m.table_lock_map;
        waits_for = make_wait_vertex m.waits_for txn;
      } in
      let first = table_has_conflict m1 txn mode table in
      let again = table_has_conflict first.0 txn mode table in
      if not first.1
      then (if again.1 then waiting again.0 else granted (grant_table again.0 txn mode table))
      else granted (grant_table first.0 txn mode table)

  unfoldable pub lock_row : LockManager K → ℕ → LockMode → Str × K → Outcome K
  unfolding make_queue grant_row
  lock_row m txn mode rid =
      let m1 = record m {
        row_lock_map = make_queue rid m.row_lock_map;
        waits_for = make_wait_vertex m.waits_for txn;
      } in
      let first = row_has_conflict m1 txn mode rid in
      let again = row_has_conflict first.0 txn mode rid in
      if first.1
      then (if again.1 then waiting again.0 else granted (grant_row again.0 txn mode rid))
      else granted (grant_row first.0 txn mode rid)

  -- `unlockTable` and `unlockRow`: the flag is what they return.
  unfoldable pub unlock_table : LockManager K → ℕ → Str → LockManager K × Bool
  unlock_table m txn table =
      let reqs = queue_at table m.table_lock_map in
      if not (contains table m.table_lock_map)
      then (m, false)
      else if holds txn reqs
      then (
        record m {
          table_lock_map = assign table (withdraw txn reqs) m.table_lock_map;
          waits_for = remove_all_edge m.waits_for txn;
        },
        true,
      )
      else (m, true)

  unfoldable pub unlock_row : LockManager K → ℕ → Str × K → LockManager K × Bool
  unlock_row m txn rid =
      let reqs = queue_at rid m.row_lock_map in
      if not (contains rid m.row_lock_map)
      then (m, false)
      else if holds txn reqs
      then (
        record m {
          row_lock_map = assign rid (withdraw txn reqs) m.row_lock_map;
          waits_for = remove_all_edge m.waits_for txn;
        },
        true,
      )
      else (m, true)

-- The loop of `releaseAllLocks` over one of the maps.
unfoldable pub withdraw_all {ℓ} :
    {I : Type ℓ} → ℕ → List (I × List LockRequest) → List (I × List LockRequest)
withdraw_all txn [] = []
withdraw_all txn ((i, reqs) ∷ m) = (i, withdraw txn reqs) ∷ withdraw_all txn m

unfoldable pub release_all_locks {ℓ} : {K : Type ℓ} → LockManager K → ℕ → LockManager K
unfolding withdraw_all
release_all_locks m txn = record m {
  table_lock_map = withdraw_all txn m.table_lock_map;
  row_lock_map = withdraw_all txn m.row_lock_map;
}
