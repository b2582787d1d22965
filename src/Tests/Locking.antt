-- ===== src/Tests/Locking.antt =====
-- The lock manager on two transactions and one table.
use csql.Base.{ℕ, ◌≡◌, refl, Bool, true, false, some, List, [], ◌∷◌, ◌==◌, Str, codes}
use csql.Base.Text.{str_eq}
use csql.Base.Assoc.{nat_eq, str_eq_instance, pair_eq, mem, lookup, assign, contains}
use csql.Concurrency.Requests.{LockMode, request, holds, holds_exclusive}
use csql.Concurrency.WaitsFor.{Graph, successors}
use csql.Concurrency.Manager.{LockManager, queue_at, release_all_locks}
use csql.Concurrency.Release.{
  Call, locks_table, locks_row, Inv, empty, run, run-Inv, empty-Inv, release_all_locks_complete,
}
use csql.Concurrency.Cycle.{has_cycle, search_cycle, visit, targets}
use csql.Concurrency.Acyclic.{here, Walk, has_cycle-false}
use csql.Concurrency.Terminates.{has_cycle_total}

abbrev users : Str
users = codes "users"

abbrev orders : Str
orders = codes "orders"

-- Transaction 1 holds the table exclusively, and 2 waits for it.
abbrev held : LockManager ℕ
held = record {
  table_lock_map = (users, request 1 LockMode.exclusive ∷ []) ∷ [];
  row_lock_map = [];
  waits_for = (2, 1 ∷ []) ∷ (1, []) ∷ [];
}

abbrev history : List (Call ℕ)
history =
    locks_table 1 LockMode.shared users
    ∷ locks_row 1 LockMode.exclusive (users, 7)
    ∷ locks_table 2 LockMode.exclusive users
    ∷ locks_table 1 LockMode.exclusive users
    ∷ []

release_all_locks_complete_example :
    ((t : Str)
      → holds 1 (queue_at t (release_all_locks (run empty history) 1).table_lock_map) ≡ false)
    × ((r : Str × ℕ)
        → holds 1 (queue_at r (release_all_locks (run empty history) 1).row_lock_map) ≡ false)
    × ((u : ℕ) (t : Str)
        → (1 == u) ≡ false
        → holds u (queue_at t (release_all_locks (run empty history) 1).table_lock_map)
          ≡ holds u (queue_at t (run empty history).table_lock_map))
    × ((u : ℕ) (r : Str × ℕ)
        → (1 == u) ≡ false
        → holds u (queue_at r (release_all_locks (run empty history) 1).row_lock_map)
          ≡ holds u (queue_at r (run empty history).row_lock_map))
release_all_locks_complete_example = release_all_locks_complete history 1

run-Inv_example : Inv (run empty history)
run-Inv_example = run-Inv empty history empty-Inv

held_by_1 : holds_exclusive 1 (queue_at users held.table_lock_map) ≡ true
unfolding holds_exclusive lookup str_eq
held_by_1 = refl

held_1 : holds 1 (queue_at users held.table_lock_map) ≡ true
unfolding holds lookup str_eq
held_1 = refl

-- 1 waits for 2 and 3.
abbrev fork : Graph
fork = (1, 2 ∷ 3 ∷ []) ∷ []

abbrev fork_after : Graph
fork_after = (1, 2 ∷ 3 ∷ []) ∷ (2, []) ∷ (3, []) ∷ []

fork_run : has_cycle fork 1 ≡ some (false, fork_after)
unfolding has_cycle search_cycle visit targets successors mem lookup contains assign
fork_run = refl

has_cycle-false_example : ¬ Walk fork 1 1
has_cycle-false_example = has_cycle-false fork fork_after 1 1 fork_run here

has_cycle_total_example : (r : Bool × Graph) × (has_cycle fork 1 ≡ some r)
has_cycle_total_example = has_cycle_total fork 1

-- 1 waits for 2 and 3, and they for 4: no cycle, and yet the search reports one.
abbrev diamond : Graph
diamond = (1, 2 ∷ 3 ∷ []) ∷ (2, 4 ∷ []) ∷ (3, 4 ∷ []) ∷ []

diamond_run : has_cycle diamond 1 ≡ some (true, diamond)
unfolding has_cycle search_cycle visit targets successors mem lookup contains
diamond_run = refl
