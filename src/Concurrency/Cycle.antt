-- ===== src/Concurrency/Cycle.antt =====
-- `hasCycle` and `RunCycleDetection` of core/controller/concurrency/lock_manager.cpp: a search in
-- breadth from one transaction over the waits-for graph.
use csql.Base.{
  ℕ, zero, suc, ◌+◌, Bool, true, false, not, Option, none, some, List, [], ◌∷◌, ◌++◌, if◌then◌else◌,
  length, ltb,
}
use csql.Base.Assoc.{mem, assign, remove, contains, nat_eq}
use csql.Concurrency.WaitsFor.{Graph, successors}

-- The `for` over the successors of one vertex: `none` is `return true`, and otherwise the queue
-- and the visited set with the successors added.
unfoldable pub visit : List ℕ → List ℕ → List ℕ → Option (List ℕ × List ℕ)
visit [] queue visited = some (queue, visited)
visit (v ∷ vs) queue visited =
    let rest = visit vs (queue ++ v ∷ []) (visited ++ v ∷ []) in
    if not (mem v visited) then rest else none

-- `waits_for[u]` puts an empty set into the map where there is none.
abbrev pub touch : Graph → ℕ → Graph
touch w u = if contains u w then w else assign u [] w

-- The `while` loop; it returns its answer with the map, or nothing if the fuel runs out.
unfoldable pub search_cycle : ℕ → Graph → List ℕ → List ℕ → Option (Bool × Graph)
search_cycle zero w queue visited = none
search_cycle (suc fuel) w [] visited = some (false, w)
search_cycle (suc fuel) w (u ∷ queue) visited = elim (visit (successors w u) queue visited) [
  | none ↦ some (true, touch w u)
  | some (queue', visited') ↦ search_cycle fuel (touch w u) queue' visited'
]

-- Every vertex that the search can reach, with repetitions.
unfoldable pub targets : Graph → List ℕ
targets [] = []
targets ((u, s) ∷ w) = s ++ targets w

-- The source loops until the queue is empty; this fuel is enough (`search_cycle_total`).
unfoldable pub has_cycle : Graph → ℕ → Option (Bool × Graph)
has_cycle w t = search_cycle (length (targets w) + 2) w (t ∷ []) (t ∷ [])

abbrev pub is_above : Option ℕ → ℕ → Bool
is_above none u = true
is_above (some j) u = ltb j u

abbrev pub least : ℕ → Option ℕ → ℕ
least u none = u
least u (some v) = if ltb u v then u else v

-- The least key above `k` (any key at the start): where the iterator over the ordered map goes on.
unfoldable pub next_key : Option ℕ → Graph → Option ℕ
next_key k [] = none
next_key k ((u, s) ∷ w) =
    let rest = next_key k w in if is_above k u then some (least u rest) else rest

-- `RunCycleDetection`: the first vertex that the search reports loses its edges, and ends the loop.
unfoldable pub run_cycle_detection : ℕ → Option ℕ → Graph → Option Graph
run_cycle_detection zero k w = none
run_cycle_detection (suc fuel) k w = elim (next_key k w) [
  | none ↦ some w
  | some t ↦ elim (has_cycle w t) [
    | none ↦ none
    | some (true, w') ↦ some (remove t w')
    | some (false, w') ↦ run_cycle_detection fuel (some t) w'
  ]
]
