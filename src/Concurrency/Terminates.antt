-- ===== src/Concurrency/Terminates.antt =====
-- The search of `hasCycle` ends: a vertex enters the queue once at most, and only as the target of
-- an edge.
use csql.Base.{
  ℕ, zero, suc, ◌+◌, ◌≤◌, ◌<◌, ◌≡◌, refl, ap, Bool, true, false, some, List, [], ◌∷◌, ◌++◌, arith,
  ◌==◌, if◌then◌else◌, ==_refl, length, length-append, Bool-cases, Option-cases, inl, inr,
}
use csql.Base.Assoc.{mem, lookup, assign, contains, nat_eq}
use csql.Concurrency.WaitsFor.{Graph, successors}
use csql.Concurrency.Cycle.{visit, touch, search_cycle, targets, has_cycle}
use csql.Concurrency.Acyclic.{mem-append, mem-cons, mem-singleton}

unvisited : List ℕ → List ℕ → ℕ
unvisited [] visited = 0
unvisited (a ∷ ts) visited = (if mem a visited then 0 else 1) + unvisited ts visited

unvisited-le : (ts visited : List ℕ) → unvisited ts visited ≤ length ts
unfolding unvisited
unvisited-le [] visited = omega arith
unvisited-le (a ∷ ts) visited = ground (arith, unvisited-le ts visited)

unvisited-append_le :
    (ts visited : List ℕ) (v : ℕ) → unvisited ts (visited ++ v ∷ []) ≤ unvisited ts visited
unfolding unvisited
unvisited-append_le [] visited v = omega arith
unvisited-append_le (a ∷ ts) visited v =
    ground (arith, unvisited-append_le ts visited v, mem-append a visited (v ∷ []))

unvisited-append_lt :
    (ts visited : List ℕ) (v : ℕ)
    → mem v ts ≡ true
    → mem v visited ≡ false
    → unvisited ts (visited ++ v ∷ []) < unvisited ts visited
unfolding unvisited mem
unvisited-append_lt [] visited v m n = cc
unvisited-append_lt (a ∷ ts) visited v m n = ground (
  arith,
  unvisited-append_lt ts visited v,
  unvisited-append_le ts visited v,
  mem-append a visited (v ∷ []),
  mem-singleton a v,
  ap (λ (x : ℕ). mem x visited) {x = a} {y = v},
)

-- A visit moves vertices from the unvisited ones to the queue.
visit_measure :
    (ts vs queue visited q' v' : List ℕ)
    → visit vs queue visited ≡ some (q', v')
    → ((a : ℕ) → mem a vs ≡ true → mem a ts ≡ true)
    → length q' + unvisited ts v' ≤ length queue + unvisited ts visited
unfolding visit
visit_measure ts [] queue visited q' v' h inside = ground arith
visit_measure ts (v ∷ vs) queue visited q' v' h inside =
    let first : mem v ts ≡ true = inside v (rw (mem-cons v v vs, ==_refl v)) in
    let rest : (a : ℕ) → mem a vs ≡ true → mem a ts ≡ true =
      λ a m. inside a (rw (mem-cons a v vs, m) (ground arith)) in
    elim (Bool-cases (mem v visited)) [
      | inl old ↦ absurd (ground (arith, old))
      | inr new ↦ omega (
        arith,
        visit_measure ts vs (queue ++ v ∷ []) (visited ++ v ∷ []) q' v' (rw (new, visit) at h) rest,
        unvisited-append_lt ts visited v first new,
        length-append queue (v ∷ []),
      )
    ]

mem-targets : (w : Graph) (u v : ℕ) → mem v (successors w u) ≡ true → mem v (targets w) ≡ true
unfolding successors lookup targets
mem-targets [] u v h = h
mem-targets ((x, s) ∷ w) u v h = elim (Bool-cases (x == u)) [
  | inl e ↦ rw (mem-append v s (targets w)) (ground (arith, e))
  | inr e ↦ rw (mem-append v s (targets w)) (ground (arith, e, mem-targets w u v))
]

targets-touch : (w : Graph) (u : ℕ) → targets (touch w u) ≡ targets w
unfolding targets contains assign
targets-touch [] u = refl
targets-touch ((x, s) ∷ w) u = elim (Bool-cases (x == u)) [
  | inl e ↦ ground (arith, e)
  | inr e ↦ ground (arith, e, targets-touch w u)
]

search_cycle_total :
    (fuel : ℕ) (w : Graph) (queue visited : List ℕ)
    → length queue + unvisited (targets w) visited < fuel
    → (r : Bool × Graph) × (search_cycle fuel w queue visited ≡ some r)
unfolding search_cycle
search_cycle_total zero w queue visited h = absurd (omega arith)
search_cycle_total (suc fuel) w [] visited h = ((false, w), refl)
search_cycle_total (suc fuel) w (u ∷ queue) visited h =
    elim (Option-cases (visit (successors w u) queue visited)) [
      | inl found ↦ ((true, touch w u), rw (found, search_cycle))
      | inr ((q', v'), more) ↦
          let m =
            visit_measure (targets w) (successors w u) queue visited q' v' more (mem-targets w u) in
          rw (more, search_cycle)
            (search_cycle_total fuel (touch w u) q' v' (rw (targets-touch w u) (omega (arith, m))))
    ]

-- `hasCycle` always comes to an answer.
pub has_cycle_total : (w : Graph) (t : ℕ) → (r : Bool × Graph) × (has_cycle w t ≡ some r)
unfolding has_cycle
has_cycle_total w t =
    search_cycle_total _ w (t ∷ []) (t ∷ []) (omega (arith, unvisited-le (targets w) (t ∷ [])))
