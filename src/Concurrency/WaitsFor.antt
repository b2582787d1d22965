-- ===== src/Concurrency/WaitsFor.antt =====
-- The waits-for graph of `LockManager`: `waits_for`, a map from a transaction to the set of those
-- that it waits for.
use csql.Base.{
  ℕ, ◌≡◌, Bool, true, not, ◌&&◌, ◌||◌, none, some, List, [], ◌∷◌, arith, ◌==◌, if◌then◌else◌, ap,
}
use csql.Base.Assoc.{
  mem, lookup, assign, remove, contains, lookup-assign, lookup-remove, contains-assign, nat_eq,
}

abbrev pub Graph : Type 0
Graph = List (ℕ × List ℕ)

-- `waits_for[t]`, read: a missing entry is the empty set.
unfoldable pub successors : Graph → ℕ → List ℕ
successors w t = elim (lookup t w) [ none ↦ [] | some s ↦ s ]

-- `std::set::insert` and `std::set::erase`
unfoldable pub set_insert : ℕ → List ℕ → List ℕ
set_insert t s = if mem t s then s else t ∷ s

unfoldable pub set_erase : ℕ → List ℕ → List ℕ
set_erase t [] = []
set_erase t (x ∷ s) = let rest = set_erase t s in if x == t then rest else x ∷ rest

unfoldable pub make_wait_vertex : Graph → ℕ → Graph
make_wait_vertex w t = assign t [] w

unfoldable pub add_edge : Graph → ℕ → ℕ → Graph
add_edge w t1 t2 = assign t1 (set_insert t2 (successors w t1)) w

unfoldable pub remove_edge : Graph → ℕ → ℕ → Graph
remove_edge w t1 t2 = assign t1 (set_erase t2 (successors w t1)) w

erase_target : ℕ → Graph → Graph
erase_target t [] = []
erase_target t ((u, s) ∷ w) = (u, set_erase t s) ∷ erase_target t w

unfoldable pub remove_all_edge : Graph → ℕ → Graph
unfolding erase_target
remove_all_edge w t = erase_target t (remove t w)

unfoldable pub check_vertex : Graph → ℕ → Bool
check_vertex w t = contains t w

-- `t1` waits for `t2`.
abbrev pub Edge : Graph → ℕ → ℕ → Type 0
Edge w t1 t2 = mem t2 (successors w t1) ≡ true

mem-set_insert : (a t : ℕ) (s : List ℕ) → mem a (set_insert t s) ≡ (t == a || mem a s)
unfolding set_insert mem
mem-set_insert a t s = ground (arith, ap (λ (x : ℕ). mem x s) {x = t} {y = a})

mem-set_erase : (a t : ℕ) (s : List ℕ) → mem a (set_erase t s) ≡ (not (t == a) && mem a s)
unfolding set_erase mem
mem-set_erase a t [] = ground arith
mem-set_erase a t (x ∷ s) = ground (arith, mem-set_erase a t s)

-- Which edges an operation leaves.
pub successors-add_edge :
    (w : Graph) (t1 t2 u v : ℕ)
    → mem v (successors (add_edge w t1 t2) u) ≡ ((t1 == u && t2 == v) || mem v (successors w u))
unfolding successors add_edge mem
successors-add_edge w t1 t2 u v = ground (
  arith,
  lookup-assign t1 u (set_insert t2 (successors w t1)) w,
  mem-set_insert v t2 (successors w t1),
  ap (λ (x : ℕ). lookup x w) {x = t1} {y = u},
)

pub successors-make_wait_vertex :
    (w : Graph) (t u : ℕ)
    → successors (make_wait_vertex w t) u ≡ (if t == u then [] else successors w u)
unfolding successors make_wait_vertex
successors-make_wait_vertex w t u = ground (arith, lookup-assign t u [] w)

successors-erase_target :
    (w : Graph) (t u v : ℕ)
    → mem v (successors (erase_target t w) u) ≡ (not (t == v) && mem v (successors w u))
unfolding successors erase_target lookup mem
successors-erase_target [] t u v = ground arith
successors-erase_target ((x, s) ∷ w) t u v =
    ground (arith, mem-set_erase v t s, successors-erase_target w t u v)

successors-remove :
    (w : Graph) (t u : ℕ) → successors (remove t w) u ≡ (if t == u then [] else successors w u)
unfolding successors
successors-remove w t u = ground (arith, lookup-remove t u w)

-- `removeAllEdge` takes out the edges from and to the transaction, and no other.
pub successors-remove_all_edge :
    (w : Graph) (t u v : ℕ)
    → mem v (successors (remove_all_edge w t) u)
      ≡ (not (t == u) && (not (t == v) && mem v (successors w u)))
unfolding remove_all_edge mem
successors-remove_all_edge w t u v =
    ground (arith, successors-erase_target (remove t w) t u v, successors-remove w t u)

pub check_vertex-make_wait_vertex :
    (w : Graph) (t u : ℕ) → check_vertex (make_wait_vertex w t) u ≡ (t == u || check_vertex w u)
unfolding check_vertex make_wait_vertex
check_vertex-make_wait_vertex w t u = contains-assign t u [] w

pub check_vertex-add_edge :
    (w : Graph) (t1 t2 u : ℕ) → check_vertex (add_edge w t1 t2) u ≡ (t1 == u || check_vertex w u)
unfolding check_vertex add_edge
check_vertex-add_edge w t1 t2 u = contains-assign t1 u (set_insert t2 (successors w t1)) w
