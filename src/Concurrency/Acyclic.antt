-- ===== src/Concurrency/Acyclic.antt =====
-- What an answer of `hasCycle` says of the waits-for graph, and that the search ends.
use csql.Base.{
  ℕ, zero, suc, ◌≤◌, ◌<◌, ◌≡◌, refl, ap, ◌∙◌, true, false, ◌||◌, some, List, [], ◌∷◌, ◌++◌, arith,
  ◌==◌, if◌then◌else◌, ==_refl, length, Bool-cases, Option-cases, inl, inr,
}
use mathlib.Core.List.{append_assoc, append-nil}
use csql.Base.Assoc.{mem, lookup, nat_eq, lookup-assign, lookup-eq-none}
use csql.Concurrency.WaitsFor.{Graph, successors, Edge}
use csql.Concurrency.Cycle.{visit, touch, search_cycle, has_cycle}

-- Paths in the graph: `Reach` of any length, `Walk` of at least one edge.
pub data Reach (w : Graph) (a : ℕ) : ℕ → Type 0 where
  here : Reach w a a
  next : {b c : ℕ} → Reach w a b → Edge w b c → Reach w a c

pub data Walk (w : Graph) (a : ℕ) : ℕ → Type 0 where
  edge : {b : ℕ} → Edge w a b → Walk w a b
  onward : {b c : ℕ} → Walk w a b → Edge w b c → Walk w a c

-- The place of the first occurrence.
rank : ℕ → List ℕ → ℕ
rank a [] = 0
rank a (x ∷ xs) = if x == a then 0 else suc (rank a xs)

rank_bound : (a : ℕ) (xs : List ℕ) → mem a xs ≡ true → rank a xs < length xs
unfolding rank mem
rank_bound a [] h = cc
rank_bound a (x ∷ xs) h = ground (arith, rank_bound a xs)

rank-append_mem : (a : ℕ) (xs ys : List ℕ) → mem a xs ≡ true → rank a (xs ++ ys) ≡ rank a xs
unfolding rank mem
rank-append_mem a [] ys h = cc
rank-append_mem a (x ∷ xs) ys h = ground (arith, rank-append_mem a xs ys)

rank-append_new : (a : ℕ) (xs ys : List ℕ) → mem a xs ≡ false → length xs ≤ rank a (xs ++ ys)
unfolding rank mem
rank-append_new a [] ys h = omega arith
rank-append_new a (x ∷ xs) ys h = ground (arith, rank-append_new a xs ys)

pub mem-append : (a : ℕ) (xs ys : List ℕ) → mem a (xs ++ ys) ≡ (mem a xs || mem a ys)
unfolding mem
mem-append a [] ys = refl
mem-append a (x ∷ xs) ys = ground (arith, mem-append a xs ys)

pub mem-cons : (a x : ℕ) (xs : List ℕ) → mem a (x ∷ xs) ≡ (x == a || mem a xs)
unfolding mem
mem-cons a x xs = refl

pub mem-singleton : (a b : ℕ) → mem a (b ∷ []) ≡ (b == a)
unfolding mem
mem-singleton a b = ground arith

visit_appends :
    (vs queue visited : List ℕ) (q' v' : List ℕ)
    → visit vs queue visited ≡ some (q', v')
    → (q' ≡ queue ++ vs) × (v' ≡ visited ++ vs)
unfolding visit
visit_appends [] queue visited q' v' h = ground (arith, append-nil queue, append-nil visited)
visit_appends (v ∷ vs) queue visited q' v' h = ground (
  arith,
  visit_appends vs (queue ++ v ∷ []) (visited ++ v ∷ []) q' v',
  append_assoc queue (v ∷ []) vs,
  append_assoc visited (v ∷ []) vs,
)

visit_fresh :
    (vs queue visited : List ℕ) (q' v' : List ℕ) (a : ℕ)
    → visit vs queue visited ≡ some (q', v')
    → mem a vs ≡ true
    → mem a visited ≡ false
unfolding visit mem
visit_fresh [] queue visited q' v' a h m = cc
visit_fresh (v ∷ vs) queue visited q' v' a h m = ground (
  arith,
  visit_fresh vs (queue ++ v ∷ []) (visited ++ v ∷ []) q' v' a,
  mem-append a visited (v ∷ []),
)

successors-touch : (w : Graph) (u x : ℕ) → successors (touch w u) x ≡ successors w x
unfolding successors
successors-touch w u x =
    ground (
      arith,
      lookup-assign u x [] w,
      lookup-eq-none u w,
      ap (λ (y : ℕ). lookup y w) {x = u} {y = x},
    )

-- Every edge from the vertices of `done` leads to a later place of `visited`.
Ordered : Graph → List ℕ → List ℕ → Type 0
Ordered w done visited =
    (u v : ℕ)
    → mem u done ≡ true
    → Edge w u v
    → (rank u visited < rank v visited) × (mem v visited ≡ true)

Ordered-step :
    (w : Graph) (done rest vs : List ℕ) (u : ℕ)
    → Ordered w done (done ++ u ∷ rest)
    → vs ≡ successors w u
    → ((a : ℕ) → mem a vs ≡ true → mem a (done ++ u ∷ rest) ≡ false)
    → Ordered w (done ++ u ∷ []) ((done ++ u ∷ rest) ++ vs)
unfolding Ordered
Ordered-step w done rest vs u o e fresh a v h step =
    let visited = done ++ u ∷ rest in
    elim (Bool-cases (mem a done)) [
      | inl old ↦
          let (before, inside) = o a v old step in
          let own : mem a visited ≡ true = rw (mem-append a done (u ∷ rest), old) in
          (
            omega (
              arith,
              before,
              rank-append_mem a visited vs own,
              rank-append_mem v visited vs inside,
            ),
            rw (mem-append v visited vs, inside),
          )
      | inr new ↦
          let at : u ≡ a = ground (arith, mem-append a done (u ∷ []), mem-singleton a u) in
          let own : mem a visited ≡ true =
            rw (mem-append a done (u ∷ rest), new) (ground (arith, mem-cons a u rest, at)) in
          let out : mem v vs ≡ true = rw (e, at) step in
          (
            omega (
              arith,
              rank-append_mem a visited vs own,
              rank_bound a visited own,
              rank-append_new v visited vs (fresh v out),
            ),
            rw (mem-append v visited vs, out) (ground arith),
          )
    ]

abbrev Closed : Graph → List ℕ → Type 0
Closed w d = (u v : ℕ) → mem u d ≡ true → Edge w u v → (rank u d < rank v d) × (mem v d ≡ true)

search_cycle-false :
    (fuel : ℕ) (w : Graph) (done queue visited : List ℕ) (w' : Graph)
    → search_cycle fuel w queue visited ≡ some (false, w')
    → visited ≡ done ++ queue
    → Ordered w done visited
    → (d : List ℕ) × ((a : ℕ) → mem a visited ≡ true → mem a d ≡ true) × Closed w d
unfolding search_cycle Ordered
search_cycle-false zero w done queue visited w' h e o = cc
search_cycle-false (suc fuel) w done [] visited w' h e o =
    let same : visited ≡ done = e ∙ append-nil done in
    (visited, (λ a m. m), λ u v m s. o u v (rw (← same) m) s)
search_cycle-false (suc fuel) w done (u ∷ queue) visited w' h e o =
    elim (Option-cases (visit (successors w u) queue visited)) [
      | inl found ↦ absurd (ground (arith, found))
      | inr ((q', v'), more) ↦
          let vs = successors w u in
          let (eq, ev) = visit_appends vs queue visited q' v' more in
          let place : visited ++ vs ≡ (done ++ u ∷ []) ++ q' = rw (e, eq) (simp append_assoc) in
          let later : Ordered w (done ++ u ∷ []) (visited ++ vs) = rw e (
            Ordered-step w done queue vs u (rw (← e) o) refl
              (λ a m. rw (← e) (visit_fresh vs queue visited q' v' a more m))) in
          let o' : Ordered (touch w u) (done ++ u ∷ []) v' =
            λ a b m s. rw ev (later a b m (rw (successors-touch w u a) at s)) in
          let (d, whole, closed) =
            search_cycle-false fuel (touch w u) (done ++ u ∷ []) q' v' w'
              (rw (more, search_cycle) at h) (ev ∙ place) o' in
          (
            d,
            (λ a m. whole a (rw (ev, mem-append a visited vs, m))),
            λ a b m s. closed a b m (rw (successors-touch w u a) s),
          )
    ]

Walk-rank :
    (w : Graph) (d : List ℕ) (a b : ℕ)
    → Closed w d
    → mem a d ≡ true
    → Walk w a b
    → (rank a d < rank b d) × (mem b d ≡ true)
Walk-rank w d a b closed m (edge s) = closed a b m s
Walk-rank w d a b closed m (onward {b = c} walk s) =
    let (before, inside) = Walk-rank w d a c closed m walk in
    let (step, last) = closed c b inside s in (omega (arith, before, step), last)

Reach-mem :
    (w : Graph) (d : List ℕ) (a b : ℕ) → Closed w d → mem a d ≡ true → Reach w a b → mem b d ≡ true
Reach-mem w d a b closed m here = m
Reach-mem w d a b closed m (next {b = c} r s) = (closed c b (Reach-mem w d a c closed m r) s).1

Ordered-start : (w : Graph) (visited : List ℕ) → Ordered w [] visited
unfolding Ordered mem
Ordered-start w visited u v m s = cc

-- When `hasCycle` answers no, no transaction that the given one waits for, directly or through
-- others, waits for itself.
pub has_cycle-false :
    (w w' : Graph) (t u : ℕ) → has_cycle w t ≡ some (false, w') → Reach w t u → ¬ Walk w u u
unfolding has_cycle
has_cycle-false w w' t u h r walk =
    let (d, whole, closed) =
      search_cycle-false _ w [] (t ∷ []) (t ∷ []) w' h refl (Ordered-start w (t ∷ [])) in
    let inside = Reach-mem w d t u closed (whole t (mem-singleton t t ∙ ==_refl t)) r in
    absurd (omega (arith, (Walk-rank w d u u closed inside walk).0))
