-- ===== src/Expression/Aggregates/Extremes.antt =====
-- What MAX of core/storage/expression/aggregate_expression gives on integers.
use csql.Base.{◌≡◌, refl, ap, ◌∙◌, false, ◌⊎◌, inl, inr, List, [], ◌∷◌, arith, Bool-cases}
use csql.Base.Int.{ℤ, ltb_ℤ}
use csql.Base.Result.{ok, ◌>>=◌}
use csql.Types.{sql_int, Floats}
use csql.Operators.{JoinedTuple}
use csql.Expression.{Expression, apply}
use csql.Expression.Aggregates.{max, value_lt, value_gt, best_row, best, apply_target}

-- The expression has these integers on the rows.
abbrev pub HasValues : Floats → Expression → List JoinedTuple → List ℤ → Type 0
HasValues f e [] [] = Unit
HasValues f e [] (z ∷ zs) = ⊥
HasValues f e (t ∷ ts) [] = ⊥
HasValues f e (t ∷ ts) (z ∷ zs) = (apply f e t ≡ ok (sql_int z)) × HasValues f e ts zs

abbrev pub IsIn : ℤ → List ℤ → Type 0
IsIn m [] = ⊥
IsIn m (z ∷ zs) = (m ≡ z) ⊎ IsIn m zs

abbrev pub AtMost : ℤ → List ℤ → Type 0
AtMost m [] = Unit
AtMost m (z ∷ zs) = (ltb_ℤ m z ≡ false) × AtMost m zs

AtMost-trans : (m n : ℤ) (zs : List ℤ) → ltb_ℤ n m ≡ false → AtMost m zs → AtMost n zs
AtMost-trans m n [] h k = tt
AtMost-trans m n (z ∷ zs) h k = (ground (arith, h, k.0), AtMost-trans m n zs h k.1)

best_row-max :
    (f : Floats) (e : Expression) (b : ℤ) (ts : List JoinedTuple) (zs : List ℤ)
    → HasValues f e ts zs
    → (m : ℤ) × (best_row f (value_gt f) e (sql_int b) ts ≡ ok (sql_int m))
      × IsIn m (b ∷ zs)
      × AtMost m (b ∷ zs)
unfolding best_row value_gt value_lt
best_row-max f e b [] [] h = (b, refl, inl refl, (ground arith, tt))
best_row-max f e b [] (z ∷ zs) h = absurd h
best_row-max f e b (t ∷ ts) [] h = absurd h
best_row-max f e b (t ∷ ts) (z ∷ zs) h = elim (Bool-cases (ltb_ℤ b z)) [
  | inl greater ↦
      let (m, run, inside, most) = best_row-max f e z ts zs h.1 in
      (m, rw (h.0, greater, best_row) run, inr inside, (ground (arith, most.0, greater), most))
  | inr small ↦
      let (m, run, inside, most) = best_row-max f e b ts zs h.1 in
      (
        m,
        rw (h.0, small, best_row) run,
        elim inside [ inl here ↦ inl here | inr later ↦ inr (inr later) ],
        (most.0, (ground (arith, most.0, small), most.1)),
      )
]

-- MAX of an expression that has an integer on each of the rows, one at least, is one of the
-- integers, and none of them is greater.
pub apply_target-max :
    (f : Floats) (e : Expression) (t : JoinedTuple) (ts : List JoinedTuple) (z : ℤ) (zs : List ℤ)
    → HasValues f e (t ∷ ts) (z ∷ zs)
    → (m : ℤ) × (apply_target f (max e) (t ∷ ts) ≡ ok (sql_int m))
      × IsIn m (z ∷ zs)
      × AtMost m (z ∷ zs)
unfolding apply_target best
apply_target-max f e t ts z zs h =
    let (m, run, inside, most) = best_row-max f e z (t ∷ ts) (z ∷ zs) h in
    (
      m,
      ap (λ r. r >>= λ v. best_row f (value_gt f) e v (t ∷ ts)) h.0 ∙ run,
      elim inside [ inl here ↦ inl here | inr later ↦ later ],
      most.1,
    )
