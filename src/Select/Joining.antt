-- ===== src/Select/Joining.antt =====
-- What the joins of core/storage/database/select.cpp make of their rows.
use csql.Base.{◌≡◌, refl, sym, ap, ◌∙◌, Bool, true, false, List, [], ◌∷◌, ◌++◌, map, if◌then◌else◌}
use csql.Base.Result.{Result, ok, err, ◌>>=◌}
use csql.Types.{Floats}
use csql.Types.Tuples.{Tuple}
use csql.Operators.{JoinedTuple}
use csql.Joins.{JoinExpression, apply_join}
use csql.Select.{joined_row, matches, inner_join, cross_join, filter_rows}

matches-filter_rows :
    (f : Floats) (j : JoinExpression) (row1 : JoinedTuple) (others : List Tuple)
    → matches f j row1 others ≡ filter_rows (apply_join f j) (map (joined_row j row1) others)
unfolding matches filter_rows
matches-filter_rows f j row1 [] = refl
matches-filter_rows f j row1 (row2 ∷ others) =
    ap
      (λ r. apply_join f j (joined_row j row1 row2) >>= λ b.
        r >>= λ more. ok (if b then joined_row j row1 row2 ∷ more else more))
      (matches-filter_rows f j row1 others)

bind_ok {ℓ} : {A : Type ℓ} (r : Result A) → (r >>= λ a. ok a) ≡ r
bind_ok (err e) = refl
bind_ok (ok a) = refl

-- A row before the rows of two lists.
filter_step {ℓ} :
    {A : Type ℓ} (x : A) (r : Result Bool) (rs ss : Result (List A))
    → (r >>= λ b. (rs >>= λ own. ss >>= λ more. ok (own ++ more)) >>= λ rest.
        ok (if b then x ∷ rest else rest))
      ≡ ((r >>= λ b. rs >>= λ rest. ok (if b then x ∷ rest else rest)) >>= λ own.
          ss >>= λ more. ok (own ++ more))
filter_step x (err e) rs ss = refl
filter_step x (ok b) (err e) ss = refl
filter_step x (ok b) (ok own) (err e) = refl
filter_step x (ok true) (ok own) (ok more) = refl
filter_step x (ok false) (ok own) (ok more) = refl

filter_rows-append :
    (test : JoinedTuple → Result Bool) (xs ys : List JoinedTuple)
    → filter_rows test (xs ++ ys)
      ≡ (filter_rows test xs >>= λ own. filter_rows test ys >>= λ more. ok (own ++ more))
unfolding filter_rows
filter_rows-append test [] ys = sym (bind_ok (filter_rows test ys))
filter_rows-append test (x ∷ xs) ys =
    ap (λ r. test x >>= λ b. r >>= λ rest. ok (if b then x ∷ rest else rest))
      (filter_rows-append test xs ys)
    ∙ filter_step x (test x) (filter_rows test xs) (filter_rows test ys)

-- The inner join is the cross join and then the rows of it on which the condition of the join
-- holds, failures of the condition included.
pub inner_join-cross_join :
    (f : Floats) (j : JoinExpression) (rows : List JoinedTuple) (others : List Tuple)
    → inner_join f j rows others ≡ filter_rows (apply_join f j) (cross_join j rows others)
unfolding inner_join cross_join filter_rows
inner_join-cross_join f j [] others = refl
inner_join-cross_join f j (row1 ∷ rows) others =
    ap (λ r. r >>= λ own. inner_join f j rows others >>= λ more. ok (own ++ more))
      (matches-filter_rows f j row1 others)
    ∙ ap
        (λ r. filter_rows (apply_join f j) (map (joined_row j row1) others) >>= λ own.
          r >>= λ more. ok (own ++ more))
        (inner_join-cross_join f j rows others)
    ∙ sym (
        filter_rows-append (apply_join f j) (map (joined_row j row1) others)
          (cross_join j rows others))
