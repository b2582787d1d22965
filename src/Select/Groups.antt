-- ===== src/Select/Groups.antt =====
-- What GROUP BY of core/storage/database/select.cpp does with its rows.
use csql.Base.{◌≡◌, sym, List, [], ◌∷◌, ◌++◌, map, Str}
use mathlib.Core.List.{Perm, perm_middle, append_assoc, append-nil}
use mathlib.Core.List.Perm
use mathlib.Core.Path.{subst}
use csql.Base.Result.{ok, Post, Post-ok, after-Post, bind-Post, either-Post, weaken-Post}
use csql.Types.{SqlTypes, Floats}
use csql.Io.RoundTrip.Compounds.{All}
use csql.Operators.{JoinedTuple}
use csql.Select.Completed.{IsSorted, IsCompleted, group_of-IsCompleted}
use csql.Select.Results.{Groups, values_eq, group_of, add_to_group, group_rows}

-- The rows of all groups.
abbrev pub all_rows : Groups → List JoinedTuple
all_rows [] = []
all_rows ((group, rows) ∷ groups) = rows ++ all_rows groups

-- The row that goes into a group.
abbrev made : List (Str × Str) → JoinedTuple → JoinedTuple
made columns row = (group_of columns row).1

abbrev HasRows : List JoinedTuple → Groups → Type 0
HasRows rows groups = Perm (all_rows groups) rows

add_to_group-Perm :
    (f : Floats) (group : List SqlTypes) (row : JoinedTuple) (groups : Groups)
    → Post (HasRows (row ∷ all_rows groups)) (add_to_group f group row groups)
unfolding add_to_group
add_to_group-Perm f group row [] = Perm.refl (row ∷ [])
add_to_group-Perm f group row ((other, rows) ∷ groups) =
    after-Post (HasRows (row ∷ rows ++ all_rows groups)) (values_eq f other group) _ (λ same.
      either-Post (HasRows (row ∷ rows ++ all_rows groups)) same _ _
        (subst (λ l. Perm l (row ∷ rows ++ all_rows groups))
          (sym (append_assoc rows (row ∷ []) (all_rows groups)))
          (perm_middle rows (all_rows groups)))
        (bind-Post (HasRows (row ∷ rows ++ all_rows groups)) (HasRows (row ∷ all_rows groups))
          (add_to_group f group row groups) _ (add_to_group-Perm f group row groups)
          (λ groups' p.
            Perm.trans (Perm.append (Perm.refl rows) p) (perm_middle rows (all_rows groups)))))

group_rows-HasRows :
    (f : Floats) (columns : List (Str × Str)) (rows : List JoinedTuple) (groups : Groups)
    → Post (HasRows (map (made columns) rows ++ all_rows groups)) (group_rows f columns rows groups)
unfolding group_rows
group_rows-HasRows f columns [] groups = Perm.refl (all_rows groups)
group_rows-HasRows f columns (row ∷ rows) groups =
    let g = group_of columns row in
    bind-Post (HasRows (g.1 ∷ map (made columns) rows ++ all_rows groups))
      (HasRows (g.1 ∷ all_rows groups)) (add_to_group f g.0 g.1 groups) _
      (add_to_group-Perm f g.0 g.1 groups)
      (λ groups' p.
        weaken-Post (HasRows (g.1 ∷ map (made columns) rows ++ all_rows groups))
          (HasRows (map (made columns) rows ++ all_rows groups'))
          (group_rows f columns rows groups') (group_rows-HasRows f columns rows groups')
          (λ r q. Perm.trans q (
            Perm.trans (Perm.append (Perm.refl (map (made columns) rows)) p)
              (perm_middle (map (made columns) rows) (all_rows groups)))))

-- Each row with its completed one.
abbrev pub AreCompleted : List (Str × Str) → List JoinedTuple → List JoinedTuple → Type 0
AreCompleted columns [] [] = Unit
AreCompleted columns [] (row' ∷ rows') = ⊥
AreCompleted columns (row ∷ rows) [] = ⊥
AreCompleted columns (row ∷ rows) (row' ∷ rows') =
    IsCompleted columns row row' × AreCompleted columns rows rows'

made-AreCompleted :
    (columns : List (Str × Str)) (rows : List JoinedTuple)
    → All IsSorted rows
    → AreCompleted columns rows (map (made columns) rows)
made-AreCompleted columns [] s = tt
made-AreCompleted columns (row ∷ rows) s =
    (group_of-IsCompleted columns row s.0, made-AreCompleted columns rows s.1)

-- GROUP BY loses no row and makes none up: when the keys of each row stand in their order, the rows
-- of all groups are, in some order, the rows of the query, each completed: at every key it has what
-- it had, or a null when it had nothing and the key is a column to group by.
pub group_rows-Perm :
    (f : Floats) (columns : List (Str × Str)) (rows : List JoinedTuple) (groups : Groups)
    → All IsSorted rows
    → group_rows f columns rows [] ≡ ok groups
    → (rows' : List JoinedTuple) × AreCompleted columns rows rows' × Perm (all_rows groups) rows'
group_rows-Perm f columns rows groups s h =
    let given = map (made columns) rows in
    (
      given,
      made-AreCompleted columns rows s,
      subst (Perm (all_rows groups)) (append-nil given) (
          Post-ok (HasRows (given ++ [])) (group_rows f columns rows []) groups
            (group_rows-HasRows f columns rows []) h),
    )
