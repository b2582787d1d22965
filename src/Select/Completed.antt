-- ===== src/Select/Completed.antt =====
-- What `row[...]` of core/storage/database/select.cpp does to the row, a `std::map`, when the
-- column is missing.
use csql.Base.{
  ◌≡◌, refl, Bool, true, false, ◌||◌, inl, inr, Option, none, some, List, [], ◌∷◌, arith,
  if◌then◌else◌, Str, str_eq_iff, str_lt_irrefl, str_lt_trans, str_trichotomy, Bool-cases,
}
use mathlib.Core.Path.{subst}
use csql.Base.Assoc.{lookup, pair_eq, str_eq_instance}
use csql.Types.{SqlTypes, sql_null}
use csql.Operators.{JoinedTuple}
use csql.Joins.{key_before, key_is, insert_joined}
use csql.Joins.Restores.{lookup-insert_joined}
use csql.Select.Results.{group_of, or_null}

-- The keys of a row stand in their order, each once, as in a `std::map`.
abbrev pub Above : Str × Str → JoinedTuple → Type 0
Above k [] = Unit
Above k ((j, w) ∷ t) = (key_before k j ≡ true) × Above j t

abbrev pub IsSorted : JoinedTuple → Type 0
IsSorted [] = Unit
IsSorted ((k, v) ∷ t) = Above k t

-- The key is one of the columns.
abbrev pub is_asked : List (Str × Str) → Str × Str → Bool
is_asked [] q = false
is_asked (column ∷ columns) q = key_is column q || is_asked columns q

-- What stands at a column that is asked for.
abbrev filled : Option SqlTypes → Option SqlTypes
filled none = some sql_null
filled (some v) = some v

filled-or_null : (o : Option SqlTypes) → filled o ≡ some (or_null o)
filled-or_null none = refl
filled-or_null (some v) = refl

-- `row'` has what `row` has, and a null for each of the columns that `row` lacks.
abbrev pub IsCompleted : List (Str × Str) → JoinedTuple → JoinedTuple → Type 0
IsCompleted columns row row' =
    (q : Str × Str)
    → lookup q row' ≡ (if is_asked columns q then filled (lookup q row) else lookup q row)

key_before_irrefl : (k : Str × Str) → key_before k k ≡ false
key_before_irrefl k = ground (arith, str_lt_irrefl k.0, str_lt_irrefl k.1)

key_before_trans :
    (j k l : Str × Str) → key_before j k ≡ true → key_before k l ≡ true → key_before j l ≡ true
key_before_trans j k l h g = ground (
  arith,
  str_eq_iff j.0 k.0,
  str_eq_iff k.0 l.0,
  str_eq_iff j.0 l.0,
  str_lt_trans j.0 k.0 l.0,
  str_lt_trans j.1 k.1 l.1,
)

key_before_total :
    (k l : Str × Str) → key_before k l ≡ false → key_is l k ≡ false → key_before l k ≡ true
key_before_total k l h g = ground (
  arith,
  str_eq_iff k.0 l.0,
  str_eq_iff l.0 k.0,
  str_eq_iff l.1 k.1,
  str_trichotomy k.0 l.0,
  str_trichotomy k.1 l.1,
)

Above-trans : (j k : Str × Str) (t : JoinedTuple) → key_before j k ≡ true → Above k t → Above j t
Above-trans j k [] h a = tt
Above-trans j k ((l, w) ∷ t) h a = (key_before_trans j k l h a.0, a.1)

Above-IsSorted : (k : Str × Str) (t : JoinedTuple) → Above k t → IsSorted t
Above-IsSorted k [] a = tt
Above-IsSorted k ((l, w) ∷ t) a = a.1

-- A key below all those of a row is not in it.
lookup-Above : (q : Str × Str) (t : JoinedTuple) → Above q t → lookup q t ≡ none
unfolding lookup
lookup-Above q [] a = refl
lookup-Above q ((j, w) ∷ t) a = ground (
  arith,
  a.0,
  key_before_irrefl q,
  str_eq_iff j.0 q.0,
  str_eq_iff j.1 q.1,
  lookup-Above q t (Above-trans q j t a.0 a.1),
  str_lt_irrefl q.0,
  str_lt_irrefl q.1,
)

insert_joined-Above :
    (k p : Str × Str) (v : SqlTypes) (t : JoinedTuple)
    → key_before k p ≡ true
    → Above k t
    → IsSorted t
    → Above k (insert_joined p v t)
unfolding insert_joined
insert_joined-Above k p v [] h a s = (h, tt)
insert_joined-Above k p v ((j, w) ∷ t) h a s = elim (Bool-cases (key_before p j)) [
  | inl before ↦ rw before (h, (before, a.1))
  | inr above ↦ elim (Bool-cases (key_is j p)) [
    | inl same ↦ rw (above, same) a
    | inr other ↦
        rw (above, other)
          (
            a.0,
            insert_joined-Above j p v t (key_before_total p j above other) s (Above-IsSorted j t s),
          )
  ]
]

insert_joined-IsSorted :
    (p : Str × Str) (v : SqlTypes) (t : JoinedTuple) → IsSorted t → IsSorted (insert_joined p v t)
unfolding insert_joined
insert_joined-IsSorted p v [] s = tt
insert_joined-IsSorted p v ((j, w) ∷ t) s = elim (Bool-cases (key_before p j)) [
  | inl before ↦ rw before (before, s)
  | inr above ↦ elim (Bool-cases (key_is j p)) [
    | inl same ↦ rw (above, same) s
    | inr other ↦
        rw (above, other)
          (insert_joined-Above j p v t (key_before_total p j above other) s (Above-IsSorted j t s))
  ]
]

-- What is at a key after the insertion of a null there.
lookup-insert_joined_same :
    (k : Str × Str) (t : JoinedTuple)
    → IsSorted t
    → lookup k (insert_joined k sql_null t) ≡ some (or_null (lookup k t))
unfolding insert_joined lookup
lookup-insert_joined_same k [] s =
    let same : key_is k k ≡ true = ground (arith, str_eq_iff k.0 k.0, str_eq_iff k.1 k.1) in
    rw same refl
lookup-insert_joined_same k ((j, w) ∷ t) s =
    let same : key_is k k ≡ true = ground (arith, str_eq_iff k.0 k.0, str_eq_iff k.1 k.1) in
    elim (Bool-cases (key_before k j)) [
      | inl before ↦
          let missing : lookup k ((j, w) ∷ t) ≡ none = lookup-Above k ((j, w) ∷ t) (before, s) in
          rw (before, same, missing) refl
      | inr above ↦ elim (Bool-cases (key_is j k)) [
        | inl here ↦ ground (arith, above, here)
        | inr other ↦
            ground (arith, above, other, lookup-insert_joined_same k t (Above-IsSorted j t s))
      ]
    ]

if_same : (b : Bool) (o : Option SqlTypes) → (if b then o else o) ≡ o
if_same true o = refl
if_same false o = refl

-- What `groupMap[group]` is given has the values of the columns, or nulls, and the row is
-- completed.
pub group_of-IsCompleted :
    (columns : List (Str × Str)) (row : JoinedTuple)
    → IsSorted row
    → IsCompleted columns row (group_of columns row).1
unfolding group_of
group_of-IsCompleted [] row s q = refl
group_of-IsCompleted (column ∷ columns) row s q =
    let row' = insert_joined column sql_null row in
    let rest = group_of-IsCompleted columns row' (insert_joined-IsSorted column sql_null row s) q in
    elim (Bool-cases (key_is column q)) [
      | inl same ↦
          let is_q : column ≡ q = (pair_eq.beq_iff column q).0 same in
          let here : lookup q row' ≡ some (or_null (lookup q row)) =
            subst (λ k. lookup k row' ≡ some (or_null (lookup k row))) is_q
              (lookup-insert_joined_same column row s) in
          let full : filled (lookup q row) ≡ some (or_null (lookup q row)) =
            filled-or_null (lookup q row) in
          rw (same, rest, here, full) (if_same (is_asked columns q) _)
      | inr other ↦ rw (other, rest, lookup-insert_joined column q sql_null row other) refl
    ]
