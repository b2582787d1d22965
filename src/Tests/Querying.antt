-- ===== src/Tests/Querying.antt =====
-- Conditions of a query, and its groups and pages.
use csql.Base.{
  ℕ, ◌+◌, ◌≡◌, refl, sym, ◌∙◌, inl, inr, Bool, true, false, ◌&&◌, Option, some, none, List, [], ◌∷◌,
  arith, Str, codes, str_eq, str_eq_iff, Bool-cases, &&-split, if◌then◌else◌, ltb, get_elem?,
}
use mathlib.Core.List.{Perm}
use csql.Base.Int.{pos}
use csql.Base.Assoc.{lookup}
use csql.Base.Result.{ok}
use csql.Types.{sql_int, sql_null, sql_varchar}
use csql.Joins.{insert_joined}
use csql.Operators.{JoinedTuple, BinaryOperator, OtherOperator, SetTypes}
use csql.Expression.{Expression, attribute, value, binary, set_of, other, apply}
use csql.Expression.Typed.{
  Schema, int_kind, varchar_kind, bool_kind, int_is, varchar_is, Means, IsOnly, here, later, Fits,
  HasType, compared_typed, logic_typed, test_typed, attribute_typed, value_typed, Safe,
}
use csql.Expression.Safety.{apply-Safe}
use csql.Select.Results.{
  Groups, group_of, value_eq, values_eq, add_to_group, group_rows, limit_rows,
}
use csql.Select.Completed.{IsSorted}
use csql.Select.Groups.{all_rows, AreCompleted, group_rows-Perm}
use csql.Select.Limit.{get_elem?-limit_rows}
use csql.Tests.Numbers.{plain_floats}

-- A row with an age and a name.
abbrev owner : JoinedTuple
owner =
    ((codes "owner", codes "age"), sql_int (pos 30))
    ∷ ((codes "owner", codes "name"), sql_varchar (codes "Ann"))
    ∷ []

-- The age without its entity, and the name with it.
abbrev columns : Schema
columns [] name = if str_eq name (codes "age") then some int_kind else none
columns (c ∷ entity) name =
    if str_eq (c ∷ entity) (codes "owner") && str_eq name (codes "name")
    then some varchar_kind
    else none

age_not_name : ¬ codes "age" ≡ codes "name"
unfolding csql.Base.Text.str_eq
age_not_name same =
    let e : str_eq (codes "age") (codes "name") ≡ true =
      (str_eq_iff (codes "age") (codes "name")).1 same in
    absurd cc

age-IsOnly : IsOnly (Means [] (codes "age")) owner (sql_int (pos 30))
age-IsOnly = here refl ((λ same. age_not_name (sym same)), tt)

name-IsOnly : IsOnly (Means (codes "owner") (codes "name")) owner (sql_varchar (codes "Ann"))
name-IsOnly = later (λ same. age_not_name (λ i. (same i).1)) (here refl tt)

owner-Fits : Fits columns owner
owner-Fits [] name k h = elim (Bool-cases (str_eq name (codes "age"))) [
  | inl found ↦
      let is_int : columns [] name ≡ some int_kind = rw found refl in
      let same : int_kind ≡ k = cc in
      (
        sql_int (pos 30),
        rw ((str_eq_iff name (codes "age")).0 found) age-IsOnly,
        rw (← same) (int_is (pos 30)),
      )
  | inr differs ↦ let missing : columns [] name ≡ none = rw differs refl in absurd cc
]
owner-Fits (c ∷ entity) name k h =
    elim (Bool-cases (str_eq (c ∷ entity) (codes "owner") && str_eq name (codes "name"))) [
      | inl found ↦
          let both =
            &&-split (str_eq (c ∷ entity) (codes "owner")) (str_eq name (codes "name")) found in
          let is_text : columns (c ∷ entity) name ≡ some varchar_kind = rw found refl in
          let same : varchar_kind ≡ k = cc in
          (
            sql_varchar (codes "Ann"),
            rw
                (
                  (str_eq_iff (c ∷ entity) (codes "owner")).0 both.0,
                  (str_eq_iff name (codes "name")).0 both.1,
                )
                name-IsOnly,
            rw (← same) (varchar_is (codes "Ann")),
          )
      | inr differs ↦ let missing : columns (c ∷ entity) name ≡ none = rw differs refl in absurd cc
    ]

-- age BETWEEN 20 AND 40 AND owner.name = "Ann"
abbrev condition : Expression
condition =
    binary BinaryOperator.logic_and
      (other OtherOperator.between (attribute [] (codes "age"))
        (set_of SetTypes.range (sql_int (pos 20) ∷ sql_int (pos 40) ∷ [])))
      (binary BinaryOperator.equal (attribute (codes "owner") (codes "name"))
        (value (sql_varchar (codes "Ann"))))

condition-HasType : HasType columns condition bool_kind
unfolding csql.Base.Text.str_eq
condition-HasType =
    logic_typed BinaryOperator.logic_and _ _ tt
      (test_typed OtherOperator.between SetTypes.range int_kind (attribute [] (codes "age"))
        (sql_int (pos 20) ∷ sql_int (pos 40) ∷ []) tt (int_is (pos 20), (int_is (pos 40), tt)) refl
        (attribute_typed [] (codes "age") int_kind refl))
      (compared_typed BinaryOperator.equal varchar_kind (attribute (codes "owner") (codes "name"))
        (value (sql_varchar (codes "Ann"))) tt tt
        (attribute_typed (codes "owner") (codes "name") varchar_kind refl)
        (value_typed (sql_varchar (codes "Ann")) varchar_kind (varchar_is (codes "Ann"))))

apply-Safe_example : Safe false bool_kind (apply plain_floats condition owner)
apply-Safe_example =
    apply-Safe plain_floats columns owner owner-Fits condition bool_kind condition-HasType

-- Two columns to group by, one of which the rows lack.
abbrev by_place : List (Str × Str)
by_place = (codes "owner", codes "name") ∷ (codes "owner", codes "place") ∷ []

abbrev placed : JoinedTuple
placed =
    ((codes "owner", codes "age"), sql_int (pos 30))
    ∷ ((codes "owner", codes "name"), sql_varchar (codes "Ann"))
    ∷ ((codes "owner", codes "place"), sql_null)
    ∷ []

abbrev one_group : Groups
one_group = (sql_varchar (codes "Ann") ∷ sql_null ∷ [], placed ∷ placed ∷ []) ∷ []

grouped : group_rows plain_floats by_place (owner ∷ owner ∷ []) [] ≡ ok one_group
unfolding group_rows group_of insert_joined lookup add_to_group values_eq value_eq
    csql.Base.Text.str_eq csql.Base.Text.str_lt
grouped = refl

owner-IsSorted : IsSorted owner
unfolding csql.Base.Text.str_eq csql.Base.Text.str_lt
owner-IsSorted = (refl, tt)

group_rows-Perm_example :
    (rows' : List JoinedTuple) × AreCompleted by_place (owner ∷ owner ∷ []) rows'
    × Perm (all_rows one_group) rows'
group_rows-Perm_example =
    group_rows-Perm plain_floats by_place (owner ∷ owner ∷ []) one_group
      (owner-IsSorted, (owner-IsSorted, tt)) grouped

abbrev five_rows : List Str
five_rows = codes "a" ∷ codes "b" ∷ codes "c" ∷ codes "d" ∷ codes "e" ∷ []

get_elem?-limit_rows_example :
    (shown : List Str) × (limit_rows (pos 2, pos 1) five_rows ≡ ok shown)
    × ((i : ℕ) → get_elem? shown i ≡ (if ltb i 2 then get_elem? five_rows (1 + i) else none))
get_elem?-limit_rows_example = get_elem?-limit_rows 2 1 five_rows (omega arith) (omega arith)
