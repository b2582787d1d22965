-- ===== src/Tests/Joining.antt =====
-- Joined tuples, and a join of two tables.
use csql.Base.{
  ℕ, ◌≡◌, refl, true, false, ◌&&◌, ◌||◌, none, List, [], ◌∷◌, arith, Str, codes, str_eq, str_eq_iff,
}
use csql.Base.Int.{pos}
use csql.Base.Assoc.{lookup, pair_eq, str_eq_instance}
use csql.Types.{sql_int}
use csql.Types.Tuples.{Tuple}
use csql.Operators.{JoinedTuple, BinaryOperator}
use csql.Expression.{attribute, binary}
use csql.Tests.Numbers.{plain_floats}
use csql.Select.{inner_join, cross_join, filter_rows}
use csql.Select.Joining.{inner_join-cross_join}
use csql.Joins.{
  JoinTypes, JoinExpression, apply_join, add_to_joined_tuple, remove_from_joined_tuple,
}
use csql.Joins.Restores.{is_of, remove_from_joined_tuple-add_to_joined_tuple}

abbrev pet : Tuple
pet = (codes "name", sql_int (pos 4)) ∷ []

abbrev owner : JoinedTuple
owner = ((codes "owner", codes "name"), sql_int (pos 7)) ∷ []

apart : str_eq (codes "owner") (codes "pet") ≡ false
unfolding csql.Base.Text.str_eq
apart = refl

owner-fresh : (q : Str × Str) → is_of (codes "pet") pet q ≡ true → lookup q owner ≡ none
unfolding lookup
owner-fresh q h =
    ground (arith, h, apart, str_eq_iff (codes "pet") q.0, str_eq_iff (codes "owner") q.0)

remove_from_joined_tuple-add_to_joined_tuple_example :
    lookup
      (codes "owner", codes "name")
      (remove_from_joined_tuple (codes "pet") pet (add_to_joined_tuple (codes "pet") pet owner))
    ≡ lookup (codes "owner", codes "name") owner
remove_from_joined_tuple-add_to_joined_tuple_example =
    remove_from_joined_tuple-add_to_joined_tuple (codes "pet") pet owner owner-fresh
      (codes "owner", codes "name")

-- Owners and pets of one name.
abbrev same_name : JoinExpression
same_name = record {
  expression =
      binary BinaryOperator.equal (attribute (codes "owner") (codes "name"))
        (attribute (codes "pet") (codes "name"));
  join_type = JoinTypes.inner;
  target_entity_name = codes "pet";
}

inner_join-cross_join_example :
    inner_join plain_floats same_name (owner ∷ []) (pet ∷ pet ∷ [])
    ≡ filter_rows
        (apply_join plain_floats same_name)
        (cross_join same_name (owner ∷ []) (pet ∷ pet ∷ []))
inner_join-cross_join_example =
    inner_join-cross_join plain_floats same_name (owner ∷ []) (pet ∷ pet ∷ [])
