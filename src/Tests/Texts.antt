-- ===== src/Tests/Texts.antt =====
-- Texts of values, the functions of the language, and aggregates on values.
use csql.Base.{ℕ, ◌≡◌, ◌-◌, refl, ◌++◌, [], ◌∷◌, length, arith, Str, codes}
use csql.Base.Int.{ℤ, pos, negsuc}
use csql.Base.Text.{str_eq}
use csql.Base.Result.{ok, err, errors}
use csql.Types.{DataTypes, sql_int, sql_varchar}
use csql.Tests.Numbers.{plain_floats}
use csql.Convert.{covert_string_to_sql_type, covert_sql_type_to_string}
use csql.Convert.Decimal.{
  covert_string_to_sql_type-covert_sql_type_to_string, covert_string_to_sql_type_bound,
}
use csql.Functions.{left, right, replace}
use csql.Functions.Strings.{left-right, replace-returns}
use csql.Operators.{JoinedTuple, apply_attribute, named}
use csql.Expression.{Expression, attribute, apply}
use csql.Expression.Aggregates.{max, apply_target}
use csql.Expression.Aggregates.Extremes.{HasValues, IsIn, AtMost, apply_target-max}

covert_string_to_sql_type-covert_sql_type_to_string_example :
    covert_string_to_sql_type plain_floats DataTypes.int_type
      (covert_sql_type_to_string plain_floats (sql_int (negsuc 41)))
    ≡ ok (sql_int (negsuc 41))
covert_string_to_sql_type-covert_sql_type_to_string_example =
    covert_string_to_sql_type-covert_sql_type_to_string plain_floats (negsuc 41) (omega arith)

covert_string_to_sql_type_bound_example :
    covert_string_to_sql_type plain_floats DataTypes.int_type
      (covert_sql_type_to_string plain_floats (sql_int (pos 3000000000)))
    ≡ err (errors (codes "Invalid value for int type"))
covert_string_to_sql_type_bound_example =
    covert_string_to_sql_type_bound plain_floats 3000000000 (omega arith)

left-right_example :
    (a : Str) × (b : Str) × (left (sql_varchar (codes "table") ∷ sql_int (pos 2) ∷ [])
      ≡ ok (sql_varchar a))
    × (right (sql_varchar (codes "table") ∷ sql_int (pos (length (codes "table") - 2)) ∷ [])
        ≡ ok (sql_varchar b))
    × (a ++ b ≡ codes "table")
    × (length b ≡ length (codes "table") - 2)
left-right_example = left-right (codes "table") 2 (omega arith) (omega arith)

replace-returns_example :
    (r : Str) × (replace
        (sql_varchar (codes "banana") ∷ sql_varchar (97 ∷ codes "n") ∷ sql_varchar (codes "-") ∷ [])
      ≡ ok (sql_varchar r))
replace-returns_example = replace-returns (codes "banana") 97 (codes "n") (codes "-")

abbrev age : Expression
age = attribute [] (codes "age")

abbrev person : ℕ → JoinedTuple
person n = (([], codes "age"), sql_int (pos n)) ∷ []

ages : HasValues plain_floats age (person 3 ∷ person 8 ∷ person 5 ∷ []) (pos 3 ∷ pos 8 ∷ pos 5 ∷ [])
unfolding apply apply_attribute named str_eq
ages = (refl, (refl, (refl, tt)))

apply_target-max_example :
    (m : ℤ) × (apply_target plain_floats (max age) (person 3 ∷ person 8 ∷ person 5 ∷ [])
      ≡ ok (sql_int m))
    × IsIn m (pos 3 ∷ pos 8 ∷ pos 5 ∷ [])
    × AtMost m (pos 3 ∷ pos 8 ∷ pos 5 ∷ [])
apply_target-max_example =
    apply_target-max plain_floats age (person 3) (person 8 ∷ person 5 ∷ []) (pos 3)
      (pos 8 ∷ pos 5 ∷ []) ages
