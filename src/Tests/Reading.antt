-- ===== src/Tests/Reading.antt =====
-- Texts of the language, and expressions on values.
use csql.Base.{◌≡◌, refl, true, false, ◌||◌, ◌⊎◌, List, [], ◌∷◌, Str, codes}
use csql.Base.Int.{pos, ltb_ℤ}
use csql.Base.Text.{str_eq}
use csql.Base.Assoc.{mem}
use csql.Base.Result.{ok, err, errors}
use csql.Types.{sql_int, sql_varchar, sql_bool}
use csql.Tests.Numbers.{plain_floats}
use csql.Tokenizer.{
  Token, tokenize, is_whitespace, is_quote, is_operator, is_punctuation, is_alpha_num,
}
use csql.Tokenizer.Terminates.{is_known, AllKnown, tokenize-returns}
use csql.Operators.{OtherOperator, SetTypes, like_match, like_loop, seek}
use csql.Expression.{value, set_of, other, apply}
use csql.Expression.Compare.{apply-between}
use csql.Expression.Like.{IsWithin, like_match-IsWithin}

abbrev query : Str
query = codes "use db;"

query-AllKnown : AllKnown query
unfolding is_known is_whitespace is_quote is_operator is_punctuation is_alpha_num mem
query-AllKnown = (refl, (refl, (refl, (refl, (refl, (refl, (refl, tt)))))))

tokenize-returns_example :
    ((ts : List Token) × (tokenize query ≡ ok ts)) ⊎ ((m : Str) × (tokenize query ≡ err (errors m)))
tokenize-returns_example = tokenize-returns query query-AllKnown

hash_unknown : is_known 35 ≡ false
unfolding is_known is_whitespace is_quote is_operator is_punctuation is_alpha_num mem
hash_unknown = refl

different : str_eq (codes "a") (codes "b") ≡ false
unfolding str_eq
different = refl

five_run : apply plain_floats (value (sql_int (pos 5))) [] ≡ ok (sql_int (pos 5))
unfolding apply
five_run = refl

apply-between_example :
    apply plain_floats
      (other OtherOperator.between
        (value (sql_int (pos 5)))
        (set_of SetTypes.range (sql_int (pos 1) ∷ sql_int (pos 9) ∷ [])))
      []
    ≡ ok (sql_bool (ltb_ℤ (pos 5) (pos 1) || ltb_ℤ (pos 9) (pos 5)))
apply-between_example =
    apply-between plain_floats OtherOperator.between (value (sql_int (pos 5))) (pos 1) (pos 9)
      (pos 5) [] refl five_run

like_run : like_match (sql_varchar (codes "cars")) (sql_varchar (codes "a%s")) ≡ ok true
unfolding like_match like_loop seek
like_run = refl

like_match-IsWithin_example : IsWithin (codes "a%s") (codes "cars")
like_match-IsWithin_example = like_match-IsWithin (codes "cars") (codes "a%s") like_run
