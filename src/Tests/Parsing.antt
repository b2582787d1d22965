-- ===== src/Tests/Parsing.antt =====
-- Expressions parsed from tokens.
use csql.Base.{◌≡◌, refl, false, true, codes}
use csql.Base.Text.{str_eq}
use csql.Base.Result.{ok}
use csql.Operators.{ArithmeticOperator, BinaryOperator}
use csql.Expression.{arithmetic, binary}
use csql.Tokenizer.Keywords.{SqlOperators}
use csql.Tests.Numbers.{plain_floats}
use csql.Parsers.ExpressionParser.{parse, get_priority}
use csql.Parsers.ExpressionParser.Rounds.{addition, multiplication, IsText}
use csql.Parsers.ExpressionParser.Precedence.{three, column, parse_infix, parse_like}

a-IsText : IsText (codes ";") (codes "a")
unfolding str_eq
a-IsText = (refl, refl)

plus-IsText : IsText (codes ";") (codes "+")
unfolding str_eq
plus-IsText = (refl, refl)

times-IsText : IsText (codes ";") (codes "*")
unfolding str_eq
times-IsText = (refl, refl)

like-IsText : IsText (codes ";") (codes "like")
unfolding str_eq
like-IsText = (refl, refl)

no_point : str_eq (codes ";") (codes ".") ≡ false
unfolding str_eq
no_point = refl

ends : str_eq (codes ";") (codes ";") ≡ true
unfolding str_eq
ends = refl

parse_infix_example :
    parse plain_floats 8 (codes ";") (
      three
        (codes "a")
        addition
        (codes "+")
        (codes "a")
        SqlOperators.multiply_op
        (codes "*")
        (codes "a")
        (codes ";"))
    ≡ ok (
      arithmetic ArithmeticOperator.addition
          (column (codes "a"))
          (arithmetic ArithmeticOperator.multiplication (column (codes "a")) (column (codes "a"))),
      record (three
          (codes "a")
          addition
          (codes "+")
          (codes "a")
          SqlOperators.multiply_op
          (codes "*")
          (codes "a")
          (codes ";")) { at = 5 },
    )
unfolding get_priority
parse_infix_example =
    parse_infix plain_floats 1 (codes "a") addition (codes "+") (codes "a") (codes "*") (codes "a")
      (codes ";") a-IsText plus-IsText a-IsText times-IsText a-IsText no_point ends multiplication

parse_like_example :
    parse plain_floats 8 (codes ";") (
      three
        (codes "a")
        multiplication
        (codes "*")
        (codes "a")
        SqlOperators.like_op
        (codes "like")
        (codes "a")
        (codes ";"))
    ≡ ok (
      arithmetic ArithmeticOperator.multiplication
          (column (codes "a"))
          (binary BinaryOperator.like (column (codes "a")) (column (codes "a"))),
      record (three
          (codes "a")
          multiplication
          (codes "*")
          (codes "a")
          SqlOperators.like_op
          (codes "like")
          (codes "a")
          (codes ";")) { at = 5 },
    )
parse_like_example =
    parse_like plain_floats 1 (codes "a") multiplication (codes "*") (codes "a") (codes "like")
      (codes "a") (codes ";") a-IsText times-IsText a-IsText like-IsText a-IsText no_point ends
