-- ===== src/Parsers/ExpressionParser/Rounds.antt =====
-- The rounds of the loop of core/controller/tokenizer/expression_parser at names, infix operators and
-- LIKE.
use csql.Base.{ℕ, suc, ◌≡◌, refl, true, false, some, none, List, [], ◌∷◌, leb, Str, codes}
use csql.Base.Text.{str_eq}
use csql.Base.Result.{ok, ◌>>=◌}
use csql.Types.{Floats}
use csql.Operators.{ArithmeticOperator, BinaryOperator}
use csql.Expression.{Expression, attribute, binary, arithmetic}
use csql.Tokenizer.{TokenType, Token}
use csql.Tokenizer.Keywords.{SqlKeywords, SqlFunctions, SqlOperators}
use csql.Tokenizer.Cursor.{
  Cursor, peek, advance, check_one, consume_attribute, consume_string, any_operator,
  current_is_operator, current_is_type, current_is_char,
}
use csql.Parsers.ExpressionParser.{
  Parsing, parse, parse_loop, parse_token, parse_operator, is_continued, get_priority, exe_op,
  combine, push_made, settle, parse_not, parse_test, drain, one_result, between_names,
}

-- The operators between two operands, without the tests BETWEEN, IN and LIKE.
pub data Infix : Type 0 where
  equal not_equal greater greater_or_equal less_than less_than_or_equal logic_and logic_or addition
        subtraction multiplication division modulus :
      Infix

abbrev pub operator : Infix → SqlOperators
operator equal = SqlOperators.equal_op
operator not_equal = SqlOperators.not_equal_op
operator greater = SqlOperators.gt_op
operator greater_or_equal = SqlOperators.gte_op
operator less_than = SqlOperators.lt_op
operator less_than_or_equal = SqlOperators.lte_op
operator logic_and = SqlOperators.and_op
operator logic_or = SqlOperators.or_op
operator addition = SqlOperators.add_op
operator subtraction = SqlOperators.subtract_op
operator multiplication = SqlOperators.multiply_op
operator division = SqlOperators.divide_op
operator modulus = SqlOperators.mod_op

-- The expression that the operator stands for.
abbrev pub joined : Infix → Expression → Expression → Expression
joined equal l r = binary BinaryOperator.equal l r
joined not_equal l r = binary BinaryOperator.not_equal l r
joined greater l r = binary BinaryOperator.greater l r
joined greater_or_equal l r = binary BinaryOperator.greater_or_equal l r
joined less_than l r = binary BinaryOperator.less_than l r
joined less_than_or_equal l r = binary BinaryOperator.less_than_or_equal l r
joined logic_and l r = binary BinaryOperator.logic_and l r
joined logic_or l r = binary BinaryOperator.logic_or l r
joined addition l r = arithmetic ArithmeticOperator.addition l r
joined subtraction l r = arithmetic ArithmeticOperator.subtraction l r
joined multiplication l r = arithmetic ArithmeticOperator.multiplication l r
joined division l r = arithmetic ArithmeticOperator.division l r
joined modulus l r = arithmetic ArithmeticOperator.modulus l r

abbrev pub token : TokenType → SqlOperators → Str → Token
token ty o d = record {
  token_type = ty;
  keyword = SqlKeywords.unkonwn_kw;
  op = o;
  function = SqlFunctions.unknown_ft;
  data_of = d;
}

abbrev pub name_token : Str → Token
name_token a = token TokenType.identifier SqlOperators.unknown_op a

abbrev pub operator_token : Infix → Str → Token
operator_token o d = token TokenType.operators (operator o) d

-- Neither the end of the expression nor the point between a table and its attribute.
abbrev pub IsText : Str → Str → Type 0
IsText end_token d = (str_eq d end_token ≡ false) × (str_eq d (codes ".") ≡ false)

pub exe_op-joined :
    (o : Infix) (l r : Expression) (es : List Expression)
    → exe_op (operator o) (r ∷ l ∷ es) ≡ ok (joined o l r ∷ es)
unfolding exe_op combine push_made
exe_op-joined equal l r es = refl
exe_op-joined not_equal l r es = refl
exe_op-joined greater l r es = refl
exe_op-joined greater_or_equal l r es = refl
exe_op-joined less_than l r es = refl
exe_op-joined less_than_or_equal l r es = refl
exe_op-joined logic_and l r es = refl
exe_op-joined logic_or l r es = refl
exe_op-joined addition l r es = refl
exe_op-joined subtraction l r es = refl
exe_op-joined multiplication l r es = refl
exe_op-joined division l r es = refl
exe_op-joined modulus l r es = refl

pub any_operator-operator :
    (o : Infix) → any_operator (SqlOperators.not_op ∷ between_names) (operator o) ≡ false
any_operator-operator equal = refl
any_operator-operator not_equal = refl
any_operator-operator greater = refl
any_operator-operator greater_or_equal = refl
any_operator-operator less_than = refl
any_operator-operator less_than_or_equal = refl
any_operator-operator logic_and = refl
any_operator-operator logic_or = refl
any_operator-operator addition = refl
any_operator-operator subtraction = refl
any_operator-operator multiplication = refl
any_operator-operator division = refl
any_operator-operator modulus = refl

module _ (f : Floats) (n : ℕ) (end_token : Str) (s : Parsing) where
  -- A round at a name.
  pub parse_loop-name :
      (a : Str) (ty : TokenType) (o : SqlOperators) (d : Str)
      → peek s.cursor ≡ ok (name_token a)
      → peek (advance s.cursor) ≡ ok (token ty o d)
      → str_eq a end_token ≡ false
      → str_eq d (codes ".") ≡ false
      → parse_loop f (suc n) end_token s
        ≡ parse_loop f n end_token
            (record s { cursor = advance s.cursor; result = attribute [] a ∷ s.result })
  unfolding parse_loop is_continued consume_attribute consume_string str_eq
  parse_loop-name a ty o d here there no_end no_point =
      let more : is_continued end_token s.cursor ≡ ok true = rw (here, no_end) refl in
      let text : consume_string s.cursor ≡ ok (a, advance s.cursor) = rw here refl in
      let named : consume_attribute s.cursor ≡ ok (some ([], a, advance s.cursor)) =
        rw (here, text, there, no_point) refl in
      rw (more, named) refl

  -- A round at an infix operator.
  pub parse_loop-operator :
      (o : Infix) (d : Str) (ops : List SqlOperators) (result : List Expression)
      → peek s.cursor ≡ ok (operator_token o d)
      → str_eq d end_token ≡ false
      → settle (get_priority (operator o)) s.ops s.result ≡ ok (ops, result)
      → parse_loop f (suc n) end_token s
        ≡ parse_loop f n end_token
            (record { cursor = advance s.cursor; result = result; ops = operator o ∷ ops })
  unfolding parse_loop is_continued consume_attribute current_is_type parse_token current_is_char
      current_is_operator parse_operator check_one
  parse_loop-operator o d ops result here no_end settled =
      let more : is_continued end_token s.cursor ≡ ok true = rw (here, no_end) refl in
      let named : consume_attribute s.cursor ≡ ok none = rw here refl in
      let calls : current_is_type TokenType.function s.cursor ≡ ok false = rw here refl in
      let made : Parsing = record {
        cursor = advance s.cursor;
        result = result;
        ops = operator o ∷ ops;
      } in
      let operated : parse_operator s ≡ ok made = rw (here, settled) refl in
      let run : parse_token f n s ≡ ok made = rw (here, any_operator-operator o, operated) refl in
      rw (more, named, calls, run) refl

  -- A round at LIKE: no operator on the stack is settled.
  pub parse_loop-like :
      (d : Str)
      → peek s.cursor ≡ ok (token TokenType.operators SqlOperators.like_op d)
      → str_eq d end_token ≡ false
      → parse_loop f (suc n) end_token s
        ≡ parse_loop f n end_token
            (record s { cursor = advance s.cursor; ops = SqlOperators.like_op ∷ s.ops })
  unfolding parse_loop is_continued consume_attribute current_is_type parse_token current_is_char
      current_is_operator parse_not parse_test check_one
  parse_loop-like d here no_end =
      let more : is_continued end_token s.cursor ≡ ok true = rw (here, no_end) refl in
      let unnamed : consume_attribute s.cursor ≡ ok none = rw here refl in
      let calls : current_is_type TokenType.function s.cursor ≡ ok false = rw here refl in
      let made : Parsing = record s {
        cursor = advance s.cursor;
        ops = SqlOperators.like_op ∷ s.ops;
      } in
      let tested : parse_test f n false s ≡ ok made = rw here refl in
      let not_seen : parse_not f n s ≡ ok made = rw (here, tested) refl in
      let run : parse_token f n s ≡ ok made = rw (here, not_seen) refl in
      rw (more, unnamed, calls, run) refl

  -- The end of the loop.
  pub parse_loop-end :
      (t : Token)
      → peek s.cursor ≡ ok t
      → str_eq t.data_of end_token ≡ true
      → parse_loop f (suc n) end_token s ≡ ok s
  unfolding parse_loop is_continued
  parse_loop-end t here ends =
      let more : is_continued end_token s.cursor ≡ ok false = rw (here, ends) refl in rw more refl

-- The operators on the stack have at least the priority, or the top one has less.
pub settle-joined :
    (p : ℕ) (o : Infix) (l r : Expression)
    → leb p (get_priority (operator o)) ≡ true
    → settle p (operator o ∷ []) (r ∷ l ∷ []) ≡ ok ([], joined o l r ∷ [])
unfolding settle
settle-joined p o l r h = rw (h, exe_op-joined o l r [], settle) refl

pub settle-waits :
    (p : ℕ) (o : Infix) (es : List Expression)
    → leb p (get_priority (operator o)) ≡ false
    → settle p (operator o ∷ []) es ≡ ok (operator o ∷ [], es)
unfolding settle
settle-waits p o es h = rw (h, settle) refl

pub parse-parse_loop :
    (f : Floats) (n : ℕ) (end_token : Str) (c : Cursor)
    → parse f (suc n) end_token c
      ≡ (parse_loop f n end_token (record { cursor = c; result = []; ops = [] }) >>= one_result)
unfolding parse
parse-parse_loop f n end_token c = refl

pub one_result-one :
    (c : Cursor) (p : Infix) (l r : Expression)
    → one_result (record { cursor = c; result = r ∷ l ∷ []; ops = operator p ∷ [] })
      ≡ ok (joined p l r, c)
unfolding one_result drain
one_result-one c p l r = rw (exe_op-joined p l r []) refl

pub one_result-two :
    (c : Cursor) (o p : Infix) (a l r : Expression)
    → one_result
        (record { cursor = c; result = r ∷ l ∷ a ∷ []; ops = operator p ∷ operator o ∷ [] })
      ≡ ok (joined o a (joined p l r), c)
unfolding one_result drain
one_result-two c o p a l r =
    rw (exe_op-joined p l r (a ∷ []), exe_op-joined o a (joined p l r) []) refl
