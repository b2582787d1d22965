-- ===== src/Parsers/ExpressionParser/Precedence.antt =====
-- How core/controller/tokenizer/expression_parser groups operands of infix operators.
use csql.Base.{
  ℕ, suc, ◌≡◌, refl, ap, ◌∙◌, true, false, inl, inr, List, [], ◌∷◌, leb, if◌then◌else◌, Str, codes,
  Bool-cases,
}
use csql.Base.Text.{str_eq}
use csql.Base.Result.{ok, ◌>>=◌}
use csql.Types.{Floats}
use csql.Operators.{BinaryOperator}
use csql.Expression.{Expression, attribute, binary}
use csql.Tokenizer.{TokenType}
use csql.Tokenizer.Keywords.{SqlOperators}
use csql.Tokenizer.Cursor.{Cursor, peek}
use csql.Parsers.ExpressionParser.{
  Parsing, parse, parse_loop, get_priority, exe_op, combine, push_made, settle, drain, one_result,
}
use csql.Parsers.ExpressionParser.Rounds.{
  Infix, operator, joined, token, name_token, operator_token, IsText, exe_op-joined,
  parse_loop-name, parse_loop-operator, parse_loop-like, parse_loop-end, settle-joined,
  settle-waits, parse-parse_loop, one_result-one, one_result-two,
}

-- Three names with two operators between them, the first of them infix, and the end of the expression.
abbrev pub three : Str → Infix → Str → Str → SqlOperators → Str → Str → Str → Cursor
three a o d b q e c end_token = record {
  tokens =
      name_token a
      ∷ operator_token o d
      ∷ name_token b
      ∷ token TokenType.operators q e
      ∷ name_token c
      ∷ token TokenType.punctuation SqlOperators.unknown_op end_token
      ∷ [];
  at = 0;
}

abbrev pub column : Str → Expression
column a = attribute [] a

module _ (f : Floats) (n : ℕ) (a : Str) (o : Infix) (d b e c end_token : Str)
    (ta : IsText end_token a) (td : IsText end_token d) (tb : IsText end_token b)
    (te : IsText end_token e) (tc : IsText end_token c)
    (no_point : str_eq end_token (codes ".") ≡ false)
    (ends : str_eq end_token end_token ≡ true) where
  abbrev at_place : SqlOperators → ℕ → List Expression → List SqlOperators → Parsing
  at_place q i result ops = record {
    cursor = record (three a o d b q e c end_token) { at = i };
    result = result;
    ops = ops;
  }

  -- Up to the second operator.
  start :
      (q : SqlOperators)
      → parse_loop f (suc (suc (suc (suc (suc (suc n)))))) end_token (at_place q 0 [] [])
        ≡ parse_loop f
            (suc (suc (suc n)))
            end_token
            (at_place q 3 (column b ∷ column a ∷ []) (operator o ∷ []))
  unfolding peek settle
  start q =
      parse_loop-name f (suc (suc (suc (suc (suc n))))) end_token (at_place q 0 [] []) a
        TokenType.operators (operator o) d refl refl ta.0 td.1
      ∙ parse_loop-operator f (suc (suc (suc (suc n)))) end_token (at_place q 1 (column a ∷ []) [])
          o d [] (column a ∷ []) refl td.0 refl
      ∙ parse_loop-name f (suc (suc (suc n))) end_token
          (at_place q 2 (column a ∷ []) (operator o ∷ [])) b TokenType.operators q e refl refl tb.0
          te.1

  -- From the second operator on.
  finish :
      (p : Infix) (ops : List SqlOperators) (result : List Expression)
      → settle (get_priority (operator p)) (operator o ∷ []) (column b ∷ column a ∷ [])
        ≡ ok (ops, result)
      → parse_loop f
          (suc (suc (suc n)))
          end_token
          (at_place (operator p) 3 (column b ∷ column a ∷ []) (operator o ∷ []))
        ≡ ok (at_place (operator p) 5 (column c ∷ result) (operator p ∷ ops))
  unfolding peek
  finish p ops result settled =
      parse_loop-operator f (suc (suc n)) end_token
        (at_place (operator p) 3 (column b ∷ column a ∷ []) (operator o ∷ [])) p e ops result refl
        te.0 settled
      ∙ parse_loop-name f (suc n) end_token (at_place (operator p) 4 result (operator p ∷ ops)) c
          TokenType.punctuation SqlOperators.unknown_op end_token refl refl tc.0 no_point
      ∙ parse_loop-end f n end_token
          (at_place (operator p) 5 (column c ∷ result) (operator p ∷ ops))
          (token TokenType.punctuation SqlOperators.unknown_op end_token) refl ends

  -- Of `a o b p c` for two infix operators, the parser makes `(a o b) p c` when the priority of
  -- `p` is at most that of `o`, and `a o (b p c)` when it is more, and the cursor stops at the
  -- end; no text of the six is the point, and none of the first five is the end.
  pub parse_infix :
      (p : Infix)
      → parse f
          (suc (suc (suc (suc (suc (suc (suc n)))))))
          end_token
          (three a o d b (operator p) e c end_token)
        ≡ ok (
          (if leb (get_priority (operator p)) (get_priority (operator o))
              then joined p (joined o (column a) (column b)) (column c)
              else joined o (column a) (joined p (column b) (column c))),
          record (three a o d b (operator p) e c end_token) { at = 5 },
        )
  parse_infix p =
      let tight = leb (get_priority (operator p)) (get_priority (operator o)) in
      parse-parse_loop f (suc (suc (suc (suc (suc (suc n)))))) end_token
        (three a o d b (operator p) e c end_token)
      ∙ elim (Bool-cases tight) [
        | inl h ↦
            ap (λ r. r >>= one_result)
              (start (operator p)
                ∙ finish p [] (joined o (column a) (column b) ∷ [])
                    (settle-joined (get_priority (operator p)) o (column a) (column b) h))
            ∙ one_result-one (record (three a o d b (operator p) e c end_token) { at = 5 }) p
                (joined o (column a) (column b)) (column c)
            ∙ rw h refl
        | inr h ↦
            ap (λ r. r >>= one_result)
              (start (operator p)
                ∙ finish p (operator o ∷ []) (column b ∷ column a ∷ [])
                    (settle-waits (get_priority (operator p)) o (column b ∷ column a ∷ []) h))
            ∙ one_result-two (record (three a o d b (operator p) e c end_token) { at = 5 }) o p
                (column a) (column b) (column c)
            ∙ rw h refl
      ]

  -- Of `a o b LIKE c` for an infix operator of any priority, the parser makes `a o (b LIKE c)`, and
  -- the cursor stops at the end; no text of the six is the point, and none of the first five is the
  -- end.
  pub parse_like :
      parse f
        (suc (suc (suc (suc (suc (suc (suc n)))))))
        end_token
        (three a o d b SqlOperators.like_op e c end_token)
      ≡ ok (
        joined o (column a) (binary BinaryOperator.like (column b) (column c)),
        record (three a o d b SqlOperators.like_op e c end_token) { at = 5 },
      )
  unfolding peek one_result drain exe_op combine push_made
  parse_like =
      let q = SqlOperators.like_op in
      parse-parse_loop f (suc (suc (suc (suc (suc (suc n)))))) end_token
        (three a o d b q e c end_token)
      ∙ ap (λ r. r >>= one_result)
          (start q
            ∙ parse_loop-like f (suc (suc n)) end_token
                (at_place q 3 (column b ∷ column a ∷ []) (operator o ∷ [])) e refl te.0
            ∙ parse_loop-name f (suc n) end_token
                (at_place q 4 (column b ∷ column a ∷ []) (q ∷ operator o ∷ [])) c
                TokenType.punctuation SqlOperators.unknown_op end_token refl refl tc.0 no_point
            ∙ parse_loop-end f n end_token
                (at_place q 5 (column c ∷ column b ∷ column a ∷ []) (q ∷ operator o ∷ []))
                (token TokenType.punctuation SqlOperators.unknown_op end_token) refl ends)
      ∙ rw (exe_op-joined o (column a) (binary BinaryOperator.like (column b) (column c)) []) refl
