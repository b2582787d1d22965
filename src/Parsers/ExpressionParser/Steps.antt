-- ===== src/Parsers/ExpressionParser/Steps.antt =====
-- core/controller/tokenizer/expression_parser: the calls of one round of its loop end, and each takes
-- a token at least.
use csql.Base.{ℕ, zero, suc, ◌<◌, ◌≤◌, Bool, true, false, List, [], ◌∷◌, arith, Str, codes}
use csql.Base.Assoc.{nat_eq}
use csql.Base.Result.{ok, err, errors}
use csql.Base.Ends.{Ends, Anything, bind-Ends, weaken-Ends, either-Ends, if-Ends}
use csql.Types.{Floats}
use csql.Operators.{SetTypes}
use csql.Expression.{Expression, make_set}
use csql.Tokenizer.{TokenType}
use csql.Tokenizer.Keywords.{SqlOperators}
use csql.Tokenizer.Cursor.{
  Cursor, get, check_one, check_operator, check_string, current_is_char, current_is_operator,
  current_is_type, peek,
}
use csql.Tokenizer.Ends.{
  left_over, Before, Read, peek-Ends, get-Ends, check_one-Ends, check_operator-Ends,
  check_string-Ends, current_is_char-Ends, current_is_operator-Ends, current_is_type-Ends,
}
use csql.Parsers.ExpressionParser.{
  Parsing, covert_token_to_sql_type, unwind, settle, drain, one_result, is_continued, skip_comma,
  parse_range, parse_set, parse_test, parse_not, parse_operator, parse_token, get_priority,
  between_names, close, parse_value,
}
use csql.Parsers.ExpressionParser.Stacks.{
  covert_token-Ends, unwind-Ends, settle-Ends, drain-Ends, make_set-Ends,
}

abbrev pub AtMost : Cursor → Cursor → Type 0
AtMost c c' = left_over c' ≤ left_over c

abbrev pub ReadAtMost {ℓ} : {V : Type ℓ} → Cursor → V × Cursor → Type 0
ReadAtMost c r = left_over r.1 ≤ left_over c

-- A round of the loop leaves fewer tokens.
abbrev pub Moves : Parsing → Parsing → Type 0
Moves s s' = left_over s'.cursor < left_over s.cursor

pub skip_comma-Ends : (c : Cursor) → Ends (AtMost c) (skip_comma c)
unfolding skip_comma
skip_comma-Ends c =
    bind-Ends (AtMost c) Anything (current_is_char 44 c) _ (current_is_char-Ends c 44) (λ comma d.
      if-Ends (AtMost c) comma _ _
        (weaken-Ends (AtMost c) (Before c) (check_one c) (check_one-Ends c) (λ c' b. omega arith))
        (omega arith))

pub is_continued-Ends : (s : Str) (c : Cursor) → Ends Anything (is_continued s c)
unfolding is_continued
is_continued-Ends s c = bind-Ends Anything Anything (peek c) _ (peek-Ends c) (λ t d. tt)

parse_range-Ends : (f : Floats) (c : Cursor) → Ends (Read c) (parse_range f c)
unfolding parse_range
parse_range-Ends f c = bind-Ends (Read c) (Read c) (get c) _ (get-Ends c) (λ t b1.
    bind-Ends (Read c) Anything (covert_token_to_sql_type f t.0) _ (covert_token-Ends f t.0)
      (λ low d1.
        bind-Ends (Read c) (Before t.1) (check_operator SqlOperators.add_op t.1) _
          (check_operator-Ends t.1 SqlOperators.add_op)
          (λ c2 b2. bind-Ends (Read c) (Read c2) (get c2) _ (get-Ends c2) (λ u b3.
            bind-Ends (Read c) Anything (covert_token_to_sql_type f u.0) _ (covert_token-Ends f u.0)
              (λ high d2. omega arith)))))

parse_set-Ends :
    (f : Floats) (fuel : ℕ) (c : Cursor)
    → left_over c < fuel
    → Ends (ReadAtMost c) (parse_set f fuel c)
unfolding parse_set
parse_set-Ends f zero c enough = absurd (omega arith)
parse_set-Ends f (suc fuel) c enough =
    bind-Ends (ReadAtMost c) Anything (current_is_char 93 c) _ (current_is_char-Ends c 93)
      (λ closed d. either-Ends (ReadAtMost c) closed _ _ (omega arith) (
        bind-Ends (ReadAtMost c) (Read c) (get c) _ (get-Ends c) (λ t b1.
          bind-Ends (ReadAtMost c) Anything (covert_token_to_sql_type f t.0) _
            (covert_token-Ends f t.0)
            (λ v d1.
              bind-Ends (ReadAtMost c) (AtMost t.1) (skip_comma t.1) _ (skip_comma-Ends t.1)
                (λ c2 b2.
                  bind-Ends (ReadAtMost c) (ReadAtMost c2) (parse_set f fuel c2) _
                    (parse_set-Ends f fuel c2 (omega arith)) (λ r b3. omega arith))))))

parse_test-Ends :
    (f : Floats) (fuel : ℕ) (negated : Bool) (s : Parsing)
    → left_over s.cursor ≤ fuel
    → Ends (Moves s) (parse_test f fuel negated s)
unfolding parse_test
parse_test-Ends f fuel negated s enough =
    bind-Ends (Moves s) Anything (current_is_operator (SqlOperators.between_op ∷ []) s.cursor) _
      (current_is_operator-Ends s.cursor (SqlOperators.between_op ∷ []))
      (λ is_between d1.
        bind-Ends (Moves s) Anything (current_is_operator (SqlOperators.in_op ∷ []) s.cursor) _
          (current_is_operator-Ends s.cursor (SqlOperators.in_op ∷ []))
          (λ is_in d2.
            bind-Ends (Moves s) (Before s.cursor) (check_one s.cursor) _ (check_one-Ends s.cursor)
              (λ c1 b1.
                either-Ends (Moves s) is_between _ _
                  (bind-Ends (Moves s) (Read c1) (parse_range f c1) _ (parse_range-Ends f c1)
                    (λ range b2.
                      bind-Ends (Moves s) Anything (make_set SetTypes.range range.0) _
                        (make_set-Ends SetTypes.range range.0) (λ e d3. omega arith)))
                  (either-Ends (Moves s) is_in _ _
                    (bind-Ends (Moves s) (Before c1) (check_string (codes "[") c1) _
                      (check_string-Ends c1 (codes "["))
                      (λ c2 b2.
                        bind-Ends (Moves s) (ReadAtMost c2) (parse_set f fuel c2) _
                          (parse_set-Ends f fuel c2 (omega arith))
                          (λ set b3.
                            bind-Ends (Moves s) (Before set.1) (check_string (codes "]") set.1) _
                              (check_string-Ends set.1 (codes "]"))
                              (λ c4 b4.
                                bind-Ends (Moves s) Anything (make_set SetTypes.list set.0) _
                                  (make_set-Ends SetTypes.list set.0) (λ e d3. omega arith)))))
                    b1))))

parse_not-Ends :
    (f : Floats) (fuel : ℕ) (s : Parsing)
    → left_over s.cursor ≤ fuel
    → Ends (Moves s) (parse_not f fuel s)
unfolding parse_not
parse_not-Ends f fuel s enough =
    bind-Ends (Moves s) Anything (current_is_operator (SqlOperators.not_op ∷ []) s.cursor) _
      (current_is_operator-Ends s.cursor (SqlOperators.not_op ∷ []))
      (λ negated d1.
        either-Ends (Moves s) negated _ _
          (bind-Ends (Moves s) (Before s.cursor) (check_one s.cursor) _ (check_one-Ends s.cursor)
            (λ c b1.
              bind-Ends (Moves s) Anything (current_is_operator between_names c) _
                (current_is_operator-Ends c between_names)
                (λ test d2.
                  either-Ends (Moves s) test _ _
                    (weaken-Ends (Moves s) (Moves (record s { cursor = c }))
                      (parse_test f fuel true (record s { cursor = c }))
                      (parse_test-Ends f fuel true (record s { cursor = c }) (omega arith))
                      (λ s' m. omega arith))
                    b1)))
          (parse_test-Ends f fuel false s enough))

parse_operator-Ends : (s : Parsing) → Ends (Moves s) (parse_operator s)
unfolding parse_operator
parse_operator-Ends s = bind-Ends (Moves s) Anything (peek s.cursor) _ (peek-Ends s.cursor) (λ t d1.
    bind-Ends (Moves s) Anything (settle (get_priority t.op) s.ops s.result) _
      (settle-Ends (get_priority t.op) s.ops s.result)
      (λ r d2.
        bind-Ends (Moves s) (Before s.cursor) (check_one s.cursor) _ (check_one-Ends s.cursor)
          (λ c b. b)))

close-Ends : (s : Parsing) → Ends (Moves s) (close s)
close-Ends s =
    bind-Ends (Moves s) (Before s.cursor) (check_one s.cursor) _ (check_one-Ends s.cursor) (λ c b.
      bind-Ends (Moves s) Anything (unwind s.ops s.result) _ (unwind-Ends s.ops s.result)
        (λ r d. b))

parse_value-Ends : (f : Floats) (s : Parsing) → Ends (Moves s) (parse_value f s)
parse_value-Ends f s =
    bind-Ends (Moves s) (Read s.cursor) (get s.cursor) _ (get-Ends s.cursor) (λ t b.
      bind-Ends (Moves s) Anything (covert_token_to_sql_type f t.0) _ (covert_token-Ends f t.0)
        (λ v d. b))

pub parse_token-Ends :
    (f : Floats) (fuel : ℕ) (s : Parsing)
    → left_over s.cursor ≤ fuel
    → Ends (Moves s) (parse_token f fuel s)
unfolding parse_token
parse_token-Ends f fuel s enough =
    bind-Ends (Moves s) Anything (current_is_char 40 s.cursor) _ (current_is_char-Ends s.cursor 40)
      (λ opens d1.
        bind-Ends (Moves s) Anything (current_is_char 41 s.cursor) _
          (current_is_char-Ends s.cursor 41)
          (λ closes d2.
            bind-Ends (Moves s) Anything
              (current_is_operator (SqlOperators.not_op ∷ between_names) s.cursor) _
              (current_is_operator-Ends s.cursor (SqlOperators.not_op ∷ between_names))
              (λ tests d3.
                bind-Ends (Moves s) Anything (current_is_type TokenType.operators s.cursor) _
                  (current_is_type-Ends s.cursor TokenType.operators)
                  (λ operates d4.
                    either-Ends (Moves s) opens _ _
                      (bind-Ends (Moves s) (Before s.cursor) (check_one s.cursor) _
                        (check_one-Ends s.cursor) (λ c b. b))
                      (either-Ends (Moves s) closes _ _ (close-Ends s) (
                        either-Ends (Moves s) tests _ _ (parse_not-Ends f fuel s enough) (
                          either-Ends (Moves s) operates _ _ (parse_operator-Ends s)
                            (parse_value-Ends f s))))))))

abbrev pub Stays : Parsing → Expression × Cursor → Type 0
Stays s r = left_over r.1 ≤ left_over s.cursor

only-Ends :
    (s : Parsing) (result : List Expression)
    → Ends (Stays s) (elim result [
      | [] ↦ err (errors (codes "Invalid expression"))
      | e ∷ es ↦ elim es [
        | [] ↦ ok (e, s.cursor)
        | d ∷ ds ↦ err (errors (codes "Invalid expression"))
      ]
    ])
only-Ends s [] = tt
only-Ends s (e ∷ []) = omega arith
only-Ends s (e ∷ d ∷ ds) = tt

pub one_result-Ends : (s : Parsing) → Ends (Stays s) (one_result s)
unfolding one_result
one_result-Ends s =
    bind-Ends (Stays s) Anything (drain s.ops s.result) _ (drain-Ends s.ops s.result)
      (λ result d. only-Ends s result)
