-- ===== src/Parsers/ExpressionParser/Terminates.antt =====
-- How much fuel the loop and the calls of core/controller/tokenizer/expression_parser need.
use csql.Base.{
  ℕ, zero, suc, ◌+◌, ◌*◌, ◌<◌, ◌≤◌, ◌≡◌, ◌⊎◌, inl, inr, refl, sym, true, false, [], ◌∷◌, arith, Str,
  codes,
}
use mathlib.Core.Path.{subst}
use csql.Base.Result.{Result, ◌>>=◌}
use csql.Base.Ends.{Ends, Anything, bind-Ends, weaken-Ends, either-Ends, maybe-Ends}
use csql.Types.{Floats}
use csql.Expression.{attribute, call}
use csql.Tokenizer.{TokenType}
use csql.Tokenizer.Cursor.{
  Cursor, check_string, consume_attribute, consume_function, current_is_char, current_is_type,
}
use csql.Tokenizer.Ends.{
  left_over, Before, Read, ReadName, check_string-Ends, consume_attribute-Ends,
  consume_function-Ends, current_is_char-Ends, current_is_type-Ends,
}
use csql.Parsers.ExpressionParser.{
  Parsing, parse, parse_loop, parse_parameters, parse_token, is_continued, skip_comma, one_result,
  function_mapping,
}
use csql.Parsers.ExpressionParser.Steps.{
  AtMost, ReadAtMost, Moves, Stays, is_continued-Ends, skip_comma-Ends, parse_token-Ends,
  one_result-Ends,
}

-- The loop stops at once, or takes tokens.
abbrev Loops : Parsing → Parsing → Type 0
Loops s s' = (s' ≡ s) ⊎ Moves s s'

abbrev start : Cursor → Parsing
start c = record { cursor = c; result = []; ops = [] }

-- An expression takes a token at least.
ended-Ends : (c : Cursor) (s : Parsing) → Loops (start c) s → Ends (Read c) (one_result s)
unfolding one_result
ended-Ends c s (inl e) = subst (λ s'. Ends (Read c) (one_result s')) (sym e) tt
ended-Ends c s (inr m) =
    weaken-Ends (Read c) (Stays s) (one_result s) (one_result-Ends s) (λ r b. omega arith)

-- The round at a token that is no name, as the loop has it.
abbrev other_round : Floats → ℕ → Str → Parsing → Result Parsing
other_round f fuel end_token s = current_is_type TokenType.function s.cursor >>= λ calls.
    elim calls [
      | false ↦ parse_token f fuel s >>= λ s'. parse_loop f fuel end_token s'
      | true ↦ do
        (ft, c1) ← consume_function s.cursor
        c2 ← check_string (codes "(") c1
        (ps, c3) ← parse_parameters f fuel c2
        c4 ← check_string (codes ")") c3
        parse_loop f fuel end_token
            (record s { cursor = c4; result = call (function_mapping ft) ps ∷ s.result })
    ]

-- More rounds after one that took tokens.
then-Loops : (s s1 s' : Parsing) → Moves s s1 → Loops s1 s' → Loops s s'
then-Loops s s1 s' m (inl e) = inr (subst (Moves s) (sym e) m)
then-Loops s s1 s' m (inr k) = inr (omega arith)

-- A round, when the loop and the parameters end with the fuel that is left.
module _ (f : Floats) (fuel : ℕ) (end_token : Str)
    (loop : (s : Parsing)
      → 3 * left_over s.cursor + 1 ≤ fuel
      → Ends (Loops s) (parse_loop f fuel end_token s))
    (parameters : (c : Cursor)
      → 3 * left_over c + 3 ≤ fuel
      → Ends (ReadAtMost c) (parse_parameters f fuel c)) where
  on-Ends :
      (s s1 : Parsing)
      → Moves s s1
      → 3 * left_over s1.cursor + 1 ≤ fuel
      → Ends (Loops s) (parse_loop f fuel end_token s1)
  on-Ends s s1 m enough =
      weaken-Ends (Loops s) (Loops s1) (parse_loop f fuel end_token s1) (loop s1 enough)
        (λ s' l. then-Loops s s1 s' m l)

  other-Ends :
      (s : Parsing)
      → 3 * left_over s.cursor ≤ fuel
      → Ends (Loops s) (other_round f fuel end_token s)
  other-Ends s enough =
      bind-Ends (Loops s) Anything (current_is_type TokenType.function s.cursor) _
        (current_is_type-Ends s.cursor TokenType.function)
        (λ calls d.
          either-Ends (Loops s) calls _ _
            (bind-Ends (Loops s) (Read s.cursor) (consume_function s.cursor) _
              (consume_function-Ends s.cursor)
              (λ ft b1.
                bind-Ends (Loops s) (Before ft.1) (check_string (codes "(") ft.1) _
                  (check_string-Ends ft.1 (codes "("))
                  (λ c2 b2.
                    bind-Ends (Loops s) (ReadAtMost c2) (parse_parameters f fuel c2) _
                      (parameters c2 (omega arith))
                      (λ ps b3.
                        bind-Ends (Loops s) (Before ps.1) (check_string (codes ")") ps.1) _
                          (check_string-Ends ps.1 (codes ")"))
                          (λ c4 b4.
                            let s1 : Parsing = record s {
                              cursor = c4;
                              result = call (function_mapping ft.0) ps.0 ∷ s.result;
                            } in
                            on-Ends s s1 (omega arith) (omega arith))))))
            (bind-Ends (Loops s) (Moves s) (parse_token f fuel s) _
              (parse_token-Ends f fuel s (omega arith)) (λ s1 m. on-Ends s s1 m (omega arith))))

  -- A round at a name.
  name-Ends :
      (s : Parsing) (found : Str × Str × Cursor)
      → left_over found.2 < left_over s.cursor
      → 3 * left_over s.cursor ≤ fuel
      → Ends (Loops s) (
          parse_loop f fuel end_token
            (record s { cursor = found.2; result = attribute found.0 found.1 ∷ s.result }))
  name-Ends s found b enough =
      on-Ends s (record s { cursor = found.2; result = attribute found.0 found.1 ∷ s.result }) b
        (omega arith)

mutual
  unfolding parse_loop parse_parameters parse

  loop-Ends :
      (f : Floats) (fuel : ℕ) (end_token : Str) (s : Parsing)
      → 3 * left_over s.cursor + 1 ≤ fuel
      → Ends (Loops s) (parse_loop f fuel end_token s)
  loop-Ends f zero end_token s enough = absurd (omega arith)
  loop-Ends f (suc fuel) end_token s enough =
      bind-Ends (Loops s) Anything (is_continued end_token s.cursor) _
        (is_continued-Ends end_token s.cursor)
        (λ more d1.
          either-Ends (Loops s) more _ _
            (bind-Ends (Loops s) (ReadName s.cursor) (consume_attribute s.cursor) _
              (consume_attribute-Ends s.cursor)
              (λ named n.
                maybe-Ends (Loops s) named _ _
                  (other-Ends f fuel end_token (λ t h. loop-Ends f fuel end_token t h)
                    (λ c h. parameters-Ends f fuel c h) s (omega arith))
                  (λ found e.
                    name-Ends f fuel end_token (λ t h. loop-Ends f fuel end_token t h)
                      (λ c h. parameters-Ends f fuel c h) s found (subst (ReadName s.cursor) e n)
                      (omega arith))))
            (inl refl))

  parameters-Ends :
      (f : Floats) (fuel : ℕ) (c : Cursor)
      → 3 * left_over c + 3 ≤ fuel
      → Ends (ReadAtMost c) (parse_parameters f fuel c)
  parameters-Ends f zero c enough = absurd (omega arith)
  parameters-Ends f (suc fuel) c enough =
      bind-Ends (ReadAtMost c) Anything (current_is_char 41 c) _ (current_is_char-Ends c 41)
        (λ closed d. either-Ends (ReadAtMost c) closed _ _ (omega arith) (
          bind-Ends (ReadAtMost c) (Read c) (parse f fuel (codes ")") c) _
            (expression-Ends f fuel (codes ")") c (omega arith))
            (λ r b1.
              bind-Ends (ReadAtMost c) (AtMost r.1) (skip_comma r.1) _ (skip_comma-Ends r.1)
                (λ c2 b2.
                  bind-Ends (ReadAtMost c) (ReadAtMost c2) (parse_parameters f fuel c2) _
                    (parameters-Ends f fuel c2 (omega arith)) (λ ps b3. omega arith)))))

  expression-Ends :
      (f : Floats) (fuel : ℕ) (end_token : Str) (c : Cursor)
      → 3 * left_over c + 2 ≤ fuel
      → Ends (Read c) (parse f fuel end_token c)
  expression-Ends f zero end_token c enough = absurd (omega arith)
  expression-Ends f (suc fuel) end_token c enough =
      bind-Ends (Read c) (Loops (start c)) (parse_loop f fuel end_token (start c)) _
        (loop-Ends f fuel end_token (start c) (omega arith)) (λ s l. ended-Ends c s l)

-- With three units of fuel for each token left, and two more, parse does not run out of it: it comes
-- to an expression, having taken a token at least, or to a failure, which is a thrown error, an
-- exception of the library, a failed assertion, or undefined behaviour, as of an operator without
-- operands.
pub parse-Ends :
    (f : Floats) (fuel : ℕ) (end_token : Str) (c : Cursor)
    → 3 * left_over c + 2 ≤ fuel
    → Ends (Read c) (parse f fuel end_token c)
parse-Ends f fuel end_token c enough = expression-Ends f fuel end_token c enough
