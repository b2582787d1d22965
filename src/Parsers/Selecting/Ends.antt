-- ===== src/Parsers/Selecting/Ends.antt =====
-- The statements of core/controller/parsers/sql_parser that select, delete and update end.
use csql.Base.{ℕ, zero, suc, ◌+◌, ◌*◌, ◌≤◌, ◌||◌, [], arith, codes}
use csql.Base.Ends.{Ends, Anything, bind-Ends, weaken-Ends, either-Ends}
use csql.Types.{Floats}
use csql.SqlQuery.{
  UpdateQuery, new_query, new_update, set_entity_name, set_where_expression, add_update,
}
use csql.Tokenizer.Keywords.{SqlKeywords}
use csql.Tokenizer.Cursor.{
  Cursor, check_string, consume_string, current_is_char, current_is_keyword,
}
use csql.Tokenizer.Ends.{
  left_over, Before, Read, check_string-Ends, consume_string-Ends, current_is_char-Ends,
  current_is_keyword-Ends,
}
use csql.Parsers.ExpressionParser.{parse}
use csql.Parsers.ExpressionParser.Steps.{ReadAtMost}
use csql.Parsers.ExpressionParser.Terminates.{parse-Ends}
use csql.Parsers.SqlParser.Ends.{keyword-Ends, string-Ends, end-Ends}
use csql.Parsers.Targets.{read_select}
use csql.Parsers.Targets.Ends.{read_select-Ends}
use csql.Parsers.Selecting.{
  make_join_expressions, make_where_expression, read_group_by, read_order_by, read_limit,
  select_statement, delete_tuples_statement, read_updates, update_statement,
}
use csql.Parsers.Selecting.Clauses.{
  read_limit-Ends, make_join_expressions-Ends, make_where_expression-Ends, read_group_by-Ends,
  read_order_by-Ends,
}

module _ (f : Floats) where
  pub select_statement-Ends :
      (fuel : ℕ) (c : Cursor)
      → 3 * left_over c + 2 ≤ fuel
      → Ends Anything (select_statement f fuel c)
  unfolding select_statement
  select_statement-Ends fuel c enough = keyword-Ends SqlKeywords.select_kw c _ (λ c1 b1.
      bind-Ends Anything (ReadAtMost c1) (read_select f fuel new_query c1) _
        (read_select-Ends f fuel new_query c1 (omega arith))
        (λ r1 b2. keyword-Ends SqlKeywords.from_kw r1.1 _ (λ c3 b3. string-Ends c3 _ (λ entity b4.
          bind-Ends Anything (ReadAtMost entity.1)
            (make_join_expressions f fuel (set_entity_name r1.0 entity.0) entity.1) _
            (make_join_expressions-Ends f fuel _ entity.1 (omega arith))
            (λ r2 b5.
              bind-Ends Anything (ReadAtMost r2.1) (make_where_expression f fuel r2.1) _
                (make_where_expression-Ends f fuel r2.1 (omega arith))
                (λ w b6.
                  bind-Ends Anything (ReadAtMost w.1)
                    (read_group_by fuel (set_where_expression r2.0 w.0) w.1) _
                    (read_group_by-Ends f fuel _ w.1 (omega arith))
                    (λ r3 b7.
                      bind-Ends Anything (ReadAtMost r3.1) (read_order_by fuel r3.0 r3.1) _
                        (read_order_by-Ends f fuel r3.0 r3.1 (omega arith))
                        (λ r4 b8.
                          bind-Ends Anything (ReadAtMost r4.1) (read_limit r4.0 r4.1) _
                            (read_limit-Ends r4.0 r4.1) (λ r5 b9. end-Ends r5.1 _)))))))))

  pub delete_tuples_statement-Ends :
      (fuel : ℕ) (c : Cursor)
      → 3 * left_over c + 2 ≤ fuel
      → Ends Anything (delete_tuples_statement f fuel c)
  unfolding delete_tuples_statement
  delete_tuples_statement-Ends fuel c enough = keyword-Ends SqlKeywords.delete_kw c _ (λ c1 b1.
      keyword-Ends SqlKeywords.from_kw c1 _ (λ c2 b2. string-Ends c2 _ (λ entity b3.
        bind-Ends Anything (ReadAtMost entity.1) (make_where_expression f fuel entity.1) _
          (make_where_expression-Ends f fuel entity.1 (omega arith)) (λ w b4. end-Ends w.1 _))))

  read_updates-Ends :
      (fuel : ℕ) (q : UpdateQuery) (c : Cursor)
      → 3 * left_over c + 1 ≤ fuel
      → Ends (ReadAtMost c) (read_updates f fuel q c)
  unfolding read_updates
  read_updates-Ends zero q c enough = absurd (omega arith)
  read_updates-Ends (suc fuel) q c enough =
      bind-Ends (ReadAtMost c) (Read c) (consume_string c) _ (consume_string-Ends c) (λ name b1.
        bind-Ends (ReadAtMost c) (Before name.1) (check_string (codes "=") name.1) _
          (check_string-Ends name.1 (codes "="))
          (λ c2 b2.
            bind-Ends (ReadAtMost c) (Read c2) (parse f fuel [] c2) _
              (parse-Ends f fuel [] c2 (omega arith))
              (λ r b3.
                bind-Ends (ReadAtMost c) Anything (current_is_char 59 r.1) _
                  (current_is_char-Ends r.1 59)
                  (λ semicolon d1.
                    bind-Ends (ReadAtMost c) Anything (current_is_keyword SqlKeywords.where_kw r.1)
                      _ (current_is_keyword-Ends r.1 SqlKeywords.where_kw)
                      (λ condition d2.
                        either-Ends (ReadAtMost c) (semicolon || condition) _ _ (omega arith) (
                          bind-Ends (ReadAtMost c) (Before r.1) (check_string (codes ",") r.1) _
                            (check_string-Ends r.1 (codes ","))
                            (λ c4 b4.
                              weaken-Ends (ReadAtMost c) (ReadAtMost c4)
                                (read_updates f fuel (add_update q name.0 r.0) c4)
                                (read_updates-Ends fuel (add_update q name.0 r.0) c4 (omega arith))
                                (λ s b5. omega arith))))))))

  pub update_statement-Ends :
      (fuel : ℕ) (c : Cursor)
      → 3 * left_over c + 2 ≤ fuel
      → Ends Anything (update_statement f fuel c)
  unfolding update_statement
  update_statement-Ends fuel c enough = keyword-Ends SqlKeywords.update_kw c _ (λ c1 b1.
      string-Ends c1 _ (λ entity b2. keyword-Ends SqlKeywords.set_kw entity.1 _ (λ c3 b3.
        bind-Ends Anything (ReadAtMost c3)
          (read_updates f fuel (record new_update { entity_name = entity.0 }) c3) _
          (read_updates-Ends fuel _ c3 (omega arith))
          (λ r b4.
            bind-Ends Anything (ReadAtMost r.1) (make_where_expression f fuel r.1) _
              (make_where_expression-Ends f fuel r.1 (omega arith)) (λ w b5. end-Ends w.1 _)))))
