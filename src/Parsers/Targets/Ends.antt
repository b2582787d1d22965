-- ===== src/Parsers/Targets/Ends.antt =====
-- The targets that core/controller/parsers/sql_parser reads for a SELECT end.
use csql.Base.{ℕ, zero, suc, ◌+◌, ◌*◌, ◌<◌, ◌≤◌, ◌&&◌, ◌==◌, arith, Str, str_eq, codes}
use mathlib.Core.Path.{subst}
use csql.Base.Result.{err, errors}
use csql.Base.Ends.{Ends, Anything, bind-Ends, weaken-Ends, either-Ends, maybe-Ends, if-Ends}
use csql.Types.{Floats}
use csql.Expression.{Expression}
use csql.Expression.Aggregates.{TargetExpression}
use csql.SqlQuery.{SqlQuery, add_target, add_header, has_header}
use csql.Tokenizer.{TokenType}
use csql.Tokenizer.Keywords.{SqlKeywords, SqlFunctions}
use csql.Tokenizer.Cursor.{
  Cursor, peek, check_one, check_string, consume_string, consume_attribute, consume_function,
  current_is_char, current_is_type, current_is_keyword, get_string_until, function_place,
}
use csql.Tokenizer.Ends.{
  left_over, Before, Read, ReadName, peek-Ends, check_one-Ends, check_string-Ends,
  consume_string-Ends, consume_attribute-Ends, consume_function-Ends, current_is_char-Ends,
  current_is_type-Ends, current_is_keyword-Ends, get_string_until-Ends,
}
use csql.Parsers.ExpressionParser.{parse}
use csql.Parsers.ExpressionParser.Steps.{ReadAtMost}
use csql.Parsers.ExpressionParser.Terminates.{parse-Ends}
use csql.Parsers.Targets.{
  terminate_check, skip_keyword, read_split, make_aggregate, read_aggregate, read_target, read_name,
  read_targets, read_select,
}

pub terminate_check-Ends : (c : Cursor) → Ends Anything (terminate_check c)
unfolding terminate_check
terminate_check-Ends c =
    bind-Ends Anything Anything (current_is_type TokenType.keyword c) _
      (current_is_type-Ends c TokenType.keyword)
      (λ keyword d1.
        bind-Ends Anything Anything (current_is_char 59 c) _ (current_is_char-Ends c 59)
          (λ semicolon d2. tt))

pub skip_keyword-Ends : (k : SqlKeywords) (c : Cursor) → Ends (ReadAtMost c) (skip_keyword k c)
unfolding skip_keyword
skip_keyword-Ends k c =
    bind-Ends (ReadAtMost c) Anything (current_is_keyword k c) _ (current_is_keyword-Ends c k)
      (λ here d.
        either-Ends (ReadAtMost c) here _ _
          (bind-Ends (ReadAtMost c) (Before c) (check_one c) _ (check_one-Ends c)
            (λ c' b. omega arith))
          (omega arith))

read_split-Ends : (c : Cursor) → Ends (ReadAtMost c) (read_split c)
unfolding read_split
read_split-Ends c =
    bind-Ends (ReadAtMost c) Anything (current_is_char 44 c) _ (current_is_char-Ends c 44)
      (λ comma d.
        either-Ends (ReadAtMost c) comma _ _
          (bind-Ends (ReadAtMost c) (Before c) (check_one c) _ (check_one-Ends c) (λ c1 b1.
            weaken-Ends (ReadAtMost c) (Read c1) (consume_string c1) (consume_string-Ends c1)
              (λ r b2. omega arith)))
          (omega arith))

make_aggregate-Ends :
    (ft : SqlFunctions) (e : Expression) (c : Cursor) → Ends (ReadAtMost c) (make_aggregate ft e c)
unfolding make_aggregate
make_aggregate-Ends SqlFunctions.count_ft e c = omega arith
make_aggregate-Ends SqlFunctions.sum_ft e c = omega arith
make_aggregate-Ends SqlFunctions.avg_ft e c = omega arith
make_aggregate-Ends SqlFunctions.max_ft e c = omega arith
make_aggregate-Ends SqlFunctions.min_ft e c = omega arith
make_aggregate-Ends SqlFunctions.group_concat_ft e c =
    bind-Ends (ReadAtMost c) (ReadAtMost c) (read_split c) _ (read_split-Ends c) (λ r b. b)
make_aggregate-Ends _ e c = tt

read_aggregate-Ends :
    (f : Floats) (fuel : ℕ) (ft : SqlFunctions) (c : Cursor)
    → 3 * left_over c + 2 ≤ fuel
    → Ends (ReadAtMost c) (read_aggregate f fuel ft c)
unfolding read_aggregate
read_aggregate-Ends f fuel ft c enough =
    bind-Ends (ReadAtMost c) Anything (peek c) _ (peek-Ends c) (λ t d.
      either-Ends (ReadAtMost c)
        ((function_place ft == function_place SqlFunctions.count_ft)
          && str_eq t.data_of (codes "*"))
        _ _
        (bind-Ends (ReadAtMost c) (Before c) (check_one c) _ (check_one-Ends c)
          (λ c' b. omega arith))
        (bind-Ends (ReadAtMost c) (Read c) (parse f fuel (codes ")") c) _
          (parse-Ends f fuel (codes ")") c enough)
          (λ r b.
            weaken-Ends (ReadAtMost c) (ReadAtMost r.1) (make_aggregate ft r.0 r.1)
              (make_aggregate-Ends ft r.0 r.1) (λ t' b'. omega arith))))

-- A target takes a token at least.
abbrev TargetRead : Cursor → TargetExpression × Str × Cursor → Type 0
TargetRead c r = left_over r.2 < left_over c

read_target-Ends :
    (f : Floats) (fuel : ℕ) (c : Cursor)
    → 3 * left_over c ≤ fuel
    → Ends (TargetRead c) (read_target f fuel c)
unfolding read_target
read_target-Ends f fuel c enough =
    bind-Ends (TargetRead c) (ReadName c) (consume_attribute c) _ (consume_attribute-Ends c)
      (λ named n.
        maybe-Ends (TargetRead c) named _ _
          (bind-Ends (TargetRead c) Anything (get_string_until (codes ")") c) _
            (get_string_until-Ends (codes ")") c)
            (λ name d1.
              bind-Ends (TargetRead c) (Read c) (consume_function c) _ (consume_function-Ends c)
                (λ ft b1.
                  bind-Ends (TargetRead c) (Before ft.1) (check_string (codes "(") ft.1) _
                    (check_string-Ends ft.1 (codes "("))
                    (λ c2 b2.
                      bind-Ends (TargetRead c) (ReadAtMost c2) (read_aggregate f fuel ft.0 c2) _
                        (read_aggregate-Ends f fuel ft.0 c2 (omega arith))
                        (λ t b3.
                          bind-Ends (TargetRead c) (Before t.1) (check_string (codes ")") t.1) _
                            (check_string-Ends t.1 (codes ")")) (λ c4 b4. omega arith))))))
          (λ found e. subst (ReadName c) e n))

read_name-Ends : (name : Str) (c : Cursor) → Ends (ReadAtMost c) (read_name name c)
unfolding read_name
read_name-Ends name c =
    bind-Ends (ReadAtMost c) (ReadAtMost c) (skip_keyword SqlKeywords.as_kw c) _
      (skip_keyword-Ends SqlKeywords.as_kw c)
      (λ r b.
        either-Ends (ReadAtMost c) r.0 _ _
          (weaken-Ends (ReadAtMost c) (Read r.1) (consume_string r.1) (consume_string-Ends r.1)
            (λ s b'. omega arith))
          b)

add_target-Ends :
    (q : SqlQuery) (t : TargetExpression) (name : Str) → Ends Anything (add_target q t name)
unfolding add_target add_header
add_target-Ends q t name =
    if-Ends Anything (has_header name q.headers) (err (errors (codes "Column name is duplicated")))
      _ tt tt

read_targets-Ends :
    (f : Floats) (fuel : ℕ) (q : SqlQuery) (c : Cursor)
    → 3 * left_over c + 1 ≤ fuel
    → Ends (ReadAtMost c) (read_targets f fuel q c)
unfolding read_targets
read_targets-Ends f zero q c enough = absurd (omega arith)
read_targets-Ends f (suc fuel) q c enough =
    bind-Ends (ReadAtMost c) Anything (terminate_check c) _ (terminate_check-Ends c) (λ ended d.
      either-Ends (ReadAtMost c) ended _ _ (omega arith) (
        bind-Ends (ReadAtMost c) (TargetRead c) (read_target f fuel c) _
          (read_target-Ends f fuel c (omega arith))
          (λ t b1.
            bind-Ends (ReadAtMost c) (ReadAtMost t.2) (read_name t.1 t.2) _ (read_name-Ends t.1 t.2)
              (λ name b2.
                bind-Ends (ReadAtMost c) Anything (add_target q t.0 name.0) _
                  (add_target-Ends q t.0 name.0)
                  (λ q' d2.
                    bind-Ends (ReadAtMost c) Anything (terminate_check name.1) _
                      (terminate_check-Ends name.1)
                      (λ last d3. either-Ends (ReadAtMost c) last _ _ (omega arith) (
                        bind-Ends (ReadAtMost c) (Before name.1) (check_string (codes ",") name.1) _
                          (check_string-Ends name.1 (codes ","))
                          (λ c3 b3.
                            weaken-Ends (ReadAtMost c) (ReadAtMost c3) (read_targets f fuel q' c3)
                              (read_targets-Ends f fuel q' c3 (omega arith))
                              (λ r b4. omega arith)))))))))

pub read_select-Ends :
    (f : Floats) (fuel : ℕ) (q : SqlQuery) (c : Cursor)
    → 3 * left_over c + 1 ≤ fuel
    → Ends (ReadAtMost c) (read_select f fuel q c)
unfolding read_select
read_select-Ends f fuel q c enough =
    bind-Ends (ReadAtMost c) Anything (peek c) _ (peek-Ends c) (λ t d.
      either-Ends (ReadAtMost c) (str_eq t.data_of (codes "*")) _ _
        (bind-Ends (ReadAtMost c) (Before c) (check_one c) _ (check_one-Ends c)
          (λ c' b. omega arith))
        (read_targets-Ends f fuel q c enough))
