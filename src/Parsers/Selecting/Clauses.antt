-- ===== src/Parsers/Selecting/Clauses.antt =====
-- The clauses of the statements of core/controller/parsers/sql_parser end: joins, conditions, groups,
-- order and limit.
use csql.Base.{
  ℕ, zero, suc, ◌+◌, ◌*◌, ◌<◌, ◌≤◌, Option, none, some, [], arith, if◌then◌else◌, Str, codes,
}
use mathlib.Core.Path.{subst}
use csql.Base.Result.{ok}
use csql.Base.Ends.{Ends, Anything, bind-Ends, weaken-Ends, either-Ends, maybe-Ends, if-Ends}
use csql.Types.{Floats}
use csql.Joins.{JoinTypes}
use csql.SqlQuery.{SqlQuery, add_group_condition, add_order_condition}
use csql.Tokenizer.{TokenType}
use csql.Tokenizer.Keywords.{SqlKeywords}
use csql.Tokenizer.Cursor.{
  Cursor, peek, check_one, check_keyword, check_string, consume_string, consume_attribute,
  consume_int, current_is_char, current_is_type,
}
use csql.Tokenizer.Ends.{
  left_over, Before, Read, ReadName, peek-Ends, check_one-Ends, check_keyword-Ends,
  check_string-Ends, consume_string-Ends, consume_attribute-Ends, consume_int-Ends,
  current_is_char-Ends, current_is_type-Ends,
}
use csql.Parsers.ExpressionParser.{parse}
use csql.Parsers.ExpressionParser.Steps.{AtMost, ReadAtMost}
use csql.Parsers.ExpressionParser.Terminates.{parse-Ends}
use csql.Parsers.Targets.{terminate_check, skip_keyword}
use csql.Parsers.Targets.Ends.{terminate_check-Ends, skip_keyword-Ends}
use csql.Parsers.Selecting.{
  read_condition, current_join, make_join_expressions, make_where_expression, name_or_none,
  read_groups, read_group_by, read_order_type, read_orders, read_order_by, read_offset, read_limit,
}

current_join-Ends : (c : Cursor) → Ends Anything (current_join c)
unfolding current_join
current_join-Ends c = bind-Ends Anything Anything (peek c) _ (peek-Ends c) (λ t d1.
    bind-Ends Anything Anything (current_is_type TokenType.keyword c) _
      (current_is_type-Ends c TokenType.keyword) (λ keyword d2. tt))

read_order_type-Ends : (c : Cursor) → Ends (ReadAtMost c) (read_order_type c)
unfolding read_order_type
read_order_type-Ends c =
    bind-Ends (ReadAtMost c) (ReadAtMost c) (skip_keyword SqlKeywords.desc_kw c) _
      (skip_keyword-Ends SqlKeywords.desc_kw c)
      (λ r b. either-Ends (ReadAtMost c) r.0 _ _ b (
        bind-Ends (ReadAtMost c) (ReadAtMost r.1) (skip_keyword SqlKeywords.asc_kw r.1) _
          (skip_keyword-Ends SqlKeywords.asc_kw r.1) (λ s b'. omega arith)))

read_offset-Ends : (c : Cursor) → Ends (ReadAtMost c) (read_offset c)
unfolding read_offset
read_offset-Ends c =
    bind-Ends (ReadAtMost c) (ReadAtMost c) (skip_keyword SqlKeywords.offset_kw c) _
      (skip_keyword-Ends SqlKeywords.offset_kw c)
      (λ r b.
        either-Ends (ReadAtMost c) r.0 _ _
          (weaken-Ends (ReadAtMost c) (Read r.1) (consume_int r.1) (consume_int-Ends r.1)
            (λ s b'. omega arith))
          b)

pub read_limit-Ends : (q : SqlQuery) (c : Cursor) → Ends (ReadAtMost c) (read_limit q c)
unfolding read_limit
read_limit-Ends q c =
    bind-Ends (ReadAtMost c) (ReadAtMost c) (skip_keyword SqlKeywords.limit_kw c) _
      (skip_keyword-Ends SqlKeywords.limit_kw c)
      (λ r b.
        either-Ends (ReadAtMost c) r.0 _ _
          (bind-Ends (ReadAtMost c) (Read r.1) (consume_int r.1) _ (consume_int-Ends r.1)
            (λ limit b1.
              bind-Ends (ReadAtMost c) (ReadAtMost limit.1) (read_offset limit.1) _
                (read_offset-Ends limit.1) (λ offset b2. omega arith)))
          b)

-- A name that may be missing.
named_AtMost :
    (c : Cursor) (named : Option (Str × Str × Cursor))
    → ReadName c named
    → AtMost c (name_or_none c named).2
named_AtMost c none n = omega arith
named_AtMost c (some found) n = omega arith

module _ (f : Floats) where
  read_condition-Ends :
      (fuel : ℕ) (kind : JoinTypes) (name : Str) (q : SqlQuery) (c : Cursor)
      → 3 * left_over c ≤ fuel
      → Ends (ReadAtMost c) (read_condition f fuel kind name q c)
  unfolding read_condition
  read_condition-Ends fuel JoinTypes.cross name q c enough = omega arith
  read_condition-Ends fuel kind name q c enough =
      bind-Ends (ReadAtMost c) (Before c) (check_keyword SqlKeywords.on_kw c) _
        (check_keyword-Ends c SqlKeywords.on_kw)
        (λ c1 b1.
          bind-Ends (ReadAtMost c) (Read c1) (parse f fuel [] c1) _
            (parse-Ends f fuel [] c1 (omega arith)) (λ r b2. omega arith))

  pub make_join_expressions-Ends :
      (fuel : ℕ) (q : SqlQuery) (c : Cursor)
      → 3 * left_over c + 1 ≤ fuel
      → Ends (ReadAtMost c) (make_join_expressions f fuel q c)
  unfolding make_join_expressions
  make_join_expressions-Ends zero q c enough = absurd (omega arith)
  make_join_expressions-Ends (suc fuel) q c enough =
      bind-Ends (ReadAtMost c) Anything (current_join c) _ (current_join-Ends c) (λ join d.
        maybe-Ends (ReadAtMost c) join _ _ (omega arith) (λ kind e.
          bind-Ends (ReadAtMost c) (Before c) (check_one c) _ (check_one-Ends c) (λ c1 b1.
            bind-Ends (ReadAtMost c) (Before c1) (check_keyword SqlKeywords.join_kw c1) _
              (check_keyword-Ends c1 SqlKeywords.join_kw)
              (λ c2 b2.
                bind-Ends (ReadAtMost c) (Read c2) (consume_string c2) _ (consume_string-Ends c2)
                  (λ name b3.
                    bind-Ends (ReadAtMost c) (ReadAtMost name.1)
                      (read_condition f fuel kind name.0 q name.1) _
                      (read_condition-Ends fuel kind name.0 q name.1 (omega arith))
                      (λ r b4.
                        weaken-Ends (ReadAtMost c) (ReadAtMost r.1)
                          (make_join_expressions f fuel r.0 r.1)
                          (make_join_expressions-Ends fuel r.0 r.1 (omega arith))
                          (λ s b5. omega arith)))))))

  pub make_where_expression-Ends :
      (fuel : ℕ) (c : Cursor)
      → 3 * left_over c + 2 ≤ fuel
      → Ends (ReadAtMost c) (make_where_expression f fuel c)
  unfolding make_where_expression
  make_where_expression-Ends fuel c enough =
      bind-Ends (ReadAtMost c) (ReadAtMost c) (skip_keyword SqlKeywords.where_kw c) _
        (skip_keyword-Ends SqlKeywords.where_kw c)
        (λ r b.
          either-Ends (ReadAtMost c) r.0 _ _
            (weaken-Ends (ReadAtMost c) (Read r.1) (parse f fuel [] r.1)
              (parse-Ends f fuel [] r.1 (omega arith)) (λ s b'. omega arith))
            b)

  read_groups-Ends :
      (fuel : ℕ) (q : SqlQuery) (c : Cursor)
      → left_over c < fuel
      → Ends (ReadAtMost c) (read_groups fuel q c)
  unfolding read_groups
  read_groups-Ends zero q c enough = absurd (omega arith)
  read_groups-Ends (suc fuel) q c enough =
      bind-Ends (ReadAtMost c) Anything (terminate_check c) _ (terminate_check-Ends c) (λ ended d1.
        either-Ends (ReadAtMost c) ended _ _ (omega arith) (
          bind-Ends (ReadAtMost c) (ReadName c) (consume_attribute c) _ (consume_attribute-Ends c)
            (λ named n.
              let found = name_or_none c named in
              let b : left_over found.2 ≤ left_over c = named_AtMost c named n in
              bind-Ends (ReadAtMost c) Anything (terminate_check found.2) _
                (terminate_check-Ends found.2)
                (λ last d2. either-Ends (ReadAtMost c) last _ _ b (
                  bind-Ends (ReadAtMost c) (Before found.2) (check_string (codes ",") found.2) _
                    (check_string-Ends found.2 (codes ","))
                    (λ c' b'.
                      weaken-Ends (ReadAtMost c) (ReadAtMost c')
                        (read_groups fuel (add_group_condition q found.0 found.1) c')
                        (read_groups-Ends fuel (add_group_condition q found.0 found.1) c'
                          (omega arith))
                        (λ r b2. omega arith)))))))

  pub read_group_by-Ends :
      (fuel : ℕ) (q : SqlQuery) (c : Cursor)
      → left_over c < fuel
      → Ends (ReadAtMost c) (read_group_by fuel q c)
  unfolding read_group_by
  read_group_by-Ends fuel q c enough =
      bind-Ends (ReadAtMost c) (ReadAtMost c) (skip_keyword SqlKeywords.group_kw c) _
        (skip_keyword-Ends SqlKeywords.group_kw c)
        (λ r b.
          either-Ends (ReadAtMost c) r.0 _ _
            (bind-Ends (ReadAtMost c) (Before r.1) (check_keyword SqlKeywords.by_kw r.1) _
              (check_keyword-Ends r.1 SqlKeywords.by_kw)
              (λ c' b'.
                weaken-Ends (ReadAtMost c) (ReadAtMost c') (read_groups fuel q c')
                  (read_groups-Ends fuel q c' (omega arith)) (λ s b2. omega arith)))
            b)

  read_orders-Ends :
      (fuel : ℕ) (q : SqlQuery) (c : Cursor)
      → left_over c < fuel
      → Ends (ReadAtMost c) (read_orders fuel q c)
  unfolding read_orders
  read_orders-Ends zero q c enough = absurd (omega arith)
  read_orders-Ends (suc fuel) q c enough =
      bind-Ends (ReadAtMost c) (ReadName c) (consume_attribute c) _ (consume_attribute-Ends c)
        (λ named n. maybe-Ends (ReadAtMost c) named _ _ (omega arith) (λ found e.
          let b : left_over found.2 < left_over c = subst (ReadName c) e n in
          bind-Ends (ReadAtMost c) (ReadAtMost found.2) (read_order_type found.2) _
            (read_order_type-Ends found.2)
            (λ kind b1.
              bind-Ends (ReadAtMost c) Anything (current_is_char 44 kind.1) _
                (current_is_char-Ends kind.1 44)
                (λ comma d.
                  bind-Ends (ReadAtMost c) (AtMost kind.1)
                    (if comma then check_string (codes ",") kind.1 else ok kind.1) _
                    (if-Ends (AtMost kind.1) comma _ (ok kind.1)
                      (weaken-Ends (AtMost kind.1) (Before kind.1) (check_string (codes ",") kind.1)
                        (check_string-Ends kind.1 (codes ",")) (λ c2 b2. omega arith))
                      (omega arith))
                    (λ c2 b2.
                      weaken-Ends (ReadAtMost c) (ReadAtMost c2)
                        (read_orders fuel (add_order_condition q found.0 found.1 kind.0) c2)
                        (read_orders-Ends fuel (add_order_condition q found.0 found.1 kind.0) c2
                          (omega arith))
                        (λ r b3. omega arith))))))

  pub read_order_by-Ends :
      (fuel : ℕ) (q : SqlQuery) (c : Cursor)
      → left_over c < fuel
      → Ends (ReadAtMost c) (read_order_by fuel q c)
  unfolding read_order_by
  read_order_by-Ends fuel q c enough =
      bind-Ends (ReadAtMost c) (ReadAtMost c) (skip_keyword SqlKeywords.order_kw c) _
        (skip_keyword-Ends SqlKeywords.order_kw c)
        (λ r b.
          either-Ends (ReadAtMost c) r.0 _ _
            (bind-Ends (ReadAtMost c) (Before r.1) (check_keyword SqlKeywords.by_kw r.1) _
              (check_keyword-Ends r.1 SqlKeywords.by_kw)
              (λ c' b'.
                weaken-Ends (ReadAtMost c) (ReadAtMost c') (read_orders fuel q c')
                  (read_orders-Ends fuel q c' (omega arith)) (λ s b2. omega arith)))
            b)
