-- ===== src/Parsers/Selecting/Columns.antt =====
-- The columns of the queries that core/controller/parsers/sql_parser makes of SELECT.
use csql.Base.{ℕ, zero, suc, ◌≡◌, refl, sym, Option, some, [], Str, codes, if◌then◌else◌, str_eq}
use mathlib.Core.Path.{subst}
use csql.Base.Result.{ok, Post, Post-ok, after-Post, bind-Post, either-Post, maybe-Post}
use csql.Types.{Floats}
use csql.Joins.{JoinTypes}
use csql.SqlQuery.{
  SqlQuery, new_query, set_entity_name, set_where_expression, add_group_condition,
  add_order_condition,
}
use csql.SqlQuery.Headers.{IsAligned, IsDistinct}
use csql.Tokenizer.Keywords.{SqlKeywords}
use csql.Tokenizer.Cursor.{
  Cursor, peek, check_one, check_keyword, check_string, consume_string, consume_int,
  consume_attribute, current_is_char, end_by,
}
use csql.Parsers.ExpressionParser.{parse}
use csql.Parsers.Statements.{Statement, select}
use csql.Parsers.Targets.{terminate_check, skip_keyword, read_select}
use csql.Parsers.Targets.Headers.{HasColumns, read_targets-IsAligned}
use csql.Parsers.Selecting.{
  read_condition, current_join, make_join_expressions, make_where_expression, name_or_none,
  read_groups, read_group_by, read_order_type, read_orders, read_order_by, read_offset, read_limit,
  select_statement,
}

-- An update of the other fields.
same_columns :
    (q r : SqlQuery) → r.headers ≡ q.headers → r.targets ≡ q.targets → IsAligned q → IsAligned r
same_columns q r heads targets is = record {
  distinct = subst IsDistinct (sym heads) is.distinct;
  aligned = rw (heads, targets) is.aligned;
}

module _ (f : Floats) where
  read_select-IsAligned :
      (fuel : ℕ) (q : SqlQuery) (c : Cursor)
      → IsAligned q
      → Post HasColumns (read_select f fuel q c)
  unfolding read_select
  read_select-IsAligned fuel q c is = after-Post HasColumns (peek c) _ (λ t.
      either-Post HasColumns (str_eq t.data_of (codes "*")) _ _
        (after-Post HasColumns (check_one c) _ (λ c'. is)) (read_targets-IsAligned f fuel q c is))

  read_condition-IsAligned :
      (fuel : ℕ) (kind : JoinTypes) (name : Str) (q : SqlQuery) (c : Cursor)
      → IsAligned q
      → Post HasColumns (read_condition f fuel kind name q c)
  unfolding read_condition
  read_condition-IsAligned fuel JoinTypes.cross name q c is = same_columns q _ refl refl is
  read_condition-IsAligned fuel kind name q c is =
      after-Post HasColumns (check_keyword SqlKeywords.on_kw c) _
        (λ c1. after-Post HasColumns (parse f fuel [] c1) _ (λ r. same_columns q _ refl refl is))

  make_join_expressions-IsAligned :
      (fuel : ℕ) (q : SqlQuery) (c : Cursor)
      → IsAligned q
      → Post HasColumns (make_join_expressions f fuel q c)
  unfolding make_join_expressions
  make_join_expressions-IsAligned zero q c is = tt
  make_join_expressions-IsAligned (suc fuel) q c is =
      after-Post HasColumns (current_join c) _ (λ join. maybe-Post HasColumns join _ _ is (λ kind.
        after-Post HasColumns (check_one c) _ (λ c1.
          after-Post HasColumns (check_keyword SqlKeywords.join_kw c1) _ (λ c2.
            after-Post HasColumns (consume_string c2) _ (λ named.
              bind-Post HasColumns HasColumns (read_condition f fuel kind named.0 q named.1) _
                (read_condition-IsAligned fuel kind named.0 q named.1 is)
                (λ r is'. make_join_expressions-IsAligned fuel r.0 r.1 is'))))))

  read_groups-IsAligned :
      (fuel : ℕ) (q : SqlQuery) (c : Cursor) → IsAligned q → Post HasColumns (read_groups fuel q c)
  unfolding read_groups add_group_condition
  read_groups-IsAligned zero q c is = tt
  read_groups-IsAligned (suc fuel) q c is = after-Post HasColumns (terminate_check c) _ (λ ended.
      either-Post HasColumns ended _ _ is (
        after-Post HasColumns (consume_attribute c) _ (λ named.
          let found = name_or_none c named in
          let is' : IsAligned (add_group_condition q found.0 found.1) =
            same_columns q _ refl refl is in
          after-Post HasColumns (terminate_check found.2) _ (λ last.
            either-Post HasColumns last _ _ is' (
              after-Post HasColumns (check_string (codes ",") found.2) _ (λ c'.
                read_groups-IsAligned fuel (add_group_condition q found.0 found.1) c' is'))))))

  read_group_by-IsAligned :
      (fuel : ℕ) (q : SqlQuery) (c : Cursor)
      → IsAligned q
      → Post HasColumns (read_group_by fuel q c)
  unfolding read_group_by
  read_group_by-IsAligned fuel q c is =
      after-Post HasColumns (skip_keyword SqlKeywords.group_kw c) _ (λ r.
        either-Post HasColumns r.0 _ _
          (after-Post HasColumns (check_keyword SqlKeywords.by_kw r.1) _
            (λ c'. read_groups-IsAligned fuel q c' is))
          is)

  read_orders-IsAligned :
      (fuel : ℕ) (q : SqlQuery) (c : Cursor) → IsAligned q → Post HasColumns (read_orders fuel q c)
  unfolding read_orders add_order_condition
  read_orders-IsAligned zero q c is = tt
  read_orders-IsAligned (suc fuel) q c is = after-Post HasColumns (consume_attribute c) _ (λ named.
      maybe-Post HasColumns named _ _ is (λ found.
        after-Post HasColumns (read_order_type found.2) _ (λ kind.
          after-Post HasColumns (current_is_char 44 kind.1) _ (λ comma.
            after-Post HasColumns (if comma then check_string (codes ",") kind.1 else ok kind.1) _
              (λ c2.
                read_orders-IsAligned fuel (add_order_condition q found.0 found.1 kind.0) c2
                  (same_columns q _ refl refl is))))))

  read_order_by-IsAligned :
      (fuel : ℕ) (q : SqlQuery) (c : Cursor)
      → IsAligned q
      → Post HasColumns (read_order_by fuel q c)
  unfolding read_order_by
  read_order_by-IsAligned fuel q c is =
      after-Post HasColumns (skip_keyword SqlKeywords.order_kw c) _ (λ r.
        either-Post HasColumns r.0 _ _
          (after-Post HasColumns (check_keyword SqlKeywords.by_kw r.1) _
            (λ c'. read_orders-IsAligned fuel q c' is))
          is)

  read_limit-IsAligned :
      (q : SqlQuery) (c : Cursor) → IsAligned q → Post HasColumns (read_limit q c)
  unfolding read_limit
  read_limit-IsAligned q c is = after-Post HasColumns (skip_keyword SqlKeywords.limit_kw c) _ (λ r.
      either-Post HasColumns r.0 _ _
        (after-Post HasColumns (consume_int r.1) _ (λ limit.
          after-Post HasColumns (read_offset limit.1) _ (λ offset. same_columns q _ refl refl is)))
        is)

  abbrev OfSelect : Option Statement → Type 0
  OfSelect (some (select q)) = IsAligned q
  OfSelect _ = Unit {0}

  query-IsAligned : (fuel : ℕ) (c : Cursor) → Post OfSelect (select_statement f fuel c)
  unfolding select_statement
  query-IsAligned fuel c = after-Post OfSelect (check_keyword SqlKeywords.select_kw c) _ (λ c1.
      bind-Post OfSelect HasColumns (read_select f fuel new_query c1) _
        (read_select-IsAligned fuel new_query c1 (record { distinct = tt; aligned = refl }))
        (λ r1 is1. after-Post OfSelect (check_keyword SqlKeywords.from_kw r1.1) _ (λ c3.
          after-Post OfSelect (consume_string c3) _ (λ named.
            bind-Post OfSelect HasColumns
              (make_join_expressions f fuel (set_entity_name r1.0 named.0) named.1) _
              (make_join_expressions-IsAligned fuel _ named.1 (same_columns r1.0 _ refl refl is1))
              (λ r2 is2. after-Post OfSelect (make_where_expression f fuel r2.1) _ (λ w.
                bind-Post OfSelect HasColumns
                  (read_group_by fuel (set_where_expression r2.0 w.0) w.1) _
                  (read_group_by-IsAligned fuel _ w.1 (same_columns r2.0 _ refl refl is2))
                  (λ r3 is3.
                    bind-Post OfSelect HasColumns (read_order_by fuel r3.0 r3.1) _
                      (read_order_by-IsAligned fuel r3.0 r3.1 is3)
                      (λ r4 is4.
                        bind-Post OfSelect HasColumns (read_limit r4.0 r4.1) _
                          (read_limit-IsAligned r4.0 r4.1 is4)
                          (λ r5 is5.
                            after-Post OfSelect (end_by (codes ";") r5.1) _ (λ done. is5))))))))))

  -- The query of every SELECT that parses has columns of different names, and a target for each.
  pub select_statement-IsAligned :
      (fuel : ℕ) (c : Cursor) (q : SqlQuery)
      → select_statement f fuel c ≡ ok (some (select q))
      → IsAligned q
  select_statement-IsAligned fuel c q h =
      Post-ok OfSelect (select_statement f fuel c) (some (select q)) (query-IsAligned fuel c) h
