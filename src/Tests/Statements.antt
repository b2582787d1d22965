-- ===== src/Tests/Statements.antt =====
-- Statements parsed from tokens.
use csql.Base.{◌≡◌, ◌≢◌, refl, true, false, some, none, [], ◌∷◌, List, arith, Str, codes}
use csql.Base.Text.{str_eq}
use csql.Base.Result.{ok, err, no_fuel}
use csql.Base.Ends.{Ends}
use csql.Expression.Aggregates.{normal}
use csql.SqlQuery.{SqlQuery, new_query, add_target, add_header, get_target, has_header}
use csql.SqlQuery.Headers.{IsAligned, add_target-IsAligned}
use csql.Tokenizer.{TokenType, Token}
use csql.Tokenizer.Keywords.{SqlKeywords, SqlOperators}
use csql.Tokenizer.Cursor.{
  peek, check_one, check_keyword, check_string, consume_string, consume_attribute, current_is_type,
  current_is_char, current_is_keyword, end_by,
}
use csql.Tokenizer.Ends.{Read}
use csql.Parsers.ExpressionParser.{parse}
use csql.Parsers.ExpressionParser.Rounds.{token, name_token}
use csql.Parsers.ExpressionParser.Terminates.{parse-Ends}
use csql.Parsers.SqlParser.Lists.{keyword_token, mark}
use csql.Parsers.Statements.{select}
use csql.Parsers.Targets.{
  terminate_check, skip_keyword, read_target, read_name, read_targets, read_select,
}
use csql.Parsers.Selecting.{
  current_join, join_type_of, make_join_expressions, make_where_expression, read_group_by,
  read_order_by, read_limit, select_statement,
}
use csql.Parsers.Selecting.Columns.{select_statement-IsAligned}
use csql.Parsers.Dispatch.{parser}
use csql.Parsers.Dispatch.Commands.{inserting, made, print, parser-print}
use csql.Parsers.Dispatch.Rejects.{parser-none}
use csql.Parsers.Dispatch.Terminates.{parser-ends}
use csql.Tests.Numbers.{plain_floats}

abbrev spell : SqlKeywords → Str
spell k = codes "word"

abbrev number_token : Str → Token
number_token d = token TokenType.number SqlOperators.unknown_op d

parser-print_example :
    parser plain_floats 3 (record {
      tokens = print spell (
          inserting
            (name_token (codes "t"))
            (name_token (codes "a") ∷ [])
            (number_token (codes "1") ∷ number_token (codes "2") ∷ []));
      at = 0;
    })
    ≡ ok (
        some (
          made (
            inserting
              (name_token (codes "t"))
              (name_token (codes "a") ∷ [])
              (number_token (codes "1") ∷ number_token (codes "2") ∷ []))))
parser-print_example =
    parser-print spell plain_floats 3
      (inserting (name_token (codes "t")) (name_token (codes "a") ∷ [])
        (number_token (codes "1") ∷ number_token (codes "2") ∷ []))
      ((omega arith, (refl, tt)), (omega arith, (refl, (refl, tt))))

parser-none_example :
    parser plain_floats 9
      (record { tokens = name_token (codes "a") ∷ mark (codes ";") ∷ []; at = 1 })
    ≡ ok none
parser-none_example =
    parser-none plain_floats 9 (name_token (codes "a") ∷ mark (codes ";") ∷ []) 1 refl

abbrev query : List Token
query =
    keyword_token SqlKeywords.select_kw (codes "select")
    ∷ name_token (codes "a")
    ∷ keyword_token SqlKeywords.from_kw (codes "from")
    ∷ name_token (codes "t")
    ∷ mark (codes ";")
    ∷ []

parser-ends_example : parser plain_floats 17 (record { tokens = query; at = 0 }) ≢ err no_fuel
parser-ends_example = parser-ends plain_floats 17 query (omega arith) 0

parse-Ends_example :
    Ends
      (Read (record { tokens = query; at = 3 }))
      (parse plain_floats 8 [] (record { tokens = query; at = 3 }))
parse-Ends_example = parse-Ends plain_floats 8 [] (record { tokens = query; at = 3 }) (omega arith)

abbrev one_column : SqlQuery
one_column = record new_query {
  is_selected_all = false;
  is_aggregated = true;
  headers = codes "a" ∷ [];
  targets = normal [] (codes "a") ∷ [];
}

add_target-IsAligned_example :
    IsAligned one_column
    × (get_target one_column (codes "a") ≡ ok (normal [] (codes "a")))
    × ((other : Str)
        → has_header other new_query.headers ≡ true
        → get_target one_column other ≡ get_target new_query other)
unfolding add_target add_header has_header
add_target-IsAligned_example =
    add_target-IsAligned new_query one_column (normal [] (codes "a")) (codes "a")
      (record { distinct = tt; aligned = refl }) refl

parses :
    select_statement plain_floats 17 (record { tokens = query; at = 0 })
    ≡ ok (some (select (record one_column { entity_name = codes "t" })))
unfolding select_statement read_select read_targets terminate_check read_target read_name
    skip_keyword add_target add_header has_header make_join_expressions current_join join_type_of
    make_where_expression read_group_by read_order_by read_limit peek check_one check_keyword
    check_string consume_string consume_attribute current_is_type current_is_char current_is_keyword
    end_by str_eq
parses = refl

select_statement-IsAligned_example : IsAligned (record one_column { entity_name = codes "t" })
select_statement-IsAligned_example =
    select_statement-IsAligned plain_floats 17 (record { tokens = query; at = 0 })
      (record one_column { entity_name = codes "t" }) parses
