-- ===== src/Parsers/SqlParser.antt =====
-- core/controller/parsers/sql_parser: the statements that describe, drop and fill a table. A round of a loop takes a token at
-- least, so that as much fuel as there are tokens, and one more, is enough for the loops here.
pub mod Lists
pub mod Ends
use csql.Base.{
  ℕ, zero, suc, ◌≡◌, Bool, true, false, Option, none, some, List, [], ◌∷◌, ◌++◌, if◌then◌else◌, Str,
  codes, str_eq,
}
use csql.Base.Result.{Result, ok, err, errors, no_fuel, ◌>>=◌}
use csql.Types.{DataTypes}
use csql.Convert.{covert_string_to_data_type}
use csql.Entity.{Entity, Attribute, Reference, get_attribute, add_attribute}
use csql.Tokenizer.Keywords.{SqlKeywords, SqlOperators}
use csql.Tokenizer.Cursor.{
  Cursor, check_one, check_keyword, check_string, end_by, current_is_char, current_is_keyword,
  current_is_operator, consume_string, consume_keyword, consume_int,
}
use csql.Parsers.Statements.{
  Statement, create_table, describe_table, drop_table, insert_tuples, Factory,
}

unfoldable pub describe_entity_statement : Factory
unfolding check_keyword consume_string end_by
describe_entity_statement c = do
  c1 ← check_keyword SqlKeywords.describe_kw c
  c2 ← check_keyword SqlKeywords.table_kw c1
  (name, c3) ← consume_string c2
  done ← end_by (codes ";") c3
  ok (some (describe_table name))

unfoldable pub drop_entity_statement : Factory
unfolding check_keyword consume_string end_by
drop_entity_statement c = do
  c1 ← check_keyword SqlKeywords.drop_kw c
  c2 ← check_keyword SqlKeywords.table_kw c1
  (name, c3) ← consume_string c2
  done ← end_by (codes ";") c3
  ok (some (drop_table name))

-- The loop of `getListString`.
unfoldable pub list_strings : ℕ → Cursor → Result (List Str × Cursor)
unfolding current_is_char consume_string check_string
list_strings zero c = err no_fuel
list_strings (suc fuel) c = current_is_char 41 c >>= λ closed. elim closed [
  | true ↦ ok ([], c)
  | false ↦ do
    (name, c1) ← consume_string c
    last ← current_is_char 41 c1
    elim last [
      | true ↦ ok (name ∷ [], c1)
      | false ↦ do
        c2 ← check_string (codes ",") c1
        (names, c3) ← list_strings fuel c2
        ok (name ∷ names, c3)
    ]
]

unfoldable pub get_list_string : ℕ → Cursor → Result (List Str × Cursor)
unfolding check_string list_strings
get_list_string fuel c = do
  c1 ← check_string (codes "(") c
  (names, c2) ← list_strings fuel c1
  c3 ← check_string (codes ")") c2
  ok (names, c3)

-- The names of INSERT, if there are any.
unfoldable pub read_names : ℕ → Cursor → Result (List Str × Cursor)
unfolding current_is_char get_list_string
read_names fuel c =
    current_is_char 40 c >>= λ named. if named then get_list_string fuel c else ok ([], c)

unfoldable pub insert_statement : ℕ → Factory
unfolding check_keyword consume_string read_names get_list_string end_by
insert_statement fuel c = do
  c1 ← check_keyword SqlKeywords.insert_kw c
  c2 ← check_keyword SqlKeywords.into_kw c1
  (entity, c3) ← consume_string c2
  (names, c4) ← read_names fuel c3
  c5 ← check_keyword SqlKeywords.values_kw c4
  (values, c6) ← get_list_string fuel c5
  done ← end_by (codes ";") c6
  ok (some (insert_tuples entity names values))
