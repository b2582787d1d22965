-- ===== src/Parsers/Dispatch/Commands.antt =====
-- What core/controller/main_controller makes of the tokens of the statements without expressions.
use csql.Base.{ℕ, ◌<◌, ◌≡◌, refl, some, List, [], ◌∷◌, map, length, Str, codes}
use csql.Base.Text.{str_eq}
use csql.Base.Result.{ok}
use csql.Types.{Floats}
use csql.Tokenizer.{Token}
use csql.Tokenizer.Keywords.{SqlKeywords}
use csql.Tokenizer.Cursor.{
  Cursor, advance, peek, check_keyword, check_string, consume_string, end_by,
}
use csql.Tokenizer.Rests.{
  Rests, advance-Rests, current_is_char-Rests, check_keyword-Rests, end_by-Rests,
}
use csql.Parsers.Statements.{
  Statement, describe_table, drop_table, insert_tuples, use_database, create_database,
  drop_database, show_tables, show_databases, abort, commit, begin, make_statement, try_factory,
  caught,
}
use csql.Parsers.SqlParser.{
  describe_entity_statement, drop_entity_statement, insert_statement, read_names,
}
use csql.Parsers.SqlParser.Lists.{
  keyword_token, mark, data_of_token, AreValues, print_items, print_list, get_list_string-print,
}
use csql.Parsers.CreateTable.{create_entity_statement}
use csql.Parsers.Selecting.{select_statement, delete_tuples_statement, update_statement}
use csql.Parsers.TxnParser.{
  use_database_statement, create_database_statement, show_table_statement, show_databases_statement,
  drop_database_statement, abort_statement, commit_statement, begin_statement,
}
use csql.Parsers.Dispatch.{parser, first_made}

-- The statements without expressions, with the tokens of their names and values.
pub data Command : Type 0 where
  describing dropping using creating_database dropping_database : Token → Command
  inserting : Token → List Token → List Token → Command
  showing_tables showing_databases aborting committing beginning : Command

abbrev pub made : Command → Statement
made (describing t) = describe_table t.data_of
made (dropping t) = drop_table t.data_of
made (using t) = use_database t.data_of
made (creating_database t) = create_database t.data_of
made (dropping_database t) = drop_database t.data_of
made (inserting t names values) =
    insert_tuples t.data_of (map data_of_token names) (map data_of_token values)
made showing_tables = show_tables
made showing_databases = show_databases
made aborting = abort
made committing = commit
made beginning = begin

-- No parentheses stand for no names.
abbrev pub print_names : List Token → List Token → List Token
print_names [] rest = rest
print_names (v ∷ vs) rest = print_list (v ∷ vs) rest

module _ (spell : SqlKeywords → Str) where
  abbrev pub word : SqlKeywords → Token
  word k = keyword_token k (spell k)

  abbrev pub print : Command → List Token
  print (describing t) =
      word SqlKeywords.describe_kw ∷ word SqlKeywords.table_kw ∷ t ∷ mark (codes ";") ∷ []
  print (dropping t) =
      word SqlKeywords.drop_kw ∷ word SqlKeywords.table_kw ∷ t ∷ mark (codes ";") ∷ []
  print (using t) = word SqlKeywords.use_kw ∷ t ∷ mark (codes ";") ∷ []
  print (creating_database t) =
      word SqlKeywords.create_kw ∷ word SqlKeywords.database_kw ∷ t ∷ mark (codes ";") ∷ []
  print (dropping_database t) =
      word SqlKeywords.drop_kw ∷ word SqlKeywords.database_kw ∷ t ∷ mark (codes ";") ∷ []
  print (inserting t names values) =
      word SqlKeywords.insert_kw
      ∷ word SqlKeywords.into_kw
      ∷ t
      ∷ print_names names (word SqlKeywords.values_kw ∷ print_list values (mark (codes ";") ∷ []))
  print showing_tables =
      word SqlKeywords.show_kw ∷ word SqlKeywords.tables_kw ∷ mark (codes ";") ∷ []
  print showing_databases =
      word SqlKeywords.show_kw ∷ word SqlKeywords.databases_kw ∷ mark (codes ";") ∷ []
  print aborting = word SqlKeywords.abort_kw ∷ mark (codes ";") ∷ []
  print committing = word SqlKeywords.commit_kw ∷ mark (codes ";") ∷ []
  print beginning =
      word SqlKeywords.begin_kw ∷ word SqlKeywords.transaction_kw ∷ mark (codes ";") ∷ []

  -- The names and the values of an INSERT are not punctuation, and are fewer than the fuel.
  abbrev pub IsPrintable : ℕ → Command → Type 0
  IsPrintable fuel (inserting t names values) =
      ((length names < fuel) × AreValues names) × ((length values < fuel) × AreValues values)
  IsPrintable fuel _ = Unit {0}

  abbrev pub start : List Token → Cursor
  start ts = record { tokens = ts; at = 0 }

  -- The names of an INSERT, or none, before a keyword.
  read_names-print :
      (fuel : ℕ) (names rest : List Token) (c : Cursor)
      → length names < fuel
      → AreValues names
      → Rests c (print_names names (word SqlKeywords.values_kw ∷ rest))
      → (c' : Cursor) × (read_names fuel c ≡ ok (map data_of_token names, c'))
        × Rests c' (word SqlKeywords.values_kw ∷ rest)
  unfolding read_names
  read_names-print fuel [] rest c enough are h =
      (c, rw (current_is_char-Rests c (word SqlKeywords.values_kw) rest h 40) refl, h)
  read_names-print fuel (v ∷ vs) rest c enough are h =
      let values = word SqlKeywords.values_kw ∷ rest in
      let items = print_items (v ∷ vs) (mark (codes ")") ∷ values) in
      let (c', read, h') = get_list_string-print fuel (v ∷ vs) values c enough are h in
      (c', rw (current_is_char-Rests c (mark (codes "(")) items h 40, read) refl, h')

  insert_statement-print :
      (fuel : ℕ) (t : Token) (names values : List Token)
      → IsPrintable fuel (inserting t names values)
      → insert_statement fuel (start (print (inserting t names values)))
        ≡ ok (some (made (inserting t names values)))
  unfolding insert_statement check_keyword consume_string peek
  insert_statement-print fuel t names values can =
      let entered = advance (advance (advance (start (print (inserting t names values))))) in
      let ends = mark (codes ";") ∷ [] in
      let (c1, read1, h1) =
        read_names-print fuel names (print_list values ends) entered can.0.0 can.0.1 refl in
      let passed =
        check_keyword-Rests c1 (word SqlKeywords.values_kw) (print_list values ends) h1
          SqlKeywords.values_kw refl in
      let h2 = advance-Rests c1 (word SqlKeywords.values_kw) (print_list values ends) h1 in
      let (c3, read2, h3) =
        get_list_string-print fuel values ends (advance c1) can.1.0 can.1.1 h2 in
      let done = end_by-Rests c3 (mark (codes ";")) (codes ";") h3 refl in
      rw (read1, passed, read2, done) refl

  parser-inserting :
      (f : Floats) (fuel : ℕ) (t : Token) (ts : List Token) (s : Statement)
      → insert_statement fuel (start (word SqlKeywords.insert_kw ∷ ts)) ≡ ok (some s)
      → parser f fuel (start (word SqlKeywords.insert_kw ∷ ts)) ≡ ok (some s)
  unfolding parser first_made make_statement try_factory caught create_entity_statement
      describe_entity_statement drop_entity_statement check_keyword peek
  parser-inserting f fuel t ts s h = rw h refl

  -- The tokens of a DESCRIBE, DROP TABLE, USE, CREATE DATABASE, DROP DATABASE, SHOW TABLES, SHOW
  -- DATABASES, ABORT, COMMIT or BEGIN, and of an INSERT whose names and values are no punctuation
  -- and each fewer than the fuel, are parsed to that statement by the three parsers in their order.
  pub parser-print :
      (f : Floats) (fuel : ℕ) (command : Command)
      → IsPrintable fuel command
      → parser f fuel (start (print command)) ≡ ok (some (made command))
  unfolding parser first_made make_statement try_factory caught create_entity_statement
      describe_entity_statement drop_entity_statement select_statement delete_tuples_statement
      update_statement use_database_statement create_database_statement show_table_statement
      show_databases_statement drop_database_statement abort_statement commit_statement
      begin_statement check_keyword check_string consume_string end_by peek str_eq insert_statement
  parser-print f fuel (describing t) can = refl
  parser-print f fuel (dropping t) can = refl
  parser-print f fuel (using t) can = refl
  parser-print f fuel (creating_database t) can = refl
  parser-print f fuel (dropping_database t) can = refl
  parser-print f fuel (inserting t names values) can =
      let rest =
        word SqlKeywords.into_kw
        ∷ t
        ∷ print_names names
            (word SqlKeywords.values_kw ∷ print_list values (mark (codes ";") ∷ [])) in
      parser-inserting f fuel t rest (made (inserting t names values))
        (insert_statement-print fuel t names values can)
  parser-print f fuel showing_tables can = refl
  parser-print f fuel showing_databases can = refl
  parser-print f fuel aborting can = refl
  parser-print f fuel committing can = refl
  parser-print f fuel beginning can = refl
