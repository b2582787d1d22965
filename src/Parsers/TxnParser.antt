-- ===== src/Parsers/TxnParser.antt =====
-- core/controller/parsers/database_parser and txn_parser: statements of databases and transactions.
use csql.Base.{Option, some, List, [], ◌∷◌, codes}
use csql.Base.Result.{Result, ok, ◌>>=◌}
use csql.Tokenizer.Keywords.{SqlKeywords}
use csql.Tokenizer.Cursor.{Cursor, check_keyword, consume_string, end_by}
use csql.Parsers.Statements.{
  Statement, use_database, create_database, drop_database, show_tables, show_databases, abort,
  commit, begin, Factory, make_statement,
}

-- A keyword, and then what the rest of the statement is.
abbrev pub finish : Statement → Cursor → Result (Option Statement)
finish s c = end_by (codes ";") c >>= λ done. ok (some s)

unfoldable pub use_database_statement : Factory
unfolding check_keyword consume_string end_by
use_database_statement c = do
  c1 ← check_keyword SqlKeywords.use_kw c
  (name, c2) ← consume_string c1
  finish (use_database name) c2

unfoldable pub create_database_statement : Factory
unfolding check_keyword consume_string end_by
create_database_statement c = do
  c1 ← check_keyword SqlKeywords.create_kw c
  c2 ← check_keyword SqlKeywords.database_kw c1
  (name, c3) ← consume_string c2
  finish (create_database name) c3

unfoldable pub show_table_statement : Factory
unfolding check_keyword end_by
show_table_statement c = do
  c1 ← check_keyword SqlKeywords.show_kw c
  c2 ← check_keyword SqlKeywords.tables_kw c1
  finish show_tables c2

unfoldable pub show_databases_statement : Factory
unfolding check_keyword end_by
show_databases_statement c = do
  c1 ← check_keyword SqlKeywords.show_kw c
  c2 ← check_keyword SqlKeywords.databases_kw c1
  finish show_databases c2

unfoldable pub drop_database_statement : Factory
unfolding check_keyword consume_string end_by
drop_database_statement c = do
  c1 ← check_keyword SqlKeywords.drop_kw c
  c2 ← check_keyword SqlKeywords.database_kw c1
  (name, c3) ← consume_string c2
  finish (drop_database name) c3

unfoldable pub abort_statement : Factory
unfolding check_keyword end_by
abort_statement c = do c1 ← check_keyword SqlKeywords.abort_kw c; finish abort c1

unfoldable pub commit_statement : Factory
unfolding check_keyword end_by
commit_statement c = do c1 ← check_keyword SqlKeywords.commit_kw c; finish commit c1

unfoldable pub begin_statement : Factory
unfolding check_keyword end_by
begin_statement c = do
  c1 ← check_keyword SqlKeywords.begin_kw c
  c2 ← check_keyword SqlKeywords.transaction_kw c1
  finish begin c2

-- The `factories` of the two classes, in their order.
abbrev pub database_factories : List Factory
database_factories =
    use_database_statement ∷ create_database_statement ∷ show_table_statement
    ∷ show_databases_statement ∷ drop_database_statement ∷ []

abbrev pub txn_factories : List Factory
txn_factories = abort_statement ∷ commit_statement ∷ begin_statement ∷ []

abbrev pub make_database_statement : Factory
make_database_statement = make_statement database_factories

abbrev pub make_txn_statement : Factory
make_txn_statement = make_statement txn_factories
