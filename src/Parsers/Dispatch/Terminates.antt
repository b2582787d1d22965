-- ===== src/Parsers/Dispatch/Terminates.antt =====
-- How much fuel the parsers of core/controller/main_controller need.
use csql.Base.{ℕ, ◌+◌, ◌*◌, ◌≤◌, ◌≢◌, Option, List, [], ◌∷◌, length, arith}
use mathlib.Core.Path.{subst}
use csql.Base.Result.{
  Result, ok, err, Failure, errors, out_of_range, bad_variant, invalid_argument, assertion,
  undefined, no_fuel,
}
use csql.Base.Ends.{Ends, IsReal, Anything, bind-Ends, maybe-Ends}
use csql.Types.{Floats}
use csql.Tokenizer.{Token}
use csql.Tokenizer.Keywords.{SqlKeywords}
use csql.Tokenizer.Cursor.{Cursor, reset}
use csql.Parsers.Statements.{Statement, Factory, caught, try_factory, make_statement}
use csql.Parsers.SqlParser.Ends.{
  keyword-Ends, string-Ends, end-Ends, describe_entity_statement-Ends, drop_entity_statement-Ends,
  insert_statement-Ends,
}
use csql.Parsers.CreateTable.Ends.{create_entity_statement-Ends}
use csql.Parsers.Selecting.Ends.{
  select_statement-Ends, delete_tuples_statement-Ends, update_statement-Ends,
}
use csql.Parsers.TxnParser.{
  use_database_statement, create_database_statement, show_table_statement, show_databases_statement,
  drop_database_statement, abort_statement, commit_statement, begin_statement, database_factories,
  txn_factories,
}
use csql.Parsers.Dispatch.{sql_factories, parsers, first_made, parser}

caught-Ends : (e : Failure) → IsReal e → Ends Anything (caught e)
unfolding caught
caught-Ends (errors reason) real = tt
caught-Ends out_of_range real = tt
caught-Ends bad_variant real = tt
caught-Ends invalid_argument real = tt
caught-Ends assertion real = tt
caught-Ends undefined real = tt
caught-Ends no_fuel real = real

try_factory-Ends : (r : Result (Option Statement)) → Ends Anything r → Ends Anything (try_factory r)
unfolding try_factory
try_factory-Ends (err e) ends = caught-Ends e ends
try_factory-Ends (ok s) ends = tt

-- Every factory ends on the tokens, from their start.
abbrev AllEnd : List Factory → Cursor → Type 0
AllEnd [] c = Unit {0}
AllEnd (factory ∷ others) c = Ends Anything (factory c) × AllEnd others c

make_statement-Ends :
    (fs : List Factory) (c : Cursor) → AllEnd fs (reset c) → Ends Anything (make_statement fs c)
unfolding make_statement
make_statement-Ends [] c all = tt
make_statement-Ends (factory ∷ others) c all =
    bind-Ends Anything Anything (try_factory (factory (reset c))) _
      (try_factory-Ends (factory (reset c)) all.0)
      (λ made d. maybe-Ends Anything made _ _ (make_statement-Ends others c all.1) (λ s e. tt))

first_made-Ends : (fs : List Factory) (c : Cursor) → AllEnd fs c → Ends Anything (first_made fs c)
unfolding first_made
first_made-Ends [] c all = tt
first_made-Ends (factory ∷ others) c all =
    bind-Ends Anything Anything (factory c) _ all.0
      (λ made d. maybe-Ends Anything made _ _ (first_made-Ends others c all.1) (λ s e. tt))

database-AllEnd : (c : Cursor) → AllEnd database_factories c
unfolding use_database_statement create_database_statement show_table_statement
    show_databases_statement drop_database_statement
database-AllEnd c = (
  keyword-Ends SqlKeywords.use_kw c _ (λ c1 b1. string-Ends c1 _ (λ r b. end-Ends r.1 _)),
  (
    keyword-Ends SqlKeywords.create_kw c _ (λ c1 b1.
        keyword-Ends SqlKeywords.database_kw c1 _
          (λ c2 b2. string-Ends c2 _ (λ r b. end-Ends r.1 _))),
    (
      keyword-Ends SqlKeywords.show_kw c _
          (λ c1 b1. keyword-Ends SqlKeywords.tables_kw c1 _ (λ c2 b2. end-Ends c2 _)),
      (
        keyword-Ends SqlKeywords.show_kw c _
            (λ c1 b1. keyword-Ends SqlKeywords.databases_kw c1 _ (λ c2 b2. end-Ends c2 _)),
        (
          keyword-Ends SqlKeywords.drop_kw c _ (λ c1 b1.
              keyword-Ends SqlKeywords.database_kw c1 _
                (λ c2 b2. string-Ends c2 _ (λ r b. end-Ends r.1 _))),
          tt,
        ),
      ),
    ),
  ),
)

txn-AllEnd : (c : Cursor) → AllEnd txn_factories c
unfolding abort_statement commit_statement begin_statement
txn-AllEnd c = (
  keyword-Ends SqlKeywords.abort_kw c _ (λ c1 b1. end-Ends c1 _),
  (
    keyword-Ends SqlKeywords.commit_kw c _ (λ c1 b1. end-Ends c1 _),
    (
      keyword-Ends SqlKeywords.begin_kw c _
          (λ c1 b1. keyword-Ends SqlKeywords.transaction_kw c1 _ (λ c2 b2. end-Ends c2 _)),
      tt,
    ),
  ),
)

module _ (f : Floats) (fuel : ℕ) (ts : List Token) (enough : 3 * length ts + 2 ≤ fuel) where
  abbrev start : Cursor
  start = record { tokens = ts; at = 0 }

  sql-AllEnd : AllEnd (sql_factories f fuel) start
  sql-AllEnd = (
    create_entity_statement-Ends fuel start (omega arith),
    (
      describe_entity_statement-Ends start,
      (
        drop_entity_statement-Ends start,
        (
          insert_statement-Ends fuel start (omega arith),
          (
            select_statement-Ends f fuel start (omega arith),
            (
              delete_tuples_statement-Ends f fuel start (omega arith),
              (update_statement-Ends f fuel start (omega arith), tt),
            ),
          ),
        ),
      ),
    ),
  )

  parser-Ends : (i : ℕ) → Ends Anything (parser f fuel (record { tokens = ts; at = i }))
  unfolding parser
  parser-Ends i =
      let c : Cursor = record { tokens = ts; at = i } in
      first_made-Ends (parsers f fuel) c (
        make_statement-Ends (sql_factories f fuel) c sql-AllEnd,
        (
          make_statement-Ends database_factories c (database-AllEnd start),
          (make_statement-Ends txn_factories c (txn-AllEnd start), tt),
        ),
      )

  -- Fuel of three for each token, and two more, is enough for the parsers of statements, all their
  -- loops and all the expressions in them, whatever the tokens are and wherever the cursor stands.
  pub parser-ends : (i : ℕ) → parser f fuel (record { tokens = ts; at = i }) ≢ err no_fuel
  parser-ends i e = subst (Ends Anything) e (parser-Ends i)
