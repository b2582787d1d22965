-- ===== src/Parsers/Dispatch.antt =====
-- core/controller/main_controller: the parsers that a statement's tokens go to, one after the other.
pub mod Commands
pub mod Rejects
pub mod Terminates
use csql.Base.{ℕ, Option, none, some, List, [], ◌∷◌}
use csql.Base.Result.{Result, ok, err, ◌>>=◌}
use csql.Types.{Floats}
use csql.Parsers.Statements.{Statement, Factory, make_statement}
use csql.Parsers.SqlParser.{describe_entity_statement, drop_entity_statement, insert_statement}
use csql.Parsers.CreateTable.{create_entity_statement}
use csql.Parsers.Selecting.{select_statement, delete_tuples_statement, update_statement}
use csql.Parsers.TxnParser.{make_database_statement, make_txn_statement}

-- The `factories` of `SqlParser`, in their order.
abbrev pub sql_factories : Floats → ℕ → List Factory
sql_factories f fuel =
    create_entity_statement fuel
    ∷ describe_entity_statement
    ∷ drop_entity_statement
    ∷ insert_statement fuel
    ∷ select_statement f fuel
    ∷ delete_tuples_statement f fuel
    ∷ update_statement f fuel
    ∷ []

abbrev pub make_sql_statement : Floats → ℕ → Factory
make_sql_statement f fuel = make_statement (sql_factories f fuel)

abbrev pub parsers : Floats → ℕ → List Factory
parsers f fuel = make_sql_statement f fuel ∷ make_database_statement ∷ make_txn_statement ∷ []

-- The loop of `MainController::parser`.
unfoldable pub first_made : List Factory → Factory
first_made [] c = ok none
first_made (parser ∷ others) c =
    parser c >>= λ made. elim made [ none ↦ first_made others c | some s ↦ ok (some s) ]

unfoldable pub parser : Floats → ℕ → Factory
unfolding first_made make_statement
parser f fuel c = first_made (parsers f fuel) c
