-- ===== src/Parsers/Statements.antt =====
-- core/controller/statements: what the parsers make of the tokens. A statement is the data that its
-- class keeps; the stream that it writes to is left out.
use csql.Base.{Option, none, some, List, [], ◌∷◌, Str}
use csql.Base.Result.{
  Result, ok, err, Failure, errors, out_of_range, bad_variant, invalid_argument, assertion,
  undefined, no_fuel, ◌>>=◌,
}
use csql.Entity.{Entity}
use csql.SqlQuery.{SqlQuery, UpdateQuery}
use csql.Tokenizer.Cursor.{Cursor, reset}

pub data Statement : Type 0 where
  create_table : Entity → Statement
  describe_table drop_table : Str → Statement
  insert_tuples : Str → List Str → List Str → Statement
  select : SqlQuery → Statement
  delete_tuples : SqlQuery → Statement
  update : UpdateQuery → Statement
  use_database create_database drop_database : Str → Statement
  show_tables show_databases abort commit begin : Statement

-- A parser for one kind of statement: `none` is `nullptr`.
abbrev pub Factory : Type 0
Factory = Cursor → Result (Option Statement)

-- `catch (...)`: what is not an exception is not caught.
unfoldable pub caught : Failure → Result (Option Statement)
caught (errors reason) = ok none
caught out_of_range = ok none
caught bad_variant = ok none
caught invalid_argument = ok none
caught assertion = err assertion
caught undefined = err undefined
caught no_fuel = err no_fuel

-- The `try` of one factory.
unfoldable pub try_factory : Result (Option Statement) → Result (Option Statement)
unfolding caught
try_factory (err e) = caught e
try_factory (ok s) = ok s

-- The three `makeStatement`, for the factories of their class.
unfoldable pub make_statement : List Factory → Factory
unfolding try_factory
make_statement [] c = ok none
make_statement (factory ∷ others) c = try_factory (factory (reset c)) >>= λ made. elim made [
  | none ↦ make_statement others c
  | some s ↦ ok (some s)
]
