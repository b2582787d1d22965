-- ===== src/Parsers/Dispatch/Rejects.antt =====
-- The tokens that core/controller/main_controller makes nothing of.
use csql.Base.{ℕ, ◌≡◌, refl, Bool, false, ◌&&◌, ◌||◌, none, List, [], ◌∷◌, ◌==◌, arith}
use csql.Base.Result.{ok}
use csql.Types.{Floats}
use csql.Tokenizer.{TokenType, Token}
use csql.Tokenizer.Keywords.{SqlKeywords}
use csql.Tokenizer.Cursor.{Cursor, peek, check_keyword, has_type, keyword_place, unexpected}
use csql.Parsers.Statements.{Factory, make_statement, try_factory, caught}
use csql.Parsers.SqlParser.{describe_entity_statement, drop_entity_statement, insert_statement}
use csql.Parsers.CreateTable.{create_entity_statement}
use csql.Parsers.Selecting.{select_statement, delete_tuples_statement, update_statement}
use csql.Parsers.TxnParser.{
  use_database_statement, create_database_statement, show_table_statement, show_databases_statement,
  drop_database_statement, abort_statement, commit_statement, begin_statement, database_factories,
  txn_factories,
}
use csql.Parsers.Dispatch.{parser, first_made, sql_factories}

abbrev pub is_keyword : SqlKeywords → Token → Bool
is_keyword k t = has_type TokenType.keyword t && (keyword_place t.keyword == keyword_place k)

abbrev pub any_keyword : List SqlKeywords → Token → Bool
any_keyword [] t = false
any_keyword (k ∷ ks) t = is_keyword k t || any_keyword ks t

-- The keywords that statements begin with.
abbrev pub first_words : List SqlKeywords
first_words =
    SqlKeywords.create_kw ∷ SqlKeywords.describe_kw ∷ SqlKeywords.drop_kw ∷ SqlKeywords.insert_kw
    ∷ SqlKeywords.select_kw ∷ SqlKeywords.delete_kw ∷ SqlKeywords.update_kw ∷ SqlKeywords.use_kw
    ∷ SqlKeywords.show_kw ∷ SqlKeywords.abort_kw ∷ SqlKeywords.commit_kw ∷ SqlKeywords.begin_kw ∷ []

abbrev pub begins : List Token → Bool
begins [] = false
begins (t ∷ ts) = any_keyword first_words t

module _ (t : Token) (ts : List Token) where
  abbrev tokens : Cursor
  tokens = record { tokens = t ∷ ts; at = 0 }

  check_keyword_other :
      (k : SqlKeywords) → is_keyword k t ≡ false → check_keyword k tokens ≡ unexpected t
  unfolding check_keyword peek
  check_keyword_other k other = rw other refl

  abbrev AllRefuse : List Factory → Type 0
  AllRefuse [] = Unit {0}
  AllRefuse (factory ∷ others) = (factory tokens ≡ unexpected t) × AllRefuse others

  make_statement-none :
      (fs : List Factory) (i : ℕ)
      → AllRefuse fs
      → make_statement fs (record tokens { at = i }) ≡ ok none
  unfolding make_statement try_factory caught
  make_statement-none [] i refuse = refl
  make_statement-none (factory ∷ others) i refuse =
      rw (refuse.0, make_statement-none others i refuse.1) refl

  sql_none : (f : Floats) (fuel : ℕ) → begins (t ∷ ts) ≡ false → AllRefuse (sql_factories f fuel)
  unfolding create_entity_statement describe_entity_statement drop_entity_statement insert_statement
      select_statement delete_tuples_statement update_statement
  sql_none f fuel other = (
    rw (check_keyword_other SqlKeywords.create_kw (ground arith)) refl,
    (
      rw (check_keyword_other SqlKeywords.describe_kw (ground arith)) refl,
      (
        rw (check_keyword_other SqlKeywords.drop_kw (ground arith)) refl,
        (
          rw (check_keyword_other SqlKeywords.insert_kw (ground arith)) refl,
          (
            rw (check_keyword_other SqlKeywords.select_kw (ground arith)) refl,
            (
              rw (check_keyword_other SqlKeywords.delete_kw (ground arith)) refl,
              (rw (check_keyword_other SqlKeywords.update_kw (ground arith)) refl, tt),
            ),
          ),
        ),
      ),
    ),
  )

  database_none : begins (t ∷ ts) ≡ false → AllRefuse database_factories
  unfolding use_database_statement create_database_statement show_table_statement
      show_databases_statement drop_database_statement
  database_none other = (
    rw (check_keyword_other SqlKeywords.use_kw (ground arith)) refl,
    (
      rw (check_keyword_other SqlKeywords.create_kw (ground arith)) refl,
      (
        rw (check_keyword_other SqlKeywords.show_kw (ground arith)) refl,
        (
          rw (check_keyword_other SqlKeywords.show_kw (ground arith)) refl,
          (rw (check_keyword_other SqlKeywords.drop_kw (ground arith)) refl, tt),
        ),
      ),
    ),
  )

  txn_none : begins (t ∷ ts) ≡ false → AllRefuse txn_factories
  unfolding abort_statement commit_statement begin_statement
  txn_none other = (
    rw (check_keyword_other SqlKeywords.abort_kw (ground arith)) refl,
    (
      rw (check_keyword_other SqlKeywords.commit_kw (ground arith)) refl,
      (rw (check_keyword_other SqlKeywords.begin_kw (ground arith)) refl, tt),
    ),
  )

-- No tokens at all: each factory ends at its first keyword.
parser_empty : (f : Floats) (fuel i : ℕ) → parser f fuel (record { tokens = []; at = i }) ≡ ok none
unfolding parser first_made make_statement try_factory caught create_entity_statement
    describe_entity_statement drop_entity_statement insert_statement select_statement
    delete_tuples_statement update_statement use_database_statement create_database_statement
    show_table_statement show_databases_statement drop_database_statement abort_statement
    commit_statement begin_statement check_keyword peek
parser_empty f fuel i = refl

-- Tokens that begin with none of the keywords of statements, no tokens among them, make no
-- statement, and no failure gets out.
pub parser-none :
    (f : Floats) (fuel : ℕ) (ts : List Token) (i : ℕ)
    → begins ts ≡ false
    → parser f fuel (record { tokens = ts; at = i }) ≡ ok none
unfolding parser first_made
parser-none f fuel [] i other = parser_empty f fuel i
parser-none f fuel (t ∷ ts) i other =
    rw
      (
        make_statement-none t ts (sql_factories f fuel) i (sql_none t ts f fuel other),
        make_statement-none t ts database_factories i (database_none t ts other),
        make_statement-none t ts txn_factories i (txn_none t ts other),
      )
      refl
