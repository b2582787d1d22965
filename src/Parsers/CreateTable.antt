-- ===== src/Parsers/CreateTable.antt =====
-- core/controller/parsers/sql_parser: the statement that creates a table. A round of a loop takes a
-- token at least, so that as much fuel as there are tokens, and one more, is enough.
pub mod Ends
use csql.Base.{
  ℕ, zero, suc, ◌≡◌, Bool, true, false, Option, none, some, List, [], ◌∷◌, ◌++◌, if◌then◌else◌, Str,
  codes, str_eq,
}
use csql.Base.Result.{Result, ok, err, errors, no_fuel, ◌>>=◌}
use csql.Types.{DataTypes}
use csql.Convert.{covert_string_to_data_type}
use csql.Entity.{Entity, Attribute, Reference, get_attribute, add_attribute}
use csql.Tokenizer.Keywords.{SqlKeywords, SqlOperators}
use csql.Tokenizer.Cursor.{
  Cursor, check_one, check_keyword, check_string, end_by, current_is_char, current_is_keyword,
  current_is_operator, consume_string, consume_keyword, consume_int,
}
use csql.Parsers.Statements.{Statement, create_table, Factory}

-- A new `Attribute`; its type is set before it is read.
abbrev pub new_attribute : Str → DataTypes → Attribute
new_attribute name type = record {
  name = name;
  type = type;
  nullable = true;
  primary = false;
  unique = false;
  auto_increment = 0;
  reference = none;
}

-- The branch of a keyword in the properties of an attribute: `none` is `return nullptr`.
unfoldable pub set_property :
    SqlKeywords → Attribute → Cursor → Result (Option (Attribute × Cursor))
unfolding check_keyword
set_property SqlKeywords.primary_kw a c =
    check_keyword SqlKeywords.key_kw c >>= λ c'. ok (some (record a { primary = true }, c'))
set_property SqlKeywords.auto_increment a c = ok (some (record a { auto_increment = 1 }, c))
set_property SqlKeywords.unique_kw a c = ok (some (record a { unique = true }, c))
set_property _ a c = ok none

-- One round of the loop over the properties.
unfoldable pub read_property : Attribute → Cursor → Result (Option (Attribute × Cursor))
unfolding current_is_operator check_one check_keyword consume_keyword set_property
read_property a c = current_is_operator (SqlOperators.not_op ∷ []) c >>= λ negated. elim negated [
  | true ↦ do
    c1 ← check_one c
    c2 ← check_keyword SqlKeywords.null_kw c1
    ok (some (record a { nullable = false }, c2))
  | false ↦ do (keyword, c1) ← consume_keyword c; set_property keyword a c1
]

-- The loop over the properties, to the comma or the parenthesis.
unfoldable pub read_properties : ℕ → Attribute → Cursor → Result (Option (Attribute × Cursor))
unfolding current_is_char read_property
read_properties zero a c = err no_fuel
read_properties (suc fuel) a c = current_is_char 44 c >>= λ comma. elim comma [
  | true ↦ ok (some (a, c))
  | false ↦ current_is_char 41 c >>= λ closed. elim closed [
    | true ↦ ok (some (a, c))
    | false ↦ read_property a c >>= λ read. elim read [
      | none ↦ ok none
      | some next ↦ read_properties fuel next.0 next.1
    ]
  ]
]

-- The size of a VARCHAR is read and not kept.
unfoldable pub skip_size : DataTypes → Cursor → Result Cursor
unfolding check_string consume_int
skip_size DataTypes.varchar_type c = do
  c1 ← check_string (codes "(") c
  (size, c2) ← consume_int c1
  check_string (codes ")") c2
skip_size _ c = ok c

-- The rest of an attribute; a type that is not known is `return nullptr`.
unfoldable pub finish_column : ℕ → Str → DataTypes → Cursor → Result (Option (Attribute × Cursor))
unfolding read_properties
finish_column fuel name DataTypes.null_type c = ok none
finish_column fuel name type c = read_properties fuel (new_attribute name type) c

-- The branch of an attribute.
unfoldable pub read_column : ℕ → Cursor → Result (Option (Attribute × Cursor))
unfolding consume_string covert_string_to_data_type skip_size finish_column
read_column fuel c = do
  (name, c1) ← consume_string c
  (type, c2) ← consume_string c1
  c3 ← skip_size (covert_string_to_data_type type) c2
  finish_column fuel name (covert_string_to_data_type type) c3

-- A foreign key: the attribute, and the table and the attribute that it refers to.
abbrev pub ForeignKey : Type 0
ForeignKey = Str × Str × Str

unfoldable pub read_foreign_key : Cursor → Result (ForeignKey × Cursor)
unfolding check_keyword check_string consume_string
read_foreign_key c = do
  c1 ← check_keyword SqlKeywords.foreign_kw c
  c2 ← check_keyword SqlKeywords.key_kw c1
  c3 ← check_string (codes "(") c2
  (name, c4) ← consume_string c3
  c5 ← check_string (codes ")") c4
  c6 ← check_keyword SqlKeywords.references_kw c5
  (ref_entity_name, c7) ← consume_string c6
  c8 ← check_string (codes "(") c7
  (ref_attribute_name, c9) ← consume_string c8
  c10 ← check_string (codes ")") c9
  ok ((name, ref_entity_name, ref_attribute_name), c10)

-- `setReference` on the attribute that `getAttribute` finds, the first one of its name.
unfoldable pub set_reference : Str → Reference → List Attribute → List Attribute
set_reference name r [] = []
set_reference name r (a ∷ others) =
    let rest = set_reference name r others in
    if str_eq a.name name then record a { reference = some r } ∷ others else a ∷ rest

-- The loop over the foreign keys.
unfoldable pub set_references : List ForeignKey → Entity → Result Entity
unfolding get_attribute set_reference
set_references [] e = ok e
set_references ((name, ref_entity_name, ref_attribute_name) ∷ keys) e =
    elim (get_attribute name e.attributes) [
      | none ↦ err (errors (codes "Reference to non-existing attribute"))
      | some a ↦
          let r : Reference = record {
            limit = 0;
            entity_name = ref_entity_name;
            attribute_name = ref_attribute_name;
          } in
          set_references keys (record e { attributes = set_reference name r e.attributes })
    ]

abbrev pub new_entity : Str → Entity
new_entity name = record {
  attributes = [];
  indexing_metadata = [];
  db_name = [];
  name = name;
  clustered_key = [];
  first_free_page = 0;
  n_page = 1;
}

-- What a round of the loop over the columns adds to, with the cursor after it.
pub record Columns : Type 0 where
  pub entity : Entity
  pub foreign_keys : List ForeignKey
  pub cursor : Cursor

-- One round: a foreign key or an attribute.
unfoldable pub read_item : ℕ → Columns → Result (Option Columns)
unfolding current_is_keyword read_foreign_key read_column add_attribute
read_item fuel s = current_is_keyword SqlKeywords.foreign_kw s.cursor >>= λ foreign. elim foreign [
  | true ↦ do
    (key, c) ← read_foreign_key s.cursor
    ok (some (record s { foreign_keys = s.foreign_keys ++ key ∷ []; cursor = c }))
  | false ↦ read_column fuel s.cursor >>= λ column. elim column [
    | none ↦ ok none
    | some found ↦
        ok (some (record s { entity = add_attribute s.entity found.0; cursor = found.1 }))
  ]
]

unfoldable pub read_items : ℕ → Columns → Result (Option Columns)
unfolding current_is_char read_item check_string
read_items zero s = err no_fuel
read_items (suc fuel) s = current_is_char 41 s.cursor >>= λ closed. elim closed [
  | true ↦ ok (some s)
  | false ↦ read_item fuel s >>= λ read. elim read [
    | none ↦ ok none
    | some s' ↦ current_is_char 41 s'.cursor >>= λ last. elim last [
      | true ↦ ok (some s')
      | false ↦ do
        c ← check_string (codes ",") s'.cursor
        read_items fuel (record s' { cursor = c })
    ]
  ]
]

abbrev pub finish_table : Columns → Result (Option Statement)
finish_table s = do
  c1 ← check_string (codes ")") s.cursor
  done ← end_by (codes ";") c1
  entity ← set_references s.foreign_keys s.entity
  ok (some (create_table entity))

unfoldable pub create_entity_statement : ℕ → Factory
unfolding check_keyword consume_string check_string read_items end_by set_references
create_entity_statement fuel c = do
  c1 ← check_keyword SqlKeywords.create_kw c
  c2 ← check_keyword SqlKeywords.table_kw c1
  (name, c3) ← consume_string c2
  c4 ← check_string (codes "(") c3
  read ← read_items fuel (record { entity = new_entity name; foreign_keys = []; cursor = c4 })
  elim read [ none ↦ ok none | some s ↦ finish_table s ]
