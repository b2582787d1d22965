-- ===== src/Parsers/CreateTable/Ends.antt =====
-- The statement of core/controller/parsers/sql_parser that creates a table ends.
use csql.Base.{ℕ, zero, suc, ◌<◌, ◌≤◌, Option, none, some, List, [], ◌∷◌, arith, Str, codes}
use mathlib.Core.Path.{subst}
use csql.Base.Ends.{Ends, Anything, bind-Ends, weaken-Ends, either-Ends, maybe-Ends}
use csql.Types.{DataTypes}
use csql.Convert.{covert_string_to_data_type}
use csql.Entity.{Entity, Attribute, get_attribute}
use csql.Tokenizer.Keywords.{SqlKeywords, SqlOperators}
use csql.Tokenizer.Cursor.{
  Cursor, check_one, check_keyword, check_string, consume_string, consume_keyword, consume_int,
  end_by, current_is_char, current_is_keyword, current_is_operator,
}
use csql.Tokenizer.Ends.{
  left_over, Before, Read, check_one-Ends, check_keyword-Ends, check_string-Ends,
  consume_string-Ends, consume_keyword-Ends, consume_int-Ends, current_is_char-Ends,
  current_is_keyword-Ends, current_is_operator-Ends, end_by-Ends,
}
use csql.Parsers.SqlParser.Ends.{keyword-Ends, string-Ends}
use csql.Parsers.ExpressionParser.Steps.{AtMost}
use csql.Parsers.CreateTable.{
  set_property, read_property, read_properties, skip_size, finish_column, read_column, ForeignKey,
  read_foreign_key, set_references, new_entity, Columns, read_item, read_items, finish_table,
  create_entity_statement,
}

-- An attribute with the cursor after it, if there is one.
abbrev Within : Cursor → Option (Attribute × Cursor) → Type 0
Within c none = Unit
Within c (some r) = left_over r.1 ≤ left_over c

abbrev Moved : Columns → Option Columns → Type 0
Moved s none = Unit
Moved s (some s') = left_over s'.cursor < left_over s.cursor

set_property-Ends :
    (k : SqlKeywords) (a : Attribute) (c : Cursor) → Ends (Within c) (set_property k a c)
unfolding set_property
set_property-Ends SqlKeywords.primary_kw a c =
    bind-Ends (Within c) (Before c) (check_keyword SqlKeywords.key_kw c) _
      (check_keyword-Ends c SqlKeywords.key_kw) (λ c' b. omega arith)
set_property-Ends SqlKeywords.auto_increment a c = omega arith
set_property-Ends SqlKeywords.unique_kw a c = omega arith
set_property-Ends _ a c = tt

-- A property takes a token at least.
abbrev Past : Cursor → Option (Attribute × Cursor) → Type 0
Past c none = Unit
Past c (some r) = left_over r.1 < left_over c

past : (c c' : Cursor) (o : Option (Attribute × Cursor)) → Before c c' → Within c' o → Past c o
past c c' none b w = tt
past c c' (some r) b w = omega arith

within : (c c' : Cursor) (o : Option (Attribute × Cursor)) → AtMost c c' → Within c' o → Within c o
within c c' none b w = tt
within c c' (some r) b w = omega arith

read_property-Ends : (a : Attribute) (c : Cursor) → Ends (Past c) (read_property a c)
unfolding read_property
read_property-Ends a c =
    bind-Ends (Past c) Anything (current_is_operator (SqlOperators.not_op ∷ []) c) _
      (current_is_operator-Ends c (SqlOperators.not_op ∷ []))
      (λ negated d.
        either-Ends (Past c) negated _ _
          (bind-Ends (Past c) (Before c) (check_one c) _ (check_one-Ends c) (λ c1 b1.
            bind-Ends (Past c) (Before c1) (check_keyword SqlKeywords.null_kw c1) _
              (check_keyword-Ends c1 SqlKeywords.null_kw) (λ c2 b2. omega arith)))
          (bind-Ends (Past c) (Read c) (consume_keyword c) _ (consume_keyword-Ends c) (λ k b.
            weaken-Ends (Past c) (Within k.1) (set_property k.0 a k.1) (set_property-Ends k.0 a k.1)
              (λ o w. past c k.1 o b w))))

read_properties-Ends :
    (fuel : ℕ) (a : Attribute) (c : Cursor)
    → left_over c < fuel
    → Ends (Within c) (read_properties fuel a c)
unfolding read_properties
read_properties-Ends zero a c enough = absurd (omega arith)
read_properties-Ends (suc fuel) a c enough =
    bind-Ends (Within c) Anything (current_is_char 44 c) _ (current_is_char-Ends c 44) (λ comma d1.
      either-Ends (Within c) comma _ _ (omega arith) (
        bind-Ends (Within c) Anything (current_is_char 41 c) _ (current_is_char-Ends c 41)
          (λ closed d2. either-Ends (Within c) closed _ _ (omega arith) (
            bind-Ends (Within c) (Past c) (read_property a c) _ (read_property-Ends a c) (λ read p.
              maybe-Ends (Within c) read _ _ tt (λ next e.
                let b : left_over next.1 < left_over c = subst (Past c) e p in
                weaken-Ends (Within c) (Within next.1) (read_properties fuel next.0 next.1)
                  (read_properties-Ends fuel next.0 next.1 (omega arith))
                  (λ o w. within c next.1 o (omega arith) w)))))))

skip_size-Ends : (ty : DataTypes) (c : Cursor) → Ends (AtMost c) (skip_size ty c)
unfolding skip_size
skip_size-Ends DataTypes.varchar_type c =
    bind-Ends (AtMost c) (Before c) (check_string (codes "(") c) _ (check_string-Ends c (codes "("))
      (λ c1 b1. bind-Ends (AtMost c) (Read c1) (consume_int c1) _ (consume_int-Ends c1) (λ size b2.
        weaken-Ends (AtMost c) (Before size.1) (check_string (codes ")") size.1)
          (check_string-Ends size.1 (codes ")")) (λ c3 b3. omega arith)))
skip_size-Ends _ c = omega arith

finish_column-Ends :
    (fuel : ℕ) (name : Str) (ty : DataTypes) (c : Cursor)
    → left_over c < fuel
    → Ends (Within c) (finish_column fuel name ty c)
unfolding finish_column
finish_column-Ends fuel name DataTypes.null_type c enough = tt
finish_column-Ends fuel name ty c enough = read_properties-Ends fuel _ c enough

read_column-Ends : (fuel : ℕ) (c : Cursor) → left_over c ≤ fuel → Ends (Past c) (read_column fuel c)
unfolding read_column
read_column-Ends fuel c enough =
    bind-Ends (Past c) (Read c) (consume_string c) _ (consume_string-Ends c) (λ name b1.
      bind-Ends (Past c) (Read name.1) (consume_string name.1) _ (consume_string-Ends name.1)
        (λ ty b2.
          let data_type = covert_string_to_data_type ty.0 in
          bind-Ends (Past c) (AtMost ty.1) (skip_size data_type ty.1) _
            (skip_size-Ends data_type ty.1)
            (λ c3 b3.
              weaken-Ends (Past c) (Within c3) (finish_column fuel name.0 data_type c3)
                (finish_column-Ends fuel name.0 data_type c3 (omega arith))
                (λ o w. past c c3 o (omega arith) w))))

read_foreign_key-Ends : (c : Cursor) → Ends (Read c) (read_foreign_key c)
unfolding read_foreign_key
read_foreign_key-Ends c =
    bind-Ends (Read c) (Before c) (check_keyword SqlKeywords.foreign_kw c) _
      (check_keyword-Ends c SqlKeywords.foreign_kw)
      (λ c1 b1.
        bind-Ends (Read c) (Before c1) (check_keyword SqlKeywords.key_kw c1) _
          (check_keyword-Ends c1 SqlKeywords.key_kw)
          (λ c2 b2.
            bind-Ends (Read c) (Before c2) (check_string (codes "(") c2) _
              (check_string-Ends c2 (codes "("))
              (λ c3 b3.
                bind-Ends (Read c) (Read c3) (consume_string c3) _ (consume_string-Ends c3)
                  (λ name b4.
                    bind-Ends (Read c) (Before name.1) (check_string (codes ")") name.1) _
                      (check_string-Ends name.1 (codes ")"))
                      (λ c5 b5.
                        bind-Ends (Read c) (Before c5) (check_keyword SqlKeywords.references_kw c5)
                          _ (check_keyword-Ends c5 SqlKeywords.references_kw)
                          (λ c6 b6.
                            bind-Ends (Read c) (Read c6) (consume_string c6) _
                              (consume_string-Ends c6)
                              (λ entity b7.
                                bind-Ends (Read c) (Before entity.1)
                                  (check_string (codes "(") entity.1) _
                                  (check_string-Ends entity.1 (codes "("))
                                  (λ c8 b8.
                                    bind-Ends (Read c) (Read c8) (consume_string c8) _
                                      (consume_string-Ends c8)
                                      (λ attribute b9.
                                        bind-Ends (Read c) (Before attribute.1)
                                          (check_string (codes ")") attribute.1) _
                                          (check_string-Ends attribute.1 (codes ")"))
                                          (λ c10 b10. omega arith))))))))))

set_references-Ends : (keys : List ForeignKey) (e : Entity) → Ends Anything (set_references keys e)
unfolding set_references
set_references-Ends [] e = tt
set_references-Ends (key ∷ keys) e =
    maybe-Ends Anything (get_attribute key.0 e.attributes) _ _ tt
      (λ a found. set_references-Ends keys _)

read_item-Ends :
    (fuel : ℕ) (s : Columns) → left_over s.cursor ≤ fuel → Ends (Moved s) (read_item fuel s)
unfolding read_item
read_item-Ends fuel s enough =
    bind-Ends (Moved s) Anything (current_is_keyword SqlKeywords.foreign_kw s.cursor) _
      (current_is_keyword-Ends s.cursor SqlKeywords.foreign_kw)
      (λ foreign d.
        either-Ends (Moved s) foreign _ _
          (bind-Ends (Moved s) (Read s.cursor) (read_foreign_key s.cursor) _
            (read_foreign_key-Ends s.cursor) (λ r b. b))
          (bind-Ends (Moved s) (Past s.cursor) (read_column fuel s.cursor) _
            (read_column-Ends fuel s.cursor enough)
            (λ column p.
              maybe-Ends (Moved s) column _ _ tt (λ found e. subst (Past s.cursor) e p))))

read_items-Ends :
    (fuel : ℕ) (s : Columns) → left_over s.cursor < fuel → Ends Anything (read_items fuel s)
unfolding read_items
read_items-Ends zero s enough = absurd (omega arith)
read_items-Ends (suc fuel) s enough =
    bind-Ends Anything Anything (current_is_char 41 s.cursor) _ (current_is_char-Ends s.cursor 41)
      (λ closed d1. either-Ends Anything closed _ _ tt (
        bind-Ends Anything (Moved s) (read_item fuel s) _ (read_item-Ends fuel s (omega arith))
          (λ read m. maybe-Ends Anything read _ _ tt (λ s' e.
            let b : left_over s'.cursor < left_over s.cursor = subst (Moved s) e m in
            bind-Ends Anything Anything (current_is_char 41 s'.cursor) _
              (current_is_char-Ends s'.cursor 41)
              (λ last d2. either-Ends Anything last _ _ tt (
                bind-Ends Anything (Before s'.cursor) (check_string (codes ",") s'.cursor) _
                  (check_string-Ends s'.cursor (codes ","))
                  (λ c b'. read_items-Ends fuel (record s' { cursor = c }) (omega arith))))))))

finish_table-Ends : (s : Columns) → Ends Anything (finish_table s)
finish_table-Ends s =
    bind-Ends Anything (Before s.cursor) (check_string (codes ")") s.cursor) _
      (check_string-Ends s.cursor (codes ")"))
      (λ c b.
        bind-Ends Anything Anything (end_by (codes ";") c) _ (end_by-Ends c (codes ";")) (λ u d1.
          bind-Ends Anything Anything (set_references s.foreign_keys s.entity) _
            (set_references-Ends s.foreign_keys s.entity) (λ entity d2. tt)))

pub create_entity_statement-Ends :
    (fuel : ℕ) (c : Cursor) → left_over c ≤ fuel → Ends Anything (create_entity_statement fuel c)
unfolding create_entity_statement
create_entity_statement-Ends fuel c enough = keyword-Ends SqlKeywords.create_kw c _ (λ c1 b1.
    keyword-Ends SqlKeywords.table_kw c1 _ (λ c2 b2. string-Ends c2 _ (λ name b3.
      bind-Ends Anything (Before name.1) (check_string (codes "(") name.1) _
        (check_string-Ends name.1 (codes "("))
        (λ c4 b4.
          let s : Columns = record { entity = new_entity name.0; foreign_keys = []; cursor = c4 } in
          bind-Ends Anything Anything (read_items fuel s) _ (read_items-Ends fuel s (omega arith))
            (λ read d. maybe-Ends Anything read _ _ tt (λ t e. finish_table-Ends t))))))
