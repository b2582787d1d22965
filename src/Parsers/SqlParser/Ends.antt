-- ===== src/Parsers/SqlParser/Ends.antt =====
-- The statements of core/controller/parsers/sql_parser that describe, drop and fill a table end.
use csql.Base.{ℕ, zero, suc, ◌<◌, ◌≤◌, [], arith, Str, codes}
use csql.Base.Result.{Result, ok, ◌>>=◌}
use csql.Base.Ends.{Ends, Anything, bind-Ends, either-Ends, if-Ends}
use csql.Tokenizer.Keywords.{SqlKeywords}
use csql.Tokenizer.Cursor.{
  Cursor, check_keyword, check_string, consume_string, current_is_char, end_by,
}
use csql.Tokenizer.Ends.{
  left_over, Before, Read, check_keyword-Ends, check_string-Ends, consume_string-Ends,
  current_is_char-Ends, end_by-Ends,
}
use csql.Parsers.ExpressionParser.Steps.{ReadAtMost}
use csql.Parsers.SqlParser.{
  describe_entity_statement, drop_entity_statement, list_strings, get_list_string, read_names,
  insert_statement,
}

-- A keyword at the front of a statement, or further on.
pub keyword-Ends {ℓ} :
    {V : Type ℓ} (k : SqlKeywords) (c : Cursor) (after : Cursor → Result V)
    → ((c' : Cursor) → Before c c' → Ends Anything (after c'))
    → Ends Anything (check_keyword k c >>= after)
keyword-Ends k c after each =
    bind-Ends Anything (Before c) (check_keyword k c) after (check_keyword-Ends c k) each

pub string-Ends {ℓ} :
    {V : Type ℓ} (c : Cursor) (after : Str × Cursor → Result V)
    → ((r : Str × Cursor) → Read c r → Ends Anything (after r))
    → Ends Anything (consume_string c >>= after)
string-Ends c after each =
    bind-Ends Anything (Read c) (consume_string c) after (consume_string-Ends c) each

pub end-Ends {ℓ} :
    {V : Type ℓ} (c : Cursor) (v : V) → Ends Anything (end_by (codes ";") c >>= λ done. ok v)
end-Ends c v =
    bind-Ends Anything Anything (end_by (codes ";") c) _ (end_by-Ends c (codes ";")) (λ u d. tt)

pub describe_entity_statement-Ends : (c : Cursor) → Ends Anything (describe_entity_statement c)
unfolding describe_entity_statement
describe_entity_statement-Ends c = keyword-Ends SqlKeywords.describe_kw c _ (λ c1 b1.
    keyword-Ends SqlKeywords.table_kw c1 _ (λ c2 b2. string-Ends c2 _ (λ r b3. end-Ends r.1 _)))

pub drop_entity_statement-Ends : (c : Cursor) → Ends Anything (drop_entity_statement c)
unfolding drop_entity_statement
drop_entity_statement-Ends c = keyword-Ends SqlKeywords.drop_kw c _ (λ c1 b1.
    keyword-Ends SqlKeywords.table_kw c1 _ (λ c2 b2. string-Ends c2 _ (λ r b3. end-Ends r.1 _)))

list_strings-Ends :
    (fuel : ℕ) (c : Cursor) → left_over c < fuel → Ends (ReadAtMost c) (list_strings fuel c)
unfolding list_strings
list_strings-Ends zero c enough = absurd (omega arith)
list_strings-Ends (suc fuel) c enough =
    bind-Ends (ReadAtMost c) Anything (current_is_char 41 c) _ (current_is_char-Ends c 41)
      (λ closed d. either-Ends (ReadAtMost c) closed _ _ (omega arith) (
        bind-Ends (ReadAtMost c) (Read c) (consume_string c) _ (consume_string-Ends c) (λ name b1.
          bind-Ends (ReadAtMost c) Anything (current_is_char 41 name.1) _
            (current_is_char-Ends name.1 41)
            (λ last d2. either-Ends (ReadAtMost c) last _ _ (omega arith) (
              bind-Ends (ReadAtMost c) (Before name.1) (check_string (codes ",") name.1) _
                (check_string-Ends name.1 (codes ","))
                (λ c2 b2.
                  bind-Ends (ReadAtMost c) (ReadAtMost c2) (list_strings fuel c2) _
                    (list_strings-Ends fuel c2 (omega arith)) (λ r b3. omega arith)))))))

get_list_string-Ends :
    (fuel : ℕ) (c : Cursor) → left_over c ≤ fuel → Ends (ReadAtMost c) (get_list_string fuel c)
unfolding get_list_string
get_list_string-Ends fuel c enough =
    bind-Ends (ReadAtMost c) (Before c) (check_string (codes "(") c) _
      (check_string-Ends c (codes "("))
      (λ c1 b1.
        bind-Ends (ReadAtMost c) (ReadAtMost c1) (list_strings fuel c1) _
          (list_strings-Ends fuel c1 (omega arith))
          (λ r b2.
            bind-Ends (ReadAtMost c) (Before r.1) (check_string (codes ")") r.1) _
              (check_string-Ends r.1 (codes ")")) (λ c3 b3. omega arith)))

read_names-Ends :
    (fuel : ℕ) (c : Cursor) → left_over c ≤ fuel → Ends (ReadAtMost c) (read_names fuel c)
unfolding read_names
read_names-Ends fuel c enough =
    bind-Ends (ReadAtMost c) Anything (current_is_char 40 c) _ (current_is_char-Ends c 40)
      (λ named d.
        if-Ends (ReadAtMost c) named _ (ok ([], c)) (get_list_string-Ends fuel c enough)
          (omega arith))

pub insert_statement-Ends :
    (fuel : ℕ) (c : Cursor) → left_over c ≤ fuel → Ends Anything (insert_statement fuel c)
unfolding insert_statement
insert_statement-Ends fuel c enough = keyword-Ends SqlKeywords.insert_kw c _ (λ c1 b1.
    keyword-Ends SqlKeywords.into_kw c1 _ (λ c2 b2. string-Ends c2 _ (λ entity b3.
      bind-Ends Anything (ReadAtMost entity.1) (read_names fuel entity.1) _
        (read_names-Ends fuel entity.1 (omega arith))
        (λ names b4. keyword-Ends SqlKeywords.values_kw names.1 _ (λ c5 b5.
          bind-Ends Anything (ReadAtMost c5) (get_list_string fuel c5) _
            (get_list_string-Ends fuel c5 (omega arith)) (λ values b6. end-Ends values.1 _))))))
