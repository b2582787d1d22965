-- ===== src/Parsers/SqlParser/Lists.antt =====
-- How core/controller/parsers/sql_parser reads a list in parentheses, and INSERT with its lists.
use csql.Base.{ℕ, zero, suc, ◌<◌, ◌≡◌, refl, false, List, [], ◌∷◌, map, length, arith, Str, codes}
use csql.Base.Result.{ok}
use csql.Tokenizer.{TokenType, Token}
use csql.Tokenizer.Keywords.{SqlKeywords, SqlFunctions, SqlOperators}
use csql.Tokenizer.Cursor.{Cursor, advance, has_type, current_is_char}
use csql.Tokenizer.Rests.{
  Rests, advance-Rests, consume_string-Rests, check_string-Rests, current_is_char-Rests,
}
use csql.Parsers.SqlParser.{list_strings, get_list_string}

-- The tokens of keywords and of punctuation; a keyword is spelled as the user likes.
abbrev pub keyword_token : SqlKeywords → Str → Token
keyword_token k d = record {
  token_type = TokenType.keyword;
  keyword = k;
  op = SqlOperators.unknown_op;
  function = SqlFunctions.unknown_ft;
  data_of = d;
}

abbrev pub mark : Str → Token
mark d = record {
  token_type = TokenType.punctuation;
  keyword = SqlKeywords.unkonwn_kw;
  op = SqlOperators.unknown_op;
  function = SqlFunctions.unknown_ft;
  data_of = d;
}

abbrev pub data_of_token : Token → Str
data_of_token t = t.data_of

abbrev pub AreValues : List Token → Type 0
AreValues [] = Unit {0}
AreValues (v ∷ vs) = (has_type TokenType.punctuation v ≡ false) × AreValues vs

-- The values with commas between them, and what follows.
abbrev pub print_items : List Token → List Token → List Token
print_items [] rest = rest
print_items (v ∷ []) rest = v ∷ rest
print_items (v ∷ w ∷ vs) rest = v ∷ mark (codes ",") ∷ print_items (w ∷ vs) rest

abbrev pub print_list : List Token → List Token → List Token
print_list vs rest = mark (codes "(") ∷ print_items vs (mark (codes ")") ∷ rest)

list_strings-print :
    (fuel : ℕ) (vs rest : List Token) (c : Cursor)
    → length vs < fuel
    → AreValues vs
    → Rests c (print_items vs (mark (codes ")") ∷ rest))
    → (c' : Cursor) × (list_strings fuel c ≡ ok (map data_of_token vs, c'))
      × Rests c' (mark (codes ")") ∷ rest)
unfolding list_strings
list_strings-print zero vs rest c enough are h = absurd (omega arith)
list_strings-print (suc fuel) [] rest c enough are h =
    let closed = current_is_char-Rests c (mark (codes ")")) rest h 41 in (c, rw closed refl, h)
list_strings-print (suc fuel) (v ∷ []) rest c enough are h =
    let h1 = advance-Rests c v (mark (codes ")") ∷ rest) h in
    let opens : current_is_char 41 c ≡ ok false =
      rw (current_is_char-Rests c v (mark (codes ")") ∷ rest) h 41, are.0) refl in
    let closed = current_is_char-Rests (advance c) (mark (codes ")")) rest h1 41 in
    let read = consume_string-Rests c v (mark (codes ")") ∷ rest) h in
    (advance c, rw (opens, read, closed) refl, h1)
list_strings-print (suc fuel) (v ∷ w ∷ vs) rest c enough are h =
    let after = print_items (w ∷ vs) (mark (codes ")") ∷ rest) in
    let h1 = advance-Rests c v (mark (codes ",") ∷ after) h in
    let h2 = advance-Rests (advance c) (mark (codes ",")) after h1 in
    let opens : current_is_char 41 c ≡ ok false =
      rw (current_is_char-Rests c v (mark (codes ",") ∷ after) h 41, are.0) refl in
    let goes_on = current_is_char-Rests (advance c) (mark (codes ",")) after h1 41 in
    let read = consume_string-Rests c v (mark (codes ",") ∷ after) h in
    let comma = check_string-Rests (advance c) (mark (codes ",")) after h1 (codes ",") refl in
    let (c', more, h') =
      list_strings-print fuel (w ∷ vs) rest (advance (advance c)) (omega arith) are.1 h2 in
    (c', rw (opens, read, goes_on, comma, more) refl, h')

pub get_list_string-print :
    (fuel : ℕ) (vs rest : List Token) (c : Cursor)
    → length vs < fuel
    → AreValues vs
    → Rests c (print_list vs rest)
    → (c' : Cursor) × (get_list_string fuel c ≡ ok (map data_of_token vs, c')) × Rests c' rest
unfolding get_list_string
get_list_string-print fuel vs rest c enough are h =
    let items = print_items vs (mark (codes ")") ∷ rest) in
    let opening = check_string-Rests c (mark (codes "(")) items h (codes "(") refl in
    let (c', read, h') =
      list_strings-print fuel vs rest (advance c) enough are
        (advance-Rests c (mark (codes "(")) items h) in
    let closing = check_string-Rests c' (mark (codes ")")) rest h' (codes ")") refl in
    (advance c', rw (opening, read, closing) refl, advance-Rests c' (mark (codes ")")) rest h')
