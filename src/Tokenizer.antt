-- ===== src/Tokenizer.antt =====
-- core/controller/tokenizer: the scanner and the tokenizer. A stream is its bytes and its end flag,
-- which `peek` and `get` set at the end; the byte they give there is `(char) EOF`.
pub mod Keywords
pub mod Terminates
pub mod Cursor
pub mod Rests
pub mod Ends
use csql.Base.{
  ℕ, zero, suc, ◌+◌, ◌-◌, ◌≡◌, Bool, true, false, not, ◌&&◌, ◌||◌, Option, none, some, List, [],
  ◌∷◌, ◌++◌, map, ltb, leb, ◌==◌, if◌then◌else◌, length, get_elem?, Str, codes, str_eq,
}
use csql.Base.Assoc.{lookup, mem, nat_eq, str_eq_instance}
use csql.Base.Result.{Result, ok, err, errors, no_fuel, undefined, ◌>>=◌, ◌>>◌, guard, or_fail}
use csql.Tokenizer.Keywords.{
  SqlKeywords, SqlFunctions, SqlOperators, sql_keywords, sql_functions, sql_aggregate_functions,
  sql_operators,
}

pub data TokenType : Type 0 where
  statement identifier keyword number operators timedate punctuation string function unknown :
      TokenType

pub record Token : Type 0 where
  pub token_type : TokenType
  pub keyword : SqlKeywords
  pub op : SqlOperators
  pub function : SqlFunctions
  pub data_of : Str

-- `std::istream` as far as the scanner uses it.
pub record Stream : Type 0 where
  pub rest : Str
  pub eof : Bool

-- `(char) EOF`
abbrev pub eof_char : ℕ
eof_char = 255

-- `peek` and `get`: the byte, and the stream after.
abbrev pub peek_char : Stream → ℕ × Stream
peek_char s = elim s.rest [ [] ↦ (eof_char, record s { eof = true }) | c ∷ cs ↦ (c, s) ]

abbrev pub get_char : Stream → ℕ × Stream
get_char s = elim s.rest [
  | [] ↦ (eof_char, record s { eof = true })
  | c ∷ cs ↦ (c, record s { rest = cs })
]

-- `strchr` also finds the zero byte that ends its string.
abbrev pub strchr : Str → ℕ → Bool
strchr s c = c == 0 || mem c s

abbrev pub is_digit : ℕ → Bool
is_digit c = leb 48 c && leb c 57

abbrev pub is_letter : ℕ → Bool
is_letter c = (leb 65 c && leb c 90) || (leb 97 c && leb c 122)

-- Tab, newline, carriage return and backspace are 9, 10, 13 and 8.
unfoldable pub is_whitespace : ℕ → Bool
unfolding mem
is_whitespace c = strchr (32 ∷ 9 ∷ 10 ∷ 13 ∷ 8 ∷ []) c

unfoldable pub is_number : ℕ → Bool
is_number c = is_digit c || 46 == c

unfoldable pub is_quote : ℕ → Bool
is_quote c = 39 == c || 34 == c

unfoldable pub is_operator : ℕ → Bool
unfolding mem
is_operator c = strchr (codes "+-/*%=>!<.") c

unfoldable pub is_punctuation : ℕ → Bool
unfolding mem
is_punctuation c = strchr (codes "()[]{}:;,|") c

unfoldable pub is_alpha_num : ℕ → Bool
is_alpha_num c = is_letter c || is_digit c || 95 == c

abbrev pub to_lower : ℕ → ℕ
to_lower c = if leb 65 c && leb c 90 then c + 32 else c

-- `Scanner::read` before the end: at the end, `peek` sets the flag, and the loop goes round once
-- when the test holds of `(char) EOF`.
unfoldable pub read_bytes : (ℕ → Bool) → Str → Str × Stream
read_bytes test [] = (if test eof_char then eof_char ∷ [] else [], record { rest = []; eof = true })
read_bytes test (c ∷ cs) =
    let (more, s) = read_bytes test cs in
    if test c then (c ∷ more, s) else ([], record { rest = c ∷ cs; eof = false })

unfoldable pub read : (ℕ → Bool) → Stream → Str × Stream
unfolding read_bytes
read test s = if s.eof then ([], s) else read_bytes test s.rest

unfoldable pub read_until_char : ℕ → Stream → Str × Stream
unfolding read
read_until_char c s = read (λ a. not (c == a)) s

-- `skip` is the loop of `read` without its string.
unfoldable pub skip : (ℕ → Bool) → Stream → Stream
unfolding read
skip test s = (read test s).1

unfoldable pub skip_if_char : ℕ → Stream → Bool × Stream
skip_if_char c s =
    let (a, s') = peek_char s in
    if s.eof then (false, s) else if a == c then (true, (get_char s').1) else (false, s')

abbrev pub plain_token : TokenType → Str → Token
plain_token k theData = record {
  token_type = k;
  keyword = SqlKeywords.unkonwn_kw;
  op = SqlOperators.unknown_op;
  function = SqlFunctions.unknown_ft;
  data_of = theData;
}

unfoldable pub count : ℕ → Str → ℕ
count c [] = 0
count c (x ∷ xs) = (if x == c then 1 else 0) + count c xs

abbrev pub last_or : ℕ → Str → ℕ
last_or c [] = c
last_or c (x ∷ xs) = last_or x xs

-- The checks on a number: a point at its beginning, at its end, or twice.
unfoldable pub bad_number : Str → Bool
unfolding count
bad_number [] = false
bad_number (c ∷ cs) = c == 46 || last_or c cs == 46 || ltb 1 (count 46 (c ∷ cs))

-- The word read in the last branch, by its lower case.
unfoldable pub word_token : Str → Token
unfolding lookup
word_token theData =
    let low = map to_lower theData in
    elim (lookup low sql_keywords) [
      | some k ↦ record (plain_token TokenType.keyword theData) { keyword = k }
      | none ↦ elim (lookup low sql_operators) [
        | some o ↦ record (plain_token TokenType.operators theData) { op = o }
        | none ↦ elim (lookup low sql_functions) [
          | some g ↦ record (plain_token TokenType.function theData) { function = g }
          | none ↦ elim (lookup low sql_aggregate_functions) [
            | some g ↦ record (plain_token TokenType.function theData) { function = g }
            | none ↦ plain_token TokenType.identifier theData
          ]
        ]
      ]
    ]

-- The branches of the loop of `tokenize`.
unfoldable pub lex_number : Stream → Result (Stream × List Token)
unfolding is_number read bad_number
lex_number s =
    let (theData, s') = read is_number s in
    if bad_number theData
    then err (errors (codes "Invalid number"))
    else ok (s', plain_token TokenType.number theData ∷ [])

unfoldable pub lex_string : Stream → Result (Stream × List Token)
unfolding read_until_char skip_if_char
lex_string s =
    let (theQuote, opened) = get_char s in
    let (theData, s') = read_until_char theQuote opened in
    let (closed, s'') = skip_if_char theQuote s' in
    if closed
    then ok (s'', plain_token TokenType.string theData ∷ [])
    else err (errors (codes "Invalid quote"))

unfoldable pub lex_punctuation : Stream → Result (Stream × List Token)
lex_punctuation s =
    let (c, s') = get_char s in ok (s', plain_token TokenType.punctuation (c ∷ []) ∷ [])

unfoldable pub lex_operator : Stream → Result (Stream × List Token)
unfolding is_operator read lookup
lex_operator s =
    let (theData, s') = read is_operator s in
    or_fail (lookup theData sql_operators) (errors (codes "Invalid operator"))
    >>= (λ o. ok (s', record (plain_token TokenType.operators theData) { op = o } ∷ []))

unfoldable pub lex_word : Stream → Result (Stream × List Token)
unfolding is_alpha_num read word_token
lex_word s = let (theData, s') = read is_alpha_num s in ok (s', word_token theData ∷ [])

-- One round of the loop of `tokenize` at `theChar`: the stream after, and the token made.
unfoldable pub lex : ℕ → Stream → Result (Stream × List Token)
unfolding is_whitespace is_quote is_operator is_punctuation skip lex_number lex_string
    lex_punctuation lex_operator lex_word
lex theChar s =
    if is_whitespace theChar
    then ok (skip is_whitespace s, [])
    else if is_digit theChar
    then lex_number s
    else if is_quote theChar
    then lex_string s
    else if is_punctuation theChar
    then lex_punctuation s
    else if is_operator theChar
    then lex_operator s
    else lex_word s

unfoldable pub tokenize_loop : ℕ → Stream → List Token → Result (List Token)
unfolding lex
tokenize_loop zero s tokens = err no_fuel
tokenize_loop (suc fuel) s tokens =
    if s.eof
    then ok tokens
    else let (theChar, s') = peek_char s in
      lex theChar s' >>= (λ (s'', made). tokenize_loop fuel s'' (tokens ++ made))

-- `tokens.pop_back()` while the last token is empty.
unfoldable pub drop_empty : List Token → List Token
drop_empty [] = []
drop_empty (t ∷ ts) = elim (drop_empty ts) [
  | [] ↦ if str_eq t.data_of [] then [] else t ∷ []
  | u ∷ us ↦ t ∷ u ∷ us
]

-- Each round but the last takes a byte or ends the stream: two more than the bytes are enough.
unfoldable pub tokenize_with : ℕ → Str → Result (List Token)
unfolding tokenize_loop drop_empty
tokenize_with fuel text = do
  tokens ← tokenize_loop fuel (record { rest = text; eof = false }) []
  ok (drop_empty tokens)

unfoldable pub tokenize : Str → Result (List Token)
unfolding tokenize_with
tokenize text = tokenize_with (length text + 2) text
