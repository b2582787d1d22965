-- ===== src/Tokenizer/Ends.antt =====
-- core/controller/tokenizer: how far each move brings the cursor.
use csql.Base.{
  ℕ, zero, suc, ◌-◌, ◌<◌, ◌≡◌, Bool, Option, none, some, List, [], ◌∷◌, get_elem?, length, drop,
  ltb, arith, Str, str_eq, codes,
}
use csql.Base.Result.{ok, or_fail, invalid_argument}
use csql.Base.Ends.{Ends, Anything, bind-Ends, weaken-Ends, either-Ends, or_fail-Ends, if-Ends}
use csql.Convert.{stoi}
use csql.Tokenizer.{TokenType, Token}
use csql.Tokenizer.Keywords.{SqlKeywords, SqlOperators}
use csql.Tokenizer.Cursor.{
  Cursor, peek, get, advance, check_one, check_that, check_keyword, check_operator, check_string,
  end_by, string_until, get_string_until, current_is_type, current_is_operator, current_is_keyword,
  current_is_char, consume_string, consume_keyword, consume_int, consume_function,
  consume_attribute, has_type, unexpected,
}

-- The tokens left.
abbrev pub left_over : Cursor → ℕ
left_over c = length c.tokens - c.at

get_elem?-bound {ℓ} :
    {A : Type ℓ} (xs : List A) (i : ℕ) (a : A) → get_elem? xs i ≡ some a → i < length xs
get_elem?-bound [] i a h = absurd cc
get_elem?-bound (x ∷ xs) zero a h = omega arith
get_elem?-bound (x ∷ xs) (suc i) a h = omega (arith, get_elem?-bound xs i a h)

abbrev pub Before : Cursor → Cursor → Type 0
Before c c' = left_over c' < left_over c

abbrev pub Read {ℓ} : {V : Type ℓ} → Cursor → V × Cursor → Type 0
Read c r = left_over r.1 < left_over c

looks : (c : Cursor) → Ends (λ t. Before c (advance c)) (peek c)
unfolding peek
looks c =
    or_fail-Ends (λ t. Before c (advance c)) (get_elem? c.tokens c.at) _ tt
      (λ t h. let here : c.at < length c.tokens = get_elem?-bound c.tokens c.at t h in omega arith)

module _ (c : Cursor) where
  pub peek-Ends : Ends Anything (peek c)
  peek-Ends = weaken-Ends Anything (λ t. Before c (advance c)) (peek c) (looks c) (λ t b. tt)

  pub check_one-Ends : Ends (Before c) (check_one c)
  unfolding check_one
  check_one-Ends = bind-Ends (Before c) (λ t. Before c (advance c)) (peek c) _ (looks c) (λ t b. b)

  pub get-Ends : Ends (Read c) (get c)
  unfolding get
  get-Ends =
      bind-Ends (Read c) Anything (peek c) _ peek-Ends
        (λ t b. bind-Ends (Read c) (Before c) (check_one c) _ check_one-Ends (λ c' b'. b'))

  check_that-Ends : (test : Token → Bool) → Ends (Before c) (check_that test c)
  check_that-Ends test =
      bind-Ends (Before c) (λ t. Before c (advance c)) (peek c) _ (looks c)
        (λ t b. if-Ends (Before c) (test t) (ok (advance c)) (unexpected t) b tt)

  pub check_keyword-Ends : (k : SqlKeywords) → Ends (Before c) (check_keyword k c)
  unfolding check_keyword
  check_keyword-Ends k = check_that-Ends _

  pub check_operator-Ends : (o : SqlOperators) → Ends (Before c) (check_operator o c)
  unfolding check_operator
  check_operator-Ends o = check_that-Ends _

  pub check_string-Ends : (s : Str) → Ends (Before c) (check_string s c)
  unfolding check_string
  check_string-Ends s = check_that-Ends _

  pub end_by-Ends : (s : Str) → Ends Anything (end_by s c)
  unfolding end_by
  end_by-Ends s = bind-Ends Anything (Before c) (check_string s c) _ (check_string-Ends s) (λ c' b.
      if-Ends Anything (ltb c'.at (length c'.tokens)) _ (ok tt)
        (bind-Ends Anything Anything (peek c') _
          (weaken-Ends Anything (λ t. Before c' (advance c')) (peek c') (looks c') (λ t d. tt))
          (λ t d. tt))
        tt)

  pub current_is_type-Ends : (ty : TokenType) → Ends Anything (current_is_type ty c)
  unfolding current_is_type
  current_is_type-Ends ty = bind-Ends Anything Anything (peek c) _ peek-Ends (λ t b. tt)

  pub current_is_operator-Ends : (os : List SqlOperators) → Ends Anything (current_is_operator os c)
  unfolding current_is_operator
  current_is_operator-Ends os = bind-Ends Anything Anything (peek c) _ peek-Ends (λ t b. tt)

  pub current_is_keyword-Ends : (k : SqlKeywords) → Ends Anything (current_is_keyword k c)
  unfolding current_is_keyword
  current_is_keyword-Ends k = bind-Ends Anything Anything (peek c) _ peek-Ends (λ t b. tt)

  pub current_is_char-Ends : (b : ℕ) → Ends Anything (current_is_char b c)
  unfolding current_is_char
  current_is_char-Ends b = bind-Ends Anything Anything (peek c) _ peek-Ends (λ t d. tt)

  pub consume_string-Ends : Ends (Read c) (consume_string c)
  unfolding consume_string
  consume_string-Ends =
      bind-Ends (Read c) (λ t. Before c (advance c)) (peek c) _ (looks c) (λ t b. b)

  pub consume_keyword-Ends : Ends (Read c) (consume_keyword c)
  unfolding consume_keyword
  consume_keyword-Ends =
      bind-Ends (Read c) (λ t. Before c (advance c)) (peek c) _ (looks c)
        (λ t b. if-Ends (Read c) (has_type TokenType.keyword t) _ _ b tt)

  pub consume_function-Ends : Ends (Read c) (consume_function c)
  unfolding consume_function
  consume_function-Ends =
      bind-Ends (Read c) (λ t. Before c (advance c)) (peek c) _ (looks c)
        (λ t b. if-Ends (Read c) (has_type TokenType.function t) _ _ b tt)

  pub consume_int-Ends : Ends (Read c) (consume_int c)
  unfolding consume_int
  consume_int-Ends =
      bind-Ends (Read c) (λ t. Before c (advance c)) (peek c) _ (looks c)
        (λ t b.
          if-Ends (Read c) (has_type TokenType.number t) _ _
            (bind-Ends (Read c) Anything (or_fail (stoi t.data_of) invalid_argument) _
              (or_fail-Ends Anything (stoi t.data_of) invalid_argument tt (λ z e. tt)) (λ z d. b))
            tt)

abbrev pub ReadName : Cursor → Option (Str × Str × Cursor) → Type 0
ReadName c none = Unit
ReadName c (some found) = left_over found.2 < left_over c

pub consume_attribute-Ends : (c : Cursor) → Ends (ReadName c) (consume_attribute c)
unfolding consume_attribute
consume_attribute-Ends c = bind-Ends (ReadName c) Anything (peek c) _ (peek-Ends c) (λ t b.
    either-Ends (ReadName c) (has_type TokenType.identifier t) _ _
      (bind-Ends (ReadName c) (Read c) (consume_string c) _ (consume_string-Ends c) (λ named n.
        bind-Ends (ReadName c) Anything (peek named.1) _ (peek-Ends named.1) (λ next d.
          either-Ends (ReadName c) (str_eq next.data_of (codes ".")) _ _
            (bind-Ends (ReadName c) (Before named.1) (check_one named.1) _ (check_one-Ends named.1)
              (λ c2 b2.
                bind-Ends (ReadName c) (Read c2) (consume_string c2) _ (consume_string-Ends c2)
                  (λ found b3. omega arith)))
            n)))
      tt)

string_until-Ends : (s : Str) (ts : List Token) → Ends Anything (string_until s ts)
unfolding string_until
string_until-Ends s [] = tt
string_until-Ends s (t ∷ ts) =
    if-Ends Anything (str_eq t.data_of s) _ _ tt
      (bind-Ends Anything Anything (string_until s ts) _ (string_until-Ends s ts) (λ more b. tt))

pub get_string_until-Ends : (s : Str) (c : Cursor) → Ends Anything (get_string_until s c)
unfolding get_string_until
get_string_until-Ends s c = string_until-Ends s (drop c.at c.tokens)
