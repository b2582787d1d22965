-- ===== src/Tokenizer/Rests.antt =====
-- core/controller/tokenizer: the moves of the cursor by the tokens that are left.
use csql.Base.{
  ℕ, zero, suc, ◌+◌, ◌≡◌, refl, ap, ◌∙◌, true, false, ◌&&◌, some, List, [], ◌∷◌, ◌==◌, ◌-◌, sym,
  ltb, length, length-drop, get_elem?, drop, arith, Str, str_eq,
}
use csql.Base.Text.{str_eq_refl}
use csql.Base.Result.{ok}
use csql.Tokenizer.{TokenType, Token}
use csql.Tokenizer.Keywords.{SqlKeywords}
use csql.Tokenizer.Cursor.{
  Cursor, peek, advance, check_one, check_keyword, check_string, current_is_char, consume_string,
  has_type, first_byte, keyword_place, end_by,
}

get_elem?-drop {ℓ} :
    {A : Type ℓ} (i : ℕ) (xs : List A) (a : A) (rest : List A)
    → drop i xs ≡ a ∷ rest
    → (get_elem? xs i ≡ some a) × (drop (suc i) xs ≡ rest)
get_elem?-drop zero [] a rest h = cc
get_elem?-drop zero (x ∷ xs) a rest h = (cc, cc)
get_elem?-drop (suc i) [] a rest h = cc
get_elem?-drop (suc i) (x ∷ xs) a rest h = get_elem?-drop i xs a rest h

-- The tokens from the cursor on.
abbrev pub Rests : Cursor → List Token → Type 0
Rests c ts = drop c.at c.tokens ≡ ts

pub advance-Rests :
    (c : Cursor) (t : Token) (ts : List Token) → Rests c (t ∷ ts) → Rests (advance c) ts
advance-Rests c t ts h =
    let next : c.at + 1 ≡ suc c.at = omega arith in
    rw next ((get_elem?-drop c.at c.tokens t ts h).1)

pub peek-Rests : (c : Cursor) (t : Token) (ts : List Token) → Rests c (t ∷ ts) → peek c ≡ ok t
unfolding peek
peek-Rests c t ts h = rw ((get_elem?-drop c.at c.tokens t ts h).0) refl

-- What one token lets each move do.
module _ (c : Cursor) (t : Token) (ts : List Token) (h : Rests c (t ∷ ts)) where
  pub check_one-Rests : check_one c ≡ ok (advance c)
  unfolding check_one
  check_one-Rests = rw (peek-Rests c t ts h) refl

  pub consume_string-Rests : consume_string c ≡ ok (t.data_of, advance c)
  unfolding consume_string
  consume_string-Rests = rw (peek-Rests c t ts h) refl

  pub check_string-Rests : (s : Str) → t.data_of ≡ s → check_string s c ≡ ok (advance c)
  unfolding check_string
  check_string-Rests s e =
      let same : str_eq t.data_of s ≡ true = rw e (str_eq_refl s) in
      rw (peek-Rests c t ts h, same) refl

  pub current_is_char-Rests :
      (b : ℕ)
      → current_is_char b c ≡ ok (has_type TokenType.punctuation t && (first_byte t.data_of == b))
  unfolding current_is_char
  current_is_char-Rests b = rw (peek-Rests c t ts h) refl

  pub check_keyword-Rests :
      (k : SqlKeywords)
      → (has_type TokenType.keyword t && (keyword_place t.keyword == keyword_place k)) ≡ true
      → check_keyword k c ≡ ok (advance c)
  unfolding check_keyword
  check_keyword-Rests k e = rw (peek-Rests c t ts h, e) refl

-- The last token.
pub end_by-Rests :
    (c : Cursor) (t : Token) (s : Str) → Rests c (t ∷ []) → t.data_of ≡ s → end_by s c ≡ ok tt
unfolding end_by
end_by-Rests c t s h e =
    let left_over : length c.tokens - c.at ≡ 1 =
      sym (length-drop c.at c.tokens) ∙ ap (λ ts. length ts) h in
    let over : ltb (c.at + 1) (length c.tokens) ≡ false = ground arith in
    rw (check_string-Rests c t [] h s e, over) refl
