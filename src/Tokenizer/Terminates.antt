-- ===== src/Tokenizer/Terminates.antt =====
-- Which texts `Tokenizer::tokenize` of core/controller/tokenizer/tokenizer.cpp gets through.
use csql.Base.{
  ℕ, zero, suc, ◌+◌, ◌≤◌, ◌<◌, ◌≡◌, refl, sym, ap, ◌∙◌, Bool, true, false, not, ◌||◌, ◌⊎◌, inl, inr,
  Option, none, some, List, [], ◌∷◌, ◌++◌, arith, if◌then◌else◌, length, Str, codes, Bool-cases,
  ◌==◌,
}
use mathlib.Core.Path.{subst}
use csql.Base.Assoc.{lookup, str_eq_instance}
use csql.Base.Result.{Result, ok, err, errors, no_fuel, ◌>>=◌, or_fail}
use csql.Tokenizer.{
  Token, Stream, TokenType, eof_char, plain_token, is_digit, is_whitespace, is_number, is_quote,
  is_operator, is_punctuation, is_alpha_num, read_bytes, read, read_until_char, skip, skip_if_char,
  bad_number, word_token, lex, lex_number, lex_string, lex_punctuation, lex_operator, lex_word,
  tokenize_loop, tokenize_with, tokenize, drop_empty,
}
use csql.Tokenizer.Keywords.{SqlOperators, sql_operators}

-- A byte that some branch of `tokenize` reads.
unfoldable pub is_known : ℕ → Bool
is_known c =
    is_whitespace c
    || is_digit c
    || is_quote c
    || is_punctuation c
    || is_operator c
    || is_alpha_num c

abbrev pub AllKnown : Str → Type 0
AllKnown [] = Unit
AllKnown (c ∷ cs) = (is_known c ≡ true) × AllKnown cs

-- The rounds that a stream can still take.
abbrev rounds : Stream → ℕ
rounds s = if s.eof then 0 else suc (length s.rest)

-- A round returns a stream with fewer rounds left and known bytes, or throws.
data Outcome (n : ℕ) (r : Result (Stream × List Token)) : Type 0 where
  goes_on :
      (s : Stream) (made : List Token)
      → r ≡ ok (s, made)
      → rounds s < n
      → AllKnown s.rest
      → Outcome n r
  throws : (m : Str) → r ≡ err (errors m) → Outcome n r

read_bytes-rounds :
    (test : ℕ → Bool) (cs : Str)
    → AllKnown cs
    → (rounds (read_bytes test cs).1 ≤ suc (length cs)) × AllKnown (read_bytes test cs).1.rest
unfolding read_bytes
read_bytes-rounds test [] k = (omega arith, tt)
read_bytes-rounds test (c ∷ cs) k = elim (Bool-cases (test c)) [
  | inl taken ↦ let (a, b) = read_bytes-rounds test cs k.1 in rw taken (omega (arith, a), b)
  | inr left ↦ rw left (omega arith, k)
]

-- A read that takes its first byte.
read-rounds :
    (test : ℕ → Bool) (c : ℕ) (cs : Str)
    → test c ≡ true
    → AllKnown cs
    → (rounds (read test (record { rest = c ∷ cs; eof = false })).1 < suc (suc (length cs)))
      × AllKnown (read test (record { rest = c ∷ cs; eof = false })).1.rest
unfolding read read_bytes
read-rounds test c cs taken k =
    let (a, b) = read_bytes-rounds test cs k in rw taken (omega (arith, a), b)

if-Outcome :
    (n : ℕ) (b : Bool) (s : Stream) (made : List Token) (m : Str)
    → rounds s < n
    → AllKnown s.rest
    → Outcome n (if b then ok (s, made) else err (errors m))
if-Outcome n true s made m small k = goes_on s made refl small k
if-Outcome n false s made m small k = throws m refl

if_not-Outcome :
    (n : ℕ) (b : Bool) (s : Stream) (made : List Token) (m : Str)
    → rounds s < n
    → AllKnown s.rest
    → Outcome n (if b then err (errors m) else ok (s, made))
if_not-Outcome n false s made m small k = goes_on s made refl small k
if_not-Outcome n true s made m small k = throws m refl

skip_if_char-rounds :
    (q : ℕ) (cs : Str) (e : Bool)
    → AllKnown cs
    → (rounds (skip_if_char q (record { rest = cs; eof = e })).1
        ≤ rounds (record { rest = cs; eof = e }))
      × AllKnown (skip_if_char q (record { rest = cs; eof = e })).1.rest
unfolding skip_if_char
skip_if_char-rounds q [] true k = (omega arith, k)
skip_if_char-rounds q (c ∷ cs) true k = (omega arith, k)
skip_if_char-rounds q [] false k = elim (Bool-cases (eof_char == q)) [
  | inl same ↦ rw same (omega arith, tt)
  | inr other ↦ rw other (omega arith, tt)
]
skip_if_char-rounds q (c ∷ cs) false k = elim (Bool-cases (c == q)) [
  | inl same ↦ rw same (omega arith, k.1)
  | inr other ↦ rw other (omega arith, k)
]

lex_string-Outcome :
    (q : ℕ) (cs : Str)
    → AllKnown cs
    → Outcome (suc (suc (length cs))) (lex_string (record { rest = q ∷ cs; eof = false }))
unfolding lex_string read_until_char read
lex_string-Outcome q cs k =
    let (a, b) = read_bytes-rounds (λ x. not (q == x)) cs k in
    let s : Stream = (read_bytes (λ x. not (q == x)) cs).1 in
    let (c, d) = skip_if_char-rounds q s.rest s.eof b in
    if-Outcome _ _ _ _ _ (omega (arith, a, c)) d

lex_operator-Outcome :
    (c : ℕ) (cs : Str)
    → is_operator c ≡ true
    → AllKnown cs
    → Outcome (suc (suc (length cs))) (lex_operator (record { rest = c ∷ cs; eof = false }))
unfolding lex_operator
lex_operator-Outcome c cs taken k =
    let s : Stream = record { rest = c ∷ cs; eof = false } in
    let (a, b) = read-rounds is_operator c cs taken k in
    go (lookup (read is_operator s).0 sql_operators) (read is_operator s).1 (read is_operator s).0 a
      b
  where
    go :
        (o : Option SqlOperators) (s : Stream) (theData : Str)
        → rounds s < suc (suc (length cs))
        → AllKnown s.rest
        → Outcome (suc (suc (length cs))) (
            or_fail o (errors (codes "Invalid operator"))
            >>= (λ o. ok (s, record (plain_token TokenType.operators theData) { op = o } ∷ [])))
    go none s theData a b = throws _ refl
    go (some o) s theData a b = goes_on _ _ refl a b

is_digit-is_number : (c : ℕ) → is_digit c ≡ true → is_number c ≡ true
unfolding is_number
is_digit-is_number c d = rw d refl

lex_number-Outcome :
    (c : ℕ) (cs : Str)
    → is_digit c ≡ true
    → AllKnown cs
    → Outcome (suc (suc (length cs))) (lex_number (record { rest = c ∷ cs; eof = false }))
unfolding lex_number
lex_number-Outcome c cs d k =
    let s : Stream = record { rest = c ∷ cs; eof = false } in
    let (a, b) = read-rounds is_number c cs (is_digit-is_number c d) k in
    if_not-Outcome (suc (suc (length cs))) (bad_number (read is_number s).0) (read is_number s).1
      (plain_token TokenType.number (read is_number s).0 ∷ []) (codes "Invalid number") a b

lex-lex_number :
    (c : ℕ) (s : Stream) → is_whitespace c ≡ false → is_digit c ≡ true → lex c s ≡ lex_number s
unfolding lex
lex-lex_number c s w d = rw (w, d) refl

lex-lex_operator :
    (c : ℕ) (s : Stream)
    → is_whitespace c ≡ false
    → is_digit c ≡ false
    → is_quote c ≡ false
    → is_punctuation c ≡ false
    → is_operator c ≡ true
    → lex c s ≡ lex_operator s
unfolding lex
lex-lex_operator c s w d q p o = rw (w, d, q, p, o) refl

lex-lex_word :
    (c : ℕ) (s : Stream)
    → is_whitespace c ≡ false
    → is_digit c ≡ false
    → is_quote c ≡ false
    → is_punctuation c ≡ false
    → is_operator c ≡ false
    → lex c s ≡ lex_word s
unfolding lex
lex-lex_word c s w d q p o = rw (w, d, q, p, o) refl

read-none :
    (test : ℕ → Bool) (c : ℕ) (cs : Str)
    → test c ≡ false
    → read test (record { rest = c ∷ cs; eof = false })
      ≡ ([], record { rest = c ∷ cs; eof = false })
unfolding read read_bytes
read-none test c cs no_more = rw no_more refl

lex-Outcome :
    (c : ℕ) (cs : Str)
    → is_known c ≡ true
    → AllKnown cs
    → Outcome (suc (suc (length cs))) (lex c (record { rest = c ∷ cs; eof = false }))
unfolding lex skip lex_word lex_punctuation is_known
lex-Outcome c cs known k = elim (Bool-cases (is_whitespace c)) [
  | inl w ↦ let (a, b) = read-rounds is_whitespace c cs w k in rw w (goes_on _ _ refl a b)
  | inr w ↦ elim (Bool-cases (is_digit c)) [
    | inl d ↦
        subst (Outcome (suc (suc (length cs))))
          (sym (lex-lex_number c (record { rest = c ∷ cs; eof = false }) w d))
          (lex_number-Outcome c cs d k)
    | inr d ↦ elim (Bool-cases (is_quote c)) [
      | inl q ↦ rw (w, d, q) (lex_string-Outcome c cs k)
      | inr q ↦ elim (Bool-cases (is_punctuation c)) [
        | inl p ↦ rw (w, d, q, p) (goes_on _ _ refl (omega arith) k)
        | inr p ↦ elim (Bool-cases (is_operator c)) [
          | inl o ↦
              subst (Outcome (suc (suc (length cs))))
                (sym (lex-lex_operator c (record { rest = c ∷ cs; eof = false }) w d q p o))
                (lex_operator-Outcome c cs o k)
          | inr o ↦
              let word : is_alpha_num c ≡ true = ground (arith, known, w, d, q, p, o) in
              let (a, b) = read-rounds is_alpha_num c cs word k in
              goes_on _ _ (lex-lex_word c (record { rest = c ∷ cs; eof = false }) w d q p o) a b
        ]
      ]
    ]
  ]
]

-- At the end of the text, the last round makes an empty word.
lex_end :
    (w : List Token) × (lex eof_char (record { rest = []; eof = true })
      ≡ ok (record { rest = []; eof = true }, w))
unfolding lex is_whitespace is_quote is_punctuation is_operator lex_word read
lex_end = (_, refl)

tokenize_loop-end :
    (fuel : ℕ) (tokens w : List Token)
    → lex eof_char (record { rest = []; eof = true }) ≡ ok (record { rest = []; eof = true }, w)
    → tokenize_loop (suc fuel) (record { rest = []; eof = false }) tokens
      ≡ tokenize_loop fuel (record { rest = []; eof = true }) (tokens ++ w)
unfolding tokenize_loop
tokenize_loop-end fuel tokens w run =
    ap (λ r. r >>= (λ x. tokenize_loop fuel x.0 (tokens ++ x.1))) run

tokenize_loop-returns :
    (fuel : ℕ) (cs : Str) (e : Bool) (tokens : List Token)
    → AllKnown cs
    → rounds (record { rest = cs; eof = e }) < fuel
    → ((ts : List Token) × (tokenize_loop fuel (record { rest = cs; eof = e }) tokens ≡ ok ts))
      ⊎ ((m : Str) × (tokenize_loop fuel (record { rest = cs; eof = e }) tokens ≡ err (errors m)))
unfolding tokenize_loop
tokenize_loop-returns zero cs e tokens k f = absurd (omega arith)
tokenize_loop-returns (suc fuel) cs true tokens k f = inl (tokens, refl)
tokenize_loop-returns (suc fuel) [] false tokens k f =
    let (w, run) = lex_end in
    let step = tokenize_loop-end fuel tokens w run in
    elim (tokenize_loop-returns fuel [] true (tokens ++ w) tt (omega (arith, f))) [
      | inl (ts, h) ↦ inl (ts, step ∙ h)
      | inr (m, h) ↦ inr (m, step ∙ h)
    ]
tokenize_loop-returns (suc fuel) (c ∷ cs) false tokens k f = elim (lex-Outcome c cs k.0 k.1) [
  | throws m run ↦ inr (m, rw run refl)
  | goes_on s made run small known ↦
      elim (tokenize_loop-returns fuel s.rest s.eof (tokens ++ made) known
        (omega (arith, small, f))) [
          | inl (ts, h) ↦ inl (ts, rw run h)
          | inr (m, h) ↦ inr (m, rw run h)
        ]
]

-- On a text whose bytes all belong to some branch of the loop, `tokenize` ends: it gives tokens or
-- throws an error; the fuel of two rounds more than the bytes does not run out.
pub tokenize-returns :
    (text : Str)
    → AllKnown text
    → ((ts : List Token) × (tokenize text ≡ ok ts)) ⊎ ((m : Str) × (tokenize text ≡ err (errors m)))
unfolding tokenize tokenize_with
tokenize-returns text k =
    elim (tokenize_loop-returns (length text + 2) text false [] k (omega arith)) [
      | inl (ts, h) ↦ inl (drop_empty ts, rw h refl)
      | inr (m, h) ↦ inr (m, rw h refl)
    ]

lex-stuck :
    (c : ℕ) (cs : Str)
    → is_known c ≡ false
    → (w : List Token) × (lex c (record { rest = c ∷ cs; eof = false })
        ≡ ok (record { rest = c ∷ cs; eof = false }, w))
unfolding is_known lex_word
lex-stuck c cs k =
    let w : is_whitespace c ≡ false = ground (arith, k) in
    let d : is_digit c ≡ false = ground (arith, k) in
    let q : is_quote c ≡ false = ground (arith, k) in
    let p : is_punctuation c ≡ false = ground (arith, k) in
    let o : is_operator c ≡ false = ground (arith, k) in
    let a : is_alpha_num c ≡ false = ground (arith, k) in
    let none_read = read-none is_alpha_num c cs a in
    (
      word_token [] ∷ [],
      lex-lex_word c (record { rest = c ∷ cs; eof = false }) w d q p o
          ∙ ap (λ r. ok (r.1, word_token r.0 ∷ [])) none_read,
    )

tokenize_loop-stuck :
    (fuel : ℕ) (c : ℕ) (cs : Str) (tokens : List Token)
    → is_known c ≡ false
    → tokenize_loop fuel (record { rest = c ∷ cs; eof = false }) tokens ≡ err no_fuel
unfolding tokenize_loop
tokenize_loop-stuck zero c cs tokens k = refl
tokenize_loop-stuck (suc fuel) c cs tokens k =
    let (w, run) = lex-stuck c cs k in rw run (tokenize_loop-stuck fuel c cs (tokens ++ w) k)

-- On a text that begins with a byte of no branch, such as `#` or `&`, the loop never ends: no fuel
-- is enough.
tokenize_with-stuck :
    (c : ℕ) (cs : Str) (fuel : ℕ) → is_known c ≡ false → tokenize_with fuel (c ∷ cs) ≡ err no_fuel
unfolding tokenize_with
tokenize_with-stuck c cs fuel k = rw (tokenize_loop-stuck fuel c cs [] k) refl
