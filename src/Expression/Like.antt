-- ===== src/Expression/Like.antt =====
-- What `ExpressionHandle::likeMatch` of core/util/helpers.cpp accepts.
use csql.Base.{
  ℕ, ◌≡◌, refl, sym, ap, ◌∙◌, Bool, true, false, ◌⊎◌, inl, inr, Option, none, some, [], ◌∷◌, ◌++◌,
  arith, ◌==◌, if◌then◌else◌, Str, Bool-cases, Option-cases, ==_refl,
}
use csql.Base.Result.{ok}
use csql.Types.{sql_varchar}
use csql.Operators.{seek, step, like_loop, like_match}

-- The letters of the pattern, `%` left out, stand in the string in their order.
abbrev pub IsWithin : Str → Str → Type 0
IsWithin [] s = Unit
IsWithin (c ∷ cs) s =
    ((c ≡ 37) × IsWithin cs s)
    ⊎ ((before : Str) × (after : Str) × (s ≡ before ++ c ∷ after) × IsWithin cs after)

seek-found :
    (c : ℕ) (s rest : Str) → seek c s ≡ some rest → (before : Str) × (s ≡ before ++ c ∷ rest)
unfolding seek
seek-found c [] rest h = cc
seek-found c (d ∷ ds) rest h = elim (Bool-cases (d == c)) [
  | inl here ↦
      let same : d ≡ c = ground arith in
      let tail : ds ≡ rest = ground (arith, h, here) in ([], rw (same, tail) refl)
  | inr past ↦
      let later : seek c ds ≡ some rest = ground (arith, h, past) in
      let (before, e) = seek-found c ds rest later in (d ∷ before, ap (λ t. d ∷ t) e)
]

step-found : (c : ℕ) (s rest : Str) → step c s ≡ some rest → s ≡ c ∷ rest
step-found c [] rest h = cc
step-found c (d ∷ ds) rest h = elim (Bool-cases (d == c)) [
  | inl here ↦
      let same : d ≡ c = ground arith in
      let tail : ds ≡ rest = ground (arith, h, here) in rw (same, tail) refl
  | inr past ↦ absurd (ground (arith, h, past))
]

next-found :
    (free : Bool) (c : ℕ) (s rest : Str)
    → (if free then seek c s else step c s) ≡ some rest
    → (before : Str) × (s ≡ before ++ c ∷ rest)
next-found true c s rest h = seek-found c s rest h
next-found false c s rest h = ([], step-found c s rest h)

next : Bool → ℕ → Str → Option Str
next free c s = if free then seek c s else step c s

-- One round of the loop, by what the letter is and by what the search finds.
round_of : Bool → Option Str → Str → Str → Bool
round_of true o cs s = like_loop true cs s
round_of false none cs s = false
round_of false (some rest) cs s = like_loop false cs rest

like_loop-round :
    (free : Bool) (c : ℕ) (cs s : Str)
    → like_loop free (c ∷ cs) s ≡ round_of (c == 37) (next free c s) cs s
unfolding like_loop next round_of
like_loop-round free c cs s = go (c == 37) (next free c s)
  where
    go :
        (b : Bool) (o : Option Str)
        → elim b [
          | true ↦ like_loop true cs s
          | false ↦ elim o [ none ↦ false | some rest ↦ like_loop false cs rest ]
        ]
          ≡ round_of b o cs s
    go true o = refl
    go false none = refl
    go false (some rest) = refl

like_loop-IsWithin : (free : Bool) (pat s : Str) → like_loop free pat s ≡ true → IsWithin pat s
unfolding round_of next
like_loop-IsWithin free [] s h = tt
like_loop-IsWithin free (c ∷ cs) s h =
    let first : round_of (c == 37) (next free c s) cs s ≡ true =
      sym (like_loop-round free c cs s) ∙ h in
    elim (Bool-cases (c == 37)) [
      | inl percent ↦ inl (ground arith, like_loop-IsWithin true cs s (rw percent at first))
      | inr letter ↦ elim (Option-cases (next free c s)) [
        | inl miss ↦ absurd (ground (arith, (rw (letter, miss) at first)))
        | inr (rest, found) ↦
            let (before, at_rest) = next-found free c s rest found in
            inr (
              before,
              rest,
              at_rest,
              like_loop-IsWithin false cs rest (rw (letter, found) at first),
            )
      ]
    ]

-- When `likeMatch` accepts a string, the letters of the pattern stand in it in their order.
pub like_match-IsWithin :
    (str pat : Str) → like_match (sql_varchar str) (sql_varchar pat) ≡ ok true → IsWithin pat str
unfolding like_match
like_match-IsWithin str pat h = like_loop-IsWithin true pat str (ground (arith, h))

-- The pattern has no `%`.
abbrev pub IsPlain : Str → Type 0
IsPlain [] = Unit
IsPlain (c ∷ cs) = ((c == 37) ≡ false) × IsPlain cs

next-here : (free : Bool) (c : ℕ) (s : Str) → next free c (c ∷ s) ≡ some s
unfolding next seek
next-here true c s = rw (==_refl c) refl
next-here false c s = rw (==_refl c) refl

like_loop-append :
    (free : Bool) (pat rest : Str) → IsPlain pat → like_loop free pat (pat ++ rest) ≡ true
unfolding round_of like_loop
like_loop-append free [] rest p = refl
like_loop-append free (c ∷ cs) rest p =
    like_loop-round free c cs (c ∷ (cs ++ rest))
    ∙ rw (p.0, next-here free c (cs ++ rest)) (like_loop-append false cs rest p.1)

-- A pattern without `%` matches itself, and also every string that goes on after it: the end is
-- not anchored.
like_match-append :
    (pat rest : Str)
    → IsPlain pat
    → like_match (sql_varchar (pat ++ rest)) (sql_varchar pat) ≡ ok true
unfolding like_match
like_match-append pat rest p = ap ok (like_loop-append true pat rest p)
