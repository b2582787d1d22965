-- ===== src/Functions/Strings.antt =====
-- What the string functions of core/storage/expression/function_expression.cpp give.
use csql.Base.{
  ℕ, zero, suc, ◌+◌, ◌-◌, ◌%◌, ◌^◌, ◌≤◌, ◌<◌, ◌≡◌, refl, ap, true, some, List, [], ◌∷◌, ◌++◌, arith,
  leb, length, take, drop, Str, Bool-cases, Option-cases, inl, inr, take-append-drop, length-append,
  length-drop,
}
use csql.Base.Int.{pos}
use csql.Base.Result.{ok, err, no_fuel}
use csql.Types.{sql_int, sql_varchar}
use csql.Io.Bytes.{to_u64}
use csql.Functions.{
  with_string, with_int, substr, starts_with, split_on, replace_loop, replace_with, replace, left,
  right,
}

take-length : {A : Type 0} (n : ℕ) (s : List A) → length s ≤ n → take n s ≡ s
take-length zero [] h = refl
take-length zero (c ∷ s) h = absurd (omega arith)
take-length (suc n) [] h = refl
take-length (suc n) (c ∷ s) h = ap (λ t. c ∷ t) (take-length n s (omega arith))

-- For `n` up to the length of a string, LEFT gives its first `n` bytes, RIGHT of the other bytes'
-- number gives the others, and the two are the string.
pub left-right :
    (s : Str) (n : ℕ)
    → n ≤ length s
    → length s < 2 ^ 63
    → (a : Str) × (b : Str) × (left (sql_varchar s ∷ sql_int (pos n) ∷ []) ≡ ok (sql_varchar a))
      × (right (sql_varchar s ∷ sql_int (pos (length s - n)) ∷ []) ≡ ok (sql_varchar b))
      × (a ++ b ≡ s)
      × (length b ≡ length s - n)
unfolding left right with_string with_int substr to_u64
left-right s n h small =
    let whole : n % 2 ^ 64 ≡ n = ground arith in
    let part : (length s - n) % 2 ^ 64 ≡ length s - n = ground arith in
    let place : (length s + 2 ^ 64 - (length s - n)) % 2 ^ 64 ≡ n = ground arith in
    let none_left : leb 0 (length s) ≡ true = ground arith in
    let inside : leb n (length s) ≡ true = ground arith in
    (
      take n s,
      drop n s,
      rw (whole, none_left) refl,
      rw (part, place, inside)
          (ap (λ t. ok (sql_varchar t))
            (take-length (length s) (drop n s) (omega (arith, length-drop n s)))),
      take-append-drop n s,
      length-drop n s,
    )

-- What `find` finds: the string is what stands before, the pattern, and what stands after.
starts_with-append : (s t : Str) → starts_with s t ≡ true → s ≡ t ++ drop (length t) s
unfolding starts_with
starts_with-append s [] h = refl
starts_with-append [] (c ∷ cs) h = cc
starts_with-append (d ∷ ds) (c ∷ cs) h =
    let same : d ≡ c = ground arith in
    rw same (ap (λ r. c ∷ r) (starts_with-append ds cs (ground (arith, h))))

no_rest : (t : Str) → starts_with [] t ≡ true → ◌≡◌ {A = Str} [] (t ++ [])
unfolding starts_with
no_rest [] h = refl
no_rest (c ∷ t) h = cc

split_on-append :
    (t s before after : Str) → split_on t s ≡ some (before, after) → s ≡ before ++ (t ++ after)
unfolding split_on
split_on-append t [] before after h = elim (Bool-cases (starts_with [] t)) [
  | inl found ↦
      let b : [] ≡ before = ground (arith, h, found) in
      let a : [] ≡ after = ground (arith, h, found) in rw (← b, ← a) (no_rest t found)
  | inr lost ↦ absurd (ground (arith, h, lost))
]
split_on-append t (c ∷ cs) before after h = elim (Bool-cases (starts_with (c ∷ cs) t)) [
  | inl found ↦
      let b : [] ≡ before = ground (arith, h, found) in
      let a : drop (length t) (c ∷ cs) ≡ after = ground (arith, h, found) in
      rw (← b, ← a) (starts_with-append (c ∷ cs) t found)
  | inr lost ↦ elim (Option-cases (split_on t cs)) [
    | inl never ↦ absurd (ground (arith, h, lost, never))
    | inr ((b, a), later) ↦
        let x : c ∷ b ≡ before = ground (arith, h, lost, later) in
        let y : a ≡ after = ground (arith, h, lost, later) in
        rw (← x, ← y) (ap (λ r. c ∷ r) (split_on-append t cs b a later))
  ]
]

-- Each round but the last takes the bytes of the pattern away.
replace_loop-returns :
    (fuel : ℕ) (c : ℕ) (from to s : Str)
    → length s < fuel
    → (r : Str) × (replace_loop fuel (c ∷ from) to s ≡ ok r)
unfolding replace_loop
replace_loop-returns zero c from to s h = absurd (omega arith)
replace_loop-returns (suc fuel) c from to s h = elim (Option-cases (split_on (c ∷ from) s)) [
  | inl never ↦ (s, rw (never, replace_loop) refl)
  | inr ((before, after), found) ↦
      let whole = split_on-append (c ∷ from) s before after found in
      let shorter : length after < fuel = omega (
        arith,
        ap length whole,
        length-append before (c ∷ (from ++ after)),
        length-append from after,
      ) in
      let (r, run) = replace_loop-returns fuel c from to after shorter in
      (before ++ (to ++ r), rw (found, run, replace_loop) refl)
]

-- REPLACE of a pattern that is not empty ends with a string: its fuel, one more than the bytes,
-- does not run out.
pub replace-returns :
    (s : Str) (c : ℕ) (from to : Str)
    → (r : Str) × (replace (sql_varchar s ∷ sql_varchar (c ∷ from) ∷ sql_varchar to ∷ [])
        ≡ ok (sql_varchar r))
unfolding replace replace_with with_string
replace-returns s c from to =
    let (r, run) = replace_loop-returns (length s + 1) c from to s (omega arith) in (r, rw run refl)

split_on-nil : (s : Str) → split_on [] s ≡ some ([], s)
unfolding split_on starts_with
split_on-nil [] = refl
split_on-nil (c ∷ s) = refl

replace_loop-stuck : (fuel : ℕ) (to s : Str) → replace_loop fuel [] to s ≡ err no_fuel
unfolding replace_loop
replace_loop-stuck zero to s = refl
replace_loop-stuck (suc fuel) to s =
    rw (split_on-nil s, replace_loop-stuck fuel to s, replace_loop) refl

-- REPLACE of the empty pattern never ends: no fuel is enough.
replace_with-stuck :
    (fuel : ℕ) (s to : Str)
    → replace_with fuel (sql_varchar s ∷ sql_varchar [] ∷ sql_varchar to ∷ []) ≡ err no_fuel
unfolding replace_with with_string
replace_with-stuck fuel s to = rw (replace_loop-stuck fuel to s) refl
