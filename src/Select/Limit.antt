-- ===== src/Select/Limit.antt =====
-- Which rows LIMIT of core/storage/database/select.cpp shows.
use csql.Base.{
  ℕ, zero, suc, ◌+◌, ◌-◌, ◌^◌, ◌≤◌, ◌<◌, ◌≡◌, refl, ◌∙◌, true, inl, inr, none, some, List, [], ◌∷◌,
  ltb, if◌then◌else◌, length, get_elem?, arith, Bool-cases, get_elem?_lt,
}
use csql.Base.Int.{pos, ◌+ℤ◌, ltb_ℤ}
use csql.Base.Result.{ok}
use csql.Select.Results.{limit_loop, show_between, limit_rows, int_of_size, fits_int}

pos-sum : (a b : ℕ) → pos a +ℤ pos b ≡ pos (a + b)
unfolding ◌+ℤ◌
pos-sum a b = ground arith

module _ {ℓ} {A : Type ℓ} where
  get_elem?_beyond : (xs : List A) (i : ℕ) → length xs ≤ i → get_elem? xs i ≡ none
  get_elem?_beyond [] i h = refl
  get_elem?_beyond (x ∷ xs) zero h = absurd (omega arith)
  get_elem?_beyond (x ∷ xs) (suc i) h = get_elem?_beyond xs i (omega arith)

  get_elem?-cons :
      (row : A) (shown datas : List A) (start n : ℕ)
      → get_elem? datas start ≡ some row
      → ((i : ℕ) → get_elem? shown i ≡ (if ltb i n then get_elem? datas (suc start + i) else none))
      → (i : ℕ)
      → get_elem? (row ∷ shown) i ≡ (if ltb i (suc n) then get_elem? datas (start + i) else none)
  get_elem?-cons row shown datas start n here rest zero =
      let first : start + 0 ≡ start = omega arith in
      let below : ltb 0 (suc n) ≡ true = ground arith in rw (first, here, below) refl
  get_elem?-cons row shown datas start n here rest (suc i) =
      let next : start + suc i ≡ suc start + i = omega arith in
      let same : ltb (suc i) (suc n) ≡ ltb i n = ground arith in rw (next, same) (rest i)

  get_elem?-limit_loop :
      (start n : ℕ) (datas : List A)
      → n ≤ length datas - start
      → (shown : List A) × (limit_loop start n datas ≡ ok shown)
        × ((i : ℕ) → get_elem? shown i ≡ (if ltb i n then get_elem? datas (start + i) else none))
  unfolding limit_loop
  get_elem?-limit_loop start zero datas h = ([], refl, λ i. ground arith)
  get_elem?-limit_loop start (suc n) datas h =
      let (row, here) = get_elem?_lt datas start (omega arith) in
      let (shown, run, rest) = get_elem?-limit_loop (suc start) n datas (omega arith) in
      (row ∷ shown, rw (here, run) refl, get_elem?-cons row shown datas start n here rest)

  -- The end of the loop.
  abbrev end_of : ℕ → ℕ → List A → ℕ
  end_of limit start datas =
      if ltb (start + limit) (length datas) then start + limit else length datas

  limit_rows-limit_loop :
      (limit start : ℕ) (datas : List A)
      → start + limit < 2 ^ 31
      → length datas < 2 ^ 31
      → limit_rows (pos limit, pos start) datas
        ≡ limit_loop start (end_of limit start datas - start) datas
  unfolding limit_rows show_between
  limit_rows-limit_loop limit start datas small few =
      let size : int_of_size (length datas) ≡ pos (length datas) = ground arith in
      let fits : fits_int (pos (start + limit)) ≡ true = ground arith in
      let test : ltb_ℤ (pos (start + limit)) (pos (length datas))
          ≡ ltb (start + limit) (length datas) =
        ground arith in
      rw (pos-sum start limit, size, fits, test)
        (elim (Bool-cases (ltb (start + limit) (length datas))) [
          | inl less ↦ rw less refl
          | inr more ↦ rw more refl
        ])

  -- For a limit and a start whose sum is an `int`, on fewer than 2^31 rows: LIMIT shows rows, and
  -- the one in place `i` is that in place `start + i` of the vector, for each `i` below the limit,
  -- while there is none in the other places.
  pub get_elem?-limit_rows :
      (limit start : ℕ) (datas : List A)
      → start + limit < 2 ^ 31
      → length datas < 2 ^ 31
      → (shown : List A) × (limit_rows (pos limit, pos start) datas ≡ ok shown)
        × ((i : ℕ)
            → get_elem? shown i ≡ (if ltb i limit then get_elem? datas (start + i) else none))
  get_elem?-limit_rows limit start datas small few =
      let n : ℕ = end_of limit start datas - start in
      let (shown, run, each) = get_elem?-limit_loop start n datas (ground arith) in
      (
        shown,
        limit_rows-limit_loop limit start datas small few ∙ run,
        λ i. each i ∙ elim (Bool-cases (ltb (start + i) (length datas))) [
          | inl inside ↦ let same : ltb i n ≡ ltb i limit = ground arith in rw same refl
          | inr outside ↦
              let none_there = get_elem?_beyond datas (start + i) (ground arith) in
              ground (arith, none_there)
        ],
      )
