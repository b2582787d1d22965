-- ===== src/Io/Cursor.antt =====
-- `IOManager`: `rawData` with its size, `bufferOffset`, and the `memcpy` of every read and write.
-- A `memcpy` past the end of the block is undefined behaviour, and is a fault here.
use csql.Base.{
  ℕ, zero, suc, ◌+◌, ◌≤◌, ◌<◌, ◌≡◌, refl, sym, ap, ◌∙◌, true, List, [], ◌∷◌, ◌++◌, arith, leb,
  if◌then◌else◌, length, take, drop, length-append, length-take_le, length-drop, inl, inr,
  Bool-cases, le→leb, leb→le, take-append-drop, ◌⊎◌,
}
use mathlib.Core.List.{append_assoc}
use csql.Base.Result.{Result, ok, err, undefined, ◌>>=◌}

pub record IoManager : Type 0 where
  pub raw_data : List ℕ
  pub buffer_offset : ℕ

unfoldable pub overwrite : ℕ → List ℕ → List ℕ → List ℕ
overwrite o bs raw = take o raw ++ (bs ++ drop (o + length bs) raw)

unfoldable pub put : List ℕ → IoManager → Result IoManager
put bs io =
    if leb (io.buffer_offset + length bs) (length io.raw_data)
    then ok (record io {
      raw_data = overwrite io.buffer_offset bs io.raw_data;
      buffer_offset = io.buffer_offset + length bs;
    })
    else err undefined

unfoldable pub get : ℕ → IoManager → Result (List ℕ × IoManager)
get n io =
    if leb (io.buffer_offset + n) (length io.raw_data)
    then ok (
      take n (drop io.buffer_offset io.raw_data),
      record io { buffer_offset = io.buffer_offset + n },
    )
    else err undefined

-- `seek o` is `bufferOffset = o`.
abbrev pub seek : ℕ → IoManager → IoManager
seek o io = record io { buffer_offset = o }

take-length-append : (xs ys : List ℕ) → take (length xs) (xs ++ ys) ≡ xs
take-length-append [] ys = refl
take-length-append (x ∷ xs) ys = ap (◌∷◌ x) (take-length-append xs ys)

drop-length-append : (xs ys : List ℕ) → drop (length xs) (xs ++ ys) ≡ ys
drop-length-append [] ys = refl
drop-length-append (x ∷ xs) ys = drop-length-append xs ys

drop-nil : (n : ℕ) → drop {A = ℕ} n [] ≡ []
drop-nil zero = refl
drop-nil (suc n) = refl

drop-add : (m n : ℕ) (xs : List ℕ) → drop n (drop m xs) ≡ drop (m + n) xs
drop-add zero n xs = ap (λ (k : ℕ). drop k xs) (omega arith)
drop-add (suc m) n [] = drop-nil n ∙ sym (drop-nil (suc m + n))
drop-add (suc m) n (x ∷ xs) =
    rw (drop-add m n xs) (ap (λ (k : ℕ). drop k (x ∷ xs)) {x = suc (m + n)} (omega arith))

-- A block split at the cursor: what a write leaves in front, replaces, and leaves behind.
overwrite-parts :
    (front old new back : List ℕ)
    → length old ≡ length new
    → overwrite (length front) new (front ++ (old ++ back)) ≡ front ++ (new ++ back)
unfolding overwrite
overwrite-parts front old new back e =
    let behind : drop (length front + length new) (front ++ (old ++ back)) ≡ back =
      sym (drop-add (length front) (length new) (front ++ (old ++ back)))
      ∙ (rw (drop-length-append front (old ++ back), ← e) (drop-length-append old back)) in
    rw (take-length-append front (old ++ back), behind)

split_at :
    (n : ℕ) (xs : List ℕ)
    → n ≤ length xs
    → (a : List ℕ) × (b : List ℕ) × (xs ≡ a ++ b) × (length a ≡ n)
split_at n xs h = (take n xs, drop n xs, sym (take-append-drop n xs), length-take_le n xs h)

-- `put` on a block that is split where it writes.
put-parts :
    (front old new back : List ℕ) (io : IoManager)
    → io.raw_data ≡ front ++ (old ++ back)
    → io.buffer_offset ≡ length front
    → length old ≡ length new
    → put new io
      ≡ ok (record { raw_data = front ++ (new ++ back); buffer_offset = length front + length new })
unfolding put
put-parts front old new back io er eo e =
    let fits : leb (length front + length new) (length (front ++ (old ++ back))) ≡ true =
      le→leb _ _ (omega (arith, length-append front (old ++ back), length-append old back)) in
    rw (er, eo, fits, overwrite-parts front old new back e)

-- What `put` comes to, with the block split.
put_cases :
    (new : List ℕ) (io : IoManager)
    → ((front : List ℕ) × (old : List ℕ) × (back : List ℕ) × (io.raw_data ≡ front ++ (old ++ back))
        × (io.buffer_offset ≡ length front)
        × (length old ≡ length new))
      ⊎ ((length io.raw_data < io.buffer_offset + length new) × (put new io ≡ err undefined))
unfolding put
put_cases new io = elim (Bool-cases (leb (io.buffer_offset + length new) (length io.raw_data))) [
  | inl fits ↦
      let h = leb→le _ _ fits in
      let (front, rest, e, n) = split_at io.buffer_offset io.raw_data (omega arith) in
      let room : length new ≤ length rest = omega (arith, length-append front rest, ap length e) in
      let (old, back, e', n') = split_at (length new) rest room in
      inl (front, old, back, rw (← e') e, sym n, n')
  | inr over ↦ inr (ground arith, rw over)
]

pub put_over :
    (new : List ℕ) (io : IoManager)
    → length io.raw_data < io.buffer_offset + length new
    → put new io ≡ err undefined
unfolding put
put_over new io h = ground arith

put-put_over :
    (a b : List ℕ) (io : IoManager)
    → length io.raw_data < io.buffer_offset + length (a ++ b)
    → (put a io >>= put b) ≡ err undefined
put-put_over a b io over = elim (put_cases a io) [
  | inl (front, old, back, er, eo, e) ↦ rw (put-parts front old a back io er eo e) (
      put_over b _ (
        omega (
          arith,
          length-append a b,
          length-append front (a ++ back),
          length-append a back,
          length-append front (old ++ back),
          length-append old back,
          ap length er,
        )))
  | inr (_, e) ↦ rw e
]

module _ (a b : List ℕ) (io : IoManager) (front old_a old_b back : List ℕ) where
  put-put-parts :
      io.raw_data ≡ front ++ (old_a ++ (old_b ++ back))
      → io.buffer_offset ≡ length front
      → length old_a ≡ length a
      → length old_b ≡ length b
      → (put a io >>= put b)
        ≡ ok (record {
          raw_data = (front ++ a) ++ (b ++ back);
          buffer_offset = length (front ++ a) + length b;
        })
  put-put-parts er eo na nb = rw (put-parts front old_a a (old_b ++ back) io er eo na) (
      put-parts (front ++ a) old_b b back _ (sym (append_assoc front a (old_b ++ back)))
        (sym (length-append front a)) nb)

  same_block :
      ◌≡◌ {A = IoManager}
        (record {
          raw_data = (front ++ a) ++ (b ++ back);
          buffer_offset = length (front ++ a) + length b;
        })
        (record {
          raw_data = front ++ ((a ++ b) ++ back);
          buffer_offset = length front + length (a ++ b);
        })
  same_block =
      let e : (front ++ a) ++ (b ++ back) ≡ front ++ ((a ++ b) ++ back) = simp append_assoc in
      let n : length (front ++ a) + length b ≡ length front + length (a ++ b) =
        omega (arith, length-append front a, length-append a b) in
      λ i. record { raw_data = e i; buffer_offset = n i }

-- Two writes in a row are one.
pub put-put : (a b : List ℕ) (io : IoManager) → (put a io >>= put b) ≡ put (a ++ b) io
put-put a b io = elim (put_cases (a ++ b) io) [
  | inl (front, old, back, er, eo, e) ↦
      let (old_a, old_b, es, na) = split_at (length a) old (omega (arith, e, length-append a b)) in
      let nb : length old_b ≡ length b =
        omega (arith, e, length-append a b, length-append old_a old_b, ap length es) in
      let er' : io.raw_data ≡ front ++ (old_a ++ (old_b ++ back)) =
        er
        ∙ ap (λ (t : List ℕ). front ++ t)
            (ap (λ (t : List ℕ). t ++ back) es ∙ append_assoc old_a old_b back) in
      put-put-parts a b io front old_a old_b back er' eo na nb
      ∙ ap ok (same_block a b io front old_a old_b back)
      ∙ sym (put-parts front old (a ++ b) back io er eo e)
  | inr (over, e) ↦ put-put_over a b io over ∙ sym e
]

-- What stands at the cursor and behind it.
pub record Ahead (io : IoManager) (bs : List ℕ) : Type 0 where
  pub inside : io.buffer_offset ≤ length io.raw_data
  pub bytes : drop io.buffer_offset io.raw_data ≡ bs

-- A write that succeeds leaves its bytes at the place where it began, with what was behind them.
pub put-Ahead :
    (new : List ℕ) (io io' : IoManager)
    → put new io ≡ ok io'
    → (back : List ℕ) × Ahead (seek io.buffer_offset io') (new ++ back)
      × (length io'.raw_data ≡ length io.raw_data)
      × (io'.buffer_offset ≡ io.buffer_offset + length new)
put-Ahead new io io' h = elim (put_cases new io) [
  | inl (front, old, back, er, eo, e) ↦
      let done = put-parts front old new back io er eo e in
      let raw : io'.raw_data ≡ front ++ (new ++ back) = ground (arith, done) in
      let off : io'.buffer_offset ≡ length front + length new = ground (arith, done) in
      (
        back,
        record {
          inside = rw raw (omega (arith, eo, length-append front (new ++ back)));
          bytes = rw (raw, eo) (drop-length-append front (new ++ back));
        },
        omega (
          arith,
          ap length raw,
          ap length er,
          length-append front (new ++ back),
          length-append new back,
          length-append front (old ++ back),
          length-append old back,
          e,
        ),
        rw eo off,
      )
  | inr (over, e) ↦ absurd (ground (arith, e))
]

-- A read takes its bytes from the front.
pub get-Ahead :
    (bs rest : List ℕ) (io : IoManager)
    → Ahead io (bs ++ rest)
    → (get (length bs) io ≡ ok (bs, seek (io.buffer_offset + length bs) io))
      × Ahead (seek (io.buffer_offset + length bs) io) rest
unfolding get
get-Ahead bs rest io a =
    let o = io.buffer_offset in
    let raw = io.raw_data in
    let room : o + length bs ≤ length raw =
      omega (arith, a.inside, length-drop o raw, ap length a.bytes, length-append bs rest) in
    (
      rw (le→leb _ _ room, a.bytes, take-length-append bs rest),
      record {
        inside = room;
        bytes = sym (drop-add o (length bs) raw) ∙ (rw a.bytes (drop-length-append bs rest));
      },
    )

pub put_inside :
    (new : List ℕ) (io io' : IoManager)
    → put new io ≡ ok io'
    → io'.buffer_offset ≤ length io'.raw_data
unfolding put
put_inside new io io' h =
    let (_, _, size, off) = put-Ahead new io io' h in
    elim (Bool-cases (leb (io.buffer_offset + length new) (length io.raw_data))) [
      | inl fits ↦ let room = leb→le _ _ fits in omega (arith, room, size, off)
      | inr over ↦ absurd (ground (arith, over))
    ]

pub put-nil : (io : IoManager) → io.buffer_offset ≤ length io.raw_data → put [] io ≡ ok io
unfolding put overwrite
put-nil io h =
    let o = io.buffer_offset in
    let n : o + 0 ≡ o = omega arith in
    let fits : leb (o + 0) (length io.raw_data) ≡ true = le→leb _ _ (omega arith) in
    let e : take o io.raw_data ++ drop (o + 0) io.raw_data ≡ io.raw_data =
      ap (λ (k : ℕ). take o io.raw_data ++ drop k io.raw_data) n ∙ take-append-drop o io.raw_data in
    rw fits (λ i. ok (record { raw_data = e i; buffer_offset = n i }))

pub put_fits :
    (new : List ℕ) (io : IoManager)
    → io.buffer_offset + length new ≤ length io.raw_data
    → (io' : IoManager) × (put new io ≡ ok io')
unfolding put
put_fits new io h = (
  record io {
    raw_data = overwrite io.buffer_offset new io.raw_data;
    buffer_offset = io.buffer_offset + length new;
  },
  ground arith,
)
