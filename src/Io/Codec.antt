-- ===== src/Io/Codec.antt =====
-- What it means that a writer writes certain bytes and that a reader reads a value off them, and
-- the rules for writers and readers in sequence.
use csql.Base.{ℕ, ◌+◌, ◌≤◌, ◌≡◌, refl, sym, ap, ◌∙◌, List, [], ◌++◌, arith, length, length-append}
use mathlib.Core.List.{append_assoc}
use csql.Base.Result.{Result, ok, err, ◌>>=◌}
use csql.Io.Cursor.{
  IoManager, put, get, seek, Ahead, put-put, put-Ahead, put_inside, put-nil, get-Ahead,
}

abbrev pub Writes : (IoManager → Result IoManager) → List ℕ → Type 0
Writes write bs = (io : IoManager) → io.buffer_offset ≤ length io.raw_data → write io ≡ put bs io

-- On a block that holds the bytes at the cursor the reader returns the value and stands behind
-- them.
abbrev pub Reads {ℓ} : {A : Type ℓ} → (IoManager → Result (A × IoManager)) → List ℕ → A → Type ℓ
Reads read bs a =
    (rest : List ℕ) (io : IoManager)
    → Ahead io (bs ++ rest)
    → (read io ≡ ok (a, seek (io.buffer_offset + length bs) io))
      × Ahead (seek (io.buffer_offset + length bs) io) rest

pub Writes-then :
    (f g : IoManager → Result IoManager) (a b : List ℕ)
    → Writes f a
    → Writes g b
    → Writes (λ io. f io >>= g) (a ++ b)
Writes-then f g a b wf wg io h =
    let step : (f io >>= g) ≡ (put a io >>= put b) = rw (wf io h) (go (put a io) refl) in
    step ∙ put-put a b io
  where
    go : (r : Result IoManager) → put a io ≡ r → (r >>= g) ≡ (r >>= put b)
    go (err e) eq = refl
    go (ok io') eq = wg io' (put_inside a io io' eq)

module _ {ℓ κ} {A : Type ℓ} {B : Type κ} where
  pub Reads-then :
      (r : IoManager → Result (A × IoManager)) (k : A → IoManager → Result (B × IoManager))
      (bs cs : List ℕ) (a : A) (b : B)
      → Reads r bs a
      → Reads (k a) cs b
      → Reads (λ io. r io >>= λ p. k p.0 p.1) (bs ++ cs) b
  Reads-then r k bs cs a b first second rest io ahead =
      let (e, ahead1) =
        first (cs ++ rest) io
          (record { inside = ahead.inside; bytes = ahead.bytes ∙ append_assoc bs cs rest }) in
      let (e', ahead2) = second rest (seek (io.buffer_offset + length bs) io) ahead1 in
      let n : io.buffer_offset + length bs + length cs ≡ io.buffer_offset + length (bs ++ cs) =
        omega (arith, length-append bs cs) in
      rw (← n) (rw e e', ahead2)

  pub Reads-map :
      (r : IoManager → Result (A × IoManager)) (f : A → B) (bs : List ℕ) (a : A)
      → Reads r bs a
      → Reads (λ io. r io >>= λ p. ok (f p.0, p.1)) bs (f a)
  Reads-map r f bs a first rest io ahead = let (e, ahead1) = first rest io ahead in (rw e, ahead1)

pub Reads-get : (bs : List ℕ) → Reads (get (length bs)) bs bs
Reads-get bs rest io ahead = get-Ahead bs rest io ahead

pub Reads-pure {ℓ} : {A : Type ℓ} (a : A) → Reads (λ io. ok (a, io)) [] a
Reads-pure a rest io ahead =
    let n : io.buffer_offset ≡ io.buffer_offset + 0 = omega arith in
    (ap (λ (k : ℕ). ok (a, seek k io)) n, rw (← n) ahead)

-- A writer and a reader that agree: the writer puts `n` bytes, off which the reader reads `a`.
abbrev pub Carries {ℓ} :
    {A : Type ℓ}
    → (IoManager → Result IoManager)
    → (IoManager → Result (A × IoManager))
    → A
    → ℕ
    → Type ℓ
Carries write read a n = (bs : List ℕ) × Writes write bs × Reads read bs a × (length bs ≡ n)

module _ {ℓ κ} {A : Type ℓ} {B : Type κ} where
  pub Carries-then :
      (w v : IoManager → Result IoManager) (r : IoManager → Result (A × IoManager))
      (k : A → IoManager → Result (B × IoManager)) (a : A) (b : B) (m n : ℕ)
      → Carries w r a m
      → Carries v (k a) b n
      → Carries (λ io. w io >>= v) (λ io. r io >>= λ p. k p.0 p.1) b (m + n)
  Carries-then w v r k a b m n (bs, wb, rb, eb) (cs, wc, rc, ec) = (
    bs ++ cs,
    Writes-then w v bs cs wb wc,
    Reads-then r k bs cs a b rb rc,
    omega (arith, length-append bs cs),
  )

  pub Carries-map :
      (w : IoManager → Result IoManager) (r : IoManager → Result (A × IoManager)) (f : A → B)
      (a : A) (n : ℕ)
      → Carries w r a n
      → Carries w (λ io. r io >>= λ p. ok (f p.0, p.1)) (f a) n
  Carries-map w r f a n (bs, wb, rb, eb) = (bs, wb, Reads-map r f bs a rb, eb)

module _ {ℓ κ} {A : Type ℓ} {B : Type κ} where
  -- A reader that goes on without reading.
  pub Carries-last :
      (w : IoManager → Result IoManager) (r : IoManager → Result (A × IoManager))
      (k : A → IoManager → Result (B × IoManager)) (a : A) (b : B) (n : ℕ)
      → Carries w r a n
      → ((io : IoManager) → k a io ≡ ok (b, io))
      → Carries w (λ io. r io >>= λ p. k p.0 p.1) b n
  Carries-last w r k a b n (bs, wb, rb, eb) last = (
    bs,
    wb,
    (λ rest io ahead.
        let (e, ahead1) = rb rest io ahead in
        (rw e (last (seek (io.buffer_offset + length bs) io)), ahead1)),
    eb,
  )

-- What writes nothing and reads nothing.
pub Carries-nothing {ℓ} : {A : Type ℓ} (a : A) → Carries (λ io. ok io) (λ io. ok (a, io)) a 0
Carries-nothing a = ([], (λ io h. sym (put-nil io h)), Reads-pure a, refl)

-- A value that is written and read back from where it was written.
pub Carries-round_trip {ℓ} :
    {A : Type ℓ} (w : IoManager → Result IoManager) (r : IoManager → Result (A × IoManager)) (a : A)
    (n : ℕ) (io io' : IoManager)
    → Carries w r a n
    → io.buffer_offset ≤ length io.raw_data
    → w io ≡ ok io'
    → (r (seek io.buffer_offset io') ≡ ok (a, io')) × (io'.buffer_offset ≡ io.buffer_offset + n)
Carries-round_trip w r a n io io' (bs, wb, rb, eb) room h =
    let (back, ahead, _, off) = put-Ahead bs io io' (sym (wb io room) ∙ h) in
    let (e, _) = rb back (seek io.buffer_offset io') ahead in
    (e ∙ ap (λ (k : ℕ). ok (a, seek k io')) (sym off), omega (arith, off, eb))
