-- ===== src/Page/Search.antt =====
-- The binary search of `SlottedPage::lower_bound` in core/storage/page/slotted_page.cpp.
use csql.Base.{
  ℕ, zero, suc, ◌+◌, ◌-◌, ◌/◌, ◌≤◌, ◌<◌, ◌≡◌, refl, ap, ◌∙◌, Bool, true, false, not, ◌⊎◌, inl, inr,
  none, some, List, arith, ltb, leb, length, Bool-cases,
}
use csql.Base.Result.{Result, ok, ◌>>=◌}
use csql.Types.{KeyElementType, BPlusKey, Floats}
use csql.Types.Key.{key_lt, key_le}
use csql.Types.Order.{FloatOrder, HasShape, lt_keys, lt_keys_trans, key_lt-lt_keys}
use csql.Page.{SlottedPage, search_loop, key_at, lower_bound}

-- The last place of `l .. r` where `test` holds.
record IsLast (test : ℕ → Bool) (l r m : ℕ) : Type 0 where
  low : l ≤ m
  high : m ≤ r
  holds : test m ≡ true
  after : (j : ℕ) → m < j → j ≤ r → test j ≡ false

-- `test` holds on `l .. r` up to some place only.
IsDecreasing : (ℕ → Bool) → ℕ → ℕ → Type 0
IsDecreasing test l r = (i j : ℕ) → l ≤ i → i < j → j ≤ r → test i ≡ false → test j ≡ false

search_loop-IsLast :
    (fuel : ℕ) (run : ℕ → Result Bool) (test : ℕ → Bool) (l r : ℕ)
    → ((i : ℕ) → l ≤ i → i ≤ r → run i ≡ ok (test i))
    → IsDecreasing test l r
    → l ≤ r
    → r - l < fuel
    → test l ≡ true
    → (m : ℕ) × (search_loop fuel run l r ≡ ok m) × IsLast test l r m
unfolding search_loop IsDecreasing
search_loop-IsLast zero run test l r e d lr fl h = absurd (omega arith)
search_loop-IsLast (suc fuel) run test l r e d lr fl h = elim (Bool-cases (ltb l r)) [
  | inr stop ↦ (
    l,
    rw stop refl,
    record { low = omega arith; high = lr; holds = h; after = λ j lj jr. absurd (ground arith) },
  )
  | inl more ↦
      let mid = (l + r + 1) / 2 in
      let lm : l < mid = ground arith in
      let mr : mid ≤ r = ground arith in
      let em : run mid ≡ ok (test mid) = e mid (omega arith) mr in
      elim (Bool-cases (test mid)) [
        | inl below ↦
            let (m, run_m, last) =
              search_loop-IsLast fuel run test mid r (λ i li ir. e i (omega arith) ir)
                (λ i j li ij jr. d i j (omega arith) ij jr) mr (omega arith) below in
            (
              m,
              rw (more, em, below) run_m,
              record {
                low = ground (arith, last.low);
                high = last.high;
                holds = last.holds;
                after = last.after;
              },
            )
        | inr above ↦
            let (m, run_m, last) =
              search_loop-IsLast fuel run test l (mid - 1) (λ i li ir. e i li (omega arith))
                (λ i j li ij jr. d i j li ij (omega arith)) (omega arith) (omega arith) h in
            (
              m,
              rw (more, em, above) run_m,
              record {
                low = last.low;
                high = ground (arith, last.high);
                holds = last.holds;
                after = λ j mj jr. elim (Bool-cases (ltb j mid)) [
                  | inl near ↦ last.after j mj (ground arith)
                  | inr far ↦ elim (Bool-cases (ltb mid j)) [
                    | inl past ↦ d mid j (omega arith) (ground arith) jr above
                    | inr here ↦ let same : j ≡ mid = ground arith in ap test same ∙ above
                  ]
                ];
              },
            )
      ]
]

-- From slot `begin` on, the page's keys are the `keys i`: of one shape, and growing strictly.
pub record IsKeyed (f : Floats) (N : ℕ → Type 0) (ts : List KeyElementType) (p : SlottedPage)
    (begin : ℕ) (keys : ℕ → BPlusKey) : Type 0 where
  pub count : p.num_slots ≡ length p.tuples
  pub keyed : (i : ℕ) → begin ≤ i → i < length p.tuples → key_at p.tuples i ≡ ok (keys i)
  pub shaped : (i : ℕ) → begin ≤ i → i < length p.tuples → HasShape N ts (keys i)
  pub growing :
      (i j : ℕ) → begin ≤ i → i < j → j < length p.tuples → lt_keys f (keys i) (keys j) ≡ true

-- The last slot from `begin` on whose key is at most `k`, when there is one.
pub record IsPlace (f : Floats) (p : SlottedPage) (k : BPlusKey) (begin : ℕ) (keys : ℕ → BPlusKey)
    (m : ℕ) : Type 0 where
  pub low : begin ≤ m
  pub high : m < length p.tuples
  pub at_most : lt_keys f k (keys m) ≡ false
  pub next : (j : ℕ) → m < j → j < length p.tuples → lt_keys f k (keys j) ≡ true

module _ (f : Floats) (N : ℕ → Type 0) (o : FloatOrder f N) where
  -- On a page whose keys from `begin` on grow strictly, `lower_bound` returns: -1 and every key is
  -- greater than `k`, or the last slot whose key is at most `k`, and every later key is greater.
  pub lower_bound-IsPlace :
      (ts : List KeyElementType) (p : SlottedPage) (k : BPlusKey) (begin : ℕ) (keys : ℕ → BPlusKey)
      → HasShape N ts k
      → IsKeyed f N ts p begin keys
      → ((lower_bound f p k begin ≡ ok none)
          × ((j : ℕ) → begin ≤ j → j < length p.tuples → lt_keys f k (keys j) ≡ true))
        ⊎ ((m : ℕ) × (lower_bound f p k begin ≡ ok (some m)) × IsPlace f p k begin keys m)
  unfolding lower_bound IsDecreasing
  lower_bound-IsPlace ts p k begin keys hk h = elim (Bool-cases (leb (length p.tuples) begin)) [
    | inl empty ↦ inl (rw empty refl, λ j bj jn. absurd (ground arith))
    | inr some_left ↦
        let bn : begin < length p.tuples = ground arith in
        let hb = h.shaped begin (omega arith) bn in
        let first : key_at p.tuples begin ≡ ok (keys begin) = h.keyed begin (omega arith) bn in
        let first_lt : key_lt f k (keys begin) ≡ ok (lt_keys f k (keys begin)) =
          (key_lt-lt_keys f N o ts k (keys begin) hk hb).0 in
        elim (Bool-cases (lt_keys f k (keys begin))) [
          | inl before ↦ inl (
            rw (some_left, first, first_lt, before) refl,
            λ j bj jn. elim (Bool-cases (ltb begin j)) [
              | inl past ↦
                  lt_keys_trans f N o ts k (keys begin) (keys j) hk hb (h.shaped j bj jn) before
                    (h.growing begin j (omega arith) (ground arith) jn)
              | inr here ↦
                  let same : j ≡ begin = ground arith in
                  ap (λ i. lt_keys f k (keys i)) same ∙ before
            ],
          )
          | inr not_before ↦
              let (m, found, last) =
                search_loop-IsLast (suc p.num_slots)
                  (λ mid. key_at p.tuples mid >>= λ q. key_le f q k)
                  (λ i. not (lt_keys f k (keys i))) begin (p.num_slots - 1)
                  (λ i bi ir.
                    let n = h.count in
                    let il : i < length p.tuples = omega arith in
                    let at_i : key_at p.tuples i ≡ ok (keys i) = h.keyed i bi il in
                    rw at_i ((key_lt-lt_keys f N o ts (keys i) k (h.shaped i bi il) hk).1))
                  (λ i j bi ij jr no.
                    let n = h.count in
                    let jl : j < length p.tuples = omega arith in
                    let il : i < length p.tuples = omega arith in
                    let bj : begin ≤ j = omega arith in
                    let ki : lt_keys f k (keys i) ≡ true = ground (arith, no) in
                    ap not (
                      lt_keys_trans f N o ts k (keys i) (keys j) hk (h.shaped i bi il)
                        (h.shaped j bj jl) ki (h.growing i j bi ij jl)))
                  (omega (arith, h.count)) (omega (arith, h.count)) (ap not not_before) in
              inr (
                m,
                rw (some_left, first, first_lt, not_before, found) refl,
                record {
                  low = last.low;
                  high = omega (arith, h.count, last.high);
                  at_most = ground (arith, last.holds);
                  next = λ j mj jn. ground (arith, last.after j mj (omega (arith, h.count)));
                },
              )
        ]
  ]
