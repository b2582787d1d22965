-- ===== src/Types/Order.antt =====
-- Keys of one shape are ordered: `operator<` is a strict weak order on them, `operator<=` its
-- complement turned round, and no comparison fails an assertion.
use csql.Base.{
  ℕ, suc, ◌≡◌, refl, ap, Bool, true, false, not, ◌⊎◌, inl, inr, List, [], ◌∷◌, arith, ◌==◌,
  if◌then◌else◌, length, str_lt_irrefl, str_lt_trans, str_trichotomy, str_eq_iff, ==_iff,
}
use csql.Base.Result.{ok}
use csql.Types.{
  KeyElementType, KeyElement, int_element, float_element, varchar_element, BPlusKey, Floats,
}
use csql.Types.Key.{
  element_lt, element_eq, same_tag, eq_loop, order_loop, key_lt, key_le, key_eq, key_ne,
}

-- What IEEE 754 says of `<` between numbers: a strict weak order.
pub record FloatOrder (f : Floats) (IsNumber : ℕ → Type 0) : Type 0 where
  pub asym : (x y : ℕ) → IsNumber x → IsNumber y → f.float_lt x y ≡ true → f.float_lt y x ≡ false
  pub cotrans :
      (x y z : ℕ)
      → IsNumber x
      → IsNumber y
      → IsNumber z
      → f.float_lt x z ≡ true
      → (f.float_lt x y ≡ true) ⊎ (f.float_lt y z ≡ true)
  pub apart : (x y : ℕ) → IsNumber x → IsNumber y → f.float_lt x y ≡ true → f.float_eq x y ≡ false

-- A value of the tag's alternative; a double is a number.
abbrev pub IsOf : (ℕ → Type 0) → KeyElementType → KeyElement → Type 0
IsOf N KeyElementType.int_type (int_element z) = Unit
IsOf N KeyElementType.float_type (float_element x) = N x
IsOf N KeyElementType.varchar_type (varchar_element s) = Unit
IsOf N _ _ = ⊥

-- Keys with these tags, whose doubles are numbers.
abbrev pub HasShape : (ℕ → Type 0) → List KeyElementType → BPlusKey → Type 0
HasShape N [] [] = Unit
HasShape N [] (p ∷ k) = ⊥
HasShape N (t ∷ ts) [] = ⊥
HasShape N (t ∷ ts) (p ∷ k) = (p.first ≡ t) × IsOf N t p.second × HasShape N ts k

-- The comparison of two keys of one shape, with no assertion.
unfoldable pub lt_keys : Floats → BPlusKey → BPlusKey → Bool
lt_keys f (p ∷ k) (q ∷ l) =
    if element_lt f p.second q.second
    then true
    else if element_lt f q.second p.second
    then false
    else lt_keys f k l
lt_keys f _ _ = false

same_tag_refl : (t : KeyElementType) → same_tag t t ≡ true
same_tag_refl KeyElementType.int_type = refl
same_tag_refl KeyElementType.float_type = refl
same_tag_refl KeyElementType.varchar_type = refl

same_tag_eq : (s t u : KeyElementType) → s ≡ u → t ≡ u → same_tag s t ≡ true
same_tag_eq s t u e e' = rw (e, e') (same_tag_refl u)

module _ (f : Floats) (N : ℕ → Type 0) where
  length-HasShape :
      (ts : List KeyElementType) (k l : BPlusKey)
      → HasShape N ts k
      → HasShape N ts l
      → length k ≡ length l
  length-HasShape [] [] [] h h' = refl
  length-HasShape (t ∷ ts) (p ∷ k) (q ∷ l) h h' = ap suc (length-HasShape ts k l h.2 h'.2)
  length-HasShape [] [] (q ∷ l) h h' = absurd h'
  length-HasShape [] (p ∷ k) l h h' = absurd h
  length-HasShape (t ∷ ts) [] l h h' = absurd h
  length-HasShape (t ∷ ts) (p ∷ k) [] h h' = absurd h'

module _ (f : Floats) (N : ℕ → Type 0) (o : FloatOrder f N) where
  element_lt_asym :
      (t : KeyElementType) (a b : KeyElement)
      → IsOf N t a
      → IsOf N t b
      → element_lt f a b ≡ true
      → element_lt f b a ≡ false
  unfolding element_lt
  element_lt_asym KeyElementType.int_type (int_element a) (int_element b) h k lt = ground arith
  element_lt_asym KeyElementType.float_type (float_element x) (float_element y) h k lt =
      o.asym x y h k lt
  element_lt_asym KeyElementType.varchar_type (varchar_element s) (varchar_element u) h k lt =
      ground (arith, str_lt_trans s u s, str_lt_irrefl s)
  element_lt_asym t a b h k lt = ground arith

  element_lt_cotrans :
      (t : KeyElementType) (a b c : KeyElement)
      → IsOf N t a
      → IsOf N t b
      → IsOf N t c
      → element_lt f a c ≡ true
      → (element_lt f a b ≡ true) ⊎ (element_lt f b c ≡ true)
  unfolding element_lt
  element_lt_cotrans KeyElementType.int_type (int_element a) (int_element b) (int_element c) h k l
        lt =
      ground arith
  element_lt_cotrans KeyElementType.float_type (float_element x) (float_element y) (float_element z)
        h k l lt =
      o.cotrans x y z h k l lt
  element_lt_cotrans KeyElementType.varchar_type (varchar_element s) (varchar_element u)
        (varchar_element v) h k l lt =
      ground (arith, str_trichotomy s u, str_lt_trans u s v)
  element_lt_cotrans t a b c h k l lt = ground arith

  order_loop-lt_keys :
      (ts : List KeyElementType) (k l : BPlusKey)
      → HasShape N ts k
      → HasShape N ts l
      → (order_loop f false k l ≡ ok (lt_keys f k l))
        × (order_loop f true k l ≡ ok (not (lt_keys f l k)))
  unfolding order_loop lt_keys
  order_loop-lt_keys [] [] [] h h' = (refl, refl)
  order_loop-lt_keys (t ∷ ts) (p ∷ k) (q ∷ l) h h' =
      let e = same_tag_eq p.first q.first t h.0 h'.0 in
      let (a, b) = order_loop-lt_keys ts k l h.2 h'.2 in
      let y = element_lt_asym t p.second q.second h.1 h'.1 in (ground arith, ground arith)
  order_loop-lt_keys [] [] (q ∷ l) h h' = absurd h'
  order_loop-lt_keys [] (p ∷ k) l h h' = absurd h
  order_loop-lt_keys (t ∷ ts) [] l h h' = absurd h
  order_loop-lt_keys (t ∷ ts) (p ∷ k) [] h h' = absurd h'

  pub lt_keys_asym :
      (ts : List KeyElementType) (k l : BPlusKey)
      → HasShape N ts k
      → HasShape N ts l
      → lt_keys f k l ≡ true
      → lt_keys f l k ≡ false
  unfolding lt_keys
  lt_keys_asym [] [] [] h h' lt = refl
  lt_keys_asym (t ∷ ts) (p ∷ k) (q ∷ l) h h' lt =
      ground (arith, element_lt_asym t p.second q.second h.1 h'.1, lt_keys_asym ts k l h.2 h'.2)
  lt_keys_asym [] [] (q ∷ l) h h' lt = absurd h'
  lt_keys_asym [] (p ∷ k) l h h' lt = absurd h
  lt_keys_asym (t ∷ ts) [] l h h' lt = absurd h
  lt_keys_asym (t ∷ ts) (p ∷ k) [] h h' lt = absurd h'

  pub lt_keys_cotrans :
      (ts : List KeyElementType) (k l m : BPlusKey)
      → HasShape N ts k
      → HasShape N ts l
      → HasShape N ts m
      → lt_keys f k m ≡ true
      → (lt_keys f k l ≡ true) ⊎ (lt_keys f l m ≡ true)
  unfolding lt_keys
  lt_keys_cotrans (t ∷ ts) (p ∷ k) (q ∷ l) (r ∷ m) h h' h'' lt = ground (
    arith,
    element_lt_cotrans t p.second q.second r.second h.1 h'.1 h''.1,
    element_lt_cotrans t q.second r.second p.second h'.1 h''.1 h.1,
    element_lt_cotrans t r.second p.second q.second h''.1 h.1 h'.1,
    lt_keys_cotrans ts k l m h.2 h'.2 h''.2,
  )
  lt_keys_cotrans [] [] [] [] h h' h'' lt = cc
  lt_keys_cotrans ts k l m h h' h'' lt = ground arith

  pub key_lt-lt_keys :
      (ts : List KeyElementType) (k l : BPlusKey)
      → HasShape N ts k
      → HasShape N ts l
      → (key_lt f k l ≡ ok (lt_keys f k l)) × (key_le f k l ≡ ok (not (lt_keys f l k)))
  unfolding key_lt key_le
  key_lt-lt_keys ts k l h h' =
      let n : (length k == length l) ≡ true = (==_iff _ _).1 (length-HasShape f N ts k l h h') in
      let (a, b) = order_loop-lt_keys ts k l h h' in (rw n a, rw n b)

  pub lt_keys_trans :
      (ts : List KeyElementType) (k l m : BPlusKey)
      → HasShape N ts k
      → HasShape N ts l
      → HasShape N ts m
      → lt_keys f k l ≡ true
      → lt_keys f l m ≡ true
      → lt_keys f k m ≡ true
  lt_keys_trans ts k l m h h' h'' a b = elim (lt_keys_cotrans ts k m l h h'' h' a) [
    | inl c ↦ c
    | inr c ↦ absurd (ground (arith, c, lt_keys_asym ts l m h' h'' b))
  ]

  element_eq-lt :
      (t : KeyElementType) (a b : KeyElement)
      → IsOf N t a
      → IsOf N t b
      → element_lt f a b ≡ true
      → element_eq f a b ≡ false
  unfolding element_lt element_eq
  element_eq-lt KeyElementType.int_type (int_element a) (int_element b) h k lt = ground arith
  element_eq-lt KeyElementType.float_type (float_element x) (float_element y) h k lt =
      o.apart x y h k lt
  element_eq-lt KeyElementType.varchar_type (varchar_element s) (varchar_element u) h k lt =
      ground (arith, str_lt_irrefl s, str_eq_iff s u)
  element_eq-lt t a b h k lt = ground arith

  eq_loop-lt_keys :
      (ts : List KeyElementType) (k l : BPlusKey)
      → HasShape N ts k
      → HasShape N ts l
      → lt_keys f k l ≡ true
      → eq_loop f k l ≡ ok false
  unfolding eq_loop lt_keys
  eq_loop-lt_keys (t ∷ ts) (p ∷ k) (q ∷ l) h h' lt = ground (
    arith,
    same_tag_eq p.first q.first t h.0 h'.0,
    element_eq-lt t p.second q.second h.1 h'.1,
    eq_loop-lt_keys ts k l h.2 h'.2,
  )
  eq_loop-lt_keys [] [] [] h h' lt = cc
  eq_loop-lt_keys ts k l h h' lt = ground arith

  pub key_ne-lt_keys :
      (ts : List KeyElementType) (k l : BPlusKey)
      → HasShape N ts k
      → HasShape N ts l
      → lt_keys f k l ≡ true
      → key_ne f k l ≡ ok true
  unfolding key_ne key_eq
  key_ne-lt_keys ts k l h h' lt =
      let n : (length k == length l) ≡ true = (==_iff _ _).1 (length-HasShape f N ts k l h h') in
      rw (n, eq_loop-lt_keys ts k l h h' lt) refl

  -- On keys of one shape whose doubles are numbers, `operator<` and `operator<=` return, `k <= l` is
  -- the negation of `l < k`, and `operator<` is asymmetric, transitive, and transitive in its
  -- complement: a strict weak order.
  pub key_lt-StrictWeak :
      (ts : List KeyElementType) (k l m : BPlusKey)
      → HasShape N ts k
      → HasShape N ts l
      → HasShape N ts m
      → ((b : Bool) × (key_lt f l k ≡ ok b) × (key_le f k l ≡ ok (not b)))
        × (key_lt f k l ≡ ok true → key_lt f l k ≡ ok false)
        × (key_lt f k l ≡ ok true → key_lt f l m ≡ ok true → key_lt f k m ≡ ok true)
        × (key_lt f k m ≡ ok true → (key_lt f k l ≡ ok true) ⊎ (key_lt f l m ≡ ok true))
  key_lt-StrictWeak ts k l m hk hl hm =
      let (kl, kl') = key_lt-lt_keys ts k l hk hl in
      let (lk, _) = key_lt-lt_keys ts l k hl hk in
      let (lm, _) = key_lt-lt_keys ts l m hl hm in
      let (km, _) = key_lt-lt_keys ts k m hk hm in
      (
        (lt_keys f l k, lk, kl'),
        (λ a. ground (arith, kl, lk, lt_keys_asym ts k l hk hl)),
        (λ a b. ground (arith, kl, lm, km, lt_keys_trans ts k l m hk hl hm)),
        (λ a. ground (arith, kl, lm, km, lt_keys_cotrans ts k l m hk hl hm)),
      )
