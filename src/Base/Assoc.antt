-- ===== src/Base/Assoc.antt =====
-- `std::map` and `std::unordered_map` where only lookups matter: association lists over keys with
-- an equality test.
use csql.Base.Tests.{if◌then◌else◌, ◌==◌ as nat_beq, ==_iff}
use csql.Base.Text.{Str, str_eq, str_eq_iff}
use Prim.Native.Nat.{ℕ}
use mathlib.Core.Path.{◌≡◌, refl}
use mathlib.Core.Logic.{◌↔◌}
use mathlib.Core.Bool.{Bool, true, false, ◌||◌, ◌&&◌}
use mathlib.Core.Option.{Option, none, some}
use mathlib.Core.List.{List, [], ◌∷◌}
use native.Mathlib.Omega.{arith}

-- The keys' `operator==`, which decides equality.
pub record Eq {ℓ} (Key : Type ℓ) : Type ℓ where
  pub beq : Key → Key → Bool
  pub beq_iff : (j k : Key) → (beq j k ≡ true) ↔ (j ≡ k)

instance abbrev pub str_eq_instance : Eq Str
str_eq_instance = record { beq = str_eq; beq_iff = str_eq_iff }

instance abbrev pub nat_eq : Eq ℕ
nat_eq = record { beq = λ j k. nat_beq j k; beq_iff = λ j k. ==_iff j k }

module _ {ℓ} {K : Type ℓ} ⦃e : Eq K⦄ where
  pub beq_refl : (k : K) → e.beq k k ≡ true
  beq_refl k = (e.beq_iff k k).1 refl

  -- `find` over a vector
  unfoldable pub mem : K → List K → Bool
  mem a [] = false
  mem a (x ∷ xs) = e.beq x a || mem a xs

module _ {ℓ κ} {K : Type ℓ} {V : Type κ} ⦃e : Eq K⦄ where
  unfoldable pub lookup : K → List (K × V) → Option V
  lookup k [] = none
  lookup k ((j, v) ∷ m) = if e.beq j k then some v else lookup k m

  -- `m[k] = v`
  unfoldable pub assign : K → V → List (K × V) → List (K × V)
  assign k v [] = (k, v) ∷ []
  assign k v ((j, w) ∷ m) = if e.beq j k then (k, v) ∷ m else (j, w) ∷ assign k v m

  -- `m.erase(k)`
  unfoldable pub remove : K → List (K × V) → List (K × V)
  remove k [] = []
  remove k ((j, w) ∷ m) = let rest = remove k m in if e.beq j k then rest else (j, w) ∷ rest

  unfoldable pub contains : K → List (K × V) → Bool
  contains k [] = false
  contains k ((j, v) ∷ m) = e.beq j k || contains k m

  pub lookup-assign :
      (k j : K) (v : V) (m : List (K × V))
      → lookup j (assign k v m) ≡ (if e.beq k j then some v else lookup j m)
  unfolding lookup assign
  lookup-assign k j v [] = refl
  lookup-assign k j v ((i, w) ∷ m) =
      ground (arith, e.beq_iff k j, e.beq_iff i k, e.beq_iff i j, lookup-assign k j v m)

  pub lookup-remove :
      (k j : K) (m : List (K × V))
      → lookup j (remove k m) ≡ (if e.beq k j then none else lookup j m)
  unfolding lookup remove
  lookup-remove k j [] = ground arith
  lookup-remove k j ((i, w) ∷ m) =
      ground (arith, e.beq_iff k j, e.beq_iff i k, e.beq_iff i j, lookup-remove k j m)

  pub contains-assign :
      (k j : K) (v : V) (m : List (K × V)) → contains j (assign k v m) ≡ (e.beq k j || contains j m)
  unfolding contains assign
  contains-assign k j v [] = refl
  contains-assign k j v ((i, w) ∷ m) =
      ground (arith, e.beq_iff k j, e.beq_iff i k, e.beq_iff i j, contains-assign k j v m)

pub pair_beq_iff {ℓ κ} :
    {A : Type ℓ} {B : Type κ} (a : Eq A) (b : Eq B) (p q : A × B)
    → ((a.beq p.0 q.0 && b.beq p.1 q.1) ≡ true) ↔ (p ≡ q)
pair_beq_iff a b (p, p') (q, q') = (
  (λ h. ground (arith, a.beq_iff p q, b.beq_iff p' q')),
  (λ e. ground (arith, a.beq_iff p q, b.beq_iff p' q')),
)

-- `std::pair`'s `operator==`
instance abbrev pub pair_eq {ℓ κ} : {A : Type ℓ} {B : Type κ} ⦃a : Eq A⦄ ⦃b : Eq B⦄ → Eq (A × B)
pair_eq ⦃a⦄ ⦃b⦄ = record { beq = λ p q. a.beq p.0 q.0 && b.beq p.1 q.1; beq_iff = pair_beq_iff a b }

module _ {ℓ κ} {K : Type ℓ} {V : Type κ} ⦃e : Eq K⦄ where
  pub lookup-eq-none : (k : K) (m : List (K × V)) → contains k m ≡ false → lookup k m ≡ none
  unfolding lookup contains
  lookup-eq-none k [] h = refl
  lookup-eq-none k ((j, v) ∷ m) h = ground (arith, lookup-eq-none k m)
