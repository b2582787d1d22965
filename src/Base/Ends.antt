-- ===== src/Base/Ends.antt =====
-- Calls that end: with a failure of the source's own, or with a value of which something is known.
use mathlib.Core.Path.{◌≡◌, refl}
use mathlib.Core.Bool.{Bool, true, false}
use mathlib.Core.Option.{Option, none, some}
use csql.Base.Tests.{if◌then◌else◌}
use csql.Base.Result.{
  Result, err, ok, Failure, errors, out_of_range, bad_variant, invalid_argument, assertion,
  undefined, no_fuel, ◌>>=◌, or_fail, guard,
}

-- The failure is not that a loop was cut off.
abbrev pub IsReal : Failure → Type 0
IsReal (errors reason) = Unit
IsReal out_of_range = Unit
IsReal bad_variant = Unit
IsReal invalid_argument = Unit
IsReal assertion = Unit
IsReal undefined = Unit
IsReal no_fuel = ⊥

abbrev pub Ends {ℓ} : {V : Type ℓ} → (V → Type 0) → Result V → Type 0
Ends P (err e) = IsReal e
Ends P (ok v) = P v

abbrev pub Anything {ℓ} : {V : Type ℓ} → V → Type 0
Anything v = Unit

pub bind-Ends {ℓ κ} :
    {V : Type ℓ} {W : Type κ} (P : W → Type 0) (Q : V → Type 0) (r : Result V) (k : V → Result W)
    → Ends Q r
    → ((v : V) → Q v → Ends P (k v))
    → Ends P (r >>= k)
bind-Ends P Q (err e) k ends each = ends
bind-Ends P Q (ok v) k ends each = each v ends

pub weaken-Ends {ℓ} :
    {V : Type ℓ} (P Q : V → Type 0) (r : Result V) → Ends Q r → ((v : V) → Q v → P v) → Ends P r
weaken-Ends P Q (err e) ends each = ends
weaken-Ends P Q (ok v) ends each = each v ends

pub either-Ends {ℓ} :
    {V : Type ℓ} (P : V → Type 0) (b : Bool) (x y : Result V)
    → Ends P x
    → Ends P y
    → Ends P (elim b [ true ↦ x | false ↦ y ])
either-Ends P true x y px py = px
either-Ends P false x y px py = py

pub maybe-Ends {ℓ κ} :
    {U : Type κ} {V : Type ℓ} (P : V → Type 0) (o : Option U) (x : Result V) (y : U → Result V)
    → Ends P x
    → ((u : U) → o ≡ some u → Ends P (y u))
    → Ends P (elim o [ none ↦ x | some u ↦ y u ])
maybe-Ends P none x y px py = px
maybe-Ends P (some u) x y px py = py u refl

pub or_fail-Ends {ℓ} :
    {V : Type ℓ} (P : V → Type 0) (o : Option V) (e : Failure)
    → IsReal e
    → ((v : V) → o ≡ some v → P v)
    → Ends P (or_fail o e)
or_fail-Ends P none e real each = real
or_fail-Ends P (some v) e real each = each v refl

pub if-Ends {ℓ} :
    {V : Type ℓ} (P : V → Type 0) (b : Bool) (x y : Result V)
    → Ends P x
    → Ends P y
    → Ends P (if b then x else y)
if-Ends P true x y px py = px
if-Ends P false x y px py = py

pub guard-Ends : (b : Bool) (e : Failure) → IsReal e → Ends Anything (guard b e)
guard-Ends true e real = tt
guard-Ends false e real = real
