-- ===== src/Base/Result.antt =====
-- What a C++ call comes to: a value, or the way in which it fails.
use mathlib.Core.Option.{Option, none, some}
use mathlib.Core.Path.{◌≡◌, refl, subst}
use mathlib.Core.Bool.{Bool, true, false}
use csql.Base.Text.{Str}

-- `errors` is `throw Errors(reason)`; `out_of_range` and `bad_variant` are what `at` and `std::get`
-- throw; `assertion` is a failed `assert`; `undefined` is undefined behaviour; `no_fuel` says that
-- a loop was cut off.
pub data Failure : Type 0 where
  errors : Str → Failure
  out_of_range bad_variant invalid_argument assertion undefined no_fuel : Failure

pub data Result {ℓ} (Value : Type ℓ) : Type ℓ where
  err : Failure → Result Value
  ok : Value → Result Value

-- What `at` and `get` do with a missing value.
abbrev pub or_fail {ℓ} : {V : Type ℓ} → Option V → Failure → Result V
or_fail (some v) missing = ok v
or_fail none missing = err missing

-- An `if` that throws, or an `assert`.
abbrev pub guard : Bool → Failure → Result (Unit {0})
guard false failure = err failure
guard true failure = ok tt

-- The statements after a call run when it has returned.
infixl 5 ◌>>=◌
abbrev pub ◌>>=◌ {ℓ κ} : {V : Type ℓ} {W : Type κ} → Result V → (V → Result W) → Result W
err failure >>= after = err failure
ok v >>= after = after v

infixl 5 ◌>>◌
abbrev pub ◌>>◌ {ℓ} : {W : Type ℓ} → Result (Unit {0}) → Result W → Result W
checked >> after = checked >>= λ nothing. after

-- What a call that returned went through.
pub returned {ℓ κ} :
    {V : Type ℓ} {W : Type κ} (r : Result V) (k : V → Result W) (w : W)
    → (r >>= k) ≡ ok w
    → (v : V) × (r ≡ ok v) × (k v ≡ ok w)
returned (err e) k w h = absurd cc
returned (ok v) k w h = (v, refl, h)

pub ok_injective {ℓ} : {V : Type ℓ} (v w : V) → ok v ≡ ok w → v ≡ w
ok_injective v w h = cc

-- What holds of the value of a call, if it returns one.
abbrev pub Post {ℓ κ} : {V : Type ℓ} → (V → Type κ) → Result V → Type κ
Post P (err e) = Unit
Post P (ok v) = P v

-- The statements after a call, of whatever it returns and of what it is known to return.
pub after-Post {ℓ κ ι} :
    {V : Type ℓ} {W : Type κ} (P : W → Type ι) (r : Result V) (k : V → Result W)
    → ((v : V) → Post P (k v))
    → Post P (r >>= k)
after-Post P (err e) k each = tt
after-Post P (ok v) k each = each v

pub bind-Post {ℓ κ ι μ} :
    {V : Type ℓ} {W : Type κ} (P : W → Type ι) (Q : V → Type μ) (r : Result V) (k : V → Result W)
    → Post Q r
    → ((v : V) → Q v → Post P (k v))
    → Post P (r >>= k)
bind-Post P Q (err e) k holds each = tt
bind-Post P Q (ok v) k holds each = each v holds

pub Post-ok {ℓ κ} : {V : Type ℓ} (P : V → Type κ) (r : Result V) (v : V) → Post P r → r ≡ ok v → P v
Post-ok P (err e) v holds h = absurd cc
Post-ok P (ok w) v holds h = subst P (ok_injective w v h) holds

pub Post-of {ℓ κ} :
    {V : Type ℓ} (P : V → Type κ) (r : Result V) → ((v : V) → r ≡ ok v → P v) → Post P r
Post-of P (err e) each = tt
Post-of P (ok v) each = each v refl

pub either-Post {ℓ κ} :
    {V : Type ℓ} (P : V → Type κ) (b : Bool) (x y : Result V)
    → Post P x
    → Post P y
    → Post P (elim b [ true ↦ x | false ↦ y ])
either-Post P true x y px py = px
either-Post P false x y px py = py

pub maybe-Post {ℓ κ ι} :
    {U : Type ι} {V : Type ℓ} (P : V → Type κ) (o : Option U) (x : Result V) (y : U → Result V)
    → Post P x
    → ((u : U) → Post P (y u))
    → Post P (elim o [ none ↦ x | some u ↦ y u ])
maybe-Post P none x y px py = px
maybe-Post P (some u) x y px py = py u

pub weaken-Post {ℓ κ ι} :
    {V : Type ℓ} (P : V → Type κ) (Q : V → Type ι) (r : Result V)
    → Post Q r
    → ((v : V) → Q v → P v)
    → Post P r
weaken-Post P Q (err e) holds each = tt
weaken-Post P Q (ok v) holds each = each v holds
