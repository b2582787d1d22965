-- ===== src/Io/Bytes.antt =====
-- The bytes of a number, least first, and the two's complement of `int64_t`.
use csql.Base.{
  ℕ, zero, suc, ◌+◌, ◌-◌, ◌*◌, ◌/◌, ◌%◌, ◌^◌, ◌<◌, ◌≡◌, refl, ap, List, [], ◌∷◌, arith, ltb,
  if◌then◌else◌, length,
}
use csql.Base.Int.{ℤ, pos, negsuc, IsInt64}
use native.Mathlib.Nat.{pow-suc}

unfoldable pub le_bytes : ℕ → ℕ → List ℕ
le_bytes zero n = []
le_bytes (suc w) n = n % 256 ∷ le_bytes w (n / 256)

unfoldable pub of_le : List ℕ → ℕ
of_le [] = 0
of_le (b ∷ bs) = b + 256 * of_le bs

pub length-le_bytes : (w n : ℕ) → length (le_bytes w n) ≡ w
unfolding le_bytes
length-le_bytes zero n = refl
length-le_bytes (suc w) n = ap suc (length-le_bytes w (n / 256))

pub of_le-le_bytes : (w n : ℕ) → n < 256 ^ w → of_le (le_bytes w n) ≡ n
unfolding le_bytes of_le
of_le-le_bytes zero n h = omega arith
of_le-le_bytes (suc w) n h =
    omega (arith, of_le-le_bytes w (n / 256) (omega (arith, pow-suc 256 w)))

unfoldable pub to_u64 : ℤ → ℕ
to_u64 (pos n) = n % 2 ^ 64
to_u64 (negsuc n) = 2 ^ 64 - 1 - n % 2 ^ 64

unfoldable pub of_u64 : ℕ → ℤ
of_u64 n = if ltb n (2 ^ 63) then pos n else negsuc (2 ^ 64 - 1 - n)

pub to_u64_bound : (z : ℤ) → to_u64 z < 256 ^ 8
unfolding to_u64
to_u64_bound (pos n) = omega arith
to_u64_bound (negsuc n) = omega arith

pub of_u64-to_u64 : (z : ℤ) → IsInt64 z → of_u64 (to_u64 z) ≡ z
unfolding of_u64 to_u64
of_u64-to_u64 (pos n) h = ground arith
of_u64-to_u64 (negsuc n) h = ground arith
