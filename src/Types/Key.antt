-- ===== src/Types/Key.antt =====
-- The comparisons of `BPlusKey` in core/util/b_plus_key.cpp, and `std::variant`'s on elements.
use csql.Base.{Bool, true, false, not, ◌∷◌, ◌==◌, if◌then◌else◌, length, str_eq, str_lt}
use csql.Base.Int.{ltb_ℤ, eqb_ℤ}
use csql.Base.Result.{Result, ok, err, assertion, ◌>>=◌}
use csql.Types.{
  KeyElementType, KeyElement, int_element, float_element, varchar_element, BPlusKey, Floats,
}

-- Values of different alternatives compare by the place of the alternative.
unfoldable pub element_lt : Floats → KeyElement → KeyElement → Bool
element_lt f (int_element a) (int_element b) = ltb_ℤ a b
element_lt f (int_element a) (float_element y) = true
element_lt f (int_element a) (varchar_element t) = true
element_lt f (float_element x) (int_element b) = false
element_lt f (float_element x) (float_element y) = f.float_lt x y
element_lt f (float_element x) (varchar_element t) = true
element_lt f (varchar_element s) (int_element b) = false
element_lt f (varchar_element s) (float_element y) = false
element_lt f (varchar_element s) (varchar_element t) = str_lt s t

unfoldable pub element_eq : Floats → KeyElement → KeyElement → Bool
element_eq f (int_element a) (int_element b) = eqb_ℤ a b
element_eq f (float_element x) (float_element y) = f.float_eq x y
element_eq f (varchar_element s) (varchar_element t) = str_eq s t
element_eq f _ _ = false

abbrev pub same_tag : KeyElementType → KeyElementType → Bool
same_tag KeyElementType.int_type KeyElementType.int_type = true
same_tag KeyElementType.float_type KeyElementType.float_type = true
same_tag KeyElementType.varchar_type KeyElementType.varchar_type = true
same_tag _ _ = false

-- The loops of `operator==`, `operator<` and `operator<=`; the latter two differ in what they
-- return at the end. A failed `assert` ends the program.
unfoldable pub eq_loop : Floats → BPlusKey → BPlusKey → Result Bool
unfolding element_eq
eq_loop f (p ∷ k) (q ∷ l) =
    let rest = eq_loop f k l in
    if not (same_tag p.first q.first)
    then err assertion
    else if not (element_eq f p.second q.second)
    then ok false
    else rest
eq_loop f _ _ = ok true

unfoldable pub order_loop : Floats → Bool → BPlusKey → BPlusKey → Result Bool
unfolding element_lt
order_loop f last (p ∷ k) (q ∷ l) =
    let rest = order_loop f last k l in
    if not (same_tag p.first q.first)
    then err assertion
    else if element_lt f p.second q.second
    then ok true
    else if element_lt f q.second p.second
    then ok false
    else rest
order_loop f last _ _ = ok last

unfoldable pub key_eq : Floats → BPlusKey → BPlusKey → Result Bool
unfolding eq_loop
key_eq f k l = if length k == length l then eq_loop f k l else err assertion

unfoldable pub key_ne : Floats → BPlusKey → BPlusKey → Result Bool
unfolding key_eq
key_ne f k l = do b ← key_eq f k l; ok (not b)

unfoldable pub key_lt : Floats → BPlusKey → BPlusKey → Result Bool
unfolding order_loop
key_lt f k l = if length k == length l then order_loop f false k l else err assertion

unfoldable pub key_le : Floats → BPlusKey → BPlusKey → Result Bool
unfolding order_loop
key_le f k l = if length k == length l then order_loop f true k l else err assertion
