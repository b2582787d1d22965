-- ===== src/Expression/Safety.antt =====
-- The expressions of core/storage/expression that fit their rows come to values of their kind.
use csql.Base.{
  ℕ, ◌≡◌, refl, Bool, true, false, not, ◌||◌, inl, inr, some, List, [], ◌∷◌, ◌==◌, if◌then◌else◌,
  arith, Str, str_eq, str_eq_iff, Bool-cases,
}
use csql.Base.Assoc.{lookup, pair_eq, str_eq_instance}
use csql.Base.Result.{Result, ok, err, ◌>>=◌}
use csql.Types.{SqlTypes, sql_bool, Floats}
use csql.Operators.{
  JoinedTuple, OtherOperator, SetTypes, SqlTypeCompareResult, UnaryOperator, apply_set, apply_unary,
  any_equal, apply_attribute, compare_sql_type, finish_other, named, index, is_equal, is_greater,
  same_index,
}
use csql.Expression.{Expression, apply}
use csql.Expression.Typed.{
  Kind, varchar_kind, bool_kind, IsOf, int_is, float_is, varchar_is, datetime_is, bool_is,
  IsOrdered, AllOf, IsTest, Schema, HasType, attribute_typed, value_typed, compared_typed,
  logic_typed, like_typed, arithmetic_typed, not_typed, test_typed, Means, Lacks, IsOnly, here,
  later, Fits, calculates, Safe,
}
use csql.Expression.Answers.{
  bind-Safe, Answers, compare_sql_type-Answers, comparison-Safe, logic-Safe, pattern-Safe, if-Safe,
  apply_arithmetic-Safe,
}

-- The tests on a set of values.
same_index_one : (k : Kind) (v w : SqlTypes) → IsOf k v → IsOf k w → (index v == index w) ≡ true
same_index_one k _ _ (int_is a) (int_is b) = refl
same_index_one k _ _ (float_is a) (float_is b) = refl
same_index_one k _ _ (varchar_is a) (varchar_is b) = refl
same_index_one k _ _ (datetime_is a) (datetime_is b) = refl
same_index_one k _ _ (bool_is a) (bool_is b) = refl

same_index-AllOf :
    (k : Kind) (v : SqlTypes) (ws : List SqlTypes) → IsOf k v → AllOf k ws → same_index v ws ≡ true
same_index-AllOf k v [] i all = refl
same_index-AllOf k v (w ∷ ws) i all = same_index_one k v w i all.0

module _ (c : Bool) where
  not-Safe :
      (v : SqlTypes) → IsOf bool_kind v → Safe c bool_kind (apply_unary UnaryOperator.is_not v)
  unfolding apply_unary
  not-Safe _ (bool_is b) = bool_is (not b)

  first-Safe :
      (r : Result SqlTypeCompareResult) (rest : Result Bool)
      → Answers r
      → Safe c bool_kind (rest >>= λ b. ok (sql_bool b))
      → Safe c bool_kind
          ((r >>= λ r. if is_equal r then ok true else rest) >>= λ b. ok (sql_bool b))
  first-Safe (err e) rest a safe = absurd a
  first-Safe (ok SqlTypeCompareResult.cant_compare) rest a safe = absurd a
  first-Safe (ok SqlTypeCompareResult.equal) rest a safe = bool_is true
  first-Safe (ok SqlTypeCompareResult.less_than) rest a safe = safe
  first-Safe (ok SqlTypeCompareResult.greater) rest a safe = safe
  first-Safe (ok SqlTypeCompareResult.not_equal) rest a safe = safe

  answered-Safe :
      (g : SqlTypeCompareResult → Bool) (s : Result SqlTypeCompareResult)
      → Answers s
      → Safe c bool_kind (s >>= λ r. ok (sql_bool (g r)))
  answered-Safe g (err e) b = absurd b
  answered-Safe g (ok r) b = bool_is (g r)

  range-Safe :
      (r : Result SqlTypeCompareResult) (below : Result SqlTypes)
      → Answers r
      → Safe c bool_kind below
      → Safe c bool_kind (r >>= λ r. if is_greater r then ok (sql_bool false) else below)
  range-Safe (err e) below a safe = absurd a
  range-Safe (ok r) below a safe =
      if-Safe c bool_kind (is_greater r) (ok (sql_bool false)) below (bool_is false) safe

  any_equal-returns :
      (f : Floats) (k : Kind) (v : SqlTypes) (ws : List SqlTypes)
      → IsOrdered k
      → IsOf k v
      → AllOf k ws
      → Safe c bool_kind (any_equal f v ws >>= λ b. ok (sql_bool b))
  unfolding any_equal
  any_equal-returns f k v [] o i all = bool_is false
  any_equal-returns f k v (w ∷ ws) o i all =
      first-Safe (compare_sql_type f v w) (any_equal f v ws)
        (compare_sql_type-Answers f k v w o i all.0) (any_equal-returns f k v ws o i all.1)

  apply_set-Safe :
      (f : Floats) (kind : SetTypes) (k : Kind) (ws : List SqlTypes) (v : SqlTypes)
      → IsOrdered k
      → AllOf k ws
      → IsTest kind ws
      → IsOf k v
      → Safe c bool_kind (apply_set f kind ws v)
  unfolding apply_set
  apply_set-Safe f SetTypes.list k ws v o all t i =
      rw (same_index-AllOf k v ws i all) (any_equal-returns f k v ws o i all)
  apply_set-Safe f SetTypes.range k (low ∷ high ∷ []) v o all t i =
      rw (same_index_one k v low i all.0) (
        range-Safe (compare_sql_type f low v) _ (compare_sql_type-Answers f k low v o all.0 i) (
          answered-Safe (λ r. not (is_greater r)) (compare_sql_type f v high)
            (compare_sql_type-Answers f k v high o i all.1.0)))
  apply_set-Safe f SetTypes.range k ws v o all t i = absurd (omega arith)

  finish_other-Safe :
      (op : OtherOperator) (v : SqlTypes) → IsOf bool_kind v → Safe c bool_kind (finish_other op v)
  finish_other-Safe OtherOperator.in_set _ (bool_is b) = bool_is b
  finish_other-Safe OtherOperator.not_in _ (bool_is b) = bool_is b
  finish_other-Safe _ _ (bool_is b) = bool_is (not b)

str_ne : (s t : Str) → ¬ s ≡ t → str_eq s t ≡ false
str_ne s t differs = elim (Bool-cases (str_eq s t)) [
  | inl same ↦ absurd (differs ((str_eq_iff s t).0 same))
  | inr other ↦ other
]

-- The value of an attribute is that of the one element that it means.
named-Lacks : (name : Str) (t : JoinedTuple) → Lacks (Means [] name) t → named name t ≡ []
unfolding named
named-Lacks name [] l = refl
named-Lacks name (((entity, attr), v) ∷ t) l =
    let other : str_eq attr name ≡ false = str_ne attr name l.0 in rw other (named-Lacks name t l.1)

named-IsOnly :
    (name : Str) (t : JoinedTuple) (v : SqlTypes)
    → IsOnly (Means [] name) t v
    → named name t ≡ v ∷ []
unfolding named
named-IsOnly name _ v (here {key} {t} same none_after) =
    let found : str_eq key.1 name ≡ true = (str_eq_iff key.1 name).1 same in
    rw (found, named-Lacks name t none_after) refl
named-IsOnly name _ v (later {key} {t} differs only) =
    let other : str_eq key.1 name ≡ false = str_ne key.1 name differs in
    rw other (named-IsOnly name t v only)

lookup-IsOnly :
    (entity name : Str) (c : ℕ) (t : JoinedTuple) (v : SqlTypes)
    → IsOnly (Means (c ∷ entity) name) t v
    → lookup (c ∷ entity, name) t ≡ some v
unfolding lookup
lookup-IsOnly entity name c _ v (here {key} {t} same none_after) =
    let found : pair_eq.beq key (c ∷ entity, name) ≡ true =
      (pair_eq.beq_iff key (c ∷ entity, name)).1 same in
    rw found refl
lookup-IsOnly entity name c _ v (later {key} {t} differs only) =
    elim (Bool-cases (pair_eq.beq key (c ∷ entity, name))) [
      | inl same ↦ absurd (differs ((pair_eq.beq_iff key (c ∷ entity, name)).0 same))
      | inr other ↦ rw other (lookup-IsOnly entity name c t v only)
    ]

apply_attribute-IsOnly :
    (entity name : Str) (t : JoinedTuple) (v : SqlTypes)
    → IsOnly (Means entity name) t v
    → apply_attribute entity name t ≡ ok v
unfolding apply_attribute
apply_attribute-IsOnly [] name t v only = rw (named-IsOnly name t v only, apply_attribute) refl
apply_attribute-IsOnly (c ∷ entity) name t v only = rw (lookup-IsOnly entity name c t v only) refl

weaken-Safe :
    (c d : Bool) (k : Kind) (r : Result SqlTypes) → (c ≡ true → d ≡ true) → Safe c k r → Safe d k r
weaken-Safe c d k (err e) g safe = (g safe.0, safe.1)
weaken-Safe c d k (ok v) g safe = safe

-- The two operands of an operator, one after the other.
both-Safe :
    (l r : Expression) (k m n : Kind) (a b : Result SqlTypes)
    (after : SqlTypes → SqlTypes → Result SqlTypes)
    → Safe (calculates l) k a
    → Safe (calculates r) m b
    → ((v : SqlTypes)
        → IsOf k v
        → (w : SqlTypes) → IsOf m w
        → Safe (calculates l || calculates r) n (after v w))
    → Safe (calculates l || calculates r) n (a >>= λ v. b >>= after v)
both-Safe l r k m n a b after sl sr each =
    let c = calculates l || calculates r in
    bind-Safe c k n a _ (weaken-Safe (calculates l) c k a (λ h. ground (arith, h)) sl) (λ v i.
      bind-Safe c m n b _ (weaken-Safe (calculates r) c m b (λ h. ground (arith, h)) sr)
        (λ w j. each v i w j))

module _ (f : Floats) (columns : Schema) (t : JoinedTuple) (fits : Fits columns t) where
  -- An expression that fits the columns comes, on a row that has one value, of its kind, for each of
  -- them, to a value of its own kind, or, when there is arithmetic in it, to a failure of that: a
  -- division by zero, a modulus of floats or an overflow.
  pub apply-Safe :
      (e : Expression) (k : Kind) → HasType columns e k → Safe (calculates e) k (apply f e t)
  unfolding apply
  apply-Safe _ k (attribute_typed entity name _ h) =
      let (v, only, i) = fits entity name k h in rw (apply_attribute-IsOnly entity name t v only) i
  apply-Safe _ k (value_typed v _ i) = i
  apply-Safe _ _ (compared_typed op k l r p o tl tr) =
      let c = calculates l || calculates r in
      both-Safe l r k k bool_kind (apply f l t) (apply f r t) _ (apply-Safe l k tl)
        (apply-Safe r k tr)
        (λ a ia b ib. comparison-Safe c f op a b p (compare_sql_type-Answers f k a b o ia ib))
  apply-Safe _ _ (logic_typed op l r p tl tr) =
      let c = calculates l || calculates r in
      both-Safe l r bool_kind bool_kind bool_kind (apply f l t) (apply f r t) _
        (apply-Safe l bool_kind tl) (apply-Safe r bool_kind tr)
        (λ a ia b ib. logic-Safe c f op a b p ia ib)
  apply-Safe _ _ (like_typed op l r p tl tr) =
      let c = calculates l || calculates r in
      both-Safe l r varchar_kind varchar_kind bool_kind (apply f l t) (apply f r t) _
        (apply-Safe l varchar_kind tl) (apply-Safe r varchar_kind tr)
        (λ a ia b ib. pattern-Safe c f op a b p ia ib)
  apply-Safe _ _ (arithmetic_typed op k m n l r h tl tr) =
      bind-Safe true k n (apply f l t) _
        (weaken-Safe (calculates l) true k _ (λ h. refl) (apply-Safe l k tl))
        (λ a ia.
          bind-Safe true m n (apply f r t) _
            (weaken-Safe (calculates r) true m _ (λ h. refl) (apply-Safe r m tr))
            (λ b ib. apply_arithmetic-Safe f op k m n a b h ia ib))
  apply-Safe _ _ (not_typed e te) =
      bind-Safe (calculates e) bool_kind bool_kind (apply f e t) _ (apply-Safe e bool_kind te)
        (λ v i. not-Safe (calculates e) v i)
  apply-Safe _ _ (test_typed op kind k l ws o all test tl) =
      let c : Bool = calculates l || false in
      bind-Safe c k bool_kind (apply f l t) _
        (weaken-Safe (calculates l) c k _ (λ h. ground (arith, h)) (apply-Safe l k tl))
        (λ v i.
          bind-Safe c bool_kind bool_kind (apply_set f kind ws v) _
            (apply_set-Safe c f kind k ws v o all test i) (λ w j. finish_other-Safe c op w j))
