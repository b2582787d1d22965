-- ===== src/Joins/Restores.antt =====
-- What adding a tuple to a joined tuple and taking it out again, in core/util/helpers.cpp, leaves.
use csql.Base.{
  ◌≡◌, refl, ◌∙◌, Bool, true, false, ◌||◌, inl, inr, none, [], ◌∷◌, arith, if◌then◌else◌, Str,
  Bool-cases,
}
use csql.Base.Assoc.{lookup, remove, lookup-remove, pair_eq, str_eq_instance}
use csql.Types.{SqlTypes}
use csql.Types.Tuples.{Tuple}
use csql.Operators.{JoinedTuple}
use csql.Joins.{key_is, insert_joined, add_to_joined_tuple, remove_from_joined_tuple}

-- The key is that of an element of the tuple, in the entity.
abbrev pub is_of : Str → Tuple → Str × Str → Bool
is_of entity [] q = false
is_of entity ((name, v) ∷ es) q = key_is (entity, name) q || is_of entity es q

pub lookup-insert_joined :
    (k q : Str × Str) (v : SqlTypes) (t : JoinedTuple)
    → key_is k q ≡ false
    → lookup q (insert_joined k v t) ≡ lookup q t
unfolding insert_joined lookup
lookup-insert_joined k q v [] h = rw h refl
lookup-insert_joined k q v ((l, w) ∷ t) h = ground (arith, h, lookup-insert_joined k q v t h)

lookup-add_to_joined_tuple :
    (entity : Str) (es : Tuple) (t : JoinedTuple) (q : Str × Str)
    → is_of entity es q ≡ false
    → lookup q (add_to_joined_tuple entity es t) ≡ lookup q t
unfolding add_to_joined_tuple
lookup-add_to_joined_tuple entity [] t q h = refl
lookup-add_to_joined_tuple entity ((name, v) ∷ es) t q h =
    let other : key_is (entity, name) q ≡ false = ground (arith, h) in
    let others : is_of entity es q ≡ false = ground (arith, h) in
    lookup-add_to_joined_tuple entity es (insert_joined (entity, name) v t) q others
    ∙ lookup-insert_joined (entity, name) q v t other

lookup-remove_from_joined_tuple :
    (entity : Str) (es : Tuple) (t : JoinedTuple) (q : Str × Str)
    → lookup q (remove_from_joined_tuple entity es t)
      ≡ (if is_of entity es q then none else lookup q t)
unfolding remove_from_joined_tuple
lookup-remove_from_joined_tuple entity [] t q = refl
lookup-remove_from_joined_tuple entity ((name, v) ∷ es) t q =
    lookup-remove_from_joined_tuple entity es (remove (entity, name) t) q
    ∙ ground (arith, lookup-remove (entity, name) q t)

-- A tuple added to a joined tuple that has no value for the attributes of the tuple in the entity,
-- and taken out again, leaves the value of each attribute as it was.
pub remove_from_joined_tuple-add_to_joined_tuple :
    (entity : Str) (es : Tuple) (t : JoinedTuple)
    → ((q : Str × Str) → is_of entity es q ≡ true → lookup q t ≡ none)
    → (q : Str × Str)
    → lookup q (remove_from_joined_tuple entity es (add_to_joined_tuple entity es t)) ≡ lookup q t
remove_from_joined_tuple-add_to_joined_tuple entity es t fresh q =
    lookup-remove_from_joined_tuple entity es (add_to_joined_tuple entity es t) q
    ∙ elim (Bool-cases (is_of entity es q)) [
      | inl own ↦ rw (own, fresh q own) refl
      | inr other ↦ rw (other, lookup-add_to_joined_tuple entity es t q other) refl
    ]
