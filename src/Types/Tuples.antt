-- ===== src/Types/Tuples.antt =====
-- `Tuple` is a `std::map`: its entries stand in the order of their names, and `insert` leaves an
-- entry that is there already.
use csql.Base.{
  ◌≡◌, refl, sym, ◌∙◌, true, List, [], ◌∷◌, ◌++◌, arith, if◌then◌else◌, Str, str_eq, str_lt,
  str_eq_iff, str_lt_irrefl, str_lt_trans,
}
use mathlib.Core.List.{append_assoc, append-nil}
use csql.Types.{SqlTypes}

module _ {ℓ} {V : Type ℓ} where
  -- `m.insert({k, v})`
  unfoldable pub insert : Str → V → List (Str × V) → List (Str × V)
  insert k v [] = (k, v) ∷ []
  insert k v ((j, w) ∷ m) =
      let rest = insert k v m in
      if str_lt k j then (k, v) ∷ (j, w) ∷ m else if str_eq k j then (j, w) ∷ m else (j, w) ∷ rest

  -- Names grow strictly along the list, from above `k`.
  abbrev pub Above : Str → List (Str × V) → Type 0
  Above k [] = Unit
  Above k ((j, w) ∷ m) = (str_lt k j ≡ true) × Above j m

  abbrev pub IsSorted : List (Str × V) → Type 0
  IsSorted [] = Unit
  IsSorted ((j, w) ∷ m) = Above j m

  -- Entries put in in their order rebuild the map.
  unfoldable pub insert_all : List (Str × V) → List (Str × V) → List (Str × V)
  insert_all m [] = m
  insert_all m ((k, v) ∷ es) = insert_all (insert k v m) es

abbrev pub Tuple : Type 0
Tuple = List (Str × SqlTypes)

module _ {ℓ} {V : Type ℓ} where
  -- All names of the map come before `k`.
  abbrev pub Below : Str → List (Str × V) → Type 0
  Below k [] = Unit
  Below k ((j, w) ∷ m) = (str_lt j k ≡ true) × Below k m

  insert-Below :
      (k : Str) (v : V) (m : List (Str × V)) → Below k m → insert k v m ≡ m ++ (k, v) ∷ []
  unfolding insert
  insert-Below k v [] b = refl
  insert-Below k v ((j, w) ∷ m) b =
      ground (arith, insert-Below k v m b.1, str_lt_trans k j k, str_lt_irrefl k, str_eq_iff k j)

  Below-trans : (j k : Str) (m : List (Str × V)) → str_lt j k ≡ true → Below j m → Below k m
  Below-trans j k [] h b = tt
  Below-trans j k ((i, w) ∷ m) h b = (str_lt_trans i j k b.0 h, Below-trans j k m h b.1)

  Below-append : (k : Str) (m n : List (Str × V)) → Below k m → Below k n → Below k (m ++ n)
  Below-append k [] n b c = c
  Below-append k (e ∷ m) n b c = (b.0, Below-append k m n b.1 c)

  Follows : List (Str × V) → List (Str × V) → Type 0
  Follows m [] = Unit
  Follows m ((k, v) ∷ es) = Below k m × Above k es

  Follows-next :
      (k : Str) (v : V) (m es : List (Str × V))
      → Below k m
      → Above k es
      → Follows (m ++ (k, v) ∷ []) es
  unfolding Follows
  Follows-next k v m [] b a = tt
  Follows-next k v m ((j, w) ∷ es) b a =
      (Below-append j m ((k, v) ∷ []) (Below-trans k j m a.0 b) (a.0, tt), a.1)

  insert_all-append : (m es : List (Str × V)) → Follows m es → insert_all m es ≡ m ++ es
  unfolding insert_all Follows
  insert_all-append m [] f = sym (append-nil m)
  insert_all-append m ((k, v) ∷ es) f = rw (insert-Below k v m f.0) (
      insert_all-append (m ++ (k, v) ∷ []) es (Follows-next k v m es f.0 f.1)
      ∙ append_assoc m ((k, v) ∷ []) es)

  pub insert_all-IsSorted : (es : List (Str × V)) → IsSorted es → insert_all [] es ≡ es
  unfolding Follows
  insert_all-IsSorted [] s = insert_all-append [] [] tt
  insert_all-IsSorted ((k, v) ∷ es) s = insert_all-append [] ((k, v) ∷ es) (tt, s)
