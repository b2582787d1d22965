-- ===== src/Tests/Caching.antt =====
-- A linked list of two nodes.
use csql.Base.{ℕ, ◌≡◌, refl, List, [], ◌∷◌, ◌++◌, arith, Str, codes}
use csql.Base.Result.{ok}
use csql.PageCache.{LinkedList, empty_list, push, pop, push_to_end}
use csql.PageCache.Refines.{Represents, list_refines}

abbrev two_nodes : LinkedList Str ℕ
unfolding push
two_nodes = (push (codes "b") 20 (push (codes "a") 10 empty_list).1).1

abbrev two_entries : List (ℕ × (Str × ℕ))
two_entries = (2, (codes "a", 10)) ∷ (3, (codes "b", 20)) ∷ []

two_nodes-Represents : Represents two_nodes two_entries
unfolding push
two_nodes-Represents = record {
  chain = (refl, refl, (refl, refl, (refl, refl)));
  distinct = ((refl, (refl, tt)), ((refl, tt), (tt, tt)));
  end_apart = (refl, (refl, (refl, tt)));
  below = (omega arith, (omega arith, (omega arith, (omega arith, tt))));
  entries = (refl, (refl, tt));
}

list_refines_example :
    ((k : Str) (v : ℕ)
      → ((push k v two_nodes).0 ≡ two_nodes.fresh)
        × Represents (push k v two_nodes).1 (two_entries ++ (two_nodes.fresh, (k, v)) ∷ []))
    × ((e : ℕ × (Str × ℕ)) (rest : List (ℕ × (Str × ℕ)))
        → two_entries ≡ e ∷ rest
        → (l' : LinkedList Str ℕ) × (pop two_nodes ≡ ok (e.1, l')) × Represents l' rest)
    × ((xs ys : List (ℕ × (Str × ℕ))) (e : ℕ × (Str × ℕ))
        → two_entries ≡ xs ++ e ∷ ys
        → Represents (push_to_end e.0 two_nodes) ((xs ++ ys) ++ e ∷ []))
list_refines_example = list_refines two_nodes two_entries two_nodes-Represents
