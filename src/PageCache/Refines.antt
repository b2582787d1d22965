-- ===== src/PageCache/Refines.antt =====
-- The linked list of core/storage/lru_cache/linked_list.h as a list of nodes with their entries.
use csql.Base.{
  ℕ, ◌+◌, ◌<◌, ◌≡◌, refl, sym, ap, ◌∙◌, true, false, Option, some, List, [], ◌∷◌, ◌++◌, arith, ◌==◌,
}
use mathlib.Core.Path.{subst}
use csql.Base.Result.{ok}
use csql.PageCache.{LinkedList, point, unlink, push, pop, push_to_end}
use csql.PageCache.Links.{IsApart, IsDistinct, IsChain}
use csql.PageCache.Chain.{IsChain-unlink, IsChain-link}

abbrev pub AreBelow : ℕ → List ℕ → Type 0
AreBelow f [] = Unit
AreBelow f (n ∷ ns) = (n < f) × AreBelow f ns

AreBelow-IsApart : (f : ℕ) (ns : List ℕ) → AreBelow f ns → IsApart f ns
AreBelow-IsApart f [] h = tt
AreBelow-IsApart f (n ∷ ns) h = (ground (arith, h.0), AreBelow-IsApart f ns h.1)

AreBelow-suc : (f : ℕ) (ns : List ℕ) → AreBelow f ns → AreBelow (f + 1) ns
AreBelow-suc f [] h = tt
AreBelow-suc f (n ∷ ns) h = (omega (arith, h.0), AreBelow-suc f ns h.1)

AreBelow-append : (f : ℕ) (xs ys : List ℕ) → AreBelow f xs → AreBelow f ys → AreBelow f (xs ++ ys)
AreBelow-append f [] ys h k = k
AreBelow-append f (x ∷ xs) ys h k = (h.0, AreBelow-append f xs ys h.1 k)

AreBelow-move :
    (f n : ℕ) (xs ys : List ℕ) → AreBelow f (xs ++ n ∷ ys) → AreBelow f ((xs ++ ys) ++ n ∷ [])
AreBelow-move f n [] ys h = AreBelow-append f ys (n ∷ []) h.1 (h.0, tt)
AreBelow-move f n (x ∷ xs) ys h = (h.0, AreBelow-move f n xs ys h.1)

IsApart-append : (a : ℕ) (xs ys : List ℕ) → IsApart a xs → IsApart a ys → IsApart a (xs ++ ys)
IsApart-append a [] ys h k = k
IsApart-append a (x ∷ xs) ys h k = (h.0, IsApart-append a xs ys h.1 k)

-- What is apart from a list is apart from it without `n`, and from `n`.
IsApart-middle :
    (a n : ℕ) (xs ys : List ℕ)
    → IsApart a (xs ++ n ∷ ys)
    → ((a == n) ≡ false) × IsApart a (xs ++ ys)
IsApart-middle a n [] ys h = (h.0, h.1)
IsApart-middle a n (x ∷ xs) ys h =
    let (here, rest) = IsApart-middle a n xs ys h.1 in (here, (h.0, rest))

IsDistinct-middle :
    (n : ℕ) (xs ys : List ℕ)
    → IsDistinct (xs ++ n ∷ ys)
    → IsApart n (xs ++ ys) × IsDistinct (xs ++ ys)
IsDistinct-middle n [] ys h = (h.0, h.1)
IsDistinct-middle n (x ∷ xs) ys h =
    let (away, rest) = IsDistinct-middle n xs ys h.1 in
    let (here, others) = IsApart-middle x n xs ys h.0 in
    ((ground (arith, here), away), (others, rest))

IsDistinct-snoc : (n : ℕ) (xs : List ℕ) → IsDistinct xs → IsApart n xs → IsDistinct (xs ++ n ∷ [])
IsDistinct-snoc n [] h k = (tt, tt)
IsDistinct-snoc n (x ∷ xs) h k =
    (IsApart-append x xs (n ∷ []) h.0 (ground (arith, k.0), tt), IsDistinct-snoc n xs h.1 k.1)

module _ {ℓ κ} {K : Type ℓ} {V : Type κ} where
  abbrev pub nodes : List (ℕ × (K × V)) → List ℕ
  nodes [] = []
  nodes (e ∷ es) = e.0 ∷ nodes es

  nodes-append : (xs ys : List (ℕ × (K × V))) → nodes (xs ++ ys) ≡ nodes xs ++ nodes ys
  nodes-append [] ys = refl
  nodes-append (x ∷ xs) ys = ap (λ ns. x.0 ∷ ns) (nodes-append xs ys)

  abbrev pub HasEntries : (ℕ → Option (K × V)) → List (ℕ × (K × V)) → Type (ℓ ⊔ κ)
  HasEntries entry [] = Unit
  HasEntries entry (e ∷ es) = (entry e.0 ≡ some e.1) × HasEntries entry es

  -- The pointers of the list are those of this chain of nodes between `begin` and `end`, with these
  -- keys and values, and the next address is that of no node.
  pub record Represents (l : LinkedList K V) (es : List (ℕ × (K × V))) : Type (ℓ ⊔ κ) where
    pub chain : IsChain l.prev l.next 0 (nodes es) 1
    pub distinct : IsDistinct (0 ∷ nodes es)
    pub end_apart : IsApart 1 (0 ∷ nodes es)
    pub below : AreBelow l.fresh (0 ∷ 1 ∷ nodes es)
    pub entries : HasEntries l.entry es

  HasEntries-append :
      (g : ℕ → Option (K × V)) (xs ys : List (ℕ × (K × V)))
      → HasEntries g xs
      → HasEntries g ys
      → HasEntries g (xs ++ ys)
  HasEntries-append g [] ys h k = k
  HasEntries-append g (x ∷ xs) ys h k = (h.0, HasEntries-append g xs ys h.1 k)

  HasEntries-move :
      (g : ℕ → Option (K × V)) (xs ys : List (ℕ × (K × V))) (e : ℕ × (K × V))
      → HasEntries g (xs ++ e ∷ ys)
      → HasEntries g ((xs ++ ys) ++ e ∷ [])
  HasEntries-move g [] ys e h = HasEntries-append g ys (e ∷ []) h.1 (h.0, tt)
  HasEntries-move g (x ∷ xs) ys e h = (h.0, HasEntries-move g xs ys e h.1)

  HasEntries-point :
      (g : ℕ → Option (K × V)) (n : ℕ) (v : Option (K × V)) (es : List (ℕ × (K × V)))
      → HasEntries g es
      → IsApart n (nodes es)
      → HasEntries (point n v g) es
  HasEntries-point g n v [] h a = tt
  HasEntries-point g n v (e ∷ es) h a =
      let other : (e.0 == n) ≡ false = ground (arith, a.0) in
      (rw other h.0, HasEntries-point g n v es h.1 a.1)

  Represents-from :
      (l : LinkedList K V) (es : List (ℕ × (K × V))) (ns : List ℕ)
      → nodes es ≡ ns
      → IsChain l.prev l.next 0 ns 1
      → IsDistinct (0 ∷ ns)
      → IsApart 1 (0 ∷ ns)
      → AreBelow l.fresh (0 ∷ 1 ∷ ns)
      → HasEntries l.entry es
      → Represents l es
  Represents-from l es ns e c d a b h = record {
    chain = subst (λ ms. IsChain l.prev l.next 0 ms 1) (sym e) c;
    distinct = subst (λ ms. IsDistinct (0 ∷ ms)) (sym e) d;
    end_apart = subst (λ ms. IsApart 1 (0 ∷ ms)) (sym e) a;
    below = subst (λ ms. AreBelow l.fresh (0 ∷ 1 ∷ ms)) (sym e) b;
    entries = h;
  }

  pop-Represents :
      (l : LinkedList K V) (e : ℕ × (K × V)) (es : List (ℕ × (K × V)))
      → Represents l (e ∷ es)
      → (l' : LinkedList K V) × (pop l ≡ ok (e.1, l')) × Represents l' es
  unfolding pop
  pop-Represents l e es h =
      let m = l.next (l.next 0) in
      let got : l.entry (l.next 0) ≡ some e.1 = ap l.entry h.chain.0 ∙ h.entries.0 in
      (
        record l { prev = point m 0 l.prev; next = point 0 m l.next },
        rw (got, pop) refl,
        record {
          chain =
              IsChain-unlink l.prev l.next 0 [] e.0 (nodes es) 1 0 m h.chain h.distinct h.end_apart
                h.chain.1 (ap l.next (sym h.chain.0));
          distinct = (h.distinct.0.1, h.distinct.1.1);
          end_apart = (h.end_apart.0, h.end_apart.1.1);
          below = (h.below.0, (h.below.1.0, h.below.1.1.1));
          entries = h.entries.1;
        },
      )

  push-Represents :
      (l : LinkedList K V) (k : K) (v : V) (es : List (ℕ × (K × V)))
      → Represents l es
      → Represents (push k v l).1 (es ++ (l.fresh, (k, v)) ∷ [])
  unfolding push
  push-Represents l k v es h =
      let n = l.fresh in
      let away : IsApart n (0 ∷ nodes es) =
        AreBelow-IsApart n (0 ∷ nodes es) (h.below.0, h.below.1.1) in
      let not_end : (n == 1) ≡ false = ground (arith, h.below.1.0) in
      Represents-from (push k v l).1 (es ++ (n, (k, v)) ∷ []) (nodes es ++ n ∷ [])
        (nodes-append es ((n, (k, v)) ∷ []))
        (IsChain-link l.prev l.next 0 (nodes es) 1 n (l.prev 1) h.chain h.distinct h.end_apart away
          not_end refl)
        (IsDistinct-snoc n (0 ∷ nodes es) h.distinct away)
        (IsApart-append 1 (0 ∷ nodes es) (n ∷ []) h.end_apart (ground (arith, not_end), tt))
        (AreBelow-append (n + 1) (0 ∷ 1 ∷ nodes es) (n ∷ [])
          (AreBelow-suc n (0 ∷ 1 ∷ nodes es) h.below) (omega arith, tt))
        (HasEntries-append (point n (some (k, v)) l.entry) es ((n, (k, v)) ∷ [])
          (HasEntries-point l.entry n (some (k, v)) es h.entries away.1) (rw (here n) refl, tt))
    where
      here : (i : ℕ) → (i == i) ≡ true
      here i = ground arith

  push_to_end-Represents :
      (l : LinkedList K V) (xs ys : List (ℕ × (K × V))) (e : ℕ × (K × V))
      → Represents l (xs ++ e ∷ ys)
      → Represents (push_to_end e.0 l) ((xs ++ ys) ++ e ∷ [])
  unfolding push_to_end
  push_to_end-Represents l xs ys e h =
      let n = e.0 in
      let A = nodes xs in
      let B = nodes ys in
      let was : nodes (xs ++ e ∷ ys) ≡ A ++ n ∷ B = nodes-append xs (e ∷ ys) in
      let now : nodes ((xs ++ ys) ++ e ∷ []) ≡ (A ++ B) ++ n ∷ [] =
        nodes-append (xs ++ ys) (e ∷ []) ∙ ap (λ ns. ns ++ n ∷ []) (nodes-append xs ys) in
      let chain = subst (λ ns. IsChain l.prev l.next 0 ns 1) was h.chain in
      let distinct = subst (λ ns. IsDistinct (0 ∷ ns)) was h.distinct in
      let apart = subst (λ ns. IsApart 1 (0 ∷ ns)) was h.end_apart in
      let below = subst (λ ns. AreBelow l.fresh (0 ∷ 1 ∷ ns)) was h.below in
      let (away, rest) = IsDistinct-middle n (0 ∷ A) B distinct in
      let (off_end, end_rest) = IsApart-middle 1 n (0 ∷ A) B apart in
      let out = unlink n l in
      let same : l.next n ≡ point (l.prev n) (l.next n) l.next n = ground arith in
      let short : IsChain out.prev out.next 0 (A ++ B) 1 =
        subst
          (λ i.
            IsChain (point i (l.prev n) l.prev) (point (l.prev n) (l.next n) l.next) 0 (A ++ B) 1)
          same
          (IsChain-unlink l.prev l.next 0 A n B 1 (l.prev n) (l.next n) chain distinct apart refl
            refl) in
      Represents-from (push_to_end n l) ((xs ++ ys) ++ e ∷ []) ((A ++ B) ++ n ∷ []) now
        (IsChain-link out.prev out.next 0 (A ++ B) 1 n (out.prev 1) short rest end_rest away
          (ground (arith, off_end)) refl)
        (IsDistinct-snoc n (0 ∷ (A ++ B)) rest away)
        (IsApart-append 1 (0 ∷ (A ++ B)) (n ∷ []) end_rest (off_end, tt))
        (AreBelow-move l.fresh n (0 ∷ 1 ∷ A) B below) (HasEntries-move l.entry xs ys e h.entries)

  -- A linked list whose pointers are a chain of nodes with their keys and values is, for its
  -- methods, the list of these: push puts a new node at the end, pop of a list that is not empty
  -- gives the key and the value of the first node and takes it out, and pushToEnd moves a node to
  -- the end.
  pub list_refines :
      (l : LinkedList K V) (es : List (ℕ × (K × V)))
      → Represents l es
      → ((k : K) (v : V)
          → ((push k v l).0 ≡ l.fresh) × Represents (push k v l).1 (es ++ (l.fresh, (k, v)) ∷ []))
        × ((e : ℕ × (K × V)) (rest : List (ℕ × (K × V)))
            → es ≡ e ∷ rest
            → (l' : LinkedList K V) × (pop l ≡ ok (e.1, l')) × Represents l' rest)
        × ((xs ys : List (ℕ × (K × V))) (e : ℕ × (K × V))
            → es ≡ xs ++ e ∷ ys
            → Represents (push_to_end e.0 l) ((xs ++ ys) ++ e ∷ []))
  unfolding push
  list_refines l es h = (
    (λ k v. (refl, push-Represents l k v es h)),
    (λ e rest same. pop-Represents l e rest (subst (Represents l) same h)),
    λ xs ys e same. push_to_end-Represents l xs ys e (subst (Represents l) same h),
  )
