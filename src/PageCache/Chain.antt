-- ===== src/PageCache/Chain.antt =====
-- A node taken out of a chain, and a node put at its end: core/storage/lru_cache/linked_list.h.
use csql.Base.{ℕ, ◌≡◌, refl, sym, ap, ◌∙◌, false, List, [], ◌∷◌, ◌++◌, arith, ◌==◌}
use mathlib.Core.Path.{subst}
use csql.PageCache.{point}
use csql.PageCache.Links.{IsApart, IsDistinct, IsChain, IsChain-point, point_here, point_away}

IsApart-split : (a : ℕ) (xs ys : List ℕ) → IsApart a (xs ++ ys) → IsApart a xs × IsApart a ys
IsApart-split a [] ys h = (tt, h)
IsApart-split a (x ∷ xs) ys h = let (l, r) = IsApart-split a xs ys h.1 in ((h.0, l), r)

-- The last node is none that is apart from the chain.
IsChain-last :
    (prev next : ℕ → ℕ) (x n : ℕ) (ns : List ℕ) (b : ℕ)
    → IsChain prev next n ns b
    → IsApart x (n ∷ ns)
    → (x == prev b) ≡ false
IsChain-last prev next x n [] b h a = ground (arith, h.1, a.0)
IsChain-last prev next x n (m ∷ ns) b h a = IsChain-last prev next x m ns b h.2 a.1

-- Nor is the first one.
IsChain-first :
    (prev next : ℕ → ℕ) (x n : ℕ) (ns : List ℕ) (b : ℕ)
    → IsChain prev next n ns b
    → IsApart x ns
    → (x == b) ≡ false
    → (x == next n) ≡ false
IsChain-first prev next x n [] b h a c = ground (arith, h.0, c)
IsChain-first prev next x n (m ∷ ns) b h a c = ground (arith, h.0, a.0)

pub IsChain-split :
    (prev next : ℕ → ℕ) (a : ℕ) (xs : List ℕ) (n : ℕ) (ys : List ℕ) (b : ℕ)
    → IsChain prev next a (xs ++ n ∷ ys) b
    → IsChain prev next a xs n × IsChain prev next n ys b
IsChain-split prev next a [] n ys b h = ((h.0, h.1), h.2)
IsChain-split prev next a (x ∷ xs) n ys b h =
    let (l, r) = IsChain-split prev next x xs n ys b h.2 in ((h.0, h.1, l), r)

-- `aNode->prev->next = aNode->next; aNode->next->prev = aNode->prev`
pub IsChain-unlink :
    (prev next : ℕ → ℕ) (a : ℕ) (xs : List ℕ) (n : ℕ) (ys : List ℕ) (b p m : ℕ)
    → IsChain prev next a (xs ++ n ∷ ys) b
    → IsDistinct (a ∷ (xs ++ n ∷ ys))
    → IsApart b (a ∷ (xs ++ n ∷ ys))
    → prev n ≡ p
    → next n ≡ m
    → IsChain (point m p prev) (point p m next) a (xs ++ ys) b
IsChain-unlink prev next a [] n [] b p m h d o hp hm = (
  point_here p m a next (sym h.1 ∙ hp) ∙ sym hm ∙ h.2.0,
  point_here m p b prev (sym h.2.0 ∙ hm) ∙ sym hp ∙ h.1,
)
IsChain-unlink prev next a [] n (y ∷ ys) b p m h d o hp hm = (
  point_here p m a next (sym h.1 ∙ hp) ∙ sym hm ∙ h.2.0,
  point_here m p y prev (sym h.2.0 ∙ hm) ∙ sym hp ∙ h.1,
  IsChain-point prev next y ys b p m m p h.2.2
      (subst (λ i. IsApart i (y ∷ ys)) (sym h.1 ∙ hp) d.0.1)
      (subst (λ i. IsApart i ys) (sym h.2.0 ∙ hm) d.1.1.0)
      (ap (λ i. i == b) (sym hm ∙ h.2.0) ∙ ground (arith, o.1.1.0)),
)
IsChain-unlink prev next a (x ∷ xs) n ys b p m h d o hp hm =
    let (before, after) = IsChain-split prev next x xs n ys b h.2 in
    let apart_a = IsApart-split a (x ∷ xs) (n ∷ ys) d.0 in
    let apart_x = IsApart-split x xs (n ∷ ys) d.1.0 in
    let off_p : (a == p) ≡ false =
      ap (λ i. a == i) (sym hp) ∙ IsChain-last prev next a x xs n before apart_a.0 in
    let off_m : (x == m) ≡ false =
      ap (λ i. x == i) (sym hm)
      ∙ IsChain-first prev next x n ys b after apart_x.1.1 (ground (arith, o.1.0)) in
    (
      point_away p m a next off_p ∙ h.0,
      point_away m p x prev off_m ∙ h.1,
      IsChain-unlink prev next x xs n ys b p m h.2 d.1 o.1 hp hm,
    )

-- `end->prev->next = aNode; aNode->prev = end->prev; aNode->next = end; end->prev = aNode`
pub IsChain-link :
    (prev next : ℕ → ℕ) (a : ℕ) (ns : List ℕ) (b n q : ℕ)
    → IsChain prev next a ns b
    → IsDistinct (a ∷ ns)
    → IsApart b (a ∷ ns)
    → IsApart n (a ∷ ns)
    → (n == b) ≡ false
    → prev b ≡ q
    → IsChain (point b n (point n q prev)) (point n b (point q n next)) a (ns ++ n ∷ []) b
IsChain-link prev next a [] b n q h d o hn nb hq = (
  point_away n b a (point q n next) (ground (arith, hn.0)) ∙ point_here q n a next (sym h.1 ∙ hq),
  point_away b n n (point n q prev) nb ∙ point_here n q n prev refl ∙ sym hq ∙ h.1,
  (point_here n b n (point q n next) refl, point_here b n b (point n q prev) refl),
)
IsChain-link prev next a (m ∷ ns) b n q h d o hn nb hq =
    let off_q : (a == q) ≡ false =
      ap (λ i. a == i) (sym hq) ∙ IsChain-last prev next a m ns b h.2 d.0 in
    (
      point_away n b a (point q n next) (ground (arith, hn.0)) ∙ point_away q n a next off_q ∙ h.0,
      point_away b n m (point n q prev) (ground (arith, o.1.0))
          ∙ point_away n q m prev (ground (arith, hn.1.0))
          ∙ h.1,
      IsChain-link prev next m ns b n q h.2 d.1 o.1 hn.1 nb hq,
    )
