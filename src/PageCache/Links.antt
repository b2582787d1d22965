-- ===== src/PageCache/Links.antt =====
-- Chains of nodes in core/storage/lru_cache/linked_list.h, as the pointers make them.
use csql.Base.{ℕ, ◌≡◌, refl, ◌∙◌, false, List, [], ◌∷◌, arith, ◌==◌}
use csql.PageCache.{point}

-- The address is not among these.
abbrev pub IsApart : ℕ → List ℕ → Type 0
IsApart a [] = Unit
IsApart a (n ∷ ns) = ((a == n) ≡ false) × IsApart a ns

-- No address stands twice.
abbrev pub IsDistinct : List ℕ → Type 0
IsDistinct [] = Unit
IsDistinct (n ∷ ns) = IsApart n ns × IsDistinct ns

-- From `a` the pointers lead through the nodes to `b`, and back.
abbrev pub IsChain : (ℕ → ℕ) → (ℕ → ℕ) → ℕ → List ℕ → ℕ → Type 0
IsChain prev next a [] b = (next a ≡ b) × (prev b ≡ a)
IsChain prev next a (n ∷ ns) b = (next a ≡ n) × (prev n ≡ a) × IsChain prev next n ns b

pub point_here : (n v i : ℕ) (g : ℕ → ℕ) → i ≡ n → point n v g i ≡ v
point_here n v i g h = ground (arith, h)

pub point_away : (n v i : ℕ) (g : ℕ → ℕ) → (i == n) ≡ false → point n v g i ≡ g i
point_away n v i g h = rw h refl

-- Writes of a `next` outside `a` and the nodes, and of a `prev` outside the nodes and `b`, leave
-- the chain.
pub IsChain-point :
    (prev next : ℕ → ℕ) (a : ℕ) (ns : List ℕ) (b p v q w : ℕ)
    → IsChain prev next a ns b
    → IsApart p (a ∷ ns)
    → IsApart q ns
    → (q == b) ≡ false
    → IsChain (point q w prev) (point p v next) a ns b
IsChain-point prev next a [] b p v q w h hp hq hb = (
  point_away p v a next (ground (arith, hp.0)) ∙ h.0,
  point_away q w b prev (ground (arith, hb)) ∙ h.1,
)
IsChain-point prev next a (n ∷ ns) b p v q w h hp hq hb = (
  point_away p v a next (ground (arith, hp.0)) ∙ h.0,
  point_away q w n prev (ground (arith, hq.0)) ∙ h.1,
  IsChain-point prev next n ns b p v q w h.2 hp.1 hq.1 hb,
)
