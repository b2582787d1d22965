-- ===== src/Page/Layout.antt =====
-- The layout that `SlottedPage::reassignData` gives to a page, and what it keeps of the page.
use csql.Base.{
  ℕ, zero, suc, ◌+◌, ◌-◌, ◌*◌, ◌/◌, ◌^◌, ◌≤◌, ◌≡◌, refl, ap, ◌∙◌, true, inl, inr, Bool-cases, List,
  [], ◌∷◌, ◌++◌, arith, leb, if◌then◌else◌, length, take, drop, take-append-drop, length-take_le,
  length-drop,
}
use mathlib.Core.Path.{subst}
use csql.Base.Result.{ok}
use csql.Types.Size.{u32, size_of_tuple}
use csql.Types.Tuples.{Tuple}
use csql.Page.{
  SlottedPage, is_internal, header_default_size, storage_unit_size, assign_slots, reassign_data,
  get_size_of_used_bytes,
}
use csql.Page.Nodes.{leaf_split_node}

-- The tuples have sizes, which add up to `n`.
abbrev pub IsSizes : List Tuple → ℕ → Type 0
IsSizes [] n = n ≡ 0
IsSizes (t ∷ ts) n = (a : ℕ) × (b : ℕ) × (size_of_tuple t ≡ ok a) × IsSizes ts b × (n ≡ a + b)

-- Each slot is an offset in the page, below the one before it by the size of its tuple.
abbrev pub IsLaid : ℕ → List Tuple → List ℕ → Type 0
IsLaid end [] [] = Unit
IsLaid end [] (s ∷ ss) = ⊥
IsLaid end (t ∷ ts) [] = ⊥
IsLaid end (t ∷ ts) (s ∷ ss) = (a : ℕ) × (size_of_tuple t ≡ ok a) × (s + a ≡ end) × IsLaid s ts ss

-- The bytes before the slots of a page of a tree, as `save` lays it out: the type and four numbers,
-- and in a leaf also the leaf before it and the leaf after it.
abbrev pub header_bytes : SlottedPage → ℕ
header_bytes p = if is_internal p.page_type then 17 else 25

-- The bytes that `reassignData` counts for the header.
abbrev pub counted_bytes : SlottedPage → ℕ
counted_bytes p = header_default_size + (if is_internal p.page_type then 0 else 4)

-- The bytes of the header that `reassignData` leaves out.
abbrev pub uncounted_bytes : SlottedPage → ℕ
uncounted_bytes p = if is_internal p.page_type then 0 else 4

counted-uncounted : (p : SlottedPage) → counted_bytes p + uncounted_bytes p ≡ header_bytes p
counted-uncounted p = elim (Bool-cases (is_internal p.page_type)) [
  | inl internal ↦ rw internal refl
  | inr leaf ↦ rw leaf refl
]

assign_slots-step :
    (end : ℕ) (t : Tuple) (ts : List Tuple) (a s : ℕ) (ss : List ℕ) (last : ℕ)
    → size_of_tuple t ≡ ok a
    → u32 (end + 2 ^ 32 - a) ≡ s
    → assign_slots s ts ≡ ok (ss, last)
    → assign_slots end (t ∷ ts) ≡ ok (s ∷ ss, last)
unfolding assign_slots
assign_slots-step end t ts a s ss last ta here run = rw (ta, here, run) refl

assign_slots-IsLaid :
    (end : ℕ) (ts : List Tuple) (n : ℕ)
    → IsSizes ts n
    → n ≤ end
    → end ≤ 4096
    → (ss : List ℕ) × (assign_slots end ts ≡ ok (ss, end - n)) × IsLaid end ts ss
unfolding assign_slots
assign_slots-IsLaid end [] n h ne small = ([], ap (λ i. ok ([], i)) (omega (arith, h)), tt)
assign_slots-IsLaid end (t ∷ ts) n (a, b, ta, rest, sum) ne small =
    let here : u32 (end + 2 ^ 32 - a) ≡ end - a = ground arith in
    let (ss, run, laid) =
      assign_slots-IsLaid (end - a) ts b rest (omega (arith, sum)) (omega arith) in
    let last : (end - a) - b ≡ end - n = omega (arith, sum) in
    (
      (end - a) ∷ ss,
      assign_slots-step end t ts a (end - a) ss (end - n) ta here (run ∙ ap (λ i. ok (ss, i)) last),
      (a, ta, omega (arith, sum), laid),
    )

-- What a laid out page has: its own tuples, counted, in slots. The bytes that it says it uses, with
-- the four of a leaf's header that are not counted, are those of header, slots and tuples.
pub record IsLayout (p p' : SlottedPage) (n : ℕ) : Type 0 where
  pub same_tuples : p'.tuples ≡ p.tuples
  pub same_type : p'.page_type ≡ p.page_type
  pub count : p'.num_slots ≡ length p.tuples
  pub laid : IsLaid storage_unit_size p.tuples p'.slots
  pub used :
      get_size_of_used_bytes p' + uncounted_bytes p ≡ header_bytes p + 4 * length p.tuples + n

-- When the header as `reassignData` counts it, the slots and the tuples of a page fit in its 4096
-- bytes, `reassignData` returns: the tuples stay, `numSlots` counts them, each slot is below the
-- one before by the size of its tuple, and `getSizeOfUsedBytes` is the bytes of header, slots and
-- tuples in an internal node, and four fewer in a leaf.
pub reassign_data-IsLayout :
    (p : SlottedPage) (n : ℕ)
    → IsSizes p.tuples n
    → counted_bytes p + 4 * length p.tuples + n ≤ storage_unit_size
    → (p' : SlottedPage) × (reassign_data p ≡ ok p') × IsLayout p p' n
unfolding reassign_data get_size_of_used_bytes
reassign_data-IsLayout p n h fits =
    let (ss, run, laid) =
      assign_slots-IsLaid storage_unit_size p.tuples n h (omega arith) (omega arith) in
    let begin : ℕ = counted_bytes p + 4 * length p.tuples in
    let begin_small : u32 begin ≡ begin = ground arith in
    let gap : u32 (storage_unit_size - n + 2 ^ 32 - begin) ≡ storage_unit_size - n - begin =
      ground arith in
    let used : u32 (storage_unit_size + 2 ^ 32 - (storage_unit_size - n - begin)) ≡ begin + n =
      ground arith in
    let p' : SlottedPage = record p {
      begin_free_space = u32 begin;
      end_free_space = storage_unit_size - n;
      num_slots = length p.tuples;
      slots = ss;
    } in
    (
      p',
      rw run refl,
      record {
        same_tuples = refl;
        same_type = refl;
        count = refl;
        laid = laid;
        used = rw (begin_small, gap, used) (omega (arith, counted-uncounted p));
      },
    )

pub IsSizes-split :
    (i : ℕ) (ts : List Tuple) (n : ℕ)
    → IsSizes ts n
    → (a : ℕ) × (b : ℕ) × IsSizes (take i ts) a × IsSizes (drop i ts) b × (n ≡ a + b)
IsSizes-split zero ts n h = (0, n, refl, h, omega arith)
IsSizes-split (suc i) [] n h = (0, n, refl, h, omega arith)
IsSizes-split (suc i) (t ∷ ts) n (a, b, ta, rest, sum) =
    let (c, d, front, back, sum') = IsSizes-split i ts b rest in
    (a + c, d, (a, c, ta, front, refl), back, omega (arith, sum, sum'))

pub IsSizes-append :
    (ts us : List Tuple) (a b : ℕ) → IsSizes ts a → IsSizes us b → IsSizes (ts ++ us) (a + b)
IsSizes-append [] us a b h k = subst (λ n. IsSizes us n) (omega (arith, h)) k
IsSizes-append (t ∷ ts) us a b (c, d, tc, rest, sum) k =
    (c, d + b, tc, IsSizes-append ts us d b rest k, omega (arith, sum))

-- A leaf whose tuples fit in a page, counted by `numSlots`, splits: `splitNode` returns, the left
-- node takes the first half of the tuples and the node keeps the others, both are laid out, and
-- the bytes of the tuples are shared out between them.
pub leaf_split_node-IsLayout :
    (p left : SlottedPage) (n : ℕ)
    → p.num_slots ≡ length p.tuples
    → IsSizes p.tuples n
    → counted_bytes p + 4 * length p.tuples + n ≤ storage_unit_size
    → counted_bytes left ≡ counted_bytes p
    → (left' : SlottedPage) × (p' : SlottedPage) × (a : ℕ) × (b : ℕ) × (leaf_split_node p left
        ≡ ok (left', p'))
      × (left'.tuples ++ p'.tuples ≡ p.tuples)
      × (left'.num_slots ≡ length p.tuples / 2)
      × IsLayout (record left { tuples = take (p.num_slots / 2) p.tuples }) left' a
      × IsLayout (record p { tuples = drop (p.num_slots / 2) p.tuples }) p' b
      × (n ≡ a + b)
unfolding leaf_split_node
leaf_split_node-IsLayout p left n count h fits same =
    let mid : ℕ = p.num_slots / 2 in
    let in_range : leb mid (length p.tuples) ≡ true = ground (arith, count) in
    let (a, b, front, back, sum) = IsSizes-split mid p.tuples n h in
    let few : length (take mid p.tuples) ≡ mid =
      length-take_le mid p.tuples (omega (arith, count)) in
    let rest : length (drop mid p.tuples) ≡ length p.tuples - mid = length-drop mid p.tuples in
    let (left', run, l) =
      reassign_data-IsLayout (record left { tuples = take mid p.tuples }) a front
        (omega (arith, few, count, same, sum)) in
    let (p', run', r) =
      reassign_data-IsLayout (record p { tuples = drop mid p.tuples }) b back
        (omega (arith, rest, count, sum)) in
    (
      left',
      p',
      a,
      b,
      rw (in_range, run, run') refl,
      rw (l.same_tuples, r.same_tuples) (take-append-drop mid p.tuples),
      l.count ∙ few ∙ ap (λ i. i / 2) count,
      l,
      r,
      sum,
    )
