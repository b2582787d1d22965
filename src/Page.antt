-- ===== src/Page.antt =====
-- core/storage/page: slotted pages and the two kinds of B+ tree nodes. A page is its fields; the
-- tuples of a page are those of `std::vector<Tuple> tuples`.
pub mod Saving
pub mod Nodes
pub mod Search
pub mod Layout
pub mod Insert
pub mod Merge
use csql.Base.{
  ℕ, zero, suc, ◌+◌, ◌-◌, ◌*◌, ◌/◌, ◌^◌, ◌≡◌, refl, Bool, true, false, not, Option, none, some,
  List, [], ◌∷◌, ◌++◌, arith, ltb, leb, ◌==◌, if◌then◌else◌, length, get_elem?, take, drop,
  insert_at, erase_at, set, Str, codes,
}
use csql.Base.Assoc.{lookup, contains, assign, str_eq_instance}
use csql.Base.Int.{ℤ, pos, negsuc}
use csql.Base.Result.{
  Result, ok, err, errors, assertion, undefined, out_of_range, bad_variant, no_fuel, ◌>>=◌, ◌>>◌,
  guard, or_fail,
}
use csql.Types.{SqlTypes, sql_key, sql_int, BPlusKey, Floats}
use csql.Types.Key.{key_lt, key_le, key_ne}
use csql.Types.Size.{u32, size_of_tuple}
use csql.Types.Tuples.{Tuple, insert}

pub data PageType : Type 0 where
  free_page internal_b_plus_node leaf_b_plus_node : PageType

abbrev pub is_internal : PageType → Bool
is_internal PageType.internal_b_plus_node = true
is_internal _ = false

pub record SlottedPage : Type 0 where
  pub page_type : PageType
  pub page_index : ℕ
  pub prev_leaf : ℕ
  pub next_leaf : ℕ
  pub parent_index : ℕ
  pub begin_free_space : ℕ
  pub end_free_space : ℕ
  pub num_slots : ℕ
  pub slots : List ℕ
  pub tuples : List Tuple

-- `Configs::storageUnitSize` and `slottedPageHeaderDefaultSize`
abbrev pub storage_unit_size : ℕ
storage_unit_size = 4096

abbrev pub header_default_size : ℕ
header_default_size = 17

-- `SpecialKey`
abbrev pub btree_key : Str
btree_key = codes "bree_key_2303"

abbrev pub child_btree_key : Str
child_btree_key = codes "bnode_child_2303"

abbrev pub hidden_key : Str
hidden_key = codes "hidden_key_2303"

-- `std::get<BPlusKey>` and `std::get<SqlIntType>`
abbrev pub get_key : SqlTypes → Result BPlusKey
get_key (sql_key k) = ok k
get_key _ = err bad_variant

abbrev pub get_int : SqlTypes → Result ℤ
get_int (sql_int z) = ok z
get_int _ = err bad_variant

-- `TupleHandle::getBTreeKey` and `getBtreeChild`: `at` throws on a missing name.
unfoldable pub get_btree_key : Tuple → Result BPlusKey
get_btree_key t = do v ← or_fail (lookup btree_key t) out_of_range; get_key v

-- The conversion to `uint32_t`; child indexes are not negative.
abbrev pub index_of : ℤ → ℕ
index_of (pos n) = u32 n
index_of (negsuc n) = 4294967295 - u32 n

unfoldable pub get_btree_child : Tuple → Result ℕ
get_btree_child t = do
  v ← or_fail (lookup child_btree_key t) out_of_range
  z ← get_int v
  ok (index_of z)

-- `tuples[i]`
abbrev pub tuple_at : List Tuple → ℕ → Result Tuple
tuple_at ts i = or_fail (get_elem? ts i) undefined

-- The `while` loop of `lower_bound` over `l` and `r`; `test mid` is the comparison at `mid`.
unfoldable pub search_loop : ℕ → (ℕ → Result Bool) → ℕ → ℕ → Result ℕ
search_loop zero test l r = err no_fuel
search_loop (suc fuel) test l r =
    let mid = (l + r + 1) / 2 in
    let more : Result ℕ = test mid >>= (λ below.
      let right = search_loop fuel test mid r in
      let left = search_loop fuel test l (mid - 1) in if below then right else left) in
    if ltb l r then more else ok l

unfoldable pub key_at : List Tuple → ℕ → Result BPlusKey
unfolding get_btree_key
key_at ts i = do t ← tuple_at ts i; get_btree_key t

-- `SlottedPage::lower_bound`; `none` is -1. The fuel is above `r - l`.
unfoldable pub lower_bound : Floats → SlottedPage → BPlusKey → ℕ → Result (Option ℕ)
unfolding key_at search_loop
lower_bound f p key begin = if leb (length p.tuples) begin then ok none else do
  first ← key_at p.tuples begin
  before ← key_lt f key first
  let test = λ (mid : ℕ). key_at p.tuples mid >>= λ k. key_le f k key
  let found : Result (Option ℕ) =
      search_loop (suc p.num_slots) test begin (p.num_slots - 1) >>= λ l. ok (some l)
  if before then ok none else found

-- The loop of `reassignData`: slots from the end of the page downwards.
unfoldable pub assign_slots : ℕ → List Tuple → Result (List ℕ × ℕ)
assign_slots end [] = ok ([], end)
assign_slots end (t ∷ ts) = do
  n ← size_of_tuple t
  let slot = u32 (end + 2 ^ 32 - n)
  (slots, last) ← assign_slots slot ts
  ok (slot ∷ slots, last)

unfoldable pub reassign_data : SlottedPage → Result SlottedPage
unfolding assign_slots
reassign_data p = do
  let header = header_default_size + (if is_internal p.page_type then 0 else 4)
  (slots, last) ← assign_slots storage_unit_size p.tuples
  ok (record p {
    begin_free_space = u32 (header + 4 * length p.tuples);
    end_free_space = last;
    num_slots = length p.tuples;
    slots = slots;
  })

-- `getSizeOfUsedBytes`, in `uint32_t`.
unfoldable pub get_size_of_used_bytes : SlottedPage → ℕ
get_size_of_used_bytes p =
    u32 (storage_unit_size + 2 ^ 32 - u32 (p.end_free_space + 2 ^ 32 - p.begin_free_space))

unfoldable pub delete_tuple : SlottedPage → ℕ → Result SlottedPage
unfolding reassign_data
delete_tuple p i =
    if ltb i (length p.tuples)
    then reassign_data (record p { tuples = erase_at i p.tuples })
    else err undefined

-- `SlottedPage::get_btree_key` and `get_child_index`, behind their assertions.
unfoldable pub page_key : SlottedPage → Result BPlusKey
unfolding key_at
page_key p = elim p.page_type [
  | PageType.leaf_b_plus_node ↦ do guard (ltb 0 (length p.tuples)) assertion; key_at p.tuples 0
  | _ ↦ do guard (ltb 1 (length p.tuples)) assertion; key_at p.tuples 1
]

unfoldable pub get_child_index : SlottedPage → ℕ → Result ℕ
unfolding get_btree_child
get_child_index p i = do
  guard (ltb i p.num_slots) assertion
  t ← tuple_at p.tuples i
  get_btree_child t
