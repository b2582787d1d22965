-- ===== src/Page/Saving.antt =====
-- `save` of the nodes of core/storage/page: the tuples with their names and values, each in its slot.
use csql.Base.{
  ℕ, zero, suc, ◌+◌, ◌-◌, ◌^◌, none, some, List, [], ◌∷◌, ◌++◌, ◌==◌, get_elem?, Str, if◌then◌else◌,
}
use csql.Base.Assoc.{lookup, str_eq_instance}
use csql.Base.Result.{Result, ok, assertion, out_of_range, ◌>>=◌, ◌>>◌, guard, or_fail}
use csql.Types.{DataTypes}
use csql.Types.Size.{u32, size_of_tuple}
use csql.Types.Tuples.{Tuple}
use csql.Io.Cursor.{IoManager, seek}
use csql.Io.Values.{write_string, write_sql, write_uint, write_all}
use csql.Page.{SlottedPage, is_internal, btree_key, child_btree_key, storage_unit_size, tuple_at}

abbrev zeros : ℕ → List ℕ
zeros zero = []
zeros (suc n) = 0 ∷ zeros n

-- The `rawData` of a page; whether a write succeeds does not depend on what is in it.
abbrev pub new_block : IoManager
new_block = record { raw_data = zeros storage_unit_size; buffer_offset = 0 }

-- `run` for each of the names that the tuple contains.
unfoldable pub write_items : List (Str × DataTypes) → Tuple → IoManager → Result IoManager
unfolding lookup write_string write_sql
write_items [] t io = ok io
write_items ((name, type) ∷ items) t io = elim (lookup name t) [
  | none ↦ write_items items t io
  | some v ↦ do io1 ← write_string name io; io2 ← write_sql v type io1; write_items items t io2
]

-- The names that a tuple may have, in the order of `writeTuple`.
abbrev pub tuple_items : List (Str × DataTypes) → List (Str × DataTypes)
tuple_items attributes =
    attributes ++ (btree_key, DataTypes.b_plus_key) ∷ (child_btree_key, DataTypes.int_type) ∷ []

unfoldable pub write_tuple : List (Str × DataTypes) → SlottedPage → ℕ → IoManager → Result IoManager
unfolding write_items size_of_tuple
write_tuple attributes p i io = do
  slot ← or_fail (get_elem? p.slots i) out_of_range
  t ← tuple_at p.tuples i
  io1 ← write_items (tuple_items attributes) t (seek slot io)
  n ← size_of_tuple t
  guard (u32 (io1.buffer_offset + 2 ^ 32 - slot) == n) assertion
  ok io1

-- The loop over the tuples from `i` on.
unfoldable pub write_tuples :
    List (Str × DataTypes) → SlottedPage → ℕ → ℕ → IoManager → Result IoManager
unfolding write_tuple
write_tuples attributes p i zero io = ok io
write_tuples attributes p i (suc n) io = do
  io1 ← write_tuple attributes p i io
  write_tuples attributes p (suc i) n io1

-- What `save` of a leaf and of an internal node do before `SlottedPage::save`; 76 is the letter L.
unfoldable pub save_start : SlottedPage → IoManager → Result IoManager
unfolding write_uint
save_start p io = if is_internal p.page_type then ok (seek 1 io) else do
  io1 ← write_uint 1 76 (seek 0 io)
  io2 ← write_uint 4 p.prev_leaf io1
  write_uint 4 p.next_leaf io2

-- `save` of a node of the tree.
unfoldable pub save_node : List (Str × DataTypes) → SlottedPage → IoManager → Result IoManager
unfolding save_start write_uint write_all write_tuples
save_node attributes p io = do
  io1 ← save_start p io
  io2 ← write_uint 4 p.parent_index io1
  io3 ← write_uint 4 p.begin_free_space io2
  io4 ← write_uint 4 p.end_free_space io3
  io5 ← write_uint 4 p.num_slots io4
  io6 ← write_all (write_uint 4) p.slots io5
  write_tuples attributes p 0 p.num_slots io6
