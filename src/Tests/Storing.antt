-- ===== src/Tests/Storing.antt =====
-- Values and a table's metadata written into a block and read back.
use csql.Base.{
  ℕ, zero, suc, ◌+◌, ◌≤◌, ◌<◌, ◌≡◌, refl, true, false, none, List, [], ◌∷◌, codes, length, arith,
}
use csql.Base.Result.{ok, err, undefined}
use csql.Types.{DataTypes, SqlTypes, sql_varchar}
use csql.Types.Size.{size_of_sql_type}
use csql.Io.Bytes.{le_bytes}
use csql.Io.Cursor.{IoManager, seek, put, overwrite}
use csql.Io.Values.{
  write_sql, read_sql, write_uint, write_bool, write_type, write_string, write_vector, write_all,
}
use csql.Io.RoundTrip.Compounds.{type_of}
use csql.Io.RoundTrip.Sql.{write_sql-read_sql}
use csql.Entity.{
  Entity, save, refresh, write_entity, write_attribute, write_index, write_reference, is_null,
  is_unique,
}
use csql.Entity.Codec.{IsStorable, save-refresh, save_fits, reloaded, entity_bytes}

abbrev zeros : ℕ → List ℕ
zeros zero = []
zeros (suc n) = 0 ∷ zeros n

abbrev block : IoManager
block = record { raw_data = zeros 64; buffer_offset = 0 }

-- A table with one nullable column.
abbrev users_table : Entity
users_table = record {
  attributes =
      (record {
        name = codes "a";
        type = DataTypes.int_type;
        nullable = true;
        primary = false;
        unique = false;
        auto_increment = 0;
        reference = none;
      })
      ∷ [];
  indexing_metadata = [];
  db_name = codes "db";
  name = codes "t";
  clustered_key = [];
  first_free_page = 0;
  n_page = 3;
}

abbrev saved : IoManager
saved = record {
  raw_data =
      1 ∷ 0 ∷ 0 ∷ 0 ∷ 116 ∷ 0 ∷ 0 ∷ 0 ∷ 0 ∷ 0 ∷ 0 ∷ 0 ∷ 0 ∷ 3 ∷ 0 ∷ 0 ∷ 0 ∷ 0 ∷ 0 ∷ 0 ∷ 0 ∷ 0 ∷ 0
      ∷ 0 ∷ 0 ∷ 1 ∷ 0 ∷ 0 ∷ 0 ∷ 0 ∷ 0 ∷ 0 ∷ 0 ∷ 1 ∷ 0 ∷ 0 ∷ 0 ∷ 97 ∷ 73 ∷ 0 ∷ 0 ∷ 0 ∷ 1 ∷ 0 ∷ 0 ∷ 0
      ∷ 0 ∷ 0 ∷ 0 ∷ 0 ∷ 0 ∷ 0 ∷ 0 ∷ 0 ∷ 0 ∷ 0 ∷ 0 ∷ 0 ∷ 0 ∷ 0 ∷ 0 ∷ 0 ∷ 0 ∷ 0 ∷ [];
  buffer_offset = 58;
}

save_run : save users_table block ≡ ok saved
unfolding save write_entity write_attribute write_index write_reference write_uint write_bool
    write_type write_string write_vector write_all is_null is_unique put overwrite le_bytes
save_run = refl

users_table-IsStorable : IsStorable users_table
users_table-IsStorable = record {
  name = omega arith;
  first_free_page = omega arith;
  n_page = omega arith;
  clustered_key = omega arith;
  attribute_count = omega arith;
  attributes = (record { name = omega arith; auto_increment = omega arith; reference = tt }, tt);
  index_count = omega arith;
  indexing_metadata = tt;
}

save-refresh_example :
    (refresh users_table saved ≡ ok (reloaded users_table users_table, saved))
    × (58 ≡ entity_bytes users_table)
save-refresh_example =
    save-refresh users_table users_table block saved users_table-IsStorable save_run

save_fits_example :
    (entity_bytes users_table ≤ length block.raw_data
      → (io' : IoManager) × (save users_table block ≡ ok io'))
    × (length block.raw_data < entity_bytes users_table → save users_table block ≡ err undefined)
save_fits_example = save_fits users_table block users_table-IsStorable

abbrev note : SqlTypes
note = sql_varchar (codes "hi")

abbrev small : IoManager
small = record { raw_data = zeros 8; buffer_offset = 1 }

abbrev noted : IoManager
noted = record { raw_data = 0 ∷ 2 ∷ 0 ∷ 0 ∷ 0 ∷ 104 ∷ 105 ∷ 0 ∷ []; buffer_offset = 7 }

note_run : write_sql note (type_of note) small ≡ ok noted
unfolding write_sql write_string put overwrite le_bytes
note_run = refl

write_sql-read_sql_example :
    (n : ℕ) × (size_of_sql_type note ≡ ok n)
    × (read_sql (type_of note) (seek 1 noted) ≡ ok (note, noted))
    × (7 ≡ 1 + n)
write_sql-read_sql_example =
    write_sql-read_sql note small noted (omega arith) (omega arith) (omega arith) note_run
