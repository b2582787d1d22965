-- ===== src/Entity.antt =====
-- core/storage/attribute.h, attribute.cpp, entity.h and entity.cpp: the metadata of a table, and how
-- it is kept in the first block of the table's file.
pub mod Codec
use csql.Base.{
  ℕ, zero, suc, ◌+◌, ◌≡◌, Bool, true, false, not, ◌&&◌, ◌||◌, Option, none, some, List, [], ◌∷◌,
  ◌++◌, map, ◌==◌, if◌then◌else◌, length, Str, str_eq,
}
use csql.Types.{DataTypes, SqlTypes, sql_null}
use csql.Types.Tuples.{Tuple, insert}
use csql.Base.Result.{Result, ok, err, ◌>>=◌}
use csql.Io.Cursor.{IoManager, seek}
use csql.Io.Values.{
  write_uint, read_uint, write_bool, read_bool, write_type, read_type, write_string, read_string,
  write_all, read_all, write_vector, read_vector,
}

pub record Reference : Type 0 where
  pub limit : ℕ
  pub entity_name : Str
  pub attribute_name : Str

-- The setters of the source return the object; they are record updates here.
pub record Attribute : Type 0 where
  pub name : Str
  pub type : DataTypes
  pub nullable : Bool
  pub primary : Bool
  pub unique : Bool
  pub auto_increment : ℕ
  pub reference : Option Reference

abbrev pub is_some {ℓ} : {A : Type ℓ} → Option A → Bool
is_some none = false
is_some (some a) = true

unfoldable pub is_null : Attribute → Bool
is_null a = if a.primary || (is_some a.reference || a.unique) then false else a.nullable

unfoldable pub is_unique : Attribute → Bool
is_unique a = if a.primary then true else a.unique

abbrev pub is_auto_increment : Attribute → Bool
is_auto_increment a = not (a.auto_increment == 0)

pub record IndexingMetadata : Type 0 where
  pub entity_name : Str
  pub root : ℕ
  pub keys : List Str
  pub is_clustered : Bool

pub record Entity : Type 0 where
  pub attributes : List Attribute
  pub indexing_metadata : List IndexingMetadata
  pub db_name : Str
  pub name : Str
  pub clustered_key : Str
  pub first_free_page : ℕ
  pub n_page : ℕ

unfoldable pub write_reference : Option Reference → IoManager → Result IoManager
unfolding write_bool write_uint write_string
write_reference none io = write_bool false io
write_reference (some r) io = do
  io1 ← write_bool true io
  io2 ← write_uint 4 r.limit io1
  io3 ← write_string r.entity_name io2
  write_string r.attribute_name io3

unfoldable pub read_reference : IoManager → Result (Option Reference × IoManager)
unfolding read_bool read_uint read_string
read_reference io = do
  (referred, io1) ← read_bool io
  elim referred [
    | false ↦ ok (none, io1)
    | true ↦ do
      (limit, io2) ← read_uint 4 io1
      (entity_name, io3) ← read_string io2
      (attribute_name, io4) ← read_string io3
      let r : Reference = record {
        limit = limit;
        entity_name = entity_name;
        attribute_name = attribute_name;
      }
      ok (some r, io4)
  ]

unfoldable pub write_attribute : Attribute → IoManager → Result IoManager
unfolding write_string write_type write_bool write_uint write_reference is_null is_unique
write_attribute a io = do
  io1 ← write_string a.name io
  io2 ← write_type a.type io1
  io3 ← write_bool (is_null a) io2
  io4 ← write_bool a.primary io3
  io5 ← write_bool (is_unique a) io4
  io6 ← write_uint 4 a.auto_increment io5
  write_reference a.reference io6

unfoldable pub read_attribute : IoManager → Result (Attribute × IoManager)
unfolding read_string read_type read_bool read_uint read_reference
read_attribute io = do
  (name, io1) ← read_string io
  (type, io2) ← read_type io1
  (nullable, io3) ← read_bool io2
  (primary, io4) ← read_bool io3
  (unique, io5) ← read_bool io4
  (auto_increment, io6) ← read_uint 4 io5
  (reference, io7) ← read_reference io6
  let a : Attribute = record {
    name = name;
    type = type;
    nullable = nullable;
    primary = primary;
    unique = unique;
    auto_increment = auto_increment;
    reference = reference;
  }
  ok (a, io7)

unfoldable pub write_index : IndexingMetadata → IoManager → Result IoManager
unfolding write_uint write_bool write_vector write_string
write_index x io = do
  io1 ← write_uint 4 x.root io
  io2 ← write_bool x.is_clustered io1
  write_vector write_string x.keys io2

unfoldable pub read_index : Str → IoManager → Result (IndexingMetadata × IoManager)
unfolding read_uint read_bool read_vector read_string
read_index entity_name io = do
  (root, io1) ← read_uint 4 io
  (is_clustered, io2) ← read_bool io1
  (keys, io3) ← read_vector read_string io2
  let x : IndexingMetadata = record {
    entity_name = entity_name;
    root = root;
    keys = keys;
    is_clustered = is_clustered;
  }
  ok (x, io3)

-- `Entity::save` on the entity's own block, after the cursor is reset.
unfoldable pub write_entity : Entity → IoManager → Result IoManager
unfolding write_string write_uint write_vector write_attribute write_index
write_entity e io = do
  io1 ← write_string e.name io
  io2 ← write_uint 8 e.first_free_page io1
  io3 ← write_uint 8 e.n_page io2
  io4 ← write_string e.clustered_key io3
  io5 ← write_vector write_attribute e.attributes io4
  write_vector write_index e.indexing_metadata io5

unfoldable pub save : Entity → IoManager → Result IoManager
unfolding write_entity
save e io = write_entity e (seek 0 io)

-- `Entity::refresh`: the name of the database stays.
unfoldable pub read_entity : Entity → IoManager → Result (Entity × IoManager)
unfolding read_string read_uint read_vector read_attribute read_index
read_entity e io = do
  (name, io1) ← read_string io
  (first_free_page, io2) ← read_uint 8 io1
  (n_page, io3) ← read_uint 8 io2
  (clustered_key, io4) ← read_string io3
  (attributes, io5) ← read_vector read_attribute io4
  (indexing_metadata, io6) ← read_vector (read_index name) io5
  let e' : Entity = record {
    attributes = attributes;
    indexing_metadata = indexing_metadata;
    db_name = e.db_name;
    name = name;
    clustered_key = clustered_key;
    first_free_page = first_free_page;
    n_page = n_page;
  }
  ok (e', io6)

unfoldable pub refresh : Entity → IoManager → Result (Entity × IoManager)
unfolding read_entity
refresh e io = read_entity e (seek 0 io)

unfoldable pub get_attribute : Str → List Attribute → Option Attribute
get_attribute name [] = none
get_attribute name (a ∷ others) = if str_eq a.name name then some a else get_attribute name others

unfoldable pub add_attribute : Entity → Attribute → Entity
unfolding get_attribute
add_attribute e a = elim (get_attribute a.name e.attributes) [
  | none ↦ record e { attributes = e.attributes ++ a ∷ [] }
  | some b ↦ e
]

-- `operator==` of `std::vector<std::string>`
unfoldable pub names_eq : List Str → List Str → Bool
names_eq [] [] = true
names_eq [] (t ∷ ts) = false
names_eq (s ∷ ss) [] = false
names_eq (s ∷ ss) (t ∷ ts) = str_eq s t && names_eq ss ts

-- The loop of `addIndexingMetadata`: an index on these keys is there, or a clustered one is and
-- another is asked for.
unfoldable pub has_index : List Str → Bool → List IndexingMetadata → Bool
unfolding names_eq
has_index keys is_clustered [] = false
has_index keys is_clustered (x ∷ xs) =
    (names_eq x.keys keys || (x.is_clustered && is_clustered)) || has_index keys is_clustered xs

unfoldable pub add_indexing_metadata : Entity → List Str → Bool → Entity
unfolding has_index
add_indexing_metadata e keys is_clustered =
    if has_index keys is_clustered e.indexing_metadata
    then e
    else record e { indexing_metadata = e.indexing_metadata ++ x ∷ [] }
  where
    x : IndexingMetadata
    x = record { entity_name = e.name; root = 0; keys = keys; is_clustered = is_clustered }

unfoldable pub base_null_tuple_of : List Attribute → Tuple → Tuple
base_null_tuple_of [] t = t
base_null_tuple_of (a ∷ others) t = base_null_tuple_of others (insert a.name sql_null t)

abbrev pub base_null_tuple : Entity → Tuple
base_null_tuple e = base_null_tuple_of e.attributes []

-- `getIndexNewPage` returns `nPage++`.
unfoldable pub get_index_new_page : Entity → ℕ × Entity
get_index_new_page e = (e.n_page, record e { n_page = e.n_page + 1 })
