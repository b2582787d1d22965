-- ===== src/Entity/Codec.antt =====
-- The metadata of a table survives `Entity::save` and `Entity::refresh`.
use csql.Base.{
  ℕ, ◌+◌, ◌^◌, ◌≤◌, ◌<◌, ◌≡◌, refl, ◌∙◌, true, false, Option, none, some, arith, length, map, Str,
}
use mathlib.Core.Path.{subst}
use csql.Base.Result.{ok, err, undefined}
use csql.Io.Cursor.{IoManager, put_fits, put_over, seek}
use csql.Io.Values.{write_string, read_string}
use csql.Io.Codec.{Carries, Carries-then, Carries-map, Carries-last, Carries-round_trip}
use csql.Io.RoundTrip.Scalars.{uint-Carries, bool-Carries, string-Carries, type-Carries, IsShort}
use csql.Io.RoundTrip.Compounds.{All, total, vector-Carries, map_self}
use csql.Entity.{
  Reference, Attribute, IndexingMetadata, Entity, is_null, is_unique, write_reference,
  read_reference, write_attribute, read_attribute, write_index, read_index, write_entity,
  read_entity, save, refresh,
}

abbrev pub IsReference : Option Reference → Type 0
IsReference none = Unit
IsReference (some r) = (r.limit < 2 ^ 32) × IsShort r.entity_name × IsShort r.attribute_name

abbrev reference_bytes : Option Reference → ℕ
reference_bytes none = 1
reference_bytes (some r) = 1 + (4 + ((4 + length r.entity_name) + (4 + length r.attribute_name)))

reference-Carries :
    (r : Option Reference)
    → IsReference r
    → Carries (write_reference r) read_reference r (reference_bytes r)
unfolding write_reference read_reference
reference-Carries none h = Carries-last _ _ _ _ _ _ (bool-Carries false) (λ io. refl)
reference-Carries (some r) h = Carries-then _ _ _ _ _ _ _ _ (bool-Carries true) (
    Carries-then _ _ _ _ _ _ _ _ (uint-Carries 4 r.limit (omega arith)) (
      Carries-then _ _ _ _ _ _ _ _ (string-Carries r.entity_name h.1)
        (Carries-map _ _ _ _ _ (string-Carries r.attribute_name h.2))))

-- What a reader of the block sees of an attribute: the getters' values.
abbrev pub stored : Attribute → Attribute
stored a = record a { nullable = is_null a; unique = is_unique a }

pub record IsAttribute (a : Attribute) : Type 0 where
  pub name : IsShort a.name
  pub auto_increment : a.auto_increment < 2 ^ 32
  pub reference : IsReference a.reference

abbrev attribute_bytes : Attribute → ℕ
attribute_bytes a = (4 + length a.name) + (4 + (1 + (1 + (1 + (4 + reference_bytes a.reference)))))

attribute-Carries :
    (a : Attribute)
    → IsAttribute a
    → Carries (write_attribute a) read_attribute (stored a) (attribute_bytes a)
unfolding write_attribute read_attribute
attribute-Carries a h = Carries-then _ _ _ _ _ _ _ _ (string-Carries a.name h.name) (
    Carries-then _ _ _ _ _ _ _ _ (type-Carries a.type) (
      Carries-then _ _ _ _ _ _ _ _ (bool-Carries (is_null a)) (
        Carries-then _ _ _ _ _ _ _ _ (bool-Carries a.primary) (
          Carries-then _ _ _ _ _ _ _ _ (bool-Carries (is_unique a)) (
            Carries-then _ _ _ _ _ _ _ _
              (uint-Carries 4 a.auto_increment (omega (arith, h.auto_increment)))
              (Carries-map _ _ _ _ _ (reference-Carries a.reference h.reference)))))))

pub record IsIndex (name : Str) (x : IndexingMetadata) : Type 0 where
  pub entity_name : x.entity_name ≡ name
  pub root : x.root < 2 ^ 32
  pub count : length x.keys < 2 ^ 64
  pub keys : All IsShort x.keys

abbrev index_bytes : IndexingMetadata → ℕ
index_bytes x = 4 + (1 + (8 + total (λ s. 4 + length s) x.keys))

index-Carries :
    (name : Str) (x : IndexingMetadata)
    → IsIndex name x
    → Carries (write_index x) (read_index name) x (index_bytes x)
unfolding write_index read_index
index-Carries name x h =
    let keys = rw (map_self x.keys) at (
      vector-Carries {P = IsShort} write_string read_string (λ s. s) (λ s. 4 + length s) x.keys
        string-Carries h.count h.keys) in
    subst (λ (n : Str). Carries (write_index x) (read_index n) x (index_bytes x)) h.entity_name
      (Carries-then _ _ _ _ _ _ _ _ (uint-Carries 4 x.root (omega (arith, h.root)))
        (Carries-then _ _ _ _ _ _ _ _ (bool-Carries x.is_clustered) (Carries-map _ _ _ _ _ keys)))

-- The entity as a reader of its block sees it; the name of the database is the reader's own.
abbrev pub reloaded : Entity → Entity → Entity
reloaded old e = record e { attributes = map stored e.attributes; db_name = old.db_name }

-- The bounds of the machine types, and that the indexes carry the table's name.
pub record IsStorable (e : Entity) : Type 0 where
  pub name : IsShort e.name
  pub first_free_page : e.first_free_page < 2 ^ 64
  pub n_page : e.n_page < 2 ^ 64
  pub clustered_key : IsShort e.clustered_key
  pub attribute_count : length e.attributes < 2 ^ 64
  pub attributes : All IsAttribute e.attributes
  pub index_count : length e.indexing_metadata < 2 ^ 64
  pub indexing_metadata : All (IsIndex e.name) e.indexing_metadata

-- The number of bytes that the entity takes.
pub entity_bytes : Entity → ℕ
entity_bytes e =
    (4 + length e.name)
    + (8
        + (8
            + ((4 + length e.clustered_key)
                + ((8 + total attribute_bytes e.attributes)
                    + (8 + total index_bytes e.indexing_metadata)))))

entity-Carries :
    (e old : Entity)
    → IsStorable e
    → Carries (write_entity e) (read_entity old) (reloaded old e) (entity_bytes e)
unfolding write_entity read_entity entity_bytes
entity-Carries e old h =
    let columns =
      vector-Carries {P = IsAttribute} write_attribute read_attribute stored attribute_bytes
        e.attributes attribute-Carries h.attribute_count h.attributes in
    let indexes = rw (map_self e.indexing_metadata) at (
      vector-Carries {P = IsIndex e.name} write_index (read_index e.name) (λ x. x) index_bytes
        e.indexing_metadata (index-Carries e.name) h.index_count h.indexing_metadata) in
    Carries-then _ _ _ _ _ _ _ _ (string-Carries e.name h.name) (
      Carries-then _ _ _ _ _ _ _ _
        (uint-Carries 8 e.first_free_page (omega (arith, h.first_free_page)))
        (Carries-then _ _ _ _ _ _ _ _ (uint-Carries 8 e.n_page (omega (arith, h.n_page))) (
          Carries-then _ _ _ _ _ _ _ _ (string-Carries e.clustered_key h.clustered_key)
            (Carries-then _ _ _ _ _ _ _ _ columns (Carries-map _ _ _ _ _ indexes)))))

-- `refresh` after `save` gives the entity back: its names, its free and used pages, its indexes, and
-- each attribute with the nullability and the uniqueness that the getters report. It takes
-- `entity_bytes` bytes of the block.
pub save-refresh :
    (e old : Entity) (io io' : IoManager)
    → IsStorable e
    → save e io ≡ ok io'
    → (refresh old io' ≡ ok (reloaded old e, io')) × (io'.buffer_offset ≡ entity_bytes e)
unfolding save refresh
save-refresh e old io io' h saved =
    let (again, size) =
      Carries-round_trip (write_entity e) (read_entity old) (reloaded old e) (entity_bytes e)
        (seek 0 io) io' (entity-Carries e old h) (omega arith) saved in
    (again, omega (arith, size))

-- The getters report of a reloaded attribute what they did before.
pub stored_idem : (a : Attribute) → stored (stored a) ≡ stored a
unfolding is_null is_unique
stored_idem a = ground arith

-- `save` succeeds exactly on entities that fit their block, and fails otherwise.
pub save_fits :
    (e : Entity) (io : IoManager)
    → IsStorable e
    → (entity_bytes e ≤ length io.raw_data → (io' : IoManager) × (save e io ≡ ok io'))
      × (length io.raw_data < entity_bytes e → save e io ≡ err undefined)
unfolding save
save_fits e io h =
    let (bs, w, _, n) = entity-Carries e e h in
    let start = w (seek 0 io) (omega arith) in
    (
      (λ room. let (io', done) = put_fits bs (seek 0 io) (omega (arith, n)) in (io', start ∙ done)),
      (λ over. start ∙ put_over bs (seek 0 io) (omega (arith, n))),
    )
