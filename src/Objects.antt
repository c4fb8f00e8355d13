-- ===== src/Objects.antt =====
-- The objects of `MemoryEngine` (crates/thingd/src/in_memory.rs): puts, compare-and-set, indexes.
-- JSON is read by the serde_json crate: `field` is the value that a body has at a name, none when the
-- body is not JSON, the name is absent or its value is null; `value_eq` is the equality of two values.
-- The clock reading of a put is its argument `now`. A vector's `f32`s stand by their bits.
pub mod Puts
pub mod Others
mod Tests
use thingd.Base.{
  ℕ, zero, suc, ◌+◌, ◌-◌, ◌*◌, ◌/◌, ◌%◌, ◌^◌, ◌≤◌, ◌<◌, min, max, Bytes, codes, ◌≡◌, refl, sym, ap,
  ◌∙◌, ◌≢◌, ◌↔◌, ◌⊎◌, inl, inr, Bool, true, false, not, ◌&&◌, ◌||◌, Option, none, some, List, [],
  ◌∷◌, ◌++◌, map, arith, ltb, leb, nat_beq, ltb→lt, lt→ltb, leb→le, le→leb, Bool-cases,
  Option-cases, if◌then◌else◌, u32_max, u64_max, i64_max, sat_add, Ord, ◌==◌, ◌<?◌, ==_iff, ==_refl,
  nat_ord, list_ord, pair_ord, list_beq, list_blt, length, take, drop, find, any, all, filter,
  last?, All, In, Empty, update_find, find-test, find-In, find-none-In, length-append, length-take,
  length-drop, take-append, drop-append, length-filter-le, contains, starts_with,
  starts_with-append,
}
use thingd.Base.BTreeMap.{BTreeMap, get, insert, remove, keys, values}
use thingd.Model.{ThingdResult, ok, err, conflict, invalid_input}
use thingd.Events.{add_one_u64, is_empty, sort_texts, dedup}

abbrev pub ObjectKey : Type 0
ObjectKey = Bytes × Bytes

pub record MemoryObject : Type 0 where
  pub key : ObjectKey
  pub body : Bytes
  pub version : ℕ
  pub created_at : Bytes
  pub updated_at : Bytes
  pub vector : Option (List ℕ)

pub record PutObjectOptions : Type 0 where
  pub index : Bool
  pub expected_version : Option ℕ

pub record IndexDefinition : Type 0 where
  pub collection : Bytes
  pub field : Bytes
  pub unique : Bool

pub record ObjectStore : Type 0 where
  pub objects : BTreeMap ObjectKey MemoryObject
  pub vectors : BTreeMap (Bytes × Bytes) (List ℕ)
  pub indexes : BTreeMap (Bytes × Bytes) IndexDefinition

unfoldable pub put_vector : ObjectStore → ObjectKey → Option (List ℕ) → ObjectStore
put_vector store key (some vector) = record store { vectors = insert key vector store.vectors }
put_vector store key none = record store { vectors = remove key store.vectors }

unfoldable pub next_version : Option MemoryObject → ℕ
next_version none = 1
next_version (some existing) = add_one_u64 existing.version

-- The object as it is stored.
unfoldable pub stamp_object : ObjectStore → MemoryObject → Bytes → MemoryObject
stamp_object store object now = record object {
  version = next_version (get object.key store.objects);
  updated_at = now;
  created_at = if is_empty object.created_at then now else object.created_at;
}

unfoldable pub write_object : ObjectStore → MemoryObject → ObjectStore
write_object store object =
    put_vector (record store { objects = insert object.key object store.objects }) object.key
      object.vector

unfoldable pub get_object : ObjectStore → Bytes → Bytes → Option MemoryObject
get_object store collection id = get (collection, id) store.objects

unfoldable pub delete_object : ObjectStore → Bytes → Bytes → ObjectStore × ThingdResult Bool
delete_object store collection id = (
  record store {
    vectors = remove (collection, id) store.vectors;
    objects = remove (collection, id) store.objects;
  },
  ok (elim (get (collection, id) store.objects) [ none ↦ false | some object ↦ true ]),
)

unfoldable pub count_objects : ObjectStore → ℕ
count_objects store = length store.objects

unfoldable pub count_objects_in_collection : ObjectStore → Bytes → ℕ
count_objects_in_collection store collection =
    length (filter (λ key. key.0 == collection) (keys store.objects))

unfoldable pub list_collections : ObjectStore → List Bytes
list_collections store = dedup (sort_texts (map (λ key. key.0) (keys store.objects)))

unfoldable pub list_indexes : ObjectStore → List (Bytes × Bytes)
list_indexes store = keys store.indexes

unfoldable pub list_index_definitions : ObjectStore → List IndexDefinition
list_index_definitions store = values store.indexes

unfoldable pub delete_index : ObjectStore → Bytes → Bytes → ObjectStore × ThingdResult Bool
delete_index store collection name = (
  record store { indexes = remove (collection, name) store.indexes },
  ok (elim (get (collection, name) store.indexes) [ none ↦ false | some index ↦ true ]),
)

-- The guard of `put_object_with_options`: an expected zero means that there is no object.
unfoldable pub version_matches : Option MemoryObject → ℕ → Bool
version_matches none expected = expected == 0
version_matches (some existing) expected = not (expected == 0) && existing.version == expected

-- The guard of `put_object_with_source_metadata`.
unfoldable pub source_matches : Option MemoryObject → ℕ → Bool
source_matches none expected = false
source_matches (some existing) expected = existing.version == expected

unfoldable pub guard_version :
    (Option MemoryObject → ℕ → Bool) → Option MemoryObject → Option ℕ → Bool
guard_version matches existing none = true
guard_version matches existing (some expected) = matches existing expected

-- What the source of a replicated object says about it.
unfoldable pub replicate : MemoryObject → MemoryObject → MemoryObject
replicate object stored = record stored {
  version = if ltb 0 object.version then object.version else stored.version;
  created_at = if is_empty object.created_at then stored.created_at else object.created_at;
  updated_at = if is_empty object.updated_at then stored.updated_at else object.updated_at;
}

-- The end of a put: what the check of the unique indexes says.
unfoldable pub put_validated :
    ObjectStore
    → MemoryObject
    → Bytes
    → ThingdResult (Unit {0})
    → ObjectStore × ThingdResult MemoryObject
put_validated store object now (err e) = (store, err e)
put_validated store object now (ok done) =
    (write_object store (stamp_object store object now), ok (stamp_object store object now))

module _ {V : Type 0} (field : Bytes → Bytes → Option V) (value_eq : V → V → Bool) where
  -- Another object of the collection that has the value at the field.
  unfoldable pub same_value : Option V → Option V → Bool
  same_value none b = false
  same_value (some a) none = false
  same_value (some a) (some b) = value_eq b a

  unfoldable pub takes_value : MemoryObject → IndexDefinition → MemoryObject → Bool
  takes_value object index existing =
      not (existing.key == object.key)
      && (existing.key.0 == object.key.0
          && same_value (field object.body index.field) (field existing.body index.field))

  unfoldable pub index_allows : ObjectStore → MemoryObject → IndexDefinition → Bool
  index_allows store object index =
      not (index.unique && index.collection == object.key.0)
      || not (any (takes_value object index) (values store.objects))

  unfoldable pub validate_unique_indexes : ObjectStore → MemoryObject → ThingdResult (Unit {0})
  validate_unique_indexes store object =
      if all (index_allows store object) (values store.indexes) then ok tt else err conflict

  unfoldable pub put_object :
      ObjectStore → MemoryObject → Bytes → ObjectStore × ThingdResult MemoryObject
  put_object store object now =
      put_validated store object now (validate_unique_indexes store object)

  unfoldable pub put_object_with_options :
      ObjectStore
      → MemoryObject
      → PutObjectOptions
      → Bytes
      → ObjectStore × ThingdResult MemoryObject
  put_object_with_options store object options now =
      if guard_version version_matches (get object.key store.objects) options.expected_version
      then put_object store object now
      else (store, err conflict)

  unfoldable pub replicate_put :
      MemoryObject
      → ObjectStore × ThingdResult MemoryObject
      → ObjectStore × ThingdResult MemoryObject
  replicate_put object (store, err e) = (store, err e)
  replicate_put object (store, ok stored) = (
    record store { objects = insert object.key (replicate object stored) store.objects },
    ok (replicate object stored),
  )

  unfoldable pub put_object_with_source_metadata :
      ObjectStore
      → MemoryObject
      → PutObjectOptions
      → Bytes
      → ObjectStore × ThingdResult MemoryObject
  put_object_with_source_metadata store object options now =
      if guard_version source_matches (get object.key store.objects) options.expected_version
      then replicate_put object (put_object store object now)
      else (store, err conflict)

  -- The values of the objects, in order; a duplicate is refused.
  unfoldable pub has_duplicates : List V → List (Option V) → Bool
  has_duplicates seen [] = false
  has_duplicates seen (none ∷ more) = has_duplicates seen more
  has_duplicates seen (some value ∷ more) =
      any (λ existing. value_eq existing value) seen || has_duplicates (seen ++ value ∷ []) more

  unfoldable pub validate_existing_unique_index :
      ObjectStore → IndexDefinition → ThingdResult (Unit {0})
  validate_existing_unique_index store index =
      if has_duplicates [] (
        map (λ object. field object.body index.field)
          (filter (λ object. object.key.0 == index.collection) (values store.objects)))
      then err conflict
      else ok tt

  unfoldable pub create_index_definition :
      ObjectStore → IndexDefinition → ObjectStore × ThingdResult (Unit {0})
  create_index_definition store index =
      if is_empty index.collection || is_empty index.field
      then (store, err invalid_input)
      else elim (if index.unique then validate_existing_unique_index store index else ok tt) [
        | err e ↦ (store, err e)
        | ok done ↦ (
          record store { indexes = insert (index.collection, index.field) index store.indexes },
          ok tt,
        )
      ]

  unfoldable pub create_index : ObjectStore → Bytes → Bytes → ObjectStore × ThingdResult (Unit {0})
  create_index store collection name =
      create_index_definition store
        (record { collection = collection; field = name; unique = false })
