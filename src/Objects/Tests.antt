-- ===== src/Objects/Tests.antt =====
-- Objects of one collection under a unique index.
use thingd.Base.{
  ℕ, Bytes, codes, ◌≡◌, refl, Bool, true, Option, none, some, [], ◌∷◌, arith, ◌==◌, nat_ord,
  list_ord, pair_ord, list_beq, list_blt,
}
use thingd.Base.{pair_beq, pair_blt}
use thingd.Base.BTreeMap.{get, insert, remove}
use thingd.Model.{ok, err, conflict, invalid_input}
use thingd.Events.{add_one_u64, insert_text, sort_texts, dedup}
use thingd.Objects.{
  MemoryObject, PutObjectOptions, ObjectStore, put_vector, next_version, stamp_object, write_object,
  get_object, delete_object, count_objects, count_objects_in_collection, list_collections,
  list_indexes, list_index_definitions, delete_index, version_matches, source_matches,
  guard_version, replicate, put_validated, same_value, takes_value, index_allows,
  validate_unique_indexes, put_object, put_object_with_options, replicate_put,
  put_object_with_source_metadata, has_duplicates, validate_existing_unique_index,
  create_index_definition, create_index,
}
use thingd.Objects.Puts.{Outcome, put_object_with_options-Outcome, put_object_with_options-conflict}

program : Unit {0}
unfolding put_vector next_version stamp_object write_object get_object delete_object count_objects
    count_objects_in_collection list_collections list_indexes list_index_definitions delete_index
    version_matches source_matches guard_version replicate put_validated same_value takes_value
    index_allows validate_unique_indexes put_object put_object_with_options replicate_put
    put_object_with_source_metadata has_duplicates validate_existing_unique_index
    create_index_definition create_index add_one_u64 insert_text sort_texts dedup get insert remove
    list_beq list_blt pair_beq pair_blt
program = tt

-- A body of the tests is the value of its only field.
abbrev field : Bytes → Bytes → Option Bytes
field body name = some body

abbrev value_eq : Bytes → Bytes → Bool
value_eq a b = a == b

abbrev blank : ObjectStore
blank = record { objects = []; vectors = []; indexes = [] }

abbrev person : Bytes → Bytes → MemoryObject
person id body = record {
  key = (codes "people", id);
  body = body;
  version = 0;
  created_at = [];
  updated_at = [];
  vector = none;
}

abbrev expecting : ℕ → PutObjectOptions
expecting n = record { index = true; expected_version = some n }

abbrev indexed : ObjectStore
indexed =
    (create_index_definition field value_eq blank
      (record { collection = codes "people"; field = codes "mail"; unique = true })).0

abbrev one : ObjectStore
one = (put_object field value_eq indexed (person (codes "a") (codes "x")) (codes "t0")).0

abbrev stored : MemoryObject
stored = record (person (codes "a") (codes "y")) {
  version = 2;
  created_at = codes "t1";
  updated_at = codes "t1";
}

puts :
    ((put_object field value_eq one (person (codes "b") (codes "x")) (codes "t1")).1 ≡ err conflict)
    × ((put_object_with_options field value_eq one
          (person (codes "a") (codes "y"))
          (expecting 1)
          (codes "t1")).1
        ≡ ok stored)
    × ((put_object_with_options field value_eq one
          (person (codes "a") (codes "y"))
          (expecting 0)
          (codes "t1")).1
        ≡ err conflict)
    × (list_collections one ≡ codes "people" ∷ [])
    × (count_objects_in_collection one (codes "people") ≡ 1)
    × (count_objects (delete_object one (codes "people") (codes "a")).0 ≡ 0)
    × (list_indexes one ≡ (codes "people", codes "mail") ∷ [])
    × (list_indexes (delete_index one (codes "people") (codes "mail")).0 ≡ [])
    × ((create_index field value_eq one [] (codes "mail")).1 ≡ err invalid_input)
unfolding program
puts = (refl, refl, refl, refl, refl, refl, refl, refl, refl)

-- A copy that a source sends with an expected version of zero is refused where there is no object.
source_zero :
    (put_object_with_source_metadata field value_eq blank
      (person (codes "a") (codes "x"))
      (expecting 0)
      (codes "t0")).1
    ≡ err conflict
unfolding program
source_zero = refl

put_object_with_options-Outcome_example : Outcome one (person (codes "b") (codes "z")) (
    put_object_with_options field value_eq one
      (person (codes "b") (codes "z"))
      (expecting 0)
      (codes "t1"))
put_object_with_options-Outcome_example =
    put_object_with_options-Outcome field value_eq one (person (codes "b") (codes "z"))
      (expecting 0) (codes "t1")

abbrev written : ObjectStore
written =
    (put_object_with_options field value_eq one (person (codes "a") (codes "y")) (expecting 1)
      (codes "t1")).0

put_object_with_options-conflict_example :
    put_object_with_options field value_eq written
      (person (codes "a") (codes "z"))
      (expecting 1)
      (codes "t2")
    ≡ (written, err conflict)
unfolding program
put_object_with_options-conflict_example =
    put_object_with_options-conflict field value_eq one (person (codes "a") (codes "y"))
      (person (codes "a") (codes "z")) stored 1 true (codes "t1") (codes "t2") refl (omega arith)
      refl
