-- ===== src/Replication/Tests.antt =====
-- A source and a replica with a plain encoding of JSON values: a tag, then the value.
use thingd.Base.{
  ℕ, zero, suc, ◌≤◌, Bytes, codes, ◌≡◌, refl, inl, false, Option, none, some, List, [], ◌∷◌, ◌++◌,
  arith, if◌then◌else◌, u64_max, ◌==◌, ==_refl, nat_ord, list_ord, pair_ord, list_beq, list_blt,
  length, take, drop, All, take-append, drop-append, starts_with,
}
use thingd.Base.{pair_beq, pair_blt}
use thingd.Base.BTreeMap.{get, insert, remove}
use thingd.Model.{new_event, ok, err, conflict}
use thingd.Events.{
  EventLog, known_event, stamp_event, track_key, store_event, append_unless, in_stream, is_after,
  is_since, up_to, list_events, add_one_u64,
}
use thingd.Events.Order.{IsOrdered}
use thingd.Objects.{
  MemoryObject, ObjectStore, put_vector, next_version, stamp_object, write_object, source_matches,
  guard_version, replicate, put_validated, index_allows, validate_unique_indexes, replicate_put,
  put_object_with_source_metadata,
}
use thingd.Events
use thingd.Objects
use thingd.Replication.{
  Json, provenance_collection, ReplicationConfig, source, replica, is_system, allowed, Engine,
  new_object, metadata_id, append_event, get_object, delete_object, list_objects, ReplicationChange,
  put_object, put_with_source, text_member, u64_member, member_or_null, text_or_empty, u64_or_zero,
  parse_or_null,
}
use thingd.Replication.Source.{
  record_change, upsert_change, record_object_upsert, delete_change, record_object_delete,
  ReplicationPage, change_of, changes_of, feed, is_lost, last_sequence, page_of, events,
  changes_after,
}
use thingd.Replication.Changes.{
  ReplicationApplyResult, ReplicationSnapshot, state_id, cursor_in, cursor_of, read_applied_cursor,
  cursor_body, write_applied_cursor, write_provenance, write_conflict, payload_object, is_present,
  version_of, is_foreign, refuse_upsert, upsert, apply_object, write_tombstone, apply_delete,
  apply_event, apply_operation,
}
use thingd.Replication.Replica.{
  is_duplicate, apply_new, enter, apply_item, apply_items, write_checkpoint, apply,
}
use thingd.Replication.Snapshot.{
  delete_allowed, put_one, put_all, append_one, append_all, finish_snapshot, cleared, snapshot,
  apply_snapshot,
}
use thingd.Replication.Feed.{events-pages}
use thingd.Replication.Frame.{apply-Keeps}
use thingd.Replication.Run.{IsNumbered}
use thingd.Replication.Again.{apply-apply}
use thingd.Replication.Conflict.{IsUpsert, apply_snapshot-apply}

encode : List (Bytes × Bytes) → Bytes
encode [] = []
encode ((name, value) ∷ more) = length name ∷ (name ++ (length value ∷ (value ++ encode more)))

-- The value under a name, in at most so many members.
member_here : Bytes → Bytes → Bytes → Option Bytes → Option Bytes
member_here name found [] later = none
member_here name found (n ∷ rest) later = if found == name then some (take n rest) else later

abbrev skip_value : Bytes → Bytes
skip_value [] = []
skip_value (n ∷ rest) = drop n rest

find_member : ℕ → Bytes → Bytes → Option Bytes
find_member zero name xs = none
find_member (suc f) name [] = none
find_member (suc f) name (n ∷ xs) =
    let later = find_member f name (skip_value (drop n xs)) in
    member_here name (take n xs) (drop n xs) later

plain_member : Bytes → Bytes → Option Bytes
plain_member name [] = none
plain_member name (tag ∷ body) = if tag == 4 then find_member 16 name body else none

plain_text : Bytes → Option Bytes
plain_text [] = none
plain_text (tag ∷ s) = if tag == 1 then some s else none

plain_number : Bytes → Option ℕ
plain_number [] = none
plain_number (tag ∷ []) = none
plain_number (tag ∷ n ∷ more) = if tag == 2 then some n else none

second_found :
    (a b v w : Bytes)
    → (a == b) ≡ false
    → plain_member b (4 ∷ encode ((a, v) ∷ (b, w) ∷ [])) ≡ some w
unfolding plain_member find_member member_here encode
second_found a b v w apart =
    rw
      (
        take-append a (length v ∷ (v ++ encode ((b, w) ∷ []))),
        drop-append a (length v ∷ (v ++ encode ((b, w) ∷ []))),
        apart,
        drop-append v (encode ((b, w) ∷ [])),
        take-append b (length w ∷ (w ++ encode [])),
        drop-append b (length w ∷ (w ++ encode [])),
        ==_refl b,
        take-append w (encode []),
      )
      refl

number_found : (n : ℕ) → n ≤ u64_max → plain_number (2 ∷ n ∷ []) ≡ some n
unfolding plain_number
number_found n h = refl

abbrev plain : Json
plain = record {
  Value = Bytes;
  from_str = some;
  to_string = λ v. v;
  member = plain_member;
  as_str = plain_text;
  as_u64 = plain_number;
  null = 0 ∷ [];
  text = λ s. 1 ∷ s;
  number = λ n. 2 ∷ n ∷ [];
  boolean = λ b. 3 ∷ (if b then 1 else 0) ∷ [];
  object = λ fields. 4 ∷ encode fields;
  decimal = λ n. n ∷ [];
  indexed = λ body name. none;
  value_eq = λ a b. a == b;
  from_str-to_string = λ v. refl;
  member-second = λ a b v w. second_found a b v w;
  as_u64-number = number_found;
}

program : Unit {0}
unfolding encode member_here find_member plain_member plain_text plain_number known_event
    stamp_event track_key store_event append_unless in_stream is_after is_since up_to list_events
    add_one_u64 Events.append_event Objects.put_object Objects.get_object Objects.delete_object
    put_vector next_version stamp_object write_object source_matches guard_version replicate
    put_validated index_allows validate_unique_indexes replicate_put put_object_with_source_metadata
    get insert remove starts_with list_beq list_blt pair_beq pair_blt is_system allowed new_object
    metadata_id append_event get_object delete_object list_objects put_object put_with_source
    text_member u64_member member_or_null text_or_empty u64_or_zero parse_or_null record_change
    upsert_change record_object_upsert delete_change record_object_delete change_of changes_of feed
    is_lost last_sequence page_of events changes_after state_id cursor_in cursor_of
    read_applied_cursor cursor_body write_applied_cursor write_provenance write_conflict
    payload_object is_present version_of is_foreign refuse_upsert upsert apply_object
    write_tombstone apply_delete apply_event apply_operation is_duplicate apply_new enter apply_item
    apply_items write_checkpoint apply delete_allowed put_one put_all append_one append_all
    finish_snapshot cleared snapshot apply_snapshot new_event
program = tt

abbrev blank : Engine
blank = record {
  store = record { objects = []; vectors = []; indexes = [] };
  log = record { events = []; next_event_sequence = 0; event_idempotency_keys = [] };
}

abbrev as_source : ReplicationConfig
as_source = record { source_id = codes "a"; role = source; collections = [] }

abbrev as_replica : ReplicationConfig
as_replica = record { source_id = codes "a"; role = replica; collections = [] }

-- The source has one note, records it, and deletes it later.
abbrev note : MemoryObject
note = record {
  key = (codes "notes", codes "1");
  body = 1 ∷ codes "hello";
  version = 3;
  created_at = codes "t0";
  updated_at = codes "t0";
  vector = none;
}

abbrev source_engine : Engine
unfolding program
source_engine =
    (record_object_delete plain as_source
      (record_object_upsert plain as_source blank note (codes "t1")).0 (codes "notes") (codes "1")
      (codes "t2")).0

abbrev changes : List (ReplicationChange plain)
unfolding program
changes = changes_after plain as_source source_engine 0

abbrev applied : Engine
unfolding program
applied = (apply plain as_replica (codes "t3") blank changes).0

abbrev two_applied : ReplicationApplyResult
two_applied = record { applied = 2; skipped = 0; conflicts = 0; last_applied_cursor = 2 }

test_apply : apply plain as_replica (codes "t3") blank changes ≡ (applied, ok two_applied)
unfolding program
test_apply = refl

-- The note came and went, and is kept as a tombstone.
test_gone :
    (get_object applied (codes "notes") (codes "1") ≡ none)
    × (read_applied_cursor plain applied (codes "a") ≡ 2)
unfolding program
test_gone = (refl, refl)

test-IsNumbered : All (IsNumbered plain) changes
unfolding program
test-IsNumbered = omega arith

apply-apply_example :
    apply plain as_replica (codes "t4") applied changes
    ≡ (applied, ok (record { applied = 0; skipped = 2; conflicts = 0; last_applied_cursor = 0 }))
unfolding program
apply-apply_example =
    apply-apply plain as_replica (codes "t3") (codes "t4") blank applied changes two_applied
      test-IsNumbered test_apply

apply-Keeps_example :
    get
      (codes "__thingd:mine", codes "x")
      (apply plain as_replica (codes "t3") blank changes).0.store.objects
    ≡ get (codes "__thingd:mine", codes "x") blank.store.objects
unfolding program
apply-Keeps_example =
    apply-Keeps plain as_replica (codes "t3") blank changes (codes "__thingd:mine", codes "x")
      (record {
        not_allowed = refl;
        not_provenance = refl;
        not_tombstone = refl;
        not_quarantine = refl;
      })
      refl

-- A page of one change, and the other one after it.
abbrev page : ReplicationPage plain
unfolding program
page = record { source_id = codes "a"; after = 0; next = 1; changes = take 1 changes }

test_page : events plain as_source source_engine 0 1 ≡ ok page
unfolding program
test_page = refl

test-IsOrdered : IsOrdered source_engine.log
unfolding program
test-IsOrdered = omega arith

events-pages_example :
    take 1 changes ++ changes_after plain as_source source_engine 1
    ≡ changes_after plain as_source source_engine 0
unfolding program
events-pages_example = events-pages plain as_source source_engine 0 1 page test-IsOrdered test_page

-- A replica starts from a snapshot with the note; then the source updates the note.
abbrev bootstrap : ReplicationSnapshot plain
bootstrap = record { source_id = codes "a"; cursor = 1; objects = note ∷ []; events = [] }

abbrev bootstrapped : Engine
unfolding program
bootstrapped = (apply_snapshot plain as_replica (codes "t3") false blank bootstrap).0

abbrev one_applied : ReplicationApplyResult
one_applied = record { applied = 1; skipped = 0; conflicts = 0; last_applied_cursor = 1 }

test_bootstrap :
    apply_snapshot plain as_replica (codes "t3") false blank bootstrap
    ≡ (bootstrapped, ok one_applied)
unfolding program
test_bootstrap = refl

abbrev update : ReplicationChange plain
unfolding program
update = record {
  source_id = codes "a";
  cursor = 2;
  idempotency_key = codes "a:2";
  change = upsert_change plain note;
}

test_update : IsUpsert plain update (codes "notes") (codes "1")
unfolding program
test_update = record { operation = refl; collection = refl; identifier = refl }

test_new :
    get_object blank provenance_collection (metadata_id (codes "a") (codes "notes") (codes "1"))
    ≡ none
unfolding program
test_new = refl

-- Without the snapshot the same update is applied.
test_unseen_update :
    (apply plain as_replica (codes "t4") blank (update ∷ [])).1
    ≡ ok (record { applied = 1; skipped = 0; conflicts = 0; last_applied_cursor = 2 })
unfolding program
test_unseen_update = refl

apply_snapshot-apply_example :
    (apply plain as_replica (codes "t4") bootstrapped (update ∷ [])).1 ≡ err conflict
unfolding program
apply_snapshot-apply_example =
    apply_snapshot-apply plain as_replica (codes "t3") (codes "t4") false blank bootstrapped
      bootstrap one_applied note update test_bootstrap (inl refl) refl refl (omega arith) test_new
      refl (omega arith) test_update
