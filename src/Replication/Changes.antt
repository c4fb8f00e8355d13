-- ===== src/Replication/Changes.antt =====
-- What a replica does for one change, and the records that it keeps.
use thingd.Base.{
  ℕ, Bytes, codes, Bool, true, false, not, ◌&&◌, Option, none, some, List, [], ◌∷◌, ◌++◌,
  if◌then◌else◌, ◌==◌, nat_ord, list_ord, pair_ord,
}
use thingd.Model.{MemoryEvent, new_event, ThingdResult, err, conflict, invalid_input}
use thingd.Objects.{MemoryObject}
use thingd.Replication.{
  Json, and_then, ok_or, state_collection, provenance_collection, tombstone_collection,
  quarantine_collection, Engine, new_object, metadata_id, append_event, get_object, delete_object,
  ReplicationChange, put_object, put_with_source, text_member, u64_member, member_or_null,
  text_or_empty, u64_or_zero, colon,
}

pub record ReplicationApplyResult : Type 0 where
  pub applied : ℕ
  pub skipped : ℕ
  pub conflicts : ℕ
  pub last_applied_cursor : ℕ

abbrev pub nothing_applied : ReplicationApplyResult
nothing_applied = record { applied = 0; skipped = 0; conflicts = 0; last_applied_cursor = 0 }

unfoldable pub state_id : Bytes → Bytes
state_id source_id = codes "source:" ++ source_id

module _ (j : Json) where
  pub record ReplicationSnapshot : Type 0 where
    pub source_id : Bytes
    pub cursor : ℕ
    pub objects : List MemoryObject
    pub events : List MemoryEvent

  unfoldable pub cursor_in : MemoryObject → Option ℕ
  cursor_in object = elim (j.from_str object.body) [
    | none ↦ none
    | some body ↦ u64_member j (codes "lastAppliedCursor") body
  ]

  unfoldable pub cursor_of : Option MemoryObject → ℕ
  cursor_of none = 0
  cursor_of (some object) = elim (cursor_in object) [ none ↦ 0 | some cursor ↦ cursor ]

  unfoldable pub read_applied_cursor : Engine → Bytes → ℕ
  read_applied_cursor e source_id = cursor_of (get_object e state_collection (state_id source_id))

  unfoldable pub cursor_body : Bytes → ℕ → Bytes
  cursor_body source_id cursor = j.to_string (
      j.object
        ((codes "sourceId", j.text source_id) ∷ (codes "lastAppliedCursor", j.number cursor) ∷ []))

  unfoldable pub write_applied_cursor :
      Engine → Bytes → ℕ → Bytes → Engine × ThingdResult (Unit {0})
  write_applied_cursor e source_id cursor now =
      put_object j e
        (new_object state_collection (state_id source_id) (cursor_body source_id cursor)) now

  unfoldable pub write_provenance :
      Engine
      → ReplicationChange j
      → Bytes
      → Bytes
      → j.Value
      → Bytes
      → Engine × ThingdResult (Unit {0})
  write_provenance e item collection id payload now =
      put_object j e
        (new_object provenance_collection (metadata_id item.source_id collection id) (
          j.to_string (
            j.object (
              (codes "sourceId", j.text item.source_id)
              ∷ (codes "cursor", j.number item.cursor)
              ∷ (codes "collection", j.text collection)
              ∷ (codes "id", j.text id)
              ∷ (codes "sourceVersion", j.number (u64_or_zero j (codes "version") payload))
              ∷ (codes "createdAt", j.text (text_or_empty j (codes "createdAt") payload))
              ∷ (codes "updatedAt", j.text (text_or_empty j (codes "updatedAt") payload))
              ∷ (codes "deleted", j.boolean false)
              ∷ []))))
        now

  unfoldable pub write_conflict :
      Engine → ReplicationChange j → Bytes → Bytes → Bytes → Engine × ThingdResult (Unit {0})
  write_conflict e item collection id now =
      put_object j e
        (new_object quarantine_collection (item.source_id ++ colon ++ j.decimal item.cursor) (
          j.to_string (
            j.object (
              (codes "sourceId", j.text item.source_id)
              ∷ (codes "cursor", j.number item.cursor)
              ∷ (codes "status", j.text (codes "quarantined"))
              ∷ (
                codes "conflict",
                j.object (
                    (codes "operation", j.text (codes "object.upsert"))
                    ∷ (codes "collection", j.text collection)
                    ∷ (codes "id", j.text id)
                    ∷ (codes "reason", j.text (codes "target_object_has_no_replication_provenance"))
                    ∷ []),
              )
              ∷ []))))
        now

  -- The object that a payload describes.
  unfoldable pub payload_object : Bytes → Bytes → j.Value → MemoryObject
  payload_object collection id payload = record {
    key = (collection, id);
    body = j.to_string (member_or_null j (codes "body") payload);
    version = u64_or_zero j (codes "version") payload;
    created_at = text_or_empty j (codes "createdAt") payload;
    updated_at = text_or_empty j (codes "updatedAt") payload;
    vector = none;
  }

  unfoldable pub is_present : Option MemoryObject → Bool
  is_present none = false
  is_present (some object) = true

  unfoldable pub version_of : Option MemoryObject → Option ℕ
  version_of none = none
  version_of (some object) = some object.version

  -- A target object that replication did not write.
  unfoldable pub is_foreign : Engine → Bytes → Bytes → Bytes → Bool
  is_foreign e source_id collection id =
      is_present (get_object e collection id)
      && not (is_present (get_object e provenance_collection (metadata_id source_id collection id)))

  unfoldable pub refuse_upsert :
      Engine → ReplicationChange j → Bytes → Bytes → Bytes → Engine × ThingdResult (Unit {0})
  refuse_upsert e item collection id now =
      and_then (write_conflict e item collection id now) (λ e' done. (e', err conflict))

  unfoldable pub upsert :
      Engine
      → ReplicationChange j
      → Bytes
      → Bytes
      → j.Value
      → Bytes
      → Engine × ThingdResult (Unit {0})
  upsert e item collection id payload now =
      and_then
        (put_with_source j e (payload_object collection id payload)
          (version_of (get_object e collection id)) now)
        (λ e' done. write_provenance e' item collection id payload now)

  unfoldable pub apply_object :
      Engine → ReplicationChange j → Option Bytes → Bytes → Engine × ThingdResult (Unit {0})
  apply_object e item collection now = ok_or e collection λ c.
      ok_or e (text_member j (codes "id") item.change) λ id.
        if is_foreign e item.source_id c id
        then refuse_upsert e item c id now
        else upsert e item c id (member_or_null j (codes "payload") item.change) now

  unfoldable pub write_tombstone :
      Engine → ReplicationChange j → Bytes → Bytes → Bytes → Engine × ThingdResult (Unit {0})
  write_tombstone e item collection id now =
      put_object j e
        (new_object tombstone_collection (metadata_id item.source_id collection id) (
          j.to_string (
            j.object (
              (codes "sourceId", j.text item.source_id)
              ∷ (codes "cursor", j.number item.cursor)
              ∷ (codes "collection", j.text collection)
              ∷ (codes "id", j.text id)
              ∷ (codes "deleted", j.boolean true)
              ∷ []))))
        now

  unfoldable pub apply_delete :
      Engine → ReplicationChange j → Option Bytes → Bytes → Engine × ThingdResult (Unit {0})
  apply_delete e item collection now = ok_or e collection λ c.
      ok_or e (text_member j (codes "id") item.change)
        λ id. write_tombstone (delete_object e c id) item c id now

  unfoldable pub apply_event :
      Engine → ReplicationChange j → Bytes → Engine × ThingdResult (Unit {0})
  apply_event e item now = ok_or e (j.member (codes "payload") item.change) λ payload.
      ok_or e (text_member j (codes "stream") payload) λ stream.
        ok_or e (text_member j (codes "type") payload) λ event_type.
          append_event e
            (record (new_event stream event_type
              (j.to_string (member_or_null j (codes "body") payload))) {
                idempotency_key = item.idempotency_key;
              })
            now

  unfoldable pub apply_operation :
      Engine → ReplicationChange j → Bytes → Option Bytes → Bytes → Engine × ThingdResult (Unit {0})
  apply_operation e item operation collection now =
      if operation == codes "object.upsert"
      then apply_object e item collection now
      else if operation == codes "object.delete"
      then apply_delete e item collection now
      else if operation == codes "event.append"
      then apply_event e item now
      else (e, err invalid_input)
